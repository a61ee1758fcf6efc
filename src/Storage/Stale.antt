-- ===== src/Storage/Stale.antt =====
-- Stale callers of storage/repository.py.
use mathlib.Core.Option.{some-injective}
use gpt_trace_extractor_for.Base.{
  ℕ, String, ◌≡◌, ◌≢◌, ◌⊎◌, Option, none, some, Bool, true, string_eq, option_eq, arith, subst, sym,
  nat_beq_iff, option_beq_iff,
}
use gpt_trace_extractor_for.Json.{Value}
use gpt_trace_extractor_for.Storage.{
  Run, Table, get_run, Decision, conflicts, run_conflict, commit, Caller, Completion, is_stale,
  on_row, set_conversation, set_conversation_decision, fail_run, fail_decision,
}
use gpt_trace_extractor_for.Storage.Complete.{complete_run, complete_decision}
use gpt_trace_extractor_for.Storage.Rows.{Call, starts, sets_conversation, completes, fails, serve}

abbrev pub caller_of : Call → Option Caller
caller_of (starts request now) = none
caller_of (sets_conversation caller c) = some caller
caller_of (completes c now) = some c.caller
caller_of (fails caller t m) = some caller

abbrev IsStale : Run → Caller → Type 0
IsStale run caller = (run.attempt ≢ caller.attempt) ⊎ (run.runner_id ≢ some caller.runner_id)

is_stale_of : (run : Run) (caller : Caller) → IsStale run caller → is_stale run caller ≡ true
unfolding is_stale
is_stale_of run caller s = ground (
  arith,
  nat_beq_iff run.attempt caller.attempt,
  option_beq_iff run.runner_id (some caller.runner_id),
)

pub on_row_found :
    (id : String) (decide : Run → Decision) (table : Table) (run : Run)
    → get_run id table ≡ some run
    → on_row id decide table ≡ commit (decide run) table
unfolding on_row
on_row_found id decide table run f = rw (f, on_row)

module _ (same : Value → Value → Bool) (to_float : Value → Value) where
  set_stale :
      (caller : Caller) (c : String) (run : Run)
      → is_stale run caller ≡ true
      → set_conversation_decision caller c run ≡ conflicts "stale mutation"
  unfolding set_conversation_decision
  set_stale caller c run e = ground arith

  fail_stale :
      (caller : Caller) (t m : String) (run : Run)
      → is_stale run caller ≡ true
      → fail_decision caller t m run ≡ conflicts "stale mutation"
  unfolding fail_decision
  fail_stale caller t m run e = ground arith

  complete_stale :
      (c : Completion) (now : ℕ) (run : Run)
      → is_stale run c.caller ≡ true
      → complete_decision same to_float c now run ≡ conflicts "stale mutation"
  unfolding complete_decision
  complete_stale c now run e = ground arith

  refused_row :
      (id : String) (decide : Run → Decision) (table : Table) (run : Run)
      → get_run id table ≡ some run
      → decide run ≡ conflicts "stale mutation"
      → on_row id decide table ≡ (run_conflict "stale mutation", table)
  unfolding commit
  refused_row id decide table run f e = rw (on_row_found id decide table run f, e)

  -- A mutation by a caller whose attempt or runner is not that of the row is refused, and the table
  -- stays as it is, also when the run is completed.
  pub stale_refused :
      (call : Call) (caller : Caller) (table : Table) (run : Run)
      → caller_of call ≡ some caller
      → get_run caller.task_id table ≡ some run
      → (run.attempt ≢ caller.attempt) ⊎ (run.runner_id ≢ some caller.runner_id)
      → serve same to_float call table ≡ (run_conflict "stale mutation", table)
  unfolding serve set_conversation complete_run fail_run
  stale_refused (starts request now) caller table run h f s = cc
  stale_refused (sets_conversation own c) caller table run h f s =
      subst (λ k. set_conversation k c table ≡ (run_conflict "stale mutation", table))
        (sym (some-injective own caller h))
        (refused_row caller.task_id (set_conversation_decision caller c) table run f
          (set_stale caller c run (is_stale_of run caller s)))
  stale_refused (fails own t m) caller table run h f s =
      subst (λ k. fail_run k t m table ≡ (run_conflict "stale mutation", table))
        (sym (some-injective own caller h))
        (refused_row caller.task_id (fail_decision caller t m) table run f
          (fail_stale caller t m run (is_stale_of run caller s)))
  stale_refused (completes c now) caller table run h f s =
      let e : c.caller ≡ caller = some-injective c.caller caller h in
      refused_row c.caller.task_id (complete_decision same to_float c now) table run (rw e f)
        (complete_stale c now run (rw e (is_stale_of run caller s)))
