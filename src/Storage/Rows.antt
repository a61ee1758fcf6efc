-- ===== src/Storage/Rows.antt =====
-- The runs table as a map from task ids to rows, and the four calls as one.
use gpt_trace_extractor_for.Base.{
  ℕ, String, ◌≡◌, refl, Option, none, some, Bool, true, false, [], ◌∷◌, ◌++◌, ◌==◌, string_eq,
  option_eq, eq_iff, option_beq_iff, arith, if◌then◌else◌,
}
use gpt_trace_extractor_for.Json.{Value}
use gpt_trace_extractor_for.Storage.{
  Run, is_running, Table, get_run, put_run, other_running, conversation_taken, Decision, conflicts,
  missing, Reply, commit, Caller, StartRequest, Completion, on_row, set_conversation,
  set_conversation_decision, fail_run, fail_decision,
}
use gpt_trace_extractor_for.Storage.Start.{start_run, start_decision}
use gpt_trace_extractor_for.Storage.Complete.{complete_run, complete_decision}

pub task_id-get_run :
    (id : String) (table : Table) (run : Run) → get_run id table ≡ some run → run.task_id ≡ id
unfolding get_run
task_id-get_run id [] run h = cc
task_id-get_run id (r ∷ table) run h =
    ground (arith, eq_iff r.task_id id, task_id-get_run id table run)

pub get_run-append :
    (id : String) (table : Table) (run : Run)
    → get_run run.task_id table ≡ none
    → get_run id (table ++ run ∷ []) ≡ (if run.task_id == id then some run else get_run id table)
unfolding get_run
get_run-append id [] run h = refl
get_run-append id (r ∷ table) run h = ground (
  arith,
  eq_iff r.task_id id,
  eq_iff run.task_id id,
  eq_iff r.task_id run.task_id,
  get_run-append id table run,
)

pub get_run-put_run :
    (id : String) (table : Table) (run old : Run)
    → get_run run.task_id table ≡ some old
    → get_run id (put_run run table) ≡ (if run.task_id == id then some run else get_run id table)
unfolding get_run put_run
get_run-put_run id [] run old h = cc
get_run-put_run id (r ∷ table) run old h = ground (
  arith,
  eq_iff r.task_id id,
  eq_iff run.task_id id,
  eq_iff r.task_id run.task_id,
  get_run-put_run id table run old,
)

-- With no other running row, a running row is that of the task.
pub other_running-none :
    (id j : String) (table : Table) (run : Run)
    → other_running id table ≡ none
    → get_run j table ≡ some run
    → is_running run.status ≡ true
    → j ≡ id
unfolding get_run other_running
other_running-none id j [] run n h s = cc
other_running-none id j (r ∷ table) run n h s =
    ground (arith, eq_iff r.task_id j, eq_iff r.task_id id, other_running-none id j table run)

-- A conversation that is not taken stands in no row of another task.
pub conversation_taken-false :
    (run : Run) (j c : String) (table : Table) (other : Run)
    → conversation_taken run table ≡ false
    → get_run j table ≡ some other
    → run.conversation_id ≡ some c
    → other.conversation_id ≡ some c
    → j ≡ run.task_id
unfolding get_run conversation_taken
conversation_taken-false run j c [] other n h p q = cc
conversation_taken-false run j c (r ∷ table) other n h p q = ground (
  arith,
  eq_iff r.task_id j,
  eq_iff r.task_id run.task_id,
  option_beq_iff r.conversation_id run.conversation_id,
  option_beq_iff run.conversation_id none,
  conversation_taken-false run j c table other,
)

pub data Call : Type 0 where
  starts : StartRequest → ℕ → Call
  sets_conversation : Caller → String → Call
  completes : Completion → ℕ → Call
  fails : Caller → String → String → Call

abbrev pub call_id : Call → String
call_id (starts request now) = request.caller.task_id
call_id (sets_conversation caller c) = caller.task_id
call_id (completes c now) = c.caller.task_id
call_id (fails caller t m) = caller.task_id

unfoldable pub on_found : (Run → Decision) → Option Run → Decision
on_found decide none = missing
on_found decide (some run) = decide run

module _ (same : Value → Value → Bool) (to_float : Value → Value) where
  unfoldable pub serve : Call → Table → Reply × Table
  serve (starts request now) table = start_run same request now table
  serve (sets_conversation caller c) table = set_conversation caller c table
  serve (completes c now) table = complete_run same to_float c now table
  serve (fails caller t m) table = fail_run caller t m table

  -- what a call decides
  unfoldable pub decision : Call → Table → Decision
  unfolding on_found
  decision (starts request now) table = elim (other_running request.caller.task_id table) [
    | some other ↦ conflicts "another task is already running"
    | none ↦ start_decision same request now (get_run request.caller.task_id table)
  ]
  decision (sets_conversation caller c) table =
      on_found (set_conversation_decision caller c) (get_run caller.task_id table)
  decision (completes c now) table =
      on_found (complete_decision same to_float c now) (get_run c.caller.task_id table)
  decision (fails caller t m) table =
      on_found (fail_decision caller t m) (get_run caller.task_id table)

  -- A call is the commit of its decision.
  pub serve-commit :
      (call : Call) (table : Table) → serve call table ≡ commit (decision call table) table
  unfolding serve decision start_run set_conversation complete_run fail_run on_row
  serve-commit (starts request now) table = ground arith
  serve-commit (sets_conversation caller c) table = ground arith
  serve-commit (completes c now) table = ground arith
  serve-commit (fails caller t m) table = ground arith
