-- ===== src/Storage/Lifetime.antt =====
-- The life of a row of the runs table: what a call may make of it.
use gpt_trace_extractor_for.Base.{
  ℕ, ◌+◌, String, ◌≡◌, refl, ◌⊎◌, inl, inr, Option, none, some, Bool, false, [], ◌∷◌, ◌++◌,
  string_eq, option_eq, arith, Bool-cases,
}
use gpt_trace_extractor_for.Json.{Value}
use gpt_trace_extractor_for.Storage.{
  Run, RunStatus, running, completed, failed, Table, get_run, put_run, other_running,
  conversation_taken, Decision, conflicts, missing, returns, inserts, updates, commit, Caller,
  StartRequest, Completion, set_conversation_decision, fail_decision,
}
use gpt_trace_extractor_for.Storage.Start.{start_decision, row_decision}
use gpt_trace_extractor_for.Storage.Complete.{
  complete_decision, completion_decision, validated_evaluation, valid,
}
use gpt_trace_extractor_for.Storage.Rows.{
  Call, starts, sets_conversation, completes, fails, call_id, serve, decision, on_found,
  serve-commit,
}

-- The moves of a status.
abbrev pub CanMove : RunStatus → RunStatus → Type 0
CanMove running running = Unit
CanMove running completed = Unit
CanMove running failed = Unit
CanMove failed running = Unit
CanMove _ _ = ⊥

-- A row after a call that wrote it: it is the same task with the same specification; a running
-- attempt keeps its number and its runner, and a failed one is followed by the next number.
pub record IsNextRow (a b : Run) : Type 0 where
  pub task_id : b.task_id ≡ a.task_id
  pub logical_task_id : b.logical_task_id ≡ a.logical_task_id
  pub task_fingerprint : b.task_fingerprint ≡ a.task_fingerprint
  pub moves : CanMove a.status b.status
  pub same_attempt : a.status ≡ running → b.attempt ≡ a.attempt
  pub same_runner : a.status ≡ running → b.runner_id ≡ a.runner_id
  pub next_attempt : a.status ≡ failed → b.attempt ≡ a.attempt + 1

-- why a call may write the row `b`
abbrev pub Updates : Call → Table → Run → Type 0
Updates call table b =
    (a : Run) × (get_run (call_id call) table ≡ some a)
    × IsNextRow a b
    × ((a.status ≡ running) ⊎ (other_running (call_id call) table ≡ none))

-- why a call may add the row `b`
pub record Inserts (call : Call) (table : Table) (b : Run) : Type 0 where
  pub absent : get_run (call_id call) table ≡ none
  pub task_id : b.task_id ≡ call_id call
  pub status : b.status ≡ running
  pub attempt : b.attempt ≡ 1
  pub conversation_id : b.conversation_id ≡ none
  pub alone : other_running (call_id call) table ≡ none

module _ (same : Value → Value → Bool) (to_float : Value → Value) where
  set_conversation-IsNextRow :
      (caller : Caller) (c : String) (a b : Run)
      → set_conversation_decision caller c a ≡ updates b
      → IsNextRow a b × (a.status ≡ running)
  unfolding set_conversation_decision
  set_conversation-IsNextRow caller c a b h = ground arith

  fail-IsNextRow :
      (caller : Caller) (t m : String) (a b : Run)
      → fail_decision caller t m a ≡ updates b
      → IsNextRow a b × (a.status ≡ running)
  unfolding fail_decision
  fail-IsNextRow caller t m a b h = ground arith

  completion-IsNextRow :
      (c : Completion) (evaluation : Option Value) (now : ℕ) (a b : Run)
      → completion_decision same to_float c evaluation now a ≡ updates b
      → IsNextRow a b × (a.status ≡ running)
  unfolding completion_decision
  completion-IsNextRow c evaluation now a b h = ground arith

  complete_updates :
      (c : Completion) (now : ℕ) (a b : Run)
      → complete_decision same to_float c now a ≡ updates b
      → (evaluation : Option Value) × (validated_evaluation same to_float c.evaluation
          ≡ valid evaluation)
        × (completion_decision same to_float c evaluation now a ≡ updates b)
  unfolding complete_decision
  complete_updates c now a b h = ground arith

  complete-IsNextRow :
      (c : Completion) (now : ℕ) (a b : Run)
      → complete_decision same to_float c now a ≡ updates b
      → IsNextRow a b × (a.status ≡ running)
  complete-IsNextRow c now a b h =
      let (evaluation, checked, wrote) = complete_updates c now a b h in
      completion-IsNextRow c evaluation now a b wrote

  start-IsNextRow :
      (request : StartRequest) (now : ℕ) (a b : Run)
      → row_decision same request now a ≡ updates b
      → IsNextRow a b
  unfolding row_decision
  start-IsNextRow request now a b h = ground arith

  not_inserted :
      (decide : Run → Decision) (found : Option Run) (b : Run)
      → ((a : Run) → decide a ≡ inserts b → ⊥)
      → on_found decide found ≡ inserts b
      → ⊥
  unfolding on_found
  not_inserted decide none b k h = cc
  not_inserted decide (some a) b k h = k a h

  pub complete-ne-inserts :
      (c : Completion) (now : ℕ) (a b : Run)
      → complete_decision same to_float c now a ≡ inserts b
      → ⊥
  unfolding complete_decision completion_decision
  complete-ne-inserts c now a b h = ground arith

  on_found_updates :
      (decide : Run → Decision) (found : Option Run) (b : Run)
      → on_found decide found ≡ updates b
      → (a : Run) × (found ≡ some a) × (decide a ≡ updates b)
  unfolding on_found
  on_found_updates decide none b h = cc
  on_found_updates decide (some a) b h = (a, refl, h)

  start_updates :
      (request : StartRequest) (now : ℕ) (found : Option Run) (b : Run)
      → start_decision same request now found ≡ updates b
      → (a : Run) × (found ≡ some a) × (row_decision same request now a ≡ updates b)
  unfolding start_decision
  start_updates request now none b h = absurd (ground arith)
  start_updates request now (some a) b h = (a, refl, h)

  start_decided :
      (request : StartRequest) (now : ℕ) (table : Table) (b : Run)
      → decision same to_float (starts request now) table ≡ updates b
      → (other_running request.caller.task_id table ≡ none)
        × (start_decision same request now (get_run request.caller.task_id table) ≡ updates b)
  unfolding decision
  start_decided request now table b h = ground arith

  pub decision_updates :
      (call : Call) (table : Table) (b : Run)
      → decision same to_float call table ≡ updates b
      → Updates call table b
  unfolding decision
  decision_updates (starts request now) table b h =
      let (alone, decided) = start_decided request now table b h in
      let (a, found, wrote) = start_updates request now _ b decided in
      (a, found, start-IsNextRow request now a b wrote, inr alone)
  decision_updates (sets_conversation caller c) table b h =
      let (a, found, wrote) = on_found_updates _ _ b h in
      let (next, was_running) = set_conversation-IsNextRow caller c a b wrote in
      (a, found, next, inl was_running)
  decision_updates (completes c now) table b h =
      let (a, found, wrote) = on_found_updates _ _ b h in
      let (next, was_running) = complete-IsNextRow c now a b wrote in
      (a, found, next, inl was_running)
  decision_updates (fails caller t m) table b h =
      let (a, found, wrote) = on_found_updates _ _ b h in
      let (next, was_running) = fail-IsNextRow caller t m a b wrote in
      (a, found, next, inl was_running)

  pub decision_inserts :
      (call : Call) (table : Table) (b : Run)
      → decision same to_float call table ≡ inserts b
      → Inserts call table b
  unfolding decision start_decision set_conversation_decision fail_decision
  decision_inserts (starts request now) table b h = ground arith
  decision_inserts (sets_conversation caller c) table b h = absurd (
      not_inserted (set_conversation_decision caller c) (get_run caller.task_id table) b
        (λ a e. ground arith) h)
  decision_inserts (completes c now) table b h = absurd (
      not_inserted (complete_decision same to_float c now) (get_run c.caller.task_id table) b
        (λ a e. complete-ne-inserts c now a b e) h)
  decision_inserts (fails caller t m) table b h = absurd (
      not_inserted (fail_decision caller t m) (get_run caller.task_id table) b (λ a e. ground arith)
        h)

  -- What is kept by every row that a call may add or write is kept by the call.
  pub serve_cases {ℓ} :
      (P : Table → Type ℓ) (call : Call) (table : Table)
      → P table
      → ((b : Run) → Inserts call table b → P (table ++ b ∷ []))
      → ((b : Run)
          → Updates call table b
          → conversation_taken b table ≡ false
          → P (put_run b table))
      → P (serve same to_float call table).1
  unfolding commit
  serve_cases P call table same_table added written =
      rw (serve-commit same to_float call table)
        (by_decision (decision same to_float call table) refl)
    where
      by_decision : (d : Decision) → decision same to_float call table ≡ d → P (commit d table).1
      by_decision (conflicts m) e = same_table
      by_decision missing e = same_table
      by_decision (returns b) e = same_table
      by_decision (inserts b) e = added b (decision_inserts call table b e)
      by_decision (updates b) e = elim (Bool-cases (conversation_taken b table)) [
        | inl t ↦ rw t same_table
        | inr f ↦ rw f (written b (decision_updates call table b e) f)
      ]
