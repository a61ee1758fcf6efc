-- ===== src/Storage/Retries.antt =====
-- Repeated requests of storage/repository.py.
use gpt_trace_extractor_for.Base.{
  ℕ, String, ◌≡◌, refl, ◌∙◌, ◌⊎◌, inl, inr, Option, none, some, Bool, true, false, string_eq,
  option_eq, eq_iff, arith, subst, sym, ap,
}
use gpt_trace_extractor_for.Json.{Value}
use gpt_trace_extractor_for.Storage.{
  Run, Table, get_run, put_run, Decision, returns, updates, inserts, done, commit, Completion,
  is_stale, on_row,
}
use gpt_trace_extractor_for.Storage.Complete.{
  complete_run, complete_decision, completion_decision, completed_run, is_none,
  validated_evaluation, valid,
}
use gpt_trace_extractor_for.Storage.Lifetime.{complete-ne-inserts}
use gpt_trace_extractor_for.Storage.Rows.{task_id-get_run, get_run-put_run}
use gpt_trace_extractor_for.Storage.Stale.{on_row_found}

on_row_missing :
    (id : String) (decide : Run → Decision) (table : Table) (run : Run) (after : Table)
    → get_run id table ≡ none
    → on_row id decide table ≡ (done run, after)
    → ⊥
unfolding on_row commit
on_row_missing id decide table run after f h = ground arith

-- how a call came to answer with a row
Answered : Decision → Run → Table → Table → Type 0
Answered d run table after =
    ((d ≡ returns run) × (after ≡ table))
    ⊎ ((d ≡ updates run) × (after ≡ put_run run table))
    ⊎ (d ≡ inserts run)

commit_done :
    (d : Decision) (run : Run) (table after : Table)
    → commit d table ≡ (done run, after)
    → Answered d run table after
unfolding commit Answered
commit_done d run table after h = ground arith

on_row_done :
    (id : String) (decide : Run → Decision) (run : Run) (table after : Table)
    → on_row id decide table ≡ (done run, after)
    → (r : Run) × (get_run id table ≡ some r) × Answered (decide r) run table after
on_row_done id decide run table after h = by_row (get_run id table) refl
  where
    by_row :
        (found : Option Run)
        → get_run id table ≡ found
        → (r : Run) × (get_run id table ≡ some r) × Answered (decide r) run table after
    by_row none f = absurd (on_row_missing id decide table run after f h)
    by_row (some r) f =
        (r, f, commit_done (decide r) run table after (sym (on_row_found id decide table r f) ∙ h))

module _ (same : Value → Value → Bool) (to_float : Value → Value) where
  completion_returned :
      (c : Completion) (evaluation : Option Value) (now later : ℕ) (r b : Run)
      → completion_decision same to_float c evaluation now r ≡ returns b
      → (b ≡ r) × (completion_decision same to_float c evaluation later r ≡ returns r)
  unfolding completion_decision
  completion_returned c evaluation now later r b h = ground arith

  completion_written :
      (c : Completion) (evaluation : Option Value) (now : ℕ) (r b : Run)
      → completion_decision same to_float c evaluation now r ≡ updates b
      → b ≡ completed_run same to_float c evaluation now r
  unfolding completion_decision
  completion_written c evaluation now r b h = ground arith

  completion_repeated :
      (c : Completion) (evaluation : Option Value) (now later : ℕ) (r : Run)
      → ((v : Value) → same v v ≡ true)
      → let b = completed_run same to_float c evaluation now r in
        completion_decision same to_float c evaluation later b ≡ returns b
  unfolding completion_decision
  completion_repeated c none now later r reflexive = ground (
    arith,
    reflexive c.messages,
    reflexive c.runtime_metadata,
    eq_iff c.conversation_id c.conversation_id,
  )
  completion_repeated c (some e) now later r reflexive = ground (
    arith,
    reflexive c.messages,
    reflexive c.runtime_metadata,
    reflexive e,
    eq_iff c.conversation_id c.conversation_id,
  )

  -- what a row that a completion accepts must satisfy
  abbrev Accepted : Completion → Run → Option Value → Type 0
  Accepted c r evaluation =
      (is_stale r c.caller ≡ false)
      × (is_none same to_float r.app_provenance ≡ false)
      × (validated_evaluation same to_float c.evaluation ≡ valid evaluation)

  complete_returns :
      (c : Completion) (now : ℕ) (r b : Run)
      → complete_decision same to_float c now r ≡ returns b
      → (evaluation : Option Value) × Accepted c r evaluation
        × (completion_decision same to_float c evaluation now r ≡ returns b)
  unfolding complete_decision
  complete_returns c now r b h = ground arith

  complete_updates :
      (c : Completion) (now : ℕ) (r b : Run)
      → complete_decision same to_float c now r ≡ updates b
      → (evaluation : Option Value) × Accepted c r evaluation
        × (completion_decision same to_float c evaluation now r ≡ updates b)
  unfolding complete_decision
  complete_updates c now r b h = ground arith

  complete-Accepted :
      (c : Completion) (now : ℕ) (r : Run) (evaluation : Option Value)
      → Accepted c r evaluation
      → complete_decision same to_float c now r
        ≡ completion_decision same to_float c evaluation now r
  unfolding complete_decision
  complete-Accepted c now r evaluation h = ground arith

  completed_run-Accepted :
      (c : Completion) (now : ℕ) (r : Run) (evaluation : Option Value)
      → Accepted c r evaluation
      → Accepted c (completed_run same to_float c evaluation now r) evaluation
  unfolding completed_run is_stale
  completed_run-Accepted c now r evaluation h = h

  repeat_returned :
      (c : Completion) (now later : ℕ) (r b : Run)
      → complete_decision same to_float c now r ≡ returns b
      → (b ≡ r) × (complete_decision same to_float c later r ≡ returns r)
  repeat_returned c now later r b h =
      let (evaluation, accepted, decided) = complete_returns c now r b h in
      let (same_row, again) = completion_returned c evaluation now later r b decided in
      (same_row, complete-Accepted c later r evaluation accepted ∙ again)

  repeat_updated :
      (c : Completion) (now later : ℕ) (r b : Run)
      → ((v : Value) → same v v ≡ true)
      → complete_decision same to_float c now r ≡ updates b
      → (b.task_id ≡ r.task_id) × (complete_decision same to_float c later b ≡ returns b)
  repeat_updated c now later r b reflexive h =
      let (evaluation, accepted, decided) = complete_updates c now r b h in
      let written = completed_run same to_float c evaluation now r in
      rw (completion_written c evaluation now r b decided) (
        unfold completed_run in refl,
        complete-Accepted c later written evaluation
              (completed_run-Accepted c now r evaluation accepted)
            ∙ completion_repeated c evaluation now later r reflexive,
      )

  -- A completion that was accepted can be sent again at any later time: it is answered with the
  -- same row and changes nothing, if every document equals itself.
  pub complete_again :
      (c : Completion) (now later : ℕ) (table after : Table) (run : Run)
      → ((v : Value) → same v v ≡ true)
      → complete_run same to_float c now table ≡ (done run, after)
      → complete_run same to_float c later after ≡ (done run, after)
  unfolding complete_run Answered
  complete_again c now later table after run reflexive h =
      let (r, found, answer) =
        on_row_done c.caller.task_id (complete_decision same to_float c now) run table after h in
      by_answer r found answer
    where
      id : String
      id = c.caller.task_id

      again :
          (t : Table)
          → get_run id t ≡ some run
          → complete_decision same to_float c later run ≡ returns run
          → on_row id (complete_decision same to_float c later) t ≡ (done run, t)
      again t f e =
          rw (on_row_found id (complete_decision same to_float c later) t run f, e, commit)

      by_answer :
          (r : Run)
          → get_run id table ≡ some r
          → Answered (complete_decision same to_float c now r) run table after
          → on_row id (complete_decision same to_float c later) after ≡ (done run, after)
      by_answer r f (inl (d, t)) =
          let (same_row, e) = repeat_returned c now later r run d in
          rw t (
            again table (f ∙ ap some (sym same_row))
              (subst (λ x. complete_decision same to_float c later x ≡ returns x) (sym same_row) e))
      by_answer r f (inr (inl (d, t))) =
          let (same_id, e) = repeat_updated c now later r run reflexive d in
          rw t (
            again (put_run run table)
              (ground (
                arith,
                get_run-put_run id table run r,
                task_id-get_run id table r f,
                eq_iff id id,
                eq_iff run.task_id id,
              ))
              e)
      by_answer r f (inr (inr d)) = absurd (complete-ne-inserts same to_float c now r run d)
