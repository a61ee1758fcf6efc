-- ===== src/Lifecycle/Proof.antt =====
-- The end of `_execute_locked` of superbench/lifecycle.py: the proof of storage and the completion.
use gpt_trace_extractor_for.Base.{
  All, String, ◌≡◌, refl, Option, none, some, Bool, true, false, not, List, [], ◌∷◌, arith,
  if◌then◌else◌, eq_iff, string_eq, is_subset, ap, subst, ◌∙◌,
}
use gpt_trace_extractor_for.Exceptions.{Exn, Outcome, ok, raised, recovery_incomplete, ◌>>=◌, ◌>>◌}
use gpt_trace_extractor_for.RunControl.{
  ActiveRun, paused, selected_ids, is_active, is_pause_requested, is_completed,
}
use gpt_trace_extractor_for.RunControl.Store.{
  RunFile, absent, unreadable, holds, pauses_if_requested, body_transitions,
}
use gpt_trace_extractor_for.Lifecycle.{
  Surroundings, is_stored, add_row, all_stored, read_rows, call, storage_completed_run_task_ids,
  with_state, commit_completion, prove_completion, finish_run,
}
use gpt_trace_extractor_for.Lifecycle.Recorded.{load_file-holds}

-- storage has a completed row of the task
abbrev pub HasCompletedRow : (String → Outcome (Option String)) → String → Type 0
HasCompletedRow get id = get id ≡ ok (some "completed")

-- the file holds no completed run
abbrev pub IsOpen : RunFile → Type 0
IsOpen absent = Unit
IsOpen unreadable = Unit
IsOpen (holds s) = is_completed s.status ≡ false

row-HasCompletedRow :
    (get : String → Outcome (Option String)) (id : String) (row : Option String)
    → get id ≡ ok row
    → is_stored row ≡ true
    → HasCompletedRow get id
row-HasCompletedRow get id none e h = cc
row-HasCompletedRow get id (some status) e h = ground (arith, eq_iff status "completed")

abbrev with_row :
    String
    → Outcome (Option String)
    → Outcome (List String × List String)
    → Outcome (List String × List String)
with_row id g r = elim g [
  | raised e ↦ raised e
  | ok row ↦ elim r [
    | raised e ↦ raised e
    | ok (stored, missing) ↦ ok (add_row (is_stored row) id (stored, missing))
  ]
]

with_row-stored :
    (id : String) (row : Option String) (st missing stored : List String)
    → ok (add_row (is_stored row) id (st, missing)) ≡ ok (stored, [])
    → (is_stored row ≡ true) × (missing ≡ [])
with_row-stored id row st missing stored h = ground (arith, is_stored row)

with_row-HasCompletedRow :
    (get : String → Outcome (Option String)) (id : String) (ids stored : List String)
    (g : Outcome (Option String)) (r : Outcome (List String × List String))
    → get id ≡ g
    → ((st : List String) → r ≡ ok (st, []) → All (HasCompletedRow get) ids)
    → with_row id g r ≡ ok (stored, [])
    → All (HasCompletedRow get) (id ∷ ids)
with_row-HasCompletedRow get id ids stored (raised e) r hg hr h = grind arith
with_row-HasCompletedRow get id ids stored (ok row) (raised e) hg hr h = grind arith
with_row-HasCompletedRow get id ids stored (ok row) (ok (st, missing)) hg hr h =
    let k = with_row-stored id row st missing stored h in
    (row-HasCompletedRow get id row hg k.0, hr st (ap (λ m. ok (st, m)) k.1))

read_rows-HasCompletedRow :
    (get : String → Outcome (Option String)) (ids stored : List String)
    → read_rows get ids ≡ ok (stored, [])
    → All (HasCompletedRow get) ids
unfolding read_rows
read_rows-HasCompletedRow get [] stored h = tt
read_rows-HasCompletedRow get (id ∷ ids) stored h =
    with_row-HasCompletedRow get id ids stored (get id) (read_rows get ids) refl
      (λ st. read_rows-HasCompletedRow get ids st) h

rows-HasCompletedRow :
    (get : String → Outcome (Option String)) (ids stored : List String)
    (o : Outcome (List String × List String))
    → read_rows get ids ≡ o
    → (o >>= all_stored) ≡ ok stored
    → All (HasCompletedRow get) ids
rows-HasCompletedRow get ids stored (raised e) r h = grind arith
rows-HasCompletedRow get ids stored (ok (st, [])) r h = read_rows-HasCompletedRow get ids st r
rows-HasCompletedRow get ids stored (ok (st, id ∷ more)) r h = grind arith

after_health :
    (health : Outcome (Unit {0})) (o : Outcome (List String)) (stored : List String)
    → (health >> o) ≡ ok stored
    → o ≡ ok stored
after_health (ok u) o stored h = h
after_health (raised e) o stored h = grind arith

proof-HasCompletedRow :
    (w : Surroundings) (s : ActiveRun) (stored : List String)
    → storage_completed_run_task_ids w s ≡ ok stored
    → All (HasCompletedRow w.storage_get) (selected_ids s)
unfolding storage_completed_run_task_ids
proof-HasCompletedRow w s stored h =
    rows-HasCompletedRow w.storage_get (selected_ids s) stored
      (read_rows w.storage_get (selected_ids s)) refl
      (after_health w.storage_health (read_rows w.storage_get (selected_ids s) >>= all_stored)
        stored h)

active-open :
    (s : ActiveRun)
    → is_active s.status ≡ true
    → (is_pause_requested s.status ≡ false) × (is_completed s.status ≡ false)
unfolding is_active is_pause_requested is_completed
active-open s a = ground arith

finish_run-active :
    (w : Surroundings) (s : ActiveRun)
    → s.schema_version ≡ 3
    → is_active s.status ≡ true
    → finish_run w (holds s) ≡ prove_completion w s (holds s)
unfolding finish_run
finish_run-active w s v a =
    rw (finish_run, with_state, load_file-holds s v, (active-open s a).0, a) refl

abbrev proved : Surroundings → ActiveRun → Outcome (List String) → Outcome (Unit {0}) × RunFile
proved w s o =
    if not (is_subset (selected_ids s) s.completed_run_task_ids)
    then (raised (recovery_incomplete "frozen tasks remain incomplete"), holds s)
    else elim o [
      | raised e ↦ (raised e, w.during_proof (holds s))
      | ok stored ↦ commit_completion stored (w.during_proof (holds s))
    ]

refused-IsOpen :
    (w : Surroundings) (s : ActiveRun) (e : Exn) (b : Bool)
    → is_completed s.status ≡ false
    → IsOpen (w.during_proof (holds s))
    → is_subset (selected_ids s) s.completed_run_task_ids ≡ b
    → IsOpen (proved w s (raised e)).1
refused-IsOpen w s e true n o k = rw k o
refused-IsOpen w s e false n o k = rw k n

proved-HasCompletedRow :
    (w : Surroundings) (s : ActiveRun) (o : Outcome (List String))
    → storage_completed_run_task_ids w s ≡ o
    → is_completed s.status ≡ false
    → IsOpen (w.during_proof (holds s))
    → (IsOpen (proved w s o).1 → ⊥)
    → All (HasCompletedRow w.storage_get) (selected_ids s)
proved-HasCompletedRow w s (raised e) h n i c =
    absurd (c (refused-IsOpen w s e (is_subset (selected_ids s) s.completed_run_task_ids) n i refl))
proved-HasCompletedRow w s (ok stored) h n i c = proof-HasCompletedRow w s stored h

-- When `run_pending` leaves a readable run that is active, nothing else completes it during the proof
-- of storage, and the lines behind `run_pending` leave a file that holds a completed run, then
-- storage had a completed row of every selected task.
pub completed_is_stored :
    (w : Surroundings) (s : ActiveRun)
    → s.schema_version ≡ 3
    → is_active s.status ≡ true
    → IsOpen (w.during_proof (holds s))
    → (IsOpen (finish_run w (holds s)).1 → ⊥)
    → All (HasCompletedRow w.storage_get) (selected_ids s)
unfolding prove_completion
completed_is_stored w s v a o c =
    proved-HasCompletedRow w s (storage_completed_run_task_ids w s) refl (active-open s a).1 o
      (subst (λ x. IsOpen x.1 → ⊥) (finish_run-active w s v a) c)

paused_call :
    (t : ActiveRun)
    → t.schema_version ≡ 3
    → is_pause_requested t.status ≡ true
    → call pauses_if_requested (holds t)
      ≡ (ok tt, holds (record t { status = paused; current_run_task_id = none }))
unfolding call body_transitions
paused_call t k p = ground arith

-- When every selected task of an active, readable run is marked finished and the proof of storage
-- succeeds, but the file holds a readable run with a pause request afterwards, then that run is
-- paused without a current task, not completed, and nothing is raised.
pub pause_wins :
    (w : Surroundings) (s t : ActiveRun) (stored : List String)
    → s.schema_version ≡ 3
    → t.schema_version ≡ 3
    → is_active s.status ≡ true
    → is_subset (selected_ids s) s.completed_run_task_ids ≡ true
    → storage_completed_run_task_ids w s ≡ ok stored
    → w.during_proof (holds s) ≡ holds t
    → is_pause_requested t.status ≡ true
    → finish_run w (holds s)
      ≡ (ok tt, holds (record t { status = paused; current_run_task_id = none }))
unfolding prove_completion commit_completion
pause_wins w s t stored h k a b e d p =
    finish_run-active w s h a
    ∙ rw (b, e, d, commit_completion, with_state, load_file-holds t k, p, d) (paused_call t k p)
