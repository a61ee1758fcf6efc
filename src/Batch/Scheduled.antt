-- ===== src/Batch/Scheduled.antt =====
-- The order in which `run_pending` runs the tasks of its selection.
use gpt_trace_extractor_for.Base.{
  ℕ, String, Option, none, some, true, ◌≡◌, refl, sym, ◌∙◌, subst, ◌⊎◌, inl, inr, List, [], ◌∷◌,
  string_eq, eq_iff, arith,
}
use mathlib.Core.List.{append-nil}
use gpt_trace_extractor_for.Exec.{Exec}
use gpt_trace_extractor_for.Exec.Keeps.{
  Ensures-bind, Ensures-post, Leads, Leads-Keeps, Leads-end, Keeps-return,
}
use gpt_trace_extractor_for.Exec.Handlers.{Ensures-if}
use gpt_trace_extractor_for.Batch.{Entry, Batch, Services, Options}
use gpt_trace_extractor_for.Batch.Task.{is_stop}
use gpt_trace_extractor_for.Batch.Loop.{
  cons_entry, entry_by_id, select_entries, visit_all, run_catalog, run_pending,
}
use gpt_trace_extractor_for.Batch.Rules.{At, IsKept}
use gpt_trace_extractor_for.Batch.Plain.{Plain, Plain-IsKept}
use gpt_trace_extractor_for.Batch.Chain.{Weaker}
use gpt_trace_extractor_for.Batch.Turn.{visit_lem}
use gpt_trace_extractor_for.Batch.Around.{Loops, run_catalog_lem}
use gpt_trace_extractor_for.Batch.Schedule.{
  Before, Behind, Front, Schedule, Scheduled, broken, ends, entry_ids, passed, quiet-Before,
  quiet-Scheduled, ran, runs_of, stopped, task-Turn,
}

module _ (v : Services) (o : Options) (limit : Option ℕ) where
  Or-Ensures :
      {P Q X : Batch → Type 0} (m : Exec Batch (Unit {0}))
      → Leads P X m
      → Leads Q X m
      → Leads (λ s. P s ⊎ Q s) X m
  Or-Ensures m h k = record { run = λ s t. elim t [ inl p ↦ h.run s p | inr q ↦ k.run s q ] }

  pub visit_all_schedule :
      (entries : List Entry) (k : Front)
      → Leads
          (At (Plain (Before k)) none)
          (At (Plain (Scheduled k (entry_ids entries))) none)
          (visit_all v o limit entries)
  unfolding visit_all
  visit_all_schedule [] k = Leads-Keeps (λ s h. ([], (h, ends))) _ (Keeps-return tt)
  visit_all_schedule (e ∷ entries) k =
      let id = e.run_task_id in
      let ids = entry_ids entries in
      Ensures-bind {Q = λ _. At (Plain (Behind k id)) none} _ _
        (Ensures-post _ (visit_lem v o limit e (task-Turn v k id limit)) (λ a s h. h)
          (λ s h. broken k id ids s.log s.attempted h))
        (λ flow.
          Ensures-if (is_stop flow) _ _
            (λ c. Leads-Keeps (λ s h. stopped k id ids s.log s.attempted h) _ (Keeps-return tt))
            (λ c.
              Or-Ensures _
                (Ensures-post _ (visit_all_schedule entries k)
                  (λ u s h. passed k id ids s.log s.attempted h)
                  (λ s h. passed k id ids s.log s.attempted h))
                (Ensures-post _ (visit_all_schedule entries (λ later. k ((id, true) ∷ later)))
                  (λ u s h. ran k id ids s.log s.attempted h)
                  (λ s h. ran k id ids s.log s.attempted h))))

-- the tasks that a batch is to run
unfoldable pub selection : List Entry → Option (List String) → List String
selection entries none = entry_ids entries
selection entries (some ids) = ids

entry_by_id-id :
    (entries : List Entry) (id : String) (e : Entry)
    → entry_by_id entries id ≡ some e
    → e.run_task_id ≡ id
unfolding entry_by_id
entry_by_id-id [] id e h = cc
entry_by_id-id (x ∷ entries) id e h =
    ground (arith, eq_iff x.run_task_id id, entry_by_id-id entries id e)

cons_entry-ids :
    (id : String) (ids : List String) (found : Option Entry) (rest : Option (List Entry))
    (list : List Entry)
    → ((e : Entry) → found ≡ some e → e.run_task_id ≡ id)
    → ((l : List Entry) → rest ≡ some l → entry_ids l ≡ ids)
    → cons_entry found rest ≡ some list
    → entry_ids list ≡ id ∷ ids
cons_entry-ids id ids none rest list h k c = cc
cons_entry-ids id ids (some e) none list h k c = cc
cons_entry-ids id ids (some e) (some l) list h k c = ground (arith, h e refl, k l refl)

select_entries-ids :
    (entries : List Entry) (ids : List String) (list : List Entry)
    → select_entries entries ids ≡ some list
    → entry_ids list ≡ ids
unfolding select_entries
select_entries-ids entries [] list h = ground arith
select_entries-ids entries (id ∷ ids) list h =
    cons_entry-ids id ids (entry_by_id entries id) (select_entries entries ids) list
      (entry_by_id-id entries id) (select_entries-ids entries ids) h

-- nothing ran before
abbrev first : Front
first later = later

module _ (v : Services) (o : Options) (ids : List String) where
  start_kept : IsKept v (Plain (Before first))
  start_kept = Plain-IsKept v _ (quiet-Before first)

  end_kept : IsKept v (Plain (Scheduled first ids))
  end_kept = Plain-IsKept v _ (quiet-Scheduled first ids)

  none_yet : Weaker (Plain (Before first)) (Plain (Scheduled first ids))
  none_yet s h = ([], (h, ends))

  schedule_loop :
      (limit : Option ℕ) (entries : List Entry)
      → entry_ids entries ≡ ids
      → Loops v o
          (Plain (Before first))
          (Plain (Scheduled first ids))
          start_kept
          end_kept
          none_yet
          limit
          entries
  schedule_loop limit entries e =
      subst
        (λ names.
          Leads (At (Plain (Before first)) none) (At (Plain (Scheduled first names)) none)
            (visit_all v o limit entries))
        e (visit_all_schedule v o limit entries first)

  schedule_batch :
      (entries : List Entry) (frozen : Option (List String))
      → selection entries frozen ≡ ids
      → Leads
          (λ s. Before first s.log 0)
          (λ s. (n : ℕ) × Scheduled first ids s.log n)
          (run_catalog v o entries frozen)
  unfolding selection
  schedule_batch entries frozen e =
      Ensures-post _
        (run_catalog_lem v o (Plain (Before first)) (Plain (Scheduled first ids)) start_kept
          end_kept none_yet entries frozen
          (λ f. schedule_loop o.limit entries (subst (λ x. selection entries x ≡ ids) f e))
          (λ names list f g.
            schedule_loop none list (
              select_entries-ids entries names list g
              ∙ subst (λ x. selection entries x ≡ ids) f e)))
        (λ n s h. (n, h)) (λ s h. h)

follows :
    (ids : List String) (s : Batch)
    → (n : ℕ) × Scheduled first ids s.log n
    → Schedule ids (runs_of s.log)
follows ids s (n, (r, (front, schedule))) =
    subst (Schedule ids) (sym (front [] ∙ append-nil r)) schedule

-- However `run_pending` ends, the tasks that it ran are those of a schedule of its selection: in the
-- selection's order, each place of it run once or passed over, and nothing run behind a task whose
-- run raised.
pub runs_scheduled :
    (v : Services) (o : Options) (entries : List Entry) (s : Batch)
    → Schedule
        (selection entries o.selected_run_task_ids)
        (runs_of (run_pending v o entries (record s { log = [] })).1.log)
unfolding run_pending
runs_scheduled v o entries s = follows _ (run_pending v o entries (record s { log = [] })).1 (
    Leads-end _ (schedule_batch v o _ entries o.selected_run_task_ids refl) (record s { log = [] })
      (λ later. refl))
