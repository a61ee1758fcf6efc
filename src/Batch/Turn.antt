-- ===== src/Batch/Turn.antt =====
-- The loop of `run_pending` and what is around it, from what holds before to what holds behind.
use gpt_trace_extractor_for.Base.{
  ℕ, ◌≡◌, refl, subst, String, Option, none, some, Bool, false, ◌||◌, List, [], ◌∷◌, if◌then◌else◌,
  not, contains, string_eq, ◌==◌, arith,
}
use gpt_trace_extractor_for.Exceptions.{ok}
use gpt_trace_extractor_for.Exec.{Exec, from}
use gpt_trace_extractor_for.Exec.Keeps.{
  Ensures, Ensures-bind, Ensures-Keeps, Ensures-post, Ensures-weaken, Keeps, keeping, Keeps-if,
  Keeps-return,
}
use gpt_trace_extractor_for.Exec.Handlers.{Ensures-if, Ensures-throw}
use gpt_trace_extractor_for.Runner.{RowStatus}
use gpt_trace_extractor_for.Batch.{Entry, Row, Batch, Services, Options, is_completed_status}
use gpt_trace_extractor_for.Batch.Task.{Flow, next, stop, is_stop}
use gpt_trace_extractor_for.Batch.Loop.{
  skip_completed, perform, consider_row, consider, look_up, schedule, is_full, visit, visit_all,
}
use gpt_trace_extractor_for.Batch.Rules.{
  Family, At, IsKept, proved_by, finishes, load_active_keeps, stop_keeps, probe_keeps,
}
use gpt_trace_extractor_for.Batch.Chain.{
  Plan, Weaker, before_failed, execute_task_lem, run_task_lem,
}

module _ (v : Services) (o : Options) (e : Entry) {P M N R F : Family}
    (p : Plan v e.run_task_id P M N R F) where
  abbrev Turns : Option String → Exec Batch Flow → Type 0
  Turns known m = Ensures (At P known) (λ _. At R none) (At F none) m

  known_failed : (known : Option String) (s : Batch) → At P known s → At F none s
  known_failed known s h = before_failed v o e.run_task_id p s (p.before.forgets known s h)

  unrun : (known : Option String) (m : Exec Batch Flow) → Keeps (At P known) m → Turns known m
  unrun known m k =
      Ensures-post m (Ensures-Keeps m k (known_failed known))
        (λ a s h. p.before_done s (p.before.forgets known s h)) (λ s h. h)

  perform_lem : (known : Option String) → Turns known (perform v o e)
  unfolding perform
  perform_lem known = Ensures-weaken _ (p.before.forgets known) (
      Ensures-bind _ _
        (Ensures-Keeps _ (p.before.materializes none e.run_task_id) (known_failed none))
        (λ id.
          Ensures-if (not (id == e.run_task_id)) _ _ (λ c. Ensures-throw (known_failed none) _)
            (λ c.
              Ensures-if o.has_executor _ _ (λ x. execute_task_lem v o e.run_task_id p)
                (λ x. run_task_lem v o e.run_task_id p))))

  skip_keeps :
      (stored : Option String) → Keeps (At P (some e.run_task_id)) (skip_completed v o e stored)
  unfolding skip_completed
  skip_keeps none = search keeping
  skip_keeps (some stored) =
      Keeps-if (not (stored == e.task_contract_fingerprint)) _ _ (search keeping)
        (search (keeping, finishes v o P p.before))

  consider_row_lem :
      (status : RowStatus) (stored : Option String)
      → Turns
          (if is_completed_status status then some e.run_task_id else none)
          (consider_row v o e status stored)
  unfolding consider_row
  consider_row_lem RowStatus.completed stored = unrun _ _ (skip_keeps stored)
  consider_row_lem RowStatus.running stored = Ensures-throw (known_failed none) _
  consider_row_lem RowStatus.failed stored = perform_lem none
  consider_row_lem RowStatus.pending stored = Ensures-throw (known_failed none) _

  consider_lem : (row : Option Row) → Turns (proved_by row e.run_task_id) (consider v o e row)
  unfolding consider
  consider_lem none = perform_lem none
  consider_lem (some row) = consider_row_lem row.status row.task_contract_fingerprint

  look_up_lem : Turns none (look_up v o e)
  unfolding look_up
  look_up_lem =
      Ensures-bind _ _
        (Ensures-post _ (p.before.looks e.run_task_id) (λ row s h. h) (known_failed none))
        consider_lem

  pub schedule_lem : Turns none (schedule v o e)
  unfolding schedule
  schedule_lem =
      Ensures-if (not o.has_control) _ _ (λ c. look_up_lem)
        (λ c.
          Ensures-bind _ _
            (Ensures-Keeps _ (load_active_keeps v o P p.before none) (known_failed none))
            (λ active.
              Ensures-if (contains active.completed_run_task_ids e.run_task_id) _ _
                (λ x. unrun none _ (Keeps-return next))
                (λ x.
                  Ensures-bind _ _
                    (Ensures-Keeps _ (p.before.starts none e.run_task_id) (known_failed none))
                    (λ a.
                      Ensures-bind _ _
                        (Ensures-Keeps _ (stop_keeps v o P p.before none) (known_failed none))
                        (λ flow.
                          Ensures-if (is_stop flow) _ _ (λ y. unrun none _ (Keeps-return stop))
                            (λ y. look_up_lem))))))

-- A turn of the loop: what is kept up to the task may use the number of attempts, below the limit.
pub record Turn (v : Services) (limit : Option ℕ) (id : String) (I R F : Family) : Type 1 where
  pub P : ℕ → Family
  pub M : ℕ → Family
  pub N : ℕ → Family
  pub plan : (n : ℕ) → is_full limit n ≡ false → Plan v id (P n) (M n) (N n) R F
  pub first : IsKept v I
  pub enters : (s : Batch) → At I none s → At (P s.attempted) none s
  pub first_done : Weaker I R
  pub first_failed : Weaker I F

module _ (v : Services) (o : Options) (limit : Option ℕ) where
  reads :
      (I F : Family)
      → Ensures
          (At I none)
          (λ n s. At I none s × (s.attempted ≡ n))
          (At F none)
          (from (λ s. ok s.attempted))
  unfolding from
  reads I F = record { run = λ s h. (h, refl) }

  not_full : (n : ℕ) (b : Bool) → b || is_full limit n ≡ false → is_full limit n ≡ false
  not_full n b h = ground arith

  pub visit_lem :
      (e : Entry) {I R F : Family}
      → Turn v limit e.run_task_id I R F
      → Ensures (At I none) (λ _. At R none) (At F none) (visit v o limit e)
  unfolding visit
  visit_lem e {I} {R} {F} t =
      Ensures-bind _ _ (Ensures-Keeps _ (probe_keeps v o I t.first none) t.first_failed) (λ u.
        Ensures-bind _ _ (Ensures-Keeps _ (stop_keeps v o I t.first none) t.first_failed) (λ flow.
          Ensures-bind {Q = λ n s. At I none s × (s.attempted ≡ n)} _ _ (reads I F) (λ n.
            Ensures-if (is_stop flow || is_full limit n) _ _
              (λ c.
                Ensures-post _ (Ensures-Keeps _ (Keeps-return stop) (λ s h. t.first_failed s h.0))
                  (λ a s h. t.first_done s h.0) (λ s h. h))
              (λ c.
                Ensures-weaken {P = At (t.P n) none} _
                  (λ s h. subst (λ m. At (t.P m) none s) h.1 (t.enters s h.0))
                  (schedule_lem v o e (t.plan n (not_full n (is_stop flow) c)))))))

  -- the loop, where a turn that returns keeps the property
  pub visit_all_lem :
      {I F : Family}
      → ((id : String) → Turn v limit id I I F)
      → Weaker I F
      → (entries : List Entry)
      → Ensures (At I none) (λ _. At I none) (At F none) (visit_all v o limit entries)
  unfolding visit_all
  visit_all_lem t weak [] = Ensures-Keeps _ (Keeps-return tt) weak
  visit_all_lem t weak (e ∷ entries) = Ensures-bind _ _ (visit_lem e (t e.run_task_id)) (λ flow.
      Ensures-if (is_stop flow) _ _ (λ c. Ensures-Keeps _ (Keeps-return tt) weak)
        (λ c. visit_all_lem t weak entries))
