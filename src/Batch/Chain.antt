-- ===== src/Batch/Chain.antt =====
-- One turn of the loop of `run_pending`, from what holds before it to what holds behind it.
use gpt_trace_extractor_for.Base.{◌+◌, refl, String, none, true, not, string_eq}
use gpt_trace_extractor_for.Exec.{Exec, throw, catch_all, finally, modify, ◌>>◌}
use gpt_trace_extractor_for.Exec.Keeps.{
  Ensures, Ensures-bind, Ensures-Keeps, Ensures-post, Keeps, Keeps-if, Keeps-from, Keeps-then,
  Keeps-when, Keeps-return,
}
use gpt_trace_extractor_for.Exec.Handlers.{
  Keeps-modify, Ensures-catch_all, Ensures-finally, Raises-then, Raises-throw,
}
use gpt_trace_extractor_for.Batch.{
  run, execute, Batch, Services, Options, request, is_completed_row,
}
use gpt_trace_extractor_for.Batch.Task.{
  next, stop, is_stop, cleanup_task, start_attempt, end_attempt, attempt, execute_task,
  after_attempt, run_task,
}
use gpt_trace_extractor_for.Batch.Rules.{
  Family, At, IsKept, cleanup_keeps, get_chatgpt_keeps, stop_keeps, probe_keeps, pace_keeps,
  finish_if, look_keeps,
}
use gpt_trace_extractor_for.Batch.Failed.{attempt_failed-Fails}

abbrev pub Weaker : Family → Family → Type 0
Weaker P Q = (s : Batch) → At P none s → At Q none s

abbrev pub counted : Batch → Batch
counted s = record s { attempted = s.attempted + 1 }

abbrev pub Counts : Family → Family → Type 0
Counts P Q = (s : Batch) → At P none s → At Q none (counted s)

-- What holds before the task is run, once it ran, when its run or something before it raised, and at
-- the end of the turn, by whether it returned.
pub record Plan (v : Services) (id : String) (P M N R F : Family) : Type 0 where
  pub before : IsKept v P
  pub ran : IsKept v M
  pub broke : IsKept v N
  pub done : IsKept v R
  pub failed : IsKept v F
  pub runs : Ensures (At P none) (λ _. At M none) (At N none) (request v (run id))
  pub executes : Ensures (At P none) (λ _. At M none) (At N none) (request v (execute id))
  pub before_broke : Weaker P N
  pub before_done : Weaker P R
  pub ran_broke : Weaker M N
  pub broke_failed : Weaker N F
  pub done_failed : Weaker R F
  pub counts_done : Counts M R
  pub counts_failed : Counts N F

module _ (v : Services) (o : Options) (id : String) {P M N R F : Family}
    (p : Plan v id P M N R F) where
  -- from before the turn to its end
  abbrev pub Steps : {A : Type 0} → Exec Batch A → Type 0
  Steps m = Ensures (At P none) (λ _. At R none) (At F none) m

  pub before_failed : Weaker P F
  before_failed s h = p.broke_failed s (p.before_broke s h)

  start_attempt_lem : Ensures (At P none) (λ _. At M none) (At N none) (start_attempt v o id)
  unfolding start_attempt
  start_attempt_lem = Ensures-bind _ _ (kept (p.before.calls none _ refl)) (λ u.
      Ensures-bind _ _ (kept (p.before.calls none _ refl)) (λ u1.
        Ensures-bind _ _ (kept (Keeps-modify _ (λ s h. h))) (λ u2.
          Ensures-bind _ _ (kept (get_chatgpt_keeps v o P p.before none))
            (λ u3. Ensures-bind _ _ (kept (Keeps-modify _ (λ s h. h))) (λ u4. p.runs)))))
    where
      kept :
          {m : Exec Batch (Unit {0})}
          → Keeps (At P none) m
          → Ensures (At P none) (λ _. At P none) (At N none) m
      kept k = Ensures-Keeps _ k p.before_broke

  count_lem :
      (X Y : Family)
      → Counts X Y
      → Ensures
          (At X none)
          (λ _. At Y none)
          (At F none)
          (modify (λ s. record s { attempted = s.attempted + 1 }))
  unfolding modify
  count_lem X Y counts = record { run = counts }

  end_attempt_lem :
      (X Y : Family)
      → IsKept v Y
      → Counts X Y
      → Weaker Y F
      → Ensures (At X none) (λ _. At Y none) (At F none) (end_attempt v o id)
  unfolding end_attempt
  end_attempt_lem X Y k counts weak = Ensures-bind _ _ (count_lem X Y counts) (λ u.
      Ensures-Keeps _
        (Keeps-then _ _ (Keeps-from _) (λ required.
          Keeps-then _ _ (Keeps-when (not required) _ (cleanup_keeps v o Y k none id))
            (λ w. Keeps-then _ _ (Keeps-from _) (λ made. Keeps-when made _ (k.calls none _ refl)))))
        weak)

  attempt_lem : Steps (attempt v o id)
  unfolding attempt
  attempt_lem = Ensures-bind _ _ (Ensures-Keeps _ (Keeps-modify _ (λ s h. h)) before_failed) (λ u.
      Ensures-finally _ _
        (Ensures-catch_all _ _ start_attempt_lem (λ e.
          Ensures-post _ (attempt_failed-Fails v o N p.broke id e) (λ a s bad. elim bad [ ])
            (λ s h. h)))
        (λ a. end_attempt_lem M R p.done p.counts_done p.done_failed)
        (end_attempt_lem N F p.failed p.counts_failed (λ s h. h)))

  executed :
      Ensures
        (At P none)
        (λ _. At M none)
        (At N none)
        (finally
          (catch_all
            (request v (execute id))
            (λ e. modify (λ s. record s { failed = true }) >> throw e))
          (cleanup_task v o id))
  executed =
      Ensures-finally _ _
        (Ensures-catch_all _ _ p.executes (λ e.
          Ensures-post _
            (Raises-then (λ s h. h) _ _ (Keeps-modify _ (λ s h. h))
              (λ u. Raises-throw (λ s h. h) e))
            (λ a s bad. elim bad [ ]) (λ s h. h)))
        (λ a. Ensures-Keeps _ (cleanup_keeps v o M p.ran none id) p.ran_broke)
        (Ensures-Keeps _ (cleanup_keeps v o N p.broke none id) (λ s h. h))

  pub execute_task_lem : Steps (execute_task v o id)
  unfolding execute_task
  execute_task_lem =
      Ensures-bind _ _ (Ensures-Keeps _ (Keeps-modify _ (λ s h. h)) before_failed) (λ u.
        Ensures-bind _ _ (Ensures-post _ executed (λ a s h. h) p.broke_failed) (λ u1.
          Ensures-bind _ _ (count_lem M R p.counts_done) (λ u2.
            Ensures-Keeps _
              (Keeps-then _ _
                (Keeps-when o.has_control _ (
                  look_keeps v o R p.done id _
                    (λ row. finish_if v o R p.done (is_completed_row row) id)))
                (λ w. Keeps-return next))
              p.done_failed)))

  after_attempt_keeps : Keeps (At R none) (after_attempt v o id)
  unfolding after_attempt
  after_attempt_keeps =
      Keeps-if o.has_control _ _
        (Keeps-then _ _ (probe_keeps v o R p.done none) (λ u. look_keeps v o R p.done id _ (λ row.
          Keeps-then _ _ (finish_if v o R p.done (is_completed_row row) id)
            (λ w. stop_keeps v o R p.done _))))
        (Keeps-return next)

  pub run_task_lem : Steps (run_task v o id)
  unfolding run_task
  run_task_lem = Ensures-bind _ _ (Ensures-Keeps _ (Keeps-from _) before_failed) (λ at.
      Ensures-bind _ _ (Ensures-Keeps _ (pace_keeps v o P p.before none at) before_failed) (λ u.
        Ensures-bind _ _ attempt_lem (λ u1.
          Ensures-Keeps _
            (Keeps-then _ _ after_attempt_keeps (λ flow.
              Keeps-if (is_stop flow) _ _ (Keeps-return stop)
                (Keeps-then _ _ (Keeps-modify _ (λ s h. h)) (λ w. Keeps-return next))))
            p.done_failed)))
