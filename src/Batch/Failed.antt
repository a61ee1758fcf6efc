-- ===== src/Batch/Failed.antt =====
-- The handler of an attempt that failed: it always raises, and finishes the task only behind a
-- completed row.
use gpt_trace_extractor_for.Base.{
  String, Option, none, some, Bool, true, false, ◌||◌, ◌&&◌, if◌then◌else◌, not,
}
use gpt_trace_extractor_for.Exceptions.{Exn, RateLimit}
use gpt_trace_extractor_for.Exec.{Exec}
use gpt_trace_extractor_for.Exec.Keeps.{Ensures-bind, Keeps-from, Keeps-when}
use gpt_trace_extractor_for.Exec.Handlers.{
  Keeps-modify, Raises, Raises-throw, Raises-if, Raises-then,
}
use gpt_trace_extractor_for.Journal.{SubmissionJournal}
use gpt_trace_extractor_for.Batch.{
  Row, Batch, Services, Options, is_completed_row, is_running_row, is_pending_for,
}
use gpt_trace_extractor_for.Batch.Task.{
  ends_batch, rate_limit_of, cleanup_reconciled, completed_uncleaned, classify_failure,
  attempt_failed,
}
use gpt_trace_extractor_for.Batch.Rules.{
  Family, At, IsKept, proved_by, load_journal_keeps, require_keeps, finishes, reconcile_now_keeps,
  persist_defer_keeps, failure_keeps, pause_cancelled_keeps,
}

module _ (v : Services) (o : Options) (P : Family) (k : IsKept v P) where
  abbrev Fails : {A : Type 0} → Option String → Exec Batch A → Type 0
  Fails known m = Raises (At P known) (At P none) m

  cleanup-Fails :
      (id : String) (e : Exn) (pending : Option SubmissionJournal)
      → Fails (some id) (cleanup_reconciled v o id e pending)
  unfolding cleanup_reconciled
  cleanup-Fails id e (some pending) =
      Raises-then (k.forgets _) _ _ (require_keeps v o P k _ true)
        (λ u. Raises-throw (k.forgets _) _)
  cleanup-Fails id e none =
      Raises-if (ends_batch e) _ _ (Raises-throw (k.forgets _) e)
        (Raises-then (k.forgets _) _ _ (finishes v o P k id) (λ u. Raises-throw (k.forgets _) e))

  uncleaned-Fails :
      (id : String) (e : Exn) (pending : Option SubmissionJournal) (limit : Option RateLimit)
      → Fails (some id) (completed_uncleaned v o id e pending limit)
  unfolding completed_uncleaned
  uncleaned-Fails id e pending none =
      Raises-then (k.forgets _) _ _ (reconcile_now_keeps v o P k _ id)
        (λ u. Raises-then (k.forgets _) _ _ (load_journal_keeps v o P k _) (cleanup-Fails id e))
  uncleaned-Fails id e pending (some limit) =
      Raises-then (k.forgets _) _ _ (persist_defer_keeps v o P k _ pending (some limit)) (λ u.
        Raises-then (k.forgets _) _ _ (require_keeps v o P k _ true)
          (λ w. Raises-throw (k.forgets _) e))

  -- a branch that is taken for a completed row only
  if_completed :
      {A : Type 0} (made completed pending : Bool) (id : String) (m n : Exec Batch A)
      → Fails (some id) m
      → ((known : Option String) → Fails known n)
      → Fails
          (if completed then some id else none)
          (if made && (completed && pending) then m else n)
  if_completed true true true id m n h each = h
  if_completed true true false id m n h each = each _
  if_completed true false pending id m n h each = each _
  if_completed false completed pending id m n h each = each _

  classify-Fails :
      (id : String) (e : Exn) (latest : Option Row) (pending : Option SubmissionJournal)
      → Fails (proved_by latest id) (classify_failure v o id e latest pending)
  unfolding classify_failure
  classify-Fails id e latest pending = Raises-then (k.forgets _) _ _ (Keeps-from _) (λ made.
      if_completed made (is_completed_row latest) (is_pending_for pending id) id _ _
        (uncleaned-Fails id e pending (rate_limit_of e))
        (λ known.
          Raises-if (is_running_row latest || is_pending_for pending id) _ _
            (Raises-then (k.forgets _) _ _ (persist_defer_keeps v o P k _ pending (rate_limit_of e))
              (λ u.
                Raises-then (k.forgets _) _ _ (require_keeps v o P k _ true)
                  (λ w. Raises-throw (k.forgets _) e)))
            (Raises-then (k.forgets _) _ _
              (Keeps-when (not made) _ (failure_keeps v o P k known id))
              (λ u. Raises-throw (k.forgets _) e))))

  pub attempt_failed-Fails : (id : String) (e : Exn) → Fails none (attempt_failed v o id e)
  unfolding attempt_failed
  attempt_failed-Fails id e =
      Raises-then (λ s p. p) _ _ (Keeps-modify _ (λ s p. p))
        (λ u. Ensures-bind _ _ (k.looks id) (λ row.
          Raises-then (k.forgets _) _ _ (load_journal_keeps v o P k _) (λ pending.
            Raises-then (k.forgets _) _ _ (pause_cancelled_keeps v o P k _ e) (λ paused.
              Raises-if paused _ _
                (Raises-then (k.forgets _) _ _ (require_keeps v o P k _ _)
                  (λ w. Raises-throw (k.forgets _) e))
                (classify-Fails id e row pending)))))
