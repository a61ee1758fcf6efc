-- ===== src/Runner/Once.antt =====
-- The click of Send across run_task of Attempt.antt and the recoveries of Recovery.antt that follow it.
use gpt_trace_extractor_for.Base.{
  ℕ, String, refl, Option, none, some, Bool, List, not, ◌==◌, string_eq, option_eq, ◌⊎◌, inl, inr,
}
use gpt_trace_extractor_for.Exec.Keeps.{
  keeping, Leads, Leads-Keeps, Leads-if, Leads-bind, Ensures-post, Keeps-from, Keeps-throw,
  Keeps-return,
}
use gpt_trace_extractor_for.Journal.{SubmissionJournal}
use gpt_trace_extractor_for.Runner.{
  Task, World, StoredRun, RowStatus, Services, Event, load_journal,
}
use gpt_trace_extractor_for.Runner.Attempt.{
  Attempt, run_attempt, new_attempt, run_status, run_row, run_found, run_task,
}
use gpt_trace_extractor_for.Runner.Recovery.{
  matches_entry, find_task, reconcile_checked, reconcile_entry, reconcile_task, reconcile_found,
  reconcile_journal, resume_attempt,
}
use gpt_trace_extractor_for.Runner.Recovered.{check_entry-Keeps, reconcile_row-Leads}
use gpt_trace_extractor_for.Runner.Counted.{
  Clicked, Clicked-IsStable, Clicked-free, write-Clicked, request-Clicked,
}
use gpt_trace_extractor_for.Runner.Sent.{IsSettling, Sent, Either, run_attempt-Either}

-- Send was not called, or once with the journal to show it.
abbrev pub Result : (List Event → Bool) → ℕ → World → Type 0
Result settled n s = Clicked n s ⊎ Sent settled n s

module _ {settled : List Event → Bool} (st : IsSettling settled) {n : ℕ} where
  Either-Result : (s : World) → Either settled n s → Result settled n s
  Either-Result s (inl k) = inl k
  Either-Result s (inr k) = inr k.sent

  run_attempt-Result :
      (v : Services) (task : Task) (a : Attempt) (row : Option StoredRun)
      → Leads (Clicked n) (Result settled n) (run_attempt v task a row)
  run_attempt-Result v task a row =
      Ensures-post _ (run_attempt-Either st v task a row) (λ _. Either-Result) Either-Result

  module _ (v : Services) (id : String) (recover_existing : Bool) (task : Task) where
    new_attempt-Result :
        (fingerprint : String) (number : ℕ)
        → Leads
            (Clicked n)
            (Result settled n)
            (new_attempt v id recover_existing task fingerprint number)
    unfolding new_attempt
    new_attempt-Result fingerprint number =
        Leads-bind (λ s. inl) _ _ (write-Clicked _) (λ _. run_attempt-Result v task _ none)

    run_status-Result :
        (resume : Bool) (fingerprint : String) (row : StoredRun) (status : RowStatus)
        → Leads
            (Clicked n)
            (Result settled n)
            (run_status v id recover_existing task resume fingerprint row status)
    unfolding run_status
    run_status-Result resume fingerprint row RowStatus.completed =
        Leads-Keeps (λ s. inl) _ (search (keeping, request-Clicked))
    run_status-Result resume fingerprint row RowStatus.running =
        Leads-Keeps (λ s. inl) _ (search (keeping))
    run_status-Result resume fingerprint row RowStatus.failed =
        Leads-if (not resume) _ _ (λ _. Leads-Keeps (λ s. inl) _ (search (keeping)))
          (new_attempt-Result _ _)
    run_status-Result resume fingerprint row RowStatus.pending = new_attempt-Result _ _

    run_found-Result :
        (resume : Bool) (fingerprint : String) (row : Option StoredRun)
        → Leads
            (Clicked n)
            (Result settled n)
            (run_found v id recover_existing task resume fingerprint row)
    unfolding run_found run_row
    run_found-Result resume fingerprint none = new_attempt-Result _ _
    run_found-Result resume fingerprint (some row) =
        Leads-if (row.task_fingerprint == none) _ _ (λ _. Leads-Keeps (λ s. inl) _ (Keeps-throw _))
          (Leads-if (not (row.task_fingerprint == some fingerprint)) _ _
            (λ _. Leads-Keeps (λ s. inl) _ (Keeps-throw _))
            (run_status-Result resume fingerprint row row.status))

    pub run_task-Result :
        (resume : Bool)
        → Leads (Clicked n) (Result settled n) (run_task v id recover_existing task resume)
    unfolding run_task
    run_task-Result resume =
        Leads-bind (λ s. inl) _ _ (Keeps-from _)
          (λ fingerprint.
            Leads-bind (λ s. inl) _ _ (request-Clicked _ _ refl)
              (λ row. run_found-Result resume fingerprint row))

  module _ (v : Services) (id : String) where
    reconcile_checked-Result :
        (task : Task) (entry : SubmissionJournal) (found : String × Option StoredRun × Task)
        → Leads (Clicked n) (Result settled n) (reconcile_checked v id task entry found)
    unfolding reconcile_checked resume_attempt
    reconcile_checked-Result task entry (fingerprint, row, recovery) =
        reconcile_row-Leads (Clicked-IsStable n) (Clicked-free n) v (λ s. inl) id task recovery
          fingerprint _ entry row
          (λ _.
            Leads-if (not (matches_entry entry row)) _ _
              (λ _. Leads-Keeps (λ s. inl) _ (Keeps-throw _)) (run_attempt-Result v recovery _ row))

    reconcile_task-Result :
        (task : Option Task) (entry : SubmissionJournal)
        → Leads (Clicked n) (Result settled n) (reconcile_task v id task entry)
    unfolding reconcile_task reconcile_entry
    reconcile_task-Result none entry = Leads-Keeps (λ s. inl) _ (Keeps-throw _)
    reconcile_task-Result (some task) entry =
        Leads-bind (λ s. inl) _ _
          (check_entry-Keeps (Clicked-IsStable n) (Clicked-free n) v task entry)
          (λ found. reconcile_checked-Result task entry found)

    reconcile_found-Result :
        (tasks : List Task) (entry : Option SubmissionJournal)
        → Leads (Clicked n) (Result settled n) (reconcile_found v id tasks entry)
    unfolding reconcile_found
    reconcile_found-Result tasks none = Leads-Keeps (λ s. inl) _ (Keeps-return tt)
    reconcile_found-Result tasks (some entry) =
        reconcile_task-Result (find_task tasks entry.task_id) entry

    pub reconcile_journal-Result :
        (tasks : List Task) → Leads (Clicked n) (Result settled n) (reconcile_journal v id tasks)
    unfolding reconcile_journal load_journal
    reconcile_journal-Result tasks =
        Leads-bind (λ s. inl) _ _ (Keeps-from _) (λ entry. reconcile_found-Result tasks entry)
