-- ===== src/Runner/Kept.antt =====
-- The journal behind the click of Send, in run_task of Attempt.antt and reconcile_journal of
-- Recovery.antt.
use gpt_trace_extractor_for.Base.{ℕ, String, ◌≡◌, refl, ◌<◌, Bool, true, false, ◌∷◌, List, inl, inr}
use native.Mathlib.Omega.{arith}
use gpt_trace_extractor_for.Exec.Keeps.{Leads-end}
use gpt_trace_extractor_for.Journal.{JournalFile, absent, unreadable, holds, SubmissionJournal}
use gpt_trace_extractor_for.Runner.{
  Task, World, Services, Call, Event, called, clicks, has_completed,
}
use gpt_trace_extractor_for.Runner.Attempt.{run_task}
use gpt_trace_extractor_for.Runner.Phases.{is_submitted}
use gpt_trace_extractor_for.Runner.Sent.{Kept, IsSettling}
use gpt_trace_extractor_for.Runner.Once.{Result, run_task-Result}

completed_more :
    (c : Call) (b : Bool) (log : List Event)
    → has_completed log ≡ true
    → has_completed (called c b ∷ log) ≡ true
completed_more c b log h = ground arith

completed_settles : IsSettling has_completed
completed_settles = record { more = completed_more; done = λ log. refl }

-- an entry in a phase behind the click
pub record Holds (journal : JournalFile) : Type 0 where
  pub entry : SubmissionJournal
  pub held : journal ≡ holds entry
  pub submitted : is_submitted entry.phase ≡ true

Kept-Holds :
    (j : JournalFile) (log : List Event)
    → Kept has_completed j log
    → has_completed log ≡ false
    → Holds j
Kept-Holds absent log k h = ground arith
Kept-Holds unreadable log k h = elim k [ ]
Kept-Holds (holds entry) log k h = record { entry = entry; held = refl; submitted = k }

Result-Holds :
    (n : ℕ) (s : World)
    → Result has_completed n s
    → n < clicks s.log
    → has_completed s.log ≡ false
    → Holds s.journal
Result-Holds n s (inl k) less h = (let e = k.count in let bad : ⊥ = omega arith in elim bad [ ])
Result-Holds n s (inr k) less h = Kept-Holds s.journal s.log k.kept h

-- If `run_task` called Send and `storage.complete` has not returned, then the journal still holds an
-- entry in a phase behind the click, however the call ended.
pub journal_kept :
    (v : Services) (id : String) (recover_existing : Bool) (task : Task) (resume : Bool) (s : World)
    → clicks s.log < clicks (run_task v id recover_existing task resume s).1.log
    → has_completed (run_task v id recover_existing task resume s).1.log ≡ false
    → Holds (run_task v id recover_existing task resume s).1.journal
journal_kept v id recover_existing task resume s = Result-Holds (clicks s.log) _ (
    Leads-end _ (run_task-Result completed_settles v id recover_existing task resume) s
      (record { count = refl }))
