-- ===== src/Runner/Restarts.antt =====
-- The click of Send across run_task of Attempt.antt and any number of later processes, which recover
-- from the journal by Recovery.antt.
use gpt_trace_extractor_for.Base.{
  ℕ, String, ◌≡◌, refl, ap, ◌≤◌, Option, none, some, Bool, true, ◌∷◌, [], List, string_eq,
  option_eq, suc, inl, inr,
}
use native.Mathlib.Omega.{arith}
use gpt_trace_extractor_for.Exceptions.{Outcome, ok, raised}
use gpt_trace_extractor_for.Exec.{from, after, ◌>>=◌}
use gpt_trace_extractor_for.Exec.Keeps.{
  Ends, Leads, Leads-Keeps, Leads-bind, Ensures, Ensures-bind, Keeps-throw, Keeps-return, Leads-end,
}
use gpt_trace_extractor_for.Journal.{
  Phase, JournalFile, absent, unreadable, holds, SubmissionJournal, load,
}
use gpt_trace_extractor_for.Runner.{Task, World, StoredRun, Services, Event, clicks, load_journal}
use gpt_trace_extractor_for.Runner.Attempt.{run_task}
use gpt_trace_extractor_for.Runner.Recovery.{
  is_preparing, find_task, reconcile_checked, reconcile_entry, reconcile_task, reconcile_found,
  reconcile_journal,
}
use gpt_trace_extractor_for.Runner.Recovered.{check_entry-Keeps, reconcile_row-Leads}
use gpt_trace_extractor_for.Runner.Phases.{is_submitted, IsStable}
use gpt_trace_extractor_for.Runner.Counted.{Clicked-IsStable, Clicked-free}
use gpt_trace_extractor_for.Runner.Sent.{Kept, IsSettling, Sent, Sent-IsStable}
use gpt_trace_extractor_for.Runner.Once.{Result, run_task-Result, reconcile_journal-Result}

-- a log that always lets the journal go
abbrev always : List Event → Bool
always log = true

always_settles : IsSettling always
always_settles = record { more = λ c b log h. refl; done = λ log. refl }

submitted_resumes_not : (p : Phase) → is_submitted p ≡ true → ¬ (is_preparing p ≡ true)
submitted_resumes_not p h k = ground arith

-- an entry behind the click, or none
abbrev IsBehind : Option SubmissionJournal → Type 0
IsBehind none = Unit
IsBehind (some entry) = is_submitted entry.phase ≡ true

Sent-free : {n : ℕ} (s : World) → Sent always n s → Sent always n (record s { journal = absent })
Sent-free s k = record { few = k.few; kept = refl }

-- a journal behind the click keeps what no call but the click changes
module _ {P : World → Type 0} (st : IsStable P)
    (free : (s : World) → P s → P (record s { journal = absent })) (v : Services)
    (id : String) where
  reconcile_checked-Leads :
      (task : Task) (entry : SubmissionJournal) (found : String × Option StoredRun × Task)
      → is_submitted entry.phase ≡ true
      → Leads P P (reconcile_checked v id task entry found)
  unfolding reconcile_checked
  reconcile_checked-Leads task entry (fingerprint, row, recovery) h =
      reconcile_row-Leads st free v (λ s k. k) id task recovery fingerprint _ entry row
        (λ e. elim (submitted_resumes_not entry.phase h e) [ ])

  reconcile_task-Leads :
      (task : Option Task) (entry : SubmissionJournal)
      → is_submitted entry.phase ≡ true
      → Leads P P (reconcile_task v id task entry)
  unfolding reconcile_task reconcile_entry
  reconcile_task-Leads none entry h = Leads-Keeps (λ s k. k) _ (Keeps-throw _)
  reconcile_task-Leads (some task) entry h =
      Leads-bind (λ s k. k) _ _ (check_entry-Keeps st free v task entry)
        (λ found. reconcile_checked-Leads task entry found h)

  reconcile_found-Leads :
      (tasks : List Task) (entry : Option SubmissionJournal)
      → IsBehind entry
      → Leads P P (reconcile_found v id tasks entry)
  unfolding reconcile_found
  reconcile_found-Leads tasks none h = Leads-Keeps (λ s k. k) _ (Keeps-return tt)
  reconcile_found-Leads tasks (some entry) h =
      reconcile_task-Leads (find_task tasks entry.task_id) entry h

Sent-stable : (n : ℕ) → IsStable (Sent always n)
Sent-stable n = Sent-IsStable always_settles

module _ (n : ℕ) (v : Services) (id : String) where
  behind :
      (j : JournalFile) (log : List Event)
      → Kept always j log
      → Ends (λ entry s. IsBehind entry) (λ s. Unit) (load j, log)
  unfolding load
  behind absent log k = tt
  behind unreadable log k = elim k [ ]
  behind (holds e) log k = k

  loaded :
      (o : Outcome (Option SubmissionJournal)) (s : World) (log : List Event)
      → Ends (λ entry t. IsBehind entry) (λ t. Unit) (o, log)
      → Sent always n s
      → Ends (λ entry t. Sent always n t × IsBehind entry) (Sent always n) (o, s)
  loaded (ok entry) s log h k = (k, h)
  loaded (raised e) s log h k = k

  load_Sent :
      Ensures
        (Sent always n)
        (λ entry s. Sent always n s × IsBehind entry)
        (Sent always n)
        load_journal
  unfolding load_journal from
  load_Sent = record {
    run = λ s k. loaded (load s.journal) s s.log (behind s.journal s.log k.kept) k;
  }

  pub reconcile_journal-Sent :
      (tasks : List Task) → Leads (Sent always n) (Sent always n) (reconcile_journal v id tasks)
  unfolding reconcile_journal
  reconcile_journal-Sent tasks = Ensures-bind _ _ load_Sent (λ entry. record {
    run = λ s k. (reconcile_found-Leads (Sent-stable n) Sent-free v id tasks entry k.1).run s k.0;
  })

-- a later process: what it is started with
pub record Restart : Type 0 where
  pub services : Services
  pub runner_id : String
  pub tasks : List Task

-- later processes, one after the other, each of which recovers from the journal
abbrev pub recover_all : List Restart → World → World
recover_all [] s = s
recover_all (r ∷ rs) s = recover_all rs (reconcile_journal r.services r.runner_id r.tasks s).1

recover-Result :
    (n : ℕ) (r : Restart) (s : World)
    → Result always n s
    → Result always n (reconcile_journal r.services r.runner_id r.tasks s).1
recover-Result n r s (inl k) =
    Leads-end _ (reconcile_journal-Result always_settles r.services r.runner_id r.tasks) s k
recover-Result n r s (inr k) =
    inr (Leads-end _ (reconcile_journal-Sent n r.services r.runner_id r.tasks) s k)

recover_all-Result :
    (n : ℕ) (rs : List Restart) (s : World) → Result always n s → Result always n (recover_all rs s)
recover_all-Result n [] s k = k
recover_all-Result n (r ∷ rs) s k = recover_all-Result n rs _ (recover-Result n r s k)

Result-few : (n : ℕ) (s : World) → Result always n s → clicks s.log ≤ suc n
Result-few n s (inl k) = (let e = k.count in omega arith)
Result-few n s (inr k) = k.few

-- Whatever the other parts do, `run_task` and the recoveries of any number of later processes call
-- Send at most once in all.
pub submitted_once :
    (v : Services) (id : String) (recover_existing : Bool) (task : Task) (resume : Bool)
    (later : List Restart) (s : World)
    → clicks (recover_all later (run_task v id recover_existing task resume s).1).log
      ≤ suc (clicks s.log)
submitted_once v id recover_existing task resume later s = Result-few (clicks s.log) _ (
    recover_all-Result (clicks s.log) later _ (
      Leads-end _ (run_task-Result always_settles v id recover_existing task resume) s
        (record { count = refl })))

reconcile_found-journal :
    (v : Services) (id : String) (tasks : List Task) (entry : SubmissionJournal) (s : World)
    → s.journal ≡ holds entry
    → reconcile_journal v id tasks s ≡ reconcile_found v id tasks (some entry) s
unfolding reconcile_journal load_journal from load ◌>>=◌
reconcile_found-journal v id tasks entry s h =
    ap (λ j. after (reconcile_found v id tasks) (load j, s)) h

-- From a journal in a phase behind the click, `reconcile_journal` never calls Send, whatever it finds
-- in storage and however it ends.
pub recovery_sends_nothing :
    (v : Services) (id : String) (tasks : List Task) (entry : SubmissionJournal) (s : World)
    → s.journal ≡ holds entry
    → is_submitted entry.phase ≡ true
    → clicks (reconcile_journal v id tasks s).1.log ≡ clicks s.log
recovery_sends_nothing v id tasks entry s h k =
    rw (reconcile_found-journal v id tasks entry s h)
      (Leads-end _
        (reconcile_found-Leads (Clicked-IsStable (clicks s.log)) (Clicked-free (clicks s.log)) v id
          tasks (some entry) k)
        s (record { count = refl })).count
