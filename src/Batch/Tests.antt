-- ===== src/Batch/Tests.antt =====
-- Batches of two tasks with other parts that mostly return, and the theorems at them.
use gpt_trace_extractor_for.Base.{
  ◌≡◌, refl, ◌≤◌, String, Option, none, some, Bool, true, false, List, [], ◌∷◌, if◌then◌else◌,
  string_eq, ◌==◌, ◌&&◌, not, ℕ, ◌||◌, ◌⊎◌,
}
use gpt_trace_extractor_for.Exceptions.{ok, raised, Outcome, other_exception}
use gpt_trace_extractor_for.Exec.{
  Exec, ◌>>=◌, catch, catch_all, finally, from, is_exception, modify, return, throw,
}
use gpt_trace_extractor_for.Exec.Keeps.{Ends}
use gpt_trace_extractor_for.Json.{null}
use gpt_trace_extractor_for.Journal.{
  submission_started, absent, holds, JournalFile, SubmissionJournal, load,
}
use gpt_trace_extractor_for.Runner.{RowStatus}
use gpt_trace_extractor_for.RunControl.{ActiveRun, PlannedTask, running, is_pause_requested}
use gpt_trace_extractor_for.RunControl.Store.{RunFile, load_file, body_transitions}
use gpt_trace_extractor_for.Batch.{
  Entry, Call, run, execute, Event, called, Batch, Services, Options, request, get_row,
  materialize_task, load_journal, control, load_active,
}
use gpt_trace_extractor_for.Batch.Task.{
  cleanup_task, get_chatgpt, persist_defer, require_recovery, finish, stop_if_requested,
  probe_pause, execute_task, pace, start_attempt, record_pre_runner_failure, reconcile_now,
  cleanup_reconciled, completed_uncleaned, classify_failure, is_pause_cancelled, attempt_failed,
  end_attempt, attempt, after_attempt, run_task,
}
use gpt_trace_extractor_for.Batch.Loop.{
  entry_by_id, select_entries, skip_completed, perform, consider_row, consider, look_up, schedule,
  is_full, visit, visit_all, recover_pending, recover_pending_journal, recover_first,
  confirm_running, run_locked, batch_failed, end_batch, run_selected, run_selection, run_catalog,
  run_pending,
}
use gpt_trace_extractor_for.Batch.Proved.{Finished, was_completed}
use gpt_trace_extractor_for.Batch.Stored.{finished_were_stored}
use gpt_trace_extractor_for.Batch.Schedule.{Schedule, runs_of}
use gpt_trace_extractor_for.Batch.Scheduled.{selection, runs_scheduled}
use gpt_trace_extractor_for.Batch.Limited.{count_runs, runs_limited}
use gpt_trace_extractor_for.Batch.Preserved.{count_cleanups, fresh, failing, pending_preserved}

abbrev entry : String → Entry
entry id = record { run_task_id = id; task_contract_fingerprint = "c" }

abbrev pending : SubmissionJournal
pending = record {
  task_id = "b";
  runner_id = "r";
  attempt = 1;
  phase = submission_started;
  conversation_id = none;
  task_fingerprint = none;
  app_environments = null;
  resolved_app_names = null;
  user_message_id = none;
  retry_not_before = none;
  capture_sha256 = none;
  candidate = none;
  evaluator = none;
}

-- whether the log has a run of the task
abbrev was_run : String → List Event → Bool
was_run id [] = false
was_run id (called (run other) b ∷ log) = (other == id) || was_run id log
was_run id (e ∷ log) = was_run id log

abbrev outcome_of : (String → Bool) → Call → Outcome (Unit {0})
outcome_of fails (run id) = if fails id then raised (other_exception "TimeoutError") else ok tt
outcome_of fails (execute id) = if fails id then raised (other_exception "TimeoutError") else ok tt
outcome_of fails _ = ok tt

-- the run of a task leaves an entry in the journal where it raises, and a completed row otherwise
abbrev journal_behind : (String → Bool) → Call → Batch → JournalFile
journal_behind fails (run id) s = if fails id then holds pending else s.journal
journal_behind fails (execute id) s = s.journal
journal_behind fails _ s = s.journal

abbrev services : (String → Bool) → (Batch → Outcome (Unit {0})) → Services
services fails answers = record {
  outcome = λ c s. outcome_of fails c;
  journal_after = journal_behind fails;
  control_after = λ c s. s.control;
  row = λ id s. elim (answers s) [
    | raised e ↦ raised e
    | ok u ↦ ok (
        if was_run id s.log && not (fails id)
        then some (record { status = RowStatus.completed; task_contract_fingerprint = some "c" })
        else none)
  ];
  task_id = λ id s. ok id;
  pause_probe = λ s. false;
  connects_deferred = λ s. false;
  time = λ s. 1000;
  chatgpt_inter_task_pause_seconds = 0;
}

abbrev planned : String → PlannedTask
planned id = record {
  run_task_id = id;
  logical_task_id = id;
  adapter_id = "gaia";
  adapter_version = "1";
  task_spec_fingerprint = "s";
  task_contract_fingerprint = "c";
}

abbrev active : ActiveRun
active = record {
  schema_version = 3;
  run_id = "r";
  campaign_id = "c";
  status = running;
  selected_tasks = planned "a" ∷ planned "b" ∷ [];
  expected_model = "m";
  configuration_fingerprint = "f";
  completed_run_task_ids = [];
  current_run_task_id = none;
  intervention_reason = none;
  exception_type = none;
  intervention_message = none;
  retry_not_before = none;
}

abbrev options : Option ℕ → Option (List String) → Options
options limit selected = record {
  has_control = true;
  has_executor = false;
  limit = limit;
  selected_run_task_ids = selected;
  runner_lock_held = true;
  owned_storage = false;
}

abbrev begun : Batch
begun = record {
  control = RunFile.holds active;
  journal = absent;
  attempted = 0;
  last_completed_task_at = none;
  connected = false;
  lifecycle_made = false;
  runner_made = false;
  recovery_required = false;
  failed = false;
  log = [];
}

abbrev catalog : List Entry
catalog = entry "b" ∷ entry "a" ∷ []

abbrev in_order : Option (List String)
in_order = some ("a" ∷ "b" ∷ [])

abbrev no_failure : String → Bool
no_failure id = false

abbrev second_fails : String → Bool
second_fails id = id == "b"

abbrev answers : Batch → Outcome (Unit {0})
answers s = ok tt

-- naming this on an `unfolding` line opens an attempt and its end
unfoldable attempt_steps : Services → Options → String → Exec Batch (Unit {0})
unfolding attempt start_attempt attempt_failed end_attempt cleanup_task get_chatgpt persist_defer
    require_recovery finish classify_failure completed_uncleaned cleanup_reconciled reconcile_now
    record_pre_runner_failure is_pause_cancelled request get_row load_journal control load_active
    catch catch_all finally from is_exception modify return throw ◌>>=◌ load load_file
    body_transitions is_pause_requested
attempt_steps = attempt

-- and this the whole batch
unfoldable batch_steps : Services → Options → List Entry → Exec Batch ℕ
unfolding attempt_steps run_pending run_catalog run_selection run_selected run_locked recover_first
    recover_pending_journal recover_pending confirm_running visit_all visit schedule look_up
    consider consider_row skip_completed perform run_task execute_task pace after_attempt
    stop_if_requested probe_pause is_full batch_failed end_batch select_entries entry_by_id
    materialize_task
batch_steps = run_pending

-- both tasks are run in the order of the selection
whole_batch :
    runs_of (run_pending (services no_failure answers) (options none in_order) catalog begun).1.log
    ≡ ("a", true) ∷ ("b", true) ∷ []
unfolding batch_steps
whole_batch = refl

whole_batch_finishes :
    Finished "b"
      (run_pending (services no_failure answers) (options none in_order) catalog begun).1.control
unfolding batch_steps
whole_batch_finishes = refl

-- a failure of the first task in the catalog ends the batch
failed_batch :
    runs_of (run_pending (services second_fails answers) (options none none) catalog begun).1.log
    ≡ ("b", false) ∷ []
unfolding batch_steps
failed_batch = refl

-- the state of an attempt that failed with an entry in the journal is kept for the recovery
failed_attempt_preserves :
    count_cleanups (attempt (services second_fails answers) (options none none) "b" begun).1.log ≡ 0
unfolding attempt_steps
failed_attempt_preserves = refl

-- it is not kept where storage does not answer behind the failure, though the journal has the entry
abbrev silent : Batch → Outcome (Unit {0})
silent s = raised (other_exception "ConnectError")

cleaned_though_pending :
    let s = (attempt (services second_fails silent) (options none none) "b" begun).1 in
    (s.journal ≡ holds pending) × (count_cleanups s.log ≡ 1)
unfolding attempt_steps
cleaned_though_pending = (refl, refl)

finished_were_stored_example :
    Finished "b" begun.control
    ⊎ (was_completed "b"
          (run_pending (services no_failure answers) (options none in_order) catalog begun).1.log
        ≡ true)
finished_were_stored_example =
    finished_were_stored (services no_failure answers) (options none in_order) catalog begun "b"
      (λ c s id h. h) whole_batch_finishes

runs_scheduled_example : Schedule (selection catalog in_order) (
    runs_of (run_pending (services no_failure answers) (options none in_order) catalog begun).1.log)
runs_scheduled_example =
    runs_scheduled (services no_failure answers) (options none in_order) catalog begun

runs_limited_example :
    Ends
      (λ n t. (n ≤ 1) × (count_runs t.log ≤ 1))
      (λ t. count_runs t.log ≤ 1)
      (run_pending (services no_failure answers) (options (some 1) none) catalog begun)
runs_limited_example =
    runs_limited (services no_failure answers) (options (some 1) none) catalog begun 1 refl refl

abbrev broken_off : Batch
broken_off = (start_attempt (services second_fails answers) (options none none) "b" (fresh begun)).1

broken_off_raised :
    start_attempt (services second_fails answers) (options none none) "b" (fresh begun)
    ≡ (raised (other_exception "TimeoutError"), broken_off)
unfolding attempt_steps
broken_off_raised = refl

abbrev looked_at : Batch
looked_at = (get_row (services second_fails answers) "b" (failing broken_off)).1

looked : get_row (services second_fails answers) "b" (failing broken_off) ≡ (ok none, looked_at)
unfolding attempt_steps
looked = refl

holds_pending : load looked_at.journal ≡ ok (some pending)
unfolding attempt_steps
holds_pending = refl

not_paused :
    is_pause_cancelled
      (services second_fails answers)
      (options none none)
      (other_exception "TimeoutError")
      looked_at
    ≡ (ok false, looked_at)
unfolding attempt_steps
not_paused = refl

pending_preserved_example :
    count_cleanups (attempt (services second_fails answers) (options none none) "b" begun).1.log ≡ 0
pending_preserved_example =
    pending_preserved (services second_fails answers) (options none none) "b" begun broken_off
      looked_at (other_exception "TimeoutError") none pending false broken_off_raised looked
      holds_pending not_paused refl refl
