-- ===== src/Runner/Tests.antt =====
-- Runs of runner.py with other parts that always return, and the theorems at them.
use gpt_trace_extractor_for.Base.{
  ◌≡◌, refl, ◌≤◌, none, some, Bool, true, false, [], ◌∷◌, if◌then◌else◌,
}
use native.Mathlib.Omega.{arith}
use gpt_trace_extractor_for.Exceptions.{ok, raised, cancelled_error}
use gpt_trace_extractor_for.Json.{null}
use gpt_trace_extractor_for.Journal.{
  submission_started, conversation_known, absent, holds, SubmissionJournal, CapturedConversation,
}
use gpt_trace_extractor_for.Runner.{
  Task, World, StoredRun, RowStatus, Services, Call, storage_get, storage_set_conversation, clicks,
  has_completed,
}
use gpt_trace_extractor_for.Exec.{◌>>=◌, catch, from, is_exception, modify, return, throw}
use gpt_trace_extractor_for.Journal.{load}
use gpt_trace_extractor_for.Runner.{
  request, write_journal, set_phase, clear_capture, clear_journal, load_journal,
}
use gpt_trace_extractor_for.Runner.Submit.{
  check_observer, click_and_wait, identify, ready_to_send, submission_failed, submit_task,
}
use gpt_trace_extractor_for.Runner.Attempt.{
  run_task, run_found, run_row, run_status, new_attempt, run_attempt, attempt_body, prepare_attempt,
  prepare_apps, start_row, enter, prepare_benchmark, ensure_session, attempt_failed, clean_up,
  evaluate_capture, evaluate_entry, finish_attempt, mark_submission_started,
  persist_user_message_id, record_attempt,
}
use gpt_trace_extractor_for.Runner.Recovery.{
  reconcile_journal, reconcile_found, reconcile_task, find_task, reconcile_entry, check_entry,
  task_of_row, recovery_task, reconcile_checked, reconcile_row, reconcile_status, reconcile_open,
  reconcile_other, reconcile_submitted, complete_recovery, recover_candidate, finish_recovery,
  clear_all, reset, delete_conversation,
}
use gpt_trace_extractor_for.Runner.Restarts.{Restart, recover_all, submitted_once}
use gpt_trace_extractor_for.Runner.Kept.{Holds, journal_kept}

abbrev task : Task
task = record { task_id = "a"; has_tools = false; tools = null; has_template = false }

abbrev row : RowStatus → StoredRun
row status = record {
  status = status;
  conversation_id = some "c";
  attempt = 1;
  runner_id = some "r";
  task_fingerprint = some "f";
  app_provenance = none;
}

abbrev captured : CapturedConversation
captured = record { conversation_id = "c"; messages = null; runtime_metadata = null }

-- every call returns, but those that `fails` stop the process
abbrev services : (Call → Bool) → RowStatus → Services
services fails status = record {
  task_fingerprint = λ s t. "f";
  same = λ a b. true;
  names = λ t. null;
  environment_ids = λ t n f. null;
  task_with_stored_ui_names = λ t p. some t;
  has_runtime_hooks = λ id. false;
  has_evaluation = λ id. false;
  digest = λ c. "d";
  enrich = λ c m. c;
  get = λ s. ok (some (row status));
  start = λ s. ok (record (row RowStatus.running) { attempt = 2 });
  runtime_metadata = λ s. ok null;
  capture_candidate = λ s. ok null;
  evaluate = λ s. ok none;
  user_message_id = λ s. ok "u";
  conversation_id = λ s. ok "c";
  conversation = λ s. ok captured;
  observer_error = λ s. false;
  saw_backend_429 = λ s. false;
  saw_backend_403 = λ s. false;
  done = λ c s. if fails c then raised cancelled_error else ok tt;
}

abbrev never : Call → Bool
never c = false

abbrev at_set_conversation : Call → Bool
at_set_conversation storage_set_conversation = true
at_set_conversation storage_get = false
at_set_conversation _ = false

abbrev fresh : World
fresh = record {
  journal = absent;
  capture = none;
  session_prepared = false;
  phase = conversation_known;
  started = none;
  log = [];
}

-- the whole attempt sends once, and the row is completed
whole_attempt :
    clicks (run_task (services never RowStatus.pending) "r" true task false fresh).1.log ≡ 1
unfolding run_task ◌>>=◌ catch from is_exception modify return throw request write_journal set_phase
    clear_capture clear_journal check_observer click_and_wait identify ready_to_send
    submission_failed submit_task run_found run_row run_status new_attempt run_attempt attempt_body
    prepare_attempt prepare_apps start_row enter prepare_benchmark ensure_session attempt_failed
    clean_up evaluate_capture evaluate_entry finish_attempt mark_submission_started
    persist_user_message_id record_attempt
whole_attempt = refl

whole_attempt_completes :
    has_completed (run_task (services never RowStatus.pending) "r" true task false fresh).1.log
    ≡ true
unfolding run_task ◌>>=◌ catch from is_exception modify return throw request write_journal set_phase
    clear_capture clear_journal check_observer click_and_wait identify ready_to_send
    submission_failed submit_task run_found run_row run_status new_attempt run_attempt attempt_body
    prepare_attempt prepare_apps start_row enter prepare_benchmark ensure_session attempt_failed
    clean_up evaluate_capture evaluate_entry finish_attempt mark_submission_started
    persist_user_message_id record_attempt
whole_attempt_completes = refl

-- a process that ends after the click, and the recovery of the next one
abbrev later : Restart
later = record { services = services never RowStatus.running; runner_id = "r"; tasks = task ∷ [] }

crashed :
    has_completed
      (run_task (services at_set_conversation RowStatus.pending) "r" true task false fresh).1.log
    ≡ false
unfolding run_task ◌>>=◌ catch from is_exception modify return throw request write_journal set_phase
    clear_capture clear_journal check_observer click_and_wait identify ready_to_send
    submission_failed submit_task run_found run_row run_status new_attempt run_attempt attempt_body
    prepare_attempt prepare_apps start_row enter prepare_benchmark ensure_session attempt_failed
    clean_up evaluate_capture evaluate_entry finish_attempt mark_submission_started
    persist_user_message_id record_attempt
crashed = refl

crashed_sent :
    clicks
      (run_task (services at_set_conversation RowStatus.pending) "r" true task false fresh).1.log
    ≡ 1
unfolding run_task ◌>>=◌ catch from is_exception modify return throw request write_journal set_phase
    clear_capture clear_journal check_observer click_and_wait identify ready_to_send
    submission_failed submit_task run_found run_row run_status new_attempt run_attempt attempt_body
    prepare_attempt prepare_apps start_row enter prepare_benchmark ensure_session attempt_failed
    clean_up evaluate_capture evaluate_entry finish_attempt mark_submission_started
    persist_user_message_id record_attempt
crashed_sent = refl

submitted_once_example :
    clicks
      (recover_all
        (later ∷ [])
        (run_task (services at_set_conversation RowStatus.pending) "r" true task false fresh).1).log
    ≤ 1
submitted_once_example =
    submitted_once (services at_set_conversation RowStatus.pending) "r" true task false (later ∷ [])
      fresh

journal_kept_example :
    Holds
      (run_task
        (services at_set_conversation RowStatus.pending)
        "r"
        true
        task
        false
        fresh).1.journal
journal_kept_example =
    journal_kept (services at_set_conversation RowStatus.pending) "r" true task false fresh
      (rw (crashed_sent) (omega arith)) crashed

abbrev sent_entry : SubmissionJournal
sent_entry = record {
  task_id = "a";
  runner_id = "r";
  attempt = 1;
  phase = submission_started;
  conversation_id = none;
  task_fingerprint = some "f";
  app_environments = null;
  resolved_app_names = null;
  user_message_id = some "u";
  retry_not_before = none;
  capture_sha256 = none;
  candidate = none;
  evaluator = none;
}

-- and the recovery from it completes the row
recovery_completes :
    has_completed
      (reconcile_journal
        (services never RowStatus.running)
        "r"
        (task ∷ [])
        (record fresh { journal = holds sent_entry })).1.log
    ≡ true
unfolding reconcile_journal reconcile_found reconcile_task find_task reconcile_entry check_entry
    task_of_row recovery_task reconcile_checked reconcile_row reconcile_status reconcile_open
    reconcile_other reconcile_submitted complete_recovery recover_candidate finish_recovery
    clear_all reset delete_conversation ◌>>=◌ catch from is_exception modify return throw request
    write_journal set_phase clear_capture clear_journal load_journal load evaluate_capture
recovery_completes = refl
