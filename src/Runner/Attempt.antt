-- ===== src/Runner/Attempt.antt =====
-- `_run_attempt`, `_evaluate_capture` and `run_task` of runner.py: a new attempt, from the journal's
-- phase `starting` to the cleanup, and the handler of its exceptions.
use gpt_trace_extractor_for.Base.{
  ℕ, ◌+◌, String, Option, none, some, Bool, true, false, not, ◌&&◌, ◌||◌, ◌==◌, nat_eq, string_eq,
  option_eq, if◌then◌else◌,
}
use gpt_trace_extractor_for.Exceptions.{
  Exn, recovery_incomplete, fatal_ui_state, storage_error, storage_conflict, other_exception, ok,
}
use gpt_trace_extractor_for.Exec.{Exec, return, throw, from, modify, ◌>>=◌, ◌>>◌, catch, when}
use gpt_trace_extractor_for.Json.{Value}
use gpt_trace_extractor_for.Journal.{
  Phase, starting, apps_prepared, benchmark_preparing, benchmark_ready, composer_dirty,
  submission_started, conversation_known, conversation_checkpointed, candidate_checkpointed,
  cleanup_pending, SubmissionJournal, CapturedConversation, capture_of,
}
use gpt_trace_extractor_for.Runner.{
  Task, StoredRun, RowStatus, SubmittedTurn, World, Services, request, write_journal, clear_journal,
  clear_capture, load_journal, set_phase, entry_of, storage_get, storage_start,
  storage_set_conversation, storage_complete, storage_fail, lifecycle_prepare,
  lifecycle_assert_resume, lifecycle_reset, lifecycle_runtime_metadata, hook_prepare, hook_capture,
  hook_evaluate, prepare_session, prepare_task, wait_for_completion, delete_completed_conversation,
}
use gpt_trace_extractor_for.Runner.Submit.{submit_task}

abbrev pub is_checkpointed : Phase → Bool
is_checkpointed conversation_checkpointed = true
is_checkpointed candidate_checkpointed = true
is_checkpointed starting = false
is_checkpointed _ = false

abbrev is_candidate : Phase → Bool
is_candidate candidate_checkpointed = true
is_candidate starting = false
is_candidate _ = false

-- `phase in {"starting", "apps_prepared", "composer_dirty"}`
abbrev pub is_early : Phase → Bool
is_early starting = true
is_early apps_prepared = true
is_early composer_dirty = true
is_early _ = false

abbrev pub is_starting : Phase → Bool
is_starting starting = true
is_starting apps_prepared = false
is_starting _ = false

-- `isinstance(exc, StorageConflict)`, `isinstance(exc, StorageError)`
abbrev is_storage_conflict : Exn → Bool
is_storage_conflict (storage_conflict m) = true
is_storage_conflict (storage_error m) = false
is_storage_conflict _ = false

abbrev is_storage_error : Exn → Bool
is_storage_error (storage_conflict m) = true
is_storage_error (storage_error m) = true
is_storage_error (recovery_incomplete m) = false
is_storage_error _ = false

abbrev is_none : Option StoredRun → Bool
is_none none = true
is_none (some row) = false

module _ (v : Services) (task : Task) where
  -- the checkpoint of the captured conversation, before the candidate is made
  unfoldable pub checkpoint_capture :
      CapturedConversation → SubmissionJournal → Exec World SubmissionJournal
  checkpoint_capture captured entry = if is_checkpointed entry.phase then return entry else (do
    modify (λ s. record s { capture = some (capture_of captured entry) })
    let written : SubmissionJournal = record entry {
      phase = conversation_checkpointed;
      conversation_id = some captured.conversation_id;
      capture_sha256 = some (v.digest (capture_of captured entry));
    }
    write_journal written
    return written)

  unfoldable pub checkpoint_candidate : SubmissionJournal → Exec World (Unit {0})
  checkpoint_candidate entry = if is_candidate entry.phase then return tt else (do
    candidate ← request hook_capture v.capture_candidate
    write_journal (record entry { phase = candidate_checkpointed; candidate = some candidate }))

  -- `_evaluate_capture` where the task has runtime hooks
  unfoldable pub evaluate_entry :
      CapturedConversation → ℕ → Option SubmissionJournal → Exec World (Option Value)
  evaluate_entry captured attempt none =
      throw (recovery_incomplete "missing candidate evaluation journal")
  evaluate_entry captured attempt (some entry) =
      if not (entry.task_id == task.task_id) || not (entry.attempt == attempt)
      then throw (recovery_incomplete "missing candidate evaluation journal")
      else (do
        written ← checkpoint_capture captured entry
        checkpoint_candidate written
        request hook_evaluate v.evaluate)

  unfoldable pub evaluate_capture : CapturedConversation → ℕ → Exec World (Option Value)
  evaluate_capture captured attempt =
      if not (v.has_runtime_hooks task.task_id)
      then (if v.has_evaluation task.task_id then request hook_evaluate v.evaluate else return none)
      else (do entry ← load_journal; evaluate_entry captured attempt entry)

-- `_ensure_session`
unfoldable pub ensure_session : Services → Exec World (Unit {0})
ensure_session v = do
  prepared ← from (λ s. ok s.session_prepared)
  when (not prepared) (
      request prepare_session (v.done prepare_session)
      >> modify (λ s. record s { session_prepared = true }))

-- what an attempt is called with: `started` and `resume_entry` of a resumed one are optional
pub record Attempt : Type 0 where
  pub runner_id : String
  pub fingerprint : String
  pub environments : Value
  pub number : ℕ
  pub resumed : Option SubmissionJournal

-- `identity`, `phase`
abbrev pub identity : Attempt → String
identity a = elim a.resumed [ none ↦ a.runner_id | some entry ↦ entry.runner_id ]

abbrev pub first_phase : Attempt → Phase
first_phase a = elim a.resumed [ none ↦ starting | some entry ↦ entry.phase ]

module _ (v : Services) (task : Task) (a : Attempt) where
  abbrev pub entry_at : Phase → Option String → Option String → SubmissionJournal
  entry_at phase conversation_id user_message_id =
      entry_of v task (identity a) a.number phase a.fingerprint a.environments conversation_id
        user_message_id

  -- the journal enters a phase, and the local with it
  unfoldable pub enter : Phase → Option String → Option String → Exec World (Unit {0})
  enter phase conversation_id user_message_id =
      set_phase phase >> write_journal (entry_at phase conversation_id user_message_id)

  unfoldable pub start_row : Exec World (Unit {0})
  start_row = do
    row ← request storage_start v.start
    modify (λ s. record s { started = some row })
    when (not (row.attempt == a.number) || not (row.runner_id == some (identity a)))
        (throw (storage_error "storage /start returned unexpected attempt identity"))

  -- the apps of a new attempt are prepared, those of one that has them are checked
  unfoldable pub prepare_apps : Option SubmissionJournal → Exec World (Unit {0})
  prepare_apps none = start_row >> request lifecycle_prepare (v.done lifecycle_prepare)
  prepare_apps (some entry) =
      if is_starting entry.phase
      then request lifecycle_prepare (v.done lifecycle_prepare)
      else request lifecycle_assert_resume (v.done lifecycle_assert_resume)

  unfoldable pub prepare_benchmark : Exec World (Unit {0})
  prepare_benchmark = when (v.has_runtime_hooks task.task_id) (do
    enter benchmark_preparing none none
    request hook_prepare (v.done hook_prepare)
    enter benchmark_ready none none)

  -- the attempt up to the composed message
  unfoldable pub prepare_attempt : Exec World (Unit {0})
  prepare_attempt = do
    prepare_apps a.resumed
    enter apps_prepared none none
    prepare_benchmark
    ensure_session v
    request prepare_task (v.done prepare_task)
    fingerprint ← from (λ s. ok (v.task_fingerprint s task))
    when (not (fingerprint == a.fingerprint))
        (throw (fatal_ui_state "benchmark task files or App contracts changed"))
    enter composer_dirty none none

  -- `mark_submission_started`, `persist_user_message_id`
  unfoldable pub mark_submission_started : Exec World (Unit {0})
  mark_submission_started = enter submission_started none none

  unfoldable pub persist_user_message_id : String → Exec World (Unit {0})
  persist_user_message_id id = write_journal (entry_at submission_started none (some id))

  -- from the known conversation to the evaluation
  unfoldable pub record_attempt : SubmittedTurn → Exec World (Option Value)
  record_attempt submitted = do
    enter conversation_known (some submitted.conversation_id) (some submitted.user_message_id)
    request storage_set_conversation (v.done storage_set_conversation)
    captured ← request wait_for_completion v.conversation
    app_runtime ← request lifecycle_runtime_metadata v.runtime_metadata
    evaluate_capture v task (v.enrich captured app_runtime) a.number

  unfoldable pub clean_up : SubmittedTurn → Exec World (Unit {0})
  clean_up submitted = do
    enter cleanup_pending (some submitted.conversation_id) (some submitted.user_message_id)
    request delete_completed_conversation (v.done delete_completed_conversation)
    request lifecycle_reset (v.done lifecycle_reset)
    clear_journal
    clear_capture

  unfoldable pub finish_attempt : SubmittedTurn → Exec World (Unit {0})
  finish_attempt submitted = do
    evaluation ← record_attempt submitted
    request storage_complete (v.done storage_complete)
    clean_up submitted

  -- `except Exception`
  unfoldable pub attempt_failed : Exn → Exec World (Unit {0})
  attempt_failed e = do
    phase ← from (λ s. ok s.phase)
    started ← from (λ s. ok s.started)
    if is_starting phase && (is_none started && is_storage_conflict e)
        then clear_journal
        else when
            (not (v.has_runtime_hooks task.task_id)
              && (is_early phase && (not (is_none started) && not (is_storage_error e))))
            (do
              request lifecycle_reset (v.done lifecycle_reset)
              request storage_fail (v.done storage_fail)
              clear_journal)
    throw e

  unfoldable pub attempt_body : Exec World (Unit {0})
  attempt_body = do
    prepare_attempt
    submitted ← submit_task v mark_submission_started persist_user_message_id
    finish_attempt submitted

  -- `_run_attempt`; `started` is the row of a resumed attempt
  unfoldable pub run_attempt : Option StoredRun → Exec World (Unit {0})
  run_attempt started =
      modify (λ s. record s { phase = first_phase a; started = started })
      >> catch attempt_body attempt_failed

-- the truth of a text that may be missing
abbrev pub has_text : Option String → Bool
has_text none = false
has_text (some s) = not (s == "")

module _ (v : Services) (runner_id : String) (recover_existing : Bool) where
  -- `_recover_existing` of a row that is running: there is no journal to prove what was sent
  abbrev recover_running : StoredRun → Exec World (Unit {0})
  recover_running row =
      if not (has_text row.conversation_id)
      then throw (recovery_incomplete "running without conversation_id or recoverable journal")
      else if not recover_existing
      then throw (recovery_incomplete "existing conversation recovery is disabled")
      else throw (recovery_incomplete "running with conversation_id but no submission journal")

  unfoldable pub new_attempt : Task → String → ℕ → Exec World (Unit {0})
  new_attempt task fingerprint number =
      let a : Attempt = record {
        runner_id = runner_id;
        fingerprint = fingerprint;
        environments = v.environment_ids task number fingerprint;
        number = number;
        resumed = none;
      } in
      write_journal (entry_at v task a starting none none) >> run_attempt v task a none

  unfoldable pub run_status : Task → Bool → String → StoredRun → RowStatus → Exec World (Unit {0})
  run_status task resume fingerprint row RowStatus.completed =
      if resume
      then when (has_text row.conversation_id)
          (request delete_completed_conversation (v.done delete_completed_conversation))
      else throw (other_exception "RuntimeError")
  run_status task resume fingerprint row RowStatus.running =
      if not resume
      then throw (recovery_incomplete "already running; resume the active Superbench run")
      else recover_running row
  run_status task resume fingerprint row RowStatus.failed =
      if not resume
      then throw (other_exception "RuntimeError")
      else new_attempt task fingerprint (row.attempt + 1)
  run_status task resume fingerprint row RowStatus.pending =
      new_attempt task fingerprint (row.attempt + 1)

  unfoldable pub run_row : Task → Bool → String → StoredRun → Exec World (Unit {0})
  run_row task resume fingerprint row =
      if row.task_fingerprint == none
      then throw (storage_error "storage row has no task_fingerprint")
      else if not (row.task_fingerprint == some fingerprint)
      then throw (storage_error "benchmark specification changed since the stored attempt")
      else run_status task resume fingerprint row row.status

  unfoldable pub run_found : Task → Bool → String → Option StoredRun → Exec World (Unit {0})
  run_found task resume fingerprint none = new_attempt task fingerprint 1
  run_found task resume fingerprint (some row) = run_row task resume fingerprint row

  -- `run_task`
  unfoldable pub run_task : Task → Bool → Exec World (Unit {0})
  run_task task resume = do
    fingerprint ← from (λ s. ok (v.task_fingerprint s task))
    row ← request storage_get v.get
    run_found task resume fingerprint row
