-- ===== src/Runner/Recovery.antt =====
-- `reconcile_journal`, `_complete_recovery` and `abandon_recovery` of runner.py: what a new process
-- does with the journal that another one left.
use gpt_trace_extractor_for.Base.{
  ℕ, String, Option, none, some, Bool, true, false, not, ◌&&◌, List, [], ◌∷◌, ◌==◌, nat_eq,
  string_eq, option_eq, if◌then◌else◌,
}
use gpt_trace_extractor_for.Exceptions.{recovery_incomplete, other_exception, Outcome, ok, raised}
use gpt_trace_extractor_for.Exec.{Exec, return, throw, from, ◌>>=◌, ◌>>◌, when}
use gpt_trace_extractor_for.Json.{Value}
use gpt_trace_extractor_for.Journal.{
  Phase, starting, apps_prepared, benchmark_preparing, benchmark_ready, composer_dirty,
  submission_started, conversation_known, cleanup_pending, SubmissionJournal, CapturedConversation,
  load_capture,
}
use gpt_trace_extractor_for.Runner.{
  Task, StoredRun, RowStatus, World, Services, request, write_journal, clear_journal, clear_capture,
  load_journal, entry_of, storage_get, storage_set_conversation, storage_complete, storage_fail,
  lifecycle_assert_resume, lifecycle_reset, lifecycle_abandon, lifecycle_runtime_metadata, recover,
  recover_current_candidate, delete_completed_conversation,
}
use gpt_trace_extractor_for.Runner.Attempt.{
  run_attempt, evaluate_capture, is_early, is_checkpointed, has_text,
}

-- `a or b` for ids
abbrev pub or_id : Option String → Option String → Option String
or_id a b = if has_text a then a else b

abbrev is_running : RowStatus → Bool
is_running RowStatus.running = true
is_running RowStatus.pending = false
is_running _ = false

-- the row is the running attempt of the journal
abbrev is_matching : SubmissionJournal → StoredRun → Bool
is_matching entry row =
    is_running row.status && (row.attempt == entry.attempt && row.runner_id == some entry.runner_id)

abbrev pub matches_entry : SubmissionJournal → Option StoredRun → Bool
matches_entry entry none = false
matches_entry entry (some row) = is_matching entry row

-- the phases before the click that a benchmark with hooks resumes from
abbrev pub is_preparing : Phase → Bool
is_preparing starting = true
is_preparing apps_prepared = true
is_preparing benchmark_preparing = true
is_preparing benchmark_ready = true
is_preparing composer_dirty = true
is_preparing _ = false

abbrev pub is_submission_started : Phase → Bool
is_submission_started submission_started = true
is_submission_started starting = false
is_submission_started _ = false

-- `{item.task_id: item for item in tasks}.get(task_id)`
unfoldable pub find_task : List Task → String → Option Task
find_task [] id = none
find_task (task ∷ tasks) id = elim (find_task tasks id) [
  | some later ↦ some later
  | none ↦ if task.task_id == id then some task else none
]

abbrev pub with_message_id :
    Option String → (String → Exec World (Unit {0})) → Exec World (Unit {0})
with_message_id none next =
    throw (recovery_incomplete "submission journal has no persisted user_message_id proof")
with_message_id (some id) next =
    if id == ""
    then throw (recovery_incomplete "submission journal has no persisted user_message_id proof")
    else next id

-- `self.journal.write(replace(self.journal.load(), phase="cleanup_pending"))`
abbrev pub pend_cleanup : Option SubmissionJournal → Exec World (Unit {0})
pend_cleanup none = throw (other_exception "TypeError")
pend_cleanup (some entry) = write_journal (record entry { phase = cleanup_pending })

module _ (v : Services) where
  -- `_recovery_task`
  unfoldable pub recovery_task : Task → StoredRun → Outcome Task
  recovery_task task row = if not task.has_tools then ok task else elim row.app_provenance [
    | none ↦ raised (recovery_incomplete "running task has no stored App provenance")
    | some provenance ↦ elim (v.task_with_stored_ui_names task provenance) [
      | none ↦ raised (recovery_incomplete "stored App provenance does not match")
      | some recovered ↦ ok recovered
    ]
  ]

  unfoldable pub task_of_row : Task → Option StoredRun → Outcome Task
  unfolding recovery_task
  task_of_row task none = ok task
  task_of_row task (some row) = recovery_task task row

  -- the cleanup of an attempt whose row is final
  unfoldable pub clear_all : Exec World (Unit {0})
  clear_all = clear_journal >> clear_capture

  unfoldable pub reset : Exec World (Unit {0})
  reset = request lifecycle_reset (v.done lifecycle_reset)

  -- `lifecycle.abandon` for a template, `lifecycle.reset` else
  unfoldable pub reset_or_abandon : Task → Exec World (Unit {0})
  reset_or_abandon task =
      if task.has_template then request lifecycle_abandon (v.done lifecycle_abandon) else reset

  unfoldable pub delete_conversation : Exec World (Unit {0})
  delete_conversation = request delete_completed_conversation (v.done delete_completed_conversation)

  module _ (runner_id : String) (task recovery : Task) (fingerprint : String)
      (environments : Value) where
    -- the end of each recovery, from the captured conversation on
    unfoldable pub finish_recovery :
        String → ℕ → String → CapturedConversation → String → Exec World (Unit {0})
    finish_recovery identity attempt conversation_id captured user_message_id = do
      evaluation ← evaluate_capture v task captured attempt
      request storage_complete (v.done storage_complete)
      write_journal (
          entry_of v recovery identity attempt cleanup_pending fingerprint environments
            (some conversation_id) (some user_message_id))
      delete_conversation
      reset
      clear_all

    -- `_complete_recovery`
    unfoldable pub complete_recovery : StoredRun → String → Exec World (Unit {0})
    complete_recovery row user_message_id = do
      from (λ s. recovery_task task row)
      request lifecycle_assert_resume (v.done lifecycle_assert_resume)
      captured ← request recover v.conversation
      app_runtime ← request lifecycle_runtime_metadata v.runtime_metadata
      request storage_set_conversation (v.done storage_set_conversation)
      finish_recovery
          (elim row.runner_id [ none ↦ runner_id | some r ↦ if r == "" then runner_id else r ])
          row.attempt captured.conversation_id (v.enrich captured app_runtime) user_message_id

    -- a click is known, and no conversation
    unfoldable pub recover_candidate : SubmissionJournal → String → Exec World (Unit {0})
    recover_candidate entry user_message_id = do
      request lifecycle_assert_resume (v.done lifecycle_assert_resume)
      captured ← request recover_current_candidate v.conversation
      write_journal (
          entry_of v recovery entry.runner_id entry.attempt conversation_known fingerprint
            environments (some captured.conversation_id) (some user_message_id))
      request storage_set_conversation (v.done storage_set_conversation)
      app_runtime ← request lifecycle_runtime_metadata v.runtime_metadata
      finish_recovery entry.runner_id entry.attempt captured.conversation_id
          (v.enrich captured app_runtime) user_message_id

    -- the phases behind the click
    unfoldable pub reconcile_submitted :
        SubmissionJournal → Option StoredRun → Exec World (Unit {0})
    reconcile_submitted entry none =
        throw (recovery_incomplete "submission journal has no matching running storage row")
    reconcile_submitted entry (some row) =
        if not (is_running row.status)
        then throw (recovery_incomplete "submission journal has no matching running storage row")
        else if not (is_matching entry row)
        then throw (recovery_incomplete "submission journal attempt/runner does not match storage")
        else if has_text (or_id entry.conversation_id row.conversation_id)
        then with_message_id entry.user_message_id (complete_recovery row)
        else if not (is_submission_started entry.phase)
        then throw (recovery_incomplete "conversation_known journal has no conversation_id")
        else with_message_id entry.user_message_id (recover_candidate entry)

    unfoldable pub finish_checkpoint :
        SubmissionJournal → CapturedConversation → Exec World (Unit {0})
    finish_checkpoint entry captured = do
      request lifecycle_assert_resume (v.done lifecycle_assert_resume)
      evaluation ← evaluate_capture v recovery captured entry.attempt
      request storage_complete (v.done storage_complete)
      now ← load_journal
      pend_cleanup now
      delete_conversation
      reset
      clear_all

    -- the phases of a durable evaluation
    unfoldable pub reconcile_checkpoint :
        SubmissionJournal → Option StoredRun → Exec World (Unit {0})
    reconcile_checkpoint entry row =
        if not (v.has_runtime_hooks task.task_id)
        then throw (recovery_incomplete "durable evaluation checkpoint has no runtime hooks")
        else if not (matches_entry entry row)
        then throw (recovery_incomplete "evaluation checkpoint has no matching running attempt")
        else (do
          captured ← from (λ s. load_capture v.digest s.capture entry)
          finish_checkpoint entry captured)

    -- nothing was sent: the attempt is failed, and the journal dropped
    unfoldable pub drop_early : SubmissionJournal → Option StoredRun → Exec World (Unit {0})
    drop_early entry none = clear_journal
    drop_early entry (some row) =
        if is_matching entry row && not (has_text row.conversation_id)
        then request storage_fail (v.done storage_fail) >> clear_journal
        else throw (recovery_incomplete "journal/storage state mismatch before submission")

    unfoldable pub resume_attempt : SubmissionJournal → Option StoredRun → Exec World (Unit {0})
    resume_attempt entry row =
        if not (matches_entry entry row)
        then throw
            (recovery_incomplete "runtime preparation checkpoint has no matching running attempt")
        else run_attempt v recovery
            (record {
              runner_id = runner_id;
              fingerprint = fingerprint;
              environments = environments;
              number = entry.attempt;
              resumed = some entry;
            })
            row

    -- a row that is not final, and a phase that no attempt is resumed from
    unfoldable pub reconcile_other : SubmissionJournal → Option StoredRun → Exec World (Unit {0})
    reconcile_other entry row =
        if is_checkpointed entry.phase
        then reconcile_checkpoint entry row
        else if is_early entry.phase
        then reset >> drop_early entry row
        else reconcile_submitted entry row

    unfoldable pub reconcile_open : SubmissionJournal → Option StoredRun → Exec World (Unit {0})
    reconcile_open entry row =
        if v.has_runtime_hooks task.task_id && is_preparing entry.phase
        then resume_attempt entry row
        else reconcile_other entry row

    unfoldable pub reconcile_status :
        SubmissionJournal → StoredRun → RowStatus → Exec World (Unit {0})
    reconcile_status entry row RowStatus.completed =
        when (has_text (or_id entry.conversation_id row.conversation_id)) delete_conversation
        >> reset
        >> clear_all
    reconcile_status entry row RowStatus.failed =
        if row.attempt == entry.attempt && row.runner_id == some entry.runner_id
        then reset_or_abandon task >> clear_all
        else reconcile_open entry (some row)
    reconcile_status entry row _ = reconcile_open entry (some row)

    unfoldable pub reconcile_row : SubmissionJournal → Option StoredRun → Exec World (Unit {0})
    reconcile_row entry none = reconcile_open entry none
    reconcile_row entry (some row) = reconcile_status entry row row.status

  -- the fingerprint of a row is that of the task
  abbrev same_fingerprint : Option StoredRun → String → Bool
  same_fingerprint none fingerprint = true
  same_fingerprint (some row) fingerprint = row.task_fingerprint == some fingerprint

  -- the checks of the journal: the fingerprint of the task, the row, and the task to recover
  unfoldable pub check_entry :
      Task → SubmissionJournal → Exec World (String × Option StoredRun × Task)
  check_entry task entry = do
    fingerprint ← from (λ s. ok (v.task_fingerprint s task))
    when (not (entry.task_fingerprint == some fingerprint))
        (throw (recovery_incomplete "submission journal task fingerprint does not match"))
    when (not (v.same entry.app_environments (v.environment_ids task entry.attempt fingerprint)))
        (throw (recovery_incomplete "submission journal App environments do not match"))
    row ← request storage_get v.get
    when (not (same_fingerprint row fingerprint))
        (throw (recovery_incomplete "storage task fingerprint does not match"))
    recovery ← from (λ s. task_of_row task row)
    when (not (v.same entry.resolved_app_names (v.names recovery)))
        (throw (recovery_incomplete "submission journal UI App resolution does not match"))
    return (fingerprint, row, recovery)

  unfoldable pub reconcile_checked :
      String → Task → SubmissionJournal → String × Option StoredRun × Task → Exec World (Unit {0})
  reconcile_checked runner_id task entry (fingerprint, row, recovery) =
      reconcile_row runner_id task recovery fingerprint
        (v.environment_ids task entry.attempt fingerprint) entry row

  unfoldable pub reconcile_entry : String → Task → SubmissionJournal → Exec World (Unit {0})
  reconcile_entry runner_id task entry =
      check_entry task entry >>= reconcile_checked runner_id task entry

  unfoldable pub reconcile_task : String → Option Task → SubmissionJournal → Exec World (Unit {0})
  reconcile_task runner_id none entry =
      throw (recovery_incomplete "pending submission journal references an unknown task")
  reconcile_task runner_id (some task) entry = reconcile_entry runner_id task entry

  unfoldable pub reconcile_found :
      String → List Task → Option SubmissionJournal → Exec World (Unit {0})
  reconcile_found runner_id tasks none = return tt
  reconcile_found runner_id tasks (some entry) =
      reconcile_task runner_id (find_task tasks entry.task_id) entry

  -- `reconcile_journal`
  unfoldable pub reconcile_journal : String → List Task → Exec World (Unit {0})
  reconcile_journal runner_id tasks = do entry ← load_journal; reconcile_found runner_id tasks entry

  -- `abandon_recovery` of a journal that was found, with the row that storage has
  unfoldable pub abandon_row :
      Task → SubmissionJournal → String → Option StoredRun → Exec World (Unit {0})
  abandon_row task entry fingerprint none =
      throw (recovery_incomplete "pending recovery has no matching storage row")
  abandon_row task entry fingerprint (some row) =
      if not (row.task_fingerprint == some fingerprint)
      then throw (recovery_incomplete "stored recovery fingerprint does not match")
      else if not (is_matching entry row)
      then throw (recovery_incomplete "pending recovery does not match storage")
      else (do request storage_fail (v.done storage_fail); reset_or_abandon task; clear_all)

  unfoldable pub abandon_entry : Task → Option SubmissionJournal → Exec World (Unit {0})
  abandon_entry task none = throw (recovery_incomplete "no pending recovery journal")
  abandon_entry task (some entry) = do
    when (not (entry.task_id == task.task_id))
        (throw (recovery_incomplete "pending recovery belongs to another task"))
    fingerprint ← from (λ s. ok (v.task_fingerprint s task))
    when (not (entry.task_fingerprint == some fingerprint))
        (throw (recovery_incomplete "pending recovery fingerprint does not match"))
    when (not (v.same entry.app_environments (v.environment_ids task entry.attempt fingerprint)))
        (throw (recovery_incomplete "pending recovery App environments do not match"))
    row ← request storage_get v.get
    abandon_row task entry fingerprint row

  unfoldable pub abandon_recovery : Task → Exec World (Unit {0})
  abandon_recovery task = load_journal >>= abandon_entry task
