-- ===== src/Batch/Loop.antt =====
-- `run_pending` and `_recover_pending_journal`: the recovery, the loop over the selection, and the end.
use gpt_trace_extractor_for.Base.{
  ℕ, String, Option, none, some, Bool, true, false, not, ◌&&◌, ◌||◌, List, [], ◌∷◌, contains, ltb,
  ◌==◌, string_eq, option_eq, if◌then◌else◌,
}
use gpt_trace_extractor_for.Exceptions.{Exn, RateLimit, recovery_incomplete, other_exception, ok}
use gpt_trace_extractor_for.Exec.{
  Exec, return, throw, from, modify, catch_all, finally, when, ◌>>=◌, ◌>>◌,
}
use gpt_trace_extractor_for.Journal.{SubmissionJournal, raise_if_recovery_deferred}
use gpt_trace_extractor_for.Runner.{RowStatus}
use gpt_trace_extractor_for.Runner.Attempt.{is_checkpointed}
use gpt_trace_extractor_for.RunControl.{ActiveRun, is_pause_requested}
use gpt_trace_extractor_for.RunControl.Store.{
  load_file, requests_pause, pauses_if_requested, confirms_running, starts_task,
}
use gpt_trace_extractor_for.Batch.{
  Entry, Row, Batch, Services, Options, request, get_row, materialize_task, load_journal, control,
  load_active, is_some, health, acquire_lock, disconnect, close_storage, make_lifecycle,
  close_lifecycle, recover, reconcile,
}
use gpt_trace_extractor_for.Batch.Task.{
  Flow, next, stop, is_stop, cleanup_task, get_chatgpt, persist_defer, rate_limit_of, is_cancelled,
  finish, stop_if_requested, probe_pause, execute_task, run_task,
}

-- `by_id.get`: the last entry of an id
unfoldable pub entry_by_id : List Entry → String → Option Entry
entry_by_id [] id = none
entry_by_id (e ∷ entries) id = elim (entry_by_id entries id) [
  | some later ↦ some later
  | none ↦ if e.run_task_id == id then some e else none
]

-- the first entry of an id
unfoldable pub first_entry : List Entry → String → Option Entry
first_entry [] id = none
first_entry (e ∷ entries) id = if e.run_task_id == id then some e else first_entry entries id

abbrev pub cons_entry : Option Entry → Option (List Entry) → Option (List Entry)
cons_entry none rest = none
cons_entry (some e) none = none
cons_entry (some e) (some rest) = some (e ∷ rest)

-- the entries of a frozen selection, in its order, where none is missing
unfoldable pub select_entries : List Entry → List String → Option (List Entry)
select_entries entries [] = some []
select_entries entries (id ∷ ids) = cons_entry (entry_by_id entries id) (select_entries entries ids)

-- `limit is not None and attempted >= limit`
unfoldable pub is_full : Option ℕ → ℕ → Bool
is_full none attempted = false
is_full (some limit) attempted = not (ltb attempted limit)

-- the pending journal is not within the frozen selection
abbrev pub is_outside : Option SubmissionJournal → Option (List String) → Bool
is_outside none selected = false
is_outside (some pending) none = false
is_outside (some pending) (some ids) = not (contains ids pending.task_id)

module _ (v : Services) (o : Options) where
  -- a completed row is skipped if its contract is that of the catalog
  unfoldable pub skip_completed : Entry → Option String → Exec Batch Flow
  skip_completed e none =
      throw (recovery_incomplete "completed Superbench row predates task-contract fingerprints")
  skip_completed e (some stored) =
      if not (stored == e.task_contract_fingerprint)
      then throw (recovery_incomplete "completed Superbench task contract changed")
      else finish v o e.run_task_id >> return next

  -- the task is run, in this process or by the executor
  unfoldable pub perform : Entry → Exec Batch Flow
  perform e = do
    task_id ← materialize_task v e.run_task_id
    if not (task_id == e.run_task_id)
        then throw (other_exception "RuntimeError")
        else if o.has_executor
        then execute_task v o e.run_task_id
        else run_task v o e.run_task_id

  unfoldable pub consider_row : Entry → RowStatus → Option String → Exec Batch Flow
  consider_row e RowStatus.completed stored = skip_completed e stored
  consider_row e RowStatus.running stored =
      throw (recovery_incomplete "running Superbench attempt has no recovery journal")
  consider_row e RowStatus.failed stored = perform e
  consider_row e RowStatus.pending stored = throw (other_exception "RuntimeError")

  unfoldable pub consider : Entry → Option Row → Exec Batch Flow
  consider e none = perform e
  consider e (some row) = consider_row e row.status row.task_contract_fingerprint

  unfoldable pub look_up : Entry → Exec Batch Flow
  look_up e = get_row v e.run_task_id >>= consider e

  -- a task that the control file has as finished is passed over, and another is its current one
  unfoldable pub schedule : Entry → Exec Batch Flow
  schedule e = if not o.has_control then look_up e else (do
    active ← load_active
    if contains active.completed_run_task_ids e.run_task_id then return next else (do
      control (starts_task e.run_task_id)
      flow ← stop_if_requested v o
      if is_stop flow then return stop else look_up e))

  -- one turn of the loop
  unfoldable pub visit : Option ℕ → Entry → Exec Batch Flow
  visit limit e = do
    probe_pause v o
    flow ← stop_if_requested v o
    attempted ← from (λ s. ok s.attempted)
    if is_stop flow || is_full limit attempted then return stop else schedule e

  unfoldable pub visit_all : Option ℕ → List Entry → Exec Batch (Unit {0})
  visit_all limit [] = return tt
  visit_all limit (e ∷ entries) =
      visit limit e >>= λ flow. if is_stop flow then return tt else visit_all limit entries

  -- `_recover_pending_journal` behind its `try`
  unfoldable pub end_recovery : String → Exec Batch (Unit {0})
  end_recovery id = do
    pending ← load_journal
    when (not (is_some pending)) (cleanup_task v o id)
    request v close_lifecycle

  -- `except RateLimited`
  unfoldable pub defer_limited : Exn → Option RateLimit → Exec Batch (Unit {0})
  defer_limited e none = throw e
  defer_limited e (some limit) = do
    pending ← load_journal
    persist_defer v o pending (some limit)
    throw e

  unfoldable pub defer_recovery : Exn → Exec Batch (Unit {0})
  defer_recovery e = defer_limited e (rate_limit_of e)

  -- `reconcile_journal`: with a checkpoint, `DeferredCleanupChatGPT` connects where the runner
  -- first uses it, within the reconciliation
  unfoldable pub reconcile_run : String → SubmissionJournal → Exec Batch (Unit {0})
  reconcile_run id pending = do
    deferred ← from (λ s. ok (v.connects_deferred s))
    when (is_checkpointed pending.phase && deferred) (get_chatgpt v o)
    request v (reconcile id)

  -- an exception of the reconciliation, that of a deferred connection included, is the
  -- `recovery_error`
  unfoldable pub reconcile_pending : String → SubmissionJournal → Exec Batch (Unit {0})
  reconcile_pending id pending = do
    when (not (is_checkpointed pending.phase)) (get_chatgpt v o)
    catch_all (reconcile_run id pending) (λ e. modify (λ s. record s { failed = true }) >> throw e)

  unfoldable pub recover_entry : SubmissionJournal → Option Entry → Exec Batch (Unit {0})
  recover_entry pending none =
      throw (recovery_incomplete "pending Superbench recovery is not in the selection")
  recover_entry pending (some e) = do
    id ← materialize_task v e.run_task_id
    request v (recover e.run_task_id)
    request v make_lifecycle
    modify (λ s. record s { failed = false })
    finally (catch_all (reconcile_pending id pending) defer_recovery) (end_recovery id)

  unfoldable pub recover_pending : List Entry → Option SubmissionJournal → Exec Batch (Unit {0})
  recover_pending entries none = return tt
  recover_pending entries (some pending) = do
    from (λ s. raise_if_recovery_deferred (v.time s) pending)
    recover_entry pending (first_entry entries pending.task_id)

  unfoldable pub recover_pending_journal : List Entry → Exec Batch (Unit {0})
  recover_pending_journal entries = load_journal >>= recover_pending entries

  -- `if executor is None`
  unfoldable pub recover_first : List Entry → Exec Batch (Unit {0})
  recover_first entries = do
    pending ← load_journal
    if is_outside pending o.selected_run_task_ids
        then throw
            (recovery_incomplete "pending journal task is outside frozen active-run selection")
        else recover_pending_journal entries
    when (is_some pending) (modify (λ s. record s { last_completed_task_at = some (v.time s) }))

  unfoldable pub confirm_running : Exec Batch Flow
  confirm_running =
      if o.has_control
      then (do
        active ← control confirms_running
        if is_pause_requested active.status
            then control pauses_if_requested >> return stop
            else return next)
      else return next

  -- behind the lock
  unfoldable pub run_locked : List Entry → Option ℕ → List Entry → Exec Batch (Unit {0})
  run_locked entries limit selected = do
    asked ← from (λ s. ok (v.pause_probe s))
    if o.has_control && asked
        then control requests_pause >> control pauses_if_requested >> return tt
        else (do
          when (not o.has_executor) (recover_first entries)
          flow ← confirm_running
          if is_stop flow then return tt else visit_all limit selected)

  -- `except asyncio.CancelledError`
  unfoldable pub pause_cancelled : Exn → Option ActiveRun → Exec Batch (Unit {0})
  pause_cancelled e none = throw e
  pause_cancelled e (some state) =
      if is_pause_requested state.status then control pauses_if_requested >> return tt else throw e

  unfoldable pub batch_failed : Exn → Exec Batch (Unit {0})
  batch_failed e =
      if is_cancelled e && o.has_control
      then from (λ s. load_file s.control) >>= pause_cancelled e
      else throw e

  unfoldable pub end_batch : Exec Batch (Unit {0})
  end_batch = do
    connected ← from (λ s. ok s.connected)
    when connected (request v disconnect)
    when o.owned_storage (request v close_storage)

  unfoldable pub run_selected : List Entry → Option ℕ → List Entry → Exec Batch ℕ
  run_selected entries limit selected = do
    modify (λ s. record s { attempted = 0; last_completed_task_at = none; connected = false })
    finally
        (catch_all
          (request v health
            >> when (not o.runner_lock_held) (request v acquire_lock)
            >> run_locked entries limit selected)
          batch_failed)
        end_batch
    from (λ s. ok s.attempted)

  unfoldable pub run_selection : List Entry → Option (List Entry) → Exec Batch ℕ
  run_selection entries none = throw (recovery_incomplete "frozen selection missing from catalog")
  run_selection entries (some selected) = run_selected entries none selected

  unfoldable pub run_catalog : List Entry → Option (List String) → Exec Batch ℕ
  run_catalog entries none = run_selected entries o.limit entries
  run_catalog entries (some ids) = run_selection entries (select_entries entries ids)

  -- `run_pending`, with the number of attempts that it returns
  unfoldable pub run_pending : List Entry → Exec Batch ℕ
  run_pending entries = run_catalog entries o.selected_run_task_ids
