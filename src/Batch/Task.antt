-- ===== src/Batch/Task.antt =====
-- The body of `run_pending` for one task that is to be run: the attempt, its handlers and its cleanup.
use gpt_trace_extractor_for.Base.{
  ℕ, ◌+◌, ◌-◌, String, Option, none, some, Bool, true, false, not, ◌&&◌, ◌||◌, ltb, string_eq,
  if◌then◌else◌,
}
use gpt_trace_extractor_for.Exceptions.{
  Exn, RateLimit, rate_limited, recovery_incomplete, keyboard_interrupt, cancelled_error,
  other_exception, is_batch_circuit_breaker, ok,
}
use gpt_trace_extractor_for.Exec.{
  Exec, return, throw, from, modify, catch, catch_all, finally, when, ◌>>=◌, ◌>>◌,
}
use gpt_trace_extractor_for.Journal.{SubmissionJournal, persist_rate_limit_defer}
use gpt_trace_extractor_for.RunControl.{is_pause_requested}
use gpt_trace_extractor_for.RunControl.Store.{requests_pause, pauses_if_requested, finishes_task}
use gpt_trace_extractor_for.Batch.{
  Row, Batch, Services, Options, request, get_row, load_journal, control, load_active,
  is_completed_row, is_running_row, is_pending_for, is_some, connect, sleep, make_lifecycle,
  close_lifecycle, prepare, run, execute, reconcile, cleanup, start, fail,
}

-- behind `continue`, or behind `break` and `return`
pub data Flow : Type 0 where
  next stop : Flow

abbrev pub is_stop : Flow → Bool
is_stop stop = true
is_stop next = false

abbrev pub is_cancelled : Exn → Bool
is_cancelled cancelled_error = true
is_cancelled keyboard_interrupt = false
is_cancelled _ = false

-- `isinstance(exc, (KeyboardInterrupt, BatchCircuitBreaker))`
abbrev pub ends_batch : Exn → Bool
ends_batch keyboard_interrupt = true
ends_batch (other_exception m) = false
ends_batch e = is_batch_circuit_breaker e

abbrev pub rate_limit_of : Exn → Option RateLimit
rate_limit_of (rate_limited m limit) = some limit
rate_limit_of (other_exception m) = none
rate_limit_of _ = none

module _ (v : Services) (o : Options) where
  -- `_cleanup_task`
  unfoldable pub cleanup_task : String → Exec Batch (Unit {0})
  cleanup_task id = catch (request v (cleanup id)) (λ e. do
    failed ← from (λ s. ok s.failed)
    if is_batch_circuit_breaker e then throw e else if failed then return tt else throw e)

  -- `get_chatgpt`
  unfoldable pub get_chatgpt : Exec Batch (Unit {0})
  get_chatgpt = do
    connected ← from (λ s. ok s.connected)
    when (not connected) (request v connect >> modify (λ s. record s { connected = true }))

  -- `_persist_rate_limit_defer` where the exception is a rate limit
  unfoldable pub persist_defer : Option SubmissionJournal → Option RateLimit → Exec Batch (Unit {0})
  persist_defer pending none = return tt
  persist_defer pending (some limit) =
      modify
        (λ s. record s { journal = persist_rate_limit_defer (v.time s) limit pending s.journal })

  unfoldable pub require_recovery : Bool → Exec Batch (Unit {0})
  require_recovery b = modify (λ s. record s { recovery_required = b })

  -- `control_store.finish_task`, where there is a control store
  unfoldable pub finish : String → Exec Batch (Unit {0})
  finish id = when o.has_control (control (finishes_task id) >> return tt)

  -- a pause that is asked for is made
  unfoldable pub stop_if_requested : Exec Batch Flow
  stop_if_requested =
      if o.has_control
      then (do
        active ← load_active
        if is_pause_requested active.status
            then control pauses_if_requested >> return stop
            else return next)
      else return next

  unfoldable pub probe_pause : Exec Batch (Unit {0})
  probe_pause = do
    asked ← from (λ s. ok (v.pause_probe s))
    when (o.has_control && asked) (control requests_pause >> return tt)

  -- `executor`, with its `finally`
  unfoldable pub execute_task : String → Exec Batch Flow
  execute_task id = do
    modify (λ s. record s { failed = false })
    finally
        (catch_all (request v (execute id))
          (λ e. modify (λ s. record s { failed = true }) >> throw e))
        (cleanup_task id)
    modify (λ s. record s { attempted = s.attempted + 1 })
    when o.has_control (do latest ← get_row v id; when (is_completed_row latest) (finish id))
    return next

  -- the pause between two tasks
  unfoldable pub pace : Option ℕ → Exec Batch (Unit {0})
  pace none = return tt
  pace (some at) = do
    now ← from (λ s. ok (v.time s))
    when (ltb (now - at) v.chatgpt_inter_task_pause_seconds) (request v sleep)

  unfoldable pub start_attempt : String → Exec Batch (Unit {0})
  start_attempt id = do
    request v (prepare id)
    request v make_lifecycle
    modify (λ s. record s { lifecycle_made = true })
    get_chatgpt
    modify (λ s. record s { runner_made = true })
    request v (run id)

  -- `_record_pre_runner_failure`
  unfoldable pub record_pre_runner_failure : String → Exec Batch (Unit {0})
  record_pre_runner_failure id = request v (start id) >> request v (fail id)

  -- the reconciliation, with its `except BaseException`
  unfoldable pub reconcile_now : String → Exec Batch (Unit {0})
  reconcile_now id =
      catch_all (request v (reconcile id))
        (λ e. do pending ← load_journal; require_recovery (is_some pending); throw e)

  unfoldable pub cleanup_reconciled :
      String → Exn → Option SubmissionJournal → Exec Batch (Unit {0})
  cleanup_reconciled id e (some pending) =
      require_recovery true
      >> throw
          (recovery_incomplete "completion committed but cleanup journal could not be reconciled")
  cleanup_reconciled id e none = if ends_batch e then throw e else finish id >> throw e

  -- the row is completed, and the journal is still there
  unfoldable pub completed_uncleaned :
      String → Exn → Option SubmissionJournal → Option RateLimit → Exec Batch (Unit {0})
  completed_uncleaned id e pending none = do
    reconcile_now id
    remaining ← load_journal
    cleanup_reconciled id e remaining
  completed_uncleaned id e pending (some limit) = do
    persist_defer pending (some limit)
    require_recovery true
    throw e

  -- `except BaseException`, behind the row and the journal that it reads
  unfoldable pub classify_failure :
      String → Exn → Option Row → Option SubmissionJournal → Exec Batch (Unit {0})
  classify_failure id e latest pending = do
    runner_made ← from (λ s. ok s.runner_made)
    if runner_made && (is_completed_row latest && is_pending_for pending id)
        then completed_uncleaned id e pending (rate_limit_of e)
        else if is_running_row latest || is_pending_for pending id
        then (do persist_defer pending (rate_limit_of e); require_recovery true; throw e)
        else when (not runner_made) (record_pre_runner_failure id) >> throw e

  -- a cancellation that is a pause
  unfoldable pub is_pause_cancelled : Exn → Exec Batch Bool
  is_pause_cancelled e =
      if is_cancelled e && o.has_control
      then (do active ← load_active; return (is_pause_requested active.status))
      else return false

  unfoldable pub attempt_failed : String → Exn → Exec Batch (Unit {0})
  attempt_failed id e = do
    modify (λ s. record s { failed = true })
    latest ← get_row v id
    pending ← load_journal
    paused ← is_pause_cancelled e
    if paused
        then require_recovery (is_pending_for pending id || is_running_row latest) >> throw e
        else classify_failure id e latest pending

  -- `finally`
  unfoldable pub end_attempt : String → Exec Batch (Unit {0})
  end_attempt id = do
    modify (λ s. record s { attempted = s.attempted + 1 })
    required ← from (λ s. ok s.recovery_required)
    when (not required) (cleanup_task id)
    made ← from (λ s. ok s.lifecycle_made)
    when made (request v close_lifecycle)

  unfoldable pub attempt : String → Exec Batch (Unit {0})
  attempt id = do
    modify (λ s. record s {
      lifecycle_made = false;
      runner_made = false;
      recovery_required = false;
      failed = false;
    })
    finally (catch_all (start_attempt id) (attempt_failed id)) (end_attempt id)

  -- behind an attempt that returned
  unfoldable pub after_attempt : String → Exec Batch Flow
  after_attempt id =
      if o.has_control
      then (do
        probe_pause
        latest ← get_row v id
        when (is_completed_row latest) (finish id)
        stop_if_requested)
      else return next

  unfoldable pub run_task : String → Exec Batch Flow
  run_task id = do
    at ← from (λ s. ok s.last_completed_task_at)
    pace at
    attempt id
    flow ← after_attempt id
    if is_stop flow
        then return stop
        else modify (λ s. record s { last_completed_task_at = some (v.time s) }) >> return next
