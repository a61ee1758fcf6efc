-- ===== src/RunControl.antt =====
-- apps/runner/src/gpt_trace_runner/superbench/run_control.py: the durable control record of the
-- active run. Here are its data and the transitions that `_mutate` is called with; Store.antt has
-- the methods under the file lock, and the other children the proofs.
-- Times are whole microseconds. The JSON text of the file is not modelled: a file is absent,
-- unreadable, or holds a record.
pub mod Store
pub mod Atomic
pub mod Progress
pub mod Signals
pub mod Deadline
pub mod Tests
use gpt_trace_extractor_for.Base.{
  ℕ, ◌+◌, String, Option, none, some, Bool, true, false, not, ◌||◌, List, [], ◌∷◌, ◌++◌, map, max,
  contains, is_subset, ◌==◌, string_eq, option_eq, if◌then◌else◌,
}
use gpt_trace_extractor_for.Exceptions.{
  Outcome, ok, raised, recovery_incomplete, guard, ◌>>=◌, ◌>>◌,
}

pub data RunStatus : Type 0 where
  running pause_requested paused resuming needs_intervention completed : RunStatus

pub record PlannedTask : Type 0 where
  pub run_task_id : String
  pub logical_task_id : String
  pub adapter_id : String
  pub adapter_version : String
  pub task_spec_fingerprint : String
  pub task_contract_fingerprint : String

pub record ActiveRun : Type 0 where
  pub schema_version : ℕ
  pub run_id : String
  pub campaign_id : String
  pub status : RunStatus
  pub selected_tasks : List PlannedTask
  pub expected_model : String
  pub configuration_fingerprint : String
  pub completed_run_task_ids : List String
  pub current_run_task_id : Option String
  pub intervention_reason : Option String
  pub exception_type : Option String
  pub intervention_message : Option String
  pub retry_not_before : Option ℕ

abbrev pub task_ids : List PlannedTask → List String
task_ids [] = []
task_ids (task ∷ tasks) = task.run_task_id ∷ task_ids tasks

-- `{task.run_task_id for task in state.selected_tasks}`
abbrev pub selected_ids : ActiveRun → List String
selected_ids state = task_ids state.selected_tasks

-- `state.status in {"running", "resuming"}`
unfoldable pub is_active : RunStatus → Bool
is_active running = true
is_active resuming = true
is_active _ = false

unfoldable pub is_pause_requested : RunStatus → Bool
is_pause_requested pause_requested = true
is_pause_requested _ = false

unfoldable pub is_completed : RunStatus → Bool
is_completed completed = true
is_completed _ = false

abbrev pub is_paused : RunStatus → Bool
is_paused paused = true
is_paused _ = false

-- `previous or 0.0`
abbrev pub or_zero : Option ℕ → ℕ
or_zero none = 0
or_zero (some t) = t

-- `None if state.current_run_task_id == run_task_id else state.current_run_task_id`
abbrev pub unless_current : Option String → String → Option String
unless_current current run_task_id = if current == some run_task_id then none else current

-- the transition of `defer_rate_limit`
unfoldable pub defer_transition : ℕ → ActiveRun → Outcome ActiveRun
defer_transition not_before state =
    ok (record state { retry_not_before = some (max (or_zero state.retry_not_before) not_before) })

unfoldable pub signal_pause_transition : ActiveRun → Outcome ActiveRun
unfolding is_active
signal_pause_transition state =
    if is_active state.status then ok (record state { status = pause_requested }) else ok state

unfoldable pub request_pause_transition : ActiveRun → Outcome ActiveRun
unfolding is_active is_pause_requested
request_pause_transition state =
    if is_paused state.status || is_pause_requested state.status
    then ok state
    else if not (is_active state.status)
    then raised (recovery_incomplete "cannot pause")
    else ok (record state { status = pause_requested })

unfoldable pub pause_if_requested_transition : ActiveRun → Outcome ActiveRun
unfolding is_pause_requested
pause_if_requested_transition state =
    if not (is_pause_requested state.status)
    then ok state
    else ok (record state { status = paused; current_run_task_id = none })

-- every status but `completed` is in the set that `begin_resume` accepts
unfoldable pub is_resumable : RunStatus → Bool
is_resumable running = true
is_resumable resuming = true
is_resumable pause_requested = true
is_resumable paused = true
is_resumable needs_intervention = true
is_resumable completed = false

unfoldable pub begin_resume_transition : ActiveRun → Outcome ActiveRun
unfolding is_resumable
begin_resume_transition state =
    if not (is_resumable state.status)
    then raised (recovery_incomplete "cannot resume")
    else ok (record state { status = resuming })

unfoldable pub confirm_running_transition : ActiveRun → Outcome ActiveRun
unfolding is_active is_pause_requested
confirm_running_transition state =
    if is_pause_requested state.status
    then ok state
    else if not (is_active state.status)
    then raised (recovery_incomplete "cannot run")
    else ok (record state {
      status = running;
      intervention_reason = none;
      exception_type = none;
      intervention_message = none;
      retry_not_before = none;
    })

unfoldable pub start_task_transition : String → ActiveRun → Outcome ActiveRun
unfolding is_pause_requested
start_task_transition run_task_id state =
    if is_pause_requested state.status
    then ok state
    else if not (contains (selected_ids state) run_task_id)
    then raised (recovery_incomplete "task outside frozen selection")
    else ok (record state { current_run_task_id = some run_task_id })

unfoldable pub finish_task_transition : String → ActiveRun → Outcome ActiveRun
finish_task_transition run_task_id state =
    if not (contains (selected_ids state) run_task_id)
    then raised (recovery_incomplete "task outside frozen selection")
    else ok (record state {
      completed_run_task_ids =
          if contains state.completed_run_task_ids run_task_id
          then state.completed_run_task_ids
          else state.completed_run_task_ids ++ run_task_id ∷ [];
      current_run_task_id = unless_current state.current_run_task_id run_task_id;
    })

-- the transition of `intervention` and `paused_error`, which differ in the status
unfoldable pub incident_transition :
    RunStatus → String → String → String → ActiveRun → Outcome ActiveRun
incident_transition status reason exception_type message state = ok (record state {
  status = status;
  intervention_reason = some reason;
  exception_type = some exception_type;
  intervention_message = some message;
})

unfoldable pub complete_transition : List String → ActiveRun → Outcome ActiveRun
complete_transition storage_completed state =
    if not (is_subset (selected_ids state) state.completed_run_task_ids)
    then raised (recovery_incomplete "unfinished frozen tasks in active-run control state")
    else if not (is_subset (selected_ids state) storage_completed)
    then raised (recovery_incomplete "active run cannot complete until every frozen task is stored")
    else ok (record state {
      status = completed;
      current_run_task_id = none;
      intervention_reason = none;
      exception_type = none;
      intervention_message = none;
      retry_not_before = none;
    })
