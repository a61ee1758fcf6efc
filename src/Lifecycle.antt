-- ===== src/Lifecycle.antt =====
-- apps/runner/src/gpt_trace_runner/superbench/lifecycle.py: how a run is started, resumed and
-- ended around the runner proper, with the control record of RunControl. What other parts do is a
-- field of `Surroundings`, whatever it is: `run_pending`, the lock of the runner, the preflight
-- of the templates, the rows of the storage service, and what SIGINT or another process does to the
-- control file during the storage proof. A cancellation is an exception of an awaited call.
pub mod Execute
pub mod Active
pub mod Recorded
pub mod Proof
pub mod Frozen
pub mod Tests
use gpt_trace_extractor_for.Base.{
  ℕ, String, ◌≡◌, refl, Option, none, some, Bool, true, false, not, ◌||◌, ◌&&◌, List, [], ◌∷◌, map,
  max, contains, is_subset, ◌==◌, string_eq, if◌then◌else◌,
}
use gpt_trace_extractor_for.Exceptions.{
  Exn, authentication_required, site_challenge_failed, access_denied, rate_limited,
  recovery_incomplete, other_exception, keyboard_interrupt, cancelled_error, Outcome, ok, raised,
  guard, ◌>>=◌, ◌>>◌, retry_delay, one_second, default_rate_limit_fallback_seconds,
}
use gpt_trace_extractor_for.RunControl.{
  RunStatus, running, PlannedTask, ActiveRun, selected_ids, is_active, is_pause_requested,
  is_completed,
}
use gpt_trace_extractor_for.RunControl.Store.{
  RunFile, Body, load_file, Operation, creates, defers_rate_limit, pauses_if_requested,
  begins_resume, intervenes, pauses_on_error, completes, seconds, written, body,
  enforce_rate_limit_defer,
}

-- the settings that a frozen run is compared with, and the other parts
pub record Surroundings : Type 0 where
  pub expected_model : String
  pub configuration_fingerprint : String
  -- `plan` with the adapters of some tasks: the campaign and its tasks
  pub plan : List PlannedTask → Outcome (String × List PlannedTask)
  -- `plan` of a new run, and the id that is drawn for it
  pub plan_selection : Outcome (String × List PlannedTask)
  pub new_run_id : String
  -- `RunnerLock`, `require_manual_kali_stopped`, `_preflight_selected`
  pub runner_lock : Outcome (Unit {0})
  pub manual_kali_stopped : Outcome (Unit {0})
  pub preflight_selected : List String → Outcome (Unit {0})
  pub run_pending : Body (ℕ × String)
  -- `storage.health()`, and the status of the row of `storage.get`
  pub storage_health : Outcome (Unit {0})
  pub storage_get : String → Outcome (Option String)
  pub during_proof : RunFile → RunFile
  -- `time.time()` at the two checks of the deadline and when an incident is recorded
  pub time_of_check : ℕ
  pub time_under_lock : ℕ
  pub time_of_incident : ℕ
  -- `type(exc).__name__` and `str(exc)`
  pub type_name : Exn → String
  pub message_of : Exn → String

unfoldable pub classify_incident : Exn → String × Bool
classify_incident (authentication_required m) = ("authentication", true)
classify_incident (site_challenge_failed m) = ("challenge", true)
classify_incident (access_denied m) = ("access_denied", true)
classify_incident (rate_limited m r) = ("rate_limited", false)
classify_incident (recovery_incomplete m) = ("recovery", true)
classify_incident _ = ("infrastructure", true)

-- `by_run_task_id.get(run_task_id)`: of two tasks with the same id the later one counts
unfoldable pub planned_task : List PlannedTask → String → Option PlannedTask
planned_task [] id = none
planned_task (task ∷ tasks) id = elim (planned_task tasks id) [
  | some later ↦ some later
  | none ↦ if task.run_task_id == id then some task else none
]

-- the equality of the frozen dataclass
unfoldable pub is_same_task : PlannedTask → PlannedTask → Bool
is_same_task a b =
    a.run_task_id == b.run_task_id
    && (a.logical_task_id == b.logical_task_id
        && (a.adapter_id == b.adapter_id
            && (a.adapter_version == b.adapter_version
                && (a.task_spec_fingerprint == b.task_spec_fingerprint
                    && a.task_contract_fingerprint == b.task_contract_fingerprint))))

unfoldable pub is_frozen : List PlannedTask → PlannedTask → Bool
unfolding planned_task is_same_task
is_frozen current frozen = elim (planned_task current frozen.run_task_id) [
  | none ↦ false
  | some task ↦ is_same_task task frozen
]

unfoldable pub check_frozen : List PlannedTask → List PlannedTask → Outcome (Unit {0})
unfolding is_frozen
check_frozen current [] = ok tt
check_frozen current (frozen ∷ tasks) =
    let rest = check_frozen current tasks in
    if not (is_frozen current frozen)
    then raised (recovery_incomplete "active-run task/adapter/App contract drift")
    else rest

-- the status of a row is "completed"
abbrev pub is_stored : Option String → Bool
is_stored none = false
is_stored (some status) = status == "completed"

abbrev pub add_row : Bool → String → List String × List String → List String × List String
add_row true id (stored, missing) = (id ∷ stored, missing)
add_row false id (stored, missing) = (stored, id ∷ missing)

-- the loop of `_storage_completed_run_task_ids`: the ids with a completed row, and the others
unfoldable pub read_rows :
    (String → Outcome (Option String)) → List String → Outcome (List String × List String)
read_rows get [] = ok ([], [])
read_rows get (id ∷ ids) = elim (get id) [
  | raised e ↦ raised e
  | ok row ↦ elim (read_rows get ids) [
    | raised e ↦ raised e
    | ok (stored, missing) ↦ ok (add_row (is_stored row) id (stored, missing))
  ]
]

abbrev pub all_stored : List String × List String → Outcome (List String)
all_stored (stored, []) = ok stored
all_stored (stored, id ∷ ids) =
    raised (recovery_incomplete "active run cannot complete because storage is not completed")

-- what a method of the store does, without the record that it returns; its write succeeds
abbrev pub without_record : Outcome ActiveRun × RunFile → Outcome (Unit {0}) × RunFile
without_record (ok state, file) = (ok tt, file)
without_record (raised e, file) = (raised e, file)

unfoldable pub call : Operation → Body (Unit {0})
call op file = without_record (body written op file)

-- the block after a call that may raise
abbrev pub and_then {ℓ} : {A : Type ℓ} → Outcome (Unit {0}) × RunFile → Body A → Outcome A × RunFile
and_then (ok u, file) next = next file
and_then (raised e, file) next = (raised e, file)

-- which `except` clause of `_execute_locked` takes an exception
pub data Handler : Type 0 where
  cancelled interrupted failed : Handler

unfoldable pub handler : Exn → Handler
handler cancelled_error = cancelled
handler keyboard_interrupt = interrupted
handler _ = failed

-- `state = store.load()` where the code goes on with `state.status`
abbrev pub with_state {ℓ} :
    {A : Type ℓ} → RunFile → (ActiveRun → Outcome A × RunFile) → Outcome A × RunFile
with_state file next = elim (load_file file) [
  | raised e ↦ (raised e, file)
  | ok found ↦ elim found [
    | none ↦ (raised (other_exception "AttributeError"), file)
    | some state ↦ next state
  ]
]

-- behind the storage proof
unfoldable pub commit_completion : List String → Body (Unit {0})
unfolding call load_file is_pause_requested is_active is_completed
commit_completion stored file = with_state file (λ state.
    if is_pause_requested state.status
    then call pauses_if_requested file
    else if is_active state.status
    then call (completes stored) file
    else if not (is_completed state.status)
    then (raised (recovery_incomplete "active-run changed unexpectedly during completion"), file)
    else (ok tt, file))

module _ (w : Surroundings) where
  abbrev pub settings_agree : String → ActiveRun → Bool
  settings_agree campaign_id state =
      campaign_id == state.campaign_id
      && (w.expected_model == state.expected_model
          && w.configuration_fingerprint == state.configuration_fingerprint)

  unfoldable pub validate_frozen : ActiveRun → Outcome (List String)
  unfolding check_frozen
  validate_frozen state = elim (w.plan state.selected_tasks) [
    | raised e ↦ raised e
    | ok (campaign_id, current) ↦
        if not (settings_agree campaign_id state)
        then raised (recovery_incomplete "active-run campaign/model/config drift")
        else check_frozen current state.selected_tasks >> ok (selected_ids state)
  ]

  unfoldable pub storage_completed_run_task_ids : ActiveRun → Outcome (List String)
  unfolding read_rows
  storage_completed_run_task_ids state =
      w.storage_health >> (read_rows w.storage_get (selected_ids state) >>= all_stored)

  unfoldable pub prove_completion : ActiveRun → Body (Unit {0})
  unfolding storage_completed_run_task_ids
  prove_completion state file =
      if not (is_subset (selected_ids state) state.completed_run_task_ids)
      then (raised (recovery_incomplete "frozen tasks remain incomplete"), file)
      else elim (storage_completed_run_task_ids state) [
        | raised e ↦ (raised e, w.during_proof file)
        | ok stored ↦ commit_completion stored (w.during_proof file)
      ]

  -- the lines behind `run_pending`
  unfoldable pub finish_run : Body (Unit {0})
  unfolding call load_file is_pause_requested is_active prove_completion
  finish_run file = with_state file (λ state.
      if is_pause_requested state.status
      then call pauses_if_requested file
      else if is_active state.status
      then prove_completion state file
      else (ok tt, file))
