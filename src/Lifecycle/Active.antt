-- ===== src/Lifecycle/Active.antt =====
-- `execute_active` of superbench/lifecycle.py: a run is resumed or started.
use gpt_trace_extractor_for.Base.{ℕ, String, none, some, not, List, [], string_eq, if◌then◌else◌}
use gpt_trace_extractor_for.Exceptions.{recovery_incomplete, Outcome, ok, raised, ◌>>=◌, ◌>>◌}
use gpt_trace_extractor_for.RunControl.{running, PlannedTask, ActiveRun, selected_ids, is_completed}
use gpt_trace_extractor_for.RunControl.Store.{
  RunFile, Body, load_file, creates, begins_resume, enforce_rate_limit_defer,
}
use gpt_trace_extractor_for.Lifecycle.{Surroundings, call, and_then, validate_frozen}
use gpt_trace_extractor_for.Lifecycle.Execute.{execute_locked}

module _ (w : Surroundings) where
  -- `store.load()` and the test for a run that is not over
  unfoldable pub unfinished : String → RunFile → Outcome ActiveRun
  unfolding load_file is_completed
  unfinished message file = elim (load_file file) [
    | raised e ↦ raised e
    | ok found ↦ elim found [
      | none ↦ raised (recovery_incomplete message)
      | some state ↦
          if is_completed state.status then raised (recovery_incomplete message) else ok state
    ]
  ]

  -- the checks of `execute_active(resume=True)`, before the lock and under it
  unfoldable pub may_resume : RunFile → Outcome (List String)
  unfolding unfinished enforce_rate_limit_defer validate_frozen
  may_resume file = do
    state ← unfinished "no unfinished active Superbench run" file
    enforce_rate_limit_defer w.time_of_check file
    validate_frozen w state
    w.runner_lock
    w.manual_kali_stopped
    state ← unfinished "active run is no longer resumable" file
    enforce_rate_limit_defer w.time_under_lock file
    ids ← validate_frozen w state
    w.preflight_selected ids
    ok ids

  -- `execute_active(resume=True)`; nothing else writes the file before `begin_resume`
  unfoldable pub resume_active : Body (ℕ × String)
  unfolding may_resume call execute_locked
  resume_active file = elim (may_resume file) [
    | raised e ↦ (raised e, file)
    | ok ids ↦ and_then (call begins_resume file) (λ f. execute_locked w f)
  ]

  abbrev no_unfinished : RunFile → Outcome (Unit {0})
  no_unfinished file = elim (load_file file) [
    | raised e ↦ raised e
    | ok found ↦ elim found [
      | none ↦ ok tt
      | some state ↦
          if not (is_completed state.status)
          then raised (recovery_incomplete "unfinished active Superbench run already exists")
          else ok tt
    ]
  ]

  abbrev pub new_run : String × List PlannedTask → ActiveRun
  new_run (campaign_id, tasks) = record {
    schema_version = 3;
    run_id = w.new_run_id;
    campaign_id = campaign_id;
    status = running;
    selected_tasks = tasks;
    expected_model = w.expected_model;
    configuration_fingerprint = w.configuration_fingerprint;
    completed_run_task_ids = [];
    current_run_task_id = none;
    intervention_reason = none;
    exception_type = none;
    intervention_message = none;
    retry_not_before = none;
  }

  -- the checks and the plan of a new run
  unfoldable pub may_start : RunFile → Outcome ActiveRun
  unfolding load_file is_completed
  may_start file = do
    w.runner_lock
    w.manual_kali_stopped
    no_unfinished file
    planned ← w.plan_selection
    w.preflight_selected (selected_ids (new_run planned))
    ok (new_run planned)

  -- `execute_active(resume=False)`
  unfoldable pub start_active : Body (ℕ × String)
  unfolding may_start call validate_frozen execute_locked
  start_active file = elim (may_start file) [
    | raised e ↦ (raised e, file)
    | ok state ↦ and_then (call (creates state) file) (λ f. elim (validate_frozen w state) [
      | raised e ↦ (raised e, f)
      | ok ids ↦ execute_locked w f
    ])
  ]
