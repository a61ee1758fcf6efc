-- ===== src/Lifecycle/Tests.antt =====
-- Runs of lifecycle.py on one record, and the theorems at them.
use gpt_trace_extractor_for.Base.{
  ◌-◌, String, ◌≡◌, refl, none, some, true, false, [], ◌∷◌, arith, string_eq, All,
}
use gpt_trace_extractor_for.Exceptions.{
  RateLimit, rate_limited, authentication_required, ok, raised, retry_delay,
}
use gpt_trace_extractor_for.RunControl.{
  PlannedTask, ActiveRun, running, paused, pause_requested, selected_ids, is_active, is_completed,
  is_pause_requested,
}
use gpt_trace_extractor_for.RunControl.Store.{RunFile, holds, body_transitions, load_file}
use gpt_trace_extractor_for.Lifecycle.{
  Surroundings, handler, planned_task, is_same_task, is_frozen, check_frozen, validate_frozen,
  read_rows, storage_completed_run_task_ids, call, commit_completion, prove_completion, finish_run,
}
use gpt_trace_extractor_for.Lifecycle.Execute.{handle}
use gpt_trace_extractor_for.Lifecycle.Active.{resume_active}
use gpt_trace_extractor_for.Lifecycle.Recorded.{
  parked, deadline_of, resume_refused, failure_recorded, resume_waits,
}
use gpt_trace_extractor_for.Lifecycle.Frozen.{IsUnchanged, validate_frozen_sound}
use gpt_trace_extractor_for.Lifecycle.Proof.{
  IsOpen, HasCompletedRow, completed_is_stored, pause_wins,
}

abbrev task : String → PlannedTask
task id = record {
  run_task_id = id;
  logical_task_id = id;
  adapter_id = "gaia";
  adapter_version = "1";
  task_spec_fingerprint = "s";
  task_contract_fingerprint = "c";
}

abbrev busy : ActiveRun
busy = record {
  schema_version = 3;
  run_id = "r";
  campaign_id = "c";
  status = running;
  selected_tasks = task "a" ∷ task "b" ∷ [];
  expected_model = "m";
  configuration_fingerprint = "f";
  completed_run_task_ids = "a" ∷ "b" ∷ [];
  current_run_task_id = none;
  intervention_reason = none;
  exception_type = none;
  intervention_message = none;
  retry_not_before = some 7;
}

abbrev asked : ActiveRun
asked = record busy { status = pause_requested }

abbrev surroundings : (RunFile → RunFile) → Surroundings
surroundings during = record {
  expected_model = "m";
  configuration_fingerprint = "f";
  plan = λ tasks. ok ("c", task "a" ∷ task "b" ∷ task "d" ∷ []);
  plan_selection = ok ("c", task "a" ∷ []);
  new_run_id = "r";
  runner_lock = ok tt;
  manual_kali_stopped = ok tt;
  preflight_selected = λ ids. ok tt;
  run_pending = λ file. (ok (2, "c"), file);
  storage_health = ok tt;
  storage_get = λ id. ok (some "completed");
  during_proof = during;
  time_of_check = 1000;
  time_under_lock = 1001;
  time_of_incident = 500;
  type_name = λ e. "RateLimited";
  message_of = λ e. "429";
}

abbrev quiet : Surroundings
quiet = surroundings (λ file. file)

abbrev limit : RateLimit
limit = record {
  retry_after_seconds = some 2000000;
  endpoint = none;
  method = none;
  request_id = none;
}

busy-open : is_completed busy.status ≡ false
unfolding is_completed
busy-open = refl

busy-active : is_active busy.status ≡ true
unfolding is_active
busy-active = refl

asked-pause : is_pause_requested asked.status ≡ true
unfolding is_pause_requested
asked-pause = refl

failure_recorded_example : handle quiet (0, "c") (authentication_required "login") (holds busy) ≡ (
  raised (authentication_required "login"),
  holds (parked quiet (authentication_required "login") busy),
)
unfolding handler
failure_recorded_example =
    failure_recorded quiet (0, "c") (authentication_required "login") busy refl busy-open refl

resume_waits_example :
    let left = (handle quiet (0, "c") (rate_limited "429" limit) (holds busy)).1 in
    resume_active quiet left ≡ (raised (resume_refused (deadline_of quiet limit busy - 1000)), left)
unfolding retry_delay
resume_waits_example =
    resume_waits quiet quiet (0, "c") "429" limit busy refl busy-open (omega arith)

validate_frozen_sound_example :
    ("a" ∷ "b" ∷ [] ≡ selected_ids busy)
    × IsUnchanged quiet busy "c" (task "a" ∷ task "b" ∷ task "d" ∷ [])
unfolding validate_frozen check_frozen is_frozen planned_task is_same_task
validate_frozen_sound_example =
    validate_frozen_sound quiet busy "c" (task "a" ∷ task "b" ∷ task "d" ∷ []) ("a" ∷ "b" ∷ []) refl
      refl

completes_busy : IsOpen (finish_run quiet (holds busy)).1 → ⊥
unfolding finish_run load_file is_active is_pause_requested is_completed prove_completion
    storage_completed_run_task_ids read_rows commit_completion call body_transitions
completes_busy h = ground arith

completed_is_stored_example : All (HasCompletedRow quiet.storage_get) (selected_ids busy)
completed_is_stored_example =
    completed_is_stored quiet busy refl busy-active busy-open completes_busy

reads_busy :
    (during : RunFile → RunFile)
    → storage_completed_run_task_ids (surroundings during) busy ≡ ok ("a" ∷ "b" ∷ [])
unfolding storage_completed_run_task_ids read_rows
reads_busy during = refl

pause_wins_example :
    finish_run (surroundings (λ file. holds asked)) (holds busy)
    ≡ (ok tt, holds (record asked { status = paused; current_run_task_id = none }))
pause_wins_example =
    pause_wins (surroundings (λ file. holds asked)) busy asked ("a" ∷ "b" ∷ []) refl refl
      busy-active refl (reads_busy (λ file. holds asked)) refl asked-pause
