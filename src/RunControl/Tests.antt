-- ===== src/RunControl/Tests.antt =====
-- Runs of `RunControlStore` on one record, and the theorems at it.
use gpt_trace_extractor_for.Base.{
  String, ◌≡◌, refl, none, some, true, false, List, [], ◌∷◌, string_eq,
}
use gpt_trace_extractor_for.Exceptions.{raised}
use gpt_trace_extractor_for.RunControl.{
  PlannedTask, ActiveRun, running, completed, pause_requested, signal_pause_transition,
}
use gpt_trace_extractor_for.RunControl.Store.{
  holds, written, not_written, not_synced, os_error, Operation, body, body_transitions, starts_task,
  finishes_task, completes, RunControlStore, transaction,
}
use gpt_trace_extractor_for.RunControl.Atomic.{IsSameRun, body-IsSameRun, Commits}
use gpt_trace_extractor_for.RunControl.Progress.{
  IsConsistent, FileIsConsistent, MethodCall, call_all, call_all-IsConsistent,
  completed_needs_proof, CompletedBy,
}
use gpt_trace_extractor_for.RunControl.Signals.{
  IsIdle, IsNoticed, signal_in_transaction_pauses, method-Commits,
}

abbrev task : String → PlannedTask
task id = record {
  run_task_id = id;
  logical_task_id = id;
  adapter_id = "gaia";
  adapter_version = "1";
  task_spec_fingerprint = "s";
  task_contract_fingerprint = "c";
}

abbrev fresh : ActiveRun
fresh = record {
  schema_version = 3;
  run_id = "r";
  campaign_id = "c";
  status = running;
  selected_tasks = task "a" ∷ task "b" ∷ [];
  expected_model = "m";
  configuration_fingerprint = "f";
  completed_run_task_ids = [];
  current_run_task_id = none;
  intervention_reason = none;
  exception_type = none;
  intervention_message = none;
  retry_not_before = none;
}

abbrev idle_store : RunControlStore
idle_store = record { file = holds fresh; transaction_depth = 0; signal_pause_pending = false }

abbrev busy : ActiveRun
busy = record fresh { current_run_task_id = some "a" }

abbrev all_done : ActiveRun
all_done = record fresh { completed_run_task_ids = "a" ∷ "b" ∷ [] }

abbrev quiet_call : Operation → MethodCall
quiet_call op = record { operation = op; write = written; sigint = false; pause_write = written }

finish_both :
    call_all (quiet_call (finishes_task "a") ∷ quiet_call (finishes_task "b") ∷ []) idle_store
    ≡ record idle_store { file = holds all_done }
unfolding call_all transaction body_transitions
finish_both = refl

idle_store-IsIdle : IsIdle idle_store
idle_store-IsIdle = record { no_transaction = refl; no_signal = refl }

-- the folder is not synced: the method raises, and the record is there
unsynced_start :
    transaction false written (body not_synced (starts_task "a")) idle_store
    ≡ (raised os_error, record idle_store { file = holds busy })
unfolding transaction body_transitions
unsynced_start = refl

method-Commits_example :
    Commits not_synced
      (body written (starts_task "a") (holds fresh)).1
      (transaction false written (body not_synced (starts_task "a")) idle_store).0
      (holds fresh)
      (transaction false written (body not_synced (starts_task "a")) idle_store).1.file
method-Commits_example =
    method-Commits not_synced written (starts_task "a") idle_store idle_store-IsIdle

body-IsSameRun_example : IsSameRun fresh busy
unfolding body_transitions
body-IsSameRun_example = body-IsSameRun not_synced (starts_task "a") fresh busy refl refl

fresh-IsConsistent : IsConsistent fresh
fresh-IsConsistent = record {
  finished_selected = refl;
  finished_distinct = refl;
  current_selected = tt;
}

-- a signal while the first task is started, and a write that fails when it is finished
abbrev calls : List MethodCall
calls =
    record (quiet_call (starts_task "a")) { sigint = true }
    ∷ record (quiet_call (finishes_task "a")) { write = not_synced }
    ∷ []

call_all-IsConsistent_example : FileIsConsistent (call_all calls idle_store).file
call_all-IsConsistent_example =
    call_all-IsConsistent calls idle_store (tt, (tt, tt)) fresh-IsConsistent

completed_needs_proof_example :
    CompletedBy (completes ("b" ∷ "a" ∷ [])) (record all_done { status = completed })
unfolding body_transitions
completed_needs_proof_example =
    completed_needs_proof written (completes ("b" ∷ "a" ∷ [])) all_done
      (record all_done { status = completed }) refl refl refl refl

signal_in_transaction_pauses_example :
    IsIdle (transaction true not_synced (body written (starts_task "a")) idle_store).1
    × IsNoticed not_synced
        (transaction true not_synced (body written (starts_task "a")) idle_store).0
        (transaction true not_synced (body written (starts_task "a")) idle_store).1.file
signal_in_transaction_pauses_example =
    signal_in_transaction_pauses not_synced (body written (starts_task "a")) idle_store
      idle_store-IsIdle

signal_keeps_the_task :
    (transaction true written (body written (starts_task "a")) idle_store).1.file
    ≡ holds (record busy { status = pause_requested })
unfolding transaction body_transitions signal_pause_transition
signal_keeps_the_task = refl

-- the write of the pause fails: the run goes on, and the method raises
pause_lost_aloud :
    transaction true not_written (body written (starts_task "a")) idle_store
    ≡ (raised os_error, record idle_store { file = holds busy })
unfolding transaction body_transitions signal_pause_transition
pause_lost_aloud = refl
