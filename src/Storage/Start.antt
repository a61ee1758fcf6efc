-- ===== src/Storage/Start.antt =====
-- `start_run` and `stats` of storage/repository.py. `same` is Python's `==` on documents.
use gpt_trace_extractor_for.Base.{
  ℕ, ◌+◌, Option, none, some, Bool, false, not, ◌&&◌, [], ◌∷◌, ◌==◌, string_eq, option_eq, nat_beq,
  if◌then◌else◌,
}
use gpt_trace_extractor_for.Json.{Value}
use gpt_trace_extractor_for.Storage.{
  Run, RunStatus, pending, running, completed, failed, Table, get_run, other_running, Decision,
  conflicts, returns, inserts, updates, Reply, commit, StartRequest, or_text, or_empty,
}

module _ (same : Value → Value → Bool) where
  abbrev same_provenance : Option Value → Value → Bool
  same_provenance none v = false
  same_provenance (some u) v = same u v

  -- a new row
  unfoldable pub new_run : StartRequest → ℕ → Run
  new_run request now = record {
    task_id = request.caller.task_id;
    logical_task_id = or_text request.logical_task_id request.caller.task_id;
    status = running;
    runner_id = some request.caller.runner_id;
    task_fingerprint = some request.task_fingerprint;
    attempt = 1;
    conversation_id = none;
    messages = none;
    runtime_metadata = none;
    app_provenance = some request.app_provenance;
    dataset_metadata = or_empty request.dataset_metadata;
    evaluation = none;
    error_type = none;
    error_message = none;
    started_at = some now;
    completed_at = none;
  }

  -- the row of a failed attempt, started again
  unfoldable pub next_attempt : StartRequest → ℕ → Run → Run
  next_attempt request now run = record run {
    status = running;
    runner_id = some request.caller.runner_id;
    attempt = request.caller.attempt;
    started_at = some now;
    completed_at = none;
    conversation_id = none;
    messages = none;
    runtime_metadata = none;
    app_provenance = some request.app_provenance;
    dataset_metadata = or_empty request.dataset_metadata;
    evaluation = none;
    error_type = none;
    error_message = none;
  }

  -- the branches on the status of a row whose specification is the same
  unfoldable pub restart_decision : StartRequest → ℕ → Run → Decision
  unfolding next_attempt
  restart_decision request now run = elim run.status [
    | completed ↦
        if not (same run.dataset_metadata (or_empty request.dataset_metadata))
        then conflicts "completed run dataset_metadata is immutable"
        else conflicts "completed run is immutable"
    | running ↦
        if not (same run.dataset_metadata (or_empty request.dataset_metadata))
        then conflicts "idempotent start dataset_metadata differs"
        else if nat_beq run.attempt request.caller.attempt
            && run.runner_id == some request.caller.runner_id
        then (if not (same_provenance run.app_provenance request.app_provenance)
            then conflicts "idempotent start App provenance differs"
            else returns run)
        else conflicts "task already running"
    | failed ↦
        if not (nat_beq request.caller.attempt (run.attempt + 1))
        then conflicts "expected next attempt"
        else updates (next_attempt request now run)
    | pending ↦ conflicts "cannot start run"
  ]

  unfoldable pub row_decision : StartRequest → ℕ → Run → Decision
  unfolding restart_decision
  row_decision request now run =
      if run.task_fingerprint == none
      then conflicts "stored run has no task fingerprint"
      else if not (run.task_fingerprint == some request.task_fingerprint)
      then conflicts "task specification changed for an existing task_id"
      else if not (run.logical_task_id == or_text request.logical_task_id request.caller.task_id)
      then conflicts "logical_task_id changed for an existing task_id"
      else restart_decision request now run

  unfoldable pub start_decision : StartRequest → ℕ → Option Run → Decision
  unfolding row_decision new_run
  start_decision request now none =
      if not (nat_beq request.caller.attempt 1)
      then conflicts "new task must start at attempt 1"
      else inserts (new_run request now)
  start_decision request now (some run) = row_decision request now run

  -- `start_run` at the time `now`
  unfoldable pub start_run : StartRequest → ℕ → Table → Reply × Table
  unfolding start_decision get_run other_running commit
  start_run request now table = elim (other_running request.caller.task_id table) [
    | some other ↦ commit (conflicts "another task is already running") table
    | none ↦ commit (start_decision request now (get_run request.caller.task_id table)) table
  ]

pub record Stats : Type 0 where
  pub pending_runs : ℕ
  pub running_runs : ℕ
  pub completed_runs : ℕ
  pub failed_runs : ℕ
  pub total : ℕ

abbrev count_status : RunStatus → Stats → Stats
count_status pending s = record s { pending_runs = s.pending_runs + 1; total = s.total + 1 }
count_status running s = record s { running_runs = s.running_runs + 1; total = s.total + 1 }
count_status completed s = record s { completed_runs = s.completed_runs + 1; total = s.total + 1 }
count_status failed s = record s { failed_runs = s.failed_runs + 1; total = s.total + 1 }

-- `stats`
unfoldable pub stats : Table → Stats
stats [] = record {
  pending_runs = 0;
  running_runs = 0;
  completed_runs = 0;
  failed_runs = 0;
  total = 0;
}
stats (run ∷ runs) = count_status run.status (stats runs)
