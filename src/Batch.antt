-- ===== src/Batch.antt =====
-- `run_pending` of apps/runner/src/gpt_trace_runner/superbench/execution.py: the tasks of a selection
-- one after the other, behind the recovery of the journal that another process left. A call of
-- another part is noted in the log, newest first; it returns or raises as `Services` says, and what
-- it leaves in the journal and in the control file is whatever `Services` says, by all that
-- happened before. What is made of the adapter's prepared state is not modelled.
pub mod Task
pub mod Loop
pub mod Rules
pub mod Failed
pub mod Chain
pub mod Turn
pub mod Around
pub mod Plain
pub mod Proved
pub mod Stored
pub mod Schedule
pub mod Scheduled
pub mod Limited
pub mod Preserved
pub mod Tests
use gpt_trace_extractor_for.Base.{
  ℕ, ◌+◌, ◌-◌, String, Option, none, some, Bool, true, false, not, ◌&&◌, List, [], ◌∷◌, contains,
  ltb, ◌==◌, string_eq,
}
use gpt_trace_extractor_for.Exceptions.{
  Exn, recovery_incomplete, other_exception, is_batch_circuit_breaker, Outcome, ok, raised,
}
use gpt_trace_extractor_for.Exec.{Exec, return, throw, from, modify, catch, when, ◌>>=◌, ◌>>◌}
use gpt_trace_extractor_for.Journal.{SubmissionJournal, JournalFile, load, persist_rate_limit_defer}
use gpt_trace_extractor_for.Runner.{RowStatus, returned}
use gpt_trace_extractor_for.RunControl.{ActiveRun, is_pause_requested}
use gpt_trace_extractor_for.RunControl.Store.{
  RunFile, load_file, Operation, pauses_if_requested, requests_pause, finishes_task, written, body,
}

-- a task of the catalog: its run id, and the contract of `storage_context`
pub record Entry : Type 0 where
  pub run_task_id : String
  pub task_contract_fingerprint : String

-- a row of storage, as far as the scheduler reads it
pub record Row : Type 0 where
  pub status : RowStatus
  pub task_contract_fingerprint : Option String

-- the calls of other parts, of one task where they have its id
pub data Call : Type 0 where
  health acquire_lock connect disconnect close_storage sleep make_lifecycle close_lifecycle : Call
  get materialize prepare recover run execute reconcile cleanup start fail : String → Call

-- a call that was made, and whether it returned; a row that storage had
pub data Event : Type 0 where
  called : Call → Bool → Event
  found : String → RowStatus → Event

-- the files, the locals of the batch, those of the task under way, and the log
pub record Batch : Type 0 where
  pub control : RunFile
  pub journal : JournalFile
  pub attempted : ℕ
  pub last_completed_task_at : Option ℕ
  pub connected : Bool
  pub lifecycle_made : Bool
  pub runner_made : Bool
  pub recovery_required : Bool
  pub failed : Bool
  pub log : List Event

pub record Services : Type 0 where
  -- what a call does but for its result
  pub outcome : Call → Batch → Outcome (Unit {0})
  pub journal_after : Call → Batch → JournalFile
  pub control_after : Call → Batch → RunFile
  pub row : String → Batch → Outcome (Option Row)
  -- `bt.task_id` of the materialized task
  pub task_id : String → Batch → Outcome String
  pub pause_probe : Batch → Bool
  -- whether the reconciliation of a checkpointed entry asks `DeferredCleanupChatGPT` for the browser
  pub connects_deferred : Batch → Bool
  pub time : Batch → ℕ
  pub chatgpt_inter_task_pause_seconds : ℕ

-- the arguments that are `None` or not, and flags
pub record Options : Type 0 where
  pub has_control : Bool
  pub has_executor : Bool
  pub limit : Option ℕ
  pub selected_run_task_ids : Option (List String)
  pub runner_lock_held : Bool
  pub owned_storage : Bool

module _ (v : Services) where
  abbrev pub note : Call → Bool → Batch → Batch
  note c b s = record s {
    log = called c b ∷ s.log;
    journal = v.journal_after c s;
    control = v.control_after c s;
  }

  unfoldable pub request : Call → Exec Batch (Unit {0})
  request c s = (v.outcome c s, note c (returned (v.outcome c s)) s)

  abbrev pub note_row : String → Outcome (Option Row) → Batch → Batch
  note_row id (ok (some row)) s = record s { log = found id row.status ∷ s.log }
  note_row id (ok none) s = s
  note_row id (raised e) s = s

  -- `storage.get`
  unfoldable pub get_row : String → Exec Batch (Option Row)
  get_row id s = (v.row id s, note_row id (v.row id s) (note (get id) (returned (v.row id s)) s))

  unfoldable pub materialize_task : String → Exec Batch String
  materialize_task id s = (v.task_id id s, note (materialize id) (returned (v.task_id id s)) s)

unfoldable pub load_journal : Exec Batch (Option SubmissionJournal)
unfolding from load
load_journal = from (λ s. load s.journal)

-- a method of the control store, whose write succeeds
abbrev pub with_control : Outcome ActiveRun × RunFile → Batch → Outcome ActiveRun × Batch
with_control (r, file) s = (r, record s { control = file })

unfoldable pub control : Operation → Exec Batch ActiveRun
control op s = with_control (body written op s.control) s

-- `control_store.load()`, of which an attribute is read
abbrev pub active_of : Outcome (Option ActiveRun) → Outcome ActiveRun
active_of (ok (some state)) = ok state
active_of (ok none) = raised (other_exception "AttributeError")
active_of (raised e) = raised e

unfoldable pub load_active : Exec Batch ActiveRun
unfolding from load_file
load_active = from (λ s. active_of (load_file s.control))

abbrev pub is_completed_status : RowStatus → Bool
is_completed_status RowStatus.completed = true
is_completed_status RowStatus.running = false
is_completed_status RowStatus.pending = false
is_completed_status RowStatus.failed = false

abbrev pub is_completed_row : Option Row → Bool
is_completed_row none = false
is_completed_row (some row) = is_completed_status row.status

abbrev is_running_status : RowStatus → Bool
is_running_status RowStatus.running = true
is_running_status RowStatus.completed = false
is_running_status RowStatus.pending = false
is_running_status RowStatus.failed = false

abbrev pub is_running_row : Option Row → Bool
is_running_row none = false
is_running_row (some row) = is_running_status row.status

-- the journal is that of the task
abbrev pub is_pending_for : Option SubmissionJournal → String → Bool
is_pending_for none id = false
is_pending_for (some entry) id = entry.task_id == id

abbrev pub is_some {ℓ} : {A : Type ℓ} → Option A → Bool
is_some none = false
is_some (some a) = true
