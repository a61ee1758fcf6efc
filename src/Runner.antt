-- ===== src/Runner.antt =====
-- apps/runner/src/gpt_trace_runner/runner.py: one attempt of a task in the browser and its recovery
-- from the journal. A call of another part (storage, lifecycle, chatgpt, hooks) is noted in the
-- log, newest first, and returns or raises as `Services` says, by all that happened before: with
-- `keyboard_interrupt` or `cancelled_error`, which no handler takes, the process ends in that call.
pub mod Submit
pub mod Attempt
pub mod Recovery
pub mod Phases
pub mod Recovered
pub mod Counted
pub mod Sent
pub mod Once
pub mod Restarts
pub mod Kept
pub mod Tests
use gpt_trace_extractor_for.Base.{
  ℕ, ◌+◌, String, Option, none, some, Bool, true, false, List, [], ◌∷◌, suc,
}
use gpt_trace_extractor_for.Exceptions.{Exn, Outcome, ok, raised}
use gpt_trace_extractor_for.Exec.{Exec, from, modify, ◌>>=◌}
use gpt_trace_extractor_for.Json.{Value}
use gpt_trace_extractor_for.Journal.{
  Phase, starting, SubmissionJournal, JournalFile, absent, holds, load, CapturedConversation,
  Capture,
}

-- `BenchmarkTask`, as far as the runner reads it; `tools` is what the lifecycle and `_names` see
pub record Task : Type 0 where
  pub task_id : String
  pub has_tools : Bool
  pub tools : Value
  pub has_template : Bool

pub data RowStatus : Type 0 where
  pending running completed failed : RowStatus

-- `StoredRun`
pub record StoredRun : Type 0 where
  pub status : RowStatus
  pub conversation_id : Option String
  pub attempt : ℕ
  pub runner_id : Option String
  pub task_fingerprint : Option String
  pub app_provenance : Option Value

pub record SubmittedTurn : Type 0 where
  pub conversation_id : String
  pub user_message_id : String

-- the calls of other parts
pub data Call : Type 0 where
  storage_get storage_start storage_set_conversation storage_complete storage_fail : Call
  lifecycle_prepare lifecycle_assert_resume lifecycle_reset lifecycle_abandon : Call
  lifecycle_runtime_metadata hook_prepare hook_capture hook_evaluate : Call
  prepare_session prepare_task find_send_button wait_for_backend_quiet click_send : Call
  observe_response validate_submission raise_for_initial_status wait_for_conversation_id : Call
  wait_for_completion recover recover_current_candidate delete_completed_conversation : Call

-- a call that was made, and whether it returned
pub data Event : Type 0 where
  called : Call → Bool → Event

-- the journal, the capture, the log, and what an attempt keeps in locals that its handler reads
pub record World : Type 0 where
  pub journal : JournalFile
  pub capture : Option Capture
  pub session_prepared : Bool
  pub phase : Phase
  pub started : Option StoredRun
  pub log : List Event

-- what the other parts do
pub record Services : Type 0 where
  pub task_fingerprint : World → Task → String
  pub same : Value → Value → Bool
  pub names : Task → Value
  pub environment_ids : Task → ℕ → String → Value
  pub task_with_stored_ui_names : Task → Value → Option Task
  pub has_runtime_hooks : String → Bool
  pub has_evaluation : String → Bool
  pub digest : Capture → String
  pub enrich : CapturedConversation → Value → CapturedConversation
  pub get : World → Outcome (Option StoredRun)
  pub start : World → Outcome StoredRun
  pub runtime_metadata : World → Outcome Value
  pub capture_candidate : World → Outcome Value
  pub evaluate : World → Outcome (Option Value)
  pub user_message_id : World → Outcome String
  pub conversation_id : World → Outcome String
  pub conversation : World → Outcome CapturedConversation
  pub observer_error : World → Bool
  pub saw_backend_429 : World → Bool
  pub saw_backend_403 : World → Bool
  -- a call whose result is not read
  pub done : Call → World → Outcome (Unit {0})

abbrev pub returned {ℓ} : {A : Type ℓ} → Outcome A → Bool
returned (ok a) = true
returned (raised e) = false

-- a call of another part
unfoldable pub request : {A : Type 0} → Call → (World → Outcome A) → Exec World A
request call f s = (f s, record s { log = called call (returned (f s)) ∷ s.log })

unfoldable pub write_journal : SubmissionJournal → Exec World (Unit {0})
unfolding modify
write_journal entry = modify (λ s. record s { journal = holds entry })

unfoldable pub clear_journal : Exec World (Unit {0})
unfolding modify
clear_journal = modify (λ s. record s { journal = absent })

unfoldable pub clear_capture : Exec World (Unit {0})
unfolding modify
clear_capture = modify (λ s. record s { capture = none })

unfoldable pub load_journal : Exec World (Option SubmissionJournal)
unfolding from load
load_journal = from (λ s. load s.journal)

unfoldable pub set_phase : Phase → Exec World (Unit {0})
unfolding modify
set_phase phase = modify (λ s. record s { phase = phase })

-- `_entry`
abbrev pub entry_of :
    Services
    → Task
    → String
    → ℕ
    → Phase
    → String
    → Value
    → Option String
    → Option String
    → SubmissionJournal
entry_of v task runner_id attempt phase fingerprint environments conversation_id user_message_id =
    record {
      task_id = task.task_id;
      runner_id = runner_id;
      attempt = attempt;
      phase = phase;
      conversation_id = conversation_id;
      task_fingerprint = some fingerprint;
      app_environments = environments;
      resolved_app_names = v.names task;
      user_message_id = user_message_id;
      retry_not_before = none;
      capture_sha256 = none;
      candidate = none;
      evaluator = none;
    }

-- the calls of Send in a log
abbrev pub is_click : Call → Bool
is_click click_send = true
is_click storage_get = false
is_click _ = false

abbrev pub clicks : List Event → ℕ
clicks [] = 0
clicks (called click_send b ∷ log) = suc (clicks log)
clicks (called storage_get b ∷ log) = clicks log
clicks (called _ b ∷ log) = clicks log

-- `storage.complete` has returned
abbrev pub has_completed : List Event → Bool
has_completed [] = false
has_completed (called storage_complete true ∷ log) = true
has_completed (called storage_complete false ∷ log) = has_completed log
has_completed (called storage_get b ∷ log) = has_completed log
has_completed (called _ b ∷ log) = has_completed log
