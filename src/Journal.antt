-- ===== src/Journal.antt =====
-- apps/runner/src/gpt_trace_runner/journal.py: the crash journal of the attempt that is under way, and
-- the captured conversation beside it. A file is written whole or not at all. `digest` is the
-- SHA-256 of the JSON text of a capture, and `same` is Python's `==` on documents.
pub mod Captures
pub mod Deferral
pub mod Tests
use gpt_trace_extractor_for.Base.{
  ℕ, ◌+◌, ◌-◌, String, Option, none, some, Bool, true, false, not, ◌&&◌, ◌||◌, max, ltb, ◌==◌,
  nat_eq, string_eq, option_eq, if◌then◌else◌,
}
use gpt_trace_extractor_for.Exceptions.{
  RateLimit, retry_delay, one_second, default_rate_limit_fallback_seconds, Outcome, ok, raised,
  recovery_incomplete, rate_limited,
}
use gpt_trace_extractor_for.Json.{Value, Fields}

pub data Phase : Type 0 where
  starting apps_prepared benchmark_preparing benchmark_ready composer_dirty : Phase
  submission_started conversation_known conversation_checkpointed : Phase
  candidate_checkpointed cleanup_pending : Phase

pub record SubmissionJournal : Type 0 where
  pub task_id : String
  pub runner_id : String
  pub attempt : ℕ
  pub phase : Phase
  pub conversation_id : Option String
  pub task_fingerprint : Option String
  pub app_environments : Value
  pub resolved_app_names : Value
  pub user_message_id : Option String
  pub retry_not_before : Option ℕ
  pub capture_sha256 : Option String
  pub candidate : Option Value
  pub evaluator : Option Value

pub data JournalFile : Type 0 where
  absent unreadable : JournalFile
  holds : SubmissionJournal → JournalFile

-- `load`
unfoldable pub load : JournalFile → Outcome (Option SubmissionJournal)
load absent = ok none
load unreadable = raised (recovery_incomplete "submission journal is unreadable")
load (holds entry) = ok (some entry)

unfoldable pub is_candidate_checkpointed : Phase → Bool
is_candidate_checkpointed candidate_checkpointed = true
is_candidate_checkpointed _ = false

-- the identity of an evaluator, and the fields of it that the journal keeps
pub record EvaluatorRecord : Type 0 where
  pub task_id : String
  pub attempt : ℕ
  pub kept : Value

-- `record_evaluator`: the file that it writes
unfoldable pub record_evaluator : EvaluatorRecord → JournalFile → Outcome JournalFile
unfolding load is_candidate_checkpointed
record_evaluator r file = elim (load file) [
  | raised e ↦ raised e
  | ok found ↦ elim found [
    | none ↦ raised (recovery_incomplete "evaluator created outside durable candidate checkpoint")
    | some entry ↦
        if not (is_candidate_checkpointed entry.phase)
          || (not (r.task_id == entry.task_id) || not (r.attempt == entry.attempt))
        then raised (recovery_incomplete "evaluator created outside durable candidate checkpoint")
        else ok (holds (record entry { evaluator = some r.kept }))
  ]
]

pub record CapturedConversation : Type 0 where
  pub conversation_id : String
  pub messages : Value
  pub runtime_metadata : Value

-- the document of `capture_path`
pub record Capture : Type 0 where
  pub task_id : String
  pub attempt : ℕ
  pub runner_id : String
  pub fingerprint : Option String
  pub conversation_id : String
  pub messages : Value
  pub runtime_metadata : Value

-- the document that `write_capture` writes
unfoldable pub capture_of : CapturedConversation → SubmissionJournal → Capture
capture_of captured entry = record {
  task_id = entry.task_id;
  attempt = entry.attempt;
  runner_id = entry.runner_id;
  fingerprint = entry.task_fingerprint;
  conversation_id = captured.conversation_id;
  messages = captured.messages;
  runtime_metadata = captured.runtime_metadata;
}

abbrev pub captured_in : Capture → CapturedConversation
captured_in c = record {
  conversation_id = c.conversation_id;
  messages = c.messages;
  runtime_metadata = c.runtime_metadata;
}

-- the capture belongs to the attempt of the journal
unfoldable pub is_of_attempt : Capture → SubmissionJournal → Bool
is_of_attempt c entry =
    c.task_id == entry.task_id
    && (c.attempt == entry.attempt
        && (c.runner_id == entry.runner_id
            && (c.fingerprint == entry.task_fingerprint
                && some c.conversation_id == entry.conversation_id)))

module _ (digest : Capture → String) where
  -- `load_capture`; `none` is a capture file that is missing or no JSON document of that kind
  unfoldable pub load_capture : Option Capture → SubmissionJournal → Outcome CapturedConversation
  unfolding is_of_attempt
  load_capture none entry = raised (recovery_incomplete "durable conversation checkpoint invalid")
  load_capture (some c) entry =
      if not (some (digest c) == entry.capture_sha256)
      then raised (recovery_incomplete "durable conversation checkpoint invalid")
      else if not (is_of_attempt c entry)
      then raised (recovery_incomplete "durable conversation checkpoint invalid")
      else ok (captured_in c)

-- superbench/execution.py: `_persist_rate_limit_defer` at the time `now`, the journal file behind it
unfoldable pub persist_rate_limit_defer :
    ℕ → RateLimit → Option SubmissionJournal → JournalFile → JournalFile
unfolding retry_delay
persist_rate_limit_defer now limit none file = file
persist_rate_limit_defer now limit (some pending) file =
    let delay : ℕ =
      max one_second (
        retry_delay limit default_rate_limit_fallback_seconds
          default_rate_limit_fallback_seconds) in
    let not_before : ℕ = now + delay in
    holds (record pending {
      retry_not_before = some (elim pending.retry_not_before [
        | none ↦ not_before
        | some previous ↦ max not_before previous
      ]);
    })

abbrev pub raise_before : ℕ → Option ℕ → Outcome (Unit {0})
raise_before now none = ok tt
raise_before now (some not_before) =
    if ltb now not_before
    then raised (
        rate_limited "ChatGPT recovery is deferred by server Retry-After" (record {
          retry_after_seconds = some (not_before - now);
          endpoint = some "recovery-journal";
          method = some "RECOVER";
          request_id = none;
        }))
    else ok tt

-- superbench/execution.py: `_raise_if_recovery_deferred` at the time `now`
unfoldable pub raise_if_recovery_deferred : ℕ → SubmissionJournal → Outcome (Unit {0})
raise_if_recovery_deferred now pending = raise_before now pending.retry_not_before
