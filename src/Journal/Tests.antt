-- ===== src/Journal/Tests.antt =====
-- A checkpoint and a deferral of journal.py, and the theorems at them.
use gpt_trace_extractor_for.Base.{
  ◌+◌, ◌≤◌, ◌≡◌, refl, ◌↔◌, String, none, some, Bool, true, false, ◌==◌, nat_eq, string_eq,
  option_eq, arith, eq_iff, nat_beq_iff, option_beq_iff,
}
use gpt_trace_extractor_for.Exceptions.{RateLimit, ok}
use gpt_trace_extractor_for.Json.{Value, null, is_null}
use gpt_trace_extractor_for.Journal.{
  submission_started, SubmissionJournal, CapturedConversation, Capture, capture_of, holds,
  persist_rate_limit_defer, raise_if_recovery_deferred,
}
use gpt_trace_extractor_for.Journal.Captures.{
  Identifies, load_capture-capture_of, load_capture_sound,
}
use gpt_trace_extractor_for.Journal.Deferral.{deferred, deferral, deferral_exact}

abbrev entry : SubmissionJournal
entry = record {
  task_id = "a";
  runner_id = "r";
  attempt = 1;
  phase = submission_started;
  conversation_id = none;
  task_fingerprint = some "f";
  app_environments = null;
  resolved_app_names = null;
  user_message_id = some "u";
  retry_not_before = some 30;
  capture_sha256 = none;
  candidate = none;
  evaluator = none;
}

abbrev captured : CapturedConversation
captured = record { conversation_id = "c"; messages = null; runtime_metadata = null }

abbrev capture : Capture
capture = record {
  task_id = "a";
  attempt = 1;
  runner_id = "r";
  fingerprint = some "f";
  conversation_id = "c";
  messages = null;
  runtime_metadata = null;
}

-- a digest that tells one capture from the others
abbrev guard : Bool → String → String
guard true s = s
guard false s = "0"

abbrev digest : Capture → String
digest c = guard (c.task_id == "a") (
    guard (c.attempt == 1) (
      guard (c.runner_id == "r") (
        guard (c.fingerprint == some "f") (
          guard (c.conversation_id == "c")
            (guard (is_null c.messages) (guard (is_null c.runtime_metadata) "1"))))))

guard_one : (b : Bool) (s : String) → guard b s ≡ "1" → (b ≡ true) × (s ≡ "1")
guard_one true s h = (refl, h)
guard_one false s h = ground (arith, eq_iff "0" "1")

is_null_lem : (x : Value) → is_null x ≡ true → x ≡ null
is_null_lem null h = refl
is_null_lem x h = ground arith

digest-Identifies : Identifies digest capture
digest-Identifies c h =
    let a = guard_one _ _ h in
    let b = guard_one _ _ a.1 in
    let d = guard_one _ _ b.1 in
    let e = guard_one _ _ d.1 in
    let f = guard_one _ _ e.1 in
    let g = guard_one _ _ f.1 in
    let k = guard_one _ _ g.1 in
    λ i. record {
      task_id = (eq_iff c.task_id "a").0 a.0 i;
      attempt = (nat_beq_iff c.attempt 1).0 b.0 i;
      runner_id = (eq_iff c.runner_id "r").0 d.0 i;
      fingerprint = (option_beq_iff c.fingerprint (some "f")).0 e.0 i;
      conversation_id = (eq_iff c.conversation_id "c").0 f.0 i;
      messages = is_null_lem c.messages g.0 i;
      runtime_metadata = is_null_lem c.runtime_metadata k.0 i;
    }

load_capture_sound_example : captured ≡ captured
unfolding capture_of
load_capture_sound_example =
    load_capture_sound digest (some (capture_of captured entry)) captured entry captured
      digest-Identifies (load_capture-capture_of digest captured entry)

abbrev limit : RateLimit
limit = record { retry_after_seconds = some 20; endpoint = none; method = none; request_id = none }

deferral_exact_example :
    (raise_if_recovery_deferred 40 (deferred 15 limit entry) ≡ ok tt)
    ↔ ((15 + deferral limit ≤ 40) × (raise_if_recovery_deferred 40 entry ≡ ok tt))
unfolding persist_rate_limit_defer
deferral_exact_example =
    deferral_exact 15 40 limit entry (deferred 15 limit entry) (holds entry) refl
