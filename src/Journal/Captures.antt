-- ===== src/Journal/Captures.antt =====
-- `write_capture` and `load_capture` of journal.py: the captured conversation behind a checkpoint.
use gpt_trace_extractor_for.Base.{
  String, ◌≡◌, refl, ap, ◌∙◌, sym, Option, none, some, string_eq, nat_eq, option_eq, arith,
  beq_refl,
}
use mathlib.Core.Option.{some-injective}
use gpt_trace_extractor_for.Exceptions.{ok}
use gpt_trace_extractor_for.Journal.{
  SubmissionJournal, Capture, CapturedConversation, capture_of, captured_in, is_of_attempt,
  load_capture,
}

-- the entry that a checkpoint of the conversation writes
abbrev pub checkpointed :
    (Capture → String) → CapturedConversation → SubmissionJournal → SubmissionJournal
checkpointed digest captured entry = record entry {
  conversation_id = some captured.conversation_id;
  capture_sha256 = some (digest (capture_of captured entry));
}

-- No other capture has the digest of this one: SHA-256 has no collision with it.
abbrev pub Identifies : (Capture → String) → Capture → Type 0
Identifies digest capture = (c : Capture) → digest c ≡ digest capture → c ≡ capture

captured_in-capture_of :
    (captured : CapturedConversation) (entry : SubmissionJournal)
    → captured_in (capture_of captured entry) ≡ captured
unfolding capture_of
captured_in-capture_of captured entry = refl

module _ (digest : Capture → String) where
  -- A captured conversation that is written with a checkpoint is loaded again as it was.
  pub load_capture-capture_of :
      (captured : CapturedConversation) (entry : SubmissionJournal)
      → load_capture digest (some (capture_of captured entry)) (checkpointed digest captured entry)
        ≡ ok captured
  unfolding load_capture is_of_attempt capture_of
  load_capture-capture_of captured entry = ground (
    arith,
    beq_refl (digest (capture_of captured entry)),
    beq_refl entry.task_id,
    beq_refl entry.attempt,
    beq_refl entry.runner_id,
    beq_refl entry.task_fingerprint,
    beq_refl captured.conversation_id,
  )

  -- the capture has the digest of the entry
  loaded_digest :
      (c : Capture) (entry : SubmissionJournal) (captured : CapturedConversation)
      → load_capture digest (some c) entry ≡ ok captured
      → (some (digest c) ≡ entry.capture_sha256) × captured_in c ≡ captured
  unfolding load_capture
  loaded_digest c entry captured h =
      ground (arith, (option_eq {A = String}).equals_iff (some (digest c)) entry.capture_sha256)

  -- Whatever is in the capture file, if load_capture accepts it for a checkpoint, it gives the
  -- conversation of that checkpoint, when no other capture has the digest of the one written.
  pub load_capture_sound :
      (file : Option Capture) (captured : CapturedConversation) (entry : SubmissionJournal)
      (loaded : CapturedConversation)
      → Identifies digest (capture_of captured entry)
      → load_capture digest file (checkpointed digest captured entry) ≡ ok loaded
      → loaded ≡ captured
  unfolding load_capture
  load_capture_sound none captured entry loaded free h = ground arith
  load_capture_sound (some c) captured entry loaded free h =
      let both = loaded_digest c (checkpointed digest captured entry) loaded h in
      let same : c ≡ capture_of captured entry = free c (some-injective _ _ both.0) in
      sym both.1 ∙ ap captured_in same ∙ captured_in-capture_of captured entry
