-- ===== src/Runner/Phases.antt =====
-- The phases of the journal behind the click of Send, and what the calls of runner.py keep.
use gpt_trace_extractor_for.Base.{ℕ, String, ◌≡◌, Option, none, some, Bool, true, false, ◌∷◌}
use gpt_trace_extractor_for.Exceptions.{Outcome}
use gpt_trace_extractor_for.Exec.{modify}
use gpt_trace_extractor_for.Exec.Keeps.{Keeps, keeping, Keeps-from}
use gpt_trace_extractor_for.Journal.{
  Phase, absent, submission_started, conversation_known, conversation_checkpointed,
  candidate_checkpointed, cleanup_pending, SubmissionJournal, holds, CapturedConversation, Capture,
}
use gpt_trace_extractor_for.Runner.{
  Task, World, SubmittedTurn, clear_journal, clear_capture, Services, Call, called, returned,
  is_click, request, write_journal, load_journal, set_phase,
}
use gpt_trace_extractor_for.Runner.Submit.{identify}
use gpt_trace_extractor_for.Runner.Attempt.{
  Attempt, enter, persist_user_message_id, record_attempt, clean_up, checkpoint_capture,
  checkpoint_candidate, evaluate_entry, evaluate_capture,
}

abbrev pub is_submitted : Phase → Bool
is_submitted submission_started = true
is_submitted conversation_known = true
is_submitted conversation_checkpointed = true
is_submitted candidate_checkpointed = true
is_submitted cleanup_pending = true
is_submitted _ = false

-- The predicate does not depend on what the calls behind the click may change.
pub record IsStable (P : World → Type 0) : Type 0 where
  pub log :
      (s : World) (c : Call) (b : Bool)
      → is_click c ≡ false
      → P s
      → P (record s { log = called c b ∷ s.log })
  pub phase : (s : World) (p : Phase) → is_submitted p ≡ true → P s → P (record s { phase = p })
  pub capture : (s : World) (c : Option Capture) → P s → P (record s { capture = c })
  pub write :
      (s : World) (e : SubmissionJournal)
      → is_submitted e.phase ≡ true
      → P s
      → P (record s { journal = holds e })

module _ {P : World → Type 0} (st : IsStable P) where
  pub request-Keeps :
      {A : Type 0} (c : Call) (f : World → Outcome A) → is_click c ≡ false → Keeps P (request c f)
  unfolding request
  request-Keeps c f h = record { keep = λ s p. st.log s c (returned (f s)) h p }

  pub write-Keeps :
      (e : SubmissionJournal) → is_submitted e.phase ≡ true → Keeps P (write_journal e)
  unfolding write_journal
  write-Keeps e h = record { keep = λ s p. st.write s e h p }

  pub load-Keeps : Keeps P load_journal
  unfolding load_journal
  load-Keeps = Keeps-from _

  pub capture-Keeps : (c : Option Capture) → Keeps P (modify (λ s. record s { capture = c }))
  unfolding modify
  capture-Keeps c = record { keep = λ s p. st.capture s c p }

  pub phase-Keeps : (p : Phase) → is_submitted p ≡ true → Keeps P (set_phase p)
  unfolding set_phase
  phase-Keeps p h = record { keep = λ s k. st.phase s p h k }

  checkpoint_capture-Keeps :
      (v : Services) (task : Task) (captured : CapturedConversation) (entry : SubmissionJournal)
      → Keeps P (checkpoint_capture v task captured entry)
  unfolding checkpoint_capture
  checkpoint_capture-Keeps v task captured entry = search (keeping, write-Keeps, capture-Keeps)

  checkpoint_candidate-Keeps :
      (v : Services) (task : Task) (entry : SubmissionJournal)
      → Keeps P (checkpoint_candidate v task entry)
  unfolding checkpoint_candidate
  checkpoint_candidate-Keeps v task entry = search (keeping, write-Keeps, request-Keeps)

  evaluate_entry-Keeps :
      (v : Services) (task : Task) (captured : CapturedConversation) (n : ℕ)
      (entry : Option SubmissionJournal)
      → Keeps P (evaluate_entry v task captured n entry)
  unfolding evaluate_entry
  evaluate_entry-Keeps v task captured n none = search (keeping)
  evaluate_entry-Keeps v task captured n (some entry) =
      search (keeping, checkpoint_capture-Keeps, checkpoint_candidate-Keeps, request-Keeps)

  pub evaluate_capture-Keeps :
      (v : Services) (task : Task) (captured : CapturedConversation) (n : ℕ)
      → Keeps P (evaluate_capture v task captured n)
  unfolding evaluate_capture
  evaluate_capture-Keeps v task captured n =
      search (keeping, evaluate_entry-Keeps, load-Keeps, request-Keeps)

  enter-Keeps :
      (v : Services) (task : Task) (a : Attempt) (p : Phase) (c u : Option String)
      → is_submitted p ≡ true
      → Keeps P (enter v task a p c u)
  unfolding enter
  enter-Keeps v task a p c u h = search (keeping, phase-Keeps, write-Keeps)

  pub persist-Keeps :
      (v : Services) (task : Task) (a : Attempt) (id : String)
      → Keeps P (persist_user_message_id v task a id)
  unfolding persist_user_message_id
  persist-Keeps v task a id = search (write-Keeps)

  pub identify-Keeps :
      (v : Services) (task : Task) (a : Attempt)
      → Keeps P (identify v (persist_user_message_id v task a))
  unfolding identify
  identify-Keeps v task a = search (keeping, persist-Keeps, request-Keeps) depth 9

  pub record_attempt-Keeps :
      (v : Services) (task : Task) (a : Attempt) (t : SubmittedTurn)
      → Keeps P (record_attempt v task a t)
  unfolding record_attempt
  record_attempt-Keeps v task a t =
      search (keeping, enter-Keeps, evaluate_capture-Keeps, request-Keeps) depth 9

  -- with the journal cleared too
  module _ (free : (s : World) → P s → P (record s { journal = absent })) where
    clear_journal-Keeps : Keeps P clear_journal
    unfolding clear_journal
    clear_journal-Keeps = record { keep = λ s p. free s p }

    clear_capture-Keeps : Keeps P clear_capture
    unfolding clear_capture
    clear_capture-Keeps = record { keep = λ s p. st.capture s none p }

    pub clean_up-Keeps :
        (v : Services) (task : Task) (a : Attempt) (t : SubmittedTurn)
        → Keeps P (clean_up v task a t)
    unfolding clean_up
    clean_up-Keeps v task a t =
        search (keeping, enter-Keeps, request-Keeps, clear_journal-Keeps, clear_capture-Keeps) depth
          9
