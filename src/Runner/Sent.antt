-- ===== src/Runner/Sent.antt =====
-- The click of Send in one attempt of Attempt.antt: the durable mark before it, and the handler behind it.
use gpt_trace_extractor_for.Base.{
  ℕ, ◌≡◌, refl, ◌≤◌, Option, Bool, true, false, ◌∷◌, List, suc, ◌⊎◌, inl, inr,
}
use native.Mathlib.Omega.{arith}
use gpt_trace_extractor_for.Exceptions.{Exn, Outcome, ok, raised}
use gpt_trace_extractor_for.Exec.{from, throw, modify, ◌>>=◌, ◌>>◌}
use gpt_trace_extractor_for.Exec.Keeps.{
  keeping, Ends, Leads, Ensures, Ensures-bind, Ensures-catch, Ensures-Keeps, Ensures-post,
  Keeps-from,
}
use gpt_trace_extractor_for.Journal.{Phase, JournalFile, absent, unreadable, holds}
use gpt_trace_extractor_for.Runner.{
  Task, World, StoredRun, SubmittedTurn, Services, Call, Event, called, returned, clicks, request,
  write_journal, set_phase, click_send, observe_response, storage_complete,
}
use gpt_trace_extractor_for.Runner.Submit.{
  submit_task, check_observer, ready_to_send, click_and_wait, submission_failed,
}
use gpt_trace_extractor_for.Runner.Attempt.{
  Attempt, is_starting, is_early, enter, mark_submission_started, persist_user_message_id,
  finish_attempt, attempt_body, attempt_failed, run_attempt,
}
use gpt_trace_extractor_for.Runner.Phases.{
  is_submitted, IsStable, identify-Keeps, record_attempt-Keeps, clean_up-Keeps, request-Keeps,
}
use gpt_trace_extractor_for.Runner.Counted.{
  request-Clicked, modify-Clicked, Clicked, clicks_other, prepare_attempt-Clicked,
  attempt_failed-Clicked,
}

-- The journal is in a phase behind the click, or it is gone and the log is settled.
abbrev pub Kept : (List Event → Bool) → JournalFile → List Event → Type 0
Kept settled absent log = settled log ≡ true
Kept settled unreadable log = ⊥
Kept settled (holds e) log = is_submitted e.phase ≡ true

-- a settled log stays so, and a log is settled when storage has the completed row
pub record IsSettling (settled : List Event → Bool) : Type 0 where
  pub more :
      (c : Call) (b : Bool) (log : List Event)
      → settled log ≡ true
      → settled (called c b ∷ log) ≡ true
  pub done : (log : List Event) → settled (called storage_complete true ∷ log) ≡ true

-- Send was called once more than `n` times, or not.
pub record Sent (settled : List Event → Bool) (n : ℕ) (s : World) : Type 0 where
  pub few : clicks s.log ≤ suc n
  pub kept : Kept settled s.journal s.log

-- the same within an attempt
pub record Sending (settled : List Event → Bool) (n : ℕ) (s : World) : Type 0 where
  pub sent : Sent settled n s
  pub phase : is_submitted s.phase ≡ true

-- an attempt that has not called Send, or has
abbrev pub Either : (List Event → Bool) → ℕ → World → Type 0
Either settled n s = Clicked n s ⊎ Sending settled n s

-- with the completed row
pub record Stored (settled : List Event → Bool) (n : ℕ) (s : World) : Type 0 where
  pub sending : Sending settled n s
  pub stored : settled s.log ≡ true

-- before the click, with the durable mark
pub record Ready (settled : List Event → Bool) (n : ℕ) (s : World) : Type 0 where
  pub sending : Sending settled n s
  pub clicked : Clicked n s

Kept-more :
    {settled : List Event → Bool}
    → IsSettling settled
    → (j : JournalFile) (c : Call) (b : Bool) (log : List Event) → Kept settled j log
    → Kept settled j (called c b ∷ log)
Kept-more st absent c b log h = st.more c b log h
Kept-more st unreadable c b log h = elim h [ ]
Kept-more st (holds e) c b log h = h

submitted_late : (p : Phase) → is_submitted p ≡ true → is_starting p ≡ false × is_early p ≡ false
submitted_late p h = (ground arith, ground arith)

-- the handler leaves an attempt that has called Send as it is
pub attempt_failed-late :
    (v : Services) (task : Task) (a : Attempt) (e : Exn) (s : World)
    → is_submitted s.phase ≡ true
    → attempt_failed v task a e s ≡ (raised e, s)
unfolding attempt_failed from throw ◌>>=◌
attempt_failed-late v task a e s h =
    rw ((submitted_late s.phase h).0, (submitted_late s.phase h).1) ground arith

sent_ends : {S A : Type 0} (P : S → Type 0) (o : Outcome A) (s : S) → P s → Ends (λ _. P) P (o, s)
sent_ends P (ok a) s h = h
sent_ends P (raised e) s h = h

module _ {settled : List Event → Bool} (st : IsSettling settled) {n : ℕ} where
  pub Sent-IsStable : IsStable (Sent settled n)
  Sent-IsStable = record {
    log = λ s c b h k. record {
      few = (let e = clicks_other c b s.log h in let f = k.few in omega arith);
      kept = Kept-more st s.journal c b s.log k.kept;
    };
    phase = λ s p h k. record { few = k.few; kept = k.kept };
    capture = λ s c k. record { few = k.few; kept = k.kept };
    write = λ s e h k. record { few = k.few; kept = h };
  }

  Sending-IsStable : IsStable (Sending settled n)
  Sending-IsStable = record {
    log = λ s c b h k. record { sent = Sent-IsStable.log s c b h k.sent; phase = k.phase };
    phase = λ s p h k. record { sent = Sent-IsStable.phase s p h k.sent; phase = h };
    capture = λ s c k. record { sent = Sent-IsStable.capture s c k.sent; phase = k.phase };
    write = λ s e h k. record { sent = Sent-IsStable.write s e h k.sent; phase = k.phase };
  }

  Stored-IsStable : IsStable (Stored settled n)
  Stored-IsStable = record {
    log = λ s c b h k. record {
      sending = Sending-IsStable.log s c b h k.sending;
      stored = st.more c b s.log k.stored;
    };
    phase =
        λ s p h k. record { sending = Sending-IsStable.phase s p h k.sending; stored = k.stored };
    capture =
        λ s c k. record { sending = Sending-IsStable.capture s c k.sending; stored = k.stored };
    write =
        λ s e h k. record { sending = Sending-IsStable.write s e h k.sending; stored = k.stored };
  }

  Stored-free : (s : World) → Stored settled n s → Stored settled n (record s { journal = absent })
  Stored-free s k = record {
    sending = record {
      sent = record { few = k.sending.sent.few; kept = k.stored };
      phase = k.sending.phase;
    };
    stored = k.stored;
  }

  module _ (v : Services) (task : Task) (a : Attempt) where
    complete_ends :
        (o : Outcome (Unit {0})) (s : World)
        → Sending settled n s
        → Ends
            (λ _. Stored settled n)
            (Sending settled n)
            (o, record s { log = called storage_complete (returned o) ∷ s.log })
    complete_ends (ok u) s k = record {
      sending = Sending-IsStable.log s storage_complete true refl k;
      stored = st.done s.log;
    }
    complete_ends (raised e) s k = Sending-IsStable.log s storage_complete false refl k

    complete_Stored :
        Ensures
          (Sending settled n)
          (λ _. Stored settled n)
          (Sending settled n)
          (request storage_complete (v.done storage_complete))
    unfolding request
    complete_Stored = record { run = λ s k. complete_ends (v.done storage_complete s) s k }

    mark_Ready :
        Ensures (Clicked n) (λ _. Ready settled n) (Clicked n) (mark_submission_started v task a)
    unfolding mark_submission_started enter set_phase write_journal modify ◌>>=◌
    mark_Ready = record {
      run = λ s k. record {
        sending = record {
          sent = record { few = (let e = k.count in omega arith); kept = refl };
          phase = refl;
        };
        clicked = record { count = k.count };
      };
    }

    click_Sending :
        Ensures
          (Ready settled n)
          (λ _. Sending settled n)
          (Sending settled n)
          (request click_send (v.done click_send))
    unfolding request
    click_Sending = record {
      run = λ s k. sent_ends (Sending settled n) (v.done click_send s) _ (record {
        sent = record {
          few = (let e = k.clicked.count in omega arith);
          kept = Kept-more st s.journal click_send _ s.log k.sending.sent.kept;
        };
        phase = k.sending.phase;
      });
    }

    click_and_wait-Sending :
        Ensures (Ready settled n) (λ _. Sending settled n) (Sending settled n) (click_and_wait v)
    unfolding click_and_wait
    click_and_wait-Sending = Ensures-bind _ _ click_Sending (λ _.
        Ensures-Keeps _
          (request-Keeps Sending-IsStable observe_response (v.done observe_response) refl)
          (λ s k. k))

    -- the click behind the mark
    send_Sending :
        Ensures
          (Clicked n)
          (λ _. Sending settled n)
          (Either settled n)
          (ready_to_send v >> mark_submission_started v task a >> click_and_wait v)
    unfolding ready_to_send
    send_Sending =
        Ensures-bind (ready_to_send v >> mark_submission_started v task a) _
          (Ensures-bind (ready_to_send v) _
            (Ensures-Keeps _ (search (keeping, request-Clicked)) (λ s k. inl k))
            (λ _. Ensures-post _ mark_Ready (λ _ s k. k) (λ s k. inl k)))
          (λ _. Ensures-post _ click_and_wait-Sending (λ _ s k. k) (λ s k. inr k))

    failed_raises :
        {Q : Unit {0} → World → Type 0} (e : Exn)
        → Ensures (Either settled n) Q (Either settled n) (submission_failed v e)
    unfolding submission_failed from
    failed_raises e = record { run = λ s k. k }

    submit_Sending :
        Ensures
          (Clicked n)
          (λ _. Sending settled n)
          (Either settled n)
          (submit_task v (mark_submission_started v task a) (persist_user_message_id v task a))
    unfolding submit_task check_observer
    submit_Sending =
        Ensures-bind _ _ (Ensures-Keeps (check_observer v) (Keeps-from _) (λ s k. inl k)) (λ _.
          Ensures-bind _ _ (Ensures-catch _ _ send_Sending (λ e. failed_raises e))
            (λ _. Ensures-Keeps _ (identify-Keeps Sending-IsStable v task a) (λ s k. inr k)))

    finish_Sending :
        (t : SubmittedTurn)
        → Ensures
            (Sending settled n)
            (λ _. Sending settled n)
            (Sending settled n)
            (finish_attempt v task a t)
    unfolding finish_attempt
    finish_Sending t =
        Ensures-bind _ _
          (Ensures-Keeps _ (record_attempt-Keeps Sending-IsStable v task a t) (λ s k. k))
          (λ _. Ensures-bind _ _ complete_Stored (λ _.
            Ensures-post _
              (Ensures-Keeps _ (clean_up-Keeps Stored-IsStable Stored-free v task a t)
                (λ s k. k.sending))
              (λ _ s k. k.sending) (λ s k. k)))

    body_Either : Leads (Clicked n) (Either settled n) (attempt_body v task a)
    unfolding attempt_body
    body_Either =
        Ensures-bind _ _ (Ensures-Keeps _ (prepare_attempt-Clicked v task a) (λ s k. inl k)) (λ _.
          Ensures-bind _ _ submit_Sending
            (λ t. Ensures-post _ (finish_Sending t) (λ _ s k. inr k) (λ s k. inr k)))

    failed_Either :
        (e : Exn) (s : World)
        → Either settled n s
        → Either settled n (attempt_failed v task a e s).1
    failed_Either e s (inl k) = inl ((attempt_failed-Clicked v task a e).keep s k)
    failed_Either e s (inr k) = rw (attempt_failed-late v task a e s k.phase) (inr k)

    -- an attempt, new or resumed
    pub run_attempt-Either :
        (row : Option StoredRun) → Leads (Clicked n) (Either settled n) (run_attempt v task a row)
    unfolding run_attempt
    run_attempt-Either row =
        Ensures-bind _ _ (Ensures-Keeps _ (modify-Clicked _ (λ s. refl)) (λ s k. inl k)) (λ _.
          Ensures-catch _ _ body_Either
            (λ e. Ensures-Keeps _ (record { keep = failed_Either e }) (λ s k. k)))
