-- ===== src/Runner/Counted.antt =====
-- The log of the calls of Send, and the journal behind a call of Send, through an attempt of
-- Attempt.antt. `settled` is a property of a log that may let the journal go.
use gpt_trace_extractor_for.Base.{ℕ, String, ◌≡◌, ◌∙◌, Option, none, some, Bool, false, ◌∷◌, List}
use native.Mathlib.Omega.{arith}
use gpt_trace_extractor_for.Exceptions.{Exn, Outcome}
use gpt_trace_extractor_for.Exec.{modify}
use gpt_trace_extractor_for.Exec.Keeps.{Keeps, keeping}
use gpt_trace_extractor_for.Journal.{Phase, absent, SubmissionJournal}
use gpt_trace_extractor_for.Runner.{
  Task, World, Services, Call, Event, called, is_click, clicks, request, clear_journal,
  write_journal, set_phase,
}
use gpt_trace_extractor_for.Runner.Attempt.{
  Attempt, enter, prepare_apps, start_row, prepare_benchmark, prepare_attempt, ensure_session,
  attempt_failed,
}
use gpt_trace_extractor_for.Runner.Phases.{IsStable}

pub clicks_other :
    (c : Call) (b : Bool) (log : List Event)
    → is_click c ≡ false
    → clicks (called c b ∷ log) ≡ clicks log
clicks_other c b log h = ground arith

-- Send was called `n` times.
pub record Clicked (n : ℕ) (s : World) : Type 0 where
  pub count : clicks s.log ≡ n

pub Clicked-IsStable : (n : ℕ) → IsStable (Clicked n)
Clicked-IsStable n = record {
  log = λ s c b h k. record { count = clicks_other c b s.log h ∙ k.count };
  phase = λ s p h k. record { count = k.count };
  capture = λ s c k. record { count = k.count };
  write = λ s e h k. record { count = k.count };
}

pub Clicked-free : (n : ℕ) (s : World) → Clicked n s → Clicked n (record s { journal = absent })
Clicked-free n s k = record { count = k.count }

module _ {n : ℕ} where
  pub request-Clicked :
      {A : Type 0} (c : Call) (f : World → Outcome A)
      → is_click c ≡ false
      → Keeps (Clicked n) (request c f)
  unfolding request
  request-Clicked c f h = record {
    keep = λ s k. record { count = clicks_other c _ s.log h ∙ k.count };
  }

  pub write-Clicked : (e : SubmissionJournal) → Keeps (Clicked n) (write_journal e)
  unfolding write_journal
  write-Clicked e = record { keep = λ s k. record { count = k.count } }

  pub modify-Clicked :
      (f : World → World)
      → ((s : World) → clicks (f s).log ≡ clicks s.log)
      → Keeps (Clicked n) (modify f)
  unfolding modify
  modify-Clicked f h = record { keep = λ s k. record { count = h s ∙ k.count } }

  enter-Clicked :
      (v : Services) (task : Task) (a : Attempt) (p : Phase) (c u : Option String)
      → Keeps (Clicked n) (enter v task a p c u)
  unfolding enter set_phase
  enter-Clicked v task a p c u = search (keeping, write-Clicked, modify-Clicked)

  ensure_session-Clicked : (v : Services) → Keeps (Clicked n) (ensure_session v)
  unfolding ensure_session
  ensure_session-Clicked v = search (keeping, request-Clicked, modify-Clicked) depth 9

  start_row-Clicked :
      (v : Services) (task : Task) (a : Attempt) → Keeps (Clicked n) (start_row v task a)
  unfolding start_row
  start_row-Clicked v task a = search (keeping, request-Clicked, modify-Clicked) depth 9

  prepare_apps-Clicked :
      (v : Services) (task : Task) (a : Attempt) (o : Option SubmissionJournal)
      → Keeps (Clicked n) (prepare_apps v task a o)
  unfolding prepare_apps
  prepare_apps-Clicked v task a none = search (keeping, request-Clicked, start_row-Clicked)
  prepare_apps-Clicked v task a (some e) = search (keeping, request-Clicked)

  prepare_benchmark-Clicked :
      (v : Services) (task : Task) (a : Attempt) → Keeps (Clicked n) (prepare_benchmark v task a)
  unfolding prepare_benchmark
  prepare_benchmark-Clicked v task a = search (keeping, request-Clicked, enter-Clicked) depth 9

  pub prepare_attempt-Clicked :
      (v : Services) (task : Task) (a : Attempt) → Keeps (Clicked n) (prepare_attempt v task a)
  unfolding prepare_attempt
  prepare_attempt-Clicked v task a =
      search
        (
          keeping, prepare_apps-Clicked, enter-Clicked, prepare_benchmark-Clicked,
          ensure_session-Clicked, request-Clicked,
        )
        depth 12

  clear-Clicked : Keeps (Clicked n) clear_journal
  unfolding clear_journal
  clear-Clicked = record { keep = λ s k. record { count = k.count } }

  pub attempt_failed-Clicked :
      (v : Services) (task : Task) (a : Attempt) (e : Exn)
      → Keeps (Clicked n) (attempt_failed v task a e)
  unfolding attempt_failed
  attempt_failed-Clicked v task a e = search (keeping, request-Clicked, clear-Clicked) depth 12
