-- ===== src/Exec.antt =====
-- Python code that acts on a state and may raise: what was done before an exception stays done. The
-- exceptions are those of Exceptions.antt.
pub mod Keeps
pub mod Handlers
use gpt_trace_extractor_for.Base.{Bool, true, false, if◌then◌else◌}
use gpt_trace_extractor_for.Exceptions.{
  Exn, keyboard_interrupt, cancelled_error, Outcome, ok, raised,
}

abbrev pub Exec : Type 0 → Type 0 → Type 0
Exec S A = S → Outcome A × S

module _ {S A : Type 0} where
  unfoldable pub return : A → Exec S A
  return a s = (ok a, s)

  unfoldable pub throw : Exn → Exec S A
  throw e s = (raised e, s)

  -- the outcome of something that leaves the state alone
  unfoldable pub from : (S → Outcome A) → Exec S A
  from f s = (f s, s)

-- `state = …`
unfoldable pub modify : {S : Type 0} → (S → S) → Exec S (Unit {0})
modify f s = (ok tt, f s)

module _ {S A B : Type 0} where
  abbrev pub after : (A → Exec S B) → Outcome A × S → Outcome B × S
  after f (ok a, s) = f a s
  after f (raised e, s) = (raised e, s)

  infixl 5 ◌>>=◌ ◌>>◌
  unfoldable pub ◌>>=◌ : Exec S A → (A → Exec S B) → Exec S B
  unfolding return throw from
  ◌>>=◌ m f s = after f (m s)

  abbrev pub ◌>>◌ : Exec S A → Exec S B → Exec S B
  m >> n = m >>= λ _. n

-- `except Exception` takes what derives from `Exception`.
unfoldable pub is_exception : Exn → Bool
is_exception keyboard_interrupt = false
is_exception cancelled_error = false
is_exception _ = true

module _ {S A : Type 0} where
  abbrev pub handled_if : Bool → (Exn → Exec S A) → Exn → Exec S A
  handled_if true h e s = h e s
  handled_if false h e s = (raised e, s)

  abbrev pub handled : (Exn → Exec S A) → Outcome A × S → Outcome A × S
  handled h (ok a, s) = (ok a, s)
  handled h (raised e, s) = handled_if (is_exception e) h e s

  -- `try: m`, `except Exception as e: h e`
  unfoldable pub catch : Exec S A → (Exn → Exec S A) → Exec S A
  unfolding is_exception
  catch m h s = handled h (m s)

-- `if test: m`
abbrev pub when : {S : Type 0} → Bool → Exec S (Unit {0}) → Exec S (Unit {0})
when true m = m
when false m = return tt

module _ {S A : Type 0} where
  abbrev pub handled_all : (Exn → Exec S A) → Outcome A × S → Outcome A × S
  handled_all h (ok a, s) = (ok a, s)
  handled_all h (raised e, s) = h e s

  -- `try: m`, `except BaseException as e: h e`
  unfoldable pub catch_all : Exec S A → (Exn → Exec S A) → Exec S A
  catch_all m h s = handled_all h (m s)

  -- an exception of the `finally` replaces what the block did
  abbrev pub replaced : Outcome A → Outcome (Unit {0}) × S → Outcome A × S
  replaced r (ok u, s) = (r, s)
  replaced r (raised e, s) = (raised e, s)

  abbrev pub finished : Exec S (Unit {0}) → Outcome A × S → Outcome A × S
  finished f (r, s) = replaced r (f s)

  -- `try: m`, `finally: f`
  unfoldable pub finally : Exec S A → Exec S (Unit {0}) → Exec S A
  finally m f s = finished f (m s)
