-- ===== src/Exec/Handlers.antt =====
-- Rules for `except BaseException` and for `finally`.
use gpt_trace_extractor_for.Base.{◌≡◌, refl, Bool, true, false, if◌then◌else◌}
use gpt_trace_extractor_for.Exceptions.{Exn, Outcome, ok, raised}
use gpt_trace_extractor_for.Exec.{
  Exec, throw, modify, ◌>>=◌, handled_all, catch_all, replaced, finished, finally,
}
use gpt_trace_extractor_for.Exec.Keeps.{
  Ends, Ensures, Keeps, Ensures-Keeps, Ensures-bind, Keeps-Ensures, Leads, keeping,
}

module _ {S : Type 0} {P : S → Type 0} where
  pub Keeps-modify : (f : S → S) → ((s : S) → P s → P (f s)) → Keeps P (modify f)
  unfolding modify
  Keeps-modify f h = record { keep = h }

module _ {S A : Type 0} {Q : A → S → Type 0} {E : S → Type 0} where
  handled_all-Ends :
      (h : Exn → Exec S A) (r : Outcome A × S)
      → Ends Q E r
      → ((e : Exn) → Ensures E Q E (h e))
      → Ends Q E (handled_all h r)
  handled_all-Ends h (ok a, s) p k = p
  handled_all-Ends h (raised e, s) p k = (k e).run s p

  pub Ensures-catch_all :
      {P : S → Type 0} (m : Exec S A) (h : Exn → Exec S A)
      → Ensures P Q E m
      → ((e : Exn) → Ensures E Q E (h e))
      → Ensures P Q E (catch_all m h)
  unfolding catch_all
  Ensures-catch_all m h km kh = record { run = λ s p. handled_all-Ends h (m s) (km.run s p) kh }

module _ {S A : Type 0} (R : A → S → Type 0) (F : S → Type 0) where
  kept_ok :
      (a : A) (q : Outcome (Unit {0}) × S) → Ends (λ _. R a) F q → Ends R F (replaced (ok a) q)
  kept_ok a (ok u, s) h = h
  kept_ok a (raised e, s) h = h

  kept_raised :
      (e : Exn) (q : Outcome (Unit {0}) × S) → Ends (λ _. F) F q → Ends R F (replaced (raised e) q)
  kept_raised e (ok u, s) h = h
  kept_raised e (raised x, s) h = h

module _ {S A : Type 0} {Q R : A → S → Type 0} {E F : S → Type 0} where
  finished-Ends :
      (f : Exec S (Unit {0})) (r : Outcome A × S)
      → Ends Q E r
      → ((a : A) → Ensures (Q a) (λ _. R a) F f)
      → Leads E F f
      → Ends R F (finished f r)
  finished-Ends f (ok a, s) p kq ke = kept_ok R F a (f s) ((kq a).run s p)
  finished-Ends f (raised e, s) p kq ke = kept_raised R F e (f s) (ke.run s p)

  pub Ensures-finally :
      {P : S → Type 0} (m : Exec S A) (f : Exec S (Unit {0}))
      → Ensures P Q E m
      → ((a : A) → Ensures (Q a) (λ _. R a) F f)
      → Leads E F f
      → Ensures P R F (finally m f)
  unfolding finally
  Ensures-finally m f km kq ke = record { run = λ s p. finished-Ends f (m s) (km.run s p) kq ke }

module _ {S A : Type 0} {P : S → Type 0} where
  Leads-self : (m : Exec S A) → Keeps P m → Leads P P m
  Leads-self m k = Ensures-Keeps m k (λ s p. p)

  kept : (m : Exec S A) → Leads P P m → Keeps P m
  kept m h = Keeps-Ensures m (λ s p. p) h (λ a s p. p)

  pub Keeps-catch_all :
      (m : Exec S A) (h : Exn → Exec S A)
      → Keeps P m
      → ((e : Exn) → Keeps P (h e))
      → Keeps P (catch_all m h)
  Keeps-catch_all m h km kh =
      kept _ (Ensures-catch_all m h (Leads-self m km) (λ e. Leads-self (h e) (kh e)))

  pub Keeps-finally :
      (m : Exec S A) (f : Exec S (Unit {0})) → Keeps P m → Keeps P f → Keeps P (finally m f)
  Keeps-finally m f km kf = kept _ (
      Ensures-finally m f (Leads-self m km) (λ a. Ensures-Keeps f kf (λ s p. p))
        (Ensures-Keeps f kf (λ s p. p)))

-- the rules also for `except BaseException` and `finally`
pub ruleset keeping_all = (Keeps-catch_all, Keeps-finally, keeping)

-- From `P` the block raises, with `E`.
abbrev pub Raises : {S A : Type 0} → (S → Type 0) → (S → Type 0) → Exec S A → Type 0
Raises P E m = Ensures P (λ _ _. ⊥) E m

module _ {S A : Type 0} {P E : S → Type 0} where
  pub Raises-throw : ((s : S) → P s → E s) → (e : Exn) → Raises P E (throw {A = A} e)
  unfolding throw
  Raises-throw weak e = record { run = λ s p. weak s p }

  pub Raises-if :
      (b : Bool) (m n : Exec S A) → Raises P E m → Raises P E n → Raises P E (if b then m else n)
  Raises-if true m n h k = h
  Raises-if false m n h k = k

  pub Raises-then :
      {B : Type 0} (weak : (s : S) → P s → E s) (first : Exec S B) (rest : B → Exec S A)
      → Keeps P first
      → ((b : B) → Raises P E (rest b))
      → Raises P E (first >>= rest)
  Raises-then weak first rest k each = Ensures-bind first rest (Ensures-Keeps first k weak) each

module _ {S A : Type 0} {P E : S → Type 0} {Q : A → S → Type 0} where
  pub Ensures-if :
      (b : Bool) (m n : Exec S A)
      → (b ≡ true → Ensures P Q E m)
      → (b ≡ false → Ensures P Q E n)
      → Ensures P Q E (if b then m else n)
  Ensures-if true m n h k = h refl
  Ensures-if false m n h k = k refl

  pub Ensures-throw : ((s : S) → P s → E s) → (e : Exn) → Ensures P Q E (throw {A = A} e)
  unfolding throw
  Ensures-throw weak e = record { run = λ s p. weak s p }
