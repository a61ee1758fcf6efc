-- ===== src/Exec/Keeps.antt =====
-- Rules for what a block of calls ensures.
use gpt_trace_extractor_for.Base.{◌≡◌, refl, Bool, true, false, if◌then◌else◌}
use gpt_trace_extractor_for.Exceptions.{Exn, Outcome, ok, raised}
use gpt_trace_extractor_for.Exec.{
  Exec, return, throw, from, ◌>>=◌, after, handled, handled_if, catch, when, is_exception,
}

-- what holds behind a call, by how it ends
abbrev pub Ends : {S A : Type 0} → (A → S → Type 0) → (S → Type 0) → Outcome A × S → Type 0
Ends Q E (ok a, s) = Q a s
Ends Q E (raised e, s) = E s

-- From `P` the block returns with `Q` or raises with `E`.
pub record Ensures {S A : Type 0} (P : S → Type 0) (Q : A → S → Type 0) (E : S → Type 0)
    (m : Exec S A) : Type 0 where
  pub run : (s : S) → P s → Ends Q E (m s)

-- The block keeps `P`, whether it returns or raises.
pub record Keeps {S A : Type 0} (P : S → Type 0) (m : Exec S A) : Type 0 where
  pub keep : (s : S) → P s → P (m s).1

module _ {S A B : Type 0} {Q : A → S → Type 0} {R : B → S → Type 0} {E : S → Type 0} where
  after-Ends :
      (f : A → Exec S B) (r : Outcome A × S)
      → Ends Q E r
      → ((a : A) → Ensures (Q a) R E (f a))
      → Ends R E (after f r)
  after-Ends f (ok a, s) h k = (k a).run s h
  after-Ends f (raised e, s) h k = h

  pub Ensures-bind :
      {P : S → Type 0} (m : Exec S A) (f : A → Exec S B)
      → Ensures P Q E m
      → ((a : A) → Ensures (Q a) R E (f a))
      → Ensures P R E (m >>= f)
  unfolding ◌>>=◌
  Ensures-bind m f h k = record { run = λ s p. after-Ends f (m s) (h.run s p) k }

module _ {S A : Type 0} {P E : S → Type 0} where
  kept-Ends :
      {Q : A → S → Type 0} (r : Outcome A × S)
      → P r.1
      → ((a : A) (s : S) → P s → Q a s)
      → ((s : S) → P s → E s)
      → Ends Q E r
  kept-Ends (ok a, s) h q e = q a s h
  kept-Ends (raised x, s) h q e = e s h

  -- a block that keeps `P`, among blocks that ensure more
  pub Ensures-Keeps : (m : Exec S A) → Keeps P m → ((s : S) → P s → E s) → Ensures P (λ _. P) E m
  Ensures-Keeps m k e = record { run = λ s h. kept-Ends (m s) (k.keep s h) (λ a t p. p) e }

module _ {S A : Type 0} {P : S → Type 0} where
  ended-Keeps :
      {Q : A → S → Type 0} (r : Outcome A × S)
      → Ends Q P r
      → ((a : A) (s : S) → Q a s → P s)
      → P r.1
  ended-Keeps (ok a, s) h q = q a s h
  ended-Keeps (raised e, s) h q = h

  pub Keeps-Ensures :
      {I : S → Type 0} {Q : A → S → Type 0} (m : Exec S A)
      → ((s : S) → P s → I s)
      → Ensures I Q P m
      → ((a : A) (s : S) → Q a s → P s)
      → Keeps P m
  Keeps-Ensures m i h q = record { keep = λ s p. ended-Keeps (m s) (h.run s (i s p)) q }

  pub Keeps-return : (a : A) → Keeps P (return a)
  unfolding return
  Keeps-return a = record { keep = λ s h. h }

  pub Keeps-throw : (e : Exn) → Keeps P (throw {A = A} e)
  unfolding throw
  Keeps-throw e = record { keep = λ s h. h }

  pub Keeps-from : (f : S → Outcome A) → Keeps P (from f)
  unfolding from
  Keeps-from f = record { keep = λ s h. h }

  pub Keeps-if : (b : Bool) (m n : Exec S A) → Keeps P m → Keeps P n → Keeps P (if b then m else n)
  Keeps-if true m n h k = h
  Keeps-if false m n h k = k

  handled_if_keeps :
      (b : Bool) (h : Exn → Exec S A) (e : Exn) (s : S)
      → P s
      → Keeps P (h e)
      → P (handled_if b h e s).1
  handled_if_keeps true h e s p k = k.keep s p
  handled_if_keeps false h e s p k = p

  handled_keeps :
      (h : Exn → Exec S A) (r : Outcome A × S)
      → P r.1
      → ((e : Exn) → Keeps P (h e))
      → P (handled h r).1
  handled_keeps h (ok a, s) p k = p
  handled_keeps h (raised e, s) p k = handled_if_keeps (is_exception e) h e s p (k e)

  pub Keeps-catch :
      (m : Exec S A) (h : Exn → Exec S A)
      → Keeps P m
      → ((e : Exn) → Keeps P (h e))
      → Keeps P (catch m h)
  unfolding catch
  Keeps-catch m h km kh = record { keep = λ s p. handled_keeps h (m s) (km.keep s p) kh }

  rest_keeps :
      {B : Type 0} (next : B → Exec S A) (end : Outcome B × S)
      → P end.1
      → ((b : B) → Keeps P (next b))
      → P (after next end).1
  rest_keeps next (ok b, s) p each = (each b).keep s p
  rest_keeps next (raised e, s) p each = p

  pub Keeps-then :
      {B : Type 0} (first : Exec S B) (next : B → Exec S A)
      → Keeps P first
      → ((b : B) → Keeps P (next b))
      → Keeps P (first >>= next)
  unfolding ◌>>=◌
  Keeps-then first next k each = record {
    keep = λ s p. rest_keeps next (first s) (k.keep s p) each;
  }

module _ {S : Type 0} {P : S → Type 0} where
  pub Keeps-when : (b : Bool) (m : Exec S (Unit {0})) → Keeps P m → Keeps P (when b m)
  Keeps-when true m k = k
  Keeps-when false m k = Keeps-return tt

pub ruleset keeping =
    (Keeps-catch, Keeps-when, Keeps-if, Keeps-then, Keeps-from, Keeps-throw, Keeps-return)

-- From `P` the block leads to `R`, whether it returns or raises.
abbrev pub Leads : {S A : Type 0} → (S → Type 0) → (S → Type 0) → Exec S A → Type 0
Leads P R m = Ensures P (λ _. R) R m

module _ {S A : Type 0} {P R : S → Type 0} where
  pub Leads-Keeps : (weak : (s : S) → P s → R s) (m : Exec S A) → Keeps P m → Leads P R m
  Leads-Keeps weak m k = record {
    run = λ s p. kept-Ends (m s) (k.keep s p) (λ a t q. weak t q) weak;
  }

  pub Leads-if :
      (b : Bool) (m n : Exec S A)
      → (b ≡ true → Leads P R m)
      → Leads P R n
      → Leads P R (if b then m else n)
  Leads-if true m n h k = h refl
  Leads-if false m n h k = k

  pub Leads-bind :
      {B : Type 0} (weak : (s : S) → P s → R s) (m : Exec S B) (f : B → Exec S A)
      → Keeps P m
      → ((b : B) → Leads P R (f b))
      → Leads P R (m >>= f)
  Leads-bind weak m f k h = Ensures-bind m f (Ensures-Keeps m k weak) h

module _ {S A : Type 0} {Q : A → S → Type 0} {E : S → Type 0} where
  raised-Ends :
      (b : Bool) (h : Exn → Exec S A) (e : Exn) (s : S)
      → E s
      → Ensures E Q E (h e)
      → Ends Q E (handled_if b h e s)
  raised-Ends true h e s p k = k.run s p
  raised-Ends false h e s p k = p

  handled-Ends :
      (h : Exn → Exec S A) (r : Outcome A × S)
      → Ends Q E r
      → ((e : Exn) → Ensures E Q E (h e))
      → Ends Q E (handled h r)
  handled-Ends h (ok a, s) p k = p
  handled-Ends h (raised e, s) p k = raised-Ends (is_exception e) h e s p (k e)

  pub Ensures-catch :
      {P : S → Type 0} (m : Exec S A) (h : Exn → Exec S A)
      → Ensures P Q E m
      → ((e : Exn) → Ensures E Q E (h e))
      → Ensures P Q E (catch m h)
  unfolding catch
  Ensures-catch m h km kh = record { run = λ s p. handled-Ends h (m s) (km.run s p) kh }

  pub Ensures-weaken :
      {P I : S → Type 0} (m : Exec S A) → ((s : S) → I s → P s) → Ensures P Q E m → Ensures I Q E m
  Ensures-weaken m w k = record { run = λ s p. k.run s (w s p) }

module _ {S A : Type 0} {Q R : A → S → Type 0} {E F : S → Type 0} where
  pub Ends-weaken :
      (r : Outcome A × S)
      → Ends Q E r
      → ((a : A) (s : S) → Q a s → R a s)
      → ((s : S) → E s → F s)
      → Ends R F r
  Ends-weaken (ok a, s) h q e = q a s h
  Ends-weaken (raised x, s) h q e = e s h

  pub Ensures-post :
      {P : S → Type 0} (m : Exec S A)
      → Ensures P Q E m
      → ((a : A) (s : S) → Q a s → R a s)
      → ((s : S) → E s → F s)
      → Ensures P R F m
  Ensures-post m h q e = record { run = λ s p. Ends-weaken (m s) (h.run s p) q e }

module _ {S A : Type 0} where
  ends_all : (R : S → Type 0) (r : Outcome A × S) → Ends (λ _. R) R r → R r.1
  ends_all R (ok a, s) h = h
  ends_all R (raised e, s) h = h

  pub Leads-end : {P R : S → Type 0} (m : Exec S A) → Leads P R m → (s : S) → P s → R (m s).1
  Leads-end m h s p = ends_all _ (m s) (h.run s p)
