-- ===== src/Broker/Reading.antt =====
-- The loop of chunks of the broker and of its clients, `read_all`.
use gpt_trace_extractor_for.Base.{
  ℕ, ◌+◌, ◌-◌, ◌≤◌, ◌≡◌, refl, ap, Bool, true, false, ◌||◌, [], ◌++◌, length, length-append, min,
  ltb, ◌==◌, nat_eq, if◌then◌else◌, arith, suc, zero,
}
use gpt_trace_extractor_for.Exceptions.{Exn, value_error}
use gpt_trace_extractor_for.Exec.{Exec, return, throw, ◌>>=◌}
use gpt_trace_extractor_for.Exec.Keeps.{Keeps, Ensures, Ensures-bind, Ensures-Keeps}
use gpt_trace_extractor_for.Broker.{Bytes, chunk_bytes, read_all}

-- a chunk that the loop takes
abbrev is_refused : Bytes → ℕ → Bytes → Bool
is_refused read size chunk =
    length chunk == 0 || ltb (min chunk_bytes (size - length read)) (length chunk)

taken :
    (read chunk : Bytes) (size : ℕ)
    → is_refused read size chunk ≡ false
    → (1 ≤ length chunk) × (length chunk ≤ size - length read)
taken read chunk size h = ground arith

module _ {S : Type 0} {P : S → Type 0} (next : ℕ → Exec S Bytes) (size : ℕ)
    (h : (n : ℕ) → Keeps P (next n)) where
  -- what holds when the loop ends
  abbrev Read : Bytes → S → Type 0
  Read bytes s = P s × (length bytes ≡ size)

  step_case :
      (bad : Bool) (fuel : ℕ) (read chunk : Bytes) (e : Exn)
      → (bad ≡ false → Ensures P Read P (read_all next size fuel (read ++ chunk)))
      → Ensures P Read P (if bad then throw e else read_all next size fuel (read ++ chunk))
  unfolding throw
  step_case true fuel read chunk e k = record { run = λ s p. p }
  step_case false fuel read chunk e k = k refl

  loop_case :
      (more : Bool) (m : Exec S Bytes) (read : Bytes)
      → (more ≡ true → Ensures P Read P m)
      → (more ≡ false → length read ≡ size)
      → Ensures P Read P (if more then m else return read)
  unfolding return
  loop_case true m read k e = k refl
  loop_case false m read k e = record { run = λ s p. (p, e refl) }

  pub read_all-run :
      (fuel : ℕ) (read : Bytes)
      → length read ≤ size
      → size ≤ length read + fuel
      → Ensures P Read P (read_all next size fuel read)
  unfolding read_all return
  read_all-run zero read a b = record { run = λ s p. (p, omega arith) }
  read_all-run (suc fuel) read a b =
      loop_case (ltb (length read) size) _ read
        (λ l. Ensures-bind _ _ (Ensures-Keeps _ (h (length read)) (λ s k. k)) (λ chunk.
          step_case (is_refused read size chunk) fuel read chunk _ (λ r.
            let t = taken read chunk size r in
            read_all-run fuel (read ++ chunk) (omega (arith, length-append read chunk, t.0, t.1))
              (omega (arith, length-append read chunk, t.0, t.1)))))
        (λ l. ground arith)

module _ {S : Type 0} (next : ℕ → Exec S Bytes) (size : ℕ) where
  if-congruent :
      (bad : Bool) (m a c : Exec S Bytes)
      → (bad ≡ false → a ≡ c)
      → (if bad then m else a) ≡ (if bad then m else c)
  if-congruent true m a c h = refl
  if-congruent false m a c h = h refl

  stopped :
      (more : Bool) (m : Exec S Bytes) (read : Bytes)
      → more ≡ false
      → (if more then m else return read) ≡ return read
  stopped true m read h = ground arith
  stopped false m read h = refl

  read_all-more :
      (fuel n : ℕ) (read : Bytes)
      → size ≤ length read + fuel
      → fuel ≤ n
      → read_all next size n read ≡ read_all next size fuel read
  unfolding read_all
  read_all-more zero zero read h l = refl
  read_all-more zero (suc n) read h l = stopped (ltb (length read) size) _ read (ground arith)
  read_all-more (suc fuel) zero read h l = (let bad : ⊥ = omega arith in elim bad [ ])
  read_all-more (suc fuel) (suc n) read h l =
      ap (λ f. if ltb (length read) size then next (length read) >>= f else return read)
        (λ i chunk.
          if-congruent (is_refused read size chunk) (throw (value_error "artifact changed")) _ _
            (λ r.
              let t = taken read chunk size r in
              read_all-more fuel n (read ++ chunk) (omega (arith, length-append read chunk, t.0))
                (omega arith))
            i)

  -- The loop of chunks ends after at most as many turns as there are bytes: with more turns it does
  -- the same, whatever `next` answers.
  pub read_all_ends :
      (more : ℕ) (s : S) → read_all next size (size + more) [] s ≡ read_all next size size [] s
  read_all_ends more s =
      ap (λ m. m s) (read_all-more size (size + more) [] (omega arith) (omega arith))
