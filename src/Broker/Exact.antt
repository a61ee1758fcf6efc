-- ===== src/Broker/Exact.antt =====
-- The download of an artifact from the broker, by Transfer.antt.
use gpt_trace_extractor_for.Base.{
  ℕ, ◌+◌, ◌-◌, ◌≤◌, String, ◌≡◌, refl, sym, ◌∙◌, ap, some, true, false, ◌||◌, [], ◌∷◌, ◌++◌, length,
  length-append, min, ltb, ◌==◌, nat_eq, string_eq, beq_refl, arith, suc, zero,
}
use gpt_trace_extractor_for.Exceptions.{ok}
use gpt_trace_extractor_for.Exec.{Exec, return, throw, from, ◌>>=◌}
use gpt_trace_extractor_for.Broker.{
  Bytes, Folder, Setting, chunk_bytes, take, drop, find, find_artifact, read_all, read_chunk,
  artifact_chunk,
}
use gpt_trace_extractor_for.Broker.Transfer.{
  max_export_bytes, accept_chunk, check_download, download, ask_broker,
}

drop-append : (xs ys : Bytes) → drop (length xs) (xs ++ ys) ≡ ys
drop-append [] [] = refl
drop-append [] (y ∷ ys) = refl
drop-append (x ∷ xs) ys = drop-append xs ys

take-drop : (n : ℕ) (xs : Bytes) → take n xs ++ drop n xs ≡ xs
take-drop n [] = refl
take-drop zero (x ∷ xs) = refl
take-drop (suc n) (x ∷ xs) = ap (λ r. x ∷ r) (take-drop n xs)

length-drop : (n : ℕ) (xs : Bytes) → length (drop n xs) ≡ length xs - n
length-drop n [] = omega arith
length-drop zero (x ∷ xs) = omega arith
length-drop (suc n) (x ∷ xs) = omega (arith, length-drop n xs)

length-take : (n : ℕ) (xs : Bytes) → length (take n xs) ≡ min n (length xs)
length-take n [] = omega arith
length-take zero (x ∷ xs) = omega arith
length-take (suc n) (x ∷ xs) = omega (arith, length-take n xs)

append_assoc : (xs ys zs : Bytes) → (xs ++ ys) ++ zs ≡ xs ++ (ys ++ zs)
append_assoc [] ys zs = refl
append_assoc (x ∷ xs) ys zs = ap (λ r. x ∷ r) (append_assoc xs ys zs)

append_nil : (xs : Bytes) → xs ++ [] ≡ xs
append_nil [] = refl
append_nil (x ∷ xs) = ap (λ r. x ∷ r) (append_nil xs)

-- the broker can answer for this artifact
pub record Offers (b : Setting) (s : Folder) (sha : String) (bytes : Bytes) : Type 0 where
  pub stored : find sha s.artifacts ≡ some bytes
  pub named : b.sha256 bytes ≡ sha
  pub digest : b.is_digest sha ≡ true
  pub owned : b.owned s ≡ ok tt
  pub small : length bytes ≤ b.max_transfer_bytes
  pub wanted : length bytes ≤ max_export_bytes

module _ (b : Setting) (s : Folder) (sha : String) (bytes : Bytes) (o : Offers b s sha bytes) where
  within : ltb b.max_transfer_bytes (length bytes) ≡ false
  within = (let h = o.small in ground arith)

  chunk_lem :
      (offset : ℕ)
      → artifact_chunk b sha offset s ≡ (ok (take chunk_bytes (drop offset bytes), length bytes), s)
  unfolding artifact_chunk from find_artifact read_chunk return throw ◌>>=◌
  chunk_lem offset = rw (o.digest, o.owned, o.stored, within) refl

  next_lem :
      (offset : ℕ)
      → (ask_broker b sha offset >>= accept_chunk b.sha256 (ask_broker b) sha (length bytes)) s
        ≡ (ok (take chunk_bytes (drop offset bytes)), s)
  unfolding ask_broker accept_chunk ◌>>=◌ return throw
  next_lem offset = rw (chunk_lem offset) rw (beq_refl sha, beq_refl (length bytes)) refl

  next : ℕ → Exec Folder Bytes
  next offset = ask_broker b sha offset >>= accept_chunk b.sha256 (ask_broker b) sha (length bytes)

  -- a turn of the loop, with something left to read
  turn :
      (fuel : ℕ) (read rest : Bytes)
      → read ++ rest ≡ bytes
      → 1 ≤ length rest
      → read_all next (length bytes) (suc fuel) read s
        ≡ read_all next (length bytes) fuel (read ++ take chunk_bytes rest) s
  unfolding read_all ◌>>=◌ next
  turn fuel read rest e l = rw (more_lem, next_lem (length read), chunk_is, taken_lem) refl
    where
      sizes : length bytes ≡ length read + length rest
      sizes = ap length (sym e) ∙ length-append read rest

      more_lem : ltb (length read) (length bytes) ≡ true
      more_lem = ground (arith, sizes)

      chunk_is : drop (length read) bytes ≡ rest
      chunk_is = ap (drop (length read)) (sym e) ∙ drop-append read rest

      taken_lem :
          (length (take chunk_bytes rest) == 0
            || ltb (min chunk_bytes (length bytes - length read)) (length (take chunk_bytes rest)))
          ≡ false
      taken_lem = ground (arith, sizes, length-take chunk_bytes rest)

  done_lem : (read : Bytes) → read ≡ bytes → ltb (length read) (length bytes) ≡ false
  done_lem read e = (let h : length read ≡ length bytes = ap length e in ground arith)

  loop :
      (fuel : ℕ) (read rest : Bytes)
      → read ++ rest ≡ bytes
      → length rest ≤ fuel
      → read_all next (length bytes) fuel read s ≡ (ok bytes, s)
  unfolding read_all return
  loop zero read [] e l = ap (λ r. (ok r, s)) (sym (append_nil read) ∙ e)
  loop zero read (x ∷ rest) e l = (let bad : ⊥ = omega arith in elim bad [ ])
  loop (suc fuel) read [] e l =
      let e' = sym (append_nil read) ∙ e in rw (done_lem read e') (ap (λ r. (ok r, s)) e')
  loop (suc fuel) read (x ∷ rest) e l =
      turn fuel read (x ∷ rest) e (omega arith)
      ∙ loop fuel (read ++ take chunk_bytes (x ∷ rest)) (drop chunk_bytes (x ∷ rest))
          (append_assoc read _ _ ∙ ap (λ r. read ++ r) (take-drop chunk_bytes (x ∷ rest)) ∙ e)
          (omega (arith, length-drop chunk_bytes (x ∷ rest)))

  allowed : ltb max_export_bytes (length bytes) ≡ false
  allowed = (let h = o.wanted in ground arith)

  -- Of an artifact that the broker holds under its digest within the limits, the client downloads
  -- exactly the bytes, and the folder of the broker stays as it is.
  pub download_exact : download b.sha256 (ask_broker b) (length bytes) sha sha s ≡ (ok bytes, s)
  unfolding download check_download return ◌>>=◌ next
  download_exact =
      rw
        (
          allowed,
          beq_refl sha,
          loop (length bytes) [] bytes refl (omega arith),
          o.named,
          beq_refl sha,
        )
        refl
