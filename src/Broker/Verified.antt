-- ===== src/Broker/Verified.antt =====
-- The download of Transfer.antt from a broker that may answer anything.
use gpt_trace_extractor_for.Base.{
  ℕ, ◌≤◌, String, ◌≡◌, refl, subst, Bool, true, false, not, ◌||◌, [], length, ltb, ◌==◌, string_eq,
  eq_iff, if◌then◌else◌, arith,
}
use gpt_trace_extractor_for.Exceptions.{Exn, Outcome, ok, raised}
use gpt_trace_extractor_for.Exec.{Exec, return, throw}
use gpt_trace_extractor_for.Exec.Keeps.{Keeps, Ends, Ensures, Ensures-bind}
use gpt_trace_extractor_for.Broker.{Bytes}
use gpt_trace_extractor_for.Broker.Reading.{read_all-run}
use gpt_trace_extractor_for.Broker.Transfer.{Chunk, max_export_bytes, check_download, download}

module _ {S : Type 0} (sha256 : Bytes → String) (ask : String → ℕ → Exec S Chunk) (size : ℕ)
    (sha artifact_id : String) where
  -- the bytes of the record
  abbrev pub IsOfRecord : Bytes → Type 0
  IsOfRecord bytes = (sha256 bytes ≡ sha) × ((length bytes ≡ size) × (size ≤ max_export_bytes))

  abbrev Anything : S → Type 0
  Anything s = Unit

  refused_or :
      {P : S → Type 0} {Q : Bytes → S → Type 0} (bad : Bool) (e : Exn) (m : Exec S Bytes)
      → (bad ≡ false → Ensures P Q Anything m)
      → Ensures P Q Anything (if bad then throw e else m)
  unfolding throw
  refused_or true e m h = record { run = λ s p. tt }
  refused_or false e m h = h refl

  any-Keeps : (m : Exec S Bytes) → Keeps Anything m
  any-Keeps m = record { keep = λ s p. tt }

  download-run :
      Ensures Anything
        (λ bytes s. IsOfRecord bytes)
        Anything
        (download sha256 ask size sha artifact_id)
  unfolding download check_download return
  download-run = refused_or (ltb max_export_bytes size || not (artifact_id == sha)) _ _ (λ b.
      Ensures-bind _ _ (read_all-run _ size (λ n. any-Keeps _) size [] (omega arith) (omega arith))
        (λ bytes. refused_or (not (sha256 bytes == sha)) _ _ (λ c. record {
          run = λ s k. (ground (arith, eq_iff (sha256 bytes) sha), (k.1, ground arith));
        })))

  ended_ok :
      (r : Outcome Bytes × S) (bytes : Bytes)
      → Ends (λ bytes s. IsOfRecord bytes) Anything r
      → r.0 ≡ ok bytes
      → IsOfRecord bytes
  ended_ok (ok x, s) bytes k h = (let e : x ≡ bytes = cc in subst IsOfRecord e k)
  ended_ok (raised e, s) bytes k h = (let bad : ⊥ = ground arith in elim bad [ ])

  -- Whatever the broker answers, bytes that the download returns have the digest and the size of
  -- the record of the export, and the size is within the limit.
  pub download_verified :
      (s : S) (bytes : Bytes)
      → (download sha256 ask size sha artifact_id s).0 ≡ ok bytes
      → IsOfRecord bytes
  download_verified s bytes h = ended_ok _ bytes (download-run.run s tt) h
