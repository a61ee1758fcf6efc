-- ===== src/Broker/Stored.antt =====
-- The uploads and artifacts of the broker through any sequence of requests.
use gpt_trace_extractor_for.Base.{
  ℕ, ◌+◌, ◌≤◌, String, ◌≡◌, refl, Option, none, some, Bool, true, false, [], ◌++◌, length,
  length-append, ltb, nat_eq, string_eq, eq_iff, if◌then◌else◌, arith,
}
use gpt_trace_extractor_for.Exceptions.{Exn, Outcome}
use gpt_trace_extractor_for.Json.{Value}
use gpt_trace_extractor_for.Exec.{return, throw, from, modify, ◌>>=◌, ◌>>◌}
use gpt_trace_extractor_for.Exec.Keeps.{
  Keeps, keeping, Leads, Leads-Keeps, Ensures, Ensures-bind, Ensures-Keeps, Keeps-throw, Keeps-from,
  Leads-end, Keeps-then,
}
use gpt_trace_extractor_for.Broker.{
  Bytes, Folder, Setting, put, remove, find_upload, find_artifact, open_upload, stage_begin,
  stage_abort, append_chunk, stage_chunk, place, end_upload, stage_end, keep_export, export_file,
  export_artifact, read_all,
}
use gpt_trace_extractor_for.Broker.Files.{Each, Each-put, Each-remove}
use gpt_trace_extractor_for.Broker.Reading.{read_all-run}

module _ (b : Setting) where
  abbrev pub IsBounded : String → Bytes → Type 0
  IsBounded name bytes = length bytes ≤ b.max_transfer_bytes

  abbrev pub IsNamed : String → Bytes → Type 0
  IsNamed name bytes = (b.sha256 bytes ≡ name) × (length bytes ≤ b.max_transfer_bytes)

  -- every upload is within the limit, and every artifact has its digest as its name too
  pub record IsSound (s : Folder) : Type 0 where
    pub uploads : Each IsBounded s.uploads
    pub artifacts : Each IsNamed s.artifacts

  -- a read keeps the folder, and what it finds has the property of the files
  find_upload_run :
      (id : String)
      → Ensures IsSound
          (λ found s. IsSound s × ((bytes : Bytes) → found ≡ some bytes → IsBounded id bytes))
          IsSound
          (find_upload b id)
  unfolding find_upload from
  find_upload_run id = record { run = λ s k. (k, λ bytes h. k.uploads.at id bytes h) }

  put_upload :
      (id : String) (bytes : Bytes)
      → IsBounded id bytes
      → Keeps IsSound (modify (λ s. record s { uploads = put id bytes s.uploads }))
  unfolding modify
  put_upload id bytes h = record {
    keep = λ s k. record {
      uploads = Each-put id bytes s.uploads h k.uploads;
      artifacts = k.artifacts;
    };
  }

  remove_upload :
      (id : String) → Keeps IsSound (modify (λ s. record s { uploads = remove id s.uploads }))
  unfolding modify
  remove_upload id = record {
    keep = λ s k. record { uploads = Each-remove id s.uploads k.uploads; artifacts = k.artifacts };
  }

  put_artifact :
      (name : String) (bytes : Bytes)
      → IsNamed name bytes
      → Keeps IsSound (modify (λ s. record s { artifacts = put name bytes s.artifacts }))
  unfolding modify
  put_artifact name bytes h = record {
    keep = λ s k. record {
      uploads = k.uploads;
      artifacts = Each-put name bytes s.artifacts h k.artifacts;
    };
  }

  move_upload :
      (id name : String) (bytes : Bytes)
      → IsNamed name bytes
      → Keeps IsSound (
          modify (λ s. record s {
            uploads = remove id s.uploads;
            artifacts = put name bytes s.artifacts;
          }))
  unfolding modify
  move_upload id name bytes h = record {
    keep = λ s k. record {
      uploads = Each-remove id s.uploads k.uploads;
      artifacts = Each-put name bytes s.artifacts h k.artifacts;
    };
  }

  find_upload-Keeps : (id : String) → Keeps IsSound (find_upload b id)
  unfolding find_upload
  find_upload-Keeps id = search (keeping)

  find_artifact-Keeps : (id : String) → Keeps IsSound (find_artifact b id)
  unfolding find_artifact
  find_artifact-Keeps id = search (keeping)

  open_upload-Keeps : (id : String) (old : Option Bytes) → Keeps IsSound (open_upload b id old)
  unfolding open_upload
  open_upload-Keeps id none = search (keeping, put_upload id [] (omega arith))
  open_upload-Keeps id (some old) = search (keeping)

  pub stage_begin-Keeps : (id : String) → Keeps IsSound (stage_begin b id)
  unfolding stage_begin
  stage_begin-Keeps id = search (keeping, find_upload-Keeps, open_upload-Keeps)

  pub stage_abort-Keeps : (id : String) → Keeps IsSound (stage_abort b id)
  unfolding stage_abort
  stage_abort-Keeps id = search (keeping, remove_upload)

  append_case :
      (over : Bool) (id : String) (old content : Bytes)
      → (over ≡ false → length old + length content ≤ b.max_transfer_bytes)
      → (e : Exn)
      → Keeps IsSound (
          if over
          then throw e
          else modify (λ s. record s { uploads = put id (old ++ content) s.uploads })
            >> return (length (old ++ content)))
  append_case true id old content h e = search (keeping)
  append_case false id old content h e = search (
    keeping,
    put_upload id (old ++ content) (let f = h refl in omega (arith, length-append old content)),
  )

  append_chunk-Keeps :
      (id : String) (content : Bytes) (old : Option Bytes)
      → Keeps IsSound (append_chunk b id content old)
  unfolding append_chunk
  append_chunk-Keeps id content none = search (keeping)
  append_chunk-Keeps id content (some old) = append_case _ id old content (λ h. ground arith) _

  pub stage_chunk-Keeps :
      (id : String) (decoded : Outcome Bytes) → Keeps IsSound (stage_chunk b id decoded)
  unfolding stage_chunk
  stage_chunk-Keeps id decoded = search (keeping, find_upload-Keeps, append_chunk-Keeps) depth 9

  place-Keeps :
      (id digest : String) (bytes : Bytes) (old : Option Bytes)
      → IsNamed digest bytes
      → Keeps IsSound (place b id digest bytes old)
  unfolding place
  place-Keeps id digest bytes none h = search (keeping, move_upload, h)
  place-Keeps id digest bytes (some old) h = search (keeping, remove_upload)

  end_case :
      (bad : Bool) (id digest : String) (bytes : Bytes) (e : Exn)
      → (bad ≡ false → IsNamed digest bytes)
      → Keeps IsSound (if bad then throw e else find_artifact b digest >>= place b id digest bytes)
  end_case true id digest bytes e h = search (keeping)
  end_case false id digest bytes e h =
      search (keeping, find_artifact-Keeps, place-Keeps id digest bytes, h refl)

  end_upload-Keeps :
      (id digest : String) (size : ℕ) (found : Option Bytes)
      → ((bytes : Bytes) → found ≡ some bytes → IsBounded id bytes)
      → Keeps IsSound (end_upload b id digest size found)
  unfolding end_upload
  end_upload-Keeps id digest size none h = search (keeping)
  end_upload-Keeps id digest size (some bytes) h =
      end_case _ id digest bytes _
        (λ e. (ground (arith, eq_iff (b.sha256 bytes) digest), h bytes refl))

  find_end-Keeps :
      (id digest : String) (size : ℕ)
      → Keeps IsSound (from b.owned >> find_upload b id >>= end_upload b id digest size)
  find_end-Keeps id digest size = record {
    keep = λ s k.
        Leads-end _
          (Ensures-bind _ _
            (Ensures-bind _ _ (Ensures-Keeps _ (Keeps-from b.owned) (λ s k. k))
              (λ _. find_upload_run id))
            (λ found. record {
              run = λ s k.
                  (Leads-Keeps (λ s k. k) _ (end_upload-Keeps id digest size found k.1)).run s k.0;
            }))
          s k;
  }

  pub stage_end-Keeps : (id digest : String) (size : ℕ) → Keeps IsSound (stage_end b id digest size)
  unfolding stage_end
  stage_end-Keeps id digest size = search (keeping, find_end-Keeps)

  keep_export-Keeps :
      (bytes : Bytes) (old : Option Bytes)
      → length bytes ≤ b.max_transfer_bytes
      → Keeps IsSound (keep_export b bytes old)
  unfolding keep_export
  keep_export-Keeps bytes none h = search (keeping, put_artifact (b.sha256 bytes) bytes (refl, h))
  keep_export-Keeps bytes (some old) h = search (keeping)

  kept_bytes-Keeps :
      (size : ℕ) (bytes : Bytes) (found : Option Bytes)
      → size ≤ b.max_transfer_bytes
      → length bytes ≡ size
      → Keeps IsSound (keep_export b bytes found)
  kept_bytes-Keeps size bytes found h e = keep_export-Keeps bytes found (omega arith)

  read_export :
      (next : ℕ → Outcome Bytes) (size : ℕ)
      → size ≤ b.max_transfer_bytes
      → Leads IsSound IsSound (
          read_all (λ offset. from (λ s. next offset)) size size []
          >>= (λ bytes. find_artifact b (b.sha256 bytes) >>= keep_export b bytes))
  read_export next size h =
      Ensures-bind _ _ (read_all-run _ size (λ n. Keeps-from _) size [] (omega arith) (omega arith))
        (λ bytes. record {
          run = λ s k.
              (Leads-Keeps (λ s k. k) _
                  (Keeps-then _ _ (find_artifact-Keeps (b.sha256 bytes))
                    (λ found. kept_bytes-Keeps size bytes found h k.1))).run
                s k.0;
        })

  export_case :
      (over : Bool) (next : ℕ → Outcome Bytes) (size : ℕ) (e : Exn)
      → (over ≡ false → size ≤ b.max_transfer_bytes)
      → Keeps IsSound (
          if over
          then throw e
          else (from b.owned >>= (λ _.
              read_all (λ offset. from (λ s. next offset)) size size []
              >>= (λ bytes. find_artifact b (b.sha256 bytes) >>= keep_export b bytes))))
  export_case true next size e h = Keeps-throw e
  export_case false next size e h =
      Keeps-then _ _ (Keeps-from b.owned)
        (λ _. record { keep = λ s k. Leads-end _ (read_export next size (h refl)) s k })

  export_file-Keeps :
      (stat : Outcome ℕ) (next : ℕ → Outcome Bytes) → Keeps IsSound (export_file b stat next)
  unfolding export_file
  export_file-Keeps stat next =
      Keeps-then _ _ (Keeps-from _)
        (λ size. export_case (ltb b.max_transfer_bytes size) next size _ (λ h. ground arith))

  pub export_artifact-Keeps :
      (path : Value) (stat : Outcome ℕ) (next : ℕ → Outcome Bytes)
      → Keeps IsSound (export_artifact b path stat next)
  unfolding export_artifact
  export_artifact-Keeps path stat next = search (keeping, export_file-Keeps)
