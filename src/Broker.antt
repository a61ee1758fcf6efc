-- ===== src/Broker.antt =====
-- apps/workstation-broker/src/workstation_broker/server.py: the artifacts that the broker of the
-- workstations keeps for one attempt, and who may ask for what. A file is its list of bytes.
pub mod Transfer
pub mod Files
pub mod Reading
pub mod Stored
pub mod Requests
pub mod Exact
pub mod Verified
pub mod Access
pub mod Confined
pub mod Host
pub mod Frame
pub mod Others
pub mod Tests
use gpt_trace_extractor_for.Base.{
  ℕ, ◌+◌, ◌-◌, String, Option, none, some, Bool, true, false, not, ◌&&◌, ◌||◌, List, [], ◌∷◌, ◌++◌,
  length, min, ltb, ◌==◌, nat_eq, string_eq, if◌then◌else◌, suc, zero,
}
use Prim.Native.String.{count}
use gpt_trace_extractor_for.Json.{Value, as_text}
use gpt_trace_extractor_for.Exceptions.{value_error, other_exception, Outcome, ok, raised}
use gpt_trace_extractor_for.Exec.{Exec, return, throw, from, modify, ◌>>=◌, ◌>>◌}

abbrev pub Bytes : Type 0
Bytes = List ℕ

-- a chunk of a file, 1 MiB
abbrev pub chunk_bytes : ℕ
chunk_bytes = 1048576

abbrev pub take : ℕ → Bytes → Bytes
take n [] = []
take zero (b ∷ bs) = []
take (suc n) (b ∷ bs) = b ∷ take n bs

abbrev pub drop : ℕ → Bytes → Bytes
drop n [] = []
drop zero (b ∷ bs) = b ∷ bs
drop (suc n) (b ∷ bs) = drop n bs

-- files by name
abbrev pub Files : Type 0
Files = List (String × Bytes)

unfoldable pub find : String → Files → Option Bytes
find name [] = none
find name ((n, bytes) ∷ files) = if n == name then some bytes else find name files

unfoldable pub remove : String → Files → Files
remove name [] = []
remove name ((n, bytes) ∷ files) =
    let rest = remove name files in if n == name then rest else (n, bytes) ∷ rest

unfoldable pub put : String → Bytes → Files → Files
unfolding remove
put name bytes files = (name, bytes) ∷ remove name files

-- the folder of an attempt: the uploads, without their prefix, and the artifacts
pub record Folder : Type 0 where
  pub uploads : Files
  pub artifacts : Files

-- what the broker is given: SHA-256, the forms of ids, the limit, and `_read` of the attempt
pub record Setting : Type 0 where
  pub sha256 : Bytes → String
  pub is_upload_id : String → Bool
  pub is_digest : String → Bool
  pub max_transfer_bytes : ℕ
  pub owned : Folder → Outcome (Unit {0})

-- `isinstance(path, str) and path and len(path) <= 4096`
abbrev pub is_guest_path : Option String → Bool
is_guest_path none = false
is_guest_path (some path) = not (path == "") && not (ltb 4096 (count path))

-- `while output.tell() < size`: chunks up to a size that is known before
unfoldable pub read_all : {S : Type 0} → (ℕ → Exec S Bytes) → ℕ → ℕ → Bytes → Exec S Bytes
read_all next size zero read = return read
read_all next size (suc fuel) read =
    if ltb (length read) size
    then (do
      chunk ← next (length read)
      if length chunk == 0 || ltb (min chunk_bytes (size - length read)) (length chunk)
          then throw (value_error "artifact changed")
          else read_all next size fuel (read ++ chunk))
    else return read

module _ (b : Setting) where
  unfoldable pub find_upload : String → Exec Folder (Option Bytes)
  find_upload id = from (λ s. ok (find id s.uploads))

  unfoldable pub find_artifact : String → Exec Folder (Option Bytes)
  find_artifact digest = from (λ s. ok (find digest s.artifacts))

  -- `open("xb")` of a new upload
  unfoldable pub open_upload : String → Option Bytes → Exec Folder String
  open_upload id none = modify (λ s. record s { uploads = put id [] s.uploads }) >> return id
  open_upload id (some old) = throw (other_exception "FileExistsError")

  -- `id` is what `uuid4` gave
  unfoldable pub stage_begin : String → Exec Folder String
  stage_begin id = from b.owned >> find_upload id >>= open_upload id

  unfoldable pub stage_abort : String → Exec Folder (Unit {0})
  stage_abort id =
      if not (b.is_upload_id id)
      then throw (value_error "invalid upload identifier")
      else from b.owned >> modify (λ s. record s { uploads = remove id s.uploads })

  unfoldable pub append_chunk : String → Bytes → Option Bytes → Exec Folder ℕ
  append_chunk id content none = throw (other_exception "FileNotFoundError")
  append_chunk id content (some old) =
      if ltb b.max_transfer_bytes (length old + length content)
      then throw (value_error "artifact exceeds configured limit")
      else modify (λ s. record s { uploads = put id (old ++ content) s.uploads })
        >> return (length (old ++ content))

  -- `decoded` is what `b64decode` makes of the request
  unfoldable pub stage_chunk : String → Outcome Bytes → Exec Folder ℕ
  stage_chunk id decoded =
      if not (b.is_upload_id id) then throw (value_error "invalid upload identifier") else (do
        content ← from (λ s. decoded)
        if ltb chunk_bytes (length content)
            then throw (value_error "artifact chunk exceeds limit")
            else from b.owned >> find_upload id >>= append_chunk id content)

  -- the target of a staged file exists, or the file becomes it
  unfoldable pub place : String → String → Bytes → Option Bytes → Exec Folder ℕ
  place id digest bytes none =
      modify
        (λ s. record s { uploads = remove id s.uploads; artifacts = put digest bytes s.artifacts })
      >> return (length bytes)
  place id digest bytes (some old) =
      if not (b.sha256 old == digest)
      then throw (value_error "existing artifact integrity mismatch")
      else modify (λ s. record s { uploads = remove id s.uploads }) >> return (length old)

  unfoldable pub end_upload : String → String → ℕ → Option Bytes → Exec Folder ℕ
  end_upload id digest size none = throw (other_exception "FileNotFoundError")
  end_upload id digest size (some bytes) =
      if not (length bytes == size) || not (b.sha256 bytes == digest)
      then throw (value_error "staged artifact integrity mismatch")
      else find_artifact digest >>= place id digest bytes

  unfoldable pub stage_end : String → String → ℕ → Exec Folder ℕ
  stage_end id digest size =
      if not (b.is_upload_id id) || not (b.is_digest digest)
      then throw (value_error "invalid artifact identity")
      else from b.owned >> find_upload id >>= end_upload id digest size

  -- the exported file becomes the artifact of its digest
  unfoldable pub keep_export : Bytes → Option Bytes → Exec Folder String
  keep_export bytes none =
      modify (λ s. record s { artifacts = put (b.sha256 bytes) bytes s.artifacts })
      >> return (b.sha256 bytes)
  keep_export bytes (some old) =
      if not (b.sha256 old == b.sha256 bytes)
      then throw (value_error "existing artifact integrity mismatch")
      else return (b.sha256 bytes)

  unfoldable pub export_file : Outcome ℕ → (ℕ → Outcome Bytes) → Exec Folder String
  export_file stat next = do
    size ← from (λ s. stat)
    if ltb b.max_transfer_bytes size
        then throw (value_error "export exceeds configured limit")
        else (do
          from b.owned
          bytes ← read_all (λ offset. from (λ s. next offset)) size size []
          found ← find_artifact (b.sha256 bytes)
          keep_export bytes found)

  -- the path of the request, and `stat` and `next`, the answers of the guest
  unfoldable pub export_artifact : Value → Outcome ℕ → (ℕ → Outcome Bytes) → Exec Folder String
  export_artifact path stat next =
      if not (is_guest_path (as_text path))
      then throw (value_error "invalid guest artifact path")
      else export_file stat next

  unfoldable pub read_chunk : ℕ → Option Bytes → Exec Folder (Bytes × ℕ)
  read_chunk offset none = throw (value_error "artifact missing or exceeds configured limit")
  read_chunk offset (some bytes) =
      if ltb b.max_transfer_bytes (length bytes)
      then throw (value_error "artifact missing or exceeds configured limit")
      else return (take chunk_bytes (drop offset bytes), length bytes)

  unfoldable pub artifact_chunk : String → ℕ → Exec Folder (Bytes × ℕ)
  artifact_chunk digest offset =
      if not (b.is_digest digest)
      then throw (value_error "invalid artifact reference")
      else from b.owned >> find_artifact digest >>= read_chunk offset
