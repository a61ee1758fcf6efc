-- ===== src/Broker/Transfer.antt =====
-- `_export` of apps/runner/src/gpt_trace_runner/workstation_provider.py: the download of an artifact
-- that the broker has exported.
use gpt_trace_extractor_for.Base.{
  ℕ, String, not, ◌||◌, [], ltb, ◌==◌, nat_eq, string_eq, if◌then◌else◌,
}
use gpt_trace_extractor_for.Exceptions.{other_exception}
use gpt_trace_extractor_for.Exec.{Exec, return, throw, ◌>>=◌}
use gpt_trace_extractor_for.Broker.{Bytes, Folder, Setting, read_all, artifact_chunk}

-- an answer to `artifact_read`
pub record Chunk : Type 0 where
  pub content : Bytes
  pub size : ℕ
  pub sha256 : String

abbrev pub max_export_bytes : ℕ
max_export_bytes = 268435456

module _ {S : Type 0} (sha256 : Bytes → String) (ask : String → ℕ → Exec S Chunk) where
  -- the check of a chunk, but for its length
  unfoldable pub accept_chunk : String → ℕ → Chunk → Exec S Bytes
  accept_chunk sha size chunk =
      if not (chunk.sha256 == sha) || not (chunk.size == size)
      then throw (other_exception "AppInfrastructureError")
      else return chunk.content

  unfoldable pub check_download : String → Bytes → Exec S Bytes
  check_download sha bytes =
      if not (sha256 bytes == sha)
      then throw (other_exception "AppInfrastructureError")
      else return bytes

  -- the file that is written, from the record of the export
  unfoldable pub download : ℕ → String → String → Exec S Bytes
  download size sha artifact_id =
      if ltb max_export_bytes size || not (artifact_id == sha)
      then throw (other_exception "AppInfrastructureError")
      else read_all (λ offset. ask sha offset >>= accept_chunk sha size) size size []
        >>= check_download sha

-- `artifact_read` of the broker
unfoldable pub ask_broker : Setting → String → ℕ → Exec Folder Chunk
ask_broker b sha offset = do
  answer ← artifact_chunk b sha offset
  return (record { content = answer.0; size = answer.1; sha256 = sha })
