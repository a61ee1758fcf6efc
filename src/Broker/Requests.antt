-- ===== src/Broker/Requests.antt =====
-- Any sequence of requests about the artifacts of an attempt.
use gpt_trace_extractor_for.Base.{ℕ, String, List, [], ◌∷◌}
use gpt_trace_extractor_for.Exceptions.{Outcome}
use gpt_trace_extractor_for.Json.{Value}
use gpt_trace_extractor_for.Broker.{
  Bytes, Folder, Setting, stage_begin, stage_abort, stage_chunk, stage_end, export_artifact,
}
use gpt_trace_extractor_for.Broker.Stored.{
  IsSound, stage_begin-Keeps, stage_abort-Keeps, stage_chunk-Keeps, stage_end-Keeps,
  export_artifact-Keeps,
}

-- a request about the artifacts of an attempt, with what the guest answers to an export
pub data Request : Type 0 where
  begin abort : String → Request
  chunk : String → Outcome Bytes → Request
  finish : String → String → ℕ → Request
  export : Value → Outcome ℕ → (ℕ → Outcome Bytes) → Request

abbrev pub serve : Setting → Request → Folder → Folder
serve b (begin id) s = (stage_begin b id s).1
serve b (abort id) s = (stage_abort b id s).1
serve b (chunk id decoded) s = (stage_chunk b id decoded s).1
serve b (finish id digest size) s = (stage_end b id digest size s).1
serve b (export path stat next) s = (export_artifact b path stat next s).1

abbrev pub serve_all : Setting → List Request → Folder → Folder
serve_all b [] s = s
serve_all b (r ∷ rs) s = serve_all b rs (serve b r s)

serve-IsSound : (b : Setting) (r : Request) (s : Folder) → IsSound b s → IsSound b (serve b r s)
serve-IsSound b (begin id) s k = (stage_begin-Keeps b id).keep s k
serve-IsSound b (abort id) s k = (stage_abort-Keeps b id).keep s k
serve-IsSound b (chunk id decoded) s k = (stage_chunk-Keeps b id decoded).keep s k
serve-IsSound b (finish id digest size) s k = (stage_end-Keeps b id digest size).keep s k
serve-IsSound b (export path stat next) s k = (export_artifact-Keeps b path stat next).keep s k

-- However requests are mixed, refused or broken off, every upload stays within the size limit, and
-- every artifact stays within it and has the digest of its content as its name.
pub serve_all-IsSound :
    (b : Setting) (requests : List Request) (s : Folder)
    → IsSound b s
    → IsSound b (serve_all b requests s)
serve_all-IsSound b [] s k = k
serve_all-IsSound b (r ∷ rs) s k = serve_all-IsSound b rs (serve b r s) (serve-IsSound b r s k)
