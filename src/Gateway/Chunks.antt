-- ===== src/Gateway/Chunks.antt =====
-- The streamed uploads of mcp_gateway/server.py: what of the chunks is sent.
use gpt_trace_extractor_for.Base.{
  ℕ, ◌+◌, ◌≤◌, ◌<◌, ◌≡◌, refl, ap, ◌⊎◌, inl, inr, Bool, true, false, ltb, List, [], ◌∷◌, ◌++◌,
  arith, Bool-cases,
}
use gpt_trace_extractor_for.Gateway.{max_seed_upload_bytes}
use gpt_trace_extractor_for.Gateway.Proxy.{send_chunk, body_stream}

abbrev pub total : List ℕ → ℕ
total [] = 0
total (n ∷ ns) = n + total ns

-- What of a stream of chunks is sent behind `before` bytes: all of it within the limit, or a part
-- within the limit of a stream that passes it.
abbrev pub IsCut : ℕ → List ℕ → List ℕ × Bool → Type 0
IsCut before chunks (sent, ended) =
    (rest : List ℕ) × (sent ++ rest ≡ chunks)
    × (before + total sent ≤ max_seed_upload_bytes)
    × (((ended ≡ true) × (rest ≡ []))
        ⊎ ((ended ≡ false) × (max_seed_upload_bytes < before + total chunks)))

send_chunk-IsCut :
    (before chunk : ℕ) (chunks : List ℕ) (r : List ℕ × Bool)
    → IsCut (before + chunk) chunks r
    → IsCut before (chunk ∷ chunks) (send_chunk chunk r)
send_chunk-IsCut before chunk chunks (sent, ended) (rest, whole, fits, inl (e, n)) =
    (rest, ap (λ l. chunk ∷ l) whole, omega (arith, fits), inl (e, n))
send_chunk-IsCut before chunk chunks (sent, ended) (rest, whole, fits, inr (e, n)) =
    (rest, ap (λ l. chunk ∷ l) whole, omega (arith, fits), inr (e, omega (arith, n)))

pub body_stream-IsCut :
    (before : ℕ) (chunks : List ℕ)
    → before ≤ max_seed_upload_bytes
    → IsCut before chunks (body_stream before chunks)
unfolding body_stream
body_stream-IsCut before [] b = ([], refl, omega arith, inl (refl, refl))
body_stream-IsCut before (chunk ∷ chunks) b =
    elim (Bool-cases (ltb max_seed_upload_bytes (before + chunk))) [
      | inl over ↦ rw over (chunk ∷ chunks, refl, omega arith, inr (refl, ground (arith, over)))
      | inr fits ↦ rw fits (
          send_chunk-IsCut before chunk chunks _
            (body_stream-IsCut (before + chunk) chunks (ground (arith, fits))))
    ]
