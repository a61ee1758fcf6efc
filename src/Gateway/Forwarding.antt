-- ===== src/Gateway/Forwarding.antt =====
-- What the handlers of mcp_gateway/server.py send to a backend.
use Prim.Native.String.{◌++◌}
use gpt_trace_extractor_for.Base.{
  ℕ, String, ◌≡◌, ◌≢◌, refl, inl, inr, none, some, Bool, true, string_eq, List, arith, eq_iff,
  Option-cases,
}
use gpt_trace_extractor_for.Json.{Fields}
use gpt_trace_extractor_for.Gateway.{
  TextTools, ActiveBackend, GatewayState, Request, Response, authorized, Checked, checked,
  value_error, body, matches,
}
use gpt_trace_extractor_for.Gateway.Proxy.{
  json_payload, stream_payload, Outgoing, BackendReply, asks, bearer, control_proxy, bound_control,
  is_control_operation, stable_fields_match, with_attempt, seed_proxy, body_stream, stream_of,
  Upload,
}
use gpt_trace_extractor_for.Gateway.Chunks.{IsCut, body_stream-IsCut}

seed_request :
    (state : GatewayState) (request : Request) (upload : Upload) (out : Outgoing)
    (reply : BackendReply → Response)
    → seed_proxy state request upload ≡ asks out reply
    → (b : ActiveBackend) × (state.active ≡ some b)
      × (authorized state request ≡ true)
      × (upload.media_type ≡ "application/x-tar")
      × (out.url ≡ b.backend_url ++ "/control/seed")
      × (out.authorization ≡ bearer b)
      × (out.payload ≡ stream_of (body_stream 0 upload.chunks))
unfolding seed_proxy
seed_request state request upload out reply h =
    ground (arith, eq_iff upload.media_type "application/x-tar")

-- A seed goes only to the address of the bound backend, with its token, on an authorised request
-- of the media type `application/x-tar`. What is sent is a first part of the upload within the
-- limit, whatever length the request declares: either all of it, or the stream breaks off and the
-- upload is longer than the limit.
pub seed_goes_to_backend :
    (state : GatewayState) (request : Request) (upload : Upload) (out : Outgoing)
    (reply : BackendReply → Response)
    → seed_proxy state request upload ≡ asks out reply
    → (b : ActiveBackend) × (state.active ≡ some b)
      × (authorized state request ≡ true)
      × (upload.media_type ≡ "application/x-tar")
      × (out.url ≡ b.backend_url ++ "/control/seed")
      × (out.authorization ≡ bearer b)
      × (sent : List ℕ) × (ended : Bool) × (out.payload ≡ stream_payload sent ended)
      × IsCut 0 upload.chunks (sent, ended)
seed_goes_to_backend state request upload out reply h =
    let (b, e, u, m, url, token, payload) = seed_request state request upload out reply h in
    (
      b,
      e,
      u,
      m,
      url,
      token,
      (body_stream 0 upload.chunks).0,
      (body_stream 0 upload.chunks).1,
      payload,
      body_stream-IsCut 0 upload.chunks (omega arith),
    )

matches_stable :
    (tools : TextTools) (b : ActiveBackend) (fields : Fields)
    → matches tools b (with_attempt fields b) ≡ true
    → stable_fields_match fields b ≡ true
unfolding matches
matches_stable tools b fields h = ground arith

bound_control_checks :
    (tools : TextTools) (b : ActiveBackend) (operation : String) (fields : Fields) (out : Outgoing)
    (reply : BackendReply → Response)
    → bound_control tools b operation fields ≡ asks out reply
    → (out.url ≡ b.backend_url ++ ("/control/" ++ operation))
      × (out.authorization ≡ bearer b)
      × (out.payload ≡ json_payload fields)
      × (stable_fields_match fields b ≡ true)
unfolding bound_control
bound_control_checks tools b operation fields out reply h =
    ground (arith, matches_stable tools b fields)

control_of_body :
    (tools : TextTools) (state : GatewayState) (operation : String) (request : Request)
    (b : ActiveBackend) (out : Outgoing) (reply : BackendReply → Response)
    → state.active ≡ some b
    → (c : Checked Fields) → body request ≡ c
    → control_proxy tools state operation request ≡ asks out reply
    → (fields : Fields) × (authorized state request ≡ true)
      × (is_control_operation operation ≡ true)
      × (body request ≡ checked fields)
      × (bound_control tools b operation fields ≡ asks out reply)
unfolding control_proxy
control_of_body tools state operation request b out reply e (value_error m) c h =
    absurd (ground arith)
control_of_body tools state operation request b out reply e (checked fields) c h =
    (fields, ground arith, ground arith, c, ground arith)

control_needs_backend :
    (tools : TextTools) (state : GatewayState) (operation : String) (request : Request)
    (out : Outgoing) (reply : BackendReply → Response)
    → control_proxy tools state operation request ≡ asks out reply
    → state.active ≢ none
unfolding control_proxy
control_needs_backend tools state operation request out reply h e = ground arith

-- A control request goes only to the address of the bound backend, with its token, on an authorised request for
-- one of the three operations, and its JSON object names the task, the environment and the
-- fingerprint of that backend.
pub control_goes_to_backend :
    (tools : TextTools) (state : GatewayState) (operation : String) (request : Request)
    (out : Outgoing) (reply : BackendReply → Response)
    → control_proxy tools state operation request ≡ asks out reply
    → (b : ActiveBackend) × (fields : Fields) × (state.active ≡ some b)
      × (authorized state request ≡ true)
      × (is_control_operation operation ≡ true)
      × (body request ≡ checked fields)
      × (out.url ≡ b.backend_url ++ ("/control/" ++ operation))
      × (out.authorization ≡ bearer b)
      × (out.payload ≡ json_payload fields)
      × (stable_fields_match fields b ≡ true)
control_goes_to_backend tools state operation request out reply h =
    elim (Option-cases state.active) [
      | inl e ↦ absurd (control_needs_backend tools state operation request out reply h e)
      | inr (b, e) ↦
          let (fields, u, o, c, sent) =
            control_of_body tools state operation request b out reply e (body request) refl h in
          let (url, token, payload, stable) =
            bound_control_checks tools b operation fields out reply sent in
          (b, fields, e, u, o, c, url, token, payload, stable)
    ]
