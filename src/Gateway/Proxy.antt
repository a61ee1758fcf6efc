-- ===== src/Gateway/Proxy.antt =====
-- The handlers of mcp_gateway/server.py that forward a control request to the bound backend:
-- `backend_health`, `control_proxy`, `seed_proxy` and `artifact_proxy`. A handler answers, or it
-- sends one request to the backend and answers from what comes back. `int`, the check of an
-- artifact id, and the reading of a content type are parameters.
use Prim.Native.String.{◌++◌}
use gpt_trace_extractor_for.Base.{
  ℕ, ◌+◌, String, Option, none, some, Bool, true, false, not, ◌&&◌, ◌||◌, List, [], ◌∷◌, ◌==◌,
  string_eq, nat_beq, ltb, if◌then◌else◌,
}
use gpt_trace_extractor_for.Json.{Value, Fields, get, is_text, int, object, field, text, end}
use gpt_trace_extractor_for.Gateway.{
  TextTools, ActiveBackend, GatewayState, Request, detail, idle, json, streamed, Response, respond,
  unauthorized, authorized, checked, value_error, body, identity, matches, max_seed_upload_bytes,
}

-- what goes to the backend
pub data Payload : Type 0 where
  no_payload : Payload
  json_payload : Fields → Payload
  -- the sizes of the chunks that are sent, and whether the stream ends behind them or breaks off
  stream_payload : List ℕ → Bool → Payload

pub record Outgoing : Type 0 where
  pub url : String
  pub authorization : Option String
  pub payload : Payload

-- What comes back: an `httpx.HTTPError`, or a status with a body as JSON, if it is JSON, and the
-- start of its text.
pub data BackendReply : Type 0 where
  http_error : String → BackendReply
  replied : ℕ → Option Value → String → BackendReply

pub data Exchange : Type 0 where
  answers : Response → Exchange
  asks : Outgoing → (BackendReply → Response) → Exchange

-- `f"Bearer {active.backend_token}"`
abbrev pub bearer : ActiveBackend → Option String
bearer active = some ("Bearer " ++ active.backend_token)

abbrev pub json_or : Option Value → Value → Value
json_or none default = default
json_or (some v) default = v

abbrev error_text : String → Value
error_text t = object (field "detail" (text t) end)

-- the answer of `control_proxy` and `seed_proxy` from the backend's
abbrev pub pass_on : BackendReply → Response
pass_on (http_error e) = respond 503 (detail e)
pass_on (replied code data' start) = respond code (json (json_or data' (error_text start)))

abbrev health_reply : BackendReply → Response
health_reply (http_error e) = respond 503 (detail e)
health_reply (replied code data' start) =
    if not (nat_beq code 200)
    then respond 503 (detail "backend health returned HTTP")
    else respond 200 (json (json_or data' (object (field "status" (text "ok") end))))

unfoldable pub backend_health : GatewayState → Request → Exchange
unfolding authorized
backend_health state request =
    if not (authorized state request) then answers unauthorized else elim state.active [
      | none ↦ answers (respond 503 (detail "no active backend"))
      | some active ↦
          asks
            (record {
              url = active.backend_url ++ "/healthz";
              authorization = none;
              payload = no_payload;
            })
            health_reply
    ]

abbrev pub is_control_operation : String → Bool
is_control_operation op = op == "prepare" || op == "resume" || op == "reset"

-- the stable fields, which a payload without an attempt must match
abbrev pub stable_fields_match : Fields → ActiveBackend → Bool
stable_fields_match fields active =
    is_text (get fields "task_id") active.task_id
    && is_text (get fields "environment_id") active.environment_id
    && is_text (get fields "task_fingerprint") active.task_fingerprint

-- how a request declares the length of its body
pub data Declared : Type 0 where
  undeclared not_int : Declared
  bytes : ℕ → Declared

abbrev pub send_chunk : ℕ → List ℕ × Bool → List ℕ × Bool
send_chunk chunk (sent, ended) = (chunk ∷ sent, ended)

-- `body_stream` over the chunks of a request, of which `total` bytes are read: the chunks that it
-- yields, and whether it ends; it raises at the chunk with which the sum passes the limit.
unfoldable pub body_stream : ℕ → List ℕ → List ℕ × Bool
body_stream total [] = ([], true)
body_stream total (chunk ∷ chunks) =
    let rest = body_stream (total + chunk) chunks in
    if ltb max_seed_upload_bytes (total + chunk) then ([], false) else send_chunk chunk rest

abbrev pub stream_of : List ℕ × Bool → Payload
stream_of (sent, ended) = stream_payload sent ended

-- the answer to a stream that breaks off by a `ValueError`, unless the connection failed before
abbrev pub broken_off : Response → BackendReply → Response
broken_off response (http_error e) = respond 503 (detail e)
broken_off response (replied code data' start) = response

-- `{**payload, "attempt": active.attempt}`, read by `get`
abbrev pub with_attempt : Fields → ActiveBackend → Fields
with_attempt fields active = field "attempt" (int active.attempt) fields

module _ (tools : TextTools) where
  -- `reset` at an idle gateway is answered without a backend
  unfoldable pub idle_control : String → Fields → Response
  idle_control operation fields =
      if not (operation == "reset")
      then respond 503 (detail "no active backend")
      else elim (identity tools fields) [
        | value_error e ↦ respond 400 (detail e)
        | checked i ↦ respond 200 (idle i)
      ]

  unfoldable pub bound_control : ActiveBackend → String → Fields → Exchange
  bound_control active operation fields =
      if not (matches tools active (with_attempt fields active))
        && not (stable_fields_match fields active)
      then answers (respond 409 (detail "gateway/backend identity mismatch"))
      else asks
          (record {
            url = active.backend_url ++ ("/control/" ++ operation);
            authorization = bearer active;
            payload = json_payload fields;
          })
          pass_on

  unfoldable pub control_proxy : GatewayState → String → Request → Exchange
  unfolding authorized idle_control
  control_proxy state operation request =
      if not (authorized state request)
      then answers unauthorized
      else if not (is_control_operation operation)
      then answers (respond 404 (detail "not found"))
      else elim (body request) [
        | value_error e ↦ answers (respond 400 (detail e))
        | checked fields ↦ elim state.active [
          | none ↦ answers (idle_control operation fields)
          | some active ↦ bound_control active operation fields
        ]
      ]

-- the `seed` request: the media type of its `content-type` header, and its chunks
pub record Upload : Type 0 where
  pub media_type : String
  pub declared : Declared
  pub chunks : List ℕ

abbrev declared_too_large : Declared → Bool
declared_too_large (bytes n) = ltb max_seed_upload_bytes n
declared_too_large undeclared = false
declared_too_large not_int = false

abbrev is_not_int : Declared → Bool
is_not_int not_int = true
is_not_int undeclared = false
is_not_int (bytes n) = false

-- The chunks go to the backend while they are read. When the generator raises, the request to the
-- backend breaks off, and the answer is 413.
unfoldable pub send_seed : ActiveBackend → Upload → Exchange
unfolding body_stream
send_seed active upload =
    asks
      (record {
        url = active.backend_url ++ "/control/seed";
        authorization = bearer active;
        payload = stream_of (body_stream 0 upload.chunks);
      })
      (if (body_stream 0 upload.chunks).1
        then pass_on
        else broken_off (respond 413 (detail "seed archive is too large")))

unfoldable pub seed_proxy : GatewayState → Request → Upload → Exchange
unfolding authorized send_seed
seed_proxy state request upload =
    if not (authorized state request)
    then answers unauthorized
    else if not (state.app_id == "kali-workstation")
    then answers (respond 404 (detail "not found"))
    else elim state.active [
      | none ↦ answers (respond 503 (detail "no active backend"))
      | some active ↦
          if not (upload.media_type == "application/x-tar")
          then answers (respond 415 (detail "seed content-type must be application/x-tar"))
          else if is_not_int upload.declared
          then answers (respond 400 (detail "invalid content-length"))
          else if declared_too_large upload.declared
          then answers (respond 413 (detail "seed archive is too large"))
          else send_seed active upload
    ]

abbrev valid_suffix : (String → Bool) → Option String → Bool
valid_suffix is_artifact_id none = true
valid_suffix is_artifact_id (some suffix) = is_artifact_id suffix

artifact_url : ActiveBackend → Option String → String
artifact_url active none = active.backend_url ++ "/control/artifacts"
artifact_url active (some suffix) = active.backend_url ++ ("/control/artifacts/" ++ suffix)

abbrev artifact_posted : BackendReply → Response
artifact_posted (http_error e) = respond 503 (detail e)
artifact_posted (replied code (some v) start) = respond code (json v)
artifact_posted (replied code none start) = respond 503 (detail "invalid JSON")

abbrev artifact_fetched : BackendReply → Response
artifact_fetched (http_error e) = respond 503 (detail e)
artifact_fetched (replied code data' start) =
    if not (nat_beq code 200) then respond code (detail start) else respond 200 streamed

-- `artifact_proxy`; `upload` is the body of a POST, and `none` a GET. `is_artifact_id` is the
-- pattern of 64 hexadecimal digits.
unfoldable pub artifact_proxy :
    (String → Bool) → GatewayState → Request → Option String → Option Upload → Exchange
unfolding authorized body_stream artifact_url
artifact_proxy is_artifact_id state request suffix upload =
    if not (authorized state request) then answers unauthorized else elim state.active [
      | none ↦ answers (respond 503 (detail "no active workstation"))
      | some active ↦
          if not (state.app_id == "kali-workstation")
          then answers (respond 503 (detail "no active workstation"))
          else if not (valid_suffix is_artifact_id suffix)
          then answers (respond 400 (detail "invalid artifact ID"))
          else elim upload [
            | none ↦
                asks
                  (record {
                    url = artifact_url active suffix;
                    authorization = bearer active;
                    payload = no_payload;
                  })
                  artifact_fetched
            | some body ↦
                if is_not_int body.declared
                then answers (respond 503 (detail "invalid literal for int()"))
                else if declared_too_large body.declared
                then answers (respond 413 (detail "artifact too large"))
                else asks
                    (record {
                      url = artifact_url active suffix;
                      authorization = bearer active;
                      payload = stream_of (body_stream 0 body.chunks);
                    })
                    (if (body_stream 0 body.chunks).1
                      then artifact_posted
                      else broken_off (respond 503 (detail "artifact too large")))
          ]
    ]
