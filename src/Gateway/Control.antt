-- ===== src/Gateway/Control.antt =====
-- The handlers `health`, `status`, `activate` and `deactivate` of mcp_gateway/server.py.
use gpt_trace_extractor_for.Base.{
  String, Option, none, some, Bool, true, false, not, ◌&&◌, ◌==◌, string_eq, nat_beq, if◌then◌else◌,
}
use gpt_trace_extractor_for.Gateway.{
  TextTools, ActiveBackend, Identity, identity_of, GatewayState, Request, detail, health_of, public,
  status_of, idle, Response, respond, unauthorized, authorized, Checked, checked, value_error,
  ◌>>=◌, body, identity, same_identity, candidate,
}

abbrev is_bound : Option ActiveBackend → Bool
is_bound none = false
is_bound (some b) = true

abbrev pub public_of : Option ActiveBackend → Option (Identity × String)
public_of none = none
public_of (some b) = some (identity_of b, b.backend_url)

unfoldable pub health : GatewayState → Response
health state = respond 200 (health_of state.app_id (is_bound state.active))

unfoldable pub status : GatewayState → Request → Response
unfolding authorized
status state request =
    if not (authorized state request)
    then unauthorized
    else respond 200 (status_of state.app_id (public_of state.active))

-- `a == b` of two `ActiveBackend`
abbrev pub same_backend : ActiveBackend → ActiveBackend → Bool
same_backend a b =
    a.task_id == b.task_id
    && nat_beq a.attempt b.attempt
    && a.environment_id == b.environment_id
    && a.task_fingerprint == b.task_fingerprint
    && a.backend_url == b.backend_url
    && a.backend_token == b.backend_token

-- `state.active is not None and state.active != candidate`
abbrev pub bound_to_other : Option ActiveBackend → ActiveBackend → Bool
bound_to_other none b = false
bound_to_other (some a) b = not (same_backend a b)

unfoldable pub bind : GatewayState → ActiveBackend → Response × GatewayState
bind state b =
    if bound_to_other state.active b
    then (respond 409 (detail "gateway is already bound to another task environment"), state)
    else (respond 200 (public (identity_of b) b.backend_url), record state { active = some b })

-- `_matches` reads the identity of the same payload once more
unfoldable pub release : GatewayState → Identity → Response × GatewayState
release state i = elim state.active [
  | none ↦ (respond 200 (idle i), state)
  | some active ↦
      if not (same_identity i active)
      then (respond 409 (detail "gateway identity mismatch"), state)
      else (respond 200 (idle i), record state { active = none })
]

module _ (tools : TextTools) where
  unfoldable pub activate : GatewayState → Request → Response × GatewayState
  unfolding authorized bind
  activate state request =
      if not (authorized state request)
      then (unauthorized, state)
      else elim (candidate tools request) [
        | value_error e ↦ (respond 400 (detail e), state)
        | checked b ↦ bind state b
      ]

  -- `_body` and `_identity` of the request
  unfoldable pub read_identity : Request → Checked (Identity)
  unfolding body identity
  read_identity request = do fields ← body request; identity tools fields

  unfoldable pub deactivate : GatewayState → Request → Response × GatewayState
  unfolding authorized read_identity release
  deactivate state request =
      if not (authorized state request)
      then (unauthorized, state)
      else elim (read_identity request) [
        | value_error e ↦ (respond 400 (detail e), state)
        | checked i ↦ release state i
      ]
