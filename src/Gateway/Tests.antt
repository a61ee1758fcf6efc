-- ===== src/Gateway/Tests.antt =====
-- Requests to a small gateway, and the theorems at them. The text tools read nothing of a text.
use Prim.Native.String.{◌++◌}
use gpt_trace_extractor_for.Base.{
  All, ℕ, ◌≡◌, refl, ◌⊎◌, none, some, Bool, true, false, List, [], ◌∷◌,
}
use gpt_trace_extractor_for.Json.{Fields, int, text, object, field, end}
use gpt_trace_extractor_for.Gateway.{
  TextTools, ActiveBackend, GatewayState, Request, detail, respond, authorized, checked, body,
  matches, candidate,
}
use gpt_trace_extractor_for.Gateway.Control.{activate}
use gpt_trace_extractor_for.Gateway.Proxy.{
  Outgoing, asks, pass_on, bearer, json_payload, stream_payload, undeclared, broken_off,
  control_proxy, bound_control, is_control_operation, stable_fields_match, seed_proxy, Upload,
}
use gpt_trace_extractor_for.Gateway.Mcp.{Headers, header, forwarded_headers}
use gpt_trace_extractor_for.Gateway.Safe.{IsSafe, forwarded_headers-IsSafe}
use gpt_trace_extractor_for.Gateway.Chunks.{IsCut}
use gpt_trace_extractor_for.Gateway.Binding.{
  activates, deactivates, run_all, ReleasedBy, binding_held, run, binding-Justified, Justified,
}
use gpt_trace_extractor_for.Gateway.Forwarding.{control_goes_to_backend, seed_goes_to_backend}

abbrev trusting : TextTools
trusting = record {
  len = λ s. 64;
  rstrip_slash = λ s. s;
  scheme = λ s. "http";
  hostname = λ s. some "kali-workstation-controller";
  port = λ s. some 8000;
  path = λ s. "";
  query = λ s. "";
  fragment = λ s. "";
  username = λ s. none;
  password = λ s. none;
}

abbrev backend : ActiveBackend
backend = record {
  task_id = "t";
  attempt = 1;
  environment_id = "e";
  task_fingerprint = "f";
  backend_url = "http://kali-workstation-controller:8000";
  backend_token = "secret";
}

abbrev unbound : GatewayState
unbound = record { app_id = "kali-workstation"; control_token = "k"; active = none }

abbrev bound : GatewayState
bound = record unbound { active = some backend }

abbrev identity_fields : Fields
identity_fields = field "task_id" (text "t") (
    field "attempt" (int 1)
      (field "environment_id" (text "e") (field "task_fingerprint" (text "f") end)))

abbrev activation : Request
activation = record {
  authorization = "Bearer k";
  body_size = 100;
  json = some (
      object (
        field "backend_url" (text "http://kali-workstation-controller:8000")
          (field "backend_token" (text "secret") identity_fields)));
}

abbrev control_request : Request
control_request = record {
  authorization = "Bearer k";
  body_size = 100;
  json = some (object identity_fields);
}

abbrev intruder : Request
intruder = record control_request { authorization = "Bearer x" }

activating : (activate trusting unbound activation).1 ≡ bound
unfolding activate candidate
activating = refl

binding-Justified_example :
    ((run trusting (activates activation) unbound).1.active ≡ none)
    ⊎ ((authorized unbound activation ≡ true)
        × Justified trusting
            (activates activation)
            unbound
            (run trusting (activates activation) unbound).1.active)
binding-Justified_example = binding-Justified trusting (activates activation) unbound

binding_held_example :
    ((run_all trusting (deactivates intruder ∷ activates activation ∷ []) bound).active
      ≡ some backend)
    ⊎ ReleasedBy trusting bound backend (deactivates intruder ∷ activates activation ∷ [])
binding_held_example =
    binding_held trusting (deactivates intruder ∷ activates activation ∷ []) bound backend refl

abbrev prepare_out : Outgoing
prepare_out = record {
  url = backend.backend_url ++ ("/control/" ++ "prepare");
  authorization = bearer backend;
  payload = json_payload identity_fields;
}

preparing : control_proxy trusting bound "prepare" control_request ≡ asks prepare_out pass_on
unfolding control_proxy bound_control body matches
preparing = refl

control_goes_to_backend_example :
    (b : ActiveBackend) × (fields : Fields) × (bound.active ≡ some b)
    × (authorized bound control_request ≡ true)
    × (is_control_operation "prepare" ≡ true)
    × (body control_request ≡ checked fields)
    × (prepare_out.url ≡ b.backend_url ++ ("/control/" ++ "prepare"))
    × (prepare_out.authorization ≡ bearer b)
    × (prepare_out.payload ≡ json_payload fields)
    × (stable_fields_match fields b ≡ true)
control_goes_to_backend_example =
    control_goes_to_backend trusting bound "prepare" control_request prepare_out pass_on preparing

abbrev upload : Upload
upload = record { media_type = "application/x-tar"; declared = undeclared; chunks = 5 ∷ 7 ∷ [] }

abbrev seed_out : Outgoing
seed_out = record {
  url = backend.backend_url ++ "/control/seed";
  authorization = bearer backend;
  payload = stream_payload (5 ∷ 7 ∷ []) true;
}

seeding : seed_proxy bound control_request upload ≡ asks seed_out pass_on
unfolding seed_proxy
seeding = refl

seed_goes_to_backend_example :
    (b : ActiveBackend) × (bound.active ≡ some b)
    × (authorized bound control_request ≡ true)
    × (upload.media_type ≡ "application/x-tar")
    × (seed_out.url ≡ b.backend_url ++ "/control/seed")
    × (seed_out.authorization ≡ bearer b)
    × (sent : List ℕ) × (ended : Bool) × (seed_out.payload ≡ stream_payload sent ended)
    × IsCut 0 upload.chunks (sent, ended)
seed_goes_to_backend_example =
    seed_goes_to_backend bound control_request upload seed_out pass_on seeding

-- an upload that passes the limit with its second chunk: the first one is sent
abbrev huge : Upload
huge = record upload { chunks = 704643072 ∷ 1 ∷ 7 ∷ [] }

breaking_off :
    seed_proxy bound control_request huge
    ≡ asks
        (record seed_out { payload = stream_payload (704643072 ∷ []) false })
        (broken_off (respond 413 (detail "seed archive is too large")))
unfolding seed_proxy
breaking_off = refl

abbrev client_headers : Headers
client_headers =
    ("authorization", "Bearer client") ∷ ("te", "x") ∷ ("authorization", "Bearer other") ∷ []

forwarded_headers-IsSafe_example :
    (header "authorization" (forwarded_headers (λ s. true) backend client_headers) ≡ bearer backend)
    × All (IsSafe backend) (forwarded_headers (λ s. true) backend client_headers)
forwarded_headers-IsSafe_example = forwarded_headers-IsSafe (λ s. true) backend client_headers
