-- ===== src/Gateway.antt =====
-- apps/mcp-gateway/src/mcp_gateway/server.py: the state of the gateway and the handlers that bind
-- it to one workstation backend. A handler returns its response and the new state. `urlparse`,
-- `str.rstrip` and the length of a text are parameters.
pub mod Control
pub mod Proxy
pub mod Mcp
pub mod Binding
pub mod Chunks
pub mod Forwarding
pub mod Safe
pub mod Tests
use Prim.Native.String.{◌++◌}
use gpt_trace_extractor_for.Base.{
  ℕ, String, Option, none, some, Bool, true, false, not, ◌&&◌, ◌||◌, ◌==◌, string_eq, nat_eq,
  option_eq, nat_beq, ltb, leb, if◌then◌else◌,
}
use gpt_trace_extractor_for.Json.{Value, Fields, null, int, text, get, as_object, as_text, object}

-- what the program reads of a Python text or URL
pub record TextTools : Type 0 where
  pub len : String → ℕ
  pub rstrip_slash : String → String
  pub scheme : String → String
  pub hostname : String → Option String
  pub port : String → Option ℕ
  pub path : String → String
  pub query : String → String
  pub fragment : String → String
  pub username : String → Option String
  pub password : String → Option String

abbrev pub max_control_body : ℕ
max_control_body = 1048576

abbrev pub max_seed_upload_bytes : ℕ
max_seed_upload_bytes = 704643072

pub record ActiveBackend : Type 0 where
  pub task_id : String
  pub attempt : ℕ
  pub environment_id : String
  pub task_fingerprint : String
  pub backend_url : String
  pub backend_token : String

pub record Identity : Type 0 where
  pub task_id : String
  pub attempt : ℕ
  pub environment_id : String
  pub task_fingerprint : String

abbrev pub identity_of : ActiveBackend → Identity
identity_of b = record {
  task_id = b.task_id;
  attempt = b.attempt;
  environment_id = b.environment_id;
  task_fingerprint = b.task_fingerprint;
}

pub record GatewayState : Type 0 where
  pub app_id : String
  pub control_token : String
  pub active : Option ActiveBackend

-- a request: its `authorization` header or "", the size of its body, and the body as JSON
pub record Request : Type 0 where
  pub authorization : String
  pub body_size : ℕ
  pub json : Option Value

-- The content of a response. `public` is `ActiveBackend.public()`, which has no token.
pub data Content : Type 0 where
  detail : String → Content
  health_of : String → Bool → Content
  public : Identity → String → Content
  status_of : String → Option (Identity × String) → Content
  idle : Identity → Content
  json : Value → Content
  streamed : Content

pub record Response : Type 0 where
  pub status_code : ℕ
  pub content : Content

abbrev pub respond : ℕ → Content → Response
respond code content = record { status_code = code; content = content }

abbrev pub unauthorized : Response
unauthorized = respond 401 (detail "unauthorized")

-- `GatewayState.authorized`
unfoldable pub authorized : GatewayState → Request → Bool
authorized state request = request.authorization == ("Bearer " ++ state.control_token)

-- a value, or the text of the `ValueError`
pub data Checked {ℓ} (A : Type ℓ) : Type ℓ where
  checked : A → Checked A
  value_error : String → Checked A

infixl 5 ◌>>=◌ ◌>>◌
abbrev pub ◌>>=◌ {ℓ κ} : {A : Type ℓ} {B : Type κ} → Checked A → (A → Checked B) → Checked B
checked a >>= f = f a
value_error e >>= f = value_error e

abbrev pub ◌>>◌ {ℓ κ} : {A : Type ℓ} {B : Type κ} → Checked A → Checked B → Checked B
m >> k = m >>= λ _. k

-- `if not test: raise ValueError(message)`
abbrev pub require : Bool → String → Checked (Unit {0})
require true message = checked tt
require false message = value_error message

-- `_body`
unfoldable pub body : Request → Checked Fields
body request =
    if ltb max_control_body request.body_size
    then value_error "control body is too large"
    else elim request.json [
      | none ↦ value_error "control request must contain valid JSON"
      | some value ↦ elim (as_object value) [
        | none ↦ value_error "control request must be a JSON object"
        | some fields ↦ checked fields
      ]
    ]

-- `isinstance(value, str) and value`
abbrev pub non_empty_text : Value → String → Checked String
non_empty_text (text s) message = if s == "" then value_error message else checked s
non_empty_text null message = value_error message
non_empty_text _ message = value_error message

-- an `int` that is no `bool` and at least 1
abbrev pub positive_int : Value → String → Checked ℕ
positive_int (int n) message = if leb 1 n then checked n else value_error message
positive_int null message = value_error message
positive_int _ message = value_error message

-- `x in {"", "/"}`
abbrev is_root_path : String → Bool
is_root_path path = path == "" || path == "/"

-- the comparison of `_matches`
abbrev pub same_identity : Identity → ActiveBackend → Bool
same_identity i b =
    i.task_id == b.task_id
    && nat_beq i.attempt b.attempt
    && i.environment_id == b.environment_id
    && i.task_fingerprint == b.task_fingerprint

module _ (tools : TextTools) where
  abbrev pub text_where : Value → (String → Bool) → String → Checked String
  text_where (text s) test message = if test s then checked s else value_error message
  text_where null test message = value_error message
  text_where _ test message = value_error message

  -- `_identity`
  unfoldable pub identity : Fields → Checked Identity
  identity fields = do
    task_id ← non_empty_text (get fields "task_id") "task_id is required"
    attempt ← positive_int (get fields "attempt") "attempt must be a positive integer"
    environment_id ← non_empty_text (get fields "environment_id") "environment_id is required"
    fingerprint ←
        text_where (get fields "task_fingerprint") (λ s. nat_beq (tools.len s) 64)
          "task_fingerprint must be a SHA-256 hex digest"
    checked (record {
      task_id = task_id;
      attempt = attempt;
      environment_id = environment_id;
      task_fingerprint = fingerprint;
    })

  -- `_matches`
  unfoldable pub matches : ActiveBackend → Fields → Bool
  unfolding identity
  matches active fields = elim (identity fields) [
    | value_error e ↦ false
    | checked i ↦ same_identity i active
  ]

  unfoldable pub is_trusted_url : String → Bool
  is_trusted_url url =
      tools.scheme url == "http"
      && tools.port url == some 8000
      && tools.hostname url == some "kali-workstation-controller"
      && is_root_path (tools.path url)
      && tools.query url == ""
      && tools.fragment url == ""
      && tools.username url == none
      && tools.password url == none

  -- `GatewayState.validate_backend_url`
  unfoldable pub validate_backend_url : Value → Checked String
  unfolding is_trusted_url
  validate_backend_url value = do
    url ← non_empty_text value "backend_url must be a non-empty string"
    require (is_trusted_url url)
        "backend_url must be the trusted workstation controller at port 8000"
    checked (tools.rstrip_slash url)

  -- the backend that an activation asks for
  unfoldable pub candidate : Request → Checked ActiveBackend
  unfolding body identity validate_backend_url
  candidate request = do
    fields ← body request
    i ← identity fields
    url ← validate_backend_url (get fields "backend_url")
    token ←
        text_where (get fields "backend_token") (λ s. leb 32 (tools.len s))
          "backend_token is missing or too short"
    checked (record {
      task_id = i.task_id;
      attempt = i.attempt;
      environment_id = i.environment_id;
      task_fingerprint = i.task_fingerprint;
      backend_url = url;
      backend_token = token;
    })
