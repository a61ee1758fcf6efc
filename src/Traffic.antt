-- ===== src/Traffic.antt =====
-- apps/runner/src/gpt_trace_runner/traffic.py: what the runner watches of the browser's traffic. Here
-- are the state of `TrafficMonitor` and its tests of an address; Observe.antt has the handlers of the
-- page's events, Reads.antt what the runner asks. A URL comes parsed, as by `urlparse`; times are
-- those of `time.monotonic()`. The time of the last request that all monitors of the process share is
-- not modelled, and neither are the waiters of a snapshot.
pub mod Observe
pub mod Reads
pub mod Single
pub mod Earlier
pub mod Tests
use Prim.Native.String.{◌++◌}
use package.text.Mathlib.Text.{starts_with}
use gpt_trace_extractor_for.Base.{
  ℕ, suc, String, Option, none, some, Bool, true, false, ◌&&◌, ◌||◌, List, [], ◌∷◌, ◌==◌, string_eq,
  option_eq, nat_eq, if◌then◌else◌,
}
use gpt_trace_extractor_for.Exceptions.{RateLimit}
use gpt_trace_extractor_for.Json.{Value, Fields}

pub record Url : Type 0 where
  pub scheme : String
  pub hostname : Option String
  pub port : Option ℕ
  pub path : String
  pub query : String

pub record Request : Type 0 where
  -- `id(request)`
  pub identity : ℕ
  pub url : Url
  pub method : String
  -- `post_data_json`, which may raise
  pub post_data_json : Option Value

pub record Response : Type 0 where
  pub request : Request
  pub url : Url
  pub status : ℕ
  pub retry_after : Option String
  pub x_request_id : Option String
  pub openai_request_id : Option String

pub record TrafficStats : Type 0 where
  pub chatgpt_requests : ℕ
  pub backend_requests : ℕ
  pub sentinel_requests : ℕ
  pub conversation_requests : ℕ
  pub conversation_prepare_requests : ℕ
  pub conversation_stream_requests : ℕ
  pub requests_failed : ℕ
  pub responses_403 : ℕ
  pub responses_429 : ℕ
  pub last_429_method : Option String
  pub last_429_path : Option String
  pub last_429_retry_after : Option String
  pub last_429_request_id : Option String
  pub responses_5xx : ℕ
  pub challenge_seen : Bool
  pub challenge_resolved : Bool
  pub natural_snapshot_used : Bool
  pub fallback_snapshot_used : Bool
  pub submitted_model : Option String
  pub submitted_timezone : Option String
  pub submitted_timezone_offset_min : Option Value
  pub app_system_hints : List String

abbrev pub no_stats : TrafficStats
no_stats = record {
  chatgpt_requests = 0;
  backend_requests = 0;
  sentinel_requests = 0;
  conversation_requests = 0;
  conversation_prepare_requests = 0;
  conversation_stream_requests = 0;
  requests_failed = 0;
  responses_403 = 0;
  responses_429 = 0;
  last_429_method = none;
  last_429_path = none;
  last_429_retry_after = none;
  last_429_request_id = none;
  responses_5xx = 0;
  challenge_seen = false;
  challenge_resolved = false;
  natural_snapshot_used = false;
  fallback_snapshot_used = false;
  submitted_model = none;
  submitted_timezone = none;
  submitted_timezone_offset_min = none;
  app_system_hints = [];
}

pub record TrafficMonitor : Type 0 where
  pub generation : ℕ
  pub stats : TrafficStats
  pub snapshots : List (String × Response)
  pub request_generation : List (ℕ × ℕ)
  pub task_403 : Bool
  pub sticky_429 : Bool
  pub submitted_user_messages : List Fields
  pub auth_me_response : Option Response
  pub auth_me_last_status : Option ℕ
  pub auth_me_event : Bool
  pub auth_me_rate_limit : Option RateLimit
  pub auth_session_rate_limit : Option RateLimit
  pub last_backend_request_at : Option ℕ

-- `__init__`
abbrev pub new_monitor : TrafficMonitor
new_monitor = record {
  generation = 0;
  stats = no_stats;
  snapshots = [];
  request_generation = [];
  task_403 = false;
  sticky_429 = false;
  submitted_user_messages = [];
  auth_me_response = none;
  auth_me_last_status = none;
  auth_me_event = false;
  auth_me_rate_limit = none;
  auth_session_rate_limit = none;
  last_backend_request_at = none;
}

-- the base address, and the operations on texts that the monitor uses
pub record Settings : Type 0 where
  pub base_scheme : String
  pub base_host : String
  pub base_port : Option ℕ
  pub ends_with : String → String → Bool
  -- `path.rstrip("/")`
  pub without_slashes : String → String
  pub upper : String → String
  pub strip : String → String
  -- the match of `_CONVERSATION_SNAPSHOT`
  pub snapshot_id : String → Option String
  pub parse_retry_after : Option String → Option ℕ

unfoldable pub begin_task : TrafficMonitor → TrafficMonitor
begin_task m = record m {
  generation = suc m.generation;
  stats = no_stats;
  snapshots = [];
  task_403 = false;
  sticky_429 = false;
  submitted_user_messages = [];
  auth_session_rate_limit = none;
}

unfoldable pub reset_auth_probe : TrafficMonitor → TrafficMonitor
reset_auth_probe m = record m {
  auth_me_response = none;
  auth_me_last_status = none;
  auth_me_event = false;
  auth_me_rate_limit = none;
  auth_session_rate_limit = none;
}

abbrev pub or_empty : Option String → String
or_empty none = ""
or_empty (some s) = s

-- `a or b` for headers
abbrev pub or_header : Option String → Option String → Option String
or_header none b = b
or_header (some s) b = if s == "" then b else some s

module _ (w : Settings) where
  unfoldable pub is_chatgpt_host : Url → Bool
  is_chatgpt_host url =
      let host = or_empty url.hostname in
      host == w.base_host
      || w.ends_with host ("." ++ w.base_host)
      || host == "openai.com"
      || w.ends_with host ".openai.com"

  unfoldable pub is_exact_base_origin : Url → Bool
  is_exact_base_origin url =
      url.scheme == w.base_scheme && url.hostname == some w.base_host && url.port == w.base_port

unfoldable pub is_backend_path : String → Bool
is_backend_path path = starts_with path "/backend-api/" || starts_with path "/backend-anon/"
