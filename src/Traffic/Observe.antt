-- ===== src/Traffic/Observe.antt =====
-- The handlers of the page's events in traffic.py.
use package.text.Mathlib.Text.{starts_with, find?}
use Prim.Native.String.{compare, ◌++◌}
use Prim.Native.Nat.{Ordering}
use gpt_trace_extractor_for.Base.{
  ℕ, ◌+◌, String, Option, none, some, Bool, true, false, not, ◌&&◌, ◌||◌, List, [], ◌∷◌, ltb,
  nat_beq, ◌==◌, string_eq, if◌then◌else◌,
}
use gpt_trace_extractor_for.Exceptions.{RateLimit}
use gpt_trace_extractor_for.Json.{
  Value, Items, Fields, null, bool, int, negative, text, array, nil, cons, get, as_object, as_text,
  is_text,
}
use gpt_trace_extractor_for.Traffic.{
  Request, Response, TrafficMonitor, Settings, or_header, is_chatgpt_host, is_exact_base_origin,
  is_backend_path, begin_task,
}

abbrev pub flag : Bool → ℕ
flag true = 1
flag false = 0

-- `part in path`
abbrev pub has_part : String → String → Bool
has_part part path = elim (find? path part) [ some at ↦ true | none ↦ false ]

-- `dict.get`, `dict.pop`
abbrev pub generation_of : List (ℕ × ℕ) → ℕ → ℕ → ℕ
generation_of [] identity default = default
generation_of ((key, generation) ∷ rest) identity default =
    if nat_beq key identity then generation else generation_of rest identity default

abbrev pub without : List (ℕ × ℕ) → ℕ → List (ℕ × ℕ)
without [] identity = []
without ((key, generation) ∷ rest) identity =
    if nat_beq key identity
    then without rest identity
    else (key, generation) ∷ without rest identity

unfoldable pub belongs_to_current : Request → TrafficMonitor → Bool
belongs_to_current r m =
    nat_beq (generation_of m.request_generation r.identity m.generation) m.generation

unfoldable pub forget : Request → TrafficMonitor → TrafficMonitor
forget r m = record m { request_generation = without m.request_generation r.identity }

-- the texts of a set in their order
abbrev insert_text : String → List String → List String
insert_text x [] = x ∷ []
insert_text x (y ∷ ys) = elim (compare x y) [
  | Ordering.lt ↦ x ∷ y ∷ ys
  | Ordering.eq ↦ y ∷ ys
  | Ordering.gt ↦ y ∷ insert_text x ys
]

-- the App hints of `system_hints`, added to those that were seen
abbrev add_hint : Option String → List String → List String
add_hint none seen = seen
add_hint (some hint) seen =
    if starts_with hint "plugin:asdk_app_" then insert_text hint seen else seen

abbrev add_hints : Items → List String → List String
add_hints nil seen = seen
add_hints (cons hint hints) seen = add_hint (as_text hint) (add_hints hints seen)

abbrev hints_of : Value → List String → List String
hints_of (array hints) seen = add_hints hints seen
hints_of null seen = seen
hints_of _ seen = seen

-- the messages whose author is a user
abbrev is_user : Option Fields → Bool
is_user none = false
is_user (some author) = is_text (get author "role") "user"

abbrev add_user_message : Option Fields → List Fields → List Fields
add_user_message none rest = rest
add_user_message (some message) rest =
    if is_user (as_object (get message "author")) then message ∷ rest else rest

abbrev user_messages : Items → List Fields
user_messages nil = []
user_messages (cons message messages) =
    add_user_message (as_object message) (user_messages messages)

abbrev messages_of : Value → List Fields → List Fields
messages_of (array messages) old = user_messages messages
messages_of null old = old
messages_of _ old = old

abbrev text_of : Value → Option String → Option String
text_of (text s) old = some s
text_of null old = old
text_of _ old = old

-- `isinstance(offset, int)`, which holds of a Boolean too
abbrev int_of : Value → Option Value → Option Value
int_of (int n) old = some (int n)
int_of (negative n) old = some (negative n)
int_of (bool b) old = some (bool b)
int_of null old = old
int_of _ old = old

-- `post_data_json` where it is an object
abbrev payload_of : Option Value → Option Fields
payload_of none = none
payload_of (some value) = as_object value

unfoldable pub note_hints : Option Fields → TrafficMonitor → TrafficMonitor
note_hints none m = m
note_hints (some payload) m = record m {
  stats = record m.stats {
    app_system_hints = hints_of (get payload "system_hints") m.stats.app_system_hints;
  };
}

unfoldable pub note_payload : Option Fields → TrafficMonitor → TrafficMonitor
note_payload none m = m
note_payload (some payload) m = record m {
  stats = record m.stats {
    submitted_model = text_of (get payload "model") m.stats.submitted_model;
    submitted_timezone = text_of (get payload "timezone") m.stats.submitted_timezone;
    submitted_timezone_offset_min =
        int_of (get payload "timezone_offset_min") m.stats.submitted_timezone_offset_min;
  };
  submitted_user_messages = messages_of (get payload "messages") m.submitted_user_messages;
}

-- what the monitor is called with
pub data Signal : Type 0 where
  begins : Signal
  requested : Request → ℕ → Signal
  responded : Response → Signal
  failed : Request → Signal

module _ (w : Settings) where
  abbrev pub path_of : Request → String
  path_of r = w.without_slashes r.url.path

  abbrev is_post : Request → Bool
  is_post r = w.upper r.method == "POST"

  -- `path == "/backend-api/f/conversation" and method == "POST"`
  unfoldable pub is_stream_request : Request → Bool
  is_stream_request r = path_of r == "/backend-api/f/conversation" && is_post r

  unfoldable pub is_auth_session : Request → Bool
  is_auth_session r = is_exact_base_origin w r.url && path_of r == "/api/auth/session"

  -- the counters of `_on_request` before it reads the payload
  unfoldable pub count_request : Request → ℕ → TrafficMonitor → TrafficMonitor
  count_request r now m =
      let path = path_of r in
      record m {
        request_generation = (r.identity, m.generation) ∷ without m.request_generation r.identity;
        last_backend_request_at =
            if is_backend_path path || is_auth_session r
            then some now
            else m.last_backend_request_at;
        stats = record m.stats {
          chatgpt_requests = m.stats.chatgpt_requests + 1;
          backend_requests = m.stats.backend_requests + flag (is_backend_path path);
          sentinel_requests = m.stats.sentinel_requests + flag (has_part "/sentinel/" path);
          conversation_requests =
              m.stats.conversation_requests + flag (has_part "/conversation" path);
          conversation_prepare_requests =
              m.stats.conversation_prepare_requests
              + flag (path == "/backend-api/f/conversation/prepare");
        };
      }

  unfoldable pub read_hints : Request → TrafficMonitor → TrafficMonitor
  read_hints r m =
      if is_post r
        && (path_of r == "/backend-api/conversation/init"
            || path_of r == "/backend-api/f/conversation/prepare"
            || path_of r == "/backend-api/f/conversation")
      then note_hints (payload_of r.post_data_json) m
      else m

  unfoldable pub count_stream : TrafficMonitor → TrafficMonitor
  count_stream m = record m {
    stats = record m.stats {
      conversation_stream_requests = m.stats.conversation_stream_requests + 1;
    };
  }

  unfoldable pub read_submission : Request → TrafficMonitor → TrafficMonitor
  read_submission r m =
      if is_stream_request r then note_payload (payload_of r.post_data_json) (count_stream m) else m

  unfoldable pub on_request : Request → ℕ → TrafficMonitor → TrafficMonitor
  on_request r now m =
      if not (is_chatgpt_host w r.url)
      then m
      else read_submission r (read_hints r (count_request r now m))

  abbrev request_id : Response → Option String
  request_id r = or_header r.x_request_id r.openai_request_id

  abbrev limit_of : Response → String → String → RateLimit
  limit_of r endpoint method = record {
    retry_after_seconds = w.parse_retry_after r.retry_after;
    endpoint = some endpoint;
    method = some method;
    request_id = request_id r;
  }

  abbrev pub response_path : Response → String
  response_path r = w.without_slashes r.url.path

  abbrev is_session_response : Response → Bool
  is_session_response r = is_exact_base_origin w r.url && response_path r == "/api/auth/session"

  unfoldable pub note_429 : Bool → Response → TrafficMonitor → TrafficMonitor
  note_429 current r m =
      if current
        && nat_beq r.status 429
        && (is_backend_path (response_path r) || is_session_response r)
      then record m {
        stats = record m.stats {
          responses_429 = m.stats.responses_429 + 1;
          last_429_method = some (w.upper r.request.method);
          last_429_path =
              some (if r.url.query == "" then r.url.path else r.url.path ++ ("?" ++ r.url.query));
          last_429_retry_after = r.retry_after;
          last_429_request_id = request_id r;
        };
      }
      else m

  unfoldable pub note_session : Bool → Response → TrafficMonitor → TrafficMonitor
  note_session current r m =
      if current && is_session_response r
      then record m {
        auth_session_rate_limit =
            if nat_beq r.status 429
            then some (limit_of r "/api/auth/session" (w.upper r.request.method))
            else none;
        auth_me_event = true;
      }
      else m

  unfoldable pub note_me : Response → TrafficMonitor → TrafficMonitor
  note_me r m =
      if is_exact_base_origin w r.url
        && response_path r == "/backend-api/me"
        && w.upper r.request.method == "GET"
      then (if nat_beq r.status 200
          then record m {
            auth_me_last_status = some r.status;
            auth_me_rate_limit = none;
            auth_session_rate_limit = none;
            auth_me_response = some r;
            auth_me_event = true;
          }
          else if nat_beq r.status 429
          then record m {
            auth_me_last_status = some r.status;
            auth_me_response = none;
            auth_me_rate_limit = some (limit_of r "/backend-api/me" "GET");
            auth_me_event = true;
          }
          else record m {
            auth_me_last_status = some r.status;
            auth_me_response = none;
            auth_me_event = false;
          })
      else m

  -- verification, authentication and cleanup, which handle a 429 themselves
  unfoldable pub is_auxiliary : String → Bool
  is_auxiliary path =
      path == "/backend-api/me"
      || path == "/backend-api/conversations"
      || starts_with path "/backend-api/conversations/"
      || starts_with path "/backend-api/conversation/id/"

  unfoldable pub note_status : Bool → Response → TrafficMonitor → TrafficMonitor
  note_status current r m =
      if not (is_backend_path (response_path r))
      then m
      else if nat_beq r.status 429
      then (if current && not (is_auxiliary (response_path r))
          then record m { sticky_429 = true }
          else m)
      else if nat_beq r.status 403 && current
      then record m {
        task_403 = true;
        stats = record m.stats { responses_403 = m.stats.responses_403 + 1 };
      }
      else if not (ltb r.status 500) && current
      then record m { stats = record m.stats { responses_5xx = m.stats.responses_5xx + 1 } }
      else m

  abbrev pub keep_snapshot : Option String → Response → TrafficMonitor → TrafficMonitor
  keep_snapshot none r m = m
  keep_snapshot (some id) r m = record m { snapshots = (id, r) ∷ m.snapshots }

  unfoldable pub note_snapshot : Bool → Response → TrafficMonitor → TrafficMonitor
  note_snapshot current r m =
      if current && w.upper r.request.method == "GET" && not (ltb r.status 200) && ltb r.status 300
      then keep_snapshot (w.snapshot_id (response_path r)) r m
      else m

  -- `_on_response`, with what `_belongs_to_current` said
  unfoldable pub note_response : Bool → Response → TrafficMonitor → TrafficMonitor
  note_response current r m =
      note_snapshot current r
        (note_status current r (note_me r (note_session current r (note_429 current r m))))

  unfoldable pub on_response : Response → TrafficMonitor → TrafficMonitor
  on_response r m =
      if not (is_chatgpt_host w r.url)
      then m
      else forget r.request (note_response (belongs_to_current r.request m) r m)

  unfoldable pub on_request_failed : Request → TrafficMonitor → TrafficMonitor
  on_request_failed r m = forget r (
      if is_chatgpt_host w r.url && belongs_to_current r m
      then record m { stats = record m.stats { requests_failed = m.stats.requests_failed + 1 } }
      else m)

  unfoldable pub observe : Signal → TrafficMonitor → TrafficMonitor
  observe begins m = begin_task m
  observe (requested r now) m = on_request r now m
  observe (responded r) m = on_response r m
  observe (failed r) m = on_request_failed r m

  unfoldable pub observe_all : List Signal → TrafficMonitor → TrafficMonitor
  observe_all [] m = m
  observe_all (signal ∷ signals) m = observe_all signals (observe signal m)
