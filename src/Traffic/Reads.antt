-- ===== src/Traffic/Reads.antt =====
-- What the runner asks the monitor of traffic.py. What arrives while it waits is a list of signals.
use gpt_trace_extractor_for.Base.{
  ℕ, String, Option, none, some, Bool, true, false, not, ◌&&◌, List, [], ◌∷◌, nat_beq, ◌==◌,
  string_eq, if◌then◌else◌,
}
use gpt_trace_extractor_for.Exceptions.{
  Outcome, ok, raised, RateLimit, rate_limited, ambiguous_submission, authentication_required,
}
use gpt_trace_extractor_for.Json.{Value, Fields, array, null, get, as_object, as_text, is_text}
use gpt_trace_extractor_for.Traffic.{Response, TrafficMonitor, Settings}
use gpt_trace_extractor_for.Traffic.Observe.{Signal, observe_all}

unfoldable pub validate_single_stream_request : TrafficMonitor → Outcome (Unit {0})
validate_single_stream_request m =
    if not (nat_beq m.stats.conversation_stream_requests 1)
    then raised
        (ambiguous_submission "expected exactly one frontend POST /backend-api/f/conversation")
    else ok tt

abbrev pub snapshot_of : List (String × Response) → String → Option Response
snapshot_of [] id = none
snapshot_of ((key, response) ∷ rest) id = if key == id then some response else snapshot_of rest id

abbrev is_array : Value → Bool
is_array (array items) = true
is_array null = false
is_array _ = false

abbrev with_messages : Option Fields → Option Fields
with_messages none = none
with_messages (some payload) = if is_array (get payload "messages") then some payload else none

-- a response that may be, whose body may be read
abbrev read_body : (Response → Option Value) → Option Response → Option Value
read_body loads none = none
read_body loads (some response) = loads response

abbrev payload_of : Option Value → Option Fields
payload_of none = none
payload_of (some value) = with_messages (as_object value)

abbrev or_later : Option Response → Option Response → Option Response
or_later (some response) later = some response
or_later none later = later

module _ (w : Settings) where
  -- the id of a user message, where it is a text that is not blank
  abbrev message_id : Option String → Outcome String
  message_id none =
      raised (ambiguous_submission "frontend conversation POST user message has no stable id")
  message_id (some id) =
      if w.strip id == ""
      then raised (ambiguous_submission "frontend conversation POST user message has no stable id")
      else ok (w.strip id)

  abbrev id_of_messages : List Fields → Outcome String
  id_of_messages (message ∷ []) = message_id (as_text (get message "id"))
  id_of_messages [] =
      raised
        (ambiguous_submission "expected exactly one frontend user message in conversation POST")
  id_of_messages (a ∷ b ∷ messages) =
      raised
        (ambiguous_submission "expected exactly one frontend user message in conversation POST")

  unfoldable pub submitted_user_message_id : TrafficMonitor → Outcome String
  submitted_user_message_id m = id_of_messages m.submitted_user_messages

  -- `natural_snapshot`, where `arrivals` came during the wait; `loads` reads a body
  unfoldable pub natural_snapshot :
      (Response → Option Value) → String → List Signal → TrafficMonitor → Option Fields
  natural_snapshot loads id arrivals m = payload_of (
      read_body loads (
        or_later (snapshot_of m.snapshots id)
          (snapshot_of (observe_all w arrivals m).snapshots id)))

  abbrev is_identity : Option String → Bool
  is_identity none = false
  is_identity (some id) = not (w.strip id == "")

  abbrev user_of : Option Fields → Outcome (Unit {0})
  user_of none = raised (
      authentication_required
        "ChatGPT /backend-api/me returned HTTP 200 without a valid user identity")
  user_of (some payload) =
      if is_text (get payload "object") "user" && is_identity (as_text (get payload "id"))
      then ok tt
      else raised (
          authentication_required
            "ChatGPT /backend-api/me returned HTTP 200 without a valid user identity")

  -- the body of `/backend-api/me`, if it can be read
  abbrev pub check_user : Option Value → Outcome (Unit {0})
  check_user none =
      raised (authentication_required "ChatGPT /backend-api/me returned unreadable JSON")
  check_user (some value) = user_of (as_object value)

  abbrev me_limit : Option RateLimit → Outcome (Unit {0})
  me_limit (some limit) = raised (rate_limited "ChatGPT /backend-api/me returned HTTP 429" limit)
  me_limit none = raised (
      rate_limited "ChatGPT /backend-api/me returned HTTP 429 while waiting for authentication"
        (record {
          retry_after_seconds = none;
          endpoint = some "/backend-api/me";
          method = some "GET";
          request_id = none;
        }))

  abbrev is_limited : Option ℕ → Bool
  is_limited none = false
  is_limited (some status) = nat_beq status 429

  abbrev answered : (Response → Option Value) → Option Response → Option (Outcome (Unit {0}))
  answered loads none = none
  answered loads (some response) = some (check_user (loads response))

  abbrev unless_session :
      Option RateLimit → Option (Outcome (Unit {0})) → Option (Outcome (Unit {0}))
  unless_session (some limit) rest =
      some (raised (rate_limited "ChatGPT /api/auth/session returned HTTP 429" limit))
  unless_session none rest = rest

  -- one look of `wait_for_authenticated_user`, where it decides
  unfoldable pub look : (Response → Option Value) → TrafficMonitor → Option (Outcome (Unit {0}))
  look loads m = unless_session m.auth_session_rate_limit (
      if is_limited m.auth_me_last_status
      then some (me_limit m.auth_me_rate_limit)
      else answered loads m.auth_me_response)

  -- the looks, each behind what arrived since the one before; then the time is over
  unfoldable pub wait_for_authenticated_user :
      (Response → Option Value) → List (List Signal) → TrafficMonitor → Outcome (Unit {0})
  wait_for_authenticated_user loads [] m = elim (look loads m) [
    | some verdict ↦ verdict
    | none ↦ raised (authentication_required "ChatGPT backend session was not authenticated")
  ]
  wait_for_authenticated_user loads (arrivals ∷ later) m =
      let rest =
        wait_for_authenticated_user loads later
          (record (observe_all w arrivals m) { auth_me_event = false }) in
      elim (look loads m) [ some verdict ↦ verdict | none ↦ rest ]
