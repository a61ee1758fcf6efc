-- ===== src/Conversation/Client.antt =====
-- `ConversationClient` of conversation.py: `fetch` and `delete`. The script that each of them runs in
-- the page is a parameter, which yields the fields that the client reads; so is the hook that paces
-- the requests. Times are those of the event loop.
use gpt_trace_extractor_for.Base.{
  ℕ, zero, suc, ◌+◌, ◌-◌, ◌*◌, String, Option, none, some, Bool, true, false, not, ◌&&◌, ◌||◌, List,
  ◌∷◌, ltb, nat_beq, ◌==◌, string_eq, if◌then◌else◌,
}
use gpt_trace_extractor_for.Exceptions.{
  Exn, Outcome, ok, raised, RateLimit, rate_limited, retry_delay, authentication_required,
  access_denied, conversation_error, conversation_not_found, other_exception,
  default_rate_limit_fallback_seconds,
}
use gpt_trace_extractor_for.Json.{Value, Fields, as_object}

-- the object that the script returns
pub record Result : Type 0 where
  pub session_status : ℕ
  pub session_retry_after : Option String
  pub session_request_id : Option String
  pub token_present : Bool
  pub status : ℕ
  pub is_ok : Bool
  pub retry_after : Option String
  pub request_id : Option String
  pub text : String

-- `page.evaluate` raises, returns what is no dictionary, or a result; the first two with whether the
-- script got as far as its second request
pub data Evaluated : Type 0 where
  failed invalid : Bool → Evaluated
  answered : Result → Evaluated

-- The script makes two requests: it asks for the session, and then, if that yields a token, it
-- makes the request of the client. Both are noted with their times, and so is what came back.
pub data Exchange : Type 0 where
  asked_session requested : ℕ → Exchange
  got : ℕ → Evaluated → Exchange

-- the time, and what happened, newest first
pub record Clock : Type 0 where
  pub now : ℕ
  pub log : List Exchange

pub record Page : Type 0 where
  -- `before_backend_request`: how long it waits
  pub pace : Clock → Outcome ℕ
  pub evaluate : Clock → Evaluated
  -- how long the script takes up to its second request, and from there on
  pub gap : Clock → ℕ
  pub duration : Clock → ℕ
  pub strip : String → String
  pub parse_retry_after : Option String → Option ℕ
  pub loads : String → Option Value

abbrev pub waited : ℕ → Clock → Clock
waited t c = record c { now = c.now + t }

-- The script makes its second request when it has a token.
abbrev pub makes_request : Evaluated → Bool
makes_request (failed made) = made
makes_request (invalid made) = made
makes_request (answered r) = r.token_present

abbrev pub note_request : Bool → ℕ → List Exchange → List Exchange
note_request true t log = requested t ∷ log
note_request false t log = log

-- a run of the script at the time, with the log of before
abbrev pub script_log : Evaluated → ℕ → ℕ → ℕ → List Exchange → List Exchange
script_log e now gap duration log =
    got (now + gap + duration) e
    ∷ note_request (makes_request e) (now + gap) (asked_session now ∷ log)

-- what the client makes of an answer
pub data Verdict (A : Type 0) : Type 0 where
  accepts : A → Verdict A
  refuses : Exn → Verdict A
  limits : String → RateLimit → Verdict A

module _ (p : Page) where
  -- `request_id_raw.strip()` where it is a text that is not blank
  abbrev stripped : Option String → Option String
  stripped none = none
  stripped (some s) = if p.strip s == "" then none else some (p.strip s)

  -- `_rate_limited`
  unfoldable pub limit_of : Option String → Option String → String → String → RateLimit
  limit_of retry_after request_id endpoint method = record {
    retry_after_seconds = p.parse_retry_after retry_after;
    endpoint = some endpoint;
    method = some method;
    request_id = stripped request_id;
  }

  -- `_check_session_rate_limit` and the token, and then `rest`
  unfoldable pub check_session : {A : Type 0} → Result → Verdict A → Verdict A
  check_session r rest =
      if nat_beq r.session_status 429
      then limits "ChatGPT auth session returned HTTP 429"
          (limit_of r.session_retry_after r.session_request_id "/api/auth/session" "GET")
      else if not r.token_present
      then refuses
          (authentication_required "ChatGPT browser session did not yield a backend access token")
      else rest

  abbrev object_of : Option Fields → Verdict Fields
  object_of none = refuses (conversation_error "conversation endpoint returned non-object JSON")
  object_of (some payload) = accepts payload

  abbrev read_json : Option Value → Verdict Fields
  read_json none = refuses (conversation_error "conversation endpoint returned invalid JSON")
  read_json (some value) = object_of (as_object value)

  -- the answer of `fetch`
  unfoldable pub fetched : String → Result → Verdict Fields
  fetched endpoint r = check_session r (
      if nat_beq r.status 401
      then refuses (
          authentication_required
            "conversation snapshot rejected the authenticated backend token (HTTP 401)")
      else if nat_beq r.status 403
      then refuses (access_denied "conversation snapshot returned HTTP 403")
      else if nat_beq r.status 404
      then refuses (conversation_not_found "conversation was not found (HTTP 404)")
      else if nat_beq r.status 429
      then limits "conversation snapshot returned HTTP 429"
          (limit_of r.retry_after r.request_id endpoint "GET")
      else if not r.is_ok
      then refuses (conversation_error "conversation snapshot HTTP")
      else read_json (p.loads r.text))

  -- the answer of `delete`
  unfoldable pub deleted : String → Result → Verdict (Unit {0})
  deleted endpoint r = check_session r (
      if nat_beq r.status 200 || nat_beq r.status 204 || nat_beq r.status 404
      then accepts tt
      else if nat_beq r.status 401
      then refuses (
          authentication_required
            "conversation delete rejected the authenticated backend token (HTTP 401)")
      else if nat_beq r.status 403
      then refuses (access_denied "conversation delete returned HTTP 403")
      else if nat_beq r.status 429
      then limits "conversation delete returned HTTP 429"
          (limit_of r.retry_after r.request_id endpoint "DELETE")
      else refuses (conversation_error "conversation delete HTTP"))

  unfoldable pub judge : {A : Type 0} → (Result → Verdict A) → Evaluated → Verdict A
  judge f (failed made) = refuses (conversation_error "request failed")
  judge f (invalid made) = refuses (conversation_error "request returned invalid result")
  judge f (answered r) = f r

  abbrev pub ask_behind :
      {A : Type 0} → (Result → Verdict A) → Outcome ℕ → Clock → Verdict A × Clock
  ask_behind f (raised e) c = (refuses e, c)
  ask_behind f (ok t) c =
      let d = waited t c in
      (
        judge f (p.evaluate d),
        record d {
          now = d.now + p.gap d + p.duration d;
          log = script_log (p.evaluate d) d.now (p.gap d) (p.duration d) d.log;
        },
      )

  -- one run of the script behind the pacing hook
  unfoldable pub ask : {A : Type 0} → (Result → Verdict A) → Clock → Verdict A × Clock
  ask f c = ask_behind f (p.pace c) c

  abbrev outcome_of : {A : Type 0} → Verdict A × Clock → Outcome A × Clock
  outcome_of (accepts a, c) = (ok a, c)
  outcome_of (refuses e, c) = (raised e, c)
  outcome_of (limits m limit, c) = (raised (rate_limited m limit), c)

  unfoldable pub fetch : String → Clock → Outcome Fields × Clock
  fetch endpoint c = outcome_of (ask (fetched endpoint) c)

  -- the delay of `wait_before_retry`
  abbrev pub delay_of : Verdict (Unit {0}) → ℕ → ℕ
  delay_of (limits m limit) fallback =
      retry_delay limit fallback default_rate_limit_fallback_seconds
  delay_of (accepts u) fallback = 0
  delay_of (refuses e) fallback = 0

  -- the retry may begin before the deadline
  abbrev pub is_in_window : ℕ → ℕ → Clock → Bool
  is_in_window deadline delay c = not (ltb 0 delay && ltb (deadline - c.now) delay)

  abbrev pub retried :
      Bool
      → Bool
      → Verdict (Unit {0}) × Clock
      → Outcome (Unit {0}) × Clock
      → Outcome (Unit {0}) × Clock
  retried last in_window (accepts u, c) rest = (ok u, c)
  retried last in_window (refuses e, c) rest = (raised e, c)
  retried true in_window (limits m limit, c) rest = (raised (rate_limited m limit), c)
  retried false false (limits m limit, c) rest = (raised (rate_limited m limit), c)
  retried false true (limits m limit, c) rest = rest

  -- `for attempt in range(max_attempts)`, with the attempts that are left; the fallback doubles
  unfoldable pub delete_from : String → ℕ → ℕ → ℕ → Clock → Outcome (Unit {0}) × Clock
  unfolding ask
  delete_from endpoint deadline fallback zero c = (raised (other_exception "AssertionError"), c)
  delete_from endpoint deadline fallback (suc left) c =
      let (verdict, d) = ask (deleted endpoint) c in
      let delay = delay_of verdict fallback in
      let rest = delete_from endpoint deadline (2 * fallback) left (waited delay d) in
      retried (nat_beq left 0) (is_in_window deadline delay d) (verdict, d) rest

  -- `delete` with its default settings
  unfoldable pub delete : String → Clock → Outcome (Unit {0}) × Clock
  delete endpoint c =
      delete_from endpoint (c.now + default_rate_limit_fallback_seconds)
        default_rate_limit_fallback_seconds 3 c
