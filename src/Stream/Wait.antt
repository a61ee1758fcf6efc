-- ===== src/Stream/Wait.antt =====
-- `ConversationStream` of stream.py: a response of the browser becomes a result or an exception.
-- The response is what Playwright gives of it; `parse_retry_after` is `_parse_retry_after` of
-- conversation.py, which reads the clock.
use gpt_trace_extractor_for.Base.{
  ℕ, String, Option, none, some, Bool, not, ◌==◌, string_eq, nat_beq, if◌then◌else◌,
}
use gpt_trace_extractor_for.Exceptions.{
  Outcome, ok, raised, ◌>>◌, rate_limited, access_denied, conversation_stream_protocol_error,
  conversation_stream_timeout, conversation_stream_aborted,
}
use gpt_trace_extractor_for.Json.{Value}
use gpt_trace_extractor_for.Stream.{Chars}
use gpt_trace_extractor_for.Stream.Inspect.{StreamResult, inspect_conversation_stream}

-- how `response.finished()` ends: in time with or without an error, or after the timeout
pub data Finished : Type 0 where
  complete failed timed_out : Finished

-- the body: it cannot be read, it is no UTF-8, or a text
pub data Body : Type 0 where
  unreadable undecodable : Body
  decoded : Chars → Body

pub record StreamResponse : Type 0 where
  pub status : ℕ
  pub is_ok : Bool
  pub retry_after : Option String
  pub x_request_id : Option String
  pub openai_request_id : Option String
  pub is_event_stream : Bool
  pub finished : Finished
  pub body : Body

-- `a or b` for headers
abbrev or_header : Option String → Option String → Option String
or_header none b = b
or_header (some s) b = if s == "" then b else some s

module _ (parse_retry_after : Option String → Option ℕ) (loads : Chars → Option Value) where
  unfoldable pub raise_for_initial_status : StreamResponse → Outcome (Unit {0})
  raise_for_initial_status response =
      if nat_beq response.status 429
      then raised (
          rate_limited "ChatGPT conversation stream returned HTTP 429" (record {
            retry_after_seconds = parse_retry_after response.retry_after;
            endpoint = some "/backend-api/f/conversation";
            method = some "POST";
            request_id = or_header response.x_request_id response.openai_request_id;
          }))
      else if nat_beq response.status 403
      then raised (access_denied "ChatGPT conversation stream returned HTTP 403")
      else ok tt

  abbrev read_body : Body → Outcome StreamResult
  read_body unreadable = raised (conversation_stream_aborted "could not read completed SSE body")
  read_body undecodable =
      raised (conversation_stream_protocol_error "conversation SSE body was not valid UTF-8")
  read_body (decoded stream) = inspect_conversation_stream loads stream

  abbrev when_finished : StreamResponse → Finished → Outcome StreamResult
  when_finished response complete = read_body response.body
  when_finished response failed = raised (conversation_stream_aborted "conversation SSE failed")
  when_finished response timed_out =
      raised
        (conversation_stream_timeout "conversation SSE did not finish within diagnostic timeout")

  -- `wait`; the times and the HTTP fields that it adds to the result are not modelled
  unfoldable pub wait : StreamResponse → Outcome StreamResult
  unfolding raise_for_initial_status
  wait response = do
    raise_for_initial_status response
    if not response.is_event_stream
        then raised
            (conversation_stream_protocol_error "conversation response is not text/event-stream")
        else if not response.is_ok
        then raised (conversation_stream_protocol_error "conversation stream returned HTTP")
        else when_finished response response.finished
