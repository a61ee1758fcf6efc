-- ===== src/Stream/Tests.antt =====
-- A stream that is accepted, and events that are written and parsed again.
use gpt_trace_extractor_for.Base.{
  ◌≡◌, refl, arith, Option, none, some, List, [], ◌∷◌, true, false, if◌then◌else◌, ◌==◌, nat_eq,
  list_eq,
}
use gpt_trace_extractor_for.Exceptions.{ok}
use gpt_trace_extractor_for.Json.{Value, text, bool, object, field, end}
use gpt_trace_extractor_for.Stream.{Chars, SseEvent, parse_sse}
use gpt_trace_extractor_for.Stream.Inspect.{
  StreamResult, done_mark, inspect, inspect_events, inspect_event, conclude, read_payload,
  read_patch, read_message, is_final_assistant, note_metadata, note_complete, note_last_token,
  add_ids, message_from_delta, ends_turn,
}
use gpt_trace_extractor_for.Stream.RoundTrip.{format, parse_sse-format}
use gpt_trace_extractor_for.Stream.Accepted.{Accepted, inspect-Accepted}

-- the payloads "1" and "2"
abbrev final_message : Value
final_message = object (
    field "conversation_id" (text "c1") (
      field "message"
        (object (
          field "author" (object (field "role" (text "assistant") end))
            (field "channel" (text "final") (field "end_turn" (bool true) end))))
        end))

abbrev complete : Value
complete =
    object (field "type" (text "message_stream_complete") (field "conversation_id" (text "c1") end))

abbrev loads : Chars → Option Value
loads chars = if chars == 49 ∷ [] then some final_message else some complete

abbrev event : Chars → SseEvent
event chars = record { event = none; data' = chars }

abbrev events : List SseEvent
events = event (49 ∷ []) ∷ event (50 ∷ []) ∷ event done_mark ∷ []

abbrev result : StreamResult
result = record {
  conversation_id = "c1";
  final_end_turn = true;
  message_stream_complete = true;
  done = true;
  last_token = false;
  request_id = none;
  turn_exchange_id = none;
  tool_invoked = none;
  tool_name = none;
  event_count = 3;
}

accepts_events : inspect loads events ≡ ok result
unfolding inspect inspect_events inspect_event conclude read_payload read_patch read_message
    is_final_assistant note_metadata note_complete note_last_token add_ids message_from_delta
    ends_turn
accepts_events = refl

inspect-Accepted_example : Accepted loads events result
inspect-Accepted_example = inspect-Accepted loads events result accepts_events

-- an event with a name and the data "b\ncd\n", and one without name and data
abbrev sent : List SseEvent
sent =
    record { event = some (97 ∷ []); data' = 98 ∷ 10 ∷ 99 ∷ 100 ∷ 10 ∷ [] }
    ∷ record { event = none; data' = [] }
    ∷ []

parse_sse-format_example : parse_sse (format sent) ≡ sent
parse_sse-format_example = parse_sse-format sent (
  (
    ((λ e. omega (arith, e), λ e. omega (arith, e)), tt),
    (
      λ e. omega (arith, e),
      (
        λ e. omega (arith, e),
        (λ e. omega (arith, e), (λ e. omega (arith, e), (λ e. omega (arith, e), tt))),
      ),
    ),
  ),
  ((tt, tt), tt),
)
