-- ===== src/Stream/Accepted.antt =====
-- What a stream has said when `inspect_conversation_stream` of stream.py returns a result.
use gpt_trace_extractor_for.Base.{
  String, ◌≡◌, refl, true, List, [], ◌∷◌, arith, ◌==◌, string_eq, contains, length, Option, ap,
}
use gpt_trace_extractor_for.Exceptions.{Outcome, ok, raised}
use gpt_trace_extractor_for.Json.{Value}
use gpt_trace_extractor_for.Stream.{Chars, SseEvent}
use gpt_trace_extractor_for.Stream.Inspect.{
  Seen, nothing_seen, StreamResult, conclude, inspect_events, inspect,
}
use gpt_trace_extractor_for.Stream.Round.{is_complete, has_final_message, ends_the_turn, names}
use gpt_trace_extractor_for.Stream.Verdict.{some_payload, some_done, HeardAll, inspect_events-Heard}

-- what `conclude` has checked
record Concluded (s : Seen) (r : StreamResult) : Type 0 where
  done : s.done ≡ true
  stream_complete : s.stream_complete ≡ true
  final_end_turn : s.final_end_turn ≡ true
  conversation_ids : s.conversation_ids ≡ r.conversation_id ∷ []
  event_count : r.event_count ≡ s.event_count

conclude-Concluded : (s : Seen) (r : StreamResult) → conclude s ≡ ok r → Concluded s r
unfolding conclude
conclude-Concluded s r h = ground arith

-- The stream ended, the answer in it ended, it holds a final message of the assistant, a payload
-- says `end_turn=true`, and the ids that it names are exactly the one of the result.
pub record Accepted (loads : Chars → Option Value) (events : List SseEvent) (r : StreamResult)
    : Type 0 where
  pub ended : some_done events ≡ true
  pub completed : some_payload loads is_complete events ≡ true
  pub answered : some_payload loads has_final_message events ≡ true
  pub turn_ended : some_payload loads ends_the_turn events ≡ true
  pub one_id : (id : String) → some_payload loads (names id) events ≡ (r.conversation_id == id)
  pub counted : r.event_count ≡ length events

module _ (loads : Chars → Option Value) where
  conclude-Accepted :
      (events : List SseEvent) (s : Seen) (r : StreamResult)
      → HeardAll loads events nothing_seen s
      → Concluded s r
      → Accepted loads events r
  conclude-Accepted events s r h c = record {
    ended = ground (arith, h.done, c.done);
    completed = ground (arith, h.stream_complete, c.stream_complete);
    answered = ground (arith, h.final, c.final_end_turn);
    turn_ended = ground (arith, h.ended c.final_end_turn);
    one_id = λ id. ground (arith, h.ids id, ap (λ l. contains l id) c.conversation_ids);
    counted = omega (arith, h.event_count, c.event_count);
  }

  then_conclude :
      (events : List SseEvent) (o : Outcome Seen) (r : StreamResult)
      → inspect_events loads events nothing_seen ≡ o
      → (elim o [ raised e ↦ raised e | ok s ↦ conclude s ]) ≡ ok r
      → Accepted loads events r
  then_conclude events (raised e) r h k = grind arith
  then_conclude events (ok s) r h k =
      conclude-Accepted events s r (inspect_events-Heard loads events nothing_seen s h)
        (conclude-Concluded s r k)

  -- When a stream of events is accepted with the result `r`, some event is the mark of the end, some
  -- payload is `message_stream_complete`, some payload holds a message of the assistant in the
  -- final channel, some payload says `end_turn=true`, in such a message or by a patch, the texts that the payloads name as conversation ids are exactly the id of `r`,
  -- and `r` counts all the events.
  pub inspect-Accepted :
      (events : List SseEvent) (r : StreamResult)
      → inspect loads events ≡ ok r
      → Accepted loads events r
  unfolding inspect
  inspect-Accepted events r h =
      then_conclude events (inspect_events loads events nothing_seen) r refl h
