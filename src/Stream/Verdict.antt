-- ===== src/Stream/Verdict.antt =====
-- What the loop of `inspect_conversation_stream` of stream.py has seen.
use gpt_trace_extractor_for.Base.{
  ℕ, ◌+◌, String, ◌≡◌, refl, sym, ap, Option, none, some, Bool, true, false, not, ◌&&◌, ◌||◌, List,
  [], ◌∷◌, arith, ◌==◌, nat_eq, list_eq, string_eq, contains, length, suc, subst, if◌then◌else◌,
}
use gpt_trace_extractor_for.Exceptions.{Outcome, ok, raised}
use gpt_trace_extractor_for.Json.{Value, Fields, get, as_object}
use gpt_trace_extractor_for.Stream.{Chars, SseEvent}
use gpt_trace_extractor_for.Stream.Inspect.{
  Seen, done_mark, read_payload, read_value, inspect_event, inspect_events,
}
use gpt_trace_extractor_for.Stream.Round.{
  fields_of, holds_of, is_complete, names, has_final_message, ends_the_turn, seen_final,
  payload-Adds, payload-seen_final, payload-final_end_turn, contains-add_id,
}

-- what the events say: `p` holds of the payload of some event
abbrev pub some_payload : (Chars → Option Value) → (Fields → Bool) → List SseEvent → Bool
some_payload loads p [] = false
some_payload loads p (event ∷ events) =
    (not (event.data' == done_mark) && holds_of p (fields_of (loads event.data')))
    || some_payload loads p events

-- some event is the mark of the end
abbrev pub some_done : List SseEvent → Bool
some_done [] = false
some_done (event ∷ events) = event.data' == done_mark || some_done events

-- What a list of events has said between two states of the loop, from its truth values.
pub record Heard (d c f g : Bool) (named : String → Bool) (n : ℕ) (s t : Seen) : Type 0 where
  pub done : t.done ≡ (d || s.done)
  pub stream_complete : t.stream_complete ≡ (c || s.stream_complete)
  pub event_count : t.event_count ≡ s.event_count + n
  pub ids :
      (j : String) → contains t.conversation_ids j ≡ (named j || contains s.conversation_ids j)
  pub final : seen_final t ≡ true → (f || seen_final s) ≡ true
  pub ended : t.final_end_turn ≡ true → (g || s.final_end_turn) ≡ true

abbrev pub HeardIn : Option Fields → Seen → Seen → Type 0
HeardIn o s t =
    Heard false (holds_of is_complete o) (holds_of has_final_message o) (holds_of ends_the_turn o)
      (λ j. holds_of (names j) o) 0 s t

abbrev read_fields : Option Fields → Seen → Seen
read_fields none s = s
read_fields (some payload) s = read_payload payload s

read_fields-HeardIn : (o : Option Fields) (s : Seen) → HeardIn o s (read_fields o s)
read_fields-HeardIn none s = record {
  done = refl;
  stream_complete = refl;
  event_count = omega arith;
  ids = λ j. refl;
  final = λ h. h;
  ended = λ h. h;
}
read_fields-HeardIn (some f) s =
    let a = payload-Adds f s in
    record {
      done = a.done;
      stream_complete = a.stream_complete;
      event_count = ground (arith, a.event_count);
      ids = λ j. ground (
        arith,
        ap (λ l. contains l j) a.conversation_ids,
        contains-add_id (get f "conversation_id") s.conversation_ids j,
      );
      final = λ h. ground (arith, payload-seen_final f s h);
      ended = λ h. ground (arith, payload-final_end_turn f s h);
    }

read_value-fields :
    (loads : Chars → Option Value) (o : Option Value) (s t : Seen)
    → read_value loads o s ≡ ok t
    → t ≡ read_fields (fields_of o) s
read_value-fields loads none s t h = ground arith
read_value-fields loads (some v) s t h = ground (arith, as_object v)

abbrev value_or : Seen → Outcome Seen → Seen
value_or s (ok t) = t
value_or s (raised e) = s

abbrev counted : Seen → Seen
counted s = record s { event_count = s.event_count + 1 }

-- one event, from the test of the mark
abbrev HeardOne : Bool → Option Fields → Seen → Seen → Type 0
HeardOne m o s t =
    Heard m (not m && holds_of is_complete o) (not m && holds_of has_final_message o)
      (not m && holds_of ends_the_turn o) (λ j. not m && holds_of (names j) o) 1 s t

marked-HeardOne :
    (o : Option Fields) (s : Seen) → HeardOne true o s (record (counted s) { done = true })
marked-HeardOne o s = record {
  done = refl;
  stream_complete = refl;
  event_count = refl;
  ids = λ j. refl;
  final = λ h. h;
  ended = λ h. h;
}

read-HeardOne : (o : Option Fields) (s : Seen) → HeardOne false o s (read_fields o (counted s))
read-HeardOne o s =
    let a = read_fields-HeardIn o (counted s) in
    record {
      done = a.done;
      stream_complete = a.stream_complete;
      event_count = omega (arith, a.event_count);
      ids = a.ids;
      final = a.final;
      ended = a.ended;
    }

-- two parts of a list of events
HeardOne-then :
    {m d c f g : Bool} (o : Option Fields) {named : String → Bool} {n : ℕ} {s t u : Seen}
    → HeardOne m o s t
    → Heard d c f g named n t u
    → Heard
        (m || d)
        (not m && holds_of is_complete o || c)
        (not m && holds_of has_final_message o || f)
        (not m && holds_of ends_the_turn o || g)
        (λ j. not m && holds_of (names j) o || named j)
        (suc n)
        s
        u
HeardOne-then o h k = record {
  done = ground (arith, h.done, k.done);
  stream_complete = ground (arith, h.stream_complete, k.stream_complete);
  event_count = omega (arith, h.event_count, k.event_count);
  ids = λ j. ground (arith, h.ids j, k.ids j);
  final = λ e. ground (arith, h.final, k.final e);
  ended = λ e. ground (arith, h.ended, k.ended e);
}

module _ (loads : Chars → Option Value) where
  abbrev pub HeardAll : List SseEvent → Seen → Seen → Type 0
  HeardAll es s t =
      Heard (some_done es) (some_payload loads is_complete es)
        (some_payload loads has_final_message es) (some_payload loads ends_the_turn es)
        (λ j. some_payload loads (names j) es) (length es) s t

  tested-HeardOne :
      (m : Bool) (o : Option Value) (s t : Seen)
      → (if m then ok (record (counted s) { done = true }) else read_value loads o (counted s))
        ≡ ok t
      → HeardOne m (fields_of o) s t
  tested-HeardOne true o s t h =
      subst (HeardOne true (fields_of o) s) (ap (value_or s) h) (marked-HeardOne (fields_of o) s)
  tested-HeardOne false o s t h =
      subst (HeardOne false (fields_of o) s) (sym (read_value-fields loads o (counted s) t h))
        (read-HeardOne (fields_of o) s)

  inspect_event-Heard :
      (e : SseEvent) (s t : Seen)
      → inspect_event loads e s ≡ ok t
      → HeardOne (e.data' == done_mark) (fields_of (loads e.data')) s t
  unfolding inspect_event
  inspect_event-Heard e s t h = tested-HeardOne (e.data' == done_mark) (loads e.data') s t h

  then_events :
      (e : SseEvent) (es : List SseEvent) (s t : Seen) (o : Outcome Seen)
      → inspect_event loads e s ≡ o
      → ((u : Seen) → inspect_events loads es u ≡ ok t → HeardAll es u t)
      → (elim o [ raised x ↦ raised x | ok u ↦ inspect_events loads es u ]) ≡ ok t
      → HeardAll (e ∷ es) s t
  then_events e es s t (raised x) h rest k = grind arith
  then_events e es s t (ok u) h rest k =
      HeardOne-then (fields_of (loads e.data')) (inspect_event-Heard e s u h) (rest u k)

  pub inspect_events-Heard :
      (es : List SseEvent) (s t : Seen) → inspect_events loads es s ≡ ok t → HeardAll es s t
  unfolding inspect_events
  inspect_events-Heard [] s t h = subst (HeardAll [] s) (ap (value_or s) h) (record {
    done = refl;
    stream_complete = refl;
    event_count = omega arith;
    ids = λ j. refl;
    final = λ e. e;
    ended = λ e. e;
  })
  inspect_events-Heard (e ∷ es) s t h =
      then_events e es s t (inspect_event loads e s) refl (λ u. inspect_events-Heard es u t) h
