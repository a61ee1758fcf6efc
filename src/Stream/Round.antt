-- ===== src/Stream/Round.antt =====
-- One round of the loop of `inspect_conversation_stream` of stream.py: what a payload says and what
-- the round keeps of it.
use gpt_trace_extractor_for.Base.{
  String, ◌≡◌, refl, ◌∙◌, Option, none, some, Bool, true, false, ◌&&◌, ◌||◌, List, [], arith,
  nat_eq, list_eq, string_eq, eq_iff, contains,
}
use gpt_trace_extractor_for.Json.{
  Value, Items, nil, cons, is_true, null, bool, int, negative, float, text, array, object, Fields,
  get, as_object, is_text,
}
use gpt_trace_extractor_for.Stream.Inspect.{
  Seen, ends_turn, patch_ends_turn, member, add_id, message_from_delta, is_final_assistant, add_ids,
  note_last_token, note_complete, note_metadata, read_message, read_patch, read_payload,
}

-- The fields of an event that is a JSON object; an event that is no JSON stops the stream.
abbrev pub fields_of : Option Value → Option Fields
fields_of none = none
fields_of (some value) = as_object value

abbrev pub holds_of : (Fields → Bool) → Option Fields → Bool
holds_of p none = false
holds_of p (some fields) = p fields

-- the payload is the end of the message stream
abbrev pub is_complete : Fields → Bool
is_complete payload = is_text (get payload "type") "message_stream_complete"

-- the payload names the conversation
abbrev pub names : String → Fields → Bool
names id payload = contains (add_id (get payload "conversation_id") []) id

abbrev final_message : Option Fields → Bool
final_message none = false
final_message (some message) =
    is_text (member (get message "author") "role") "assistant"
    && is_text (get message "channel") "final"

-- the payload has an assistant message of the final channel
abbrev pub has_final_message : Fields → Bool
has_final_message payload = final_message (message_from_delta payload)

-- such a message that ends the turn
abbrev ending_message : Option Fields → Bool
ending_message none = false
ending_message (some message) = final_message (some message) && is_true (get message "end_turn")

-- some operation sets `/message/end_turn` to true
abbrev sets_end : Items → Bool
sets_end nil = false
sets_end (cons operation rest) =
    (is_text (member operation "p") "/message/end_turn" && is_true (member operation "v"))
    || sets_end rest

abbrev sets_end_of : Value → Bool
sets_end_of (array operations) = sets_end operations
sets_end_of null = false
sets_end_of _ = false

-- the payload says `end_turn=true`: in an assistant message of the final channel, or by a patch
abbrev pub ends_the_turn : Fields → Bool
ends_the_turn payload =
    ending_message (message_from_delta payload)
    || (is_text (get payload "o") "patch" && sets_end_of (get payload "v"))

-- what the later stages of a round leave alone
record SameCore (a b : Seen) : Type 0 where
  done : b.done ≡ a.done
  event_count : b.event_count ≡ a.event_count
  conversation_ids : b.conversation_ids ≡ a.conversation_ids
  stream_complete : b.stream_complete ≡ a.stream_complete

SameCore-trans : {a b c : Seen} → SameCore a b → SameCore b c → SameCore a c
SameCore-trans h k = record {
  done = k.done ∙ h.done;
  event_count = k.event_count ∙ h.event_count;
  conversation_ids = k.conversation_ids ∙ h.conversation_ids;
  stream_complete = k.stream_complete ∙ h.stream_complete;
}

last_token-SameCore : (f : Fields) (s : Seen) → SameCore s (note_last_token f s)
unfolding note_last_token
last_token-SameCore f s = ground arith

metadata-SameCore : (f : Fields) (s : Seen) → SameCore s (note_metadata f s)
unfolding note_metadata
metadata-SameCore f s = ground arith

message-SameCore : (m : Option Fields) (s : Seen) → SameCore s (read_message m s)
unfolding read_message
message-SameCore m s = ground arith

patch-SameCore : (f : Fields) (s : Seen) → SameCore s (read_patch f s)
unfolding read_patch
patch-SameCore f s = ground arith

-- the state of a round before its last three stages
abbrev before_metadata : Fields → Seen → Seen
before_metadata f s = note_complete f (note_last_token f (add_ids f s))

payload-SameCore : (f : Fields) (s : Seen) → SameCore (before_metadata f s) (read_payload f s)
unfolding read_payload
payload-SameCore f s = SameCore-trans (metadata-SameCore f (before_metadata f s)) (
    SameCore-trans (message-SameCore (message_from_delta f) (note_metadata f (before_metadata f s)))
      (patch-SameCore f
        (read_message (message_from_delta f) (note_metadata f (before_metadata f s)))))

-- what one round adds
pub record Adds (f : Fields) (s t : Seen) : Type 0 where
  pub done : t.done ≡ s.done
  pub event_count : t.event_count ≡ s.event_count
  pub conversation_ids : t.conversation_ids ≡ add_id (get f "conversation_id") s.conversation_ids
  pub stream_complete : t.stream_complete ≡ (is_complete f || s.stream_complete)

early-Adds : (f : Fields) (s : Seen) → Adds f s (before_metadata f s)
unfolding note_complete add_ids
early-Adds f s = ground (arith, last_token-SameCore f (add_ids f s))

pub payload-Adds : (f : Fields) (s : Seen) → Adds f s (read_payload f s)
payload-Adds f s = ground (arith, early-Adds f s, payload-SameCore f s)

abbrev pub seen_final : Seen → Bool
seen_final s = s.final_end_turn || s.active_final_assistant

early-seen_final :
    (f : Fields) (s : Seen) → seen_final (note_metadata f (before_metadata f s)) ≡ seen_final s
unfolding note_metadata note_complete note_last_token add_ids
early-seen_final f s = ground arith

late-seen_final :
    (f : Fields) (m : Option Fields) (s : Seen)
    → seen_final (read_patch f (read_message m s)) ≡ true
    → (seen_final s || final_message m) ≡ true
unfolding read_patch read_message is_final_assistant
late-seen_final f m s h = ground arith

pub payload-seen_final :
    (f : Fields) (s : Seen)
    → seen_final (read_payload f s) ≡ true
    → (seen_final s || has_final_message f) ≡ true
unfolding read_payload
payload-seen_final f s h =
    rw (← early-seen_final f s)
      (late-seen_final f (message_from_delta f) (note_metadata f (before_metadata f s)) h)

early-final_end_turn :
    (f : Fields) (s : Seen)
    → (note_metadata f (before_metadata f s)).final_end_turn ≡ s.final_end_turn
unfolding note_metadata note_complete note_last_token add_ids
early-final_end_turn f s = ground arith

ends_turn-sets_end : (operations : Items) → ends_turn operations ≡ sets_end operations
unfolding ends_turn
ends_turn-sets_end nil = refl
ends_turn-sets_end (cons operation rest) = ground (arith, ends_turn-sets_end rest)

patch_ends_turn-sets_end : (v : Value) → patch_ends_turn v ≡ sets_end_of v
patch_ends_turn-sets_end (array operations) = ends_turn-sets_end operations
patch_ends_turn-sets_end null = refl
patch_ends_turn-sets_end _ = refl

late-final_end_turn :
    (f : Fields) (m : Option Fields) (s : Seen)
    → (read_patch f (read_message m s)).final_end_turn ≡ true
    → (s.final_end_turn
        || (ending_message m || (is_text (get f "o") "patch" && sets_end_of (get f "v"))))
      ≡ true
unfolding read_patch read_message is_final_assistant
late-final_end_turn f m s h = ground (arith, patch_ends_turn-sets_end (get f "v"))

pub payload-final_end_turn :
    (f : Fields) (s : Seen)
    → (read_payload f s).final_end_turn ≡ true
    → (s.final_end_turn || ends_the_turn f) ≡ true
unfolding read_payload
payload-final_end_turn f s h =
    rw (← early-final_end_turn f s)
      (late-final_end_turn f (message_from_delta f) (note_metadata f (before_metadata f s)) h)

pub contains-add_id :
    (v : Value) (ids : List String) (j : String)
    → contains (add_id v ids) j ≡ (contains (add_id v []) j || contains ids j)
contains-add_id null ids j = refl
contains-add_id (text t) ids j = ground (arith, eq_iff t "", eq_iff t j)
contains-add_id (bool b) ids j = refl
contains-add_id (int n) ids j = refl
contains-add_id (negative n) ids j = refl
contains-add_id (float l) ids j = refl
contains-add_id (array a) ids j = refl
contains-add_id (object o) ids j = refl
