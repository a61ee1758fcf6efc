-- ===== src/Stream/Inspect.antt =====
-- `inspect_conversation_stream` of stream.py: what a whole stream says. `loads` is `json.loads`.
use gpt_trace_extractor_for.Base.{
  ℕ, ◌+◌, String, Option, none, some, Bool, true, false, not, ◌&&◌, List, [], ◌∷◌, ◌==◌, nat_eq,
  list_eq, string_eq, contains, if◌then◌else◌,
}
use gpt_trace_extractor_for.Exceptions.{
  Outcome, ok, raised, conversation_stream_protocol_error, conversation_stream_incomplete,
}
use gpt_trace_extractor_for.Json.{
  Value, Items, Fields, null, bool, text, array, object, nil, cons, get, as_object, is_true,
  is_text,
}
use gpt_trace_extractor_for.Stream.{Chars, SseEvent, parse_sse}

-- the locals of the function
pub record Seen : Type 0 where
  pub conversation_ids : List String
  pub final_end_turn : Bool
  pub stream_complete : Bool
  pub done : Bool
  pub last_token : Bool
  pub request_id : Option String
  pub turn_exchange_id : Option String
  pub tool_invoked : Option Bool
  pub tool_name : Option String
  pub active_final_assistant : Bool
  pub event_count : ℕ

abbrev pub nothing_seen : Seen
nothing_seen = record {
  conversation_ids = [];
  final_end_turn = false;
  stream_complete = false;
  done = false;
  last_token = false;
  request_id = none;
  turn_exchange_id = none;
  tool_invoked = none;
  tool_name = none;
  active_final_assistant = false;
  event_count = 0;
}

-- the data of the event that ends a stream, a text of six characters
abbrev pub done_mark : Chars
done_mark = 91 ∷ 68 ∷ 79 ∷ 78 ∷ 69 ∷ 93 ∷ []

-- `ids.add(cid)` if `cid` is a text that is not empty
abbrev pub add_id : Value → List String → List String
add_id (text s) ids = if s == "" then ids else if contains ids s then ids else s ∷ ids
add_id null ids = ids
add_id _ ids = ids

-- a text that is not empty, or the old value
abbrev pub text_or : Value → Option String → Option String
text_or (text s) old = if s == "" then old else some s
text_or null old = old
text_or _ old = old

abbrev pub bool_or : Value → Option Bool → Option Bool
bool_or (bool b) old = some b
bool_or null old = old
bool_or _ old = old

-- `value.get(key)` of a value that may be no dictionary
abbrev pub member : Value → String → Value
member (object fields) key = get fields key
member null key = null
member _ key = null

abbrev pub object_or : Value → Option Fields → Option Fields
object_or (object fields) old = some fields
object_or null old = old
object_or _ old = old

-- `_message_from_delta` of a dictionary
unfoldable pub message_from_delta : Fields → Option Fields
message_from_delta fields =
    object_or (get fields "message") (object_or (member (get fields "v") "message") none)

unfoldable pub add_ids : Fields → Seen → Seen
add_ids payload s = record s {
  conversation_ids = add_id (get payload "conversation_id") s.conversation_ids;
}

unfoldable pub note_last_token : Fields → Seen → Seen
note_last_token payload s =
    if is_text (get payload "type") "message_marker"
      && (is_text (get payload "marker") "last_token" && is_text (get payload "event") "last")
    then record s { last_token = true }
    else s

unfoldable pub note_complete : Fields → Seen → Seen
note_complete payload s =
    if is_text (get payload "type") "message_stream_complete"
    then record s { stream_complete = true }
    else s

abbrev pub read_metadata : Value → Seen → Seen
read_metadata (object metadata) s = record s {
  request_id = text_or (get metadata "request_id") s.request_id;
  turn_exchange_id = text_or (get metadata "turn_exchange_id") s.turn_exchange_id;
  tool_invoked = bool_or (get metadata "tool_invoked") s.tool_invoked;
  tool_name = text_or (get metadata "tool_name") s.tool_name;
}
read_metadata null s = s
read_metadata _ s = s

unfoldable pub note_metadata : Fields → Seen → Seen
note_metadata payload s =
    if is_text (get payload "type") "server_ste_metadata"
    then read_metadata (get payload "metadata") s
    else s

-- an assistant message of the final channel
unfoldable pub is_final_assistant : Fields → Bool
is_final_assistant message =
    is_text (member (get message "author") "role") "assistant"
    && is_text (get message "channel") "final"

abbrev or_true : Bool → Bool → Bool
or_true true old = true
or_true false old = old

unfoldable pub read_message : Option Fields → Seen → Seen
read_message none s = s
read_message (some message) s = record s {
  active_final_assistant = is_final_assistant message;
  final_end_turn =
      or_true (is_final_assistant message && is_true (get message "end_turn")) s.final_end_turn;
}

-- some operation of a patch sets `/message/end_turn` to true
unfoldable pub ends_turn : Items → Bool
ends_turn nil = false
ends_turn (cons operation rest) =
    let later = ends_turn rest in
    or_true (is_text (member operation "p") "/message/end_turn" && is_true (member operation "v"))
      later

abbrev pub patch_ends_turn : Value → Bool
patch_ends_turn (array operations) = ends_turn operations
patch_ends_turn null = false
patch_ends_turn _ = false

unfoldable pub read_patch : Fields → Seen → Seen
read_patch payload s =
    if is_text (get payload "o") "patch" && s.active_final_assistant
    then record s { final_end_turn = or_true (patch_ends_turn (get payload "v")) s.final_end_turn }
    else s

-- the body of the loop on a dictionary, in the order of the source; the second `add` of the id by
-- a `resume_conversation_token` adds nothing new
unfoldable pub read_payload : Fields → Seen → Seen
read_payload payload s = read_patch payload (
    read_message (message_from_delta payload)
      (note_metadata payload (note_complete payload (note_last_token payload (add_ids payload s)))))

pub record StreamResult : Type 0 where
  pub conversation_id : String
  pub final_end_turn : Bool
  pub message_stream_complete : Bool
  pub done : Bool
  pub last_token : Bool
  pub request_id : Option String
  pub turn_exchange_id : Option String
  pub tool_invoked : Option Bool
  pub tool_name : Option String
  pub event_count : ℕ

abbrev result_of : String → Seen → StreamResult
result_of conversation_id s = record {
  conversation_id = conversation_id;
  final_end_turn = s.final_end_turn;
  message_stream_complete = s.stream_complete;
  done = s.done;
  last_token = s.last_token;
  request_id = s.request_id;
  turn_exchange_id = s.turn_exchange_id;
  tool_invoked = s.tool_invoked;
  tool_name = s.tool_name;
  event_count = s.event_count;
}

abbrev checked_end : String → Seen → Outcome StreamResult
checked_end conversation_id s =
    if not s.final_end_turn
    then raised (conversation_stream_incomplete "SSE ended without a final assistant end_turn=true")
    else if not s.stream_complete
    then raised (conversation_stream_incomplete "SSE ended without message_stream_complete")
    else if not s.done
    then raised (conversation_stream_incomplete "SSE ended without [DONE]")
    else ok (result_of conversation_id s)

-- the checks behind the loop
unfoldable pub conclude : Seen → Outcome StreamResult
conclude s = elim s.conversation_ids [
  | [] ↦ raised (conversation_stream_protocol_error "expected exactly one conversation_id")
  | id ∷ others ↦ elim others [
    | [] ↦ checked_end id s
    | other ∷ more ↦
        raised (conversation_stream_protocol_error "expected exactly one conversation_id")
  ]
]

module _ (loads : Chars → Option Value) where
  abbrev pub read_value : Option Value → Seen → Outcome Seen
  read_value none s = raised (conversation_stream_protocol_error "invalid JSON in SSE event")
  read_value (some value) s = elim (as_object value) [
    | none ↦ ok s
    | some payload ↦ ok (read_payload payload s)
  ]

  -- one round of the loop
  unfoldable pub inspect_event : SseEvent → Seen → Outcome Seen
  inspect_event event s =
      let t : Seen = record s { event_count = s.event_count + 1 } in
      if event.data' == done_mark
      then ok (record t { done = true })
      else read_value (loads event.data') t

  unfoldable pub inspect_events : List SseEvent → Seen → Outcome Seen
  inspect_events [] s = ok s
  inspect_events (event ∷ events) s = elim (inspect_event event s) [
    | raised e ↦ raised e
    | ok t ↦ inspect_events events t
  ]

  -- the loop and the checks, over events that are parsed
  unfoldable pub inspect : List SseEvent → Outcome StreamResult
  inspect events = elim (inspect_events events nothing_seen) [
    | raised e ↦ raised e
    | ok s ↦ conclude s
  ]

  -- `inspect_conversation_stream`
  unfoldable pub inspect_conversation_stream : Chars → Outcome StreamResult
  inspect_conversation_stream stream = inspect (parse_sse stream)
