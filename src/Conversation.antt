-- ===== src/Conversation.antt =====
-- apps/runner/src/gpt_trace_runner/conversation.py: how a durable conversation is read and checked.
-- `strip` is Python's `str.strip`. Client.antt has the client that fetches and deletes a conversation.
pub mod Checked
pub mod Client
pub mod Paced
pub mod Tests
use gpt_trace_extractor_for.Base.{
  String, Bool, true, false, not, ◌&&◌, ◌||◌, List, [], ◌∷◌, ◌==◌, string_eq, contains,
  if◌then◌else◌,
}
use gpt_trace_extractor_for.Exceptions.{Outcome, ok, raised, conversation_error}
use gpt_trace_extractor_for.Json.{
  Value, Items, Fields, null, bool, text, array, object, nil, cons, get, is_true, is_text,
}

-- `value.get(key)` of a value that may be no dictionary
abbrev pub member_of : Value → String → Value
member_of (object fields) key = get fields key
member_of null key = null
member_of _ key = null

-- `m for m in messages if isinstance(m, dict)`
unfoldable pub dictionaries : Items → List Fields
dictionaries nil = []
dictionaries (cons item items) =
    let rest = dictionaries items in elim item [ object fields ↦ fields ∷ rest | _ ↦ rest ]

unfoldable pub extract_dataset_messages : Fields → Outcome (List Fields)
unfolding dictionaries
extract_dataset_messages conversation = elim (get conversation "messages") [
  | array items ↦ ok (dictionaries items)
  | _ ↦ raised (conversation_error "conversation JSON has no messages[]")
]

abbrev pub has_role : String → Fields → Bool
has_role role message = is_text (member_of (get message "author") "role") role

-- a message of the assistant that ends the turn
abbrev pub ends_turn_of_assistant : Fields → Bool
ends_turn_of_assistant message = has_role "assistant" message && is_true (get message "end_turn")

-- the loop over `reversed(messages)`
unfoldable pub is_complete : List Fields → Bool
is_complete [] = false
is_complete (message ∷ messages) = is_complete messages || ends_turn_of_assistant message

unfoldable pub user_messages : List Fields → List Fields
user_messages [] = []
user_messages (message ∷ messages) =
    let rest = user_messages messages in if has_role "user" message then message ∷ rest else rest

abbrev pub check_user : Fields → String → List Fields → Outcome (Unit {0})
check_user message user_message_id messages =
    if not (is_text (get message "id") user_message_id)
    then raised (conversation_error "user message ID does not match the submitted message ID")
    else if not (is_complete messages)
    then raised (conversation_error "conversation has no assistant end_turn=true")
    else ok tt

abbrev pub check_users : List Fields → String → List Fields → Outcome (Unit {0})
check_users (message ∷ []) user_message_id messages = check_user message user_message_id messages
check_users _ user_message_id messages =
    raised (conversation_error "conversation must contain exactly one user message")

-- what one message adds: `metadata.model_slug` of an assistant
abbrev pub slug_of : Fields → Value
slug_of message =
    if has_role "assistant" message then member_of (get message "metadata") "model_slug" else null

-- `metadata.invoked_resource.app_name`
abbrev pub app_of : Fields → Value
app_of message = member_of (member_of (get message "metadata") "invoked_resource") "app_name"

module _ (strip : String → String) where
  unfoldable pub validate_conversation_identity : List Fields → String → Outcome (Unit {0})
  unfolding user_messages is_complete
  validate_conversation_identity messages user_message_id =
      if strip user_message_id == ""
      then raised (conversation_error "expected user_message_id is missing")
      else check_users (user_messages messages) user_message_id messages

  -- a text that is not blank is added to the set, without the space around it
  abbrev pub add_text : Value → List String → List String
  add_text (text s) set =
      if strip s == "" then set else if contains set (strip s) then set else strip s ∷ set
  add_text null set = set
  add_text _ set = set

  unfoldable pub assistant_model_slugs : List Fields → List String
  assistant_model_slugs [] = []
  assistant_model_slugs (message ∷ messages) =
      add_text (slug_of message) (assistant_model_slugs messages)

  unfoldable pub invoked_app_names : List Fields → List String
  invoked_app_names [] = []
  invoked_app_names (message ∷ messages) = add_text (app_of message) (invoked_app_names messages)
