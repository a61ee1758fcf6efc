-- ===== src/Conversation/Tests.antt =====
-- A conversation of two messages, and the theorems at it.
use gpt_trace_extractor_for.Base.{
  ℕ, false, some, ltb, ◌≤◌, none, if◌then◌else◌, ◌≡◌, refl, String, true, List, [], ◌∷◌, string_eq,
}
use gpt_trace_extractor_for.Exceptions.{ok, retry_delay}
use gpt_trace_extractor_for.Json.{Fields, bool, text, object, field, end, get, is_text}
use gpt_trace_extractor_for.Conversation.Client.{
  Result, Page, Clock, Exchange, asked_session, requested, got, answered, judge, limit_of,
  check_session, deleted, ask, delete_from, delete,
}
use gpt_trace_extractor_for.Conversation.Paced.{
  IsPaced, count_sessions, count_requests, delete-IsPaced,
}
use gpt_trace_extractor_for.Conversation.{
  ends_turn_of_assistant, is_complete, user_messages, validate_conversation_identity,
}
use gpt_trace_extractor_for.Conversation.Checked.{IsOnlyUser, some_message, validated_conversation}

abbrev author : String → Fields → Fields
author role rest = field "author" (object (field "role" (text role) end)) rest

abbrev conversation : List Fields
conversation =
    author "user" (field "id" (text "u1") end)
    ∷ author "assistant" (
        field "end_turn" (bool true)
          (field "metadata" (object (field "model_slug" (text "m") end)) end))
    ∷ []

abbrev strip : String → String
strip s = s

accepts_conversation : validate_conversation_identity strip conversation "u1" ≡ ok tt
unfolding validate_conversation_identity user_messages is_complete
accepts_conversation = refl

validated_conversation_example :
    (m : Fields) × (IsOnlyUser conversation m
      × ((is_text (get m "id") "u1" ≡ true)
          × (some_message ends_turn_of_assistant conversation ≡ true)))
validated_conversation_example = validated_conversation strip conversation "u1" accepts_conversation

-- a page that answers the first two requests with a 429
abbrev later_result : ℕ → Result
later_result status = record {
  session_status = 200;
  session_retry_after = none;
  session_request_id = none;
  token_present = true;
  status = status;
  is_ok = false;
  retry_after = none;
  request_id = none;
  text = "";
}

abbrev busy_page : Page
busy_page = record {
  pace = λ c. ok 1;
  evaluate = λ c. answered (later_result (if ltb (count_sessions c.log) 2 then 429 else 204));
  gap = λ c. 0;
  duration = λ c. 0;
  strip = λ s. s;
  parse_retry_after = λ s. some 5;
  loads = λ s. none;
}

abbrev at_start : Clock
at_start = record { now = 0; log = [] }

-- one run of the script, newest event first
abbrev attempted : ℕ → ℕ → List Exchange → List Exchange
attempted t status log =
    got t (answered (later_result status)) ∷ requested t ∷ asked_session t ∷ log

deletes_later :
    delete busy_page "/c" at_start
    ≡ (ok tt, record { now = 13; log = attempted 13 204 (attempted 7 429 (attempted 1 429 [])) })
unfolding delete delete_from ask judge deleted check_session limit_of retry_delay
deletes_later = refl

delete-IsPaced_example :
    let log = (delete busy_page "/c" at_start).1.log in
    IsPaced busy_page log × (count_sessions log ≤ 3) × (count_requests log ≤ 3)
delete-IsPaced_example = delete-IsPaced busy_page "/c" 0
