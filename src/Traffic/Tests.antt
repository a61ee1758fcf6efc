-- ===== src/Traffic/Tests.antt =====
-- Two tasks in one browser, and the theorems at them.
use gpt_trace_extractor_for.Base.{
  ◌≡◌, refl, ℕ, none, some, true, false, List, [], ◌∷◌, string_eq, nat_beq, if◌then◌else◌,
}
use gpt_trace_extractor_for.Exceptions.{ok, raised, ambiguous_submission}
use gpt_trace_extractor_for.Json.{object, field, text, end, array, cons, nil}
use gpt_trace_extractor_for.Traffic.{
  Url, Request, Response, TrafficMonitor, Settings, new_monitor, begin_task, is_chatgpt_host,
  is_exact_base_origin, is_backend_path,
}
use gpt_trace_extractor_for.Traffic.Observe.{
  Signal, begins, requested, responded, failed, belongs_to_current, forget, note_hints,
  note_payload, is_stream_request, is_auth_session, count_request, read_hints, count_stream,
  read_submission, on_request, note_429, note_session, note_me, is_auxiliary, note_status,
  note_snapshot, note_response, on_response, on_request_failed, observe, observe_all,
}
use gpt_trace_extractor_for.Traffic.Reads.{
  validate_single_stream_request, submitted_user_message_id,
}
use gpt_trace_extractor_for.Traffic.Single.{count_submissions, single_submission}
use gpt_trace_extractor_for.Traffic.Earlier.{judged, earlier_ignored}

abbrev settings : Settings
settings = record {
  base_scheme = "https";
  base_host = "chatgpt.com";
  base_port = none;
  ends_with = λ s t. false;
  without_slashes = λ s. s;
  upper = λ s. s;
  strip = λ s. s;
  snapshot_id = λ s. none;
  parse_retry_after = λ s. none;
}

abbrev conversation : Url
conversation = record {
  scheme = "https";
  hostname = some "chatgpt.com";
  port = none;
  path = "/backend-api/f/conversation";
  query = "";
}

abbrev submission : ℕ → Request
submission identity = record {
  identity = identity;
  url = conversation;
  method = "POST";
  post_data_json = some (
      object (
        field "messages"
          (array (
            cons
              (object (
                field "id" (text "u")
                  (field "author" (object (field "role" (text "user") end)) end)))
              nil))
          end));
}

abbrev answer : ℕ → ℕ → Response
answer identity status = record {
  request = submission identity;
  url = conversation;
  status = status;
  retry_after = none;
  x_request_id = none;
  openai_request_id = none;
}

-- naming this on an `unfolding` line opens the handlers
unfoldable handlers : Settings → List Signal → TrafficMonitor → TrafficMonitor
unfolding observe_all observe begin_task on_request on_response on_request_failed count_request
    read_hints read_submission count_stream note_hints note_payload note_response note_429
    note_session note_me note_status note_snapshot forget belongs_to_current is_stream_request
    is_auth_session is_auxiliary is_chatgpt_host is_exact_base_origin is_backend_path
handlers = observe_all

-- a 429 of the task under way is seen, and one of the task before it is not
current_seen :
    (observe_all settings
      (begins ∷ requested (submission 1) 5 ∷ responded (answer 1 429) ∷ [])
      new_monitor).sticky_429
    ≡ true
unfolding handlers
current_seen = refl

earlier_unseen :
    (observe_all settings
      (begins ∷ requested (submission 1) 5 ∷ begins ∷ responded (answer 1 429) ∷ [])
      new_monitor).sticky_429
    ≡ false
unfolding handlers
earlier_unseen = refl

-- the id of the message that was sent
sent_message :
    submitted_user_message_id settings
      (observe_all settings (begins ∷ requested (submission 1) 5 ∷ []) new_monitor)
    ≡ ok "u"
unfolding handlers submitted_user_message_id
sent_message = refl

-- A failure that follows the response of an earlier task's request counts against the current task.
failure_counted :
    (observe_all settings
      (begins
        ∷ requested (submission 1) 5
        ∷ begins
        ∷ responded (answer 1 200)
        ∷ failed (submission 1)
        ∷ [])
      new_monitor).stats.requests_failed
    ≡ 1
unfolding handlers
failure_counted = refl

earlier_ignored_example :
    judged (
      observe_all settings
        (responded (answer 1 429) ∷ [])
        (begin_task (observe_all settings (begins ∷ requested (submission 1) 5 ∷ []) new_monitor)))
    ≡ judged new_monitor
unfolding handlers
earlier_ignored_example =
    earlier_ignored settings (begins ∷ requested (submission 1) 5 ∷ [])
      (responded (answer 1 429) ∷ []) (refl, refl, tt)

single_submission_example :
    validate_single_stream_request
      (observe_all settings (requested (submission 1) 5 ∷ []) (begin_task new_monitor))
    ≡ (if nat_beq (count_submissions settings (requested (submission 1) 5 ∷ [])) 1
        then ok tt
        else raised
            (ambiguous_submission "expected exactly one frontend POST /backend-api/f/conversation"))
single_submission_example =
    single_submission settings (requested (submission 1) 5 ∷ []) new_monitor (tt, tt)
