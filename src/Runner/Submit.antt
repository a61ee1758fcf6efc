-- ===== src/Runner/Submit.antt =====
-- `_click_send` and `submit_task` of apps/runner/src/gpt_trace_runner/chatgpt.py: one click of Send
-- behind the durable mark `before_send`.
use gpt_trace_extractor_for.Base.{String, if◌then◌else◌}
use gpt_trace_extractor_for.Exceptions.{
  Exn, fatal_ui_state, rate_limited, site_challenge_failed, ambiguous_submission, ok, raised,
}
use gpt_trace_extractor_for.Base.{none}
use gpt_trace_extractor_for.Exec.{Exec, return, from, ◌>>=◌, ◌>>◌, catch}
use gpt_trace_extractor_for.Runner.{
  World, Services, SubmittedTurn, request, find_send_button, wait_for_backend_quiet, click_send,
  observe_response, validate_submission, raise_for_initial_status, wait_for_conversation_id,
}

-- what `submit_task` raises in place of an exception around the click
abbrev pub submission_error : Services → World → Exn
submission_error v s =
    if v.observer_error s
    then fatal_ui_state "thinking effort"
    else if v.saw_backend_429 s
    then rate_limited "ChatGPT returned HTTP 429 during submit"
        (record { retry_after_seconds = none; endpoint = none; method = none; request_id = none })
    else if v.saw_backend_403 s
    then site_challenge_failed "ChatGPT returned backend HTTP 403"
    else ambiguous_submission "no conversation SSE observed after Send"

module _ (v : Services) where
  unfoldable pub submission_failed : {A : Type 0} → Exn → Exec World A
  submission_failed e = from (λ s. raised (submission_error v s))

  -- `_click_send` up to `before_send()`
  unfoldable pub ready_to_send : Exec World (Unit {0})
  ready_to_send = do
    request find_send_button (v.done find_send_button)
    request wait_for_backend_quiet (v.done wait_for_backend_quiet)

  -- the click and the response that `expect_response` waits for
  unfoldable pub click_and_wait : Exec World (Unit {0})
  click_and_wait = do
    request click_send (v.done click_send)
    request observe_response (v.done observe_response)

  -- behind the response: the four validations of the traffic and the id of the message
  unfoldable pub identify : (String → Exec World (Unit {0})) → Exec World SubmittedTurn
  identify on_user_message_id = do
    request validate_submission (v.done validate_submission)
    user_message_id ← from v.user_message_id
    on_user_message_id user_message_id
    request raise_for_initial_status (v.done raise_for_initial_status)
    conversation_id ← request wait_for_conversation_id v.conversation_id
    return (record { conversation_id = conversation_id; user_message_id = user_message_id })

  unfoldable pub check_observer : Exec World (Unit {0})
  check_observer =
      from (λ s. if v.observer_error s then raised (fatal_ui_state "thinking effort") else ok tt)

  unfoldable pub submit_task :
      Exec World (Unit {0}) → (String → Exec World (Unit {0})) → Exec World SubmittedTurn
  submit_task before_send on_user_message_id = do
    check_observer
    catch (ready_to_send >> before_send >> click_and_wait) submission_failed
    identify on_user_message_id
