-- ===== src/Traffic/Single.antt =====
-- How traffic.py counts the submissions of a task.
use gpt_trace_extractor_for.Base.{
  ℕ, ◌+◌, String, ltb, Option, none, some, Bool, true, false, not, ◌&&◌, ◌==◌, string_eq, ◌≡◌, refl,
  ap, ◌∙◌, List, [], ◌∷◌, nat_beq, All, arith, if◌then◌else◌,
}
use gpt_trace_extractor_for.Exceptions.{ok, raised, ambiguous_submission}
use gpt_trace_extractor_for.Json.{Fields}
use gpt_trace_extractor_for.Traffic.{
  Request, Response, TrafficMonitor, Settings, is_chatgpt_host, begin_task,
}
use gpt_trace_extractor_for.Traffic.Observe.{
  Signal, begins, requested, responded, failed, flag, note_hints, note_payload, is_stream_request,
  count_request, read_hints, count_stream, read_submission, on_request, note_429, note_session,
  note_me, note_status, note_snapshot, note_response, forget, on_response, on_request_failed,
  observe, observe_all, keep_snapshot,
}
use gpt_trace_extractor_for.Traffic.Reads.{validate_single_stream_request}

abbrev streams : TrafficMonitor → ℕ
streams m = m.stats.conversation_stream_requests

-- a branch of a handler
if_streams :
    (n : ℕ) (b : Bool) (x y : TrafficMonitor)
    → streams x ≡ n
    → streams y ≡ n
    → streams (if b then x else y) ≡ n
if_streams n true x y h k = h
if_streams n false x y h k = k

module _ (w : Settings) where
  -- the submissions among the signals
  abbrev is_submission : Signal → Bool
  is_submission (requested r now) =
      is_chatgpt_host w r.url
      && (w.without_slashes r.url.path == "/backend-api/f/conversation"
          && w.upper r.method == "POST")
  is_submission begins = false
  is_submission _ = false

  abbrev pub count_submissions : List Signal → ℕ
  count_submissions [] = 0
  count_submissions (signal ∷ signals) = flag (is_submission signal) + count_submissions signals

  note_hints-streams :
      (p : Option Fields) (m : TrafficMonitor) → streams (note_hints p m) ≡ streams m
  unfolding note_hints
  note_hints-streams none m = refl
  note_hints-streams (some p) m = refl

  note_payload-streams :
      (p : Option Fields) (m : TrafficMonitor) → streams (note_payload p m) ≡ streams m
  unfolding note_payload
  note_payload-streams none m = refl
  note_payload-streams (some p) m = refl

  read_hints-streams : (r : Request) (m : TrafficMonitor) → streams (read_hints w r m) ≡ streams m
  unfolding read_hints
  read_hints-streams r m = if_streams (streams m) _ _ m (note_hints-streams _ m) refl

  count_request-streams :
      (r : Request) (now : ℕ) (m : TrafficMonitor) → streams (count_request w r now m) ≡ streams m
  unfolding count_request
  count_request-streams r now m = refl

  if_counts :
      (b : Bool) (x y : TrafficMonitor) (n : ℕ)
      → streams x ≡ n + 1
      → streams y ≡ n
      → streams (if b then x else y) ≡ n + flag b
  if_counts true x y n h k = h
  if_counts false x y n h k = ground arith

  read_submission-streams :
      (r : Request) (m : TrafficMonitor)
      → streams (read_submission w r m) ≡ streams m + flag (is_stream_request w r)
  unfolding read_submission count_stream
  read_submission-streams r m =
      if_counts (is_stream_request w r) _ m (streams m) (note_payload-streams _ _) refl

  on_request-streams :
      (r : Request) (now : ℕ) (m : TrafficMonitor)
      → streams (on_request w r now m) ≡ streams m + flag (is_submission (requested r now))
  unfolding on_request is_stream_request
  on_request-streams r now m = watched (is_chatgpt_host w r.url)
    where
      stages :
          streams (read_submission w r (read_hints w r (count_request w r now m)))
          ≡ streams m + flag (is_stream_request w r)
      stages =
          read_submission-streams r _
          ∙ ap (λ n. n + flag (is_stream_request w r))
              (read_hints-streams r _ ∙ count_request-streams r now m)

      watched :
          (b : Bool)
          → streams
              (if not b then m else read_submission w r (read_hints w r (count_request w r now m)))
            ≡ streams m + flag (b && is_stream_request w r)
      watched true = stages
      watched false = ground arith

  note_429-streams :
      (c : Bool) (r : Response) (m : TrafficMonitor) → streams (note_429 w c r m) ≡ streams m
  unfolding note_429
  note_429-streams c r m = if_streams (streams m) _ _ m refl refl

  note_session-streams :
      (c : Bool) (r : Response) (m : TrafficMonitor) → streams (note_session w c r m) ≡ streams m
  unfolding note_session
  note_session-streams c r m = if_streams (streams m) _ _ m refl refl

  note_me-streams : (r : Response) (m : TrafficMonitor) → streams (note_me w r m) ≡ streams m
  unfolding note_me
  note_me-streams r m =
      if_streams (streams m) _ _ m
        (if_streams (streams m) (nat_beq r.status 200) _ _ refl
          (if_streams (streams m) (nat_beq r.status 429) _ _ refl refl))
        refl

  note_status-streams :
      (c : Bool) (r : Response) (m : TrafficMonitor) → streams (note_status w c r m) ≡ streams m
  unfolding note_status
  note_status-streams c r m =
      let n = streams m in
      if_streams n _ m _ refl (
        if_streams n (nat_beq r.status 429) _ _ (if_streams n _ _ m refl refl) (
          if_streams n (nat_beq r.status 403 && c) _ _ refl
            (if_streams n (not (ltb r.status 500) && c) _ m refl refl)))

  kept_snapshot-streams :
      (id : Option String) (r : Response) (m : TrafficMonitor)
      → streams (keep_snapshot w id r m) ≡ streams m
  kept_snapshot-streams none r m = refl
  kept_snapshot-streams (some id) r m = refl

  note_snapshot-streams :
      (c : Bool) (r : Response) (m : TrafficMonitor) → streams (note_snapshot w c r m) ≡ streams m
  unfolding note_snapshot
  note_snapshot-streams c r m = if_streams (streams m) _ _ m (kept_snapshot-streams _ r m) refl

  note_response-streams :
      (c : Bool) (r : Response) (m : TrafficMonitor) → streams (note_response w c r m) ≡ streams m
  unfolding note_response
  note_response-streams c r m =
      note_snapshot-streams c r _
      ∙ note_status-streams c r _
      ∙ note_me-streams r _
      ∙ note_session-streams c r _
      ∙ note_429-streams c r m

  on_response-streams :
      (r : Response) (m : TrafficMonitor) → streams (on_response w r m) ≡ streams m
  unfolding on_response forget
  on_response-streams r m = if_streams (streams m) _ m _ refl (note_response-streams _ r m)

  on_request_failed-streams :
      (r : Request) (m : TrafficMonitor) → streams (on_request_failed w r m) ≡ streams m
  unfolding on_request_failed forget
  on_request_failed-streams r m = if_streams (streams m) _ _ m refl refl

  -- no task begins among the signals
  abbrev pub IsOneTask : Signal → Type 0
  IsOneTask begins = ⊥
  IsOneTask (requested r now) = Unit
  IsOneTask _ = Unit

  observe_all-streams :
      (signals : List Signal) (m : TrafficMonitor)
      → All IsOneTask signals
      → streams (observe_all w signals m) ≡ streams m + count_submissions signals
  unfolding observe_all observe
  observe_all-streams [] m h = ground arith
  observe_all-streams (begins ∷ signals) m h = elim h.0 [ ]
  observe_all-streams (requested r now ∷ signals) m h =
      observe_all-streams signals _ h.1 ∙ ground (arith, on_request-streams r now m)
  observe_all-streams (responded r ∷ signals) m h =
      observe_all-streams signals _ h.1 ∙ ground (arith, on_response-streams r m)
  observe_all-streams (failed r ∷ signals) m h =
      observe_all-streams signals _ h.1 ∙ ground (arith, on_request_failed-streams r m)

-- Behind the beginning of a task, and until the next one begins, `validate_single_stream_request`
-- returns just where one of the requests that the page made to ChatGPT is a POST to the
-- conversation, whatever else the page signals, and raises `AmbiguousSubmission` otherwise.
pub single_submission :
    (w : Settings) (signals : List Signal) (m : TrafficMonitor)
    → All (IsOneTask w) signals
    → validate_single_stream_request (observe_all w signals (begin_task m)) ≡ (
        if nat_beq (count_submissions w signals) 1
        then ok tt
        else raised
            (ambiguous_submission "expected exactly one frontend POST /backend-api/f/conversation"))
unfolding validate_single_stream_request begin_task
single_submission w signals m h = ground (arith, observe_all-streams w signals (begin_task m) h)
