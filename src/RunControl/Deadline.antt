-- ===== src/RunControl/Deadline.antt =====
-- The deadline of superbench/run_control.py before which a resume must not call ChatGPT.
use gpt_trace_extractor_for.Base.{
  ℕ, ◌<◌, ◌≤◌, ◌-◌, max, ◌≡◌, none, some, Bool, true, false, arith, string_eq, ◌+◌,
}
use gpt_trace_extractor_for.Exceptions.{Outcome, ok, raised, rate_limited}
use gpt_trace_extractor_for.RunControl.{or_zero, ActiveRun}
use gpt_trace_extractor_for.RunControl.Store.{
  holds, written, Operation, creates, defers_rate_limit, requests_pause, confirms_running,
  completes, seconds, invalid, body, body_transitions, enforce_rate_limit_defer,
}

abbrev pub RefusedFor : ℕ → Outcome ActiveRun → Type 0
RefusedFor remaining (ok state) = ⊥
RefusedFor remaining (raised e) =
    e
    ≡ rate_limited "ChatGPT resume deferred by Retry-After" (record {
      retry_after_seconds = some remaining;
      endpoint = some "active-run";
      method = some "RESUME";
      request_id = none;
    })

-- After a rate limit of `delay` at the time `now`, a resume at the time `later` is refused for
-- exactly the time that is left, when the later of the old deadline and the new one is ahead.
pub resume_deferred :
    (a : ActiveRun) (delay now later : ℕ)
    → a.schema_version ≡ 3
    → later < max (or_zero a.retry_not_before) (now + delay)
    → RefusedFor (max (or_zero a.retry_not_before) (now + delay) - later) (
        enforce_rate_limit_defer later
          (body written (defers_rate_limit (seconds delay) now) (holds a)).1)
unfolding body_transitions enforce_rate_limit_defer
resume_deferred a delay now later v h = ground arith

-- Once both deadlines have passed the resume goes on with the record in the file.
pub resume_allowed :
    (a b : ActiveRun) (delay now later : ℕ)
    → (body written (defers_rate_limit (seconds delay) now) (holds a)).0 ≡ ok b
    → max (or_zero a.retry_not_before) (now + delay) ≤ later
    → enforce_rate_limit_defer later
        (body written (defers_rate_limit (seconds delay) now) (holds a)).1
      ≡ ok b
unfolding body_transitions enforce_rate_limit_defer
resume_allowed a b delay now later v h = ground arith

abbrev clears_deadline : Operation → Bool
clears_deadline (creates state) = true
clears_deadline confirms_running = true
clears_deadline (completes stored) = true
clears_deadline _ = false

-- No method but `create`, `confirm_running` and `complete` moves the deadline to an earlier time.
pub deadline_monotone :
    (op : Operation) (a b : ActiveRun)
    → clears_deadline op ≡ false
    → (body written op (holds a)).1 ≡ holds b
    → or_zero a.retry_not_before ≤ or_zero b.retry_not_before
unfolding body_transitions
deadline_monotone (creates state) a b n h = cc
deadline_monotone confirms_running a b n h = cc
deadline_monotone (completes stored) a b n h = cc
deadline_monotone (defers_rate_limit (seconds d) now) a b n h = ground arith
deadline_monotone (defers_rate_limit invalid now) a b n h = ground arith
deadline_monotone requests_pause a b n h = ground arith
deadline_monotone _ a b n h = ground arith
