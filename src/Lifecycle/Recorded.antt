-- ===== src/Lifecycle/Recorded.antt =====
-- How `_execute_locked` of superbench/lifecycle.py ends on an exception.
use gpt_trace_extractor_for.Base.{
  ℕ, ◌+◌, ◌-◌, ◌<◌, max, String, ◌≡◌, refl, sym, ap, subst, Option, Option-cases, none, some, false,
  arith, if◌then◌else◌, string_eq,
}
use gpt_trace_extractor_for.Exceptions.{
  Exn, authentication_required, site_challenge_failed, access_denied, recovery_incomplete,
  keyboard_interrupt, ok, raised, RateLimit, rate_limited, retry_delay, one_second,
  default_rate_limit_fallback_seconds,
}
use gpt_trace_extractor_for.RunControl.{
  RunStatus, ActiveRun, needs_intervention, paused, is_completed, or_zero,
}
use gpt_trace_extractor_for.RunControl.Store.{
  holds, load_file, body_transitions, enforce_rate_limit_defer, enforce_deadline,
}
use gpt_trace_extractor_for.Lifecycle.{Surroundings, classify_incident, failed, handler, call}
use gpt_trace_extractor_for.Lifecycle.Execute.{
  deferred_delay, defer, note_incident, record_incident, handle,
}
use gpt_trace_extractor_for.Lifecycle.Active.{unfinished, may_resume, resume_active}

-- how an operator finds the run: a rate limit pauses it, any other exception needs intervention
abbrev pub status_behind : Exn → RunStatus
status_behind (rate_limited m r) = paused
status_behind keyboard_interrupt = needs_intervention
status_behind _ = needs_intervention

abbrev pub reason_of : Exn → String
reason_of (rate_limited m r) = "rate_limited"
reason_of (authentication_required m) = "authentication"
reason_of (site_challenge_failed m) = "challenge"
reason_of (access_denied m) = "access_denied"
reason_of (recovery_incomplete m) = "recovery"
reason_of keyboard_interrupt = "infrastructure"
reason_of _ = "infrastructure"

-- the wait of a rate limit in microseconds: its `Retry-After`, or ten seconds where it has none
abbrev pub wait_of : Option ℕ → ℕ
wait_of none = 10000000
wait_of (some wait) = wait

-- the deadline behind an exception: a rate limit moves it to its wait, at least a second, behind
-- the time of the incident, and never back
abbrev pub deadline_behind : ℕ → Exn → Option ℕ → Option ℕ
deadline_behind now (rate_limited m r) old =
    some (max (or_zero old) (now + max 1000000 (wait_of r.retry_after_seconds)))
deadline_behind now keyboard_interrupt old = old
deadline_behind now _ old = old

-- the record that an exception leaves in the file
abbrev pub parked : Surroundings → Exn → ActiveRun → ActiveRun
parked w e s = record s {
  status = status_behind e;
  intervention_reason = some (reason_of e);
  exception_type = some (w.type_name e);
  intervention_message = some (w.message_of e);
  retry_not_before = deadline_behind w.time_of_incident e s.retry_not_before;
}

abbrev deferred : Surroundings → Exn → ActiveRun → ActiveRun
deferred w e s = record s {
  retry_not_before = deadline_behind w.time_of_incident e s.retry_not_before;
}

deferred-delay :
    (w : Surroundings) (e : Exn) (old : Option ℕ)
    → (elim (deferred_delay w e) as (λ x. Option ℕ) [
      | none ↦ old
      | some delay ↦ some (max (or_zero old) (w.time_of_incident + delay))
    ])
      ≡ deadline_behind w.time_of_incident e old
unfolding retry_delay
deferred-delay w (rate_limited m r) old = ground (arith, Option-cases r.retry_after_seconds)
deferred-delay w keyboard_interrupt old = refl
deferred-delay w _ old = refl

defer-deferred :
    (w : Surroundings) (e : Exn) (s : ActiveRun)
    → s.schema_version ≡ 3
    → defer w e (holds s) ≡ (ok tt, holds (deferred w e s))
unfolding defer call body_transitions
defer-deferred w e s v = ground (arith, deferred_delay w e, deferred-delay w e s.retry_not_before)

incident_status :
    (e : Exn) → (if (classify_incident e).1 then needs_intervention else paused) ≡ status_behind e
unfolding classify_incident
incident_status (rate_limited m r) = refl
incident_status keyboard_interrupt = refl
incident_status _ = refl

incident_reason : (e : Exn) → (classify_incident e).0 ≡ reason_of e
unfolding classify_incident
incident_reason (rate_limited m r) = refl
incident_reason keyboard_interrupt = refl
incident_reason _ = refl

note_incident-parked :
    (w : Surroundings) (e : Exn) (s : ActiveRun)
    → s.schema_version ≡ 3
    → note_incident w e (holds (deferred w e s)) ≡ (ok tt, holds (parked w e s))
unfolding note_incident call body_transitions
note_incident-parked w e s v =
    ground (arith, classify_incident e, incident_status e, incident_reason e)

pub load_file-holds : (s : ActiveRun) → s.schema_version ≡ 3 → load_file (holds s) ≡ ok (some s)
unfolding load_file
load_file-holds s v = ground arith

record_incident-parked {ℓ} :
    {A : Type ℓ} (w : Surroundings) (e : Exn) (s : ActiveRun)
    → s.schema_version ≡ 3
    → is_completed s.status ≡ false
    → record_incident w {A = A} e (holds s) ≡ (raised e, holds (parked w e s))
unfolding record_incident
record_incident-parked w e s v n =
    rw
      (
        record_incident,
        load_file-holds s v,
        n,
        defer-deferred w e s v,
        note_incident-parked w e s v,
      )
      refl

-- An exception that is neither a cancellation nor a second Ctrl+C is raised again, and a readable run
-- that is not completed is left in the control file, where the writes succeed: after a rate limit
-- as `paused`, else as `needs_intervention`, with the reason for the kind of the exception, its
-- type and its text; a rate limit also moves the deadline to its `Retry-After` or else ten
-- seconds, at least a second, behind the time of the incident, and never back.
pub failure_recorded :
    (w : Surroundings) (result : ℕ × String) (e : Exn) (s : ActiveRun)
    → s.schema_version ≡ 3
    → is_completed s.status ≡ false
    → handler e ≡ failed
    → handle w result e (holds s) ≡ (raised e, holds (parked w e s))
unfolding handle
failure_recorded w result e s v n h = rw (handle, h) (record_incident-parked w e s v n)

-- the refusal that a resume meets before the deadline
abbrev pub resume_refused : ℕ → Exn
resume_refused remaining = rate_limited "ChatGPT resume deferred by Retry-After" (record {
  retry_after_seconds = some remaining;
  endpoint = some "active-run";
  method = some "RESUME";
  request_id = none;
})

unfinished-ok :
    (w : Surroundings) (m : String) (s : ActiveRun)
    → s.schema_version ≡ 3
    → is_completed s.status ≡ false
    → unfinished w m (holds s) ≡ ok s
unfolding unfinished
unfinished-ok w m s h n = rw (unfinished, load_file-holds s h, n) refl

enforce-refused :
    (now : ℕ) (s : ActiveRun) (deadline : ℕ)
    → s.schema_version ≡ 3
    → s.retry_not_before ≡ some deadline
    → now < deadline
    → enforce_rate_limit_defer now (holds s) ≡ raised (resume_refused (deadline - now))
unfolding enforce_rate_limit_defer enforce_deadline
enforce-refused now s deadline h d t =
    rw (enforce_rate_limit_defer, load_file-holds s h, d) (ground arith)

refused_before :
    (v : Surroundings) (s : ActiveRun) (deadline : ℕ)
    → s.schema_version ≡ 3
    → is_completed s.status ≡ false
    → s.retry_not_before ≡ some deadline
    → v.time_of_check < deadline
    → resume_active v (holds s) ≡ (raised (resume_refused (deadline - v.time_of_check)), holds s)
unfolding resume_active may_resume
refused_before v s deadline h n d t =
    rw
      (
        resume_active,
        may_resume,
        unfinished-ok v "no unfinished active Superbench run" s h n,
        enforce-refused v.time_of_check s deadline h d t,
      )
      refl

-- the later of the old deadline and the one of the new rate limit
abbrev pub deadline_of : Surroundings → RateLimit → ActiveRun → ℕ
deadline_of w limit s = max (or_zero s.retry_not_before) (
    w.time_of_incident
    + max one_second
        (retry_delay limit default_rate_limit_fallback_seconds default_rate_limit_fallback_seconds))

-- After a readable run that is not completed has ended on a rate limit, a resume before its deadline is refused with the time
-- that is left, before anything else is done, and the control file stays as it is.
pub resume_waits :
    (w v : Surroundings) (result : ℕ × String) (m : String) (limit : RateLimit) (s : ActiveRun)
    → s.schema_version ≡ 3
    → is_completed s.status ≡ false
    → v.time_of_check < deadline_of w limit s
    → let left = (handle w result (rate_limited m limit) (holds s)).1 in
      resume_active v left
      ≡ (raised (resume_refused (deadline_of w limit s - v.time_of_check)), left)
unfolding handler classify_incident is_completed retry_delay
resume_waits w v result m limit s h n t =
    subst
      (λ f.
        resume_active v f ≡ (raised (resume_refused (deadline_of w limit s - v.time_of_check)), f))
      (sym (ap (λ x. x.1) (failure_recorded w result (rate_limited m limit) s h n refl)))
      (refused_before v (parked w (rate_limited m limit) s) (deadline_of w limit s) h refl refl t)
