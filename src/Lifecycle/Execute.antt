-- ===== src/Lifecycle/Execute.antt =====
-- `_execute_locked` of superbench/lifecycle.py and its exceptions.
use gpt_trace_extractor_for.Base.{ℕ, String, Option, none, some, max, string_eq, if◌then◌else◌}
use gpt_trace_extractor_for.Exceptions.{
  Exn, rate_limited, recovery_incomplete, cancelled_error, Outcome, ok, raised, retry_delay,
  one_second, default_rate_limit_fallback_seconds,
}
use gpt_trace_extractor_for.RunControl.{is_pause_requested, is_completed}
use gpt_trace_extractor_for.RunControl.Store.{
  RunFile, Body, load_file, defers_rate_limit, pauses_if_requested, intervenes, pauses_on_error,
  seconds,
}
use gpt_trace_extractor_for.Lifecycle.{
  Surroundings, classify_incident, call, and_then, cancelled, interrupted, failed, handler,
  finish_run,
}

module _ (w : Surroundings) where
  -- the delay of `defer_rate_limit`, and what is recorded of an exception
  abbrev pub deferred_delay : Exn → Option ℕ
  deferred_delay (rate_limited m r) = some (
      max one_second
        (retry_delay r default_rate_limit_fallback_seconds default_rate_limit_fallback_seconds))
  deferred_delay _ = none

  unfoldable pub defer : Exn → Body (Unit {0})
  unfolding call retry_delay
  defer e file = elim (deferred_delay e) [
    | some delay ↦ call (defers_rate_limit (seconds delay) w.time_of_incident) file
    | none ↦ (ok tt, file)
  ]

  unfoldable pub note_incident : Exn → Body (Unit {0})
  unfolding call classify_incident
  note_incident e file =
      let (reason, needs_intervention) = classify_incident e in
      if needs_intervention
      then call (intervenes reason (w.type_name e) (w.message_of e)) file
      else call (pauses_on_error reason (w.type_name e) (w.message_of e)) file

  -- the last `except` clause
  unfoldable pub record_incident {ℓ} : {A : Type ℓ} → Exn → Body A
  unfolding load_file is_completed defer note_incident
  record_incident e file = elim (load_file file) [
    | raised x ↦ (raised x, file)
    | ok found ↦ elim found [
      | none ↦ (raised e, file)
      | some state ↦
          if is_completed state.status
          then (raised e, file)
          else and_then (defer e file) (λ f. and_then (note_incident e f) (λ g. (raised e, g)))
    ]
  ]

  -- `except asyncio.CancelledError`
  unfoldable pub pause_cancelled : ℕ × String → Body (ℕ × String)
  unfolding load_file is_pause_requested call
  pause_cancelled result file = elim (load_file file) [
    | raised x ↦ (raised x, file)
    | ok found ↦ elim found [
      | none ↦ (raised cancelled_error, file)
      | some state ↦
          if is_pause_requested state.status
          then and_then (call pauses_if_requested file) (λ f. (ok result, f))
          else (raised cancelled_error, file)
    ]
  ]

  unfoldable pub handle : ℕ × String → Exn → Body (ℕ × String)
  unfolding handler pause_cancelled record_incident
  handle result e file = elim (handler e) [
    | cancelled ↦ pause_cancelled result file
    | interrupted ↦ (raised e, file)
    | failed ↦ record_incident e file
  ]

  -- the `try` statement from the point where `run_pending` is over
  unfoldable pub conclude_run :
      ℕ × String → Outcome (Unit {0}) × RunFile → Outcome (ℕ × String) × RunFile
  unfolding handle
  conclude_run result (ok u, file) = (ok result, file)
  conclude_run result (raised e, file) = handle result e file

  unfoldable pub after_pending :
      String → Outcome (ℕ × String) × RunFile → Outcome (ℕ × String) × RunFile
  unfolding handle conclude_run finish_run
  after_pending campaign_id (raised e, file) = handle (0, campaign_id) e file
  after_pending campaign_id (ok result, file) = conclude_run result (finish_run w file)

  unfoldable pub execute_locked : Body (ℕ × String)
  unfolding load_file after_pending
  execute_locked file = elim (load_file file) [
    | raised e ↦ (raised e, file)
    | ok found ↦ elim found [
      | none ↦ (raised (recovery_incomplete "no active Superbench run"), file)
      | some state ↦ after_pending state.campaign_id (w.run_pending file)
    ]
  ]
