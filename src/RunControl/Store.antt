-- ===== src/RunControl/Store.antt =====
-- `RunControlStore` of superbench/run_control.py: the file, the lock with its count of
-- transactions, and the first SIGINT, whose handler is `request_pause_from_signal`. A second one
-- raises `KeyboardInterrupt` wherever the process is, and is not modelled here.
use gpt_trace_extractor_for.Base.{
  ℕ, ◌+◌, ◌-◌, String, Option, none, some, Bool, true, false, not, List, nat_beq, ltb,
  if◌then◌else◌,
}
use gpt_trace_extractor_for.Exceptions.{
  Exn, Outcome, ok, raised, recovery_incomplete, rate_limited, other_exception,
}
use gpt_trace_extractor_for.RunControl.{
  ActiveRun, needs_intervention, paused, is_completed, defer_transition, signal_pause_transition,
  request_pause_transition, pause_if_requested_transition, begin_resume_transition,
  confirm_running_transition, start_task_transition, finish_task_transition, incident_transition,
  complete_transition,
}

pub data RunFile : Type 0 where
  absent unreadable : RunFile
  holds : ActiveRun → RunFile

-- what a method does to the file while it owns the lock
abbrev pub Body {ℓ} : Type ℓ → Type ℓ
Body A = RunFile → Outcome A × RunFile

-- `_load`
unfoldable pub load_file : RunFile → Outcome (Option ActiveRun)
load_file absent = ok none
load_file unreadable = raised (recovery_incomplete "active run unreadable")
load_file (holds state) =
    if not (nat_beq state.schema_version 3)
    then raised (recovery_incomplete "unsupported active-run schema")
    else ok (some state)

-- What a call of `_write` does: it returns with the file replaced, it raises before
-- `os.replace` and leaves the file, or it raises behind it, when the folder is synced.
pub data Write : Type 0 where
  written not_written not_synced : Write

abbrev pub os_error : Exn
os_error = other_exception "OSError"

-- `_write`, and the return of the record
unfoldable pub write_file : Write → ActiveRun → Body ActiveRun
write_file written state file = (ok state, holds state)
write_file not_written state file = (raised os_error, file)
write_file not_synced state file = (raised os_error, holds state)

abbrev pub write_result : Write → Outcome ActiveRun → Body ActiveRun
write_result w (ok state) file = write_file w state file
write_result w (raised e) file = (raised e, file)

-- `_mutate`, under the lock
unfoldable pub mutate : Write → (ActiveRun → Outcome ActiveRun) → Body ActiveRun
unfolding load_file
mutate w fn file = elim (load_file file) [
  | raised e ↦ (raised e, file)
  | ok found ↦ elim found [
    | none ↦ (raised (recovery_incomplete "no active Superbench run"), file)
    | some state ↦ write_result w (fn state) file
  ]
]

-- `create`, under the lock
unfoldable pub create : Write → ActiveRun → Body ActiveRun
unfolding load_file is_completed
create w state file = elim (load_file file) [
  | raised e ↦ (raised e, file)
  | ok found ↦ elim found [
    | none ↦ write_file w state file
    | some old ↦
        if not (is_completed old.status)
        then (raised (recovery_incomplete "active run already exists"), file)
        else write_file w state file
  ]
]

-- the argument of `defer_rate_limit`: a float that is finite and not negative, or any other
pub data Delay : Type 0 where
  seconds : ℕ → Delay
  invalid : Delay

-- `defer_rate_limit` at the time `now`
unfoldable pub defer_rate_limit : Write → Delay → ℕ → Body ActiveRun
defer_rate_limit w invalid now file =
    (raised (recovery_incomplete "invalid rate-limit delay"), file)
defer_rate_limit w (seconds delay) now file = mutate w (defer_transition (now + delay)) file

-- the last lines of `enforce_rate_limit_defer`
unfoldable pub enforce_deadline : ActiveRun → Option ℕ → ℕ → Outcome ActiveRun
enforce_deadline state none now = ok state
enforce_deadline state (some not_before) now =
    if ltb now not_before
    then raised (
        rate_limited "ChatGPT resume deferred by Retry-After" (record {
          retry_after_seconds = some (not_before - now);
          endpoint = some "active-run";
          method = some "RESUME";
          request_id = none;
        }))
    else ok state

-- `enforce_rate_limit_defer` at the time `now`
unfoldable pub enforce_rate_limit_defer : ℕ → RunFile → Outcome ActiveRun
unfolding load_file enforce_deadline
enforce_rate_limit_defer now file = elim (load_file file) [
  | raised e ↦ raised e
  | ok found ↦ elim found [
    | none ↦ raised (recovery_incomplete "no active Superbench run")
    | some state ↦ enforce_deadline state state.retry_not_before now
  ]
]

-- The methods that may write the file.
pub data Operation : Type 0 where
  creates : ActiveRun → Operation
  defers_rate_limit : Delay → ℕ → Operation
  requests_pause pauses_if_requested begins_resume confirms_running : Operation
  starts_task finishes_task : String → Operation
  intervenes pauses_on_error : String → String → String → Operation
  completes : List String → Operation

unfoldable pub body : Write → Operation → Body ActiveRun
body w (creates state) = create w state
body w (defers_rate_limit delay now) = defer_rate_limit w delay now
body w requests_pause = mutate w request_pause_transition
body w pauses_if_requested = mutate w pause_if_requested_transition
body w begins_resume = mutate w begin_resume_transition
body w confirms_running = mutate w confirm_running_transition
body w (starts_task id) = mutate w (start_task_transition id)
body w (finishes_task id) = mutate w (finish_task_transition id)
body w (intervenes reason type message) =
    mutate w (incident_transition needs_intervention reason type message)
body w (pauses_on_error reason type message) =
    mutate w (incident_transition paused reason type message)
body w (completes stored) = mutate w (complete_transition stored)

-- naming this on an `unfolding` line opens the methods down to their transitions
unfoldable pub body_transitions : Write → Operation → Body ActiveRun
unfolding body create defer_rate_limit mutate write_file defer_transition request_pause_transition
    pause_if_requested_transition begin_resume_transition confirm_running_transition
    start_task_transition finish_task_transition incident_transition complete_transition
body_transitions = body

pub record RunControlStore : Type 0 where
  pub file : RunFile
  pub transaction_depth : ℕ
  pub signal_pause_pending : Bool

-- The part of `_lock` up to the point where the count is down again. `sigint` says whether the
-- handler ran meanwhile: with the count above 0 it only sets the flag.
unfoldable pub critical {ℓ} :
    {A : Type ℓ} → Bool → Body A → RunControlStore → Outcome A × RunControlStore
critical sigint work s =
    let (r, f) = work s.file in
    (
      r,
      record s {
        file = f;
        transaction_depth = (s.transaction_depth + 1) - 1;
        signal_pause_pending = if sigint then true else s.signal_pause_pending;
      },
    )

-- An exception of the `finally` replaces the result of the block.
abbrev pub override {ℓ κ} : {A : Type ℓ} {B : Type κ} → Outcome A → Outcome B → Outcome B
override (ok a) r = r
override (raised e) r = raised e

-- `_flush_signal_pause`, with its own write. No pause is owed when its transaction ends, so that
-- one flushes nothing.
unfoldable pub flush : Write → RunControlStore → Outcome (Unit {0}) × RunControlStore
unfolding critical
flush w s =
    if s.signal_pause_pending
    then (let (r, t) =
          critical false (mutate w signal_pause_transition)
            (record s { signal_pause_pending = false }) in
        (override r (ok tt), t))
    else (ok tt, s)

-- the end of `_lock`
unfoldable pub release {ℓ} :
    {A : Type ℓ} → Write → Outcome A × RunControlStore → Outcome A × RunControlStore
unfolding flush
release w (r, t) =
    let (r', u) = flush w t in if nat_beq t.transaction_depth 0 then (override r' r, u) else (r, t)

-- `with self._lock(): work`; the first argument says whether SIGINT arrives under the lock, the
-- second what the write of the pause does that is owed then
unfoldable pub transaction {ℓ} :
    {A : Type ℓ} → Bool → Write → Body A → RunControlStore → Outcome A × RunControlStore
unfolding critical release
transaction sigint w work s = release w (critical sigint work s)

-- `request_pause_from_signal`, outside a transaction or within one
unfoldable pub request_pause_from_signal :
    Write → RunControlStore → Outcome (Unit {0}) × RunControlStore
unfolding flush
request_pause_from_signal w s =
    let pending : RunControlStore = record s { signal_pause_pending = true } in
    if nat_beq s.transaction_depth 0 then flush w pending else (ok tt, pending)
