-- ===== src/Exceptions.antt =====
-- apps/runner/src/gpt_trace_runner/exceptions.py: the exceptions of the runner, and the few of
-- Python's own that its handlers tell apart. An exception keeps its message without the values
-- that the source interpolates into it. Seconds are whole microseconds.
use gpt_trace_extractor_for.Base.{ℕ, String, Option, none, some, Bool, true, false, max, min}

-- the fields of `RateLimited`; `_parse_retry_after` yields no negative and no infinite delay
pub record RateLimit : Type 0 where
  pub retry_after_seconds : Option ℕ
  pub endpoint : Option String
  pub method : Option String
  pub request_id : Option String

pub data Exn : Type 0 where
  browser_connection_error browser_identity_error : String → Exn
  authentication_required : String → Exn
  rate_limited : String → RateLimit → Exn
  access_denied site_challenge_failed ambiguous_submission concurrent_turn_error : String → Exn
  concurrent_runner_error clipboard_unavailable fatal_ui_state environment_drift : String → Exn
  model_mismatch conversation_error conversation_not_found conversation_stream_error : String → Exn
  conversation_stream_timeout conversation_stream_aborted : String → Exn
  conversation_stream_protocol_error conversation_stream_incomplete : String → Exn
  recovery_incomplete app_infrastructure_error app_registry_error : String → Exn
  storage_error storage_conflict : String → Exn
  chatgpt_ui_error app_unavailable benchmark_error : String → Exn
  -- Python's: `ValueError`, any other `Exception`, and two that are no `Exception`
  value_error other_exception : String → Exn
  keyboard_interrupt cancelled_error : Exn

-- `isinstance(exc, BatchCircuitBreaker)`
unfoldable pub is_batch_circuit_breaker : Exn → Bool
is_batch_circuit_breaker (chatgpt_ui_error m) = false
is_batch_circuit_breaker (app_unavailable m) = false
is_batch_circuit_breaker (benchmark_error m) = false
is_batch_circuit_breaker (value_error m) = false
is_batch_circuit_breaker (other_exception m) = false
is_batch_circuit_breaker keyboard_interrupt = false
is_batch_circuit_breaker cancelled_error = false
is_batch_circuit_breaker _ = true

-- a second in microseconds, and DEFAULT_RATE_LIMIT_FALLBACK_SECONDS
abbrev pub one_second : ℕ
one_second = 1000000

abbrev pub default_rate_limit_fallback_seconds : ℕ
default_rate_limit_fallback_seconds = 10000000

-- `RateLimited.retry_delay`
unfoldable pub retry_delay : RateLimit → ℕ → ℕ → ℕ
retry_delay r default_seconds maximum_seconds = elim r.retry_after_seconds [
  | some value ↦ value
  | none ↦ max 0 (min default_seconds maximum_seconds)
]

-- what a Python call does: it returns or it raises
pub data Outcome {ℓ} (A : Type ℓ) : Type ℓ where
  ok : A → Outcome A
  raised : Exn → Outcome A

infixl 5 ◌>>=◌ ◌>>◌
abbrev pub ◌>>=◌ {ℓ κ} : {A : Type ℓ} {B : Type κ} → Outcome A → (A → Outcome B) → Outcome B
ok a >>= f = f a
raised e >>= f = raised e

abbrev pub ◌>>◌ {ℓ κ} : {A : Type ℓ} {B : Type κ} → Outcome A → Outcome B → Outcome B
m >> k = m >>= λ _. k

-- `if not test: raise e`
abbrev pub guard : Bool → Exn → Outcome (Unit {0})
guard true e = ok tt
guard false e = raised e
