-- ===== src/Journal/Deferral.antt =====
-- `_persist_rate_limit_defer` and `_raise_if_recovery_deferred` of superbench/execution.py: the deadline
-- in the journal before which no recovery is made.
use gpt_trace_extractor_for.Base.{
  ℕ, ◌+◌, ◌≤◌, ◌≡◌, refl, ◌↔◌, Option, none, some, max, arith, subst, sym, ◌∙◌,
}
use gpt_trace_extractor_for.Exceptions.{
  RateLimit, retry_delay, one_second, default_rate_limit_fallback_seconds, ok,
}
use gpt_trace_extractor_for.Journal.{
  raise_before, SubmissionJournal, JournalFile, holds, persist_rate_limit_defer,
  raise_if_recovery_deferred,
}

-- how long a rate limit defers a recovery
abbrev pub deferral : RateLimit → ℕ
deferral limit =
    max one_second
      (retry_delay limit default_rate_limit_fallback_seconds default_rate_limit_fallback_seconds)

-- the entry with the deadline of a rate limit at the time `now`
abbrev pub deferred : ℕ → RateLimit → SubmissionJournal → SubmissionJournal
deferred now limit pending = record pending {
  retry_not_before = some (elim pending.retry_not_before [
    | none ↦ now + deferral limit
    | some previous ↦ max (now + deferral limit) previous
  ]);
}

persist_lem :
    (now : ℕ) (limit : RateLimit) (pending : SubmissionJournal) (file : JournalFile)
    → persist_rate_limit_defer now limit (some pending) file ≡ holds (deferred now limit pending)
unfolding persist_rate_limit_defer
persist_lem now limit pending file = refl

-- the deadline, where there is one, is over at the time `t`
abbrev IsOver : Option ℕ → ℕ → Type 0
IsOver none t = Unit
IsOver (some deadline) t = deadline ≤ t

raise_before-IsOver : (t : ℕ) (o : Option ℕ) → (raise_before t o ≡ ok tt) ↔ IsOver o t
raise_before-IsOver t none = (λ h. tt, λ h. refl)
raise_before-IsOver t (some d) = ground arith

raise_if-IsOver :
    (t : ℕ) (pending : SubmissionJournal)
    → (raise_if_recovery_deferred t pending ≡ ok tt) ↔ IsOver pending.retry_not_before t
unfolding raise_if_recovery_deferred
raise_if-IsOver t pending = raise_before-IsOver t pending.retry_not_before

IsOver-both :
    (o : Option ℕ) (d t : ℕ)
    → IsOver (some (elim o [ none ↦ d | some previous ↦ max d previous ])) t
      ↔ ((d ≤ t) × IsOver o t)
IsOver-both none d t = (λ h. (h, tt), λ h. h.0)
IsOver-both (some p) d t =
    (λ h. (omega arith, omega arith), λ h. (let a = h.0 in let b = h.1 in omega arith))

deferred_iff :
    (now t : ℕ) (limit : RateLimit) (pending : SubmissionJournal)
    → (raise_if_recovery_deferred t (deferred now limit pending) ≡ ok tt)
      ↔ ((now + deferral limit ≤ t) × (raise_if_recovery_deferred t pending ≡ ok tt))
deferred_iff now t limit pending =
    let a = raise_if-IsOver t (deferred now limit pending) in
    let b = IsOver-both pending.retry_not_before (now + deferral limit) t in
    let c = raise_if-IsOver t pending in
    (λ h. ((b.0 (a.0 h)).0, c.1 (b.0 (a.0 h)).1), λ h. a.1 (b.1 (h.0, c.0 h.1)))

written_lem :
    (now : ℕ) (limit : RateLimit) (pending written : SubmissionJournal) (file : JournalFile)
    → persist_rate_limit_defer now limit (some pending) file ≡ holds written
    → deferred now limit pending ≡ written
written_lem now limit pending written file h =
    let both : holds (deferred now limit pending) ≡ holds written =
      sym (persist_lem now limit pending file) ∙ h in
    cc

-- When a rate limit at the time `now` was recorded for a pending entry, a recovery at the time `t` goes on
-- exactly if the delay of the rate limit, at least a second, is over and the entry as it was
-- before did not defer it either.
pub deferral_exact :
    (now t : ℕ) (limit : RateLimit) (pending written : SubmissionJournal) (file : JournalFile)
    → persist_rate_limit_defer now limit (some pending) file ≡ holds written
    → (raise_if_recovery_deferred t written ≡ ok tt)
      ↔ ((now + deferral limit ≤ t) × (raise_if_recovery_deferred t pending ≡ ok tt))
deferral_exact now t limit pending written file h =
    subst
      (λ e.
        (raise_if_recovery_deferred t e ≡ ok tt)
        ↔ ((now + deferral limit ≤ t) × (raise_if_recovery_deferred t pending ≡ ok tt)))
      (written_lem now limit pending written file h) (deferred_iff now t limit pending)
