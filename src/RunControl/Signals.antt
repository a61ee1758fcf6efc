-- ===== src/RunControl/Signals.antt =====
-- SIGINT and `_lock` of superbench/run_control.py: the handler within a transaction and outside.
use gpt_trace_extractor_for.Base.{
  ◌≡◌, refl, ◌⊎◌, inl, inr, Bool, true, false, arith, nat_beq, Bool-cases,
}
use gpt_trace_extractor_for.Exceptions.{Outcome, ok, raised}
use gpt_trace_extractor_for.RunControl.{is_active, signal_pause_transition}
use gpt_trace_extractor_for.RunControl.Store.{
  RunFile, absent, unreadable, holds, Write, written, not_written, not_synced, Body, Operation,
  body, mutate, write_file, override, RunControlStore, critical, flush, release, transaction,
  request_pause_from_signal,
}
use gpt_trace_extractor_for.RunControl.Atomic.{Commits, body-Commits}

-- The lock is free and no pause is owed.
pub record IsIdle (s : RunControlStore) : Type 0 where
  pub no_transaction : s.transaction_depth ≡ 0
  pub no_signal : s.signal_pause_pending ≡ false

-- No readable run goes on: its status is neither `running` nor `resuming`.
abbrev pub IsHalted : RunFile → Type 0
IsHalted absent = Unit
IsHalted unreadable = Unit
IsHalted (holds a) = (is_active a.status ≡ false) ⊎ (nat_beq a.schema_version 3 ≡ false)

abbrev pub IsRaised {ℓ} : {A : Type ℓ} → Outcome A → Type 0
IsRaised (ok a) = ⊥
IsRaised (raised e) = Unit

-- The pause of a signal has reached the file, or its write failed before it replaced the file and
-- the caller is told.
abbrev pub IsNoticed {ℓ} : {A : Type ℓ} → Write → Outcome A → RunFile → Type 0
IsNoticed w r file = IsHalted file ⊎ ((w ≡ not_written) × IsRaised r)

pause-IsNoticed :
    (w : Write) (file : RunFile)
    → IsNoticed w
        (mutate w signal_pause_transition file).0
        (mutate w signal_pause_transition file).1
unfolding mutate signal_pause_transition write_file
pause-IsNoticed w absent = inl tt
pause-IsNoticed w unreadable = inl tt
pause-IsNoticed written (holds a) = inl (ground arith)
pause-IsNoticed not_synced (holds a) = inl (ground arith)
pause-IsNoticed not_written (holds a) = ground arith

override-IsRaised {ℓ κ} :
    {A : Type ℓ} {B : Type κ} (a : Outcome A) (b : Outcome B) → IsRaised a → IsRaised (override a b)
override-IsRaised (ok x) b h = absurd h
override-IsRaised (raised e) b h = tt

override-IsNoticed {ℓ κ} :
    {A : Type ℓ} {B : Type κ} (w : Write) (a : Outcome A) (b : Outcome B) (file : RunFile)
    → IsNoticed w a file
    → IsNoticed w (override a b) file
override-IsNoticed w a b file (inl halted) = inl halted
override-IsNoticed w a b file (inr told) = inr (told.0, override-IsRaised a b told.1)

flush-IsNoticed :
    (w : Write) (s : RunControlStore)
    → s.transaction_depth ≡ 0
    → s.signal_pause_pending ≡ true
    → IsIdle (flush w s).1 × IsNoticed w (flush w s).0 (flush w s).1.file
unfolding flush critical
flush-IsNoticed w s d p = rw p (
  record { no_transaction = omega (arith, d); no_signal = refl },
  override-IsNoticed w _ (ok tt) _ (pause-IsNoticed w s.file),
)

transaction_flushes {ℓ} :
    {A : Type ℓ} (w : Write) (work : Body A) (s : RunControlStore)
    → s.transaction_depth ≡ 0
    → transaction true w work s ≡ (
      override (flush w (critical true work s).1).0 (work s.file).0,
      (flush w (critical true work s).1).1,
    )
unfolding transaction critical
transaction_flushes w work s d = ground arith

-- A SIGINT that arrives while a method owns the lock is not lost, whatever the method does: when
-- the method is done, the lock is free, no pause is owed, and no readable run in the file goes on,
-- except that the write of the pause may fail before it replaces the file, and then the method
-- raises. No second SIGINT arrives meanwhile.
pub signal_in_transaction_pauses {ℓ} :
    {A : Type ℓ} (w : Write) (work : Body A) (s : RunControlStore)
    → IsIdle s
    → IsIdle (transaction true w work s).1
      × IsNoticed w (transaction true w work s).0 (transaction true w work s).1.file
signal_in_transaction_pauses w work s h =
    rw (transaction_flushes w work s h.no_transaction)
      (flushed.0, override-IsNoticed w _ (work s.file).0 _ flushed.1)
  where
    flushed :
        IsIdle (flush w (critical true work s).1).1
        × IsNoticed w (flush w (critical true work s).1).0 (flush w (critical true work s).1).1.file
    flushed =
        flush-IsNoticed w (critical true work s).1
          (unfold critical in omega (arith, h.no_transaction)) (unfold critical in refl)

signal_flushes :
    (w : Write) (s : RunControlStore)
    → s.transaction_depth ≡ 0
    → request_pause_from_signal w s ≡ flush w (record s { signal_pause_pending = true })
unfolding request_pause_from_signal
signal_flushes w s d = ground arith

-- A SIGINT outside every transaction pauses the run at once, under the same condition.
pub signal_outside_pauses :
    (w : Write) (s : RunControlStore)
    → s.transaction_depth ≡ 0
    → IsIdle (request_pause_from_signal w s).1
      × IsNoticed w (request_pause_from_signal w s).0 (request_pause_from_signal w s).1.file
signal_outside_pauses w s d =
    rw (signal_flushes w s d) (flush-IsNoticed w (record s { signal_pause_pending = true }) d refl)

-- Without a signal a transaction does what its body does, and nothing else.
pub transaction_quiet {ℓ} :
    {A : Type ℓ} (w : Write) (work : Body A) (s : RunControlStore)
    → IsIdle s
    → transaction false w work s ≡ ((work s.file).0, record s { file = (work s.file).1 })
unfolding transaction critical
transaction_quiet w work s h = ground arith

-- When no SIGINT arrives while a method runs and no pause is owed, the method leaves the record
-- that it returns in the file, and on an exception the file is as it was, except that a write
-- that fails behind the replacement of the file leaves the record that the method would return.
pub method-Commits :
    (w pause_write : Write) (op : Operation) (s : RunControlStore)
    → IsIdle s
    → Commits w
        (body written op s.file).1
        (transaction false pause_write (body w op) s).0
        s.file
        (transaction false pause_write (body w op) s).1.file
method-Commits w pause_write op s h =
    rw (transaction_quiet pause_write (body w op) s h) (body-Commits w op s.file)

-- What the body of a transaction and the pause by a signal keep of the file, a transaction keeps.
module _ {ℓ} (P : RunFile → Type ℓ)
    (pause : (w : Write) (file : RunFile)
      → P file
      → P (mutate w signal_pause_transition file).1) where
  flush_keeps : (w : Write) (s : RunControlStore) → P s.file → P (flush w s).1.file
  unfolding flush critical
  flush_keeps w s h = elim (Bool-cases s.signal_pause_pending) [
    | inl p ↦ rw p (pause w s.file h)
    | inr p ↦ rw p h
  ]

  release_keeps {κ} :
      {A : Type κ} (w : Write) (r : Outcome A) (t : RunControlStore)
      → P t.file
      → P (release w (r, t)).1.file
  unfolding release
  release_keeps w r t h = elim (Bool-cases (nat_beq t.transaction_depth 0)) [
    | inl z ↦ rw z (flush_keeps w t h)
    | inr z ↦ rw z h
  ]

  pub transaction_keeps {κ} :
      {A : Type κ} (sigint : Bool) (w : Write) (work : Body A) (s : RunControlStore)
      → P (work s.file).1
      → P (transaction sigint w work s).1.file
  unfolding transaction critical
  transaction_keeps sigint w work s k = let c = critical sigint work s in release_keeps w c.0 c.1 k
