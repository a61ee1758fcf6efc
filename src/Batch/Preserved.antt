-- ===== src/Batch/Preserved.antt =====
-- What the evaluator of a task keeps when its attempt fails behind an entry in the journal.
use gpt_trace_extractor_for.Base.{
  ℕ, ◌+◌, String, Option, none, some, Bool, true, false, not, ◌&&◌, ◌||◌, ◌≡◌, refl, sym, ap, ◌∙◌,
  subst, if◌then◌else◌, List, [], ◌∷◌, string_eq, ◌==◌, arith,
}
use gpt_trace_extractor_for.Exceptions.{Exn, RateLimit, Outcome, ok, raised}
use gpt_trace_extractor_for.Exec.{
  Exec, return, throw, from, modify, after, when, ◌>>=◌, ◌>>◌, catch_all, finally, finished,
  handled_all,
}
use gpt_trace_extractor_for.Exec.Keeps.{
  Ends, Ensures, Ensures-bind, Ensures-Keeps, Ensures-post, Leads, Leads-end, Keeps, Keeps-from,
  Keeps-then, Keeps-when, keeping,
}
use gpt_trace_extractor_for.Exec.Handlers.{Ensures-if, Ensures-throw, Ensures-finally, Keeps-modify}
use gpt_trace_extractor_for.Journal.{SubmissionJournal, load}
use gpt_trace_extractor_for.Runner.{returned}
use gpt_trace_extractor_for.Batch.{
  Row, Call, cleanup, close_lifecycle, Event, called, found, Batch, Services, Options, request,
  get_row, get, note, note_row, load_journal, is_completed_row, is_running_row, is_pending_for,
}
use gpt_trace_extractor_for.Batch.Task.{
  rate_limit_of, persist_defer, require_recovery, start_attempt, get_chatgpt, is_pause_cancelled,
  classify_failure, attempt_failed, end_attempt, attempt, cleanup_task,
}

abbrev is_cleanup : Call → Bool
is_cleanup (cleanup id) = true
is_cleanup close_lifecycle = false
is_cleanup _ = false

-- how often the evaluator of a task was cleaned up
abbrev pub count_cleanups : List Event → ℕ
count_cleanups [] = 0
count_cleanups (called c b ∷ log) =
    if is_cleanup c then 1 + count_cleanups log else count_cleanups log
count_cleanups (found id status ∷ log) = count_cleanups log

not_cleanup :
    (c : Call) (b : Bool) (log : List Event)
    → is_cleanup c ≡ false
    → count_cleanups (called c b ∷ log) ≡ count_cleanups log
not_cleanup c b log h = ground arith

abbrev Cleaned : ℕ → Batch → Type 0
Cleaned n s = count_cleanups s.log ≡ n

-- the same, with the state preserved for a recovery
abbrev Preserved : ℕ → Batch → Type 0
Preserved n s = (count_cleanups s.log ≡ n) × (s.recovery_required ≡ true)

module _ (v : Services) (o : Options) (n : ℕ) where
  requires : Ensures (Cleaned n) (λ _. Preserved n) (Preserved n) (require_recovery v o true)
  unfolding require_recovery modify
  requires = record { run = λ s h. (h, refl) }

  defers :
      (pending : Option SubmissionJournal) (limit : Option RateLimit)
      → Ensures (Cleaned n) (λ _. Cleaned n) (Preserved n) (persist_defer v o pending limit)
  unfolding persist_defer return modify
  defers pending none = record { run = λ s h. h }
  defers pending (some limit) = record { run = λ s h. h }

  made : Ensures (Cleaned n) (λ _. Cleaned n) (Preserved n) (from (λ s. ok s.runner_made))
  unfolding from
  made = record { run = λ s h. h }

  -- the branch of an attempt that is running or pending
  preserving :
      (e : Exn) (pending : Option SubmissionJournal) (limit : Option RateLimit)
      → Leads (Cleaned n) (Preserved n) (
          persist_defer v o pending limit >>= λ u.
          require_recovery v o true >>= λ w. throw {A = Unit {0}} e)
  preserving e pending limit =
      Ensures-bind _ _ (defers pending limit)
        (λ u. Ensures-bind _ _ requires (λ w. Ensures-throw (λ s h. h) e))

  classify_preserves :
      (id : String) (e : Exn) (latest : Option Row) (p : SubmissionJournal)
      → is_completed_row latest ≡ false
      → p.task_id == id ≡ true
      → Leads (Cleaned n) (Preserved n) (classify_failure v o id e latest (some p))
  unfolding classify_failure
  classify_preserves id e latest p incomplete mine = Ensures-bind _ _ made (λ m.
      Ensures-if (m && (is_completed_row latest && is_pending_for (some p) id)) _ _
        (λ c. (let bad : ⊥ = ground arith in elim bad [ ]))
        (λ c.
          Ensures-if (is_running_row latest || is_pending_for (some p) id) _ _
            (λ d. preserving e (some p) (rate_limit_of e))
            (λ d. (let bad : ⊥ = ground arith in elim bad [ ]))))

  paused_preserves :
      (id : String) (e : Exn) (latest : Option Row) (p : SubmissionJournal)
      → p.task_id == id ≡ true
      → Leads (Cleaned n) (Preserved n) (
          require_recovery v o (is_pending_for (some p) id || is_running_row latest) >>= λ w.
          throw {A = Unit {0}} e)
  paused_preserves id e latest p mine =
      rw (mine) (Ensures-bind _ _ requires (λ w. Ensures-throw (λ s h. h) e))

  skips :
      (id : String) (b : Bool) → b ≡ true → Keeps (Cleaned n) (when (not b) (cleanup_task v o id))
  skips id true h = search keeping
  skips id false h = cc

  counts :
      Leads (Preserved n) (Preserved n) (modify (λ s. record s { attempted = s.attempted + 1 }))
  unfolding modify
  counts = record { run = λ s h. h }

  required :
      Ensures
        (Preserved n)
        (λ b s. Preserved n s × (b ≡ true))
        (Cleaned n)
        (from (λ s. ok s.recovery_required))
  unfolding from
  required = record { run = λ s h. (h, h.1) }

  closes : Keeps (Cleaned n) (request v close_lifecycle)
  unfolding request
  closes = record { keep = λ s h. h }

  ends_preserved : (id : String) → Leads (Preserved n) (Cleaned n) (end_attempt v o id)
  unfolding end_attempt
  ends_preserved id = Ensures-bind _ _ (Ensures-post _ counts (λ u s h. h) (λ s h. h.0)) (λ u.
      Ensures-bind _ _ required (λ b. record {
        run = λ s h.
            (Ensures-Keeps _
                (Keeps-then _ _ (skips id b h.1)
                  (λ w. Keeps-then _ _ (Keeps-from _) (λ made. Keeps-when made _ closes)))
                (λ t k. k)).run
              s h.0.0;
      }))

  requests : (c : Call) → is_cleanup c ≡ false → Keeps (Cleaned n) (request v c)
  unfolding request
  requests c h = record { keep = λ s k. not_cleanup c (returned (v.outcome c s)) s.log h ∙ k }

  starts : (id : String) → Keeps (Cleaned n) (start_attempt v o id)
  unfolding start_attempt get_chatgpt
  starts id = search (keeping, requests, Keeps-modify) depth 14

-- the locals at the start of an attempt
abbrev pub fresh : Batch → Batch
fresh s = record s {
  lifecycle_made = false;
  runner_made = false;
  recovery_required = false;
  failed = false;
}

abbrev pub failing : Batch → Batch
failing s = record s { failed = true }

module _ (v : Services) (o : Options) (id : String) where
  bind_ok :
      {A B : Type 0} (m : Exec Batch A) (f : A → Exec Batch B) (s t : Batch) (a : A)
      → m s ≡ (ok a, t)
      → (m >>= f) s ≡ f a t
  unfolding ◌>>=◌
  bind_ok m f s t a h = ap (after f) h

  module _ (e : Exn) (t u : Batch) (latest : Option Row) (p : SubmissionJournal) (paused : Bool)
      (looked : get_row v id (failing t) ≡ (ok latest, u)) (loaded : load u.journal ≡ ok (some p))
      (asked : is_pause_cancelled v o e u ≡ (ok paused, u))
      (incomplete : is_completed_row latest ≡ false) (mine : p.task_id == id ≡ true) where
    handles :
        (n : ℕ)
        → Leads (Cleaned n) (Preserved n) (
            if paused
            then require_recovery v o (is_pending_for (some p) id || is_running_row latest)
              >> throw e
            else classify_failure v o id e latest (some p))
    handles n =
        Ensures-if paused _ _ (λ c. paused_preserves v o n id e latest p mine)
          (λ c. classify_preserves v o n id e latest p incomplete mine)

    load_lem : load_journal u ≡ (ok (some p), u)
    unfolding load_journal from
    load_lem = ap (λ r. (r, u)) loaded

    marks : modify (λ s. record s { failed = true }) t ≡ (ok tt, failing t)
    unfolding modify
    marks = refl

    failed_lem :
        attempt_failed v o id e t
        ≡ (if paused
              then require_recovery v o (is_pending_for (some p) id || is_running_row latest)
                >> throw e
              else classify_failure v o id e latest (some p))
            u
    unfolding attempt_failed
    failed_lem =
        bind_ok _ _ t (failing t) tt marks
        ∙ bind_ok _ _ (failing t) u latest looked
        ∙ bind_ok _ _ u u (some p) load_lem
        ∙ bind_ok _ _ u u paused asked

    handled_Ends :
        Ends
          (λ _. Preserved (count_cleanups u.log))
          (Preserved (count_cleanups u.log))
          (attempt_failed v o id e t)
    handled_Ends = subst (Ends _ _) (sym failed_lem) ((handles (count_cleanups u.log)).run u refl)

    ended_cleaned :
        Cleaned
          (count_cleanups u.log)
          (finally (λ s. attempt_failed v o id e t) (end_attempt v o id) t).1
    ended_cleaned =
        Leads-end _
          (Ensures-finally {P = λ s. Unit {0}} _ _ (record { run = λ s h. handled_Ends })
            (λ a. ends_preserved v o _ id) (ends_preserved v o _ id))
          t tt

  row_cleaned :
      (n : ℕ) (r : Outcome (Option Row)) (s : Batch) → Cleaned n s → Cleaned n (note_row v id r s)
  row_cleaned n (raised e) s h = h
  row_cleaned n (ok none) s h = h
  row_cleaned n (ok (some row)) s h = h

  looks : (n : ℕ) → Keeps (Cleaned n) (get_row v id)
  unfolding get_row
  looks n = record {
    keep = λ s h. row_cleaned n (v.row id s) (note v (get id) (returned (v.row id s)) s) h;
  }

-- Where an attempt raises, storage then answers with no completed row, the journal can be read and
-- holds an entry of the task, and it can be found out whether the exception is a pause, `run_pending`
-- does not clean up the evaluator of the task.
pub pending_preserved :
    (v : Services) (o : Options) (id : String) (s t u : Batch) (e : Exn) (latest : Option Row)
    (p : SubmissionJournal) (paused : Bool)
    → start_attempt v o id (fresh s) ≡ (raised e, t)
    → get_row v id (failing t) ≡ (ok latest, u)
    → load u.journal ≡ ok (some p)
    → is_pause_cancelled v o e u ≡ (ok paused, u)
    → is_completed_row latest ≡ false
    → p.task_id == id ≡ true
    → count_cleanups (attempt v o id s).1.log ≡ count_cleanups s.log
unfolding attempt modify ◌>>=◌ catch_all finally
pending_preserved v o id s t u e latest p paused started looked loaded asked incomplete mine =
    ap
      (λ r.
        count_cleanups
          (finished (end_attempt v o id) (handled_all (attempt_failed v o id) r)).1.log)
      started
    ∙ ended_cleaned v o id e t u latest p paused looked loaded asked incomplete mine
    ∙ ap (λ r. count_cleanups r.1.log) (sym looked)
    ∙ (looks v o id (count_cleanups t.log)).keep (failing t) refl
    ∙ ap (λ r. count_cleanups r.1.log) (sym started)
    ∙ (starts v o (count_cleanups s.log) id).keep (fresh s) refl
