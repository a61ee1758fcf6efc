-- ===== src/Batch/Around.antt =====
-- `run_pending` around its loop: the recovery before it, the pauses, and the end.
use gpt_trace_extractor_for.Base.{
  ℕ, String, Option, none, some, false, ◌&&◌, ◌&&◌, ◌≡◌, refl, List, not, string_eq,
}
use gpt_trace_extractor_for.Exceptions.{ok, Exn, RateLimit}
use gpt_trace_extractor_for.Exec.{Exec, from, modify}
use gpt_trace_extractor_for.Exec.Keeps.{
  Ensures, Ensures-bind, Ensures-post, Ensures-Keeps, Leads, Leads-bind, Leads-Keeps, Keeps,
  keeping, Keeps-if, Keeps-from, Keeps-then, Keeps-when, Keeps-return, Keeps-throw,
}
use gpt_trace_extractor_for.Exec.Handlers.{
  Ensures-if, Ensures-throw, Ensures-catch_all, Ensures-finally, Keeps-modify, Keeps-catch_all,
  Keeps-finally, keeping_all,
}
use gpt_trace_extractor_for.Journal.{SubmissionJournal}
use gpt_trace_extractor_for.Runner.Attempt.{is_checkpointed}
use gpt_trace_extractor_for.RunControl.{ActiveRun, is_pause_requested}
use gpt_trace_extractor_for.Batch.{Entry, Batch, Services, Options, is_some}
use gpt_trace_extractor_for.Batch.Task.{is_stop, is_cancelled}
use gpt_trace_extractor_for.Batch.Loop.{
  visit_all, end_recovery, defer_limited, defer_recovery, reconcile_run, reconcile_pending,
  recover_entry, recover_pending, recover_pending_journal, is_outside, recover_first,
  confirm_running, run_locked, pause_cancelled, batch_failed, end_batch, run_selected,
  run_selection, run_catalog, select_entries,
}
use gpt_trace_extractor_for.Batch.Rules.{
  Family, At, IsKept, cleanup_keeps, load_journal_keeps, get_chatgpt_keeps, persist_defer_keeps,
}
use gpt_trace_extractor_for.Batch.Chain.{Weaker}

module _ (v : Services) (o : Options) (P : Family) (k : IsKept v P) where
  end_recovery_keeps : (id : String) → Keeps (At P none) (end_recovery v o id)
  unfolding end_recovery
  end_recovery_keeps id = Keeps-then _ _ (load_journal_keeps v o P k none) (λ pending.
      Keeps-then _ _ (Keeps-when (not (is_some pending)) _ (cleanup_keeps v o P k none id))
        (λ u. k.calls none _ refl))

  defer_limited_keeps :
      (e : Exn) (limit : Option RateLimit) → Keeps (At P none) (defer_limited v o e limit)
  unfolding defer_limited
  defer_limited_keeps e none = search keeping
  defer_limited_keeps e (some limit) = Keeps-then _ _ (load_journal_keeps v o P k none) (λ pending.
      Keeps-then _ _ (persist_defer_keeps v o P k none pending (some limit)) (λ u. Keeps-throw e))

  reconcile_run_keeps :
      (id : String) (pending : SubmissionJournal) → Keeps (At P none) (reconcile_run v o id pending)
  unfolding reconcile_run
  reconcile_run_keeps id pending = Keeps-then _ _ (Keeps-from _) (λ deferred.
      Keeps-then _ _
        (Keeps-when (is_checkpointed pending.phase && deferred) _ (get_chatgpt_keeps v o P k none))
        (λ u. k.calls none _ refl))

  reconcile_keeps :
      (id : String) (pending : SubmissionJournal)
      → Keeps (At P none) (reconcile_pending v o id pending)
  unfolding reconcile_pending
  reconcile_keeps id pending =
      Keeps-then _ _
        (Keeps-when (not (is_checkpointed pending.phase)) _ (get_chatgpt_keeps v o P k none))
        (λ u. search (keeping_all, reconcile_run_keeps, Keeps-modify) depth 9)

  recover_entry_keeps :
      (pending : SubmissionJournal) (e : Option Entry)
      → Keeps (At P none) (recover_entry v o pending e)
  unfolding recover_entry defer_recovery
  recover_entry_keeps pending none = search keeping
  recover_entry_keeps pending (some e) =
      search
        (
          keeping,
          k.materializes none,
          k.calls none,
          Keeps-modify,
          Keeps-finally,
          Keeps-catch_all,
          reconcile_keeps,
          defer_limited_keeps,
          end_recovery_keeps,
        )
        depth 14

  recover_pending_keeps :
      (entries : List Entry) (pending : Option SubmissionJournal)
      → Keeps (At P none) (recover_pending v o entries pending)
  unfolding recover_pending
  recover_pending_keeps entries none = search keeping
  recover_pending_keeps entries (some pending) = search (keeping, recover_entry_keeps) depth 9

  recover_first_keeps : (entries : List Entry) → Keeps (At P none) (recover_first v o entries)
  unfolding recover_first recover_pending_journal
  recover_first_keeps entries = Keeps-then _ _ (load_journal_keeps v o P k none) (λ pending.
      Keeps-then _ _
        (Keeps-if (is_outside pending o.selected_run_task_ids) _ _ (search keeping)
          (Keeps-then _ _ (load_journal_keeps v o P k none) (recover_pending_keeps entries)))
        (λ u. Keeps-when (is_some pending) _ (search Keeps-modify)))

  confirm_running_keeps : Keeps (At P none) (confirm_running v o)
  unfolding confirm_running
  confirm_running_keeps =
      Keeps-if o.has_control _ _
        (Keeps-then _ _ (k.confirms none) (λ active.
          Keeps-if (is_pause_requested active.status) _ _ (search (keeping, k.pauses none))
            (search keeping)))
        (search keeping)

  pause_cancelled_keeps :
      (e : Exn) (state : Option ActiveRun) → Keeps (At P none) (pause_cancelled v o e state)
  unfolding pause_cancelled
  pause_cancelled_keeps e none = search keeping
  pause_cancelled_keeps e (some state) =
      Keeps-if (is_pause_requested state.status) _ _ (search (keeping, k.pauses none))
        (search keeping)

  batch_failed_keeps : (e : Exn) → Keeps (At P none) (batch_failed v o e)
  unfolding batch_failed
  batch_failed_keeps e =
      Keeps-if (is_cancelled e && o.has_control) _ _ (search (keeping, pause_cancelled_keeps))
        (search keeping)

  end_batch_keeps : Keeps (At P none) (end_batch v o)
  unfolding end_batch
  end_batch_keeps = search (keeping, k.calls none) depth 9

-- The batch from `A` before the loop to `B` behind it.
module _ (v : Services) (o : Options) (A B : Family) (ka : IsKept v A) (kb : IsKept v B)
    (weak : Weaker A B) where
  abbrev pub Loops : Option ℕ → List Entry → Type 0
  Loops limit selected =
      Ensures (At A none) (λ _. At B none) (At B none) (visit_all v o limit selected)

  run_locked_lem :
      (entries : List Entry) (limit : Option ℕ) (selected : List Entry)
      → Loops limit selected
      → Leads (At A none) (At B none) (run_locked v o entries limit selected)
  unfolding run_locked
  run_locked_lem entries limit selected loops = Leads-bind weak _ _ (Keeps-from _) (λ asked.
      Ensures-if (o.has_control && asked) _ _
        (λ c. Leads-Keeps weak _ (
          Keeps-then _ _ (Keeps-then _ _ (ka.asks_pause none) (λ a. ka.pauses none))
            (λ a. Keeps-return tt)))
        (λ c.
          Leads-bind weak _ _
            (Keeps-when (not o.has_executor) _ (recover_first_keeps v o A ka entries))
            (λ u. Leads-bind weak _ _ (confirm_running_keeps v o A ka) (λ flow.
              Ensures-if (is_stop flow) _ _ (λ d. Leads-Keeps weak _ (Keeps-return tt))
                (λ d. loops)))))

  -- the batch returns the number of its attempts
  abbrev Batches : Exec Batch ℕ → Type 0
  Batches m =
      Ensures (λ s. A none s.control s.log 0) (λ n s. B none s.control s.log n) (At B none) m

  resets :
      Ensures
        (λ s. A none s.control s.log 0)
        (λ _. At A none)
        (At B none)
        (modify (λ s. record s { attempted = 0; last_completed_task_at = none; connected = false }))
  unfolding modify
  resets = record { run = λ s h. h }

  reads :
      Ensures (At B none) (λ n s. B none s.control s.log n) (At B none) (from (λ s. ok s.attempted))
  unfolding from
  reads = record { run = λ s h. h }

  pub run_selected_lem :
      (entries : List Entry) (limit : Option ℕ) (selected : List Entry)
      → Loops limit selected
      → Batches (run_selected v o entries limit selected)
  unfolding run_selected
  run_selected_lem entries limit selected loops = Ensures-bind _ _ resets (λ u.
      Ensures-bind {Q = λ _. At B none} _ _
        (Ensures-finally _ _
          (Ensures-catch_all _ _
            (Leads-bind weak _ _
              (Keeps-then _ _ (ka.calls none _ refl)
                (λ u1. Keeps-when (not o.runner_lock_held) _ (ka.calls none _ refl)))
              (λ u1. run_locked_lem entries limit selected loops))
            (λ e. Leads-Keeps (λ s h. h) _ (batch_failed_keeps v o B kb e)))
          (λ a. Ensures-Keeps _ (end_batch_keeps v o B kb) (λ s h. h))
          (Ensures-Keeps _ (end_batch_keeps v o B kb) (λ s h. h)))
        (λ u1. reads))

  -- what holds at the end, for some number of attempts
  abbrev pub SomeTime : Batch → Type 0
  SomeTime s = (n : ℕ) × B none s.control s.log n

  run_selection_lem :
      (entries : List Entry) (selected : Option (List Entry))
      → ((list : List Entry) → selected ≡ some list → Loops none list)
      → Ensures
          (λ s. A none s.control s.log 0)
          (λ n s. B none s.control s.log n)
          SomeTime
          (run_selection v o entries selected)
  unfolding run_selection
  run_selection_lem entries none loops =
      Ensures-throw (λ s h. (0, weak (record s { attempted = 0 }) h)) _
  run_selection_lem entries (some list) loops =
      Ensures-post _ (run_selected_lem entries none list (loops list refl)) (λ n s h. h)
        (λ s h. (s.attempted, h))

  pub run_catalog_lem :
      (entries : List Entry) (ids : Option (List String))
      → (ids ≡ none → Loops o.limit entries)
      → ((names : List String) (list : List Entry)
          → ids ≡ some names
          → select_entries entries names ≡ some list
          → Loops none list)
      → Ensures
          (λ s. A none s.control s.log 0)
          (λ n s. B none s.control s.log n)
          SomeTime
          (run_catalog v o entries ids)
  unfolding run_catalog
  run_catalog_lem entries none all frozen =
      Ensures-post _ (run_selected_lem entries o.limit entries (all refl)) (λ n s h. h)
        (λ s h. (s.attempted, h))
  run_catalog_lem entries (some ids) all frozen =
      run_selection_lem entries (select_entries entries ids) (λ list e. frozen ids list refl e)
