-- ===== src/Batch/Rules.antt =====
-- What the steps of a batch that run no task keep: any property of the control file, the log and the
-- number of attempts that other calls, the look at a row, and the methods of the control store keep.
use gpt_trace_extractor_for.Base.{
  ℕ, String, Option, none, some, Bool, true, false, ◌&&◌, ◌≡◌, List, if◌then◌else◌,
}
use gpt_trace_extractor_for.Exceptions.{Exn, RateLimit}
use gpt_trace_extractor_for.Exec.{Exec, when, ◌>>=◌}
use gpt_trace_extractor_for.Exec.Keeps.{
  Keeps, Ensures, Ensures-bind, Ensures-Keeps, Keeps-Ensures, Ensures-post, keeping, Keeps-if,
  Keeps-from, Keeps-then, Keeps-when,
}
use gpt_trace_extractor_for.Exec.Handlers.{Keeps-modify, keeping_all}
use gpt_trace_extractor_for.Journal.{SubmissionJournal}
use gpt_trace_extractor_for.RunControl.{is_pause_requested}
use gpt_trace_extractor_for.RunControl.Store.{
  RunFile, requests_pause, pauses_if_requested, confirms_running, starts_task, finishes_task,
}
use gpt_trace_extractor_for.Batch.{
  Row, Call, Event, Batch, Services, Options, run, execute, request, get_row, control, load_journal,
  load_active, materialize_task, is_completed_row, is_some,
}
use gpt_trace_extractor_for.Batch.Task.{
  cleanup_task, get_chatgpt, persist_defer, require_recovery, finish, stop_if_requested,
  probe_pause, pace, record_pre_runner_failure, reconcile_now, is_pause_cancelled,
}

-- the task that a call runs
abbrev pub run_of : Call → Option String
run_of (run id) = some id
run_of (execute id) = some id
run_of _ = none

abbrev pub is_run : Call → Bool
is_run c = is_some (run_of c)

-- a property of the control file, the log and the attempts, while a completed row of a task is known
abbrev pub Family : Type 1
Family = Option String → RunFile → List Event → ℕ → Type 0

abbrev pub At : Family → Option String → Batch → Type 0
At P known s = P known s.control s.log s.attempted

-- the task that a row proves completed
abbrev pub proved_by : Option Row → String → Option String
proved_by row id = if is_completed_row row then some id else none

pub record IsKept (v : Services) (P : Family) : Type 0 where
  pub calls :
      (known : Option String) (c : Call) → is_run c ≡ false → Keeps (At P known) (request v c)
  pub materializes :
      (known : Option String) (id : String) → Keeps (At P known) (materialize_task v id)
  pub asks_pause : (known : Option String) → Keeps (At P known) (control requests_pause)
  pub pauses : (known : Option String) → Keeps (At P known) (control pauses_if_requested)
  pub confirms : (known : Option String) → Keeps (At P known) (control confirms_running)
  pub starts : (known : Option String) (id : String) → Keeps (At P known) (control (starts_task id))
  pub finishes : (id : String) → Keeps (At P (some id)) (control (finishes_task id))
  pub looks :
      (id : String)
      → Ensures (At P none) (λ row. At P (proved_by row id)) (At P none) (get_row v id)
  pub forgets : (known : Option String) (s : Batch) → At P known s → At P none s

module _ (v : Services) (o : Options) (P : Family) (k : IsKept v P) where
  module _ (known : Option String) where
    pub cleanup_keeps : (id : String) → Keeps (At P known) (cleanup_task v o id)
    unfolding cleanup_task
    cleanup_keeps id = search (keeping_all, k.calls known) depth 9

    pub load_journal_keeps : Keeps (At P known) load_journal
    unfolding load_journal
    load_journal_keeps = Keeps-from _

    pub load_active_keeps : Keeps (At P known) load_active
    unfolding load_active
    load_active_keeps = Keeps-from _

    pub get_chatgpt_keeps : Keeps (At P known) (get_chatgpt v o)
    unfolding get_chatgpt
    get_chatgpt_keeps = search (keeping_all, k.calls known, Keeps-modify) depth 9

    pub persist_defer_keeps :
        (pending : Option SubmissionJournal) (limit : Option RateLimit)
        → Keeps (At P known) (persist_defer v o pending limit)
    unfolding persist_defer
    persist_defer_keeps pending none = search keeping
    persist_defer_keeps pending (some limit) = search Keeps-modify

    pub require_keeps : (b : Bool) → Keeps (At P known) (require_recovery v o b)
    unfolding require_recovery
    require_keeps b = search Keeps-modify

    pub stop_keeps : Keeps (At P known) (stop_if_requested v o)
    unfolding stop_if_requested
    stop_keeps =
        Keeps-if o.has_control _ _
          (Keeps-then _ _ load_active_keeps (λ active.
            Keeps-if (is_pause_requested active.status) _ _ (search (keeping, k.pauses known))
              (search keeping)))
          (search keeping)

    pub probe_keeps : Keeps (At P known) (probe_pause v o)
    unfolding probe_pause
    probe_keeps =
        Keeps-then _ _ (Keeps-from _)
          (λ asked. Keeps-when (o.has_control && asked) _ (search (keeping, k.asks_pause known)))

    pub pace_keeps : (at : Option ℕ) → Keeps (At P known) (pace v o at)
    unfolding pace
    pace_keeps none = search keeping
    pace_keeps (some at) = search (keeping, k.calls known) depth 9

    pub reconcile_now_keeps : (id : String) → Keeps (At P known) (reconcile_now v o id)
    unfolding reconcile_now
    reconcile_now_keeps id =
        search (keeping_all, k.calls known, load_journal_keeps, require_keeps) depth 9

    pub failure_keeps : (id : String) → Keeps (At P known) (record_pre_runner_failure v o id)
    unfolding record_pre_runner_failure
    failure_keeps id = search (keeping, k.calls known) depth 9

    pub pause_cancelled_keeps : (e : Exn) → Keeps (At P known) (is_pause_cancelled v o e)
    unfolding is_pause_cancelled
    pause_cancelled_keeps e = search (keeping, load_active_keeps) depth 9

  -- a completed row allows the task to be finished
  pub finishes : (id : String) → Keeps (At P (some id)) (finish v o id)
  unfolding finish
  finishes id = search (keeping, k.finishes id) depth 9

  pub finish_if :
      (b : Bool) (id : String) → Keeps (At P (if b then some id else none)) (when b (finish v o id))
  finish_if true id = finishes id
  finish_if false id = search keeping

  pub look_keeps :
      {A : Type 0} (id : String) (f : Option Row → Exec Batch A)
      → ((row : Option Row) → Keeps (At P (proved_by row id)) (f row))
      → Keeps (At P none) (get_row v id >>= f)
  look_keeps id f each =
      Keeps-Ensures _ (λ s p. p)
        (Ensures-bind {R = λ a. At P none} _ _ (k.looks id) (λ row.
          Ensures-post (f row) (Ensures-Keeps (f row) (each row) (k.forgets _)) (λ a. k.forgets _)
            (λ s p. p)))
        (λ a s p. p)
