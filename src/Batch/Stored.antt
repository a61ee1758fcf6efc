-- ===== src/Batch/Stored.antt =====
-- What `run_pending` marks as finished in the control file.
use gpt_trace_extractor_for.Base.{
  ℕ, String, Option, none, some, true, ◌≡◌, ◌⊎◌, inl, List, [], ◌∷◌, string_eq, arith, eq_iff,
  if◌then◌else◌,
}
use gpt_trace_extractor_for.Exceptions.{Outcome, ok, raised}
use gpt_trace_extractor_for.Exec.Keeps.{
  Ends, Keeps, Ensures, Ensures-post, Leads, Leads-Keeps, Leads-end,
}
use gpt_trace_extractor_for.Runner.{RowStatus, returned}
use gpt_trace_extractor_for.RunControl.Store.{RunFile}
use gpt_trace_extractor_for.Batch.{
  Entry, Row, Call, Event, found, Batch, Services, Options, request, get_row, get, note, note_row,
  materialize, materialize_task, run, execute, is_completed_status,
}
use gpt_trace_extractor_for.Batch.Rules.{IsKept, proved_by}
use gpt_trace_extractor_for.Batch.Chain.{Plan}
use gpt_trace_extractor_for.Batch.Turn.{Turn, visit_all_lem}
use gpt_trace_extractor_for.Batch.Around.{Loops, run_catalog_lem}
use gpt_trace_extractor_for.Batch.Loop.{run_catalog, run_pending}
use gpt_trace_extractor_for.Batch.Proved.{
  AddsNone, Finished, Proved, ProvedFrom, Seen, confirm_keeps, finish_keeps, more-IsProved,
  pause_keeps, request_pause_keeps, start_keeps, was_completed,
}

module _ (start : RunFile) where
  module _ (v : Services) (adds : AddsNone v) where
    request_keeps : (known : Option String) (c : Call) → Keeps (Proved start known) (request v c)
    unfolding request
    request_keeps known c = record { keep = λ s p. more-IsProved _ (adds c s) p }

    row_seen :
        (id : String) (status : RowStatus) (log : List Event)
        → Seen (if is_completed_status status then some id else none) (found id status ∷ log)
    row_seen id RowStatus.completed log = ground (arith, eq_iff id id)
    row_seen id RowStatus.running log = tt
    row_seen id RowStatus.pending log = tt
    row_seen id RowStatus.failed log = tt

    looked :
        (known : Option String) (id : String) (r : Outcome (Option Row)) (s : Batch)
        → Proved start known (note v (get id) (returned r) s)
        → Ends
            (λ row. Proved start (proved_by row id))
            (Proved start none)
            (r, note_row v id r (note v (get id) (returned r) s))
    looked known id (raised e) s p = record { stored = p.stored; seen = tt }
    looked known id (ok none) s p = record { stored = p.stored; seen = tt }
    looked known id (ok (some row)) s p = record {
      stored = (more-IsProved (found id row.status) (λ other h. h) p).stored;
      seen = row_seen id row.status _;
    }

    forgets : {known : Option String} (s : Batch) → Proved start known s → Proved start none s
    forgets s p = record { stored = p.stored; seen = tt }

    look_lem :
        (id : String)
        → Ensures
            (Proved start none)
            (λ row. Proved start (proved_by row id))
            (Proved start none)
            (get_row v id)
    unfolding get_row
    look_lem id = record {
      run = λ s p. looked none id (v.row id s) s (more-IsProved _ (adds (get id) s) p);
    }

    materialize_keeps :
        (known : Option String) (id : String) → Keeps (Proved start known) (materialize_task v id)
    unfolding materialize_task
    materialize_keeps known id = record {
      keep = λ s p. more-IsProved _ (adds (materialize id) s) p;
    }

    proved_kept : IsKept v (ProvedFrom start)
    proved_kept = record {
      calls = λ known c n. request_keeps known c;
      materializes = materialize_keeps;
      asks_pause = request_pause_keeps start;
      pauses = pause_keeps start;
      confirms = confirm_keeps start;
      starts = start_keeps start;
      finishes = finish_keeps start;
      looks = look_lem;
      forgets = λ known s p. forgets s p;
    }

    run_lem : (c : Call) → Leads (Proved start none) (Proved start none) (request v c)
    run_lem c = Leads-Keeps (λ s p. p) _ (request_keeps none c)

    proved-Plan :
        (id : String)
        → Plan v id
            (ProvedFrom start)
            (ProvedFrom start)
            (ProvedFrom start)
            (ProvedFrom start)
            (ProvedFrom start)
    proved-Plan id = record {
      before = proved_kept;
      ran = proved_kept;
      broke = proved_kept;
      done = proved_kept;
      failed = proved_kept;
      runs = run_lem (run id);
      executes = run_lem (execute id);
      before_broke = λ s p. p;
      before_done = λ s p. p;
      ran_broke = λ s p. p;
      broke_failed = λ s p. p;
      done_failed = λ s p. p;
      counts_done = λ s p. p;
      counts_failed = λ s p. p;
    }

    proved-Turn :
        (limit : Option ℕ) (id : String)
        → Turn v limit id (ProvedFrom start) (ProvedFrom start) (ProvedFrom start)
    proved-Turn limit id = record {
      P = λ n. ProvedFrom start;
      M = λ n. ProvedFrom start;
      N = λ n. ProvedFrom start;
      plan = λ n f. proved-Plan id;
      first = proved_kept;
      enters = λ s p. p;
      first_done = λ s p. p;
      first_failed = λ s p. p;
    }

    loops :
        (o : Options) (limit : Option ℕ) (entries : List Entry)
        → Loops v o
            (ProvedFrom start)
            (ProvedFrom start)
            proved_kept
            proved_kept
            (λ s p. p)
            limit
            entries
    loops o limit entries = visit_all_lem v o limit (proved-Turn limit) (λ s p. p) entries

    batch-Proved :
        (o : Options) (entries : List Entry) (ids : Option (List String))
        → Ensures
            (Proved start none)
            (λ n. Proved start none)
            (λ s. Proved start none s)
            (run_catalog v o entries ids)
    batch-Proved o entries ids =
        Ensures-post _
          (run_catalog_lem v o (ProvedFrom start) (ProvedFrom start) proved_kept proved_kept
            (λ s p. p) entries ids (λ e. loops o o.limit entries)
            (λ names list e f. loops o none list))
          (λ n s p. p) (λ s p. p.1)

-- However `run_pending` ends, a task that the control file then has as finished was finished when the
-- batch began, or storage returned a completed row of it to this batch, if other parts add no
-- finished task to the file.
pub finished_were_stored :
    (v : Services) (o : Options) (entries : List Entry) (s : Batch) (id : String)
    → AddsNone v
    → Finished id (run_pending v o entries (record s { log = [] })).1.control
    → Finished id s.control
      ⊎ (was_completed id (run_pending v o entries (record s { log = [] })).1.log ≡ true)
unfolding run_pending
finished_were_stored v o entries s id adds =
    (Leads-end _ (batch-Proved s.control v adds o entries o.selected_run_task_ids)
        (record s { log = [] }) (record { stored = λ other. inl; seen = tt })).stored
      id
