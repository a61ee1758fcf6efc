-- ===== src/Batch/Plain.antt =====
-- Properties of the log and of the number of attempts: they are kept where every event but a run of a
-- task keeps them.
use gpt_trace_extractor_for.Base.{
  ℕ, String, Option, none, some, Bool, true, false, ◌≡◌, refl, List, ◌∷◌,
}
use gpt_trace_extractor_for.Exceptions.{Outcome, ok, raised}
use gpt_trace_extractor_for.Exec.Keeps.{Ends, Keeps, Ensures}
use gpt_trace_extractor_for.Runner.{RowStatus, returned}
use gpt_trace_extractor_for.RunControl.Store.{Operation}
use gpt_trace_extractor_for.Batch.{
  Row, Call, Event, called, found, get, materialize, Batch, Services, note, note_row, request,
  get_row, materialize_task, control,
}
use gpt_trace_extractor_for.Batch.Rules.{Family, At, IsKept, is_run, proved_by}

abbrev pub Plain : (List Event → ℕ → Type 0) → Family
Plain Q known file log n = Q log n

pub record IsQuiet (Q : List Event → ℕ → Type 0) : Type 0 where
  pub calls :
      (c : Call) (b : Bool) (log : List Event) (n : ℕ)
      → is_run c ≡ false
      → Q log n
      → Q (called c b ∷ log) n
  pub rows :
      (id : String) (status : RowStatus) (log : List Event) (n : ℕ)
      → Q log n
      → Q (found id status ∷ log) n

module _ (v : Services) (Q : List Event → ℕ → Type 0) (q : IsQuiet Q) where
  call_keeps : (c : Call) → is_run c ≡ false → Keeps (At (Plain Q) none) (request v c)
  unfolding request
  call_keeps c r = record { keep = λ s h. q.calls c _ s.log s.attempted r h }

  materialize_keeps : (id : String) → Keeps (At (Plain Q) none) (materialize_task v id)
  unfolding materialize_task
  materialize_keeps id = record {
    keep = λ s h. q.calls (materialize id) _ s.log s.attempted refl h;
  }

  control_keeps : (op : Operation) → Keeps (At (Plain Q) none) (control op)
  unfolding control
  control_keeps op = record { keep = λ s h. h }

  row_ends :
      (id : String) (r : Outcome (Option Row)) (s : Batch)
      → At (Plain Q) none s
      → Ends (λ row. At (Plain Q) none) (At (Plain Q) none) (r, note_row v id r s)
  row_ends id (raised e) s h = h
  row_ends id (ok none) s h = h
  row_ends id (ok (some row)) s h = q.rows id row.status s.log s.attempted h

  look_lem :
      (id : String)
      → Ensures
          (At (Plain Q) none)
          (λ row. At (Plain Q) (proved_by row id))
          (At (Plain Q) none)
          (get_row v id)
  unfolding get_row
  look_lem id = record {
    run = λ s h.
        row_ends id (v.row id s) (note v (get id) (returned (v.row id s)) s)
          (q.calls (get id) _ s.log s.attempted refl h);
  }

  pub Plain-IsKept : IsKept v (Plain Q)
  Plain-IsKept = record {
    calls = λ known. call_keeps;
    materializes = λ known. materialize_keeps;
    asks_pause = λ known. control_keeps _;
    pauses = λ known. control_keeps _;
    confirms = λ known. control_keeps _;
    starts = λ known id. control_keeps _;
    finishes = λ id. control_keeps _;
    looks = look_lem;
    forgets = λ known s h. h;
  }

module _ (v : Services) (Q R E : List Event → ℕ → Type 0) (c : Call)
    (returns : (log : List Event) (n : ℕ) → Q log n → R (called c true ∷ log) n)
    (raises : (log : List Event) (n : ℕ) → Q log n → E (called c false ∷ log) n) where
  request_ends :
      (r : Outcome (Unit {0})) (s : Batch)
      → At (Plain Q) none s
      → Ends (λ _. At (Plain R) none) (At (Plain E) none) (r, note v c (returned r) s)
  request_ends (ok u) s h = returns s.log s.attempted h
  request_ends (raised e) s h = raises s.log s.attempted h

  -- what a call leads to, by whether it returns
  pub request_lem :
      Ensures (At (Plain Q) none) (λ _. At (Plain R) none) (At (Plain E) none) (request v c)
  unfolding request
  request_lem = record { run = λ s h. request_ends (v.outcome c s) s h }
