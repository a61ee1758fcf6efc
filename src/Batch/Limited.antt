-- ===== src/Batch/Limited.antt =====
-- The number of attempts of `run_pending`, which its limit bounds.
use gpt_trace_extractor_for.Base.{
  ℕ, ◌+◌, ◌≤◌, ◌<◌, String, Option, none, some, Bool, true, false, ◌≡◌, refl, sym, ◌∙◌, subst,
  if◌then◌else◌, List, [], ◌∷◌, arith,
}
use gpt_trace_extractor_for.Exec.Keeps.{Ends, Ensures, Ensures-post, Leads}
use gpt_trace_extractor_for.Batch.{
  Entry, Call, Event, called, found, Batch, Services, Options, request, run, execute,
}
use gpt_trace_extractor_for.Batch.Loop.{is_full, run_catalog, run_pending}
use gpt_trace_extractor_for.Batch.Rules.{At, IsKept, is_run}
use gpt_trace_extractor_for.Batch.Plain.{Plain, Plain-IsKept, request_lem}
use gpt_trace_extractor_for.Batch.Chain.{Plan, Weaker}
use gpt_trace_extractor_for.Batch.Turn.{Turn, visit_all_lem}
use gpt_trace_extractor_for.Batch.Around.{Loops, run_catalog_lem}

-- how often a task was run
abbrev pub count_runs : List Event → ℕ
count_runs [] = 0
count_runs (called c b ∷ log) = (if is_run c then 1 else 0) + count_runs log
count_runs (found id status ∷ log) = count_runs log

-- `extra` runs that are not counted yet
abbrev Exactly : ℕ → ℕ → List Event → ℕ → Type 0
Exactly extra n log m = (m ≡ n) × (count_runs log ≤ n + extra)

abbrev Covered : ℕ → List Event → ℕ → Type 0
Covered limit log m = (m ≤ limit) × (count_runs log ≤ m)

abbrev AtMost : ℕ → List Event → ℕ → Type 0
AtMost limit log m = (m ≤ limit) × (count_runs log ≤ limit)

not_counted :
    (c : Call) (b : Bool) (log : List Event)
    → is_run c ≡ false
    → count_runs (called c b ∷ log) ≡ count_runs log
not_counted c b log h = ground arith

module _ (v : Services) (limit : ℕ) where
  Exactly-kept : (extra n : ℕ) → IsKept v (Plain (Exactly extra n))
  Exactly-kept extra n = Plain-IsKept v _ (record {
    calls = λ c b log m r h. (h.0, subst (λ x. x ≤ n + extra) (sym (not_counted c b log r)) h.1);
    rows = λ id status log m h. h;
  })

  Covered-kept : IsKept v (Plain (Covered limit))
  Covered-kept = Plain-IsKept v _ (record {
    calls = λ c b log m r h. (h.0, subst (λ x. x ≤ m) (sym (not_counted c b log r)) h.1);
    rows = λ id status log m h. h;
  })

  AtMost-kept : IsKept v (Plain (AtMost limit))
  AtMost-kept = Plain-IsKept v _ (record {
    calls = λ c b log m r h. (h.0, subst (λ x. x ≤ limit) (sym (not_counted c b log r)) h.1);
    rows = λ id status log m h. h;
  })

  below : (n : ℕ) → is_full (some limit) n ≡ false → n < limit
  unfolding is_full
  below n h = ground arith

  one_more :
      (n : ℕ) (c : Call)
      → is_run c ≡ true
      → Leads (At (Plain (Exactly 0 n)) none) (At (Plain (Exactly 1 n)) none) (request v c)
  one_more n c r =
      request_lem v (Exactly 0 n) (Exactly 1 n) (Exactly 1 n) c (λ log m h. more true log m h)
        (λ log m h. more false log m h)
    where
      more :
          (b : Bool) (log : List Event) (m : ℕ)
          → Exactly 0 n log m
          → Exactly 1 n (called c b ∷ log) m
      more b log m h = (h.0, (let d = h.1 in ground arith))

  limited-Plan :
      (n : ℕ) (id : String)
      → n < limit
      → Plan v id
          (Plain (Exactly 0 n))
          (Plain (Exactly 1 n))
          (Plain (Exactly 1 n))
          (Plain (Covered limit))
          (Plain (AtMost limit))
  limited-Plan n id less = record {
    before = Exactly-kept 0 n;
    ran = Exactly-kept 1 n;
    broke = Exactly-kept 1 n;
    done = Covered-kept;
    failed = AtMost-kept;
    runs = one_more n (run id) refl;
    executes = one_more n (execute id) refl;
    before_broke = λ s h. (h.0, (let c = h.1 in omega arith));
    before_done =
        λ s h. ((let c = h.0 in omega arith), (let c = h.0 in let d = h.1 in omega arith));
    ran_broke = λ s h. h;
    broke_failed = λ s h. ((let c = h.0 in omega arith), (let c = h.1 in omega arith));
    done_failed = λ s h. (h.0, (let c = h.0 in let d = h.1 in omega arith));
    counts_done =
        λ s h. ((let c = h.0 in omega arith), (let c = h.0 in let d = h.1 in omega arith));
    counts_failed = λ s h. ((let c = h.0 in omega arith), (let c = h.1 in omega arith));
  }

  Covered-AtMost : Weaker (Plain (Covered limit)) (Plain (AtMost limit))
  Covered-AtMost s h = (h.0, (let c = h.0 in let d = h.1 in omega arith))

  limited-Turn :
      (id : String)
      → Turn v
          (some limit)
          id
          (Plain (Covered limit))
          (Plain (Covered limit))
          (Plain (AtMost limit))
  limited-Turn id = record {
    P = λ n. Plain (Exactly 0 n);
    M = λ n. Plain (Exactly 1 n);
    N = λ n. Plain (Exactly 1 n);
    plan = λ n f. limited-Plan n id (below n f);
    first = Covered-kept;
    enters = λ s h. (refl, (let d = h.1 in omega arith));
    first_done = λ s h. h;
    first_failed = λ s h. Covered-AtMost s h;
  }

  limited_batch :
      (o : Options) (entries : List Entry) (ids : Option (List String))
      → o.limit ≡ some limit
      → ids ≡ none
      → Ensures
          (λ s. Covered limit s.log 0)
          (λ n s. AtMost limit s.log n)
          (λ s. (n : ℕ) × AtMost limit s.log n)
          (run_catalog v o entries ids)
  limited_batch o entries ids e f =
      run_catalog_lem v o (Plain (Covered limit)) (Plain (AtMost limit)) Covered-kept AtMost-kept
        Covered-AtMost entries ids
        (λ g.
          subst
            (λ l.
              Loops v o (Plain (Covered limit)) (Plain (AtMost limit)) Covered-kept AtMost-kept
                Covered-AtMost l entries)
            (sym e)
            (Ensures-post _ (visit_all_lem v o (some limit) limited-Turn Covered-AtMost entries)
              (λ u s h. Covered-AtMost s h) (λ s h. h)))
        (λ names list g h. elim (none_some (sym f ∙ g)) [ ])
    where
      none_some : {names : List String} → none ≡ some names → ⊥
      none_some n = cc

-- Without a frozen selection `run_pending` runs at most `limit` tasks, however it ends, and the number
-- that it returns is not above the limit either.
pub runs_limited :
    (v : Services) (o : Options) (entries : List Entry) (s : Batch) (limit : ℕ)
    → o.limit ≡ some limit
    → o.selected_run_task_ids ≡ none
    → Ends
        (λ n t. (n ≤ limit) × (count_runs t.log ≤ limit))
        (λ t. count_runs t.log ≤ limit)
        (run_pending v o entries (record s { log = [] }))
unfolding run_pending
runs_limited v o entries s limit e f =
    (Ensures-post _ (limited_batch v limit o entries o.selected_run_task_ids e f) (λ n t h. h)
        (λ t h. h.1.1)).run
      (record s { log = [] }) (omega arith, omega arith)
