-- ===== src/Batch/Schedule.antt =====
-- The order in which tasks may be run, and one turn of the loop of `run_pending` in it.
use gpt_trace_extractor_for.Base.{
  ℕ, String, Option, none, some, Bool, true, false, ◌≡◌, refl, ap, ◌∙◌, ◌⊎◌, inl, inr, List, [],
  ◌∷◌, ◌++◌, string_eq,
}
use gpt_trace_extractor_for.Exec.Keeps.{Ensures}
use gpt_trace_extractor_for.Batch.{
  Entry, Call, Event, called, found, Services, request, run, execute, is_some,
}
use gpt_trace_extractor_for.Batch.Rules.{At, is_run, run_of}
use gpt_trace_extractor_for.Batch.Plain.{Plain, IsQuiet, Plain-IsKept, request_lem}
use gpt_trace_extractor_for.Batch.Chain.{Plan}
use gpt_trace_extractor_for.Batch.Turn.{Turn}

-- the runs of tasks, the oldest first, each with whether it returned
abbrev pub Runs : Type 0
Runs = List (String × Bool)

abbrev add_run : Option String → Bool → Runs → Runs
add_run none b runs = runs
add_run (some id) b runs = (id, b) ∷ runs

abbrev runs_onto : List Event → Runs → Runs
runs_onto [] later = later
runs_onto (called c b ∷ log) later = runs_onto log (add_run (run_of c) b later)
runs_onto (found id status ∷ log) later = runs_onto log later

abbrev pub runs_of : List Event → Runs
runs_of log = runs_onto log []

-- What a scheduler may do with a list of tasks: it takes them in their order, passes over some, and
-- runs the others once each; behind a run that raised there is no other, and it may end at any point.
pub data Schedule : List String → Runs → Type 0 where
  ends : {ids : List String} → Schedule ids []
  passes :
      {id : String} {ids : List String} {runs : Runs} → Schedule ids runs → Schedule (id ∷ ids) runs
  runs :
      {id : String} {ids : List String} {rest : Runs}
      → Schedule ids rest
      → Schedule (id ∷ ids) ((id, true) ∷ rest)
  breaks : {id : String} {ids : List String} → Schedule (id ∷ ids) ((id, false) ∷ [])

abbrev pub entry_ids : List Entry → List String
entry_ids [] = []
entry_ids (e ∷ entries) = e.run_task_id ∷ entry_ids entries

-- the runs so far, as what they are in front of later ones
abbrev pub Front : Type 0
Front = Runs → Runs

abbrev IsFront : Front → List Event → Type 0
IsFront k log = (later : Runs) → runs_onto log later ≡ k later

abbrev pub Before : Front → List Event → ℕ → Type 0
Before k log n = IsFront k log

-- behind the task, which may have been passed over
abbrev pub Behind : Front → String → List Event → ℕ → Type 0
Behind k id log n = IsFront k log ⊎ IsFront (λ later. k ((id, true) ∷ later)) log

-- the runs are those of a schedule of the tasks
abbrev pub Scheduled : Front → List String → List Event → ℕ → Type 0
Scheduled k ids log n = (r : Runs) × (IsFront (λ later. k (r ++ later)) log × Schedule ids r)

-- behind the task, or behind what raised before it, in it or after it
abbrev Failed : Front → String → List Event → ℕ → Type 0
Failed k id log n = Behind k id log n ⊎ IsFront (λ later. k ((id, false) ∷ later)) log

no_run :
    (run : Option String) (b : Bool) (later : Runs)
    → is_some run ≡ false
    → add_run run b later ≡ later
no_run none b later h = refl
no_run (some id) b later h = cc

front_more :
    (k : Front) (c : Call) (b : Bool) (log : List Event)
    → is_run c ≡ false
    → IsFront k log
    → IsFront k (called c b ∷ log)
front_more k c b log h front later = ap (runs_onto log) (no_run (run_of c) b later h) ∙ front later

pub quiet-Before : (k : Front) → IsQuiet (Before k)
quiet-Before k = record { calls = λ c b log n. front_more k c b log; rows = λ id status log n h. h }

quiet_or :
    {Q R : List Event → ℕ → Type 0} → IsQuiet Q → IsQuiet R → IsQuiet (λ log n. Q log n ⊎ R log n)
quiet_or q r = record {
  calls = λ c b log n h t. elim t [
    | inl x ↦ inl (q.calls c b log n h x)
    | inr y ↦ inr (r.calls c b log n h y)
  ];
  rows = λ id status log n t. elim t [
    | inl x ↦ inl (q.rows id status log n x)
    | inr y ↦ inr (r.rows id status log n y)
  ];
}

pub quiet-Scheduled : (k : Front) (ids : List String) → IsQuiet (Scheduled k ids)
quiet-Scheduled k ids = record {
  calls = λ c b log n h t. (t.0, (front_more _ c b log h t.1.0, t.1.1));
  rows = λ id status log n t. t;
}

module _ (v : Services) (k : Front) (id : String) where
  quiet-Behind : IsQuiet (Behind k id)
  quiet-Behind = quiet_or (quiet-Before k) (quiet-Before (λ later. k ((id, true) ∷ later)))

  quiet-Failed : IsQuiet (Failed k id)
  quiet-Failed = quiet_or quiet-Behind (quiet-Before (λ later. k ((id, false) ∷ later)))

  one_run :
      (c : Call)
      → run_of c ≡ some id
      → Ensures
          (At (Plain (Before k)) none)
          (λ _. At (Plain (Before (λ later. k ((id, true) ∷ later)))) none)
          (At (Plain (Failed k id)) none)
          (request v c)
  one_run c r =
      request_lem v _ _ _ c
        (λ log n h later. ap (λ x. runs_onto log (add_run x true later)) r ∙ h ((id, true) ∷ later))
        (λ log n h.
          inr
            (λ later. ap (λ x. runs_onto log (add_run x false later)) r ∙ h ((id, false) ∷ later)))

  task-Plan :
      Plan v id
        (Plain (Before k))
        (Plain (Before (λ later. k ((id, true) ∷ later))))
        (Plain (Failed k id))
        (Plain (Behind k id))
        (Plain (Failed k id))
  task-Plan = record {
    before = Plain-IsKept v _ (quiet-Before k);
    ran = Plain-IsKept v _ (quiet-Before (λ later. k ((id, true) ∷ later)));
    broke = Plain-IsKept v _ quiet-Failed;
    done = Plain-IsKept v _ quiet-Behind;
    failed = Plain-IsKept v _ quiet-Failed;
    runs = one_run (run id) refl;
    executes = one_run (execute id) refl;
    before_broke = λ s h. inl (inl h);
    before_done = λ s h. inl h;
    ran_broke = λ s h. inl (inr h);
    broke_failed = λ s h. h;
    done_failed = λ s h. inl h;
    counts_done = λ s h. inr h;
    counts_failed = λ s h. h;
  }

  pub task-Turn :
      (limit : Option ℕ)
      → Turn v limit id (Plain (Before k)) (Plain (Behind k id)) (Plain (Failed k id))
  task-Turn limit = record {
    P = λ n. Plain (Before k);
    M = λ n. Plain (Before (λ later. k ((id, true) ∷ later)));
    N = λ n. Plain (Failed k id);
    plan = λ n f. task-Plan;
    first = Plain-IsKept v _ (quiet-Before k);
    enters = λ s h. h;
    first_done = λ s h. inl h;
    first_failed = λ s h. inl (inl h);
  }

module _ (k : Front) (id : String) (ids : List String) (log : List Event) (n : ℕ) where
  pub passed : Scheduled k ids log n → Scheduled k (id ∷ ids) log n
  passed t = (t.0, (t.1.0, passes t.1.1))

  pub ran : Scheduled (λ later. k ((id, true) ∷ later)) ids log n → Scheduled k (id ∷ ids) log n
  ran t = ((id, true) ∷ t.0, (t.1.0, runs t.1.1))

  pub stopped : Behind k id log n → Scheduled k (id ∷ ids) log n
  stopped (inl h) = ([], (h, ends))
  stopped (inr h) = ((id, true) ∷ [], (h, runs ends))

  pub broken : Failed k id log n → Scheduled k (id ∷ ids) log n
  broken (inl h) = stopped h
  broken (inr h) = ((id, false) ∷ [], (h, breaks))
