-- ===== src/Batch/Proved.antt =====
-- What proves a task of the control file finished, and the methods of the control store.
use gpt_trace_extractor_for.Base.{
  String, Option, none, some, Bool, true, false, ◌||◌, ◌≡◌, sym, subst, ◌⊎◌, inl, inr, List, [],
  ◌∷◌, contains, string_eq, ◌==◌, arith, contains-append, eq_iff, if◌then◌else◌,
}
use gpt_trace_extractor_for.Exceptions.{Outcome, ok}
use gpt_trace_extractor_for.Exec.Keeps.{Keeps}
use gpt_trace_extractor_for.RunControl.{
  ActiveRun, finish_task_transition, start_task_transition, request_pause_transition,
  pause_if_requested_transition, confirm_running_transition,
}
use gpt_trace_extractor_for.RunControl.Atomic.{mutate_keeps}
use gpt_trace_extractor_for.RunControl.Store.{
  RunFile, absent, unreadable, holds, requests_pause, pauses_if_requested, confirms_running,
  starts_task, finishes_task, written, body, mutate,
}
use gpt_trace_extractor_for.Batch.{
  Call, Event, called, found, Batch, Services, control, is_completed_status,
}
use gpt_trace_extractor_for.Batch.Rules.{Family}

-- the control file has the task as finished
abbrev pub Finished : String → RunFile → Type 0
Finished id absent = ⊥
Finished id unreadable = ⊥
Finished id (holds state) = contains state.completed_run_task_ids id ≡ true

-- storage returned a completed row of the task
abbrev pub was_completed : String → List Event → Bool
was_completed id [] = false
was_completed id (called c b ∷ log) = was_completed id log
was_completed id (found other status ∷ log) =
    (if other == id then is_completed_status status else false) || was_completed id log

abbrev pub Seen : Option String → List Event → Type 0
Seen none log = Unit
Seen (some id) log = was_completed id log ≡ true

-- Every finished task was so at the start or was completed in storage; so was the one that is known.
pub record IsProved (start : RunFile) (known : Option String) (file : RunFile) (log : List Event)
    : Type 0 where
  pub stored : (id : String) → Finished id file → Finished id start ⊎ (was_completed id log ≡ true)
  pub seen : Seen known log

abbrev pub ProvedFrom : RunFile → Family
ProvedFrom start known file log n = IsProved start known file log

abbrev pub Proved : RunFile → Option String → Batch → Type 0
Proved start known s = IsProved start known s.control s.log

-- other parts add no finished task
abbrev pub AddsNone : Services → Type 0
AddsNone v =
    (c : Call) (s : Batch) (id : String) → Finished id (v.control_after c s) → Finished id s.control

seen_more :
    (known : Option String) (event : Event) (log : List Event)
    → Seen known log
    → Seen known (event ∷ log)
seen_more none event log h = tt
seen_more (some id) (called c b) log h = h
seen_more (some id) (found other status) log h = ground arith

more_seen :
    (id : String) (event : Event) (log : List Event)
    → was_completed id log ≡ true
    → was_completed id (event ∷ log) ≡ true
more_seen id event log h = seen_more (some id) event log h

pub more-IsProved :
    {start : RunFile} {known : Option String} {file after : RunFile} {log : List Event}
    (event : Event)
    → ((id : String) → Finished id after → Finished id file)
    → IsProved start known file log
    → IsProved start known after (event ∷ log)
more-IsProved {log = log} event same p = record {
  stored = λ id h. elim (p.stored id (same id h)) [
    | inl old ↦ inl old
    | inr new ↦ inr (more_seen id event log new)
  ];
  seen = seen_more _ event log p.seen;
}

-- a transition of the control file that finishes no task
abbrev FinishesNone : (ActiveRun → Outcome ActiveRun) → Type 0
FinishesNone fn =
    (a b : ActiveRun) → fn a ≡ ok b → a.completed_run_task_ids ≡ b.completed_run_task_ids

module _ (start : RunFile) where
  file-IsProved :
      {known : Option String} {log : List Event} (fn : ActiveRun → Outcome ActiveRun)
      → ((a b : ActiveRun)
          → IsProved start known (holds a) log
          → fn a ≡ ok b
          → IsProved start known (holds b) log)
      → (file : RunFile) → IsProved start known file log
      → IsProved start known (mutate written fn file).1 log
  file-IsProved {known} {log} fn k file p =
      mutate_keeps written (λ f. IsProved start known f log) fn k file p

  finish_adds :
      (id other : String) (a b : ActiveRun)
      → finish_task_transition id a ≡ ok b
      → contains b.completed_run_task_ids other ≡ true
      → (contains a.completed_run_task_ids other ≡ true) ⊎ (id ≡ other)
  unfolding finish_task_transition
  finish_adds id other a b e h =
      ground (arith, contains-append a.completed_run_task_ids (id ∷ []) other, eq_iff id other)

  finish-IsProved :
      {log : List Event} (id : String) (a b : ActiveRun)
      → IsProved start (some id) (holds a) log
      → finish_task_transition id a ≡ ok b
      → IsProved start (some id) (holds b) log
  finish-IsProved {log} id a b p e = record {
    stored = λ other h. elim (finish_adds id other a b e h) [
      | inl old ↦ p.stored other old
      | inr same ↦ inr (subst (λ x. was_completed x log ≡ true) same p.seen)
    ];
    seen = p.seen;
  }

  same-IsProved :
      {known : Option String} {log : List Event} (fn : ActiveRun → Outcome ActiveRun)
      → FinishesNone fn
      → (file : RunFile) → IsProved start known file log
      → IsProved start known (mutate written fn file).1 log
  same-IsProved {known} {log} fn same file p =
      file-IsProved fn
        (λ a b q e. record {
          stored = λ id h. q.stored id (subst (λ ids. contains ids id ≡ true) (sym (same a b e)) h);
          seen = q.seen;
        })
        file p

  pub request_pause_keeps :
      (known : Option String) → Keeps (Proved start known) (control requests_pause)
  unfolding control body request_pause_transition
  request_pause_keeps known = record {
    keep = λ s p. same-IsProved _ (λ a b e. ground arith) s.control p;
  }

  pub pause_keeps :
      (known : Option String) → Keeps (Proved start known) (control pauses_if_requested)
  unfolding control body pause_if_requested_transition
  pause_keeps known = record { keep = λ s p. same-IsProved _ (λ a b e. ground arith) s.control p }

  pub confirm_keeps :
      (known : Option String) → Keeps (Proved start known) (control confirms_running)
  unfolding control body confirm_running_transition
  confirm_keeps known = record { keep = λ s p. same-IsProved _ (λ a b e. ground arith) s.control p }

  pub start_keeps :
      (known : Option String) (id : String) → Keeps (Proved start known) (control (starts_task id))
  unfolding control body start_task_transition
  start_keeps known id = record {
    keep = λ s p. same-IsProved _ (λ a b e. ground arith) s.control p;
  }

  pub finish_keeps : (id : String) → Keeps (Proved start (some id)) (control (finishes_task id))
  unfolding control body
  finish_keeps id = record {
    keep = λ s p. file-IsProved _ (λ a b q e. finish-IsProved id a b q e) s.control p;
  }
