-- ===== src/RunControl/Progress.antt =====
-- The finished and the current tasks of superbench/run_control.py, through every method.
use gpt_trace_extractor_for.Base.{
  All, ℕ, String, ◌≡◌, sym, ◌∙◌, inl, inr, Option, none, some, Bool, true, false, List, [], ◌∷◌,
  arith, contains, is_subset, is_distinct, string_eq, ◌+◌, is_subset-append, is_distinct-append_one,
}
use gpt_trace_extractor_for.Exceptions.{Outcome, ok}
use gpt_trace_extractor_for.RunControl.{
  RunStatus, ActiveRun, needs_intervention, paused, selected_ids, is_completed, defer_transition,
  signal_pause_transition, request_pause_transition, pause_if_requested_transition,
  begin_resume_transition, confirm_running_transition, start_task_transition,
  finish_task_transition, incident_transition, complete_transition,
}
use gpt_trace_extractor_for.RunControl.Store.{
  RunFile, absent, unreadable, holds, Write, written, not_written, not_synced, write_file,
  Operation, creates, defers_rate_limit, requests_pause, pauses_if_requested, begins_resume,
  confirms_running, starts_task, finishes_task, intervenes, pauses_on_error, completes, seconds,
  invalid, body, body_transitions, RunControlStore, transaction, mutate, create, defer_rate_limit,
}
use gpt_trace_extractor_for.RunControl.Atomic.{mutate_keeps, is_create, body_write}
use gpt_trace_extractor_for.RunControl.Signals.{transaction_keeps}

abbrev IsSelected : List String → Option String → Type 0
IsSelected ids none = Unit
IsSelected ids (some id) = contains ids id ≡ true

-- The tasks that are marked finished are selected ones and stand once; the current task is a
-- selected one.
pub record IsConsistent (s : ActiveRun) : Type 0 where
  pub finished_selected : is_subset s.completed_run_task_ids (selected_ids s) ≡ true
  pub finished_distinct : is_distinct s.completed_run_task_ids ≡ true
  pub current_selected : IsSelected (selected_ids s) s.current_run_task_id

abbrev pub FileIsConsistent : RunFile → Type 0
FileIsConsistent absent = Unit
FileIsConsistent unreadable = Unit
FileIsConsistent (holds s) = IsConsistent s

abbrev KeepsConsistent : (ActiveRun → Outcome ActiveRun) → Type 0
KeepsConsistent fn = (a b : ActiveRun) → IsConsistent a → fn a ≡ ok b → IsConsistent b

mutate-IsConsistent :
    (fn : ActiveRun → Outcome ActiveRun)
    → KeepsConsistent fn
    → (file : RunFile) → FileIsConsistent file
    → (w : Write) → FileIsConsistent (mutate w fn file).1
mutate-IsConsistent fn k file h w = mutate_keeps w FileIsConsistent fn k file h

finish_task-IsConsistent : (id : String) → KeepsConsistent (finish_task_transition id)
unfolding finish_task_transition
finish_task-IsConsistent id a b h e = record {
  finished_selected =
      ground (arith, is_subset-append a.completed_run_task_ids (id ∷ []) (selected_ids a));
  finished_distinct = ground (arith, is_distinct-append_one a.completed_run_task_ids id);
  current_selected = ground arith;
}

start_task-IsConsistent : (id : String) → KeepsConsistent (start_task_transition id)
unfolding start_task_transition
start_task-IsConsistent id a b h e = ground arith

pub signal-IsConsistent : KeepsConsistent signal_pause_transition
unfolding signal_pause_transition
signal-IsConsistent a b h e = ground arith

request_pause-IsConsistent : KeepsConsistent request_pause_transition
unfolding request_pause_transition
request_pause-IsConsistent a b h e = ground arith

pause-IsConsistent : KeepsConsistent pause_if_requested_transition
unfolding pause_if_requested_transition
pause-IsConsistent a b h e = ground arith

resume-IsConsistent : KeepsConsistent begin_resume_transition
unfolding begin_resume_transition
resume-IsConsistent a b h e = ground arith

confirm-IsConsistent : KeepsConsistent confirm_running_transition
unfolding confirm_running_transition
confirm-IsConsistent a b h e = ground arith

incident-IsConsistent :
    (st : RunStatus) (r t m : String) → KeepsConsistent (incident_transition st r t m)
unfolding incident_transition
incident-IsConsistent st r t m a b h e = ground arith

defer-IsConsistent : (t : ℕ) → KeepsConsistent (defer_transition t)
unfolding defer_transition
defer-IsConsistent t a b h e = ground arith

complete-IsConsistent : (stored : List String) → KeepsConsistent (complete_transition stored)
unfolding complete_transition
complete-IsConsistent stored a b h e = ground arith

-- `create` is given a consistent record.
abbrev pub CreatesConsistent : Operation → Type 0
CreatesConsistent (creates state) = IsConsistent state
CreatesConsistent requests_pause = Unit
CreatesConsistent _ = Unit

create-IsConsistent :
    (w : Write) (state : ActiveRun) (file : RunFile)
    → IsConsistent state
    → FileIsConsistent file
    → FileIsConsistent (create w state file).1
unfolding create write_file
create-IsConsistent written state absent n h = n
create-IsConsistent not_written state absent n h = h
create-IsConsistent not_synced state absent n h = n
create-IsConsistent w state unreadable n h = h
create-IsConsistent w state (holds a) n h = ground arith

-- Every method keeps the run file consistent, `create` if the record that it is given is: the
-- finished tasks and the current one are selected, and no task is finished twice.
pub body-IsConsistent :
    (w : Write) (op : Operation) (file : RunFile)
    → CreatesConsistent op
    → FileIsConsistent file
    → FileIsConsistent (body w op file).1
unfolding body defer_rate_limit
body-IsConsistent w (creates state) file n h = create-IsConsistent w state file n h
body-IsConsistent w (defers_rate_limit (seconds d) now) file n h =
    mutate-IsConsistent _ (defer-IsConsistent (now + d)) file h w
body-IsConsistent w (defers_rate_limit invalid now) file n h = h
body-IsConsistent w requests_pause file n h =
    mutate-IsConsistent _ request_pause-IsConsistent file h w
body-IsConsistent w pauses_if_requested file n h = mutate-IsConsistent _ pause-IsConsistent file h w
body-IsConsistent w begins_resume file n h = mutate-IsConsistent _ resume-IsConsistent file h w
body-IsConsistent w confirms_running file n h = mutate-IsConsistent _ confirm-IsConsistent file h w
body-IsConsistent w (starts_task id) file n h =
    mutate-IsConsistent _ (start_task-IsConsistent id) file h w
body-IsConsistent w (finishes_task id) file n h =
    mutate-IsConsistent _ (finish_task-IsConsistent id) file h w
body-IsConsistent w (intervenes r t m) file n h =
    mutate-IsConsistent _ (incident-IsConsistent needs_intervention r t m) file h w
body-IsConsistent w (pauses_on_error r t m) file n h =
    mutate-IsConsistent _ (incident-IsConsistent paused r t m) file h w
body-IsConsistent w (completes stored) file n h =
    mutate-IsConsistent _ (complete-IsConsistent stored) file h w

-- how a method came to mark a run completed
abbrev pub CompletedBy : Operation → ActiveRun → Type 0
CompletedBy (completes stored) b =
    (is_subset (selected_ids b) b.completed_run_task_ids ≡ true)
    × (is_subset (selected_ids b) stored ≡ true)
CompletedBy requests_pause b = ⊥
CompletedBy _ b = ⊥

written_needs_proof :
    (op : Operation) (a b : ActiveRun)
    → is_create op ≡ false
    → is_completed a.status ≡ false
    → (body written op (holds a)).1 ≡ holds b
    → is_completed b.status ≡ true
    → CompletedBy op b
unfolding body_transitions is_completed
written_needs_proof (creates state) a b n f e c = cc
written_needs_proof (completes stored) a b n f e c = ground arith
written_needs_proof (defers_rate_limit (seconds d) now) a b n f e c = ground arith
written_needs_proof (defers_rate_limit invalid now) a b n f e c = ground arith
written_needs_proof requests_pause a b n f e c = ground arith
written_needs_proof _ a b n f e c = ground arith

unchanged_open :
    (a b : ActiveRun)
    → is_completed a.status ≡ false
    → holds a ≡ holds b
    → is_completed b.status ≡ true
    → ⊥
unchanged_open a b f e c = ground arith

-- A method other than `create` that turns an unfinished run into a completed one is `complete`,
-- and then every selected task is marked finished and is among those that the storage has
-- completed, whether the write succeeds or not.
pub completed_needs_proof :
    (w : Write) (op : Operation) (a b : ActiveRun)
    → is_create op ≡ false
    → is_completed a.status ≡ false
    → (body w op (holds a)).1 ≡ holds b
    → is_completed b.status ≡ true
    → CompletedBy op b
completed_needs_proof w op a b n f e c = elim (body_write w op (holds a)) [
  | inl same ↦ absurd (unchanged_open a b f (sym same ∙ e) c)
  | inr full ↦ written_needs_proof op a b n f (sym full ∙ e) c
]

-- A method call: what its write does, whether SIGINT arrives under its lock, and what the write of
-- the pause does that is owed then.
pub record MethodCall : Type 0 where
  pub operation : Operation
  pub write : Write
  pub sigint : Bool
  pub pause_write : Write

-- A sequence of method calls by one process.
unfoldable pub call_all : List MethodCall → RunControlStore → RunControlStore
call_all [] s = s
call_all (c ∷ calls) s =
    call_all calls (transaction c.sigint c.pause_write (body c.write c.operation) s).1

-- Every sequence of method calls, with a signal at any of their locks and with writes that may
-- fail, keeps the file consistent, if every record that is given to `create` is consistent: the
-- finished tasks and the current one are selected, and no task is finished twice.
pub call_all-IsConsistent :
    (calls : List MethodCall) (s : RunControlStore)
    → All (λ call. CreatesConsistent call.operation) calls
    → FileIsConsistent s.file
    → FileIsConsistent (call_all calls s).file
unfolding call_all
call_all-IsConsistent [] s n h = h
call_all-IsConsistent (c ∷ calls) s n h = call_all-IsConsistent calls _ n.1 (
    transaction_keeps FileIsConsistent
      (λ w file k. mutate-IsConsistent _ signal-IsConsistent file k w) c.sigint c.pause_write
      (body c.write c.operation) s (body-IsConsistent c.write c.operation s.file n.0 h))
