-- ===== src/Storage.antt =====
-- apps/storage/src/gpt_trace_storage/repository.py: the runs table and the operations on it. The
-- table is a list of rows. A call runs in one transaction that locks its row, and `start_run` locks
-- the whole table, so calls follow one another. The unique index on `conversation_id`
-- (apps/storage/migrations/versions/0001_initial.py) is part of the commit.
-- Python's `==` on documents and `float` are parameters.
pub mod Start
pub mod Complete
pub mod Rows
pub mod Guarantees
pub mod Stale
pub mod Retries
pub mod Counts
pub mod Lifetime
pub mod Tests
use gpt_trace_extractor_for.Base.{
  ℕ, ◌+◌, String, Option, none, some, Bool, true, false, not, ◌&&◌, ◌||◌, List, [], ◌∷◌, ◌++◌, ◌==◌,
  string_eq, option_eq, nat_beq, contains, is_subset, if◌then◌else◌,
}
use gpt_trace_extractor_for.Json.{
  Value, Fields, null, int, negative, float, object, field, end, get, get_default, keys, is_object,
  is_null, is_text,
}

pub data RunStatus : Type 0 where
  pending running completed failed : RunStatus

abbrev pub is_running : RunStatus → Bool
is_running running = true
is_running pending = false
is_running _ = false

-- models.py: `Run`, without the columns that the database fills by itself
pub record Run : Type 0 where
  pub task_id : String
  pub logical_task_id : String
  pub status : RunStatus
  pub runner_id : Option String
  pub task_fingerprint : Option String
  pub attempt : ℕ
  pub conversation_id : Option String
  pub messages : Option Value
  pub runtime_metadata : Option Value
  pub app_provenance : Option Value
  pub dataset_metadata : Value
  pub evaluation : Option Value
  pub error_type : Option String
  pub error_message : Option String
  pub started_at : Option ℕ
  pub completed_at : Option ℕ

abbrev pub Table : Type 0
Table = List Run

-- `select(Run).where(Run.task_id == task_id)`
unfoldable pub get_run : String → Table → Option Run
get_run task_id [] = none
get_run task_id (run ∷ runs) = if run.task_id == task_id then some run else get_run task_id runs

-- the row of `run.task_id` is written
unfoldable pub put_run : Run → Table → Table
put_run run [] = []
put_run run (old ∷ runs) = if old.task_id == run.task_id then run ∷ runs else old ∷ put_run run runs

-- the first running row of another task
unfoldable pub other_running : String → Table → Option Run
other_running task_id [] = none
other_running task_id (run ∷ runs) =
    if is_running run.status && not (run.task_id == task_id)
    then some run
    else other_running task_id runs

-- `conversation_id` is not null and stands in the row of another task
unfoldable pub conversation_taken : Run → Table → Bool
conversation_taken run [] = false
conversation_taken run (old ∷ runs) =
    (not (old.task_id == run.task_id)
      && not (run.conversation_id == none)
      && old.conversation_id == run.conversation_id)
    || conversation_taken run runs

-- What a call decides from its row: it raises RunConflict, finds no row, returns the row as it is,
-- adds a row, or writes one.
pub data Decision : Type 0 where
  conflicts : String → Decision
  missing : Decision
  returns inserts updates : Run → Decision

pub data Reply : Type 0 where
  done : Run → Reply
  not_found : Reply
  run_conflict : String → Reply

-- `session.commit()`. An update that breaks the unique index is rolled back and raises.
unfoldable pub commit : Decision → Table → Reply × Table
unfolding conversation_taken put_run
commit (conflicts m) table = (run_conflict m, table)
commit missing table = (not_found, table)
commit (returns run) table = (done run, table)
commit (inserts run) table = (done run, table ++ run ∷ [])
commit (updates run) table =
    if conversation_taken run table
    then (run_conflict "conversation_id is already assigned to another task", table)
    else (done run, put_run run table)

-- the arguments that name the caller of a mutation
pub record Caller : Type 0 where
  pub task_id : String
  pub attempt : ℕ
  pub runner_id : String

pub record StartRequest : Type 0 where
  pub caller : Caller
  pub logical_task_id : Option String
  pub task_fingerprint : String
  pub app_provenance : Value
  pub dataset_metadata : Option Value

pub record Completion : Type 0 where
  pub caller : Caller
  pub conversation_id : String
  pub messages : Value
  pub runtime_metadata : Value
  pub evaluation : Option Value

-- `s or default` for a text that may be missing
abbrev pub or_text : Option String → String → String
or_text none default = default
or_text (some s) default = if s == "" then default else s

abbrev pub or_empty : Option Value → Value
or_empty none = object end
or_empty (some v) = v

-- `_check_identity` fails
unfoldable pub is_stale : Run → Caller → Bool
is_stale run caller =
    not (nat_beq run.attempt caller.attempt) || not (run.runner_id == some caller.runner_id)

-- `run.conversation_id and run.conversation_id != conversation_id`
unfoldable pub has_other_conversation : Option String → String → Bool
has_other_conversation none conversation_id = false
has_other_conversation (some c) conversation_id = not (c == "") && not (c == conversation_id)

unfoldable pub set_conversation_decision : Caller → String → Run → Decision
unfolding is_stale has_other_conversation
set_conversation_decision caller conversation_id run =
    if is_stale run caller then conflicts "stale mutation" else elim run.status [
      | completed ↦
          if run.conversation_id == some conversation_id
          then returns run
          else conflicts "completed run cannot change conversation_id"
      | running ↦
          if has_other_conversation run.conversation_id conversation_id
          then conflicts "running attempt already has a different conversation_id"
          else updates (record run { conversation_id = some conversation_id })
      | _ ↦ conflicts "cannot set conversation"
    ]

unfoldable pub fail_decision : Caller → String → String → Run → Decision
unfolding is_stale
fail_decision caller error_type error_message run =
    if is_stale run caller then conflicts "stale mutation" else elim run.status [
      | completed ↦ returns run
      | failed ↦
          if run.error_type == some error_type && run.error_message == some error_message
          then returns run
          else conflicts "failed run is immutable until a new attempt is started"
      | running ↦ updates (record run {
        status = failed;
        evaluation = none;
        error_type = some error_type;
        error_message = some error_message;
      })
      | pending ↦ conflicts "cannot fail"
    ]

-- `run = await get_run(...)`, `if run is None: return None`, and the rest of the call
unfoldable pub on_row : String → (Run → Decision) → Table → Reply × Table
unfolding get_run commit
on_row task_id decide table = elim (get_run task_id table) [
  | none ↦ commit missing table
  | some run ↦ commit (decide run) table
]

unfoldable pub set_conversation : Caller → String → Table → Reply × Table
unfolding on_row set_conversation_decision
set_conversation caller conversation_id table =
    on_row caller.task_id (set_conversation_decision caller conversation_id) table

unfoldable pub fail_run : Caller → String → String → Table → Reply × Table
unfolding on_row fail_decision
fail_run caller error_type error_message table =
    on_row caller.task_id (fail_decision caller error_type error_message) table
