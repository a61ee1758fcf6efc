-- ===== src/Lib.antt =====
-- The trace extractor for cyber benchmarks: its durable state and the protocols around it.
--
-- A runner (apps/runner) lets ChatGPT work on benchmark tasks in a browser and keeps the traces. The
-- control record of a run is a file that survives crashes and Ctrl+C; a storage service
-- (apps/storage) owns the rows of the tasks; a gateway (apps/mcp-gateway) binds the workstation that
-- ChatGPT uses to one task at a time. The parts meet so: lifecycle.py moves the control record
-- through its methods, asks storage for the proof that ends a run, and defers a resume after a rate
-- limit; stream.py decides whether the answer in the browser is whole before storage records it. For
-- each task of a batch, which superbench/execution.py runs one after the other, runner.py keeps a crash journal beside the storage row, marks it before the click of
-- Send, and after a crash recovers from it. A broker on the host (apps/workstation-broker) keeps the
-- artifacts of a workstation, and the runner downloads them.
--
-- Files, with the paths of the code below apps/runner/src/gpt_trace_runner unless given in full:
--   Base, Json        shared names; the values of `json.loads`
--   Exceptions        exceptions.py; a Python call returns an `Outcome`
--   RunControl        superbench/run_control.py; `_mutate`'s functions are `*_transition`, the
--                     methods are `body` of an `Operation`, the lock is `transaction`
--   Lifecycle         superbench/lifecycle.py; `_execute_locked` is `execute_locked`, `execute_active`
--                     is `resume_active` and `start_active`
--   Stream            stream.py; `parse_sse`, `inspect_conversation_stream` and `wait`
--   Traffic           traffic.py; Observe has the handlers of `TrafficMonitor`, Reads what it is asked
--   Conversation      conversation.py; the functions that read and check a conversation, and in
--                     Client `fetch` and `delete`
--   Journal           journal.py, and the deferral of a recovery in superbench/execution.py
--   Batch             superbench/execution.py; Task is what `run_pending` does with one task, Loop its
--                     loop over the selection, what is around it, and `_recover_pending_journal`
--   Exec              calls that change a state and may raise, with the rules to reason on them
--   Runner            runner.py; Submit is `submit_task` of chatgpt.py, Attempt is `run_task` and
--                     `_run_attempt`, Recovery is `reconcile_journal` and `abandon_recovery`
--   Storage           apps/storage/src/gpt_trace_storage/repository.py; the table is a list of rows
--   Gateway           apps/mcp-gateway/src/mcp_gateway/server.py; one function for each handler
--   Broker            apps/workstation-broker/src/workstation_broker/server.py: Access is `dispatch`, the
--                     parent the artifacts of an attempt, Host its `destroy`; Transfer is `_export`
--                     of workstation_provider.py
-- The children of a module prove what their names say; Tests has concrete runs.
--
-- Times are whole microseconds and texts of the stream are lists of code points. The loops run over
-- a list, but for `read_all` of Broker, which has as many turns as the file has bytes, and
-- `delete_from` of Conversation, which has the attempts that are left.
-- `json.loads`, `urlparse`, `ipaddress`, the HTTP client, Python's `==` of documents, the `plan` of
-- the benchmarks and, for Lifecycle, `run_pending` are parameters, whatever they do. In Runner and
-- Batch every call of another part is an event of a log and returns or raises as a parameter says, by
-- all that happened before, and in Batch it leaves in the journal and the control file what a
-- parameter says; a process that ends in a call is an exception that no handler takes; a write of the
-- journal does not fail. A write of the control file may fail in RunControl, before or behind the
-- replacement of the file; in Lifecycle and Batch it succeeds. A second Ctrl+C, which raises
-- `KeyboardInterrupt` wherever the process is, is not modelled. A lock of the operating system and a database transaction make a step
-- indivisible. Messages of exceptions lack the values that the code interpolates.
--
-- Not modelled: what drives the page of the browser (chatgpt.py but `submit_task`, interaction.py,
-- tools.py), the waits of traffic.py for a quiet backend, the list of recent conversations in
-- conversation.py, what an evaluation hook itself writes to the journal, the JSON text of the
-- files, the virtual machines of the workstation broker, the hooks and prepared state that a batch
-- hands to the runner, the guest, which is a separate program, and the benchmark adapters.
pub mod Base
pub mod Batch
pub mod Broker
pub mod Conversation
pub mod Exceptions
pub mod Exec
pub mod Gateway
pub mod Journal
pub mod Json
pub mod Lifecycle
pub mod RunControl
pub mod Runner
pub mod Storage
pub mod Stream
pub mod Traffic
