-- ===== src/Lib.antt =====
-- Zincir: durable execution for agents over SQLite.
--
-- The program keeps runs, their event logs, checkpoints, named steps and timers in one SQLite file.
-- src/db.rs has every statement on it. src/agent.rs (`AgentContext`), src/workflow.rs
-- (`WorkflowContext`) and src/worker.rs (`ResumeWorker`) build on its functions, and src/ui.rs shows
-- the tables. A process works on a run under a lease: an owner, an epoch that each claim raises, and
-- an expiry. Every write under a lease checks it in the transaction that writes.
--
-- The files:
--   Prelude, Json, Sql: shared names and lemmas; JSON values as serde_json builds them and SQLite's
--     json_extract reads them; the SQL of the statements over lists of rows, with its laws.
--   Types: src/types.rs and src/error.rs.
--   Tables: the tables of migrations/, calls on them (`Tx`), BEGIN IMMEDIATE with COMMIT or ROLLBACK.
--     Its children reason about calls: relations along a call, postconditions, answers, failures.
--   Store: lease checks, sequence numbers and `insert_event` of src/db.rs, with the constraints of
--     the schema.
--   Runs, Lease, Events, Checkpoints, Steps, Timers: the other functions of src/db.rs, under their names.
--     A part of a long function has a name of its own, as `grant_lease` for the transaction of
--     `claim_run_lease`.
--   Grows, Valid: what every call keeps of each table.
--   Calls: the writing calls as data, and histories of them; Calls/Frame what each leaves alone. SQLite
--     has one writer at a time, so what any number of processes do is a list of calls with their times.
--   Agent: src/agent.rs; Agent/Payload its JSON payloads, Agent/Session the methods that change a context.
--   Workflow: src/workflow.rs. Worker: src/worker.rs. Ui: src/ui.rs;
--     Ui/Html its templates, Ui/Handlers its routes and statuses, Ui/Serve its start.
--   DurableAgent: examples/durable_agent.rs; DurableAgent/Tool its tool, which several processes may run.
--   AutomaticResume: the handler of examples/automatic_resume.rs.
--   Examples: runs on concrete databases.
--
-- How the code is modelled:
--   A table is the list of its rows, the row inserted last in front; a call maps a database to a result
--   and a database. The columns `status` are enumerations, which the CHECKs of the schema make them.
--   Rows are deleted nowhere. A UUID is a number; the ids that `Uuid::new_v4` draws are arguments. Each
--   reading of the clock is an argument (`Clock`), one for each call of src/db.rs, with the time in
--   milliseconds, not negative, and `CURRENT_TIMESTAMP`. An error message is a constructor of `Reason`.
--   Sequence numbers and rounds are `i32`: `get_events` and the reads of a next number fail to decode a
--   larger one; other reads of events are not checked for it. `seq + 1` past the limit is an error here
--   that rolls back, as if the build checks overflow and the connection of the panicking task is closed;
--   what a release build does, or a connection that goes back to its pool with the transaction open, is
--   not modelled. Times are `i64` with the source's checked additions. Lease epochs and row ids are
--   unbounded: at one claim a nanosecond an `i64` lasts for 292 years.
--   A column of JSON is the value that was written, also where serde_json may read a float back with
--   another last digit. Floats with a whole value are left out, and so are call ids and tool names that
--   spell a JSON array or object. SQLite's `length` of a text stops at U+0000.
--   A loop is a recursion on the list it walks; the worker's `while` on the number of its free places, so
--   no fuel is needed. `AgentContext::state` reads three times; the model reads one database.
--   The heartbeat's mutex makes a method and a beat exclude each other; a beat is a step of its own.
--   The tool of the durable agent is a step relation on the file of its result and the processes; within
--   `run_agent` one process runs it, for which five actions are enough.
--   Parameters: the operation of a step with serde's conversions of its result, the verifier of a
--   checkpoint, tokio's sleep, the texts of errors, and for the inspector what uuid, chrono and
--   serde_json write, the parser of socket addresses and the listener, and the path of the artifact.
--
-- Not modelled: failures of SQLite itself (a busy or full database, a COMMIT that fails), cancellation of
-- a future, axum's server, src/main.rs, the set-up in the examples, the pauses and the file failures of
-- the durable agent, and the table `messages`, which nothing uses.
pub mod Prelude
pub mod Json
pub mod Types
pub mod Sql
pub mod Tables
pub mod Store
pub mod Runs
pub mod Lease
pub mod Events
pub mod Checkpoints
pub mod Steps
pub mod Timers
pub mod Grows
pub mod Valid
pub mod Calls
pub mod Examples
pub mod Workflow
pub mod Agent
pub mod AutomaticResume
pub mod Worker
pub mod Ui
pub mod DurableAgent
