-- ===== src/Lib.antt =====
-- mini-bpm-engine: a workflow engine for BPMN processes, of which this library models the core crate
-- `engine-core`. A process definition is a graph of nodes and sequence flows. Tokens walk through it:
-- gateways split and join them, and at wait states (user and service tasks, timers, messages) they stop
-- until something from outside arrives. External workers fetch service tasks and hold them under locks
-- that expire.
--
-- Files, with the code that they model:
--   Domain/Element, Token, Timer, Error: engine-core/src/domain/element.rs, flow.rs, listener.rs,
--     multi_instance.rs, token.rs, timer.rs and error.rs there. Enums and structs are data types and
--     records with the same names; a `matches!` test is a Boolean function by clauses.
--   Domain/Definition and its children: engine-core/src/domain/definition.rs. `validate` has the checks
--     of `ProcessDefinition::new` in their order, Structure says what passes them, and Builder is
--     `ProcessDefinitionBuilder`.
--   Condition: engine-core/src/condition.rs.
--   Runtime/Instance, Pending, Action, AuditLog: engine-core/src/runtime/instance.rs, pending.rs and
--     constants.rs there.
--   Gateway and its children: engine-core/src/engine/gateway.rs.
--   Executor/Helpers, JoinSearch, Joins: engine-core/src/engine/executor/helpers.rs, parallel.rs and
--     completion.rs there.
--   Engine: the state that engine-core/src/engine/mod.rs declares.
--   Run and its children: the calls as functions of a world to a world and a result, and the reasoning
--     on them.
--   Executor/Scripts: engine-core/src/scripting/runner.rs and executor/completion.rs.
--   Executor/Handlers and its children: engine-core/src/engine/handlers/.
--   Executor/Step, Batch: engine-core/src/engine/executor/mod.rs, `execute_step` and
--     `run_instance_batch`.
--   Executor/NextActions: engine-core/src/engine/executor/next_action.rs.
--   ProcessStart and its child: engine-core/src/engine/process_start.rs, with what the end of a called
--     process does to its caller.
--   WaitStates: the wait states of engine-core/src/engine/mod.rs. Registry: registry.rs there.
--   UserTask, TimerProcessor, MessageProcessor: user_task.rs, timer_processor.rs and
--     message_processor.rs there.
--   ServiceTask and its children: the lock protocol, the incidents and the completion of
--     engine-core/src/engine/service_task.rs. Automaton is the abstract protocol: of a task it knows the
--     holder and the end of the lock only.
--   Operations: the calls that the engine answers, one after the other.
--   Filing: that what the engine stores is stored under its own identifier.
--   InstanceOps and its children: suspending, resuming, migrating and deleting, of
--     engine-core/src/engine/instance_ops.rs.
--   DefinitionOps and its child: engine-core/src/engine/definition_ops.rs.
--   Boundary: engine-core/src/engine/boundary.rs.
--   RetryQueue and its children: engine-core/src/engine/retry_queue.rs. The answers of the backend and
--     the state that each attempt reads are arguments.
--   Prelude: maps, lists, signed numbers and text that these share. Tests: runs at concrete inputs.
-- The functions and types keep the names of the code. The gateways decide where a token goes, the
-- executor's joins collect the branches of a split, and both read the definition. A batch moves a token
-- from node to node: `execute_step` asks the handler of the node what to do and `handle_next_action`
-- does it, so the token moves on, splits, waits at a wait state or ends. The user and service tasks, the
-- timers and the messages take a wait state out of the engine's maps and start the next batch, and so
-- does the end of a called process for its caller.
--
-- How the code is read. Operations run one after the other, each under the locks that it takes. An
-- operation on a state of its own (a gateway, a join, the lock protocol, suspension and migration)
-- that returns `EngineResult` answers `ok` with the new state or `err`, and fails before it writes, but
-- for the missing barrier of `fire`, which cannot occur since `arrive` has just stored it. A call that
-- goes on executing an instance is a `Run`: from a `World` (the engine, and how often the outside world was asked) to
-- an `Exit` with the world in which it stopped, so what was written before an error stays written. An
-- `Exit` is a value, an error of the engine, or `too_deep`. A `HashMap` or `DashMap` is an association
-- list whose order is the order of iteration, so what is proved for every list holds for every iteration
-- order. `Uuid` is ℕ, and the identifiers that `Uuid::new_v4` draws are arguments, or in a `Run` answers
-- of the outside world, any at all. Times are nanoseconds in ℕ from the earliest date of chrono; the
-- panics of chrono at dates out of its range are left out. Calls into
-- persistence and history are recorded in order in the field `effects` of the engine; logging, metrics
-- and tracing are left out.
--
-- Third-party code is a parameter: `Json` holds what the code uses of serde_json numbers and of `f64`,
-- of which nothing is assumed; `Cron` holds what it uses of croner, and one theorem assumes that croner
-- answers times after the one it is asked about. `Env` adds the clock, the generator of
-- identifiers, the Rhai interpreter as a function from a script and variables to variables or an error,
-- and the texts that the code prints.
--
-- Fuel. The search for a join (`join_loop`) runs on the number of flows of the definition and of the
-- split, plus one. A node is entered once, and only then are its flows queued, so this is enough.
-- A batch makes at most MAX_EXECUTION_STEPS steps, as in the code. A batch may start another one, that
-- of a called process or of its caller; the code nests these without a bound, and the model stops at the
-- depth it is given with `too_deep`. What is proved of the calls holds at every depth, `too_deep`
-- included. The attempts at a queued job (`retry_loop`) run on 50 fuel, the number of attempts that the
-- code makes.
--
-- Not modelled: starting instances by timers; moving a token and changing the variables of an instance; the
-- listings. The backend of a running engine: calls to persistence, history and the event stream are
-- recorded and neither fail nor come back (but the answer to a deletion is an argument), so that the trimming of the audit log when an instance is saved, its limit on the size, and the inline
-- retries are left out. What is inside a script (Rhai); history diffs; the storage adapters; the BPMN
-- parser, the HTTP server and the desktop application.
pub mod Prelude
pub mod Domain
pub mod Condition
pub mod Runtime
pub mod Gateway
pub mod Executor
pub mod Engine
pub mod Run
pub mod ProcessStart
pub mod Registry
pub mod DefinitionOps
pub mod WaitStates
pub mod TimerProcessor
pub mod MessageProcessor
pub mod UserTask
pub mod ServiceTask
pub mod Boundary
pub mod InstanceOps
pub mod RetryQueue
pub mod Operations
pub mod Filing
pub mod Tests
