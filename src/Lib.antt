-- ===== src/Lib.antt =====
-- Loomterm, a local command runtime for coding agents: a daemon runs commands under supervisors,
-- stores every execution with its events, and serves them to clients.
--
-- The parts and the files that model them:
--
-- src/model.rs, src/error.rs: Model (Command, Execution, Session, Workspace, Text) and Result. Types
-- keep the source's fields and variants; `validate` of a request has the name of its type where two
-- would clash. Times and ids that the code takes from `now_ms` and `new_id` are arguments. JSON texts
-- in the database are the values that they are written from.
--
-- src/store.rs: Store. `Database` is a record of tables (Store/Tables), each the list of its rows in
-- the order of insertion; an operation is an action on it that returns a value or an error and the
-- new database (Result/Run, where `transaction` rolls back on an error). Store/Executions has
-- `create_execution` to `finish`, with Batch for `append_capture_batch`; Store/Reading has
-- `read_output`, Store/Listing the lists, Store/Stats `execution_stats`, Store/Retention `prune`,
-- Store/Workspaces and Store/Sessions the operations on those; Store/Rows reads rows back. Primary
-- keys, references, ON DELETE clauses and unique indices are written out where a row is inserted or
-- deleted. Store/Actor is `run_store_actor`: a command is executed at a time. Store/Journal says when
-- a database is consistent, and Store/Keeps and Store/Actor/Frames have a rule for each way in which
-- an action is built.
--
-- src/executor.rs: Executor. Capture is `capture_output`, whose counter wraps around at 2^64; Writer
-- is the task `capture_writer`, on a list of what its channel gives at each poll; Task is the closure
-- in `execute` with `run_execution`, on a list of the supervisor's frames, where before each call of
-- the store other tasks may change the database (a consequence of the locks is not used) and in which
-- the store itself may fail; Cancel is `cancel`, in the same way.
--
-- src/supervisor.rs: Supervisor, the loop of `run` that waits for the child: a step for each wakeup of
-- `select!`, and the outcome that is reported.
--
-- src/session.rs: Recorder. Utf8 is `Utf8Decoder`, on bytes; its fuel is the number of bytes left and
-- one more, and each turn of the loop takes a byte or stops. Capture is `capture_output` on a list of
-- reads, Redaction is `redact_output_stream`, with a position for each character.
--
-- src/daemon.rs: Daemon/Subscription is `replay_subscription`, each page of which is read from the
-- database as it is then. It recurs on fuel; each turn but the last moves the cursor on, so that one
-- unit of fuel more than there are events behind the cursor, at the end, is enough. Daemon/Live is
-- `handle_subscription`: a step for each wakeup of `select!`, with the database as it is then, and
-- with those of a replay that it leads to. Daemon/Artifacts is `validate_session_paths` on paths as
-- lists of components.
--
-- src/mcp.rs: Mcp is the tool `read` with the conversion of its events, on the daemon's database, and
-- the choice of the server's workspace (Project).
--
-- src/agent.rs: Agent, the hooks on JSON values; parsing a text is a parameter. Its search goes down nine
-- levels, which is its recursion.
--
-- src/watch.rs: Watch is `WatchState` with its operations; what wakes `run_loop` up is a list of events.
--
-- Numbers are natural numbers; where the code's width matters the wrap-around is written out (`prune`,
-- `capture_output`, `saturating_add`). Code outside the repository is a parameter: `Base64` with the
-- round trip of its documentation, `FileSystem` for paths, and the texts of errors.
--
-- Not modelled: the interface on the terminal (src/ui.rs, src/terminal.rs, the drawing of src/watch.rs), the command
-- line (src/bin), onboarding, the client and the configuration, which are I/O for the most part; in the parts above, the terminal, sockets, pipes, processes,
-- threads, migrations of an older schema and failures of SQLite itself.
pub mod Prelude
pub mod Result
pub mod Model
pub mod Store
pub mod Executor
pub mod Mcp
pub mod Agent
pub mod Watch
pub mod Supervisor
pub mod Recorder
pub mod Daemon
pub mod Tests
