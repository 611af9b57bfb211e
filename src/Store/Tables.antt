-- ===== src/Store/Tables.antt =====
-- The tables that `Database::initialize` of src/store.rs creates, each the list of its rows in the
-- order of insertion. A column of JSON text holds the value that was written to it. The texts of
-- `database` errors name the constraint that SQLite reports.
use loomterm.Prelude.{
  ℕ, ℤ, String, Bool, true, false, ◌&&◌, Option, none, some, List, [], ◌∷◌, ◌++◌, ◌==◌, eqb,
  if◌then◌else◌, select, select_first, delete_where, update_where, find_key, has_key, is_some,
}
use loomterm.Result.{ok, err, database}
use loomterm.Result.Run.{Action}
use loomterm.Model.Command.{CommandSpec}
use loomterm.Model.Execution.{Bytes, ExecutionOutcome, ExecutionState, Initiator}
use loomterm.Model.Session.{AgentSessionState, AgentTurn, AgentAction}
use loomterm.Model.Workspace.{Workspace}

pub record WorkspaceRow : Type 0 where
  pub workspace : Workspace
  pub is_active : Bool

pub record SessionRow : Type 0 where
  pub id : String
  pub workspace_id : String
  pub state : AgentSessionState
  pub agent_kind : String
  pub name : Option String
  pub command_json : CommandSpec
  pub cwd : String
  pub created_at_ms : ℕ
  pub ended_at_ms : Option ℕ
  pub recorder_pid : ℕ
  pub outcome_json : Option ExecutionOutcome
  pub captured_bytes : ℕ
  pub output_truncated : Bool
  pub initial_cols : ℕ
  pub initial_rows : ℕ
  pub cast_path : String
  pub html_path : String

pub record ExecutionRow : Type 0 where
  pub id : String
  pub workspace_id : String
  pub state : ExecutionState
  pub command_json : CommandSpec
  pub cwd : String
  pub env_keys_json : List String
  pub initiator_json : Initiator
  pub created_at_ms : ℕ
  pub started_at_ms : Option ℕ
  pub ended_at_ms : Option ℕ
  pub pid : Option ℕ
  pub pgid : Option ℤ
  pub outcome_json : Option ExecutionOutcome
  pub captured_bytes : ℕ
  pub output_truncated : Bool
  pub last_seq : ℕ
  pub session_id : Option String

-- The values that `payload_json` is written with.
pub data PayloadJson : Type 0 where
  started_json : ℕ → ℤ → PayloadJson
  truncated_json : ℕ → PayloadJson
  outcome_json : ExecutionOutcome → PayloadJson

pub record EventRow : Type 0 where
  pub execution_id : String
  pub seq : ℕ
  pub timestamp_ms : ℕ
  pub kind : String
  pub stream : Option String
  pub blob : Option Bytes
  pub payload_json : Option PayloadJson

pub record Db : Type 0 where
  pub workspaces : List WorkspaceRow
  pub agent_sessions : List SessionRow
  pub executions : List ExecutionRow
  pub events : List EventRow
  pub agent_turns : List AgentTurn
  pub agent_actions : List AgentAction

abbrev pub empty_db : Db
empty_db = record {
  workspaces = [];
  agent_sessions = [];
  executions = [];
  events = [];
  agent_turns = [];
  agent_actions = [];
}

abbrev pub execution_key : ExecutionRow → String
execution_key r = r.id

abbrev pub session_key : SessionRow → String
session_key r = r.id

-- SELECT … FROM executions WHERE id = ?1
abbrev pub find_execution : String → Db → Option ExecutionRow
find_execution id db = find_key execution_key id db.executions

abbrev pub find_session : String → Db → Option SessionRow
find_session id db = find_key session_key id db.agent_sessions

abbrev pub workspace_key : WorkspaceRow → String
workspace_key r = r.workspace.id

abbrev pub find_workspace : String → Db → Option WorkspaceRow
find_workspace id db = find_key workspace_key id db.workspaces

-- A reference that may be NULL.
abbrev pub session_exists : Option String → Db → Bool
session_exists none db = true
session_exists (some id) db = is_some (find_session id db)

-- UPDATE executions SET … WHERE id = ?1
abbrev pub update_execution : String → (ExecutionRow → ExecutionRow) → Db → Db
update_execution id f db = record db {
  executions = update_where (has_key execution_key id) f db.executions;
}

unfoldable pub is_event : String → ℕ → EventRow → Bool
is_event id seq e = e.execution_id == id && eqb e.seq seq

-- INSERT INTO events, with PRIMARY KEY(execution_id, seq) and the reference to its execution.
unfoldable pub insert_event : EventRow → Action Db (Unit {0})
unfolding is_event
insert_event e db =
    if is_some (select_first (is_event e.execution_id e.seq) db.events)
    then (err (database "UNIQUE constraint failed: events.execution_id, events.seq"), db)
    else if is_some (find_execution e.execution_id db)
    then (ok tt, record db { events = db.events ++ e ∷ [] })
    else (err (database "FOREIGN KEY constraint failed"), db)

abbrev some_is : Option String → String → Bool
some_is none k = false
some_is (some j) k = j == k

references : List ExecutionRow → AgentAction → Bool
references removed action = is_some (select_first (λ r. some_is action.execution_id r.id) removed)

-- DELETE FROM executions WHERE …: the events go with their execution (ON DELETE CASCADE), and the
-- actions that name it forget it (ON DELETE SET NULL).
unfoldable pub delete_executions : (ExecutionRow → Bool) → Db → Db
unfolding references
delete_executions p db =
    let removed = select p db.executions in
    record db {
      executions = delete_where p db.executions;
      events =
          delete_where (λ e. is_some (find_key execution_key e.execution_id removed)) db.events;
      agent_actions =
          update_where (references removed) (λ a. record a { execution_id = none })
            db.agent_actions;
    }
