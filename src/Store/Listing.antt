-- ===== src/Store/Listing.antt =====
-- The queries that list executions and sessions: `list_executions`, `list_agent_sessions` and
-- `get_agent_session` of src/store.rs.
use loomterm.Prelude.{
  ℕ, String, Bool, true, false, ◌&&◌, ◌||◌, Option, none, some, List, map, ◌==◌, leb, select,
  select_first, order_by, find_key, is_some, take,
}
use loomterm.Result.{ok}
use loomterm.Result.Run.{Action, pure, ◌>>=◌}
use loomterm.Model.Execution.{Execution}
use loomterm.Model.Session.{AgentSession, AgentSessionDetail, AgentTurn, AgentAction}
use loomterm.Store.Tables.{Db, ExecutionRow, WorkspaceRow, find_workspace}
use loomterm.Store.Rows.{agent_session_from_row, execution_from_row}
use loomterm.Store.Sessions.{is_of, read_session}
use loomterm.Store.Sessions.Turns.{turn_key}

named : String → Option WorkspaceRow → Bool
named name none = false
named name (some w) = w.workspace.name == name

-- FROM … JOIN workspaces w ON w.id = workspace_id WHERE workspace_id = ?1 OR w.name = ?1
in_workspace : Option String → Db → String → Bool
unfolding named
in_workspace none db workspace_id = true
in_workspace (some w) db workspace_id =
    is_some (find_workspace workspace_id db)
    && (workspace_id == w || named w (find_workspace workspace_id db))

unfoldable pub list_executions : ℕ → Option String → ℕ → Action Db (List Execution)
unfolding in_workspace
list_executions now workspace limit db = (
  ok (
      map (execution_from_row now) (
        take limit (
          order_by (λ a b. leb b.created_at_ms a.created_at_ms)
            (select (λ r. in_workspace workspace db r.workspace_id) db.executions)))),
  db,
)

unfoldable pub list_agent_sessions : Option String → ℕ → Action Db (List AgentSession)
unfolding in_workspace
list_agent_sessions workspace limit db = (
  ok (
      map agent_session_from_row (
        take limit (
          order_by (λ a b. leb b.created_at_ms a.created_at_ms)
            (select (λ r. in_workspace workspace db r.workspace_id) db.agent_sessions)))),
  db,
)

names_execution : String → AgentAction → Bool
names_execution id a = is_of id a.execution_id

-- The turns of a session, and the actions of those turns.
abbrev turns_of : String → Db → List AgentTurn
turns_of id db = select (λ t. t.session_id == id) db.agent_turns

abbrev actions_of : String → Db → List AgentAction
actions_of id db =
    select (λ a. is_some (find_key turn_key a.turn_id (turns_of id db))) db.agent_actions

-- Its own executions, and those that its actions refer to.
abbrev linked_executions : String → Db → List ExecutionRow
linked_executions id db =
    select
      (λ r.
        is_of id r.session_id || is_some (select_first (names_execution r.id) (actions_of id db)))
      db.executions

unfoldable pub get_agent_session : ℕ → String → Action Db AgentSessionDetail
unfolding names_execution
get_agent_session now id db =
    (read_session id >>= λ session. pure (record {
      session = session;
      executions =
          map (execution_from_row now)
            (order_by (λ a b. leb a.created_at_ms b.created_at_ms) (linked_executions id db));
      turns = order_by (λ a b. leb a.created_at_ms b.created_at_ms) (turns_of id db);
      actions = order_by (λ a b. leb a.created_at_ms b.created_at_ms) (actions_of id db);
    }))
      db
