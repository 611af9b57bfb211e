-- ===== src/Store/Sessions.antt =====
-- The operations of `Database` on agent sessions: src/store.rs, `create_agent_session`,
-- `finish_agent_session`, `delete_agent_session`, and the queries that list sessions.
pub mod Turns
pub mod Events
pub mod Closing
use loomterm.Prelude.{
  ℕ, ◌+◌, String, Bool, true, false, not, ◌&&◌, ◌||◌, Option, none, some, List, [], ◌∷◌, ◌++◌, map,
  ◌<>◌, ◌==◌, leb, if◌then◌else◌, select, select_first, update_where, delete_where, order_by,
  find_key, has_key, is_some, take,
}
use loomterm.Result.{
  Result, ok, err, FilePath, invalid_request, database, outside_workspace, reject_if,
}
use loomterm.Result.Run.{Action, pure, lift, ◌>>=◌, ◌>>◌}
use loomterm.Model.Execution.{Execution, ExecutionOutcome, was_interrupted, Initiator}
use loomterm.Model.Session.{
  AgentSession, AgentSessionState, recording, finished, interrupted, is_terminal,
  AgentSessionRequest, validate_session, AgentSessionFinish, AgentSessionDetail, AgentTurn,
  AgentTurnState, active, turn_interrupted, AgentAction,
}
use loomterm.Model.Workspace.{Workspace, workspace_contains}
use loomterm.Store.Tables.{Db, ExecutionRow, SessionRow, session_key, find_session, find_workspace}
use loomterm.Store.Rows.{agent_session_from_row, execution_from_row}
use loomterm.Store.Executions.{get_agent_session_record}
use loomterm.Store.Workspaces.{FileSystem, get_workspace}

abbrev pub is_recording : AgentSessionState → Bool
is_recording recording = true
is_recording finished = false
is_recording interrupted = false

-- INSERT INTO agent_sessions, with its primary key and the reference to its workspace.
unfoldable pub insert_session : SessionRow → Action Db (Unit {0})
insert_session row db =
    if is_some (find_session row.id db)
    then (err (database "UNIQUE constraint failed: agent_sessions.id"), db)
    else if is_some (find_workspace row.workspace_id db)
    then (ok tt, record db { agent_sessions = db.agent_sessions ++ row ∷ [] })
    else (err (database "FOREIGN KEY constraint failed"), db)

-- `get_agent_session_record`, as a value
unfoldable pub read_session : String → Action Db AgentSession
read_session id = do row ← get_agent_session_record id; pure (agent_session_from_row row)

new_session : ℕ → AgentSessionRequest → String → String → SessionRow
new_session now request workspace_id cwd = record {
  id = request.id;
  workspace_id = workspace_id;
  state = recording;
  agent_kind = request.agent_kind;
  name = request.name;
  command_json = request.command;
  cwd = cwd;
  created_at_ms = now;
  ended_at_ms = none;
  recorder_pid = request.recorder_pid;
  outcome_json = none;
  captured_bytes = 0;
  output_truncated = false;
  initial_cols = request.initial_cols;
  initial_rows = request.initial_rows;
  cast_path = request.cast_path;
  html_path = request.html_path;
}

-- `parse_path` reads the text of the request as a path.
unfoldable pub create_agent_session :
    FileSystem → (String → FilePath) → ℕ → AgentSessionRequest → Action Db AgentSession
unfolding insert_session new_session read_session
create_agent_session fs parse_path now request = do
  lift (validate_session request)
  workspace ← get_workspace request.workspace_id
  cwd ← lift (fs.canonicalize (parse_path request.cwd))
  lift (
      reject_if (not (workspace_contains workspace.root cwd))
        (outside_workspace cwd workspace.root))
  insert_session (new_session now request workspace.id (fs.display cwd))
  read_session request.id

-- UPDATE agent_sessions SET … WHERE id = ?1
abbrev pub update_session : String → (SessionRow → SessionRow) → Action Db (Unit {0})
update_session id f db = (
  ok tt,
  record db { agent_sessions = update_where (has_key session_key id) f db.agent_sessions },
)

abbrev pub is_active_turn : AgentTurnState → Bool
is_active_turn active = true
is_active_turn _ = false

-- UPDATE agent_turns SET state = 'interrupted', ended_at_ms = … WHERE … AND state = 'active'
abbrev pub interrupt_turns : ℕ → (AgentTurn → Bool) → Action Db (Unit {0})
interrupt_turns now p db = (
  ok tt,
  record db {
    agent_turns =
        update_where (λ t. p t && is_active_turn t.state)
          (λ t. record t { state = turn_interrupted; ended_at_ms = some now }) db.agent_turns;
  },
)

abbrev is_interrupted : AgentSessionState → Bool
is_interrupted interrupted = true
is_interrupted recording = false
is_interrupted finished = false

abbrev is_interruption : ExecutionOutcome → Bool
is_interruption (was_interrupted reason) = true
is_interruption _ = false

abbrev same : Bool → Bool → Bool
same true b = b
same false b = not b

-- The writes of `finish_agent_session`, on a session that is still recording.
unfoldable pub close_session : ℕ → String → AgentSessionFinish → Action Db AgentSession
unfolding read_session
close_session now id finish = do
  update_session id λ s. record s {
    state = finish.state;
    ended_at_ms = some now;
    outcome_json = some finish.outcome;
    captured_bytes = finish.captured_bytes;
    output_truncated = finish.output_truncated;
  }
  interrupt_turns now (λ t. t.session_id == id)
  read_session id

unfoldable pub finish_agent_session : ℕ → String → AgentSessionFinish → Action Db AgentSession
finish_agent_session now id finish = do
  lift (
      reject_if (is_recording finish.state)
        (invalid_request "finished agent session must use a terminal state"))
  lift (
      reject_if (not (same (is_interrupted finish.state) (is_interruption finish.outcome)))
        (invalid_request "interrupted agent session state and outcome must agree"))
  current ← read_session id
  if is_terminal current.state then pure current else close_session now id finish

abbrev pub is_of : String → Option String → Bool
is_of id none = false
is_of id (some session_id) = session_id == id

abbrev pub without_session : ExecutionRow → ExecutionRow
without_session r = record r {
  session_id = none;
  initiator_json = record r.initiator_json { session_id = none };
}

-- The transaction of `delete_agent_session`; turns go with their session, and actions with their
-- turn (ON DELETE CASCADE).
unfoldable pub remove_session : String → Action Db (Unit {0})
remove_session id db =
    let gone = select (λ t. t.session_id == id) db.agent_turns in
    (
      ok tt,
      record db {
        executions = update_where (λ r. is_of id r.session_id) without_session db.executions;
        agent_sessions = delete_where (has_key session_key id) db.agent_sessions;
        agent_turns = delete_where (λ t. t.session_id == id) db.agent_turns;
        agent_actions =
            delete_where (λ a. is_some (find_key (λ (t : AgentTurn). t.id) a.turn_id gone))
              db.agent_actions;
      },
    )

unfoldable pub delete_agent_session : String → Action Db (Unit {0})
unfolding remove_session
delete_agent_session id = do
  session ← get_agent_session_record id
  lift (
      reject_if (not (is_terminal session.state))
        (invalid_request ("agent session " <> id <> " is still recording")))
  remove_session id

unfoldable pub active_agent_sessions : Action Db (List AgentSession)
active_agent_sessions db = (
  ok (
      map agent_session_from_row (
        order_by (λ a b. leb a.created_at_ms b.created_at_ms)
          (select (λ s. is_recording s.state) db.agent_sessions))),
  db,
)
