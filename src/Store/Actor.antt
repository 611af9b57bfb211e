-- ===== src/Store/Actor.antt =====
-- `StoreCommand` and `run_store_actor` of src/store.rs: one thread owns the database and answers
-- commands one after another.
pub mod Frames
pub mod Queries
pub mod Invariant
pub mod Progress
use loomterm.Prelude.{ℕ, ℤ, String, Option, List, [], ◌∷◌}
use loomterm.Result.{Result, ok, err, FilePath}
use loomterm.Result.Run.{Action, pure, ◌>>=◌}
use loomterm.Model.Execution.{
  Base64, Execution, ExecutionState, ExecutionOutcome, ExecutionRequest, ExecutionEvent,
  ReadOutputResponse,
}
use loomterm.Model.Session.{
  AgentSession, AgentSessionRequest, AgentSessionFinish, AgentSessionDetail, AgentTurn,
  AgentEventRequest,
}
use loomterm.Model.Workspace.{Workspace}
use loomterm.Store.Tables.{Db}
use loomterm.Store.Executions.{
  create_execution, mark_running, finish, get_execution, reconcile_incomplete, cancel_queued,
}
use loomterm.Store.Executions.Batch.{CaptureRecord, append_capture_batch}
use loomterm.Store.Reading.{read_output}
use loomterm.Store.Retention.{prune}
use loomterm.Store.Workspaces.{
  FileSystem, add_workspace, remove_workspace, get_workspace, find_workspace_by_root,
  list_workspaces,
}
use loomterm.Store.Sessions.{
  create_agent_session, finish_agent_session, delete_agent_session, active_agent_sessions,
}
use loomterm.Store.Sessions.Events.{record_agent_event}
use loomterm.Store.Listing.{list_executions, list_agent_sessions, get_agent_session}
use loomterm.Store.Stats.{ExecutionStats, execution_stats}

pub data StoreCommand : Type 0 where
  add_workspace_command : String → FilePath → StoreCommand
  remove_workspace_command : String → StoreCommand
  get_workspace_command : String → StoreCommand
  find_workspace_command : FilePath → StoreCommand
  list_workspaces_command : StoreCommand
  create_execution_command : ExecutionRequest → String → StoreCommand
  mark_running_command : String → ℕ → ℤ → StoreCommand
  append_capture_command : List CaptureRecord → StoreCommand
  finish_command : String → ExecutionState → ExecutionOutcome → StoreCommand
  get_execution_command : String → StoreCommand
  list_executions_command : Option String → ℕ → StoreCommand
  execution_stats_command : String → ℕ → ℕ → StoreCommand
  create_session_command : AgentSessionRequest → StoreCommand
  finish_session_command : String → AgentSessionFinish → StoreCommand
  get_session_command : String → StoreCommand
  list_sessions_command : Option String → ℕ → StoreCommand
  delete_session_command : String → StoreCommand
  record_event_command : AgentEventRequest → StoreCommand
  active_sessions_command : StoreCommand
  read_output_command : String → ℕ → ℕ → StoreCommand
  reconcile_command : StoreCommand
  cancel_queued_command : StoreCommand
  prune_command : ℕ → ℕ → StoreCommand

-- What is sent back on the channel of a command.
pub data Reply : Type 0 where
  done : Reply
  number : ℕ → Reply
  workspace : Workspace → Reply
  found_workspace : Option Workspace → Reply
  workspaces : List Workspace → Reply
  execution : Execution → Reply
  executions : List Execution → Reply
  event : ExecutionEvent → Reply
  events : List ExecutionEvent → Reply
  stats : ExecutionStats → Reply
  session : AgentSession → Reply
  sessions : List AgentSession → Reply
  detail : AgentSessionDetail → Reply
  turn : AgentTurn → Reply
  page : ReadOutputResponse → Reply

-- What a command takes from its surroundings: `now_ms()` and the values of `new_id()`.
pub record Inputs : Type 0 where
  pub now : ℕ
  pub id : String
  pub other_id : String

-- The parts that the store does not implement.
pub record Host : Type 0 where
  pub b64 : Base64
  pub fs : FileSystem
  pub parse_path : String → FilePath

abbrev pub answer : {A : Type 0} → (A → Reply) → Action Db A → Action Db Reply
answer f m = m >>= λ a. pure (f a)

unfoldable pub execute : Host → Inputs → StoreCommand → Action Db Reply
execute h i (add_workspace_command name root) =
    answer workspace (add_workspace h.fs i.now i.id name root)
execute h i (remove_workspace_command identifier) = answer (λ x. done) (remove_workspace identifier)
execute h i (get_workspace_command identifier) = answer workspace (get_workspace identifier)
execute h i (find_workspace_command root) =
    answer found_workspace (find_workspace_by_root h.fs root)
execute h i list_workspaces_command = answer workspaces list_workspaces
execute h i (create_execution_command request cwd) =
    answer execution (create_execution h.b64 i.now i.id request cwd)
execute h i (mark_running_command id pid pgid) = answer event (mark_running i.now id pid pgid)
execute h i (append_capture_command records) = answer events (append_capture_batch h.b64 records)
execute h i (finish_command id state outcome) = answer event (finish i.now id state outcome)
execute h i (get_execution_command id) = answer execution (get_execution i.now id)
execute h i (list_executions_command w limit) = answer executions (list_executions i.now w limit)
execute h i (execution_stats_command w since_ms until_ms) =
    answer stats (execution_stats w since_ms until_ms)
execute h i (create_session_command request) =
    answer session (create_agent_session h.fs h.parse_path i.now request)
execute h i (finish_session_command id finish) =
    answer session (finish_agent_session i.now id finish)
execute h i (get_session_command id) = answer detail (get_agent_session i.now id)
execute h i (list_sessions_command w limit) = answer sessions (list_agent_sessions w limit)
execute h i (delete_session_command id) = answer (λ x. done) (delete_agent_session id)
execute h i (record_event_command request) =
    answer turn (record_agent_event i.now i.id i.other_id request)
execute h i active_sessions_command = answer sessions active_agent_sessions
execute h i (read_output_command id after_seq max_bytes) =
    answer page (read_output h.b64 i.now id after_seq max_bytes)
execute h i reconcile_command = answer number (reconcile_incomplete i.now)
execute h i cancel_queued_command = answer events (cancel_queued i.now)
execute h i (prune_command days bytes) = answer number (prune i.now days bytes)

-- The commands that come before `Shutdown`, which ends the loop; the replies and the database.
unfoldable pub run_store_actor : Host → List (Inputs × StoreCommand) → Db → List (Result Reply) × Db
run_store_actor h [] db = ([], db)
run_store_actor h ((i, c) ∷ commands) db =
    let (reply, db') = execute h i c db in
    let (replies, after) = run_store_actor h commands db' in (reply ∷ replies, after)
