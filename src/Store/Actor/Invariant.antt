-- ===== src/Store/Actor/Invariant.antt =====
-- What every command of `run_store_actor` of src/store.rs keeps.
use loomterm.Prelude.{List, [], ◌∷◌}
use loomterm.Result.Run.{Action}
use loomterm.Store.Tables.{Db}
use loomterm.Store.Journal.{IsConsistent}
use loomterm.Store.Keeps.{Keeps, Keeps-bind, Keeps-pure}
use loomterm.Store.Executions.Consistency.{
  mark_running-Keeps, finish-Keeps, append_capture_batch-Keeps, reconcile_incomplete-Keeps,
  cancel_queued-Keeps, get_execution-Keeps, create_execution-Keeps,
}
use loomterm.Store.Retention.Budget.{prune-Keeps}
use loomterm.Store.Actor.{
  StoreCommand, Inputs, Host, Reply, answer, execute, run_store_actor, add_workspace_command,
  remove_workspace_command, get_workspace_command, find_workspace_command, list_workspaces_command,
  create_execution_command, mark_running_command, append_capture_command, finish_command,
  get_execution_command, list_executions_command, execution_stats_command, create_session_command,
  finish_session_command, get_session_command, list_sessions_command, delete_session_command,
  record_event_command, active_sessions_command, read_output_command, reconcile_command,
  cancel_queued_command, prune_command,
}
use loomterm.Store.Actor.Frames.{
  Frames-Keeps, add_workspace-Frames, remove_workspace-Frames, get_workspace-Frames,
  create_agent_session-Frames, finish_agent_session-Frames, record_agent_event-Frames,
}
use loomterm.Store.Actor.Queries.{
  find_workspace_by_root-Frames, list_workspaces-Frames, list_executions-Frames,
  list_agent_sessions-Frames, active_agent_sessions-Frames, get_agent_session-Frames,
  execution_stats-Frames, read_output-Frames, delete_agent_session-Keeps,
}

answer-Keeps : {A : Type 0} (f : A → Reply) (m : Action Db A) → Keeps m → Keeps (answer f m)
answer-Keeps f m k = Keeps-bind m _ k λ a. Keeps-pure (f a)

execute-Keeps : (h : Host) (i : Inputs) (c : StoreCommand) → Keeps (execute h i c)
unfolding execute
execute-Keeps h i (add_workspace_command name root) =
    answer-Keeps _ _ (Frames-Keeps _ (add_workspace-Frames h.fs i.now i.id name root))
execute-Keeps h i (remove_workspace_command identifier) =
    answer-Keeps _ _ (Frames-Keeps _ (remove_workspace-Frames identifier))
execute-Keeps h i (get_workspace_command identifier) =
    answer-Keeps _ _ (Frames-Keeps _ (get_workspace-Frames identifier))
execute-Keeps h i (find_workspace_command root) =
    answer-Keeps _ _ (Frames-Keeps _ (find_workspace_by_root-Frames h.fs root))
execute-Keeps h i list_workspaces_command = answer-Keeps _ _ (Frames-Keeps _ list_workspaces-Frames)
execute-Keeps h i (create_execution_command request cwd) =
    answer-Keeps _ _ (create_execution-Keeps h.b64 i.now i.id request cwd)
execute-Keeps h i (mark_running_command id pid pgid) =
    answer-Keeps _ _ (mark_running-Keeps i.now id pid pgid)
execute-Keeps h i (append_capture_command records) =
    answer-Keeps _ _ (append_capture_batch-Keeps h.b64 records)
execute-Keeps h i (finish_command id state outcome) =
    answer-Keeps _ _ (finish-Keeps i.now id state outcome)
execute-Keeps h i (get_execution_command id) = answer-Keeps _ _ (get_execution-Keeps i.now id)
execute-Keeps h i (list_executions_command w limit) =
    answer-Keeps _ _ (Frames-Keeps _ (list_executions-Frames i.now w limit))
execute-Keeps h i (execution_stats_command w since_ms until_ms) =
    answer-Keeps _ _ (Frames-Keeps _ (execution_stats-Frames w since_ms until_ms))
execute-Keeps h i (create_session_command request) =
    answer-Keeps _ _ (Frames-Keeps _ (create_agent_session-Frames h.fs h.parse_path i.now request))
execute-Keeps h i (finish_session_command id finish) =
    answer-Keeps _ _ (Frames-Keeps _ (finish_agent_session-Frames i.now id finish))
execute-Keeps h i (get_session_command id) =
    answer-Keeps _ _ (Frames-Keeps _ (get_agent_session-Frames i.now id))
execute-Keeps h i (list_sessions_command w limit) =
    answer-Keeps _ _ (Frames-Keeps _ (list_agent_sessions-Frames w limit))
execute-Keeps h i (delete_session_command id) = answer-Keeps _ _ (delete_agent_session-Keeps id)
execute-Keeps h i (record_event_command request) =
    answer-Keeps _ _ (Frames-Keeps _ (record_agent_event-Frames i.now i.id i.other_id request))
execute-Keeps h i active_sessions_command =
    answer-Keeps _ _ (Frames-Keeps _ active_agent_sessions-Frames)
execute-Keeps h i (read_output_command id after_seq max_bytes) =
    answer-Keeps _ _ (Frames-Keeps _ (read_output-Frames h.b64 i.now id after_seq max_bytes))
execute-Keeps h i reconcile_command = answer-Keeps _ _ (reconcile_incomplete-Keeps i.now)
execute-Keeps h i cancel_queued_command = answer-Keeps _ _ (cancel_queued-Keeps i.now)
execute-Keeps h i (prune_command days bytes) = answer-Keeps _ _ (prune-Keeps i.now days bytes)

-- From a consistent database, any list of commands leaves a consistent one, whichever of them
-- fail: the events of each execution are numbered 1, 2, … up to its `last_seq`, the sizes of their
-- blobs add up to its `captured_bytes`, no two executions have one id, no event is left of an
-- execution that is gone, and every event can be read back.
pub run_store_actor-IsConsistent :
    (h : Host) (commands : List (Inputs × StoreCommand)) (db : Db)
    → IsConsistent db
    → IsConsistent (run_store_actor h commands db).1
unfolding run_store_actor
run_store_actor-IsConsistent h [] db c = c
run_store_actor-IsConsistent h ((i, command) ∷ commands) db c =
    run_store_actor-IsConsistent h commands (execute h i command db).1
      ((execute-Keeps h i command).at db c)
