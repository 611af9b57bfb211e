-- ===== src/Store/Actor/Progress.antt =====
-- What a command of `run_store_actor` of src/store.rs does to the executions that are there.
use loomterm.Prelude.{
  ℕ, String, ◌≡◌, refl, Bool, true, false, ◌⊎◌, inl, inr, Option, none, some, Bool-cases,
  Option-cases, find_key-update_where, if◌then◌else◌,
}
use loomterm.Result.{Result, ok, err}
use loomterm.Result.Run.{Action, continue, pure}
use loomterm.Model.Execution.{is_terminal}
use loomterm.Model.Session
use loomterm.Store.Tables.{Db, ExecutionRow, execution_key, find_execution, find_session}
use loomterm.Store.Journal.{IsConsistent}
use loomterm.Store.Executions.Advances.{
  Advances, Advances-refl, Advancing, mark_running-Advancing, finish-Advancing,
}
use loomterm.Store.Executions.Advances.Batch.{
  append_capture_batch-Advancing, reconcile_incomplete-Advancing, cancel_queued-Advancing,
}
use loomterm.Store.Executions.Advances.Creation.{
  create_execution-Advancing, get_execution-Advancing,
}
use loomterm.Store.Retention.{prune}
use loomterm.Store.Retention.Budget.{prune-Trims}
use loomterm.Store.Retention.Remainder.{prune-IsRemainder}
use loomterm.Store.Sessions.{remove_session, delete_agent_session, is_of, without_session}
use loomterm.Store.Actor.{
  StoreCommand, Inputs, Host, Reply, answer, execute, add_workspace_command,
  remove_workspace_command, get_workspace_command, find_workspace_command, list_workspaces_command,
  create_execution_command, mark_running_command, append_capture_command, finish_command,
  get_execution_command, list_executions_command, execution_stats_command, create_session_command,
  finish_session_command, get_session_command, list_sessions_command, delete_session_command,
  record_event_command, active_sessions_command, read_output_command, reconcile_command,
  cancel_queued_command, prune_command,
}
use loomterm.Store.Actor.Frames.{
  Frames, add_workspace-Frames, remove_workspace-Frames, get_workspace-Frames,
  create_agent_session-Frames, finish_agent_session-Frames, record_agent_event-Frames,
}
use loomterm.Store.Actor.Queries.{
  find_workspace_by_root-Frames, list_workspaces-Frames, list_executions-Frames,
  list_agent_sessions-Frames, active_agent_sessions-Frames, get_agent_session-Frames,
  execution_stats-Frames, read_output-Frames,
}

-- What became of the row `r`: it has advanced, or it was terminal and is gone.
abbrev pub IsSuccessor : ExecutionRow → Option ExecutionRow → Type 0
IsSuccessor r none = is_terminal r.state ≡ true
IsSuccessor r (some s) = Advances r s

pub record Progresses {A : Type 0} (m : Action Db A) : Type 0 where
  pub at :
      (db : Db)
      → IsConsistent db
      → (id : String) (r : ExecutionRow) → find_execution id db ≡ some r
      → IsSuccessor r (find_execution id (m db).1)

Advancing-Progresses : {A : Type 0} (m : Action Db A) → Advancing m → Progresses m
Advancing-Progresses m h = record { at = at }
  where
    at :
        (db : Db)
        → IsConsistent db
        → (id : String) (r : ExecutionRow) → find_execution id db ≡ some r
        → IsSuccessor r (find_execution id (m db).1)
    at db c id r found = let (s, after, a) = (h.at db c).at id r found in rw after a

Frames-Progresses : {A : Type 0} (m : Action Db A) → Frames m → Progresses m
Frames-Progresses m h = record {
  at = λ db c id r found. rw (h.executions db, found) (Advances-refl r);
}

-- What comes behind a step changes nothing.
answer-Progresses :
    {A : Type 0} (f : A → Reply) (m : Action Db A) → Progresses m → Progresses (answer f m)
answer-Progresses f m h = record {
  at = λ db c id r found. rw (same (m db).0 (m db).1) (h.at db c id r found);
}
  where
    same : (a : Result _) (db : Db) → (continue a db (λ x. pure (f x))).1 ≡ db
    same (ok a) db = refl
    same (err e) db = refl

prune-Progresses : (now days limit : ℕ) → Progresses (prune now days limit)
prune-Progresses now days limit = record { at = at }
  where
    at :
        (db : Db)
        → IsConsistent db
        → (id : String) (r : ExecutionRow) → find_execution id db ≡ some r
        → IsSuccessor r (find_execution id (prune now days limit db).1)
    at db c id r found = elim (Bool-cases (is_terminal r.state)) [
      | inl over ↦ elim (prune-IsRemainder now days limit id db c) [
        | inl same ↦ rw (same, found) (Advances-refl r)
        | inr gone ↦ rw gone over
      ]
      | inr live ↦
          rw ((prune-Trims now days limit db c).2.spares.at id r found live) (Advances-refl r)
    ]

remove_session-Progresses : (id : String) → Progresses (remove_session id)
unfolding remove_session
remove_session-Progresses id = record {
  at = λ db c k r found.
      rw
        (
          find_key-update_where execution_key k (λ q. is_of id q.session_id) without_session
              db.executions (λ q. refl),
          found,
        )
        (relabelled r (is_of id r.session_id));
}
  where
    relabelled : (r : ExecutionRow) (b : Bool) → Advances r (if b then without_session r else r)
    relabelled r false = Advances-refl r
    relabelled r true =
        let a = Advances-refl r in
        record {
          same_id = a.same_id;
          same_command = a.same_command;
          same_created_at = a.same_created_at;
          last_seq = a.last_seq;
          captured = a.captured;
          same_state = a.same_state;
          same_outcome = a.same_outcome;
          same_end = a.same_end;
          same_start = a.same_start;
        }

deletes_or_not :
    (id : String) (db : Db)
    → ((delete_agent_session id db).1 ≡ (remove_session id db).1)
      ⊎ ((delete_agent_session id db).1 ≡ db)
unfolding delete_agent_session
deletes_or_not id db = elim (Option-cases (find_session id db)) [
  | inl missing ↦ inr (rw missing refl)
  | inr (s, found) ↦ elim (Bool-cases (Session.is_terminal s.state)) [
    | inl over ↦ inl (rw (found, over) refl)
    | inr going ↦ inr (rw (found, going) refl)
  ]
]

delete_agent_session-Progresses : (id : String) → Progresses (delete_agent_session id)
delete_agent_session-Progresses id = record { at = at }
  where
    at :
        (db : Db)
        → IsConsistent db
        → (k : String) (r : ExecutionRow) → find_execution k db ≡ some r
        → IsSuccessor r (find_execution k (delete_agent_session id db).1)
    at db c k r found = elim (deletes_or_not id db) [
      | inl removed ↦ rw removed ((remove_session-Progresses id).at db c k r found)
      | inr same ↦ rw (same, found) (Advances-refl r)
    ]

execute-Progresses : (h : Host) (i : Inputs) (c : StoreCommand) → Progresses (execute h i c)
unfolding execute
execute-Progresses h i (add_workspace_command name root) =
    answer-Progresses _ _ (Frames-Progresses _ (add_workspace-Frames h.fs i.now i.id name root))
execute-Progresses h i (remove_workspace_command identifier) =
    answer-Progresses _ _ (Frames-Progresses _ (remove_workspace-Frames identifier))
execute-Progresses h i (get_workspace_command identifier) =
    answer-Progresses _ _ (Frames-Progresses _ (get_workspace-Frames identifier))
execute-Progresses h i (find_workspace_command root) =
    answer-Progresses _ _ (Frames-Progresses _ (find_workspace_by_root-Frames h.fs root))
execute-Progresses h i list_workspaces_command =
    answer-Progresses _ _ (Frames-Progresses _ list_workspaces-Frames)
execute-Progresses h i (create_execution_command request cwd) =
    answer-Progresses _ _
      (Advancing-Progresses _ (create_execution-Advancing h.b64 i.now i.id request cwd))
execute-Progresses h i (mark_running_command id pid pgid) =
    answer-Progresses _ _ (Advancing-Progresses _ (mark_running-Advancing i.now id pid pgid))
execute-Progresses h i (append_capture_command records) =
    answer-Progresses _ _ (Advancing-Progresses _ (append_capture_batch-Advancing h.b64 records))
execute-Progresses h i (finish_command id state outcome) =
    answer-Progresses _ _ (Advancing-Progresses _ (finish-Advancing i.now id state outcome))
execute-Progresses h i (get_execution_command id) =
    answer-Progresses _ _ (Advancing-Progresses _ (get_execution-Advancing i.now id))
execute-Progresses h i (list_executions_command w limit) =
    answer-Progresses _ _ (Frames-Progresses _ (list_executions-Frames i.now w limit))
execute-Progresses h i (execution_stats_command w since_ms until_ms) =
    answer-Progresses _ _ (Frames-Progresses _ (execution_stats-Frames w since_ms until_ms))
execute-Progresses h i (create_session_command request) =
    answer-Progresses _ _
      (Frames-Progresses _ (create_agent_session-Frames h.fs h.parse_path i.now request))
execute-Progresses h i (finish_session_command id finish) =
    answer-Progresses _ _ (Frames-Progresses _ (finish_agent_session-Frames i.now id finish))
execute-Progresses h i (get_session_command id) =
    answer-Progresses _ _ (Frames-Progresses _ (get_agent_session-Frames i.now id))
execute-Progresses h i (list_sessions_command w limit) =
    answer-Progresses _ _ (Frames-Progresses _ (list_agent_sessions-Frames w limit))
execute-Progresses h i (delete_session_command id) =
    answer-Progresses _ _ (delete_agent_session-Progresses id)
execute-Progresses h i (record_event_command request) =
    answer-Progresses _ _
      (Frames-Progresses _ (record_agent_event-Frames i.now i.id i.other_id request))
execute-Progresses h i active_sessions_command =
    answer-Progresses _ _ (Frames-Progresses _ active_agent_sessions-Frames)
execute-Progresses h i (read_output_command id after_seq max_bytes) =
    answer-Progresses _ _
      (Frames-Progresses _ (read_output-Frames h.b64 i.now id after_seq max_bytes))
execute-Progresses h i reconcile_command =
    answer-Progresses _ _ (Advancing-Progresses _ (reconcile_incomplete-Advancing i.now))
execute-Progresses h i cancel_queued_command =
    answer-Progresses _ _ (Advancing-Progresses _ (cancel_queued-Advancing i.now))
execute-Progresses h i (prune_command days bytes) =
    answer-Progresses _ _ (prune-Progresses i.now days bytes)

-- After any command on a consistent database, an execution that was there is still there, or it was
-- terminal. If it is there, its id, command and time of creation are the same, the number of its last
-- event and the size of its captured output are no smaller, and if it was terminal its state,
-- outcome and times of start and end are the same too.
pub execute-IsSuccessor :
    (h : Host) (i : Inputs) (c : StoreCommand) (db : Db)
    → IsConsistent db
    → (id : String) (r : ExecutionRow) → find_execution id db ≡ some r
    → IsSuccessor r (find_execution id (execute h i c db).1)
execute-IsSuccessor h i c db = (execute-Progresses h i c).at db
