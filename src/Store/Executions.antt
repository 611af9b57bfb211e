-- ===== src/Store/Executions.antt =====
-- The operations of `Database` on executions: src/store.rs, `create_execution` to `get_execution`,
-- `reconcile_incomplete` and `cancel_queued`. `now` is the value of `now_ms()`, `id` that of
-- `new_id()`.
pub mod Batch
pub mod Outcomes
pub mod Captures
pub mod Consistency
pub mod Advances
use loomterm.Prelude.{
  ℕ, ◌+◌, ℤ, String, ◌≡◌, refl, Bool, true, false, not, ◌&&◌, ◌||◌, Option, none, some, List, [],
  ◌∷◌, ◌++◌, ◌<>◌, ◌==◌, if◌then◌else◌, select, is_some, length,
}
use loomterm.Result.{
  Result, ok, err, Error, database, execution_not_found, agent_session_not_found, already_terminal,
  invalid_request, reject_if,
}
use loomterm.Result.Run.{Action, or_not_found, pure, raise, lift, transaction, ◌>>=◌, ◌>>◌}
use loomterm.Model.Execution.{
  Base64, Execution, ExecutionState, ExecutionOutcome, was_cancelled, was_interrupted, queued,
  running, finished, cancelled, interrupted, is_terminal, ExecutionRequest, validate,
  ExecutionEvent, started, finished_with, env_keys,
}
use loomterm.Model.Session.{AgentSessionState, recording}
use loomterm.Store.Tables.{
  Db, ExecutionRow, SessionRow, EventRow, started_json, outcome_json, find_execution, find_session,
  update_execution, insert_event, find_workspace, session_exists,
}
use loomterm.Store.Rows.{execution_from_row}

-- `SELECT … FROM executions WHERE id = ?1`, and `ExecutionNotFound`.
abbrev pub execution_row : String → Action Db ExecutionRow
execution_row id db = or_not_found (execution_not_found id) (find_execution id db) db

abbrev pub get_agent_session_record : String → Action Db SessionRow
get_agent_session_record id db = or_not_found (agent_session_not_found id) (find_session id db) db

unfoldable pub get_execution : ℕ → String → Action Db Execution
get_execution now id = do row ← execution_row id; pure (execution_from_row now row)

unfoldable pub next_seq : String → Action Db ℕ
next_seq id = do row ← execution_row id; pure (row.last_seq + 1)

abbrev pub write_execution : String → (ExecutionRow → ExecutionRow) → Action Db (Unit {0})
write_execution id f db = (ok tt, update_execution id f db)

abbrev is_queued : ExecutionState → Bool
is_queued queued = true
is_queued _ = false

abbrev is_running : ExecutionState → Bool
is_running running = true
is_running _ = false

abbrev is_recording : AgentSessionState → Bool
is_recording recording = true
is_recording _ = false

unfoldable pub mark_running : ℕ → String → ℕ → ℤ → Action Db ExecutionEvent
mark_running timestamp id pid pgid = transaction do
  row ← execution_row id
  lift (reject_if (not (is_queued row.state)) (already_terminal id))
  seq ← next_seq id
  insert_event (record {
    execution_id = id;
    seq = seq;
    timestamp_ms = timestamp;
    kind = "started";
    stream = none;
    blob = none;
    payload_json = some (started_json pid pgid);
  })
  write_execution id λ r. record r {
    state = running;
    started_at_ms = some timestamp;
    pid = some pid;
    pgid = some pgid;
    last_seq = seq;
  }
  pure (record {
    execution_id = id;
    seq = seq;
    timestamp_ms = timestamp;
    payload = started pid pgid;
  })

unfoldable pub finish : ℕ → String → ExecutionState → ExecutionOutcome → Action Db ExecutionEvent
finish timestamp id state outcome = transaction do
  row ← execution_row id
  lift (reject_if (is_terminal row.state) (already_terminal id))
  seq ← next_seq id
  insert_event (record {
    execution_id = id;
    seq = seq;
    timestamp_ms = timestamp;
    kind = "finished";
    stream = none;
    blob = none;
    payload_json = some (outcome_json outcome);
  })
  write_execution id λ r. record r {
    state = state;
    ended_at_ms = some timestamp;
    outcome_json = some outcome;
    last_seq = seq;
  }
  pure (record {
    execution_id = id;
    seq = seq;
    timestamp_ms = timestamp;
    payload = finished_with outcome;
  })

-- INSERT INTO executions, with its primary key and the references to workspace and session.
pub insert_execution : ExecutionRow → Action Db (Unit {0})
insert_execution row db =
    if is_some (find_execution row.id db)
    then (err (database "UNIQUE constraint failed: executions.id"), db)
    else if is_some (find_workspace row.workspace_id db) && session_exists row.session_id db
    then (ok tt, record db { executions = db.executions ++ row ∷ [] })
    else (err (database "FOREIGN KEY constraint failed"), db)

pub check_session : String → Option String → Action Db (Unit {0})
check_session workspace_id none = pure tt
check_session workspace_id (some session_id) = do
  session ← get_agent_session_record session_id
  lift (
      reject_if (not (session.workspace_id == workspace_id))
        (invalid_request ("agent session " <> session_id <> " belongs to a different workspace")))
  lift (
      reject_if (not (is_recording session.state))
        (invalid_request ("agent session " <> session_id <> " is no longer recording")))

pub new_row : ℕ → String → ExecutionRequest → String → ExecutionRow
new_row now id request cwd = record {
  id = id;
  workspace_id = request.workspace_id;
  state = queued;
  command_json = request.command;
  cwd = cwd;
  env_keys_json = env_keys request.env;
  initiator_json = request.initiator;
  created_at_ms = now;
  started_at_ms = none;
  ended_at_ms = none;
  pid = none;
  pgid = none;
  outcome_json = none;
  captured_bytes = 0;
  output_truncated = false;
  last_seq = 0;
  session_id = request.initiator.session_id;
}

-- The clock is read again by `get_execution`, which uses it only for a started execution.
unfoldable pub create_execution :
    Base64 → ℕ → String → ExecutionRequest → String → Action Db Execution
unfolding insert_execution check_session new_row get_execution
create_execution b64 now id request cwd = do
  lift (validate b64 request)
  check_session request.workspace_id request.initiator.session_id
  insert_execution (new_row now id request cwd)
  get_execution now id

-- Each id of the list, one `finish` after another; an error ends the loop.
pub finish_all :
    ℕ → ExecutionState → ExecutionOutcome → List ExecutionRow → Action Db (List ExecutionEvent)
finish_all now state outcome [] = pure []
finish_all now state outcome (row ∷ rows) = do
  event ← finish now row.id state outcome
  events ← finish_all now state outcome rows
  pure (event ∷ events)

abbrev pub is_incomplete : ExecutionRow → Bool
is_incomplete row = is_queued row.state || is_running row.state

unfoldable pub reconcile_incomplete : ℕ → Action Db ℕ
unfolding finish_all
reconcile_incomplete now db =
    (finish_all now interrupted (was_interrupted "daemon restarted before the execution completed")
          (select is_incomplete db.executions)
        >>= λ events. pure (length events))
      db

unfoldable pub cancel_queued : ℕ → Action Db (List ExecutionEvent)
unfolding finish_all
cancel_queued now db =
    finish_all now cancelled (was_cancelled none)
      (select (λ row. is_queued row.state) db.executions) db
