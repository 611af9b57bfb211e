-- ===== src/Store/Rows.antt =====
-- From a row to a value: `execution_from_row`, `event_from_row`, `agent_session_from_row` and the
-- texts of states of src/store.rs.
pub mod States
use loomterm.Prelude.{
  ℕ, ◌-◌, String, ◌≡◌, refl, Bool, true, false, Option, none, some, ◌==◌, ◌<>◌, if◌then◌else◌,
}
use loomterm.Result.{Result, ok, err, database}
use loomterm.Model.Command.{display}
use loomterm.Model.Execution.{
  Bytes, Base64, Execution, ExecutionState, queued, running, OutputStream, stdout, stderr,
  ExecutionEvent, ExecutionEventPayload, started, output, capture_truncated, finished_with,
  no_bytes, finished, cancelled, interrupted,
}
use loomterm.Model.Session
use loomterm.Model.Session.{
  AgentSession, AgentSessionState, AgentTurnState, AgentActionState, recording, active, completed,
  failed, turn_interrupted, action_running, action_completed, action_failed,
}
use loomterm.Store.Tables.{
  ExecutionRow, SessionRow, EventRow, PayloadJson, started_json, truncated_json, outcome_json,
}

abbrev pub state_as_str : ExecutionState → String
state_as_str queued = "queued"
state_as_str running = "running"
state_as_str finished = "finished"
state_as_str cancelled = "cancelled"
state_as_str interrupted = "interrupted"

unfoldable pub parse_state : String → Result ExecutionState
parse_state value =
    if value == "queued"
    then ok queued
    else if value == "running"
    then ok running
    else if value == "finished"
    then ok finished
    else if value == "cancelled"
    then ok cancelled
    else if value == "interrupted"
    then ok interrupted
    else err (database ("unknown execution state " <> value))

abbrev pub session_state_as_str : AgentSessionState → String
session_state_as_str recording = "recording"
session_state_as_str Session.finished = "finished"
session_state_as_str Session.interrupted = "interrupted"

unfoldable pub parse_agent_session_state : String → Result AgentSessionState
parse_agent_session_state value =
    if value == "recording"
    then ok recording
    else if value == "finished"
    then ok Session.finished
    else if value == "interrupted"
    then ok Session.interrupted
    else err (database ("unknown agent session state " <> value))

abbrev pub turn_state_as_str : AgentTurnState → String
turn_state_as_str active = "active"
turn_state_as_str completed = "completed"
turn_state_as_str failed = "failed"
turn_state_as_str turn_interrupted = "interrupted"

unfoldable pub parse_agent_turn_state : String → Result AgentTurnState
parse_agent_turn_state value =
    if value == "active"
    then ok active
    else if value == "completed"
    then ok completed
    else if value == "failed"
    then ok failed
    else if value == "interrupted"
    then ok turn_interrupted
    else err (database ("unknown agent turn state " <> value))

abbrev pub action_state_as_str : AgentActionState → String
action_state_as_str action_running = "running"
action_state_as_str action_completed = "completed"
action_state_as_str action_failed = "failed"

unfoldable pub parse_agent_action_state : String → Result AgentActionState
parse_agent_action_state value =
    if value == "running"
    then ok action_running
    else if value == "completed"
    then ok action_completed
    else if value == "failed"
    then ok action_failed
    else err (database ("unknown agent action state " <> value))

abbrev pub stream_as_str : OutputStream → String
stream_as_str stdout = "stdout"
stream_as_str stderr = "stderr"

-- `started_at_ms.map(|s| ended_at_ms.unwrap_or_else(now_ms).saturating_sub(s).max(0))`
duration : Option ℕ → Option ℕ → ℕ → Option ℕ
duration none ended now = none
duration (some began) none now = some (now - began)
duration (some began) (some ended) now = some (ended - began)

unfoldable pub execution_from_row : ℕ → ExecutionRow → Execution
unfolding duration
execution_from_row now row = record {
  id = row.id;
  workspace_id = row.workspace_id;
  state = row.state;
  command = row.command_json;
  command_display = display row.command_json;
  cwd = row.cwd;
  env_keys = row.env_keys_json;
  initiator = row.initiator_json;
  created_at_ms = row.created_at_ms;
  started_at_ms = row.started_at_ms;
  ended_at_ms = row.ended_at_ms;
  duration_ms = duration row.started_at_ms row.ended_at_ms now;
  pid = row.pid;
  pgid = row.pgid;
  outcome = row.outcome_json;
  captured_bytes = row.captured_bytes;
  output_truncated = row.output_truncated;
  last_seq = row.last_seq;
}

session_duration : Option ℕ → ℕ → Option ℕ
session_duration none created = none
session_duration (some ended) created = some (ended - created)

unfoldable pub agent_session_from_row : SessionRow → AgentSession
unfolding session_duration
agent_session_from_row row = record {
  id = row.id;
  workspace_id = row.workspace_id;
  state = row.state;
  agent_kind = row.agent_kind;
  name = row.name;
  command = row.command_json;
  command_display = display row.command_json;
  cwd = row.cwd;
  created_at_ms = row.created_at_ms;
  ended_at_ms = row.ended_at_ms;
  duration_ms = session_duration row.ended_at_ms row.created_at_ms;
  recorder_pid = row.recorder_pid;
  outcome = row.outcome_json;
  captured_bytes = row.captured_bytes;
  output_truncated = row.output_truncated;
  initial_cols = row.initial_cols;
  initial_rows = row.initial_rows;
  cast_path = row.cast_path;
  html_path = row.html_path;
}

abbrev pub bytes_of : Option Bytes → Bytes
bytes_of none = no_bytes
bytes_of (some bytes) = bytes

parse_stream : Option String → Result OutputStream
parse_stream none = err (database "invalid output stream None")
parse_stream (some value) =
    if value == "stdout"
    then ok stdout
    else if value == "stderr"
    then ok stderr
    else err (database ("invalid output stream Some(\"" <> value <> "\")"))

started_payload : Option PayloadJson → Result ExecutionEventPayload
started_payload (some (started_json pid pgid)) = ok (started pid pgid)
started_payload p = err (database "payload_json")

truncated_payload : Option PayloadJson → Result ExecutionEventPayload
truncated_payload (some (truncated_json limit)) = ok (capture_truncated limit)
truncated_payload p = err (database "payload_json")

finished_payload : Option PayloadJson → Result ExecutionEventPayload
finished_payload (some (outcome_json outcome)) = ok (finished_with outcome)
finished_payload p = err (database "payload_json")

module _ (b64 : Base64) where
  unfoldable pub output_event : String → ℕ → ℕ → OutputStream → Bytes → ExecutionEvent
  output_event id seq timestamp stream bytes = record {
    execution_id = id;
    seq = seq;
    timestamp_ms = timestamp;
    payload = output stream (b64.encode bytes);
  }

  output_payload : EventRow → Result ExecutionEventPayload
  output_payload row = elim (parse_stream row.stream) [
    | ok stream ↦ ok (output stream (b64.encode (bytes_of row.blob)))
    | err e ↦ err e
  ]

  unfoldable pub event_payload : EventRow → Result ExecutionEventPayload
  unfolding output_payload parse_stream started_payload truncated_payload finished_payload
  event_payload row =
      if row.kind == "started"
      then started_payload row.payload_json
      else if row.kind == "output"
      then output_payload row
      else if row.kind == "capture_truncated"
      then truncated_payload row.payload_json
      else if row.kind == "finished"
      then finished_payload row.payload_json
      else err (database ("unknown event kind " <> row.kind))

  unfoldable pub event_from_row : String → EventRow → Result ExecutionEvent
  unfolding event_payload
  event_from_row id row = elim (event_payload row) [
    | ok payload ↦ ok (record {
      execution_id = id;
      seq = row.seq;
      timestamp_ms = row.timestamp_ms;
      payload = payload;
    })
    | err e ↦ err e
  ]
