-- ===== src/Model/Session.antt =====
-- Agent sessions, turns and actions of src/model.rs, with the checks of their requests.
use loomterm.Prelude.{ℕ, String, Bool, true, false, ◌||◌, Option, none, some, List, eqb}
use loomterm.Result.{Result, ok, invalid_request, reject_if}
use loomterm.Result.Try.{◌>>◌}
use loomterm.Model.Text.{str_is_empty, is_blank}
use loomterm.Model.Command
use loomterm.Model.Command.{CommandSpec}
use loomterm.Model.Execution.{Execution, ExecutionOutcome}

pub data AgentSessionState : Type 0 where
  recording finished interrupted : AgentSessionState

abbrev pub is_terminal : AgentSessionState → Bool
is_terminal recording = false
is_terminal finished = true
is_terminal interrupted = true

pub record AgentSession : Type 0 where
  pub id : String
  pub workspace_id : String
  pub state : AgentSessionState
  pub agent_kind : String
  pub name : Option String
  pub command : CommandSpec
  pub command_display : String
  pub cwd : String
  pub created_at_ms : ℕ
  pub ended_at_ms : Option ℕ
  pub duration_ms : Option ℕ
  pub recorder_pid : ℕ
  pub outcome : Option ExecutionOutcome
  pub captured_bytes : ℕ
  pub output_truncated : Bool
  pub initial_cols : ℕ
  pub initial_rows : ℕ
  pub cast_path : String
  pub html_path : String

pub record AgentSessionRequest : Type 0 where
  pub id : String
  pub workspace_id : String
  pub agent_kind : String
  pub name : Option String
  pub command : CommandSpec
  pub cwd : String
  pub recorder_pid : ℕ
  pub initial_cols : ℕ
  pub initial_rows : ℕ
  pub cast_path : String
  pub html_path : String

unfoldable pub validate_session : AgentSessionRequest → Result (Unit {0})
validate_session request = do
  reject_if
      (str_is_empty request.id || str_is_empty request.workspace_id || is_blank request.agent_kind)
      (invalid_request "id, workspace_id, and agent_kind must not be empty")
  reject_if (eqb request.initial_cols 0 || eqb request.initial_rows 0)
      (invalid_request "terminal dimensions must be greater than zero")
  Command.validate request.command

pub record AgentSessionFinish : Type 0 where
  pub state : AgentSessionState
  pub outcome : ExecutionOutcome
  pub captured_bytes : ℕ
  pub output_truncated : Bool

pub data AgentTurnState : Type 0 where
  active completed failed turn_interrupted : AgentTurnState

pub record AgentTurn : Type 0 where
  pub id : String
  pub session_id : String
  pub provider : String
  pub provider_session_id : String
  pub provider_turn_id : Option String
  pub state : AgentTurnState
  pub prompt : String
  pub created_at_ms : ℕ
  pub ended_at_ms : Option ℕ
  pub last_assistant_message : Option String

pub data AgentActionState : Type 0 where
  action_running action_completed action_failed : AgentActionState

pub record AgentAction : Type 0 where
  pub id : String
  pub turn_id : String
  pub provider_action_id : String
  pub tool_name : String
  pub state : AgentActionState
  pub execution_id : Option String
  pub created_at_ms : ℕ
  pub ended_at_ms : Option ℕ

pub record AgentSessionDetail : Type 0 where
  pub session : AgentSession
  pub executions : List Execution
  pub turns : List AgentTurn
  pub actions : List AgentAction

pub data AgentEvent : Type 0 where
  prompt_submitted : String → AgentEvent
  tool_started : String → String → AgentEvent
  tool_finished : String → String → Bool → Option String → AgentEvent
  turn_finished : Bool → Option String → AgentEvent

pub record AgentEventRequest : Type 0 where
  pub session_id : String
  pub provider : String
  pub provider_session_id : String
  pub provider_turn_id : Option String
  pub event : AgentEvent

abbrev some_blank : Option String → Bool
some_blank none = false
some_blank (some value) = is_blank value

validate_event : AgentEvent → Result (Unit {0})
validate_event (prompt_submitted prompt) =
    reject_if (str_is_empty prompt) (invalid_request "agent prompt must not be empty")
validate_event (tool_started action_id tool_name) =
    reject_if (is_blank action_id || is_blank tool_name)
      (invalid_request "action_id and tool_name must not be empty")
validate_event (tool_finished action_id tool_name has_failed execution_id) =
    reject_if (is_blank action_id || is_blank tool_name)
      (invalid_request "action_id and tool_name must not be empty")
validate_event (turn_finished has_failed last_assistant_message) = ok tt

unfoldable pub validate_event_request : AgentEventRequest → Result (Unit {0})
unfolding validate_event
validate_event_request request = do
  reject_if
      (is_blank request.session_id
        || is_blank request.provider
        || is_blank request.provider_session_id)
      (invalid_request "session_id, provider, and provider_session_id must not be empty")
  reject_if (some_blank request.provider_turn_id)
      (invalid_request "provider_turn_id must not be empty when present")
  validate_event request.event
