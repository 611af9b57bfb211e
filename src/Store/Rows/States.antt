-- ===== src/Store/Rows/States.antt =====
-- The texts that states are stored as, `as_str` of src/model.rs, and the parsers of src/store.rs.
use loomterm.Prelude.{String, ◌≡◌, refl, arith, eq_iff}
use loomterm.Result.{Result, ok}
use loomterm.Model.Execution.{ExecutionState, queued, running, finished, cancelled, interrupted}
use loomterm.Model.Session
use loomterm.Model.Session.{
  AgentSessionState, AgentTurnState, AgentActionState, recording, active, completed, failed,
  turn_interrupted, action_running, action_completed, action_failed,
}
use loomterm.Store.Rows.{
  state_as_str, parse_state, session_state_as_str, parse_agent_session_state, turn_state_as_str,
  parse_agent_turn_state, action_state_as_str, parse_agent_action_state,
}

-- Parsing gives back each state from its text, and accepts no other text for it.
abbrev pub ReadsBack : {S : Type 0} → (S → String) → (String → Result S) → Type 0
ReadsBack {S} as_str parse =
    ((s : S) → parse (as_str s) ≡ ok s) × ((t : String) (s : S) → parse t ≡ ok s → t ≡ as_str s)

parse_state-as_str : ReadsBack state_as_str parse_state
unfolding parse_state
parse_state-as_str = (
  there,
  λ t s h. ground (
    arith,
    eq_iff t "queued",
    eq_iff t "running",
    eq_iff t "finished",
    eq_iff t "cancelled",
    eq_iff t "interrupted",
  ),
)
  where
    there : (s : ExecutionState) → parse_state (state_as_str s) ≡ ok s
    there queued = refl
    there running = refl
    there finished = refl
    there cancelled = refl
    there interrupted = refl

parse_session-as_str : ReadsBack session_state_as_str parse_agent_session_state
unfolding parse_agent_session_state
parse_session-as_str = (
  there,
  λ t s h. ground (arith, eq_iff t "recording", eq_iff t "finished", eq_iff t "interrupted"),
)
  where
    there : (s : AgentSessionState) → parse_agent_session_state (session_state_as_str s) ≡ ok s
    there recording = refl
    there Session.finished = refl
    there Session.interrupted = refl

parse_turn-as_str : ReadsBack turn_state_as_str parse_agent_turn_state
unfolding parse_agent_turn_state
parse_turn-as_str = (
  there,
  λ t s h.
      ground
        (arith, eq_iff t "active", eq_iff t "completed", eq_iff t "failed", eq_iff t "interrupted"),
)
  where
    there : (s : AgentTurnState) → parse_agent_turn_state (turn_state_as_str s) ≡ ok s
    there active = refl
    there completed = refl
    there failed = refl
    there turn_interrupted = refl

parse_action-as_str : ReadsBack action_state_as_str parse_agent_action_state
unfolding parse_agent_action_state
parse_action-as_str =
    (there, λ t s h. ground (arith, eq_iff t "running", eq_iff t "completed", eq_iff t "failed"))
  where
    there : (s : AgentActionState) → parse_agent_action_state (action_state_as_str s) ≡ ok s
    there action_running = refl
    there action_completed = refl
    there action_failed = refl

-- The stored text of a state of an execution, a session, a turn or an action is parsed to that
-- state, and no other text is parsed to it.
pub states_read_back :
    ReadsBack state_as_str parse_state
    × ReadsBack session_state_as_str parse_agent_session_state
    × ReadsBack turn_state_as_str parse_agent_turn_state
    × ReadsBack action_state_as_str parse_agent_action_state
states_read_back =
    (parse_state-as_str, parse_session-as_str, parse_turn-as_str, parse_action-as_str)
