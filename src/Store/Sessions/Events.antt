-- ===== src/Store/Sessions/Events.antt =====
-- `record_agent_event` of src/store.rs: what a lifecycle hook of an agent does to turns and actions.
-- `turn_id` and `action_row` are the values of `new_id()`.
pub mod Prompt
use loomterm.Prelude.{
  ℕ, String, Bool, true, not, ◌&&◌, Option, none, some, [], ◌∷◌, ◌++◌, ◌<>◌, ◌==◌, if◌then◌else◌,
  select_first, update_where, find_key, has_key, is_some,
}
use loomterm.Result.{ok, err, invalid_request, database, reject_if}
use loomterm.Result.Run.{Action, pure, lift, ◌>>=◌, ◌>>◌}
use loomterm.Model.Session.{
  AgentTurn, AgentTurnState, active, completed, failed, AgentAction, AgentActionState,
  action_running, action_completed, action_failed, AgentEvent, prompt_submitted, tool_started,
  tool_finished, turn_finished, AgentEventRequest, validate_event_request,
}
use loomterm.Store.Tables.{Db, SessionRow, find_execution}
use loomterm.Store.Executions.{get_agent_session_record}
use loomterm.Store.Sessions.{is_recording, interrupt_turns}
use loomterm.Store.Sessions.Turns.{
  turn_key, is_turn_of, find_provider_turn, get_agent_turn, insert_agent_turn,
  find_or_create_agent_turn,
}

-- UPDATE agent_turns SET … WHERE id = ?1
abbrev pub update_turn : String → (AgentTurn → AgentTurn) → Action Db (Unit {0})
update_turn id f db =
    (ok tt, record db { agent_turns = update_where (has_key turn_key id) f db.agent_turns })

abbrev pub action_key : AgentAction → String
action_key a = a.id

is_action : String → String → AgentAction → Bool
is_action turn_id provider_action_id a =
    a.turn_id == turn_id && a.provider_action_id == provider_action_id

-- INSERT INTO agent_actions … ON CONFLICT(turn_id, provider_action_id) DO UPDATE
unfoldable pub upsert_action : AgentAction → (AgentAction → AgentAction) → Action Db (Unit {0})
unfolding is_action
upsert_action row f db =
    if is_some (select_first (is_action row.turn_id row.provider_action_id) db.agent_actions)
    then (
      ok tt,
      record db {
        agent_actions =
            update_where (is_action row.turn_id row.provider_action_id) f db.agent_actions;
      },
    )
    else if is_some (find_key action_key row.id db.agent_actions)
    then (err (database "UNIQUE constraint failed: agent_actions.id"), db)
    else if is_some (find_key turn_key row.turn_id db.agent_turns)
    then (ok tt, record db { agent_actions = db.agent_actions ++ row ∷ [] })
    else (err (database "FOREIGN KEY constraint failed"), db)

-- ?5 IS NULL OR provider_turn_id IS NULL OR provider_turn_id <> ?5
abbrev pub is_other_turn : Option String → Option String → Bool
is_other_turn none mine = true
is_other_turn (some given) none = true
is_other_turn (some given) (some mine) = not (mine == given)

-- Whether the prompt ends the turn, if it is active.
abbrev pub ends_with_prompt : AgentEventRequest → AgentTurn → Bool
ends_with_prompt request t =
    is_turn_of request t && is_other_turn request.provider_turn_id t.provider_turn_id

abbrev pub reopened : String → AgentTurn → AgentTurn
reopened prompt t = record t {
  state = active;
  prompt = prompt;
  ended_at_ms = none;
  last_assistant_message = none;
}

unfoldable pub open_turn : ℕ → String → AgentEventRequest → String → Action Db AgentTurn
open_turn now turn_id request prompt db =
    elim (find_provider_turn request request.provider_turn_id db) [
      | some turn ↦ (update_turn turn.id (reopened prompt) >> get_agent_turn turn.id) db
      | none ↦ insert_agent_turn turn_id request prompt now db
    ]

unfoldable pub submit_prompt : ℕ → String → AgentEventRequest → String → Action Db AgentTurn
unfolding open_turn
submit_prompt now turn_id request prompt = do
  interrupt_turns now (ends_with_prompt request)
  open_turn now turn_id request prompt

-- Only an execution of the session's workspace is linked.
linked : String → Option String → Db → Option String
linked workspace_id none db = none
linked workspace_id (some id) db = elim (find_execution id db) [
  | none ↦ none
  | some row ↦ if row.workspace_id == workspace_id then some id else none
]

-- COALESCE(excluded.execution_id, agent_actions.execution_id)
abbrev coalesce : Option String → Option String → Option String
coalesce none old = old
coalesce (some id) old = some id

abbrev turn_outcome : Bool → AgentTurnState
turn_outcome has_failed = if has_failed then failed else completed

abbrev action_outcome : Bool → AgentActionState
action_outcome has_failed = if has_failed then action_failed else action_completed

unfoldable pub apply_event :
    ℕ → String → String → SessionRow → AgentEventRequest → AgentEvent → Action Db AgentTurn
unfolding submit_prompt upsert_action linked
apply_event now turn_id action_row session request (prompt_submitted prompt) =
    submit_prompt now turn_id request prompt
apply_event now turn_id action_row session request (tool_started action_id tool_name) = do
  turn ← find_or_create_agent_turn turn_id request now
  upsert_action
      (record {
        id = action_row;
        turn_id = turn.id;
        provider_action_id = action_id;
        tool_name = tool_name;
        state = action_running;
        execution_id = none;
        created_at_ms = now;
        ended_at_ms = none;
      })
      (λ a. record a { tool_name = tool_name; state = action_running; ended_at_ms = none })
  pure turn
apply_event now turn_id action_row session request
      (tool_finished action_id tool_name has_failed execution_id) =
    do
      turn ← find_or_create_agent_turn turn_id request now
      link ← (λ db. (ok (linked session.workspace_id execution_id db), db))
      upsert_action
          (record {
            id = action_row;
            turn_id = turn.id;
            provider_action_id = action_id;
            tool_name = tool_name;
            state = action_outcome has_failed;
            execution_id = link;
            created_at_ms = now;
            ended_at_ms = some now;
          })
          (λ a. record a {
            tool_name = tool_name;
            state = action_outcome has_failed;
            execution_id = coalesce link a.execution_id;
            ended_at_ms = some now;
          })
      pure turn
apply_event now turn_id action_row session request (turn_finished has_failed message) = do
  turn ← find_or_create_agent_turn turn_id request now
  update_turn turn.id λ t. record t {
    state = turn_outcome has_failed;
    ended_at_ms = some now;
    last_assistant_message = message;
  }
  get_agent_turn turn.id

unfoldable pub record_agent_event : ℕ → String → String → AgentEventRequest → Action Db AgentTurn
unfolding apply_event
record_agent_event now turn_id action_row request = do
  lift (validate_event_request request)
  session ← get_agent_session_record request.session_id
  lift (
      reject_if (not (is_recording session.state))
        (invalid_request ("agent session " <> request.session_id <> " is no longer recording")))
  apply_event now turn_id action_row session request request.event
