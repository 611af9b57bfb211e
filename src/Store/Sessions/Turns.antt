-- ===== src/Store/Sessions/Turns.antt =====
-- Turns of a session: `find_provider_turn` to `get_agent_turn` of src/store.rs.
use loomterm.Prelude.{
  ℕ, String, Bool, true, false, ◌&&◌, Option, none, some, [], ◌∷◌, ◌++◌, ◌<>◌, ◌==◌, leb,
  if◌then◌else◌, select, select_first, order_by, find_key, is_some,
}
use loomterm.Result.{ok, err, invalid_request, database}
use loomterm.Result.Run.{Action, or_not_found, ◌>>◌}
use loomterm.Model.Session.{AgentTurn, active, AgentEventRequest}
use loomterm.Store.Tables.{Db, find_session}
use loomterm.Store.Sessions.{is_active_turn}

abbrev pub turn_key : AgentTurn → String
turn_key t = t.id

abbrev pub has_turn_id : String → Option String → Bool
has_turn_id k none = false
has_turn_id k (some j) = j == k

-- WHERE session_id = ?1 AND provider = ?2 AND provider_session_id = ?3
abbrev pub is_turn_of : AgentEventRequest → AgentTurn → Bool
is_turn_of request t =
    t.session_id == request.session_id
    && t.provider == request.provider
    && t.provider_session_id == request.provider_session_id

unfoldable pub find_provider_turn : AgentEventRequest → Option String → Db → Option AgentTurn
find_provider_turn request none db = none
find_provider_turn request (some id) db =
    select_first (λ t. is_turn_of request t && has_turn_id id t.provider_turn_id) db.agent_turns

-- ORDER BY created_at_ms DESC LIMIT 1
unfoldable pub find_active_turn : AgentEventRequest → Db → Option AgentTurn
find_active_turn request db =
    select_first (λ t. true)
      (order_by (λ a b. leb b.created_at_ms a.created_at_ms)
        (select (λ t. is_turn_of request t && is_active_turn t.state) db.agent_turns))

unfoldable pub get_agent_turn : String → Action Db AgentTurn
get_agent_turn id db =
    or_not_found (invalid_request ("agent turn not found: " <> id))
      (find_key turn_key id db.agent_turns) db

-- INSERT INTO agent_turns, with its primary key, the reference to its session and the index
-- `agent_turns_provider_turn`.
unfoldable pub insert_turn : AgentTurn → AgentEventRequest → Action Db (Unit {0})
insert_turn turn request db =
    if is_some (find_key turn_key turn.id db.agent_turns)
    then (err (database "UNIQUE constraint failed: agent_turns.id"), db)
    else if is_some (find_provider_turn request request.provider_turn_id db)
    then (err (database "UNIQUE constraint failed: agent_turns_provider_turn"), db)
    else if is_some (find_session turn.session_id db)
    then (ok tt, record db { agent_turns = db.agent_turns ++ turn ∷ [] })
    else (err (database "FOREIGN KEY constraint failed"), db)

abbrev pub new_turn : String → AgentEventRequest → String → ℕ → AgentTurn
new_turn id request prompt created_at_ms = record {
  id = id;
  session_id = request.session_id;
  provider = request.provider;
  provider_session_id = request.provider_session_id;
  provider_turn_id = request.provider_turn_id;
  state = active;
  prompt = prompt;
  created_at_ms = created_at_ms;
  ended_at_ms = none;
  last_assistant_message = none;
}

unfoldable pub insert_agent_turn : String → AgentEventRequest → String → ℕ → Action Db AgentTurn
unfolding insert_turn get_agent_turn
insert_agent_turn id request prompt created_at_ms = do
  insert_turn (new_turn id request prompt created_at_ms) request
  get_agent_turn id

existing_turn : AgentEventRequest → Db → Option AgentTurn
existing_turn request db =
    if is_some request.provider_turn_id
    then find_provider_turn request request.provider_turn_id db
    else find_active_turn request db

unfoldable pub find_or_create_agent_turn : String → AgentEventRequest → ℕ → Action Db AgentTurn
unfolding existing_turn insert_agent_turn
find_or_create_agent_turn id request created_at_ms db = elim (existing_turn request db) [
  | some turn ↦ (ok turn, db)
  | none ↦ insert_agent_turn id request "" created_at_ms db
]
