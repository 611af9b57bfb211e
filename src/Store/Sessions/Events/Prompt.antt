-- ===== src/Store/Sessions/Events/Prompt.antt =====
-- A submitted prompt of `record_agent_event` in src/store.rs.
use loomterm.Prelude.{
  ℕ, String, Bool, false, not, ◌==◌, append-nil, ◌≡◌, refl, sym, ◌∙◌, ap, true, ◌&&◌, inl, inr,
  none, some, List, [], ◌∷◌, ◌++◌, arith, eq_refl, Option-cases, select, select-append, select_one,
  update_where, find_key, find_key-append,
}
use loomterm.Result.{ok}
use loomterm.Model.Session.{
  AgentTurn, AgentTurnState, active, completed, failed, turn_interrupted, AgentEventRequest,
}
use loomterm.Store.Tables.{Db}
use loomterm.Store.Sessions.{is_active_turn}
use loomterm.Store.Sessions.Turns.{
  turn_key, find_provider_turn, get_agent_turn, insert_turn, insert_agent_turn, new_turn,
}
use loomterm.Store.Sessions.Events.{ends_with_prompt, open_turn, submit_prompt}

-- Whether the turn is of the session that the provider names in the agent session.
abbrev pub is_ours : AgentEventRequest → AgentTurn → Bool
is_ours request t =
    t.session_id == request.session_id
    && t.provider == request.provider
    && t.provider_session_id == request.provider_session_id

abbrev pub is_going : AgentTurnState → Bool
is_going active = true
is_going completed = false
is_going failed = false
is_going turn_interrupted = false

abbrev pub active_turns : AgentEventRequest → Db → List AgentTurn
active_turns request db = select (λ t. is_ours request t && is_going t.state) db.agent_turns

-- The turns of the other sessions.
abbrev pub other_turns : AgentEventRequest → Db → List AgentTurn
other_turns request db = select (λ t. not (is_ours request t)) db.agent_turns

abbrev interrupted_turns : ℕ → AgentEventRequest → List AgentTurn → List AgentTurn
interrupted_turns now request turns =
    update_where (λ t. ends_with_prompt request t && is_active_turn t.state)
      (λ t. record t { state = turn_interrupted; ended_at_ms = some now }) turns

none_active :
    (now : ℕ) (request : AgentEventRequest) (turns : List AgentTurn)
    → request.provider_turn_id ≡ none
    → select (λ t. is_ours request t && is_going t.state) (interrupted_turns now request turns) ≡ []
unfolding select update_where
none_active now request [] h = refl
none_active now request (t ∷ turns) h = ground (arith, none_active now request turns h, h)

others_kept :
    (now : ℕ) (request : AgentEventRequest) (turns : List AgentTurn)
    → select (λ t. not (is_ours request t)) (interrupted_turns now request turns)
      ≡ select (λ t. not (is_ours request t)) turns
unfolding select update_where
others_kept now request [] = refl
others_kept now request (t ∷ turns) = ground (arith, others_kept now request turns)

is_ours-new_turn :
    (id : String) (request : AgentEventRequest) (prompt : String) (now : ℕ)
    → is_ours request (new_turn id request prompt now) ≡ true
is_ours-new_turn id request prompt now =
    rw (eq_refl request.session_id, eq_refl request.provider, eq_refl request.provider_session_id)
      refl

-- What the insertion of a turn leaves, if it succeeds.
insert_agent_turn_ok :
    (id : String) (request : AgentEventRequest) (prompt : String) (now : ℕ) (db : Db)
    (turn : AgentTurn) (after : Db)
    → insert_agent_turn id request prompt now db ≡ (ok turn, after)
    → (after.agent_turns ≡ db.agent_turns ++ new_turn id request prompt now ∷ [])
      × (turn ≡ new_turn id request prompt now)
unfolding insert_agent_turn insert_turn get_agent_turn
insert_agent_turn_ok id request prompt now db turn after ran =
    elim (Option-cases (find_key turn_key id db.agent_turns)) [
      | inr (t, taken) ↦ absurd (ground (arith, ran, taken))
      | inl free ↦
          let there : find_key turn_key id (db.agent_turns ++ new_turn id request prompt now ∷ [])
              ≡ some (new_turn id request prompt now) =
            find_key-append turn_key id db.agent_turns (new_turn id request prompt now)
            ∙ rw (free, eq_refl id) refl in
          (ground (arith, ran, free, there), ground (arith, ran, free, there))
    ]

open_turn_new :
    (now : ℕ) (id : String) (request : AgentEventRequest) (prompt : String) (db : Db)
    → request.provider_turn_id ≡ none
    → open_turn now id request prompt db ≡ insert_agent_turn id request prompt now db
unfolding open_turn find_provider_turn
open_turn_new now id request prompt db h =
    let no_turn : find_provider_turn request request.provider_turn_id db ≡ none =
      ap (λ o. find_provider_turn request o db) h ∙ no_turn_id request db in
    rw (no_turn, open_turn) refl
  where
    no_turn_id : (request : AgentEventRequest) (db : Db) → find_provider_turn request none db ≡ none
    no_turn_id request db = refl

-- When a prompt that names no turn of the provider is accepted, the turn that is returned, with
-- that prompt, is the only active one of those turns of the agent session that are of the request's
-- provider and of its session with the provider; the other turns stay as they are.
pub submit_prompt_one_active :
    (now : ℕ) (id : String) (request : AgentEventRequest) (prompt : String) (db : Db)
    (turn : AgentTurn) (after : Db)
    → request.provider_turn_id ≡ none
    → submit_prompt now id request prompt db ≡ (ok turn, after)
    → (active_turns request after ≡ turn ∷ [])
      × (other_turns request after ≡ other_turns request db)
      × (turn.prompt ≡ prompt)
unfolding submit_prompt
submit_prompt_one_active now id request prompt db turn after h ran =
    let before = record db { agent_turns = interrupted_turns now request db.agent_turns } in
    let inserted : insert_agent_turn id request prompt now before ≡ (ok turn, after) =
      sym (open_turn_new now id request prompt before h) ∙ ran in
    let (turns, same) = insert_agent_turn_ok id request prompt now before turn after inserted in
    (
      rw
          (
            turns,
            select-append,
            none_active now request db.agent_turns h,
            select_one,
            is_ours-new_turn id request prompt now,
          )
          (ap (λ t. t ∷ []) (sym same)),
      rw
          (
            turns,
            select-append,
            others_kept now request db.agent_turns,
            select_one,
            is_ours-new_turn id request prompt now,
          )
          (append-nil (select (λ t. not (is_ours request t)) db.agent_turns)),
      ap (λ t. t.prompt) same,
    )
