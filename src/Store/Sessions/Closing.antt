-- ===== src/Store/Sessions/Closing.antt =====
-- `finish_agent_session` of src/store.rs, called again.
use loomterm.Prelude.{
  ℕ, String, ◌≡◌, refl, ◌∙◌, ap, true, inl, inr, none, some, arith, Bool-cases, Option-cases,
  find_key-update, eq_refl, update_where, find_key, has_key,
}
use loomterm.Result.{ok, err, agent_session_not_found}
use loomterm.Model.Session.{AgentSession, AgentSessionFinish, is_terminal}
use loomterm.Store.Tables.{Db, SessionRow, session_key, find_session}
use loomterm.Store.Rows.{agent_session_from_row}
use loomterm.Store.Sessions.{read_session, close_session, finish_agent_session}

read_session_found :
    (id : String) (s : SessionRow) (db : Db)
    → find_session id db ≡ some s
    → read_session id db ≡ (ok (agent_session_from_row s), db)
unfolding read_session
read_session_found id s db h = rw h refl

-- A session that is over is returned as it is.
finished_already :
    (now : ℕ) (id : String) (finish : AgentSessionFinish) (s : SessionRow) (db : Db)
    (a : AgentSession) (before after : Db) (earlier : ℕ)
    → find_session id db ≡ some s
    → is_terminal s.state ≡ true
    → finish_agent_session earlier id finish before ≡ (ok a, after)
    → finish_agent_session now id finish db ≡ (ok (agent_session_from_row s), db)
unfolding finish_agent_session agent_session_from_row
finished_already now id finish s db a before after earlier h t ran =
    ground (arith, read_session_found id s db h, t)

read_session_missing :
    (id : String) (db : Db)
    → find_session id db ≡ none
    → read_session id db ≡ (err (agent_session_not_found id), db)
unfolding read_session
read_session_missing id db h = rw h refl

session_state : (s : SessionRow) → (agent_session_from_row s).state ≡ s.state
unfolding agent_session_from_row
session_state s = refl

abbrev ended_at : ℕ → AgentSessionFinish → SessionRow → SessionRow
ended_at now finish s = record s {
  state = finish.state;
  ended_at_ms = some now;
  outcome_json = some finish.outcome;
  captured_bytes = finish.captured_bytes;
  output_truncated = finish.output_truncated;
}

close_session_found :
    (now : ℕ) (id : String) (finish : AgentSessionFinish) (s : SessionRow) (db : Db)
    → find_session id db ≡ some s
    → ((close_session now id finish db).0 ≡ ok (agent_session_from_row (ended_at now finish s)))
      × (find_session id (close_session now id finish db).1 ≡ some (ended_at now finish s))
unfolding close_session read_session agent_session_from_row
close_session_found now id finish s db h =
    let changed =
      find_key-update session_key id id (ended_at now finish) db.agent_sessions (λ x. refl) in
    let found' : find_key session_key id
          (update_where (has_key session_key id) (ended_at now finish) db.agent_sessions)
        ≡ some (ended_at now finish s) =
      changed ∙ rw (eq_refl id, h) refl in
    (rw found' refl, rw found' found')

-- What a call that succeeds leaves.
leaves_terminal :
    (now : ℕ) (id : String) (finish : AgentSessionFinish) (db : Db) (a : AgentSession) (after : Db)
    → finish_agent_session now id finish db ≡ (ok a, after)
    → (s : SessionRow) × (find_session id after ≡ some s)
      × (is_terminal s.state ≡ true)
      × (agent_session_from_row s ≡ a)
unfolding finish_agent_session
leaves_terminal now id finish db a after ran = elim (Option-cases (find_session id db)) [
  | inl missing ↦ absurd (ground (arith, ran, read_session_missing id db missing))
  | inr (s, found) ↦ elim (Bool-cases (is_terminal s.state)) [
    | inl over ↦
        let read = read_session_found id s db found in
        let state = session_state s in
        let same : after ≡ db = ground (arith, ran, read, over, state) in
        (s, rw same found, over, ground (arith, ran, read, over, state))
    | inr going ↦
        let read = read_session_found id s db found in
        let state = session_state s in
        let (result, found') = close_session_found now id finish s db found in
        let same : after ≡ (close_session now id finish db).1 =
          ground (arith, ran, read, going, state) in
        let value : (close_session now id finish db).0 ≡ ok a =
          ground (arith, ran, read, going, state) in
        (ended_at now finish s, rw same found', ground (arith, ran), ground (arith, result, value))
  ]
]

-- When a call has finished a session, a later call with the same request returns the same session
-- and changes nothing.
pub finish_agent_session-twice :
    (now later : ℕ) (id : String) (finish : AgentSessionFinish) (db : Db) (a : AgentSession)
    (after : Db)
    → finish_agent_session now id finish db ≡ (ok a, after)
    → finish_agent_session later id finish after ≡ (ok a, after)
finish_agent_session-twice now later id finish db a after ran =
    let (s, found, over, same) = leaves_terminal now id finish db a after ran in
    finished_already later id finish s after a db after now found over ran
    ∙ ap (λ x. (ok x, after)) same
