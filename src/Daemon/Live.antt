-- ===== src/Daemon/Live.antt =====
-- `handle_subscription` of src/daemon.rs: the reply to a subscription, the replay of what is stored,
-- and the loop that sends new events, a step for each wakeup of `select!`. Each wakeup comes with
-- the database as the store has it then, and with those that the pages of a replay are read from.
-- Sending a frame succeeds.
pub mod Stored
pub mod Pages
pub mod Follows
pub mod Answer
use loomterm.Prelude.{
  ℕ, zero, suc, ◌+◌, String, Bool, true, false, not, ◌&&◌, ◌||◌, Option, none, some, List, [], ◌∷◌,
  ◌++◌, leb, ltb, eqb, ◌==◌, if◌then◌else◌, length,
}
use loomterm.Result.{Result, ok, err, Error, protocol, invalid_request}
use loomterm.Model.Execution.{Base64, Execution, ExecutionEvent}
use loomterm.Store.Tables.{Db}
use loomterm.Store.Executions.{get_execution}
use loomterm.Daemon.Subscription.{Sent, is_finish, replay_subscription}

-- What `select!` gives: a frame of the client, the end of its connection, or what the broadcast
-- channel has.
pub data Wakeup : Type 0 where
  request : Wakeup
  disconnected : Wakeup
  received : ExecutionEvent → Wakeup
  lagged : Wakeup
  closed : Wakeup

-- What a replay meets: how many turns its loop has, which is its fuel, and the database at each page,
-- by the number of turns that are left behind it.
pub record Replay : Type 0 where
  pub turns : ℕ
  pub pages : ℕ → Db

-- A wakeup, the database as it is then, and what a replay meets that is made then.
pub record Moment : Type 0 where
  pub db : Db
  pub replay : Replay
  pub wakeup : Wakeup

-- `waiting`: no wakeup is left. `out_of_fuel` is no end of the code.
pub data Ending : Type 0 where
  waiting : Ending
  returned : Ending
  failed : Error → Ending
  out_of_fuel : Ending

-- The events that are sent, where the cursor then stands, and how the function ended.
pub record Followed : Type 0 where
  pub events : List ExecutionEvent
  pub cursor : ℕ
  pub ending : Ending

abbrev pub ends : ℕ → Ending → Followed
ends cursor ending = record { events = []; cursor = cursor; ending = ending }

abbrev pub after_events : List ExecutionEvent → Followed → Followed
after_events events s = record s { events = events ++ s.events }

-- What is done with the outcome of a replay; `again` is the rest of the loop.
unfoldable pub after_replay : (ℕ → Followed) → ℕ → Option (Result Sent) → Followed
after_replay again cursor none = ends cursor out_of_fuel
after_replay again cursor (some (err e)) = ends cursor (failed e)
after_replay again cursor (some (ok s)) =
    let rest = again s.cursor in
    if s.returned
    then record { events = s.events; cursor = s.cursor; ending = returned }
    else after_events s.events rest

-- `let _ = replay_subscription(…).await?` and the return.
abbrev pub last_replay : ℕ → Option (Result Sent) → Followed
last_replay cursor none = ends cursor out_of_fuel
last_replay cursor (some (err e)) = ends cursor (failed e)
last_replay cursor (some (ok s)) = record {
  events = s.events;
  cursor = s.cursor;
  ending = returned;
}

module _ (b64 : Base64) (now : ℕ) (execution_id : String) where
  abbrev pub replay : Replay → ℕ → Option (Result Sent)
  replay p cursor = replay_subscription b64 now execution_id p.pages p.turns cursor

  -- One turn of the loop.
  unfoldable pub handle_wakeup : (ℕ → Followed) → ℕ → Replay → Wakeup → Followed
  unfolding after_replay
  handle_wakeup again cursor p request =
      ends cursor (failed (protocol "subscription connections do not accept additional requests"))
  handle_wakeup again cursor p disconnected = ends cursor returned
  handle_wakeup again cursor p (received e) =
      let rest = again cursor in
      let next = again (cursor + 1) in
      if not (e.execution_id == execution_id) || leb e.seq cursor
      then rest
      else if eqb e.seq (cursor + 1)
      then if is_finish e.payload
        then record { events = e ∷ []; cursor = cursor + 1; ending = returned }
        else after_events (e ∷ []) next
      else after_replay again cursor (replay p cursor)
  handle_wakeup again cursor p lagged = after_replay again cursor (replay p cursor)
  handle_wakeup again cursor p closed = last_replay cursor (replay p cursor)

  unfoldable pub follow : ℕ → List Moment → Followed
  unfolding handle_wakeup
  follow cursor [] = ends cursor waiting
  follow cursor (m ∷ moments) = handle_wakeup (λ next. follow next moments) cursor m.replay m.wakeup

  pub data Reply : Type 0 where
    error_reply : Error → Reply
    subscription : Execution → ℕ → Reply

  -- The first frame and what follows it. `exceeds` is the text of the error.
  unfoldable pub handle_subscription :
      (ℕ → ℕ → String) → ℕ → Db → Replay → List Moment → Reply × Followed
  unfolding follow
  handle_subscription exceeds after_seq db p moments = elim (get_execution now execution_id db).0 [
    | err e ↦ (error_reply e, ends after_seq returned)
    | ok execution ↦
        let started = after_replay (λ next. follow next moments) after_seq (replay p after_seq) in
        if ltb execution.last_seq after_seq
        then (
          error_reply (invalid_request (exceeds after_seq execution.last_seq)),
          ends after_seq returned,
        )
        else (subscription execution after_seq, started)
  ]
