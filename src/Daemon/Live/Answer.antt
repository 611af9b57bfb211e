-- ===== src/Daemon/Live/Answer.antt =====
-- What a subscription comes to, from its first frame.
use loomterm.Prelude.{
  ℕ, ◌-◌, ◌≤◌, String, ◌≡◌, refl, sym, ap, false, some, List, [], ◌∷◌, ◌++◌, arith, le→ltb, take,
  append-nil,
}
use loomterm.Model.Execution.{Base64, ExecutionEvent}
use loomterm.Store.Tables.{Db, ExecutionRow, find_execution}
use loomterm.Store.Journal.{journal, IsConsistent, HasJournal}
use loomterm.Daemon.Subscription.Pages.{any_finish, until_finish_all}
use loomterm.Daemon.Live.{Moment, Replay, follow}
use loomterm.Daemon.Live.Pages.{IsGoingOn}
use loomterm.Daemon.Live.Follows.{Follows, IsHistory, last_db, one_wakeup, history-Grows, replayed}
use loomterm.Store.Rows.{execution_from_row}
use loomterm.Store.Executions.Outcomes.{get_execution_found}
use loomterm.Daemon.Live.{subscription, handle_subscription}
use loomterm.Daemon.Live.Stored.{stored, IsPart, IsPart-Grows}

module _ (b64 : Base64) (now : ℕ) (id : String) (after_seq : ℕ) where
  follow-Follows :
      (db : Db) (moments : List Moment) (cursor : ℕ) (before : List ExecutionEvent)
      → IsHistory b64 id db moments
      → IsConsistent db
      → IsPart b64 id after_seq db cursor before
      → any_finish before ≡ false
      → Follows b64 now id after_seq (last_db db moments) before (follow b64 now id cursor moments)
  unfolding follow
  follow-Follows db [] cursor before h c p u =
      let same = append-nil before in
      record {
        part = rw same p;
        at_finish = rw same (until_finish_all before u);
        goes_on = λ w. rw same u;
        sound = refl;
      }
  follow-Follows db (m ∷ moments) cursor before h c p u =
      let behind = m.replay.pages 0 in
      one_wakeup b64 now id after_seq {db = m.db} {final = last_db behind moments} h.0 h.3
        (history-Grows b64 id behind moments h.4) before u (λ next. follow b64 now id next moments)
        cursor m.wakeup h.2 (IsPart-Grows b64 id after_seq c m.db cursor before h.1 p)
        (λ next events p' u'.
          follow-Follows behind moments next (before ++ events) h.4 (h.3.consistent 0) p' u')

  -- On a consistent database, to a subscriber that asks for the events behind a cursor which lies
  -- in the journal the reply is the execution and that cursor. If from then on, at each wakeup and
  -- at each page of a replay, the database is consistent and holds the execution, whose journal
  -- only goes on; if an event of it that the channel gives is stored under its number; and if the
  -- loop of each replay has more turns than events are stored when it ends: then whatever the
  -- channel loses or repeats, the subscriber is sent the stored events behind the cursor, each once
  -- and in order, up to where the subscription stands; nothing follows the first finished event,
  -- and the subscription does not go on after it; and no replay fails or uses up its turns.
  pub handle_subscription-Follows :
      (exceeds : ℕ → ℕ → String) (db : Db) (first : Replay) (moments : List Moment)
      (r : ExecutionRow)
      → IsConsistent db
      → find_execution id db ≡ some r
      → after_seq ≤ r.last_seq
      → IsGoingOn b64 id db first
      → IsHistory b64 id (first.pages 0) moments
      → let (reply, followed) = handle_subscription b64 now id exceeds after_seq db first moments in
        (reply ≡ subscription (execution_from_row now r) after_seq)
        × Follows b64 now id after_seq (last_db (first.pages 0) moments) [] followed
  unfolding handle_subscription execution_from_row
  handle_subscription-Follows exceeds db first moments r c found inside g h =
      let j : HasJournal (some r) (journal id db.events) = rw found at (c.journals id) in
      let nothing : after_seq - after_seq ≡ 0 = omega arith in
      let start : IsPart b64 id after_seq db after_seq [] = record {
        begins = omega arith;
        stops = omega (arith, inside, j.1);
        part = sym (ap (λ n. take n (stored b64 id db after_seq)) nothing);
      } in
      let accepted = le→ltb r.last_seq after_seq inside in
      rw (get_execution_found now id db found, accepted, handle_subscription)
        (
          refl,
          replayed b64 now id after_seq {db = db} {final = last_db (first.pages 0) moments} c g
              (history-Grows b64 id (first.pages 0) moments h) [] refl
              (λ next. follow b64 now id next moments) after_seq start
              (λ next events p u.
                follow-Follows (first.pages 0) moments next events h (g.consistent 0) p u),
        )
