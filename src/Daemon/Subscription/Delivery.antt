-- ===== src/Daemon/Subscription/Delivery.antt =====
-- A replay delivers every stored event behind the cursor once and in order, up to the first
-- `finished` event.
use native.Mathlib.Nat.{zero-add}
use loomterm.Prelude.{
  ℕ, zero, suc, ◌+◌, ◌-◌, ◌*◌, ◌≤◌, ◌<◌, String, ◌≡◌, ap, ◌∙◌, true, false, ◌&&◌, ◌||◌, inl, inr,
  Option, some, List, [], ◌++◌, arith, leb, lt→ltb, le→ltb, append-nil, ◌==◌, Bool-cases, length,
  take, drop, take-append-drop, length-append, length-take, length-drop, All, All-take, All-drop,
  drop-drop, drop_past, All-select,
}
use native.Mathlib.Decide.{dec_lt}
use loomterm.Result.{Result, ok}
use loomterm.Model.Execution.{Base64, ExecutionEvent, is_terminal}
use loomterm.Store.Tables.{Db, ExecutionRow, EventRow, find_execution}
use loomterm.Store.Rows.{execution_from_row}
use loomterm.Store.Journal.{journal, IsRun, IsReadable, IsConsistent, HasJournal}
use loomterm.Store.Reading.Page.{decoded, IsRun-drop}
use loomterm.Store.Reading.Cursor.{read_output_page, page_after, IsRun-take}
use loomterm.Daemon.Subscription.{Sent, send_page, handle_page, replay_subscription}
use loomterm.Daemon.Subscription.Pages.{
  until_finish, any_finish, until_finish-append, any_finish-append, until_finish_all,
  decoded-append, send_page-run, length-decoded,
}

module _ (b64 : Base64) (now : ℕ) (id : String) (db : Db) (c : IsConsistent db) {r : ExecutionRow}
    (found : find_execution id db ≡ some r) where
  abbrev pub rows_from : ℕ → List EventRow
  rows_from n = drop n (journal id db.events)

  -- The stored events behind a cursor.
  abbrev pub events_from : ℕ → List ExecutionEvent
  events_from n = decoded b64 id (rows_from n)

  -- What a replay from `n` comes to.
  pub record Delivers (n : ℕ) (outcome : Option (Result Sent)) : Type 0 where
    pub sent : Sent
    pub returns : outcome ≡ some (ok sent)
    pub events : sent.events ≡ until_finish (events_from n)
    pub returned : sent.returned ≡ (any_finish (events_from n) || is_terminal r.state)
    pub cursor : sent.cursor ≡ n + length (until_finish (events_from n))

  pub has_journal : HasJournal (some r) (journal id db.events)
  has_journal = rw found at (c.journals id)

  pub rows_from-IsReadable : (n : ℕ) → All IsReadable (rows_from n)
  unfolding journal
  rows_from-IsReadable n =
      All-drop IsReadable n (journal id db.events)
        (All-select IsReadable (λ e. e.execution_id == id) db.events c.readable)

  pub rows_from-IsRun : (n : ℕ) → IsRun n (rows_from n)
  rows_from-IsRun n = rw zero-add at (IsRun-drop 0 n (journal id db.events) has_journal.0)

  -- A page and what comes behind it.
  pub split_at :
      (n k : ℕ) → events_from n ≡ decoded b64 id (take k (rows_from n)) ++ events_from (n + k)
  split_at n k =
      rw (← drop-drop k n (journal id db.events), ← decoded-append b64 id, take-append-drop)

  pub length-page :
      (n k : ℕ) → n + k ≤ r.last_seq → length (decoded b64 id (take k (rows_from n))) ≡ k
  length-page n k h =
      length-decoded b64 id (take k (rows_from n))
        (All-take IsReadable k (rows_from n) (rows_from-IsReadable n))
      ∙ omega (
        arith,
        length-take {0} k (rows_from n),
        length-drop {0} n (journal id db.events),
        has_journal.1,
      )

  -- At the end of the journal nothing is left.
  nothing_behind : (n : ℕ) → r.last_seq ≤ n → events_from n ≡ []
  unfolding decoded
  nothing_behind n h = rw (drop_past n (journal id db.events) (omega (arith, has_journal.1)))

  -- A page that holds a `finished` event ends the replay.
  stops_in_page :
      (again : ℕ → Option (Result Sent)) (n k : ℕ)
      → any_finish (decoded b64 id (take k (rows_from n))) ≡ true
      → Delivers n (handle_page again n (page_after b64 now id n k r db))
  unfolding handle_page
  stops_in_page again n k done =
      let page = take k (rows_from n) in
      let (sends, stops, ends) =
        send_page-run b64 id n page (All-take IsReadable k (rows_from n) (rows_from-IsReadable n))
          (IsRun-take n k (rows_from n) (rows_from-IsRun n)) in
      record {
        sent = send_page n (decoded b64 id page);
        returns = rw (stops, done);
        events = rw (split_at n k, until_finish-append, done) sends;
        returned = rw (split_at n k, any_finish-append, done) (stops ∙ done);
        cursor = rw (split_at n k, until_finish-append, done) ends;
      }

  -- Another page: what it holds is sent, and the replay goes on behind it.
  goes_on :
      (again : ℕ → Option (Result Sent)) (n k : ℕ)
      → n + k < r.last_seq
      → any_finish (decoded b64 id (take k (rows_from n))) ≡ false
      → Delivers (n + k) (again (n + k))
      → Delivers n (handle_page again n (page_after b64 now id n k r db))
  unfolding handle_page
  goes_on again n k more going next =
      let page = take k (rows_from n) in
      let (sends, stops, ends) =
        send_page-run b64 id n page (All-take IsReadable k (rows_from n) (rows_from-IsReadable n))
          (IsRun-take n k (rows_from n) (rows_from-IsRun n)) in
      let all_sent : (send_page n (decoded b64 id page)).events ≡ decoded b64 id page =
        sends ∙ until_finish_all (decoded b64 id page) going in
      let cursor : (send_page n (decoded b64 id page)).cursor ≡ n + k =
        ends
        ∙ ap (λ l. n + length l) (until_finish_all (decoded b64 id page) going)
        ∙ ap (λ m. n + m) (length-page n k (omega arith)) in
      record {
        sent = record next.sent { events = decoded b64 id page ++ next.sent.events };
        returns = rw (stops, going, lt→ltb (n + k) r.last_seq more, all_sent, cursor, next.returns);
        events =
            rw (split_at n k, until_finish-append, going)
              (ap (λ l. decoded b64 id page ++ l) next.events);
        returned = rw (split_at n k, any_finish-append, going) next.returned;
        cursor =
            rw (split_at n k, until_finish-append, going)
              (omega (
                arith,
                next.cursor,
                length-append {0} (decoded b64 id page) (until_finish (events_from (n + k))),
                length-page n k (omega arith),
              ));
      }

  -- The last page: all that is left is sent.
  ends_here :
      (again : ℕ → Option (Result Sent)) (n k : ℕ)
      → n + k ≡ r.last_seq
      → any_finish (decoded b64 id (take k (rows_from n))) ≡ false
      → Delivers n (handle_page again n (page_after b64 now id n k r db))
  unfolding handle_page execution_from_row
  ends_here again n k last going =
      let page = take k (rows_from n) in
      let (sends, stops, ends) =
        send_page-run b64 id n page (All-take IsReadable k (rows_from n) (rows_from-IsReadable n))
          (IsRun-take n k (rows_from n) (rows_from-IsRun n)) in
      let unsent = nothing_behind (n + k) (omega arith) in
      let whole : events_from n ≡ decoded b64 id page =
        split_at n k
        ∙ ap (λ l. decoded b64 id page ++ l) unsent
        ∙ append-nil (decoded b64 id page) in
      let cursor : (send_page n (decoded b64 id page)).cursor ≡ r.last_seq =
        ends
        ∙ ap (λ l. n + length l) (until_finish_all (decoded b64 id page) going)
        ∙ ap (λ m. n + m) (length-page n k (omega arith))
        ∙ last in
      record {
        sent = record (send_page n (decoded b64 id page)) {
          returned =
              is_terminal r.state && leb r.last_seq (send_page n (decoded b64 id page)).cursor;
        };
        returns = rw (stops, going, le→ltb (n + k) r.last_seq (omega arith));
        events = rw whole sends;
        returned = rw (whole, going, cursor) (ground arith);
        cursor = rw whole ends;
      }

  -- From a cursor that lies in the journal, with more fuel than there are events behind it, a
  -- replay returns. It has sent the stored events behind the cursor once and in order, up to and
  -- with the first `finished` event, its cursor stands behind them, and it reports the end of the
  -- subscription exactly when it sent such an event or the execution is in a terminal state.
  pub replay_subscription-Delivers :
      (fuel n : ℕ)
      → n ≤ r.last_seq
      → r.last_seq - n < fuel
      → Delivers n (replay_subscription b64 now id (λ turns. db) fuel n)
  unfolding replay_subscription
  replay_subscription-Delivers zero n w h = absurd (omega arith)
  replay_subscription-Delivers (suc fuel) n w h =
      let (k, page, inside, moves, budget) =
        read_output_page b64 now id n (1024 * 1024) db c found w (omega arith) in
      let again = replay_subscription b64 now id (λ turns. db) fuel in
      rw (page, replay_subscription)
        (elim (Bool-cases (any_finish (decoded b64 id (take k (rows_from n))))) [
          | inl done ↦ stops_in_page again n k done
          | inr going ↦ elim (dec_lt (n + k) r.last_seq) [
            | yes more ↦ goes_on again n k more going (
                replay_subscription-Delivers fuel (n + k) inside
                  (omega (arith, moves (omega arith))))
            | no last ↦ ends_here again n k (omega arith) going
          ]
        ])
