-- ===== src/Daemon/Live/Pages.antt =====
-- What a replay sends when each of its pages is read from the database as it is then.
use loomterm.Prelude.{
  ℕ, zero, suc, ◌+◌, ◌≤◌, ◌<◌, String, ◌≡◌, refl, sym, ap, ◌∙◌, true, false, inl, inr, Option, some,
  List, [], ◌∷◌, ◌++◌, append_assoc, append-nil, Bool, ◌&&◌, leb, ◌*◌, arith, lt→ltb, le→ltb,
  Bool-cases, length, take, drop, length-append, All-take,
}
use native.Mathlib.Decide.{dec_lt}
use loomterm.Result.{Result, ok}
use loomterm.Model.Execution.{Base64, ExecutionEvent, is_terminal}
use loomterm.Store.Tables.{Db, ExecutionRow, EventRow, find_execution}
use loomterm.Store.Rows.{execution_from_row}
use loomterm.Store.Journal.{journal, IsConsistent}
use loomterm.Store.Reading.Page.{decoded}
use loomterm.Store.Reading.Cursor.{read_output_page, page_after, IsRun-take}
use loomterm.Daemon.Subscription.{Sent, send_page, handle_page, replay_subscription}
use loomterm.Daemon.Subscription.Pages.{
  until_finish, any_finish, until_finish-append, any_finish-append, until_finish_all, send_page-run,
}
use loomterm.Daemon.Subscription.Delivery.{
  events_from, has_journal, rows_from-IsReadable, rows_from-IsRun, split_at, length-page,
}
use loomterm.Daemon.Live.{Replay}
use loomterm.Daemon.Live.Stored.{
  stored, Grows, IsPart, IsPart-append, IsPart-Grows, until_finish_first, until_finish-twice,
  take-append_first,
}

until_finish-length : (xs : List ExecutionEvent) → length (until_finish xs) ≤ length xs
until_finish-length [] = omega arith
until_finish-length (e ∷ xs) = ground (arith, until_finish-length xs)

-- The first of two parts is taken up to its finished event.
until_finish-first_part :
    (xs ys : List ExecutionEvent) → until_finish xs ≡ take (length (until_finish xs)) (xs ++ ys)
until_finish-first_part xs ys =
    until_finish_first xs
    ∙ sym (take-append_first (length (until_finish xs)) xs ys (until_finish-length xs))

module _ (b64 : Base64) (id : String) where
  pub Grows-trans : (u v w : Db) → Grows b64 id u v → Grows b64 id v w → Grows b64 id u w
  Grows-trans u v w (first, grown) (more, grows) = (
    first ++ more,
    grows ∙ ap (λ l. l ++ more) grown ∙ append_assoc (journal id u.events) first more,
  )

  pub Grows-refl : (u : Db) → Grows b64 id u u
  Grows-refl u = ([], sym (append-nil (journal id u.events)))

  -- The databases that the pages are read from: each is consistent and holds the execution, its
  -- journal only goes on, and there are more turns of the loop than events in it at the end.
  pub record IsGoingOn (db : Db) (p : Replay) : Type 0 where
    pub consistent : (n : ℕ) → IsConsistent (p.pages n)
    pub there : (n : ℕ) → (r : ExecutionRow) × (find_execution id (p.pages n) ≡ some r)
    pub later : (n : ℕ) → Grows b64 id (p.pages (suc n)) (p.pages n)
    pub since : (n : ℕ) → Grows b64 id db (p.pages n)
    pub enough : length (journal id (p.pages 0).events) < p.turns

  module _ {db : Db} {p : Replay} (h : IsGoingOn db p) where
    pub to_last : (n : ℕ) → Grows b64 id (p.pages n) (p.pages 0)
    to_last zero = Grows-refl (p.pages 0)
    to_last (suc n) = Grows-trans (p.pages (suc n)) (p.pages n) (p.pages 0) (h.later n) (to_last n)

module _ (b64 : Base64) (now : ℕ) (id : String) (after_seq : ℕ) where
  -- A replay returned, and what was sent is then a part of the journal at the end.
  pub record Sends (last : Db) (before : List ExecutionEvent) (outcome : Option (Result Sent))
      : Type 0 where
    pub sent : Sent
    pub returns : outcome ≡ some (ok sent)
    pub part : IsPart b64 id after_seq last sent.cursor (before ++ sent.events)
    pub once : until_finish sent.events ≡ sent.events
    pub more : sent.returned ≡ false → any_finish sent.events ≡ false

  module _ {db : Db} (c : IsConsistent db) {r : ExecutionRow}
      (found : find_execution id db ≡ some r) (last : Db) (grows : Grows b64 id db last)
      (before : List ExecutionEvent) where
    abbrev page_of : ℕ → ℕ → List ExecutionEvent
    page_of n k = decoded b64 id (take k (drop n (journal id db.events)))

    -- What a page sends.
    page_sent :
        (n k : ℕ)
        → let sent = send_page n (page_of n k) in
          (sent.events ≡ until_finish (page_of n k))
          × (sent.returned ≡ any_finish (page_of n k))
          × (sent.cursor ≡ n + length (until_finish (page_of n k)))
    page_sent n k =
        send_page-run b64 id n (take k (drop n (journal id db.events)))
          (All-take _ k (drop n (journal id db.events))
            (rows_from-IsReadable b64 now id db c found n))
          (IsRun-take n k (drop n (journal id db.events)) (rows_from-IsRun b64 now id db c found n))

    -- It is the next part of the journal.
    page-IsPart :
        (n k : ℕ)
        → IsPart b64 id after_seq db n before
        → let sent = send_page n (page_of n k) in
          IsPart b64 id after_seq db sent.cursor (before ++ sent.events)
    page-IsPart n k p =
        let (events, returned, cursor) = page_sent n k in
        let next : until_finish (page_of n k)
            ≡ take (length (until_finish (page_of n k))) (stored b64 id db n) =
          until_finish-first_part (page_of n k) (events_from b64 now id db c found (n + k))
          ∙ ap (take (length (until_finish (page_of n k))))
              (sym (split_at b64 now id db c found n k)) in
        rw (events, cursor)
          (IsPart-append b64 id after_seq c n before (until_finish (page_of n k)) p next)

    -- The replay stops with this page.
    stops_with :
        (n k : ℕ) (is_over : Bool) (outcome : Option (Result Sent))
        → IsPart b64 id after_seq db n before
        → outcome ≡ some (ok (record (send_page n (page_of n k)) { returned = is_over }))
        → (is_over ≡ false → any_finish (page_of n k) ≡ false)
        → Sends last before outcome
    stops_with n k is_over outcome p ran over =
        let (events, returned, cursor) = page_sent n k in
        let sent = send_page n (page_of n k) in
        record {
          sent = record sent { returned = is_over };
          returns = ran;
          part =
              IsPart-Grows b64 id after_seq c last sent.cursor (before ++ sent.events) grows
                (page-IsPart n k p);
          once = rw events (until_finish-twice (page_of n k));
          more = λ going_on.
              rw (events, until_finish_all (page_of n k) (over going_on)) (over going_on);
        }

    -- Another page follows.
    goes_past :
        (again : ℕ → Option (Result Sent)) (n k : ℕ)
        → n + k < r.last_seq
        → any_finish (page_of n k) ≡ false
        → Sends last (before ++ page_of n k) (again (n + k))
        → Sends last before (handle_page again n (page_after b64 now id n k r db))
    unfolding handle_page
    goes_past again n k more going next =
        let (sends, stops, ends) = page_sent n k in
        let all_sent : (send_page n (page_of n k)).events ≡ page_of n k =
          sends ∙ until_finish_all (page_of n k) going in
        let cursor : (send_page n (page_of n k)).cursor ≡ n + k =
          ends
          ∙ ap (λ l. n + length l) (until_finish_all (page_of n k) going)
          ∙ ap (λ m. n + m) (length-page b64 now id db c found n k (omega arith)) in
        record {
          sent = record next.sent { events = page_of n k ++ next.sent.events };
          returns =
              rw (stops, going, lt→ltb (n + k) r.last_seq more, all_sent, cursor, next.returns);
          part = rw (append_assoc before (page_of n k) next.sent.events) at next.part;
          once = until_finish-append (page_of n k) next.sent.events ∙ rw (going, next.once) refl;
          more = λ going_on.
              any_finish-append (page_of n k) next.sent.events
              ∙ rw (going, next.more going_on) refl;
        }

    next-IsPart :
        (n k : ℕ)
        → IsPart b64 id after_seq db n before
        → n + k ≤ r.last_seq
        → any_finish (page_of n k) ≡ false
        → IsPart b64 id after_seq db (n + k) (before ++ page_of n k)
    next-IsPart n k p inside going =
        let (sends, stops, ends) = page_sent n k in
        let whole = until_finish_all (page_of n k) going in
        let size = length-page b64 now id db c found n k inside in
        let cursor : (send_page n (page_of n k)).cursor ≡ n + k =
          ends ∙ ap (λ l. n + length l) whole ∙ ap (λ m. n + m) size in
        rw (cursor, sends, whole) at (page-IsPart n k p)

    -- A turn of the loop.
    turn_Sends :
        (again : ℕ → Option (Result Sent)) (n k : ℕ)
        → IsPart b64 id after_seq db n before
        → n + k ≤ r.last_seq
        → (n + k < r.last_seq
            → IsPart b64 id after_seq db (n + k) (before ++ page_of n k)
            → Sends last (before ++ page_of n k) (again (n + k)))
        → Sends last before (handle_page again n (page_after b64 now id n k r db))
    unfolding handle_page execution_from_row
    turn_Sends again n k p inside further = elim (Bool-cases (any_finish (page_of n k))) [
      | inl done ↦
          let (sends, stops, ends) = page_sent n k in
          let over = stops ∙ done in
          stops_with n k true _ p (rw over (ground (arith, over))) (λ w. absurd (ground (arith, w)))
      | inr going ↦ elim (dec_lt (n + k) r.last_seq) [
        | yes more ↦ goes_past again n k more going (further more (next-IsPart n k p inside going))
        | no end ↦
            let (sends, stops, ends) = page_sent n k in
            let over = stops ∙ going in
            stops_with n k
              (is_terminal r.state && leb r.last_seq (send_page n (page_of n k)).cursor)
              (handle_page again n (page_after b64 now id n k r db)) p
              (rw (over, le→ltb (n + k) r.last_seq (omega arith)) refl) (λ w. going)
      ]
    ]

  module _ (db : Db) (p : Replay) (h : IsGoingOn b64 id db p) where
    abbrev Since : Db → ℕ → Type 0
    Since from zero = Unit
    Since from (suc n) = Grows b64 id from (p.pages n)

    Since-page : (n : ℕ) → Since (p.pages n) n
    Since-page zero = tt
    Since-page (suc n) = h.later n

    pages_Sends :
        (fuel n : ℕ) (from : Db) (before : List ExecutionEvent)
        → IsConsistent from
        → Since from fuel
        → IsPart b64 id after_seq from n before
        → length (journal id (p.pages 0).events) < n + fuel
        → n ≤ length (journal id (p.pages 0).events)
        → Sends (p.pages 0) before (replay_subscription b64 now id p.pages fuel n)
    unfolding replay_subscription
    pages_Sends zero n from before c s part enough within = absurd (omega arith)
    pages_Sends (suc fuel) n from before c s part enough within =
        let db = p.pages fuel in
        let c' = h.consistent fuel in
        let (r, found) = h.there fuel in
        let here = IsPart-Grows b64 id after_seq c db n before s part in
        let j = has_journal b64 now id db c' found in
        let (more_rows, grown) = to_last b64 id h fuel in
        let size =
          ap (length {A = EventRow}) grown ∙ length-append (journal id db.events) more_rows in
        let (k, page, inside, moves, budget) =
          read_output_page b64 now id n (1024 * 1024) db c' found (omega (arith, here.stops, j.1))
            (omega arith) in
        rw (page, replay_subscription)
          (turn_Sends c' found (p.pages 0) (to_last b64 id h fuel) before
            (replay_subscription b64 now id p.pages fuel) n k here inside
            (λ more next.
              pages_Sends fuel (n + k) db
                (before ++ page_of c' found (p.pages 0) (to_last b64 id h fuel) before n k) c'
                (Since-page fuel) next (omega (arith, enough, moves (omega (arith, more))))
                (omega (arith, size, inside, j.1))))

    Since-start : (n : ℕ) → Since db n
    Since-start zero = tt
    Since-start (suc n) = h.since n

    pub replay-Sends :
        (n : ℕ) (before : List ExecutionEvent)
        → IsConsistent db
        → IsPart b64 id after_seq db n before
        → Sends (p.pages 0) before (replay_subscription b64 now id p.pages p.turns n)
    replay-Sends n before c part =
        let (more_rows, grown) = h.since 0 in
        let size =
          ap (length {A = EventRow}) grown ∙ length-append (journal id db.events) more_rows in
        pages_Sends p.turns n db before c (Since-start p.turns) part (omega (arith, h.enough))
          (omega (arith, size, part.stops))
