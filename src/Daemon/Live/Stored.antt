-- ===== src/Daemon/Live/Stored.antt =====
-- The stored events of an execution, and the part of them that a subscriber was sent.
use loomterm.Prelude.{
  ℕ, zero, suc, ◌+◌, ◌-◌, ◌≤◌, String, ◌≡◌, refl, sym, ap, ◌∙◌, inl, inr, ◌==◌, List, [], ◌∷◌, ◌++◌,
  arith, length, All, take, drop, take_split, length-append, length-take, length-drop, drop-drop,
  All-select, All-drop, Bool-cases,
}
use loomterm.Model.Execution.{Base64, ExecutionEvent}
use loomterm.Store.Tables.{Db, EventRow}
use loomterm.Store.Journal.{journal, IsReadable, IsConsistent}
use loomterm.Store.Reading.Page.{decoded, event_from_row_ok}
use loomterm.Daemon.Subscription.{is_finish}
use loomterm.Daemon.Subscription.Pages.{until_finish, decoded-append, length-decoded}

pub until_finish_first :
    (xs : List ExecutionEvent) → until_finish xs ≡ take (length (until_finish xs)) xs
until_finish_first [] = refl
until_finish_first (e ∷ xs) = elim (Bool-cases (is_finish e.payload)) [
  | inl p ↦ rw p refl
  | inr p ↦ rw p (ap (λ l. e ∷ l) (until_finish_first xs))
]

pub until_finish-twice :
    (xs : List ExecutionEvent) → until_finish (until_finish xs) ≡ until_finish xs
until_finish-twice [] = refl
until_finish-twice (e ∷ xs) = elim (Bool-cases (is_finish e.payload)) [
  | inl p ↦ rw p (rw p refl)
  | inr p ↦ rw p (rw p (ap (λ l. e ∷ l) (until_finish-twice xs)))
]

pub take-append_first :
    (k : ℕ) (xs ys : List ExecutionEvent) → k ≤ length xs → take k (xs ++ ys) ≡ take k xs
take-append_first zero xs ys h = refl
take-append_first (suc k) [] ys h = absurd (omega arith)
take-append_first (suc k) (x ∷ xs) ys h = ap (λ l. x ∷ l) (take-append_first k xs ys (omega arith))

drop-append_first :
    (k : ℕ) (xs ys : List EventRow) → k ≤ length xs → drop k (xs ++ ys) ≡ drop k xs ++ ys
drop-append_first zero xs ys h = refl
drop-append_first (suc k) [] ys h = absurd (omega arith)
drop-append_first (suc k) (x ∷ xs) ys h = drop-append_first k xs ys (omega arith)

module _ (b64 : Base64) (id : String) where
  -- The stored events behind a cursor.
  abbrev pub stored : Db → ℕ → List ExecutionEvent
  stored db cursor = decoded b64 id (drop cursor (journal id db.events))

  -- The journal of the execution goes on.
  abbrev pub Grows : Db → Db → Type 0
  Grows older newer =
      (more : List EventRow) × (journal id newer.events ≡ journal id older.events ++ more)

  decoded-drop :
      (k : ℕ) (rows : List EventRow)
      → All IsReadable rows
      → decoded b64 id (drop k rows) ≡ drop k (decoded b64 id rows)
  unfolding decoded
  decoded-drop zero rows h = refl
  decoded-drop (suc k) [] h = refl
  decoded-drop (suc k) (row ∷ rows) h =
      let (p, readable) = h.0 b64 in
      rw (event_from_row_ok b64 id row p readable, decoded) (decoded-drop k rows h.1)

  module _ (after_seq : ℕ) where
    -- What was sent is the part of the stored events between the two cursors.
    pub record IsPart (db : Db) (cursor : ℕ) (sent : List ExecutionEvent) : Type 0 where
      pub begins : after_seq ≤ cursor
      pub stops : cursor ≤ length (journal id db.events)
      pub part : sent ≡ take (cursor - after_seq) (stored db after_seq)

  module _ (after_seq : ℕ) {db : Db} (c : IsConsistent db) where
    rows-IsReadable : All IsReadable (journal id db.events)
    unfolding journal
    rows-IsReadable = All-select IsReadable (λ e. e.execution_id == id) db.events c.readable

    pub length-stored : (n : ℕ) → length (stored db n) ≡ length (journal id db.events) - n
    length-stored n =
        length-decoded b64 id (drop n (journal id db.events))
          (All-drop IsReadable n (journal id db.events) rows-IsReadable)
        ∙ length-drop n (journal id db.events)

    stored-drop : (n k : ℕ) → drop k (stored db n) ≡ stored db (n + k)
    stored-drop n k =
        sym (
          decoded-drop k (drop n (journal id db.events))
            (All-drop IsReadable n (journal id db.events) rows-IsReadable))
        ∙ ap (decoded b64 id) (drop-drop k n (journal id db.events))

    -- The next events are sent.
    pub IsPart-append :
        (cursor : ℕ) (sent events : List ExecutionEvent)
        → IsPart after_seq db cursor sent
        → events ≡ take (length events) (stored db cursor)
        → IsPart after_seq db (cursor + length events) (sent ++ events)
    IsPart-append cursor sent events p h =
        let from : after_seq + (cursor - after_seq) ≡ cursor = omega (arith, p.begins) in
        let rest : drop (cursor - after_seq) (stored db after_seq) ≡ stored db cursor =
          stored-drop after_seq (cursor - after_seq) ∙ ap (stored db) from in
        let size : (cursor + length events) - after_seq ≡ (cursor - after_seq) + length events =
          omega (arith, p.begins) in
        let fits : length events ≤ length (journal id db.events) - cursor = omega (
          arith,
          ap (length {A = ExecutionEvent}) h,
          length-take {0} (length events) (stored db cursor),
          length-stored cursor,
        ) in
        record {
          begins = omega (arith, p.begins);
          stops = omega (arith, p.stops, fits);
          part =
              ap (λ l. l ++ events) p.part
              ∙ ap (λ l. take (cursor - after_seq) (stored db after_seq) ++ l)
                  (h ∙ ap (take (length events)) (sym rest))
              ∙ sym (take_split (cursor - after_seq) (length events) (stored db after_seq))
              ∙ ap (λ n. take n (stored db after_seq)) (sym size);
        }

    -- More events are stored.
    pub IsPart-Grows :
        (newer : Db) (cursor : ℕ) (sent : List ExecutionEvent)
        → Grows db newer
        → IsPart after_seq db cursor sent
        → IsPart after_seq newer cursor sent
    IsPart-Grows newer cursor sent (more, grown) p =
        let size = ap (length {A = EventRow}) grown ∙ length-append (journal id db.events) more in
        let front : stored newer after_seq ≡ stored db after_seq ++ decoded b64 id more =
          ap (λ rows. decoded b64 id (drop after_seq rows)) grown
          ∙ ap (decoded b64 id) (
              drop-append_first after_seq (journal id db.events) more
                (omega (arith, p.begins, p.stops)))
          ∙ decoded-append b64 id (drop after_seq (journal id db.events)) more in
        record {
          begins = p.begins;
          stops = omega (arith, size, p.stops);
          part =
              p.part
              ∙ sym (
                  ap (take (cursor - after_seq)) front
                  ∙ take-append_first (cursor - after_seq) (stored db after_seq)
                      (decoded b64 id more) (omega (arith, length-stored after_seq, p.stops)));
        }
