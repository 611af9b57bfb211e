-- ===== src/Store/Reading/Page.antt =====
-- What a page of `read_output` holds: the next events of the journal, as many as the budget allows.
use loomterm.Prelude.{
  ℕ, zero, suc, ◌+◌, ◌≤◌, String, ◌≡◌, refl, Bool, true, false, not, ◌&&◌, List, [], ◌∷◌, ◌++◌,
  append_assoc, append-nil, arith, ◌==◌, ltb, leb, if◌then◌else◌, length, is_empty, take, drop, All,
  select, select-select, order_by, order_by_head,
}
use native.Mathlib.Nat.{add-zero, add-suc, suc-add}
use loomterm.Result.{ok, err}
use loomterm.Model.Execution.{Base64, ExecutionEvent, ExecutionEventPayload}
use loomterm.Store.Tables.{Db, EventRow}
use loomterm.Store.Rows.{event_from_row, event_payload}
use loomterm.Store.Journal.{journal, blob_size, IsRun, IsReadable}
use loomterm.Store.Reading.{saturating_add, events_after, fill}

-- A cursor before a run selects it all.
select_all :
    (a cursor : ℕ) (events : List EventRow)
    → IsRun a events
    → cursor ≤ a
    → select (λ e. ltb cursor e.seq) events ≡ events
unfolding select
select_all a cursor [] r h = refl
select_all a cursor (e ∷ events) r h =
    ground (arith, r.0, select_all (suc a) cursor events r.1 (omega arith))

-- A cursor in a run selects the rows behind a place.
select_after :
    (a cursor n : ℕ) (events : List EventRow)
    → IsRun a events
    → cursor ≡ a + n
    → select (λ e. ltb cursor e.seq) events ≡ drop n events
unfolding select
select_after a cursor zero events r h = select_all a cursor events r (omega arith)
select_after a cursor (suc n) [] r h = refl
select_after a cursor (suc n) (e ∷ events) r h =
    ground (arith, r.0, select_after (suc a) cursor n events r.1 (omega arith))

pub IsRun-drop : (a n : ℕ) (events : List EventRow) → IsRun a events → IsRun (a + n) (drop n events)
IsRun-drop a zero events r = rw add-zero r
IsRun-drop a (suc n) [] r = tt
IsRun-drop a (suc n) (e ∷ events) r = rw (add-suc, ← suc-add) (IsRun-drop (suc a) n events r.1)

-- A run is sorted.
order_by-run :
    (a : ℕ) (events : List EventRow)
    → IsRun a events
    → order_by (λ x y. leb x.seq y.seq) events ≡ events
unfolding order_by
order_by-run a [] r = refl
order_by-run a (e ∷ []) r = refl
order_by-run a (e ∷ f ∷ events) r =
    order_by_head (λ x y. leb x.seq y.seq) e (f ∷ events) (order_by-run (suc a) (f ∷ events) r.1)
      λ y ys p. ground (arith, r.0, r.1.0)

-- The rows that the query of `read_output` returns.
pub events_after_lem :
    (db : Db) (id : String) (n : ℕ)
    → IsRun 0 (journal id db.events)
    → events_after id n db.events ≡ take 4096 (drop n (journal id db.events))
unfolding events_after journal
events_after_lem db id n r =
    rw (select-select (λ e. e.execution_id == id) (λ e. ltb n e.seq) db.events) (
      rw (select_after 0 n n (journal id db.events) r (omega arith)) (
        rw (
          order_by-run (0 + n) (drop n (journal id db.events))
            (IsRun-drop 0 n (journal id db.events) r))))

is_empty-append {ℓ} : {A : Type ℓ} (xs : List A) (x : A) → is_empty (xs ++ x ∷ []) ≡ false
is_empty-append [] x = refl
is_empty-append (y ∷ xs) x = refl

-- How many rows a page takes: the first whatever its size, then as long as the budget allows.
unfoldable pub page_length : ℕ → Bool → ℕ → List EventRow → ℕ
page_length max_bytes begun bytes [] = 0
page_length max_bytes begun bytes (row ∷ rows) =
    if begun && ltb max_bytes (saturating_add bytes (blob_size row))
    then 0
    else suc (page_length max_bytes true (saturating_add bytes (blob_size row)) rows)

module _ (b64 : Base64) (id : String) where
  -- The events that rows stand for.
  unfoldable pub decoded : List EventRow → List ExecutionEvent
  decoded [] = []
  decoded (row ∷ rows) = elim (event_from_row b64 id row) [
    | ok e ↦ e ∷ decoded rows
    | err x ↦ decoded rows
  ]

  abbrev pub event_of : EventRow → ExecutionEventPayload → ExecutionEvent
  event_of row p = record {
    execution_id = id;
    seq = row.seq;
    timestamp_ms = row.timestamp_ms;
    payload = p;
  }

  pub event_from_row_ok :
      (row : EventRow) (p : ExecutionEventPayload)
      → event_payload b64 row ≡ ok p
      → event_from_row b64 id row ≡ ok (event_of row p)
  unfolding event_from_row
  event_from_row_ok row p h = rw (h, event_from_row)

  pub fill_lem :
      (max_bytes : ℕ) (events : List ExecutionEvent) (bytes : ℕ) (rows : List EventRow)
      → All IsReadable rows
      → let k = page_length max_bytes (not (is_empty events)) bytes rows in
        fill b64 id max_bytes events bytes rows
        ≡ ok (events ++ decoded (take k rows), ltb k (length rows))
  unfolding fill page_length decoded
  fill_lem max_bytes events bytes [] h = rw append-nil
  fill_lem max_bytes events bytes (row ∷ rows) h =
      let size = saturating_add bytes (blob_size row) in
      let (p, readable) = h.0 b64 in
      let e = event_of row p in
      let ih = fill_lem max_bytes (events ++ e ∷ []) size rows h.1 in
      let k = page_length max_bytes true size rows in
      ground (
        arith,
        event_from_row_ok row p readable,
        ih,
        is_empty-append events e,
        append-nil events,
        append_assoc events (e ∷ []) (decoded (take k rows)),
      )
