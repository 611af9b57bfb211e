-- ===== src/Store/Journal.antt =====
-- The journal of an execution, its rows in `events`, and what ties it to the row in `executions`:
-- the sequence numbers are 1, 2, …, `last_seq` and `captured_bytes` is the size of the output.
use loomterm.Prelude.{
  ℕ, suc, ◌+◌, ◌<◌, String, ◌≡◌, refl, true, false, ◌⊎◌, inl, inr, Option, none, some, List, [],
  ◌∷◌, ◌++◌, arith, ◌==◌, eq_iff, if◌then◌else◌, Bool-cases, length, sum_by, length-append,
  sum_by-append, select, select-append, select_first, select_one, has_key, HasUniqueKeys, map_row,
  find_key-update, HasUniqueKeys-update, update_where, append-nil, All, All-append,
}
use loomterm.Result.{ok}
use loomterm.Store.Tables.{
  Db, ExecutionRow, EventRow, execution_key, find_execution, insert_event, is_event,
}
use loomterm.Store.Rows.{bytes_of, event_payload}
use loomterm.Model.Execution.{Base64, ExecutionEventPayload}

unfoldable pub journal : String → List EventRow → List EventRow
journal id events = select (λ e. e.execution_id == id) events

abbrev pub blob_size : EventRow → ℕ
blob_size e = length (bytes_of e.blob)

-- The sequence numbers go on from `a` by ones.
abbrev pub IsRun : ℕ → List EventRow → Type 0
IsRun a [] = Unit
IsRun a (e ∷ events) = (e.seq ≡ suc a) × IsRun (suc a) events

abbrev pub HasJournal : Option ExecutionRow → List EventRow → Type 0
HasJournal none events = events ≡ []
HasJournal (some r) events =
    IsRun 0 events × (length events ≡ r.last_seq) × (sum_by blob_size events ≡ r.captured_bytes)

-- `event_from_row` does not fail on the row.
abbrev pub IsReadable : EventRow → Type 0
IsReadable e = (b64 : Base64) → (p : ExecutionEventPayload) × (event_payload b64 e ≡ ok p)

pub record IsConsistent (db : Db) : Type 0 where
  pub unique : HasUniqueKeys execution_key db.executions
  pub journals : (id : String) → HasJournal (find_execution id db) (journal id db.events)
  pub readable : All IsReadable db.events

pub IsRun-append :
    (a : ℕ) (events : List EventRow) (e : EventRow)
    → IsRun a events
    → e.seq ≡ suc (a + length events)
    → IsRun a (events ++ e ∷ [])
IsRun-append a [] e r h = (omega arith, tt)
IsRun-append a (x ∷ events) e r h = (r.0, IsRun-append (suc a) events e r.1 (omega arith))

-- Past the end of the journal a number is free.
free_seq :
    (id : String) (a n : ℕ) (events : List EventRow)
    → IsRun a (journal id events)
    → a + length (journal id events) < n
    → select_first (is_event id n) events ≡ none
unfolding journal select select_first is_event
free_seq id a n [] r h = refl
free_seq id a n (e ∷ events) r h = elim (Bool-cases (e.execution_id == id)) [
  | inl p ↦
      let r' : IsRun a (e ∷ journal id events) = rw (p, select) at r in
      ground (arith, p, free_seq id (suc a) n events)
  | inr p ↦ ground (arith, p, free_seq id a n events)
]

-- One more event of `id`, with the change of its row that goes with it.
abbrev pub append_event : String → EventRow → (ExecutionRow → ExecutionRow) → Db → Db
append_event id e f db = record db {
  executions = update_where (has_key execution_key id) f db.executions;
  events = db.events ++ e ∷ [];
}

-- What the row `r` has to become for the event `e`.
pub record Accounts (r : ExecutionRow) (e : EventRow) (f : ExecutionRow → ExecutionRow)
    : Type 0 where
  pub keeps_id : (x : ExecutionRow) → (f x).id ≡ x.id
  pub next : e.seq ≡ r.last_seq + 1
  pub last : (f r).last_seq ≡ e.seq
  pub size : (f r).captured_bytes ≡ r.captured_bytes + blob_size e

module _ {db : Db} (c : IsConsistent db) {id : String} {r : ExecutionRow} (e : EventRow)
    (found : find_execution id db ≡ some r) (owner : e.execution_id ≡ id) where
  -- With the next number the insertion meets both constraints.
  pub insert_next :
      e.seq ≡ r.last_seq + 1
      → insert_event e db ≡ (ok tt, record db { events = db.events ++ e ∷ [] })
  unfolding insert_event
  insert_next h =
      let j : HasJournal (some r) (journal id db.events) = rw found at (c.journals id) in
      let free : select_first (is_event e.execution_id e.seq) db.events ≡ none =
        rw owner (free_seq id 0 e.seq db.events j.0 (omega (arith, h, j.1))) in
      ground (arith, free, found, owner)

  journal-append_event :
      (k : String)
      → journal k (db.events ++ e ∷ []) ≡ journal k db.events ++ (if id == k then e ∷ [] else [])
  unfolding journal
  journal-append_event k = rw (select-append, select_one, owner)

  pub IsConsistent-append_event :
      (f : ExecutionRow → ExecutionRow)
      → Accounts r e f
      → IsReadable e
      → IsConsistent (append_event id e f db)
  IsConsistent-append_event f acc legible = record {
    unique = HasUniqueKeys-update execution_key id f db.executions acc.keeps_id c.unique;
    journals = λ k.
        rw (find_key-update execution_key id k f db.executions acc.keeps_id, journal-append_event k)
          (by_key k (Bool-cases (id == k)));
    readable = All-append IsReadable db.events (e ∷ []) c.readable (legible, tt);
  }
    where
      by_key :
          (k : String)
          → ((id == k) ≡ true) ⊎ ((id == k) ≡ false)
          → HasJournal
              (if id == k then map_row f (find_execution k db) else find_execution k db)
              (journal k db.events ++ (if id == k then e ∷ [] else []))
      by_key k (inl p) =
          let j : HasJournal (some r) (journal id db.events) = rw found at (c.journals id) in
          rw (p, ← (eq_iff id k).0 p, found)
            (
              IsRun-append 0 (journal id db.events) e j.0 (omega (arith, acc.next, j.1)),
              omega (
                arith,
                length-append {0} (journal id db.events) (e ∷ []),
                j.1,
                acc.next,
                acc.last,
              ),
              omega (
                arith,
                sum_by-append {0} blob_size (journal id db.events) (e ∷ []),
                j.2,
                acc.size,
              ),
            )
      by_key k (inr p) = rw (p, append-nil) (c.journals k)
