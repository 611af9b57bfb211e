-- ===== src/Store/Reading/Cursor.antt =====
-- The cursor of `read_output`: what one page returns, and that it moves on.
use loomterm.Prelude.{
  ℕ, zero, suc, ◌+◌, ◌-◌, ◌≤◌, ◌<◌, min, String, ◌≡◌, refl, ap, ◌∙◌, Bool, true, false, ◌||◌, ◌⊎◌,
  inl, inr, some, List, [], ◌∷◌, arith, ◌==◌, ltb, Bool-cases, length, take, drop, sum_by, All,
  All-take, All-drop, take-take, All-select, length-take, length-drop,
}
use native.Mathlib.Nat.{zero-add}
use loomterm.Result.{ok}
use loomterm.Model.Execution.{Base64, ReadOutputResponse}
use loomterm.Store.Tables.{Db, ExecutionRow, EventRow, find_execution}
use loomterm.Store.Rows.{execution_from_row}
use loomterm.Store.Journal.{journal, blob_size, IsRun, IsReadable, IsConsistent, HasJournal}
use loomterm.Store.Executions.{get_execution}
use loomterm.Store.Reading.{saturating_add, usize_max, last_seq_or, read_output}
use loomterm.Store.Reading.Page.{
  page_length, decoded, event_from_row_ok, fill_lem, events_after_lem, IsRun-drop,
}

pub IsRun-take : (a k : ℕ) (rows : List EventRow) → IsRun a rows → IsRun a (take k rows)
IsRun-take a zero rows r = tt
IsRun-take a (suc k) [] r = tt
IsRun-take a (suc k) (e ∷ rows) r = (r.0, IsRun-take (suc a) k rows r.1)

-- The last event of a page has the number of its row.
pub last_seq_or-decoded :
    (b64 : Base64) (id : String) (a : ℕ) (rows : List EventRow)
    → All IsReadable rows
    → IsRun a rows
    → last_seq_or a (decoded b64 id rows) ≡ a + length rows
unfolding last_seq_or decoded
last_seq_or-decoded b64 id a [] h r = omega arith
last_seq_or-decoded b64 id a (row ∷ rows) h r =
    let (p, readable) = h.0 b64 in
    ground (
      arith,
      event_from_row_ok b64 id row p readable,
      last_seq_or-decoded b64 id (suc a) rows h.1 r.1,
      r.0,
    )

page_length-le :
    (max_bytes : ℕ) (begun : Bool) (bytes : ℕ) (rows : List EventRow)
    → page_length max_bytes begun bytes rows ≤ length rows
unfolding page_length
page_length-le max_bytes begun bytes [] = omega arith
page_length-le max_bytes begun bytes (row ∷ rows) =
    ground (arith, page_length-le max_bytes true (saturating_add bytes (blob_size row)) rows)

-- Once a page has begun, it stays within the budget.
page_length-budget :
    (max_bytes bytes : ℕ) (rows : List EventRow)
    → max_bytes < usize_max
    → bytes ≤ max_bytes
    → bytes + sum_by blob_size (take (page_length max_bytes true bytes rows) rows) ≤ max_bytes
unfolding page_length saturating_add
page_length-budget max_bytes bytes [] m h = omega arith
page_length-budget max_bytes bytes (row ∷ rows) m h =
    elim (Bool-cases (ltb max_bytes (saturating_add bytes (blob_size row)))) [
      | inl full ↦ rw full (omega arith)
      | inr fits ↦
          let small : bytes + blob_size row ≤ max_bytes = ground arith in
          let same : saturating_add bytes (blob_size row) ≡ bytes + blob_size row = omega arith in
          rw (fits, same)
            (omega (arith, page_length-budget max_bytes (bytes + blob_size row) rows m small))
    ]

-- A page whose first row does not fit has that row alone.
page_length-over :
    (max_bytes bytes : ℕ) (rows : List EventRow)
    → max_bytes < bytes
    → bytes ≤ usize_max
    → page_length max_bytes true bytes rows ≡ 0
unfolding page_length saturating_add
page_length-over max_bytes bytes [] h m = refl
page_length-over max_bytes bytes (row ∷ rows) h m = ground arith

-- The budget of a whole page: within `max_bytes`, or a single row.
page_length_budget :
    (max_bytes : ℕ) (rows : List EventRow)
    → max_bytes < usize_max
    → let k = page_length max_bytes false 0 rows in
      (sum_by blob_size (take k rows) ≤ max_bytes) ⊎ (k ≡ 1)
unfolding page_length saturating_add
page_length_budget max_bytes [] m = inl (omega arith)
page_length_budget max_bytes (row ∷ rows) m =
    elim (Bool-cases (ltb max_bytes (saturating_add 0 (blob_size row)))) [
      | inl over ↦
          let big : max_bytes < saturating_add 0 (blob_size row) = ground arith in
          inr (ap suc (page_length-over max_bytes _ rows big (omega arith)))
      | inr fits ↦
          let same : saturating_add 0 (blob_size row) ≡ blob_size row = ground arith in
          let small : blob_size row ≤ max_bytes = ground arith in
          inl (rw same (page_length-budget max_bytes (blob_size row) rows m small))
    ]

page_length_begins :
    (max_bytes : ℕ) (rows : List EventRow)
    → 0 < length rows
    → 0 < page_length max_bytes false 0 rows
unfolding page_length
page_length_begins max_bytes [] h = absurd (omega arith)
page_length_begins max_bytes (row ∷ rows) h = omega arith

-- What a page of `k` rows is, read behind the cursor `n`.
abbrev pub page_after : Base64 → ℕ → String → ℕ → ℕ → ExecutionRow → Db → ReadOutputResponse
page_after b64 now id n k r db = record {
  execution = execution_from_row now r;
  events = decoded b64 id (take k (drop n (journal id db.events)));
  next_seq = n + k;
  has_more = ltb (n + k) r.last_seq;
}

module _ (b64 : Base64) (now : ℕ) (id : String) (n max_bytes : ℕ) (db : Db) (c : IsConsistent db)
    {r : ExecutionRow} (found : find_execution id db ≡ some r) (within : n ≤ r.last_seq) where
  abbrev rest : List EventRow
  rest = drop n (journal id db.events)

  abbrev rows : List EventRow
  rows = take 4096 rest

  abbrev count : ℕ
  count = page_length max_bytes false 0 rows

  has_journal : HasJournal (some r) (journal id db.events)
  has_journal = rw found at (c.journals id)

  rows-IsReadable : All IsReadable rows
  unfolding journal
  rows-IsReadable = All-take IsReadable 4096 rest (
      All-drop IsReadable n (journal id db.events)
        (All-select IsReadable (λ e. e.execution_id == id) db.events c.readable))

  length-rest : length rest ≡ r.last_seq - n
  length-rest = omega (arith, length-drop {0} n (journal id db.events), has_journal.1)

  length-rows : length rows ≡ min 4096 (r.last_seq - n)
  length-rows = omega (arith, length-take {0} 4096 rest, length-rest)

  count-le : count ≤ length rows
  count-le = page_length-le max_bytes false 0 rows

  page_rows : take count rows ≡ take count rest
  page_rows = take-take count 4096 rest (omega (arith, count-le, length-rows))

  next_seq : last_seq_or n (decoded b64 id (take count rows)) ≡ n + count
  next_seq =
      let taken : All IsReadable (take count rows) =
        All-take IsReadable count rows rows-IsReadable in
      let run : IsRun n (take count rows) = IsRun-take n count rows (
        IsRun-take n 4096 rest
          (rw zero-add at (IsRun-drop 0 n (journal id db.events) has_journal.0))) in
      last_seq_or-decoded b64 id n (take count rows) taken run
      ∙ omega (arith, length-take {0} count rows, count-le)

  get_execution_found : get_execution now id db ≡ (ok (execution_from_row now r), db)
  unfolding get_execution
  get_execution_found = rw found

  -- A page that stopped early leaves events behind.
  has_more : ltb count (length rows) || ltb (n + count) r.last_seq ≡ ltb (n + count) r.last_seq
  has_more = ground (arith, length-rows, count-le)

  read_output-eq :
      read_output b64 now id n max_bytes db ≡ (ok (page_after b64 now id n count r db), db)
  unfolding read_output execution_from_row
  read_output-eq =
      rw
        (
          get_execution_found,
          events_after_lem db id n has_journal.0,
          fill_lem b64 id max_bytes [] 0 rows rows-IsReadable,
        )
        (rw (next_seq, has_more, page_rows))

  -- Reading behind a cursor that lies in the journal succeeds and changes nothing. The page has the
  -- next k events in order and the cursor behind them, and says that there is more exactly when the
  -- journal goes on; it is not empty unless the cursor stands at the end, and it keeps to the byte
  -- budget unless it has a single event.
  pub read_output_page :
      max_bytes < usize_max
      → (k : ℕ) × (read_output b64 now id n max_bytes db
          ≡ (ok (page_after b64 now id n k r db), db))
        × (n + k ≤ r.last_seq)
        × (n < r.last_seq → 0 < k)
        × ((sum_by blob_size (take k (drop n (journal id db.events))) ≤ max_bytes) ⊎ (k ≡ 1))
  read_output_page m = (
    count,
    read_output-eq,
    omega (arith, length-rows, count-le),
    λ h. page_length_begins max_bytes rows (omega (arith, length-rows)),
    rw (← page_rows) (page_length_budget max_bytes rows m),
  )
