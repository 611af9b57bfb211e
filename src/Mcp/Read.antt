-- ===== src/Mcp/Read.antt =====
-- A page that `loom_read` returns.
use native.Mathlib.Nat.{zero-add, add-zero}
use loomterm.Prelude.{
  ℕ, zero, suc, ◌+◌, ◌*◌, ◌≤◌, ◌<◌, String, ◌≡◌, refl, sym, ap, ◌∙◌, true, ◌||◌, ◌==◌, Option, none,
  some, List, [], ◌∷◌, arith, ltb, lt→ltb, length, take, drop, sum_by, inl, inr, ◌⊎◌, min, All,
  All-take, All-drop, All-select, take-take, length-take, length-drop, eq_iff,
}
use native.Mathlib.Decide.{dec_lt}
use loomterm.Result.{ok, Error}
use loomterm.Model.Execution.{Base64, ExecutionEvent}
use loomterm.Store.Tables.{Db, ExecutionRow, EventRow, find_execution}
use loomterm.Store.Rows.{execution_from_row}
use loomterm.Store.Journal.{journal, IsReadable, IsRun, IsConsistent, HasJournal}
use loomterm.Store.Executions.Outcomes.{get_execution_found}
use loomterm.Store.Reading.{read_output, last_seq_or}
use loomterm.Store.Reading.Page.{decoded, event_from_row_ok, IsRun-drop}
use loomterm.Store.Reading.Cursor.{read_output_page, page_after, IsRun-take, last_seq_or-decoded}
use loomterm.Daemon.Live.Stored.{stored, length-stored}
use loomterm.Mcp.{
  page_response, allowed_execution, ReadInput, ToolEvent, ToolOutputResponse, OutputFormat,
  convert_events, normalized_max, clamp, read, ensure_workspace_match,
}
use loomterm.Mcp.Convert.{raw_size, AreShown, convert_events-Returns, decoded-IsDecodable}

normalized_max_bounds :
    (value : Option ℕ) → (1 ≤ normalized_max value) × (normalized_max value ≤ 1024 * 1024)
unfolding normalized_max
normalized_max_bounds none = ground arith
normalized_max_bounds (some n) = ground arith

-- The budget that is asked for: 256 KiB unless another is named, at least 1 byte, at most 1 MiB.
abbrev pub asked : Option ℕ → ℕ
asked none = 256 * 1024
asked (some zero) = 1
asked (some (suc n)) = min (suc n) (1024 * 1024)

normalized_max-asked : (value : Option ℕ) → normalized_max value ≡ asked value
unfolding normalized_max
normalized_max-asked none = ground arith
normalized_max-asked (some zero) = ground arith
normalized_max-asked (some (suc n)) = ground arith

clamp_within : (n : ℕ) → 1 ≤ n → n ≤ 1024 * 1024 → clamp 1 (8 * 1024 * 1024) n ≡ n
clamp_within n h g = ground arith

more_behind :
    (n j k last : ℕ)
    → j ≤ k
    → n + k ≤ last
    → (ltb (n + k) last || ltb j k || ltb (n + j) (n + k)) ≡ ltb (n + j) last
more_behind n j k last h g = ground arith

decoded-take :
    (b64 : Base64) (id : String) (k : ℕ) (rows : List EventRow)
    → All IsReadable rows
    → decoded b64 id (take k rows) ≡ take k (decoded b64 id rows)
unfolding decoded
decoded-take b64 id zero rows h = refl
decoded-take b64 id (suc k) [] h = refl
decoded-take b64 id (suc k) (row ∷ rows) h =
    let (p, readable) = h.0 b64 in
    ground (arith, event_from_row_ok b64 id row p readable, decoded-take b64 id k rows h.1)

module _ (b64 : Base64) (error_text : Error → String) (workspace_id : String) (now : ℕ)
    (input : ReadInput) (db : Db) where
  abbrev budget : ℕ
  budget = normalized_max input.max_bytes

  -- The events behind the cursor.
  abbrev pub behind : List ExecutionEvent
  behind = stored b64 input.execution_id db input.after_seq

  -- The page of the next k events.
  abbrev pub tool_page : ExecutionRow → ℕ → List ToolEvent → ToolOutputResponse
  tool_page r k events = record {
    execution = execution_from_row now r;
    events = events;
    next_seq = input.after_seq + k;
    has_more = ltb (input.after_seq + k) r.last_seq;
  }

  module _ (c : IsConsistent db) {r : ExecutionRow}
      (found : find_execution input.execution_id db ≡ some r) where
    has_journal : HasJournal (some r) (journal input.execution_id db.events)
    has_journal = rw found at (c.journals input.execution_id)

    rows : List EventRow
    rows = drop input.after_seq (journal input.execution_id db.events)

    rows-IsReadable : All IsReadable rows
    unfolding journal rows
    rows-IsReadable =
        All-drop IsReadable input.after_seq (journal input.execution_id db.events)
          (All-select IsReadable (λ e. e.execution_id == input.execution_id) db.events c.readable)

    rows-IsRun : IsRun input.after_seq rows
    unfolding rows
    rows-IsRun =
        rw zero-add at
          (IsRun-drop 0 input.after_seq (journal input.execution_id db.events) has_journal.0)

    length-first : (k : ℕ) → input.after_seq + k ≤ r.last_seq → length (take k behind) ≡ k
    length-first k h = omega (
      arith,
      length-take {0} k behind,
      length-stored b64 input.execution_id input.after_seq c input.after_seq,
      has_journal.1,
    )

    first_decoded : (k : ℕ) → decoded b64 input.execution_id (take k rows) ≡ take k behind
    unfolding rows
    first_decoded k = decoded-take b64 input.execution_id k rows rows-IsReadable

    first_page :
        (k : ℕ)
        → decoded b64 input.execution_id
            (take k (drop input.after_seq (journal input.execution_id db.events)))
          ≡ take k behind
    unfolding rows
    first_page k = first_decoded k

    cursor_after :
        (j : ℕ)
        → input.after_seq + j ≤ r.last_seq
        → last_seq_or input.after_seq (take j behind) ≡ input.after_seq + j
    unfolding rows
    cursor_after j h =
        let n = input.after_seq in
        let run = IsRun-take n j rows rows-IsRun in
        ap (last_seq_or n) (sym (first_decoded j))
        ∙ last_seq_or-decoded b64 input.execution_id n (take j rows)
            (All-take IsReadable j rows rows-IsReadable) run
        ∙ omega (
          arith,
          length-take {0} j rows,
          length-drop {0} n (journal input.execution_id db.events),
          has_journal.1,
        )

    -- What is returned of a page of k events.
    returned_page :
        (k : ℕ)
        → input.after_seq + k ≤ r.last_seq
        → (j : ℕ) × (events : List ToolEvent) × (page_response b64 error_text workspace_id now
              (page_after b64 now input.execution_id input.after_seq k r db)
              (convert_events b64 (take k behind) input.output_format budget input.after_seq)
            ≡ inr (tool_page r j events))
          × (j ≤ k)
          × AreShown b64 input.output_format (take j behind) events
          × (sum_by (raw_size b64) (take j behind) ≤ budget)
          × (j < k → budget < sum_by (raw_size b64) (take (suc j) behind))
    returned_page k h =
        let n = input.after_seq in
        let decodable = rw (first_decoded k) at (
          decoded-IsDecodable b64 input.execution_id (take k rows)
            (All-take IsReadable k rows rows-IsReadable)) in
        let d = convert_events-Returns b64 input.output_format (take k behind) budget n decodable in
        let size = length-first k h in
        let few : d.count ≤ k = omega (arith, d.within, size) in
        let same : take d.count (take k behind) ≡ take d.count behind =
          take-take d.count k behind few in
        let cursor : d.converted.cursor ≡ n + d.count =
          d.moved ∙ ap (last_seq_or n) same ∙ cursor_after d.count (omega (arith, few)) in
        let more : d.converted.page_more ≡ ltb d.count k = d.more ∙ ap (ltb d.count) size in
        (
          d.count,
          d.converted.events,
          rw (d.returned, cursor, more)
              (ap (λ b. inr (record (tool_page r d.count d.converted.events) { has_more = b }))
                (more_behind n d.count k r.last_seq few h)),
          few,
          rw same at d.shown,
          rw same at d.budget,
          λ l.
              rw (take-take (suc d.count) k behind (omega (arith, l))) at
                (d.stopped (omega (arith, l, size))),
        )

  -- What the tool makes of the daemon's answers.
  read_as :
      (r : ExecutionRow)
      → find_execution input.execution_id db ≡ some r
      → r.workspace_id ≡ workspace_id
      → (k : ℕ)
      → let response = page_after b64 now input.execution_id input.after_seq k r db in
        read_output b64 now input.execution_id input.after_seq budget db ≡ (ok response, db)
        → read b64 error_text workspace_id now input db
          ≡ page_response b64 error_text workspace_id now response
              (convert_events b64 response.events input.output_format budget input.after_seq)
  unfolding read allowed_execution ensure_workspace_match execution_from_row
  read_as r found ours k page =
      let (low, high) = normalized_max_bounds input.max_bytes in
      let allowed : (r.workspace_id == workspace_id) ≡ true =
        (eq_iff r.workspace_id workspace_id).1 ours in
      let given = clamp_within budget low high in
      rw (get_execution_found now input.execution_id db found, allowed, given, page, read) refl

  -- On a consistent database and for a cursor that lies in the journal of an execution of the
  -- server's workspace, the tool returns the next k events behind the cursor, each with its own id,
  -- number, time and payload, where output has the number of its decoded bytes and either its
  -- base64 or its text, and the cursor behind them; it says that there is more exactly when the
  -- journal goes on; the output of the events, counted in decoded bytes, keeps to the budget that
  -- is asked for, which is 256 KiB unless the input names one, at least 1 byte and at most 1 MiB;
  -- and only at the end of the journal, or when the output of the next event is larger than the
  -- budget, is k zero.
  pub read_page :
      (r : ExecutionRow)
      → IsConsistent db
      → find_execution input.execution_id db ≡ some r
      → r.workspace_id ≡ workspace_id
      → input.after_seq ≤ r.last_seq
      → (k : ℕ) × (events : List ToolEvent) × (read b64 error_text workspace_id now input db
          ≡ inr (tool_page r k events))
        × AreShown b64 input.output_format (take k behind) events
        × (sum_by (raw_size b64) (take k behind) ≤ asked input.max_bytes)
        × (k ≡ 0
            → (input.after_seq ≡ r.last_seq)
              ⊎ (asked input.max_bytes < sum_by (raw_size b64) (take 1 behind)))
  read_page r c found ours within =
      let id = input.execution_id in
      let n = input.after_seq in
      let (low, high) = normalized_max_bounds input.max_bytes in
      let (k, page, inside, moves, fits) =
        read_output_page b64 now id n budget db c found within (omega (arith, high)) in
      let (j, events, result, few, shown, kept, stopped) = returned_page c found k inside in
      let same = normalized_max-asked input.max_bytes in
      (
        j,
        events,
        read_as r found ours k page
            ∙ ap
                (λ l.
                  page_response b64 error_text workspace_id now (page_after b64 now id n k r db)
                    (convert_events b64 l input.output_format budget n))
                (first_page c found k)
            ∙ result,
        shown,
        omega (arith, kept, same),
        λ z. elim (dec_lt n r.last_seq) [
          | yes p ↦ inr (rw (z, same) at (stopped (omega (arith, moves p, z))))
          | no p ↦ inl (omega arith)
        ],
      )

sum_by-take :
    (f : ExecutionEvent → ℕ) (k : ℕ) (events : List ExecutionEvent)
    → 0 < k
    → sum_by f (take 1 events) ≤ sum_by f (take k events)
sum_by-take f zero events h = absurd (omega arith)
sum_by-take f (suc k) [] h = omega arith
sum_by-take f (suc k) (e ∷ events) h = omega arith

sum_by_first :
    (f : ExecutionEvent → ℕ) (events : List ExecutionEvent)
    → 0 < sum_by f (take 1 events)
    → 0 < length events
sum_by_first f [] h = h
sum_by_first f (e ∷ events) h = omega arith

none_shown :
    (b64 : Base64) (format : OutputFormat) (events : List ToolEvent)
    → AreShown b64 format [] events
    → events ≡ []
none_shown b64 format [] h = refl
none_shown b64 format (e ∷ events) h = absurd h

module _ (b64 : Base64) (error_text : Error → String) (workspace_id : String) (now : ℕ)
    (input : ReadInput) (db : Db) where
  -- When the output of the event behind the cursor is larger than the budget that is asked for, the
  -- tool returns no event and the same cursor and says that there is more: a client that goes on
  -- with this cursor as long as there is more gets nothing ever again.
  pub read_stuck :
      (r : ExecutionRow)
      → IsConsistent db
      → find_execution input.execution_id db ≡ some r
      → r.workspace_id ≡ workspace_id
      → input.after_seq ≤ r.last_seq
      → normalized_max input.max_bytes
        < sum_by (raw_size b64) (take 1 (behind b64 error_text workspace_id now input db))
      → read b64 error_text workspace_id now input db
        ≡ inr (record {
          execution = execution_from_row now r;
          events = [];
          next_seq = input.after_seq;
          has_more = true;
        })
  unfolding read execution_from_row
  read_stuck r c found ours within large =
      let next = behind b64 error_text workspace_id now input db in
      let (k, events, result, shown, kept, zero_only) =
        read_page b64 error_text workspace_id now input db r c found ours within in
      let none_of : k ≡ 0 = elim (dec_lt 0 k) [
        | yes p ↦ absurd (
            omega (
              arith,
              kept,
              large,
              normalized_max-asked input.max_bytes,
              sum_by-take (raw_size b64) k next p,
            ))
        | no p ↦ omega arith
      ] in
      let nothing : events ≡ [] = none_shown b64 input.output_format events (rw none_of at shown) in
      let j : HasJournal (some r) (journal input.execution_id db.events) =
        rw found at (c.journals input.execution_id) in
      let journal_length = j.1 in
      let goes_on : input.after_seq < r.last_seq = omega (
        arith,
        sum_by_first (raw_size b64) next (omega (arith, large)),
        length-stored b64 input.execution_id input.after_seq c input.after_seq,
        journal_length,
      ) in
      rw (result, none_of, nothing, add-zero, lt→ltb input.after_seq r.last_seq goes_on) refl
