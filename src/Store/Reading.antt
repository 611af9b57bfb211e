-- ===== src/Store/Reading.antt =====
-- `Database::read_output` of src/store.rs: one page of the events of an execution after a cursor.
pub mod Page
pub mod Cursor
use loomterm.Prelude.{
  ℕ, suc, ◌+◌, ◌-◌, ◌^◌, min, String, ◌≡◌, Bool, true, false, not, ◌&&◌, ◌||◌, Option, none, some,
  List, [], ◌∷◌, ◌++◌, ◌==◌, ltb, leb, if◌then◌else◌, length, is_empty, take, select, order_by,
}
use loomterm.Result.{Result, ok, err}
use loomterm.Result.Try
use loomterm.Result.Run.{Action, lift, pure, ◌>>=◌}
use loomterm.Model.Execution.{Base64, ExecutionEvent, ReadOutputResponse}
use loomterm.Store.Tables.{Db, EventRow}
use loomterm.Store.Rows.{event_from_row, execution_from_row}
use loomterm.Store.Journal.{blob_size}
use loomterm.Store.Executions.{execution_row, get_execution}

abbrev pub usize_max : ℕ
usize_max = 2 ^ 64 - 1

unfoldable pub saturating_add : ℕ → ℕ → ℕ
saturating_add a b = min usize_max (a + b)

-- SELECT … FROM events WHERE execution_id = ?1 AND seq > ?2 ORDER BY seq LIMIT 4096
unfoldable pub events_after : String → ℕ → List EventRow → List EventRow
events_after id after_seq events = take 4096 (
    order_by (λ a b. leb a.seq b.seq)
      (select (λ e. e.execution_id == id && ltb after_seq e.seq) events))

-- `events.last().map_or(after_seq, |event| event.seq)`
unfoldable pub last_seq_or : ℕ → List ExecutionEvent → ℕ
last_seq_or after_seq [] = after_seq
last_seq_or after_seq (e ∷ events) = last_seq_or e.seq events

module _ (b64 : Base64) (id : String) (max_bytes : ℕ) where
  -- The `while let` loop over the rows; the result has the events and `has_more`.
  unfoldable pub fill :
      List ExecutionEvent → ℕ → List EventRow → Result (List ExecutionEvent × Bool)
  fill events bytes [] = ok (events, false)
  fill events bytes (row ∷ rows) =
      if not (is_empty events) && ltb max_bytes (saturating_add bytes (blob_size row))
      then ok (events, true)
      else Try.◌>>=◌ (event_from_row b64 id row)
          λ e. fill (events ++ e ∷ []) (saturating_add bytes (blob_size row)) rows

unfoldable pub read_output : Base64 → ℕ → String → ℕ → ℕ → Action Db ReadOutputResponse
read_output b64 now id after_seq max_bytes db =
    (get_execution now id >>= λ execution.
    lift (fill b64 id max_bytes [] 0 (events_after id after_seq db.events)) >>= λ page.
    let (events, stopped) = page in
    let next_seq = last_seq_or after_seq events in
    pure (record {
      execution = execution;
      events = events;
      next_seq = next_seq;
      has_more = stopped || ltb next_seq execution.last_seq;
    }))
      db
