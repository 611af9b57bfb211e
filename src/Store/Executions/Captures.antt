-- ===== src/Store/Executions/Captures.antt =====
-- What one turn of the loop of `append_capture_batch` of src/store.rs does on each branch, on a
-- consistent database.
use loomterm.Prelude.{ℕ, ◌+◌, String, ◌≡◌, refl, true, none, some, arith, length}
use loomterm.Result.{ok, err, execution_not_found}
use loomterm.Model.Execution.{
  Base64, Bytes, OutputStream, capture_truncated, output, stdout, stderr,
}
use loomterm.Store.Tables.{Db, ExecutionRow, EventRow, truncated_json, find_execution}
use loomterm.Store.Rows.{output_event, stream_as_str, event_payload}
use loomterm.Store.Journal.{IsConsistent, IsReadable, append_event, insert_next}
use loomterm.Store.Executions.{next_seq}
use loomterm.Store.Executions.Batch.{append_record, output_record, truncated_record}
use loomterm.Store.Executions.Outcomes.{next_seq_found}

-- What one turn of the batch loop writes.
abbrev pub output_row : String → ℕ → OutputStream → Bytes → ℕ → EventRow
output_row id timestamp stream bytes seq = record {
  execution_id = id;
  seq = seq;
  timestamp_ms = timestamp;
  kind = "output";
  stream = some (stream_as_str stream);
  blob = some bytes;
  payload_json = none;
}

pub output_row-IsReadable :
    (id : String) (t : ℕ) (stream : OutputStream) (bytes : Bytes) (seq : ℕ)
    → IsReadable (output_row id t stream bytes seq)
unfolding event_payload
output_row-IsReadable id t stdout bytes seq b64 = (output stdout (b64.encode bytes), refl)
output_row-IsReadable id t stderr bytes seq b64 = (output stderr (b64.encode bytes), refl)

abbrev pub to_captured : Bytes → ℕ → ExecutionRow → ExecutionRow
to_captured bytes seq r = record r {
  last_seq = seq;
  captured_bytes = r.captured_bytes + length bytes;
}

abbrev pub truncated_row : String → ℕ → ℕ → ℕ → EventRow
truncated_row id timestamp limit seq = record {
  execution_id = id;
  seq = seq;
  timestamp_ms = timestamp;
  kind = "capture_truncated";
  stream = none;
  blob = none;
  payload_json = some (truncated_json limit);
}

pub truncated_row-IsReadable :
    (id : String) (t limit seq : ℕ) → IsReadable (truncated_row id t limit seq)
unfolding event_payload
truncated_row-IsReadable id t limit seq b64 = (capture_truncated limit, refl)

abbrev pub to_truncated : ℕ → ExecutionRow → ExecutionRow
to_truncated seq r = record r { last_seq = seq; output_truncated = true }

module _ (b64 : Base64) (db : Db) (id : String) (t : ℕ) where
  pub append_output_missing :
      (stream : OutputStream) (bytes : Bytes)
      → find_execution id db ≡ none
      → append_record b64 (output_record id t stream bytes) db ≡ (err (execution_not_found id), db)
  unfolding append_record next_seq
  append_output_missing stream bytes h = rw h

  pub append_truncated_missing :
      (limit : ℕ)
      → find_execution id db ≡ none
      → append_record b64 (truncated_record id t limit) db ≡ (err (execution_not_found id), db)
  unfolding append_record next_seq
  append_truncated_missing limit h = rw h

  module _ {r : ExecutionRow} (found : find_execution id db ≡ some r) (c : IsConsistent db) where
    pub append_output_ok :
        (stream : OutputStream) (bytes : Bytes)
        → let seq = r.last_seq + 1 in
          append_record b64 (output_record id t stream bytes) db ≡ (
            ok (output_event b64 id seq t stream bytes),
            append_event id (output_row id t stream bytes seq) (to_captured bytes seq) db,
          )
    unfolding append_record
    append_output_ok stream bytes =
        let seq = r.last_seq + 1 in
        ground (
          arith,
          next_seq_found db id found,
          insert_next c (output_row id t stream bytes seq) found refl refl,
        )

    pub append_truncated_ok :
        (limit : ℕ)
        → let seq = r.last_seq + 1 in
          append_record b64 (truncated_record id t limit) db ≡ (
            ok (record {
              execution_id = id;
              seq = seq;
              timestamp_ms = t;
              payload = capture_truncated limit;
            }),
            append_event id (truncated_row id t limit seq) (to_truncated seq) db,
          )
    unfolding append_record
    append_truncated_ok limit =
        let seq = r.last_seq + 1 in
        ground (
          arith,
          next_seq_found db id found,
          insert_next c (truncated_row id t limit seq) found refl refl,
        )
