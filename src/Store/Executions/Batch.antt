-- ===== src/Store/Executions/Batch.antt =====
-- `append_capture_batch` of src/store.rs: captured output and truncation notices, in one
-- transaction.
use loomterm.Prelude.{ℕ, ◌+◌, String, true, none, some, List, [], ◌∷◌, length}
use loomterm.Result.Run.{Action, pure, transaction, ◌>>=◌, ◌>>◌}
use loomterm.Model.Execution.{Base64, Bytes, OutputStream, ExecutionEvent, capture_truncated}
use loomterm.Store.Tables.{Db, truncated_json, insert_event}
use loomterm.Store.Rows.{output_event, stream_as_str}
use loomterm.Store.Executions.{next_seq, write_execution}

pub data CaptureRecord : Type 0 where
  output_record : String → ℕ → OutputStream → Bytes → CaptureRecord
  truncated_record : String → ℕ → ℕ → CaptureRecord

module _ (b64 : Base64) where
  -- One turn of the loop.
  unfoldable pub append_record : CaptureRecord → Action Db ExecutionEvent
  unfolding output_event
  append_record (output_record id timestamp stream bytes) = do
    seq ← next_seq id
    insert_event (record {
      execution_id = id;
      seq = seq;
      timestamp_ms = timestamp;
      kind = "output";
      stream = some (stream_as_str stream);
      blob = some bytes;
      payload_json = none;
    })
    write_execution id
        λ r. record r { last_seq = seq; captured_bytes = r.captured_bytes + length bytes }
    pure (output_event b64 id seq timestamp stream bytes)
  append_record (truncated_record id timestamp limit) = do
    seq ← next_seq id
    insert_event (record {
      execution_id = id;
      seq = seq;
      timestamp_ms = timestamp;
      kind = "capture_truncated";
      stream = none;
      blob = none;
      payload_json = some (truncated_json limit);
    })
    write_execution id λ r. record r { last_seq = seq; output_truncated = true }
    pure (record {
      execution_id = id;
      seq = seq;
      timestamp_ms = timestamp;
      payload = capture_truncated limit;
    })

  unfoldable pub append_records : List CaptureRecord → Action Db (List ExecutionEvent)
  append_records [] = pure []
  append_records (r ∷ records) = do
    event ← append_record r
    events ← append_records records
    pure (event ∷ events)

  unfoldable pub append_capture_batch : List CaptureRecord → Action Db (List ExecutionEvent)
  unfolding append_records append_record
  append_capture_batch [] = pure []
  append_capture_batch (r ∷ records) = transaction (append_records (r ∷ records))
