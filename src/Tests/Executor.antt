-- ===== src/Tests/Executor.antt =====
-- The results on the capture of output, each applied to a concrete input.
use loomterm.Prelude.{
  String, ◌≡◌, refl, false, none, List, [], ◌∷◌, arith, ltb, length, take, sum_by, All,
  if◌then◌else◌,
}
use loomterm.Result.{Error}
use loomterm.Model.Execution.{stdout, stderr}
use loomterm.Store.Executions.Batch.{output_record}
use loomterm.Executor.Capture.{Chunk, capture_all, not_captured}
use loomterm.Executor.Capture.Limit.{
  bytes_captured, all_data, notice, EndsAtNotice, capture_all_limit,
}
use loomterm.Executor.Writer.{Poll, Writer, captured, barrier, ready, nothing, capture_writer}
use loomterm.Executor.Writer.Serves.{messages, handled, HasBatchSize, AreHonest}
use loomterm.Executor.Writer.Stores.{IsStored}
use loomterm.Executor.Writer.Order.{capture_writer_order}
use loomterm.Tests.Data.{plain, begun}

abbrev chunks : List Chunk
chunks =
    record { timestamp_ms = 1; stream = stdout; bytes = 1 ∷ 2 ∷ [] }
    ∷ record { timestamp_ms = 2; stream = stderr; bytes = 3 ∷ 4 ∷ [] }
    ∷ record { timestamp_ms = 3; stream = stdout; bytes = 5 ∷ [] }
    ∷ []

capture_all_limit_example :
    (bytes_captured (capture_all "e1" 3 not_captured chunks).0 ≡ take 3 (all_data chunks))
    × (sum_by notice (capture_all "e1" 3 not_captured chunks).0
        ≡ (if ltb 3 (length (all_data chunks)) then 1 else 0))
    × EndsAtNotice (capture_all "e1" 3 not_captured chunks).0
capture_all_limit_example = capture_all_limit "e1" 3 chunks (omega arith)

abbrev describe : Error → String
describe e = "write failed"

abbrev polls : List Poll
polls =
    ready (captured (output_record "e1" 12 stdout (1 ∷ [])))
    ∷ nothing
    ∷ ready (captured (output_record "gone" 13 stdout (2 ∷ [])))
    ∷ ready barrier
    ∷ []

abbrev fresh : Writer
fresh = record { db = begun; records = []; pending_error = none }

capture_writer_order_example :
    (handled (capture_writer plain describe false polls fresh).0 ≡ messages polls)
    × All HasBatchSize (capture_writer plain describe false polls fresh).0
    × IsStored plain describe begun
        (capture_writer plain describe false polls fresh).0
        (capture_writer plain describe false polls fresh).1.db
    × AreHonest none
        (capture_writer plain describe false polls fresh).0
        (capture_writer plain describe false polls fresh).1.pending_error
    × ((capture_writer plain describe false polls fresh).1.records ≡ [])
capture_writer_order_example = capture_writer_order plain describe polls fresh refl
