-- ===== src/Executor/Capture.antt =====
-- `capture_output` of src/executor.rs: what of a chunk of output is sent to the capture writer. The
-- counter `captured` wraps around as an `AtomicU64` does, and the channel takes every record.
pub mod Limit
use loomterm.Prelude.{
  ℕ, ◌+◌, ◌-◌, ◌%◌, ◌^◌, min, String, Bool, true, false, not, ◌&&◌, List, [], ◌∷◌, ◌++◌, ltb,
  if◌then◌else◌, length, take,
}
use loomterm.Model.Execution.{Bytes, OutputStream}
use loomterm.Store.Executions.Batch.{CaptureRecord, output_record, truncated_record}

-- The two atomics that the streams of an execution share.
pub record CaptureState : Type 0 where
  pub captured : ℕ
  pub truncated : Bool

-- A chunk with the time at which it is read.
pub record Chunk : Type 0 where
  pub timestamp_ms : ℕ
  pub stream : OutputStream
  pub bytes : Bytes

module _ (id : String) (capture_limit : ℕ) where
  -- How much of a chunk is persisted.
  abbrev pub persist : CaptureState → Chunk → ℕ
  persist s c = min (capture_limit - s.captured) (length c.bytes)

  unfoldable pub capture_output : CaptureState → Chunk → List CaptureRecord × CaptureState
  capture_output s c =
      let kept = persist s c in
      let cut = ltb kept (length c.bytes) in
      (
        (if ltb 0 kept
              then output_record id c.timestamp_ms c.stream (take kept c.bytes) ∷ []
              else [])
            ++ (if cut && not s.truncated
                then truncated_record id c.timestamp_ms capture_limit ∷ []
                else []),
        record {
          captured = (s.captured + length c.bytes) % 2 ^ 64;
          truncated = if cut then true else s.truncated;
        },
      )

  -- The chunks of an execution in the order in which they arrive.
  unfoldable pub capture_all : CaptureState → List Chunk → List CaptureRecord × CaptureState
  unfolding capture_output
  capture_all s [] = ([], s)
  capture_all s (c ∷ chunks) =
      let (records, s') = capture_output s c in
      let (more, s'') = capture_all s' chunks in (records ++ more, s'')

abbrev pub not_captured : CaptureState
not_captured = record { captured = 0; truncated = false }
