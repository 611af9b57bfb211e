-- ===== src/Recorder/Capture.antt =====
-- `capture_output` of src/session.rs on the reads of a terminal: what is recorded of them. A read of
-- no bytes ends the loop. The terminal and the recording take every write.
pub mod Limit
use loomterm.Prelude.{
  ℕ, zero, suc, ◌+◌, ◌-◌, min, Bool, true, false, ◌||◌, Option, none, some, List, [], ◌∷◌, ◌++◌,
  ltb, if◌then◌else◌, length, take,
}
use loomterm.Model.Execution.{Bytes}
use loomterm.Recorder.Utf8.{push, finish}

pub record Recording : Type 0 where
  pub texts : List Bytes
  pub captured : ℕ
  pub truncated : Bool

abbrev last_text : Option Bytes → List Bytes
last_text none = []
last_text (some text) = text ∷ []

abbrev after_texts : List Bytes → Recording → Recording
after_texts texts s = record s { texts = texts ++ s.texts }

module _ (limit : ℕ) where
  -- The loop over the reads and what follows it.
  unfoldable pub record_reads : ℕ → Bool → Bytes → List Bytes → Recording
  unfolding push finish
  record_reads captured truncated pending [] = record {
    texts = last_text (finish pending);
    captured = captured;
    truncated = truncated;
  }
  record_reads captured truncated pending ([] ∷ chunks) = record {
    texts = last_text (finish pending);
    captured = captured;
    truncated = truncated;
  }
  record_reads captured truncated pending ((b ∷ bytes) ∷ chunks) =
      let chunk = b ∷ bytes in
      let record_count = min (limit - captured) (length chunk) in
      let truncated' = truncated || ltb record_count (length chunk) in
      let (texts, pending') = push pending (take record_count chunk) in
      let skipped = record_reads captured truncated' pending chunks in
      let rest = record_reads (captured + record_count) truncated' pending' chunks in
      if ltb 0 record_count then after_texts texts rest else skipped

  unfoldable pub capture_output : List Bytes → Recording
  unfolding record_reads
  capture_output chunks = record_reads 0 false [] chunks
