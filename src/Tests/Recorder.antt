-- ===== src/Tests/Recorder.antt =====
-- The results on the recorder, each applied to a concrete input.
use loomterm.Prelude.{◌≡◌, refl, List, [], ◌∷◌, ltb, length, take, min, map}
use loomterm.Model.Execution.{Bytes}
use loomterm.Recorder.Utf8.{lossy}
use loomterm.Recorder.Utf8.Chunks.{all_text}
use loomterm.Recorder.Capture.{capture_output}
use loomterm.Recorder.Capture.Limit.{bytes_read, capture_output_limit}
use loomterm.Recorder.Redaction.{
  Line, output, other, Replacement, output_stream, redact_output_stream,
}
use loomterm.Recorder.Redaction.Longest.{Redacts}
use loomterm.Recorder.Redaction.Stream.{kind, redact_output_stream-redacts}

-- Two reads with a character of three bytes between them.
abbrev reads : List Bytes
reads = (0x61 ∷ 0xe2 ∷ 0x82 ∷ []) ∷ (0xac ∷ 0x62 ∷ 0x63 ∷ []) ∷ []

capture_output_limit_example :
    (all_text (capture_output 5 reads).texts ≡ lossy (take 5 (bytes_read reads)))
    × ((capture_output 5 reads).captured ≡ min 5 (length (bytes_read reads)))
    × ((capture_output 5 reads).truncated ≡ ltb 5 (length (bytes_read reads)))
capture_output_limit_example = capture_output_limit 5 reads

-- The pattern 1 2 is cut by the border of two events.
abbrev secret : List Replacement
secret = record { pattern = 1 ∷ 2 ∷ []; text = 9 ∷ [] } ∷ []

abbrev lines : List Line
lines = output (0 ∷ 1 ∷ []) ∷ other "x" ∷ output (2 ∷ 3 ∷ []) ∷ []

redacted :
    redact_output_stream secret lines ≡ output (0 ∷ 9 ∷ []) ∷ other "x" ∷ output (3 ∷ []) ∷ []
unfolding redact_output_stream
redacted = refl

redact_output_stream-redacts_example :
    Redacts secret (output_stream lines) (output_stream (redact_output_stream secret lines))
    × (map kind (redact_output_stream secret lines) ≡ map kind lines)
redact_output_stream-redacts_example = redact_output_stream-redacts secret lines
