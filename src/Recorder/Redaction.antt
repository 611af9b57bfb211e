-- ===== src/Recorder/Redaction.antt =====
-- `redact_output_stream` of src/session.rs: what is replaced in the output of a recording, also where
-- a pattern is cut by the border of two events. A text is the list of its characters' codes, and a
-- position counts characters; the code counts bytes and cuts between characters.
pub mod Longest
pub mod Split
pub mod Stream
use loomterm.Prelude.{
  ℕ, zero, suc, ◌+◌, ◌-◌, Bool, true, false, not, ◌&&◌, ◌||◌, Option, none, some, List, [], ◌∷◌,
  ◌++◌, ltb, leb, eqb, if◌then◌else◌, length, take, drop, is_empty, sum_by, String,
}

abbrev pub Text : Type 0
Text = List ℕ

-- A line of a recording: output, or what is passed over.
pub data Line : Type 0 where
  output : Text → Line
  other : String → Line

-- `char::len_utf8` and `str::len`
unfoldable pub len_utf8 : ℕ → ℕ
len_utf8 c = if ltb c 0x80 then 1 else if ltb c 0x800 then 2 else if ltb c 0x10000 then 3 else 4

unfoldable pub byte_length : Text → ℕ
unfolding len_utf8
byte_length text = sum_by len_utf8 text

unfoldable pub starts_with : Text → Text → Bool
starts_with text [] = true
starts_with [] (c ∷ pattern) = false
starts_with (d ∷ text) (c ∷ pattern) = eqb d c && starts_with text pattern

pub record Replacement : Type 0 where
  pub pattern : Text
  pub text : Text

-- `max_by_key`: of several that are longest the last.
abbrev longer : Option Replacement → Replacement → Option Replacement
longer none r = some r
longer (some best) r =
    if ltb (byte_length r.pattern) (byte_length best.pattern) then some best else some r

unfoldable pub longest_match : Option Replacement → List Replacement → Text → Option Replacement
unfolding byte_length starts_with
longest_match best [] text = best
longest_match best (r ∷ replacements) text =
    longest_match
      (if not (is_empty r.pattern) && starts_with text r.pattern then longer best r else best)
      replacements text

pub record Match : Type 0 where
  pub start : ℕ
  pub end : ℕ
  pub text : Text

module _ (replacements : List Replacement) where
  -- The loop over the positions, on what is behind the position.
  unfoldable pub matches : ℕ → ℕ → Text → List Match
  unfolding longest_match
  matches zero position text = []
  matches (suc fuel) position [] = []
  matches (suc fuel) position (c ∷ text) = elim (longest_match none replacements (c ∷ text)) [
    | some r ↦
        record { start = position; end = position + length r.pattern; text = r.text }
        ∷ matches fuel (position + length r.pattern) (drop (length r.pattern) (c ∷ text))
    | none ↦ matches fuel (position + 1) text
  ]

unfoldable pub max : ℕ → ℕ → ℕ
max a b = if ltb a b then b else a

module _ (stream : Text) where
  abbrev pub slice : ℕ → ℕ → Text
  slice a b = take (b - a) (drop a stream)

  -- The loop over the matches, for the range of one event.
  unfoldable pub redact_range : List Match → ℕ → ℕ → ℕ → Text
  unfolding max
  redact_range [] cursor start end = slice cursor end
  redact_range (m ∷ ms) cursor start end =
      let skipped = redact_range ms cursor start end in
      let rest = redact_range ms (max cursor m.end) start end in
      if leb m.end start || leb end m.start
      then skipped
      else if leb start m.start
      then slice cursor m.start ++ m.text ++ rest
      else rest

  unfoldable pub redact_lines : List Match → ℕ → List Line → List Line
  unfolding redact_range
  redact_lines ms start [] = []
  redact_lines ms start (other line ∷ lines) = other line ∷ redact_lines ms start lines
  redact_lines ms start (output text ∷ lines) =
      output (redact_range ms start start (start + length text))
      ∷ redact_lines ms (start + length text) lines

-- The output of all events, one after another.
unfoldable pub output_stream : List Line → Text
output_stream [] = []
output_stream (output text ∷ lines) = text ++ output_stream lines
output_stream (other line ∷ lines) = output_stream lines

unfoldable pub redact_output_stream : List Replacement → List Line → List Line
unfolding output_stream matches redact_lines
redact_output_stream replacements lines =
    let stream = output_stream lines in
    if is_empty stream || is_empty replacements
    then lines
    else redact_lines stream (matches replacements (length stream) 0 stream) 0 lines
