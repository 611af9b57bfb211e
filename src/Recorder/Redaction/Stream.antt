-- ===== src/Recorder/Redaction/Stream.antt =====
-- The redaction of a recording is the redaction of its whole output, whatever the borders of its
-- events.
use native.Mathlib.Nat.{zero-add}
use loomterm.Prelude.{
  ℕ, zero, suc, ◌+◌, ◌-◌, ◌≤◌, ◌<◌, ◌≡◌, refl, sym, subst, ap, ◌∙◌, true, inl, inr, List, [], ◌∷◌,
  ◌++◌, append-nil, arith, Bool-cases, length, take, drop, length-append, length-drop, drop-drop,
  some, none, is_empty, Option-cases, map,
}
use loomterm.Recorder.Redaction.{
  Text, Match, Line, output, other, Replacement, max, slice, redact_range, matches, longest_match,
  redact_lines, output_stream, redact_output_stream,
}
use loomterm.Recorder.Redaction.Longest.{
  Fits, longest_match-Fit, redact_all, Redacts, redact_all-Redacts,
}
use loomterm.Recorder.Redaction.Split.{
  AreApart, redact_range-append, slice_none, range_before, max_right, range_whole, range_skip,
}

module _ (replacements : List Replacement) where
  found-Fits :
      (text : Text) (r : Replacement) → longest_match none replacements text ≡ some r → Fits text r
  found-Fits text r h = rw h at (longest_match-Fit none replacements text tt)

  apart_weaken : (low less : ℕ) (ms : List Match) → less ≤ low → AreApart low ms → AreApart less ms
  apart_weaken low less [] h a = tt
  apart_weaken low less (m ∷ ms) h a = (omega (arith, a.0), a.1, a.2)

  matches-AreApart :
      (fuel position : ℕ) (text : Text)
      → AreApart position (matches replacements fuel position text)
  unfolding matches
  matches-AreApart zero position text = tt
  matches-AreApart (suc fuel) position [] = tt
  matches-AreApart (suc fuel) position (c ∷ text) =
      elim (Option-cases (longest_match none replacements (c ∷ text))) [
        | inl h ↦
            rw (h, AreApart)
              (apart_weaken (position + 1) position _ (omega arith)
                (matches-AreApart fuel (position + 1) text))
        | inr (r, h) ↦
            let fits = found-Fits (c ∷ text) r h in
            rw (h, AreApart)
              (
                omega arith,
                omega (arith, fits.0),
                matches-AreApart fuel (position + length r.pattern)
                    (drop (length r.pattern) (c ∷ text)),
              )
      ]

module _ (replacements : List Replacement) (stream : Text) where
  -- The first character behind a position, when nothing is replaced before it.
  slice_first : (p c : ℕ) (text : Text) → drop p stream ≡ c ∷ text → slice stream p (p + 1) ≡ c ∷ []
  slice_first p c text h =
      let one : (p + 1) - p ≡ 1 = omega arith in
      ap (λ n. take n (drop p stream)) one ∙ ap (take 1) h

  drop-next : (p k : ℕ) (text : Text) → drop p stream ≡ text → drop (p + k) stream ≡ drop k text
  drop-next p k text h = sym (drop-drop k p stream) ∙ ap (drop k) h

  copied :
      (ms : List Match) (p c end : ℕ) (text : Text)
      → drop p stream ≡ c ∷ text
      → p < end
      → AreApart (p + 1) ms
      → redact_range stream ms p p end ≡ c ∷ redact_range stream ms (p + 1) (p + 1) end
  copied ms p c end text h l apart =
      redact_range-append stream ms p p (p + 1) end (omega arith) (omega arith) (omega arith)
        (inr (refl, apart_weaken replacements (p + 1) 0 ms (omega arith) apart))
      ∙ rw
          (
            range_before stream ms (p + 1) p p (p + 1) apart (omega arith),
            slice_first p c text h,
            max_right stream p (p + 1) (omega arith),
          )
          refl

  replaced :
      (ms : List Match) (p k end : ℕ) (text : Text)
      → 0 < k
      → p + k ≤ end
      → AreApart (p + k) ms
      → redact_range stream (record { start = p; end = p + k; text = text } ∷ ms) p p end
        ≡ text ++ redact_range stream ms (p + k) (p + k) end
  replaced ms p k end text h l apart =
      let m : Match = record { start = p; end = p + k; text = text } in
      redact_range-append stream (m ∷ ms) p p (p + k) end (omega arith) (omega arith) l
        (inl (omega arith, omega arith, apart))
      ∙ rw
          (
            range_whole stream m ms p p (p + k) (omega arith) (omega arith) (omega arith)
                (omega arith),
            slice_none stream p p (omega arith),
            range_before stream ms (p + k) (p + k) p (p + k) apart (omega arith),
            slice_none stream (p + k) (p + k) (omega arith),
            max_right stream p (p + k) (omega arith),
            range_skip stream m ms (p + k) (p + k) end (inl (omega arith)),
            append-nil text,
          )
          refl

  -- The matches of the loop, put into the rest of the stream.
  scan :
      (fuel p : ℕ) (text : Text)
      → drop p stream ≡ text
      → length text ≤ fuel
      → p + length text ≡ length stream
      → redact_range stream (matches replacements fuel p text) p p (length stream)
        ≡ redact_all replacements fuel text
  unfolding matches redact_all redact_range
  scan zero p [] h f e = slice_none stream p (length stream) (omega arith)
  scan zero p (c ∷ text) h f e = absurd (omega arith)
  scan (suc fuel) p [] h f e = slice_none stream p (length stream) (omega arith)
  scan (suc fuel) p (c ∷ text) h f e =
      elim (Option-cases (longest_match none replacements (c ∷ text))) [
        | inl n ↦
            rw (n, redact_range, redact_all)
              (copied (matches replacements fuel (p + 1) text) p c (length stream) text h
                  (omega arith) (matches-AreApart replacements fuel (p + 1) text)
                ∙ ap (λ t. c ∷ t)
                    (scan fuel (p + 1) text (drop-next p 1 (c ∷ text) h) (omega arith)
                      (omega arith)))
        | inr (r, n) ↦
            let fits = found-Fits replacements (c ∷ text) r n in
            let k = length r.pattern in
            let left = length-drop {A = ℕ} k (c ∷ text) in
            let rest = drop k (c ∷ text) in
            rw (n, redact_range, redact_all)
              (replaced (matches replacements fuel (p + k) rest) p k (length stream) r.text fits.0
                  (omega (arith, fits.1)) (matches-AreApart replacements fuel (p + k) rest)
                ∙ ap (λ t. r.text ++ t)
                    (scan fuel (p + k) rest (drop-next p k (c ∷ text) h)
                      (omega (arith, left, fits.0)) (omega (arith, left, fits.1))))
      ]

-- No range, no text.
range_nowhere :
    (stream : Text) (ms : List Match) (cursor start : ℕ)
    → start ≤ cursor
    → redact_range stream ms cursor start start ≡ []
unfolding redact_range max
range_nowhere stream [] cursor start h = slice_none stream cursor start h
range_nowhere stream (m ∷ ms) cursor start h =
    ground (arith, range_nowhere stream ms cursor start, range_nowhere stream ms m.end start)

module _ (stream : Text) (ms : List Match) (apart : AreApart 0 ms) where
  -- The redacted events, joined.
  output_stream-redact_lines :
      (start : ℕ) (lines : List Line)
      → output_stream (redact_lines stream ms start lines)
        ≡ redact_range stream ms start start (start + length (output_stream lines))
  unfolding output_stream redact_lines
  output_stream-redact_lines start [] =
      let all : start + 0 ≡ start = omega arith in
      rw all (sym (range_nowhere stream ms start start (omega arith)))
  output_stream-redact_lines start (other line ∷ lines) = output_stream-redact_lines start lines
  output_stream-redact_lines start (output text ∷ lines) =
      let k = start + length text in
      let end : start + length (text ++ output_stream lines) ≡ k + length (output_stream lines) =
        omega (arith, length-append text (output_stream lines)) in
      let parts =
        redact_range-append stream ms start start k (k + length (output_stream lines)) (omega arith)
          (omega arith) (omega arith) (inr (refl, apart)) in
      ap (λ t. redact_range stream ms start start k ++ t) (output_stream-redact_lines k lines)
      ∙ sym (
          ap (redact_range stream ms start start) end
          ∙ parts
          ∙ ap
              (λ c.
                redact_range stream ms start start k
                ++ redact_range stream ms c k (k + length (output_stream lines)))
              (max_right stream start k (omega arith)))

-- A line with its text left out.
abbrev pub kind : Line → Line
kind (output text) = output []
kind (other line) = other line

kinds_kept :
    (stream : Text) (ms : List Match) (start : ℕ) (lines : List Line)
    → map kind (redact_lines stream ms start lines) ≡ map kind lines
unfolding redact_lines
kinds_kept stream ms start [] = refl
kinds_kept stream ms start (other line ∷ lines) =
    ap (λ t. other line ∷ t) (kinds_kept stream ms start lines)
kinds_kept stream ms start (output text ∷ lines) =
    ap (λ t. output [] ∷ t) (kinds_kept stream ms (start + length text) lines)

redact_all-nothing : (fuel : ℕ) (text : Text) → length text ≤ fuel → redact_all [] fuel text ≡ text
unfolding redact_all longest_match
redact_all-nothing zero [] h = refl
redact_all-nothing zero (c ∷ text) h = absurd (omega arith)
redact_all-nothing (suc fuel) [] h = refl
redact_all-nothing (suc fuel) (c ∷ text) h =
    ap (λ t. c ∷ t) (redact_all-nothing fuel text (omega arith))

redact_all-empty :
    (replacements : List Replacement) (fuel : ℕ) → redact_all replacements fuel [] ≡ []
unfolding redact_all
redact_all-empty replacements zero = refl
redact_all-empty replacements (suc fuel) = refl

is_empty-nil : (text : Text) → is_empty text ≡ true → text ≡ []
is_empty-nil [] h = refl
is_empty-nil (c ∷ text) h = absurd (ground (arith, h))

redacts_all :
    (replacements : List Replacement) (lines : List Line)
    → let stream = output_stream lines in
      let redacted = redact_output_stream replacements lines in
      (output_stream redacted ≡ redact_all replacements (length stream) stream)
      × (map kind redacted ≡ map kind lines)
unfolding redact_output_stream
redacts_all [] lines =
    let stream = output_stream lines in
    ground (arith, redact_all-nothing (length stream) stream (omega arith))
redacts_all (r ∷ replacements) lines =
    let stream = output_stream lines in
    elim (Bool-cases (is_empty stream)) [
      | inl none_of ↦ rw none_of (
        is_empty-nil stream none_of
            ∙ sym (
                ap (λ t. redact_all (r ∷ replacements) (length t) t) (is_empty-nil stream none_of)
                ∙ redact_all-empty (r ∷ replacements) 0),
        refl,
      )
      | inr some_of ↦ rw some_of (
        output_stream-redact_lines stream (matches (r ∷ replacements) (length stream) 0 stream)
              (matches-AreApart (r ∷ replacements) (length stream) 0 stream) 0 lines
            ∙ ap (redact_range stream (matches (r ∷ replacements) (length stream) 0 stream) 0 0)
                (zero-add (length stream))
            ∙ scan (r ∷ replacements) stream (length stream) 0 stream refl (omega arith)
                (omega arith),
        kinds_kept stream _ 0 lines,
      )
    ]

-- The joined output of the redacted lines is the joined output of the lines, scanned from the left:
-- where a pattern that is not empty begins, a longest one of those that do is replaced by its text
-- and the scan goes on behind it, and any other character is kept. So it is too where the border of
-- two events cuts a pattern. The lines stay in their places, and those that are not output stay as
-- they are.
pub redact_output_stream-redacts :
    (replacements : List Replacement) (lines : List Line)
    → let stream = output_stream lines in
      let redacted = redact_output_stream replacements lines in
      Redacts replacements stream (output_stream redacted) × (map kind redacted ≡ map kind lines)
redact_output_stream-redacts replacements lines =
    let stream = output_stream lines in
    let (same, kinds) = redacts_all replacements lines in
    (
      subst (Redacts replacements stream) (sym same)
          (redact_all-Redacts replacements (length stream) stream (omega arith)),
      kinds,
    )
