-- ===== src/Recorder/Capture/Limit.antt =====
-- What is recorded of a terminal is the text of its first bytes.
use native.Mathlib.Nat.{sub-zero}
use loomterm.Prelude.{
  ℕ, zero, suc, ◌+◌, ◌-◌, ◌≤◌, ◌≡◌, refl, sym, ap, ◌∙◌, inl, inr, min, Bool, false, ◌||◌, Option,
  none, some, List, [], ◌∷◌, ◌++◌, arith, ltb, if◌then◌else◌, length, take, append-nil,
  append_assoc, length-append, take-nil, Bool-cases,
}
use loomterm.Model.Execution.{Bytes}
use loomterm.Recorder.Utf8.{push, finish, decode_chunks, lossy}
use loomterm.Recorder.Utf8.Chunks.{all_text, all_text-append, or_nothing, decode_chunks-eq-lossy}
use loomterm.Recorder.Capture.{record_reads, capture_output, last_text}

-- The bytes of the reads up to the one that has none.
abbrev pub bytes_read : List Bytes → Bytes
bytes_read [] = []
bytes_read ([] ∷ chunks) = []
bytes_read ((b ∷ bytes) ∷ chunks) = (b ∷ bytes) ++ bytes_read chunks

-- The parts of the reads that go to the decoder.
kept : ℕ → List Bytes → List Bytes
kept room [] = []
kept room ([] ∷ chunks) = []
kept room ((b ∷ bytes) ∷ chunks) =
    let n = min room (length (b ∷ bytes)) in
    let rest = kept (room - n) chunks in if ltb 0 n then take n (b ∷ bytes) ∷ rest else rest

take-append-room :
    (room : ℕ) (xs ys : Bytes)
    → take room (xs ++ ys) ≡ take (min room (length xs)) xs ++ take (room - min room (length xs)) ys
take-append-room zero xs ys = ground arith
take-append-room (suc room) [] ys =
    let none_of : min (suc room) 0 ≡ 0 = omega arith in rw (none_of, sub-zero) refl
take-append-room (suc room) (x ∷ xs) ys =
    let one : min (suc room) (suc (length xs)) ≡ suc (min room (length xs)) = omega arith in
    let rest : suc room - suc (min room (length xs)) ≡ room - min room (length xs) = omega arith in
    rw (one, rest) (ap (λ t. x ∷ t) (take-append-room room xs ys))

all_text-kept :
    (room : ℕ) (chunks : List Bytes) → all_text (kept room chunks) ≡ take room (bytes_read chunks)
unfolding kept
all_text-kept room [] = sym (take-nil room)
all_text-kept room ([] ∷ chunks) = sym (take-nil room)
all_text-kept room ((b ∷ bytes) ∷ chunks) =
    let chunk = b ∷ bytes in
    let n = min room (length chunk) in
    let ih = all_text-kept (room - n) chunks in
    let split = take-append-room room chunk (bytes_read chunks) in
    elim (Bool-cases (ltb 0 n)) [
      | inl some_of ↦ rw (some_of, split, kept) (ap (λ t. take n chunk ++ t) ih)
      | inr none_of ↦
          let zero_of : n ≡ 0 = ground (arith, none_of) in
          rw (none_of, split, kept)
            (ih ∙ sym (ap (λ k. take k chunk ++ take (room - n) (bytes_read chunks)) zero_of))
    ]

-- The loop decodes the parts that are kept.
record_reads-decodes :
    (limit captured : ℕ) (truncated : Bool) (pending : Bytes) (chunks : List Bytes)
    → captured ≤ limit
    → let (texts, left) = decode_chunks pending (kept (limit - captured) chunks) in
      (record_reads limit captured truncated pending chunks).texts
      ≡ texts ++ last_text (finish left)
unfolding record_reads decode_chunks kept
record_reads-decodes limit captured truncated pending [] h = refl
record_reads-decodes limit captured truncated pending ([] ∷ chunks) h = refl
record_reads-decodes limit captured truncated pending ((b ∷ bytes) ∷ chunks) h =
    let chunk = b ∷ bytes in
    let n = min (limit - captured) (length chunk) in
    let room : limit - (captured + n) ≡ (limit - captured) - n = omega arith in
    let cut = truncated || ltb n (length chunk) in
    let (texts, left) = push pending (take n chunk) in
    elim (Bool-cases (ltb 0 n)) [
      | inl some_of ↦
          let ih =
            rw room at (record_reads-decodes limit (captured + n) cut left chunks (omega arith)) in
          rw (some_of, record_reads, kept) (ap (λ t. texts ++ t) ih ∙ sym (append_assoc texts _ _))
      | inr none_of ↦
          let ih = record_reads-decodes limit captured cut pending chunks h in
          let same : (limit - captured) - n ≡ limit - captured = ground (arith, none_of) in
          rw (none_of, same, record_reads, kept) ih
    ]

record_reads-counts :
    (limit captured : ℕ) (truncated : Bool) (pending : Bytes) (chunks : List Bytes)
    → captured ≤ limit
    → let s = record_reads limit captured truncated pending chunks in
      (s.captured ≡ captured + min (limit - captured) (length (bytes_read chunks)))
      × (s.truncated ≡ (truncated || ltb (limit - captured) (length (bytes_read chunks))))
unfolding record_reads
record_reads-counts limit captured truncated pending [] h = ground arith
record_reads-counts limit captured truncated pending ([] ∷ chunks) h = ground arith
record_reads-counts limit captured truncated pending ((b ∷ bytes) ∷ chunks) h =
    let chunk = b ∷ bytes in
    let n = min (limit - captured) (length chunk) in
    let cut = truncated || ltb n (length chunk) in
    let left = (push pending (take n chunk)).1 in
    let size = length-append chunk (bytes_read chunks) in
    elim (Bool-cases (ltb 0 n)) [
      | inl some_of ↦
          let ih = record_reads-counts limit (captured + n) cut left chunks (omega arith) in
          rw (some_of, record_reads) (ground (arith, ih, size))
      | inr none_of ↦
          let ih = record_reads-counts limit captured cut pending chunks h in
          rw (none_of, record_reads) (ground (arith, ih, size, none_of))
    ]

all_text-last : (o : Option Bytes) → all_text (last_text o) ≡ or_nothing o
all_text-last none = refl
all_text-last (some text) = append-nil text

-- The recorded texts, joined, are the lossy decoding of the first bytes that were read, up to the
-- limit and up to a read that ends the loop, however the reads cut them; their number is counted;
-- and the recording is marked as truncated exactly when more bytes were read.
pub capture_output_limit :
    (limit : ℕ) (chunks : List Bytes)
    → let s = capture_output limit chunks in
      let bytes = bytes_read chunks in
      (all_text s.texts ≡ lossy (take limit bytes))
      × (s.captured ≡ min limit (length bytes))
      × (s.truncated ≡ ltb limit (length bytes))
unfolding capture_output
capture_output_limit limit chunks =
    let counts = record_reads-counts limit 0 false [] chunks (omega arith) in
    let parts = kept limit chunks in
    let (texts, left) = decode_chunks [] parts in
    let decoded = rw sub-zero at (record_reads-decodes limit 0 false [] chunks (omega arith)) in
    (
      ap all_text decoded
          ∙ all_text-append texts (last_text (finish left))
          ∙ ap (λ t. all_text texts ++ t) (all_text-last (finish left))
          ∙ decode_chunks-eq-lossy parts
          ∙ ap lossy (all_text-kept limit chunks),
      omega (arith, counts.0),
      rw sub-zero at counts.1,
    )
