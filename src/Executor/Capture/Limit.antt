-- ===== src/Executor/Capture/Limit.antt =====
-- What `capture_output` of src/executor.rs persists of a whole execution.
use loomterm.Prelude.{
  Bool-cases, inl, inr, ℕ, zero, suc, min, ◌+◌, ◌-◌, ◌≤◌, ◌<◌, ◌^◌, String, ◌≡◌, refl, ap, ◌∙◌,
  true, false, List, [], ◌∷◌, ◌++◌, arith, ltb, if◌then◌else◌, length, take, sum_by, append_assoc,
  length-append, append-nil,
}
use loomterm.Model.Execution.{Bytes, no_bytes}
use loomterm.Store.Executions.Batch.{CaptureRecord, output_record, truncated_record}
use loomterm.Executor.Capture.{
  CaptureState, Chunk, persist, capture_output, capture_all, not_captured,
}

-- The bytes that records carry, both streams together.
abbrev pub bytes_captured : List CaptureRecord → Bytes
bytes_captured [] = []
bytes_captured (output_record id t stream bytes ∷ records) = bytes ++ bytes_captured records
bytes_captured (truncated_record id t limit ∷ records) = bytes_captured records

abbrev pub all_data : List Chunk → Bytes
all_data [] = []
all_data (c ∷ chunks) = c.bytes ++ all_data chunks

abbrev pub notice : CaptureRecord → ℕ
notice (output_record id t stream bytes) = 0
notice (truncated_record id t limit) = 1

bytes_captured-append :
    (r s : List CaptureRecord) → bytes_captured (r ++ s) ≡ bytes_captured r ++ bytes_captured s
bytes_captured-append [] s = refl
bytes_captured-append (output_record id t stream bytes ∷ r) s =
    rw (bytes_captured-append r s, append_assoc) refl
bytes_captured-append (truncated_record id t limit ∷ r) s = bytes_captured-append r s

take-nil : (n : ℕ) → take n no_bytes ≡ []
take-nil zero = refl
take-nil (suc n) = refl

take-append : (n : ℕ) (x y : Bytes) → take n (x ++ y) ≡ take n x ++ take (n - length x) y
take-append zero [] y = refl
take-append (suc n) [] y = ground arith
take-append zero (a ∷ x) y = ground arith
take-append (suc n) (a ∷ x) y =
    let less : suc n - suc (length x) ≡ n - length x = omega arith in
    rw less (ap (λ l. a ∷ l) (take-append n x y))

take-min : (n : ℕ) (x : Bytes) → take (min n (length x)) x ≡ take n x
take-min zero x = let none_left : min 0 (length x) ≡ 0 = omega arith in rw none_left refl
take-min (suc n) [] = take-nil (min (suc n) 0)
take-min (suc n) (a ∷ x) = rw (suc-min n (length x)) (ap (λ l. a ∷ l) (take-min n x))
  where
    suc-min : (m k : ℕ) → min (suc m) (suc k) ≡ suc (min m k)
    suc-min m k = omega arith

-- Nothing is sent once the notice is, and nothing follows a notice.
abbrev pub EndsAtNotice : List CaptureRecord → Type 0
EndsAtNotice [] = Unit
EndsAtNotice (output_record id t stream bytes ∷ records) = EndsAtNotice records
EndsAtNotice (truncated_record id t limit ∷ records) = records ≡ []

module _ (id : String) (limit : ℕ) where
  step-bytes :
      (s : CaptureState) (c : Chunk)
      → bytes_captured (capture_output id limit s c).0 ≡ take (limit - s.captured) c.bytes
  unfolding capture_output
  step-bytes s c = ground (
    arith,
    take-min (limit - s.captured) c.bytes,
    append-nil (take (persist id limit s c) c.bytes),
  )

  silent :
      (s : CaptureState) (chunks : List Chunk)
      → limit ≤ s.captured
      → s.truncated ≡ true
      → s.captured + length (all_data chunks) < 2 ^ 64
      → (capture_all id limit s chunks).0 ≡ []
  unfolding capture_all capture_output
  silent s [] h t m = refl
  silent s (c ∷ chunks) h t m =
      let size : length (all_data (c ∷ chunks)) ≡ length c.bytes + length (all_data chunks) =
        length-append c.bytes (all_data chunks) in
      let s' = (capture_output id limit s c).1 in
      let rest : (capture_all id limit s' chunks).0 ≡ [] =
        silent s' chunks (omega (arith, size)) (ground (arith, t)) (omega (arith, size)) in
      ground (arith, h, t, rest)

  bytes-captured :
      (s : CaptureState) (chunks : List Chunk)
      → s.captured + length (all_data chunks) < 2 ^ 64
      → bytes_captured (capture_all id limit s chunks).0
        ≡ take (limit - s.captured) (all_data chunks)
  unfolding capture_all capture_output
  bytes-captured s [] m = rw take-nil refl
  bytes-captured s (c ∷ chunks) m =
      let size : length (all_data (c ∷ chunks)) ≡ length c.bytes + length (all_data chunks) =
        length-append c.bytes (all_data chunks) in
      let s' = (capture_output id limit s c).1 in
      let left : limit - s'.captured ≡ limit - s.captured - length c.bytes = omega (arith, size) in
      rw
        (
          bytes_captured-append (capture_output id limit s c).0 (capture_all id limit s' chunks).0,
          step-bytes s c,
          bytes-captured s' chunks (omega (arith, size)),
          left,
          take-append (limit - s.captured) c.bytes (all_data chunks),
        )
        refl

  -- The notice comes with the first byte over the limit.
  notices :
      (s : CaptureState) (chunks : List Chunk)
      → s.truncated ≡ false
      → s.captured ≤ limit
      → s.captured + length (all_data chunks) < 2 ^ 64
      → sum_by notice (capture_all id limit s chunks).0
        ≡ (if ltb limit (s.captured + length (all_data chunks)) then 1 else 0)
  unfolding capture_all capture_output
  notices s [] t h m = ground arith
  notices s (c ∷ chunks) t h m =
      let size : length (all_data (c ∷ chunks)) ≡ length c.bytes + length (all_data chunks) =
        length-append c.bytes (all_data chunks) in
      let s' = (capture_output id limit s c).1 in
      elim (Bool-cases (ltb limit (s.captured + length c.bytes))) [
        | inl over ↦
            let rest : (capture_all id limit s' chunks).0 ≡ [] =
              silent s' chunks (ground (arith, size)) (ground (arith, t)) (omega (arith, size)) in
            ground (arith, t, rest, size)
        | inr within ↦
            let rest =
              notices s' chunks (ground (arith, t)) (ground (arith, size)) (omega (arith, size)) in
            ground (arith, t, rest, size)
      ]

  ends_at_notice :
      (s : CaptureState) (chunks : List Chunk)
      → s.truncated ≡ false
      → s.captured ≤ limit
      → s.captured + length (all_data chunks) < 2 ^ 64
      → EndsAtNotice (capture_all id limit s chunks).0
  unfolding capture_all capture_output
  ends_at_notice s [] t h m = tt
  ends_at_notice s (c ∷ chunks) t h m =
      let size : length (all_data (c ∷ chunks)) ≡ length c.bytes + length (all_data chunks) =
        length-append c.bytes (all_data chunks) in
      let s' = (capture_output id limit s c).1 in
      elim (Bool-cases (ltb limit (s.captured + length c.bytes))) [
        | inl over ↦
            let rest : (capture_all id limit s' chunks).0 ≡ [] =
              silent s' chunks (ground (arith, size)) (ground (arith, t)) (omega (arith, size)) in
            ground (arith, t, rest, size)
        | inr within ↦
            let rest =
              ends_at_notice s' chunks (ground (arith, t)) (ground (arith, size))
                (omega (arith, size)) in
            ground (arith, t, rest, size)
      ]

-- Of an execution whose output is less than 2^64 bytes, the records carry the first bytes up to the
-- limit, in order and across both streams; there is one truncation notice if the output exceeds the
-- limit and none otherwise, and nothing follows it.
pub capture_all_limit :
    (id : String) (limit : ℕ) (chunks : List Chunk)
    → length (all_data chunks) < 2 ^ 64
    → let records = (capture_all id limit not_captured chunks).0 in
      (bytes_captured records ≡ take limit (all_data chunks))
      × (sum_by notice records ≡ (if ltb limit (length (all_data chunks)) then 1 else 0))
      × EndsAtNotice records
capture_all_limit id limit chunks m = (
  bytes-captured id limit not_captured chunks (omega arith)
      ∙ ap (λ n. take n (all_data chunks)) (omega arith),
  notices id limit not_captured chunks refl (omega arith) (omega arith)
      ∙ ap (λ n. if ltb limit n then 1 else 0) (omega arith),
  ends_at_notice id limit not_captured chunks refl (omega arith) (omega arith),
)
