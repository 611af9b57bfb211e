-- ===== src/Recorder/Redaction/Split.antt =====
-- A range is redacted as its two parts are, wherever it is cut.
use loomterm.Prelude.{
  ℕ, ◌+◌, ◌-◌, ◌≤◌, ◌<◌, ◌≡◌, refl, sym, ap, ◌∙◌, ◌||◌, ◌⊎◌, inl, inr, List, [], ◌∷◌, ◌++◌,
  append_assoc, arith, leb, lt→ltb, le→ltb, Bool-cases, take, drop, take_split, drop-drop,
}
use native.Mathlib.Decide.{dec_lt}
use loomterm.Recorder.Redaction.{Text, Match, max, slice, redact_range}

-- In order and apart, all behind `low`.
abbrev pub AreApart : ℕ → List Match → Type 0
AreApart low [] = Unit
AreApart low (m ∷ ms) = (low ≤ m.start) × (m.start < m.end) × AreApart m.end ms

append_regroup : (a b c d : Text) → a ++ b ++ c ++ d ≡ a ++ (b ++ c ++ d)
append_regroup a b c d =
    append_assoc (a ++ b) c d
    ∙ append_assoc a b (c ++ d)
    ∙ ap (λ t. a ++ t) (sym (append_assoc b c d))

module _ (stream : Text) where
  slice-append :
      (a k b : ℕ) → a ≤ k → k ≤ b → slice stream a b ≡ slice stream a k ++ slice stream k b
  slice-append a k b h g =
      let size : b - a ≡ (k - a) + (b - k) = omega arith in
      let place : a + (k - a) ≡ k = omega arith in
      rw size (take_split (k - a) (b - k) (drop a stream))
      ∙ ap (λ d. slice stream a k ++ take (b - k) d)
          (drop-drop (k - a) a stream ∙ ap (λ n. drop n stream) place)

  pub slice_none : (a b : ℕ) → b ≤ a → slice stream a b ≡ []
  slice_none a b h = let size : b - a ≡ 0 = omega arith in ap (λ n. take n (drop a stream)) size

  -- Behind the range nothing is replaced.
  pub range_before :
      (ms : List Match) (low cursor start end : ℕ)
      → AreApart low ms
      → end ≤ low
      → redact_range stream ms cursor start end ≡ slice stream cursor end
  unfolding redact_range
  range_before [] low cursor start end h e = refl
  range_before (m ∷ ms) low cursor start end h e =
      ground (arith, h, range_before ms m.end cursor start end)

  slice-max : (c k e : ℕ) → k ≤ e → slice stream c e ≡ slice stream c k ++ slice stream (max c k) e
  unfolding max
  slice-max c k e h = elim (dec_lt c k) [
    | yes p ↦ rw (lt→ltb c k p) (slice-append c k e (omega arith) h)
    | no p ↦ rw (le→ltb c k (omega arith), slice_none c k (omega arith)) refl
  ]

  -- How far the cursor is: behind what was redacted before, or a match begins before the range.
  abbrev pub IsReady : List Match → ℕ → ℕ → Type 0
  IsReady ms cursor start = AreApart cursor ms ⊎ ((cursor ≡ start) × AreApart 0 ms)

  apart_weaken : (low less : ℕ) (ms : List Match) → less ≤ low → AreApart low ms → AreApart less ms
  apart_weaken low less [] h a = tt
  apart_weaken low less (m ∷ ms) h a = (omega (arith, a.0), a.1, a.2)

  apart_later :
      (m : Match) (ms : List Match) (cursor start : ℕ)
      → IsReady (m ∷ ms) cursor start
      → AreApart m.end ms
  apart_later m ms cursor start (inl a) = a.2
  apart_later m ms cursor start (inr (e, a)) = a.2

  -- A cursor behind the beginning of a match is the beginning of the range.
  starts_before :
      (m : Match) (ms : List Match) (cursor start : ℕ)
      → IsReady (m ∷ ms) cursor start
      → (m.start < m.end) × ((cursor ≤ m.start) ⊎ (cursor ≡ start))
  starts_before m ms cursor start (inl a) = (a.1, inl a.0)
  starts_before m ms cursor start (inr (e, a)) = (a.1, inr e)

  IsReady-later :
      (m : Match) (ms : List Match) (cursor start : ℕ)
      → IsReady (m ∷ ms) cursor start
      → IsReady ms cursor start
  IsReady-later m ms cursor start (inl a) =
      inl (apart_weaken m.end cursor ms (omega (arith, a.0, a.1)) a.2)
  IsReady-later m ms cursor start (inr (e, a)) = inr (e, apart_weaken m.end 0 ms (omega arith) a.2)

  pub range_whole :
      (m : Match) (ms : List Match) (cursor start end : ℕ)
      → start < m.end
      → m.start < end
      → start ≤ m.start
      → cursor ≤ m.end
      → redact_range stream (m ∷ ms) cursor start end
        ≡ slice stream cursor m.start ++ m.text ++ redact_range stream ms m.end start end
  unfolding redact_range max
  range_whole m ms cursor start end p q w c = ground arith

  pub range_skip :
      (m : Match) (ms : List Match) (cursor start end : ℕ)
      → (m.end ≤ start) ⊎ (end ≤ m.start)
      → redact_range stream (m ∷ ms) cursor start end ≡ redact_range stream ms cursor start end
  unfolding redact_range
  range_skip m ms cursor start end (inl p) = ground arith
  range_skip m ms cursor start end (inr p) = ground arith

  range_cut :
      (m : Match) (ms : List Match) (cursor start end : ℕ)
      → start < m.end
      → m.start < start
      → start ≤ end
      → redact_range stream (m ∷ ms) cursor start end
        ≡ redact_range stream ms (max cursor m.end) start end
  unfolding redact_range
  range_cut m ms cursor start end p q w = ground arith

  max_left : (a b : ℕ) → b ≤ a → max a b ≡ a
  unfolding max
  max_left a b h = ground arith

  pub max_right : (a b : ℕ) → a ≤ b → max a b ≡ b
  unfolding max
  max_right a b h = ground arith

  max_le : (a b c : ℕ) → a ≤ c → b ≤ c → max a b ≤ c
  unfolding max
  max_le a b c h g = ground arith

  -- A match that is inside the range.
  whole-append :
      (m : Match) (ms : List Match) (cursor start k end : ℕ)
      → start ≤ cursor
      → start ≤ k
      → k ≤ end
      → start ≤ m.start
      → m.start < end
      → cursor ≤ m.start
      → m.start < m.end
      → AreApart m.end ms
      → redact_range stream ms m.end start end
        ≡ redact_range stream ms m.end start k ++ redact_range stream ms (max m.end k) k end
      → redact_range stream (m ∷ ms) cursor start end
        ≡ redact_range stream (m ∷ ms) cursor start k
          ++ redact_range stream (m ∷ ms) (max cursor k) k end
  whole-append m ms cursor start k end hs hk he w q c l apart ih =
      let whole = range_whole m ms cursor start end (omega arith) q w (omega arith) in
      let front = slice stream cursor m.start ++ m.text in
      elim (dec_lt m.start k) [
        | yes p ↦
            let left = range_whole m ms cursor start k (omega arith) p w (omega arith) in
            let joined =
              append_assoc front (redact_range stream ms m.end start k)
                (redact_range stream ms (max m.end k) k end) in
            rw (whole, left, ih, ← joined, max_right cursor k (omega arith))
              (elim (dec_lt k m.end) [
                | yes r ↦
                    rw
                      (
                        range_cut m ms k k end r p he,
                        max_right k m.end (omega arith),
                        max_left m.end k (omega arith),
                      )
                      refl
                | no r ↦
                    rw
                      (range_skip m ms k k end (inl (omega arith)), max_right m.end k (omega arith))
                      refl
              ])
        | no p ↦
            let left =
              range_skip m ms cursor start k (inr (omega arith))
              ∙ range_before ms m.end cursor start k apart (omega arith) in
            let none_of =
              range_before ms m.end m.end start k apart (omega arith)
              ∙ slice_none m.end k (omega arith) in
            let right =
              range_whole m ms (max cursor k) k end (omega arith) q (omega arith)
                (max_le cursor k m.end (omega arith) (omega arith)) in
            let gap = slice-max cursor k m.start (omega arith) in
            rw (whole, left, ih, none_of, right, gap, max_left m.end k (omega arith))
              (append_regroup (slice stream cursor k) (slice stream (max cursor k) m.start) m.text
                _)
      ]

  pub redact_range-append :
      (ms : List Match) (cursor start k end : ℕ)
      → start ≤ cursor
      → start ≤ k
      → k ≤ end
      → IsReady ms cursor start
      → redact_range stream ms cursor start end
        ≡ redact_range stream ms cursor start k ++ redact_range stream ms (max cursor k) k end
  unfolding redact_range max
  redact_range-append [] cursor start k end hs hk he r = slice-max cursor k end he
  redact_range-append (m ∷ ms) cursor start k end hs hk he r =
      elim (Bool-cases (leb m.end start || leb end m.start)) [
        | inl skip ↦
            let later = IsReady-later m ms cursor start r in
            ground (arith, skip, redact_range-append ms cursor start k end hs hk he later)
        | inr inside ↦
            let later : IsReady ms m.end start = inl (apart_later m ms cursor start r) in
            let ih =
              redact_range-append ms m.end start k end (ground (arith, inside)) hk he later in
            let (long, front) = starts_before m ms cursor start r in
            elim (dec_lt m.start start) [
              | no whole ↦
                  whole-append m ms cursor start k end hs hk he (omega arith)
                    (ground (arith, inside)) (ground (arith, front, whole)) long
                    (apart_later m ms cursor start r) ih
              | yes cut ↦ ground (arith, inside, cut, ih, front)
            ]
      ]
