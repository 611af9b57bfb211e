-- ===== src/Recorder/Redaction/Longest.antt =====
-- Where a text is redacted, and by which pattern: the longest of those that begin there.
use loomterm.Prelude.{
  ℕ, zero, suc, ◌≤◌, ◌<◌, ◌≡◌, refl, ap, ◌∙◌, true, not, ◌&&◌, ◌⊎◌, inl, inr, Option, some, none,
  List, [], ◌∷◌, ◌++◌, arith, ltb, Bool-cases, Option-cases, length, drop, length-drop, is_empty,
  All,
}
use loomterm.Recorder.Redaction.{
  Text, Replacement, longest_match, starts_with, longer, byte_length, len_utf8,
}

-- The text with the longest pattern replaced wherever the scan from the left finds one.
module _ (replacements : List Replacement) where
  unfoldable pub redact_all : ℕ → Text → Text
  redact_all zero text = []
  redact_all (suc fuel) [] = []
  redact_all (suc fuel) (c ∷ text) = elim (longest_match none replacements (c ∷ text)) [
    | some r ↦ r.text ++ redact_all fuel (drop (length r.pattern) (c ∷ text))
    | none ↦ c ∷ redact_all fuel text
  ]

-- A replacement whose pattern is there.
abbrev pub Fits : Text → Replacement → Type 0
Fits text r = (0 < length r.pattern) × (length r.pattern ≤ length text)

starts_with-length :
    (text pattern : Text) → starts_with text pattern ≡ true → length pattern ≤ length text
unfolding starts_with
starts_with-length text [] h = ground arith
starts_with-length [] (c ∷ pattern) h = absurd (ground (arith, h))
starts_with-length (d ∷ text) (c ∷ pattern) h = ground (arith, h, starts_with-length text pattern)

abbrev AllFit : Text → Option Replacement → Type 0
AllFit text none = Unit
AllFit text (some r) = Fits text r

longer-Fit :
    (text : Text) (best : Option Replacement) (r : Replacement)
    → AllFit text best
    → Fits text r
    → AllFit text (longer best r)
longer-Fit text none r h f = f
longer-Fit text (some b) r h f =
    elim (Bool-cases (ltb (byte_length r.pattern) (byte_length b.pattern))) [
      | inl p ↦ rw p h
      | inr p ↦ rw p f
    ]

pub longest_match-Fit :
    (best : Option Replacement) (replacements : List Replacement) (text : Text)
    → AllFit text best
    → AllFit text (longest_match best replacements text)
unfolding longest_match
longest_match-Fit best [] text h = h
longest_match-Fit best (r ∷ replacements) text h =
    elim (Bool-cases (not (is_empty r.pattern) && starts_with text r.pattern)) [
      | inl p ↦ rw p (
          longest_match-Fit (longer best r) replacements text (
            longer-Fit text best r h
              (ground (arith, p), starts_with-length text r.pattern (ground (arith, p)))))
      | inr p ↦ rw p (longest_match-Fit best replacements text h)
    ]

-- The pattern is not empty and begins the text.
abbrev pub IsMatch : Text → Replacement → Type 0
IsMatch text r = (0 < length r.pattern) × (text ≡ r.pattern ++ drop (length r.pattern) text)

starts_with-split :
    (text pattern : Text)
    → starts_with text pattern ≡ true
    → text ≡ pattern ++ drop (length pattern) text
unfolding starts_with
starts_with-split text [] h = refl
starts_with-split [] (c ∷ pattern) h = absurd (ground (arith, h))
starts_with-split (d ∷ text) (c ∷ pattern) h = ground (arith, h, starts_with-split text pattern)

starts_with-append : (pattern rest : Text) → starts_with (pattern ++ rest) pattern ≡ true
unfolding starts_with
starts_with-append [] rest = refl
starts_with-append (c ∷ pattern) rest = ground (arith, starts_with-append pattern rest)

-- Of two patterns that begin one text, the one with more bytes has more characters.
longer_bytes :
    (text p q : Text)
    → starts_with text p ≡ true
    → starts_with text q ≡ true
    → byte_length p ≤ byte_length q
    → length p ≤ length q
unfolding starts_with byte_length len_utf8
longer_bytes text [] q h k l = omega arith
longer_bytes text (c ∷ p) [] h k l = absurd (ground (arith, l))
longer_bytes [] (c ∷ p) (d ∷ q) h k l = absurd (ground (arith, h))
longer_bytes (e ∷ text) (c ∷ p) (d ∷ q) h k l = ground (arith, h, k, l, longer_bytes text p q)

abbrev pub IsListed : Replacement → List Replacement → Type 0
IsListed r replacements =
    (before : List Replacement) × (after : List Replacement) × (replacements ≡ before ++ r ∷ after)

later-IsListed :
    (r q : Replacement) (replacements : List Replacement)
    → IsListed r replacements
    → IsListed r (q ∷ replacements)
later-IsListed r q replacements (before, after, whole) = (q ∷ before, after, ap (λ l. q ∷ l) whole)

module _ (text : Text) where
  tested :
      (r : Replacement)
      → IsMatch text r
      → (not (is_empty r.pattern) && starts_with text r.pattern) ≡ true
  tested r h =
      let begins : starts_with text r.pattern ≡ true =
        ap (λ t. starts_with t r.pattern) h.1 ∙ starts_with-append r.pattern _ in
      ground (arith, begins, h.0)

  matching :
      (r : Replacement)
      → (not (is_empty r.pattern) && starts_with text r.pattern) ≡ true
      → IsMatch text r
  matching r h = (ground (arith, h), starts_with-split text r.pattern (ground (arith, h)))

  begins : (r : Replacement) → IsMatch text r → starts_with text r.pattern ≡ true
  begins r h = ground (arith, tested r h)

  abbrev IsMatching : Option Replacement → Type 0
  IsMatching none = Unit
  IsMatching (some r) = IsMatch text r

  abbrev IsShorter : Option Replacement → Replacement → Type 0
  IsShorter none r = Unit
  IsShorter (some b) r = length b.pattern ≤ length r.pattern

  -- The better of two is one of them, and no shorter than either.
  longer_lem :
      (best : Option Replacement) (r : Replacement)
      → IsMatching best
      → IsMatch text r
      → (b : Replacement) × (longer best r ≡ some b)
        × ((best ≡ some b) ⊎ (b ≡ r))
        × IsShorter best b
        × (length r.pattern ≤ length b.pattern)
        × IsMatch text b
  longer_lem none r h m = (r, refl, inr refl, tt, omega arith, m)
  longer_lem (some b) r h m =
      elim (Bool-cases (ltb (byte_length r.pattern) (byte_length b.pattern))) [
        | inl less ↦ (
          b,
          rw less refl,
          inl refl,
          omega arith,
          longer_bytes text r.pattern b.pattern (begins r m) (begins b h) (ground (arith, less)),
          h,
        )
        | inr more ↦ (
          r,
          rw more refl,
          inr refl,
          longer_bytes text b.pattern r.pattern (begins b h) (begins r m) (ground (arith, more)),
          omega arith,
          m,
        )
      ]

  abbrev pub IsNoLonger : Replacement → Replacement → Type 0
  IsNoLonger r q = IsMatch text q → length q.pattern ≤ length r.pattern

  abbrev IsFound : Option Replacement → List Replacement → Option Replacement → Type 0
  IsFound best replacements none = (best ≡ none) × All (λ q. ¬ IsMatch text q) replacements
  IsFound best replacements (some r) =
      ((best ≡ some r) ⊎ IsListed r replacements)
      × IsMatch text r
      × IsShorter best r
      × All (IsNoLonger r) replacements

  found-IsListed :
      (best : Option Replacement) (b r q : Replacement) (replacements : List Replacement)
      → ((best ≡ some b) ⊎ (b ≡ q))
      → ((some b ≡ some r) ⊎ IsListed r replacements)
      → (best ≡ some r) ⊎ IsListed r (q ∷ replacements)
  found-IsListed best b r q replacements (inl old) (inl same) = inl (old ∙ same)
  found-IsListed best b r q replacements (inr new) (inl same) =
      let equal : q ≡ r = ground (arith, new, same) in
      inr ([], replacements, ap (λ x. x ∷ replacements) equal)
  found-IsListed best b r q replacements from (inr later) =
      inr (later-IsListed r q replacements later)

  IsShorter-still :
      (best : Option Replacement) (b r : Replacement)
      → IsShorter best b
      → length b.pattern ≤ length r.pattern
      → IsShorter best r
  IsShorter-still none b r h k = tt
  IsShorter-still (some a) b r h k = omega (arith, h, k)

  -- A better one was found before the rest of the list.
  IsFound-further :
      (best : Option Replacement) (b q : Replacement) (replacements : List Replacement)
      (result : Option Replacement)
      → ((best ≡ some b) ⊎ (b ≡ q))
      → IsShorter best b
      → length q.pattern ≤ length b.pattern
      → IsFound (some b) replacements result
      → IsFound best (q ∷ replacements) result
  IsFound-further best b q replacements none from above long (missing, rest) =
      absurd (ground (arith, missing))
  IsFound-further best b q replacements (some r) from above long (place, match, more, rest) = (
    found-IsListed best b r q replacements from place,
    match,
    IsShorter-still best b r above more,
    (λ h. omega (arith, long, more), rest),
  )

  IsFound-past :
      (best : Option Replacement) (q : Replacement) (replacements : List Replacement)
      (result : Option Replacement)
      → ¬ IsMatch text q
      → IsFound best replacements result
      → IsFound best (q ∷ replacements) result
  IsFound-past best q replacements none differs (missing, rest) = (missing, (differs, rest))
  IsFound-past best q replacements (some r) differs (inl old, match, more, rest) =
      (inl old, match, more, (λ h. absurd (differs h), rest))
  IsFound-past best q replacements (some r) differs (inr place, match, more, rest) =
      (inr (later-IsListed r q replacements place), match, more, (λ h. absurd (differs h), rest))

  longest_match-IsFound :
      (best : Option Replacement) (replacements : List Replacement)
      → IsMatching best
      → IsFound best replacements (longest_match best replacements text)
  unfolding longest_match
  longest_match-IsFound none [] h = (refl, tt)
  longest_match-IsFound (some r) [] h = (inl refl, h, omega arith, tt)
  longest_match-IsFound best (q ∷ replacements) h =
      elim (Bool-cases (not (is_empty q.pattern) && starts_with text q.pattern)) [
        | inl p ↦
            let (b, same, from, above, long, match) = longer_lem best q h (matching q p) in
            rw (p, same)
              (IsFound-further best b q replacements _ from above long
                (longest_match-IsFound (some b) replacements match))
        | inr p ↦ rw p (
            IsFound-past best q replacements _ (λ m. absurd (ground (arith, tested q m, p)))
              (longest_match-IsFound best replacements h))
      ]

module _ (replacements : List Replacement) where
  -- The second text is the first one redacted.
  pub data Redacts : Text → Text → Type 0 where
    at_end : Redacts [] []
    replaced :
        {text out : Text} (r : Replacement)
        → IsListed r replacements
        → IsMatch text r
        → All (IsNoLonger text r) replacements
        → Redacts (drop (length r.pattern) text) out
        → Redacts text (r.text ++ out)
    kept :
        {text out : Text} {c : ℕ}
        → All (λ q. ¬ IsMatch (c ∷ text) q) replacements
        → Redacts text out
        → Redacts (c ∷ text) (c ∷ out)

  pub redact_all-Redacts :
      (fuel : ℕ) (text : Text)
      → length text ≤ fuel
      → Redacts text (redact_all replacements fuel text)
  unfolding redact_all
  redact_all-Redacts zero [] h = at_end
  redact_all-Redacts zero (c ∷ text) h = absurd (omega arith)
  redact_all-Redacts (suc fuel) [] h = at_end
  redact_all-Redacts (suc fuel) (c ∷ text) h =
      let found = longest_match-IsFound (c ∷ text) none replacements tt in
      elim (Option-cases (longest_match none replacements (c ∷ text))) [
        | inl nothing ↦
            let (missing, rest) : IsFound (c ∷ text) none replacements none = rw nothing at found in
            rw (nothing, redact_all) (kept rest (redact_all-Redacts fuel text (omega arith)))
        | inr (r, some_of) ↦
            let (place, match, more, rest) : IsFound (c ∷ text) none replacements (some r) =
              rw some_of at found in
            let size : length (drop (length r.pattern) (c ∷ text)) ≤ fuel =
              omega (arith, length-drop {0} (length r.pattern) (c ∷ text), match.0) in
            rw (some_of, redact_all)
              (replaced r (listed_of place) match rest
                (redact_all-Redacts fuel (drop (length r.pattern) (c ∷ text)) size))
      ]
    where
      listed_of :
          {r : Replacement} → ((none ≡ some r) ⊎ IsListed r replacements) → IsListed r replacements
      listed_of (inl wrong) = absurd (ground (arith, wrong))
      listed_of (inr place) = place
