-- ===== src/Recorder/Utf8/Scanning.antt =====
-- What a scan of UTF-8 depends on.
use loomterm.Prelude.{
  ℕ, ◌≤◌, ◌≡◌, refl, Bool, true, false, ◌⊎◌, inl, inr, [], ◌∷◌, ◌++◌, arith, length,
}
use loomterm.Model.Execution.{Bytes}
use loomterm.Recorder.Utf8.{
  Scan, complete, malformed, incomplete, scan, scan_two, scan_three, scan_four,
}

-- What stands behind a scan does not change it, unless the character was incomplete.
abbrev pub behind : Scan → Bytes → Scan
behind (complete char rest) more = complete char (rest ++ more)
behind (malformed rest) more = malformed (rest ++ more)
behind incomplete more = incomplete

abbrev pub is_incomplete : Scan → Bool
is_incomplete incomplete = true
is_incomplete _ = false

scan_two-append :
    (a : ℕ) (rest more : Bytes)
    → is_incomplete (scan_two a rest) ≡ false
    → scan_two a (rest ++ more) ≡ behind (scan_two a rest) more
unfolding scan_two
scan_two-append a [] more h = ground arith
scan_two-append a (b ∷ rest) more h = ground arith

scan_three-append :
    (a : ℕ) (rest more : Bytes)
    → is_incomplete (scan_three a rest) ≡ false
    → scan_three a (rest ++ more) ≡ behind (scan_three a rest) more
unfolding scan_three
scan_three-append a [] more h = ground arith
scan_three-append a (b ∷ []) [] h = ground arith
scan_three-append a (b ∷ []) (c ∷ more) h = ground arith
scan_three-append a (b ∷ c ∷ rest) more h = ground arith

scan_four-append :
    (a : ℕ) (rest more : Bytes)
    → is_incomplete (scan_four a rest) ≡ false
    → scan_four a (rest ++ more) ≡ behind (scan_four a rest) more
unfolding scan_four
scan_four-append a [] more h = ground arith
scan_four-append a (b ∷ []) [] h = ground arith
scan_four-append a (b ∷ []) (c ∷ []) h = ground arith
scan_four-append a (b ∷ []) (c ∷ d ∷ more) h = ground arith
scan_four-append a (b ∷ c ∷ []) [] h = ground arith
scan_four-append a (b ∷ c ∷ []) (d ∷ more) h = ground arith
scan_four-append a (b ∷ c ∷ d ∷ rest) more h = ground arith

pub scan-append :
    (a : ℕ) (rest more : Bytes)
    → is_incomplete (scan a rest) ≡ false
    → scan a (rest ++ more) ≡ behind (scan a rest) more
unfolding scan
scan-append a rest more h = ground (
  arith,
  scan_two-append a rest more,
  scan_three-append a rest more,
  scan_four-append a rest more,
)

abbrev pub scan_left : Scan → ℕ
scan_left (complete char rest) = length rest
scan_left (malformed rest) = length rest
scan_left incomplete = 0

scan_two_shrinks : (a : ℕ) (rest : Bytes) → scan_left (scan_two a rest) ≤ length rest
unfolding scan_two
scan_two_shrinks a [] = omega arith
scan_two_shrinks a (b ∷ rest) = ground arith

scan_three_shrinks : (a : ℕ) (rest : Bytes) → scan_left (scan_three a rest) ≤ length rest
unfolding scan_three
scan_three_shrinks a [] = omega arith
scan_three_shrinks a (b ∷ []) = ground arith
scan_three_shrinks a (b ∷ c ∷ rest) = ground arith

scan_four_shrinks : (a : ℕ) (rest : Bytes) → scan_left (scan_four a rest) ≤ length rest
unfolding scan_four
scan_four_shrinks a [] = omega arith
scan_four_shrinks a (b ∷ []) = ground arith
scan_four_shrinks a (b ∷ c ∷ []) = ground arith
scan_four_shrinks a (b ∷ c ∷ d ∷ rest) = ground arith

pub scan_shrinks : (a : ℕ) (rest : Bytes) → scan_left (scan a rest) ≤ length rest
unfolding scan
scan_shrinks a rest =
    ground (arith, scan_two_shrinks a rest, scan_three_shrinks a rest, scan_four_shrinks a rest)

pub Scan-cases :
    (s : Scan)
    → ((char : Bytes) × (more : Bytes) × (s ≡ complete char more))
      ⊎ ((more : Bytes) × (s ≡ malformed more))
      ⊎ (s ≡ incomplete)
Scan-cases (complete char more) = inl (char, more, refl)
Scan-cases (malformed more) = inr (inl (more, refl))
Scan-cases incomplete = inr (inr refl)
