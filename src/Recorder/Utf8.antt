-- ===== src/Recorder/Utf8.antt =====
-- `Utf8Decoder` of src/session.rs, and what it uses of `std::str::from_utf8`. A text is its bytes.
pub mod Scanning
pub mod Settle
pub mod Chunks
use loomterm.Prelude.{
  ℕ, zero, suc, ◌+◌, ◌-◌, Bool, true, false, ◌&&◌, ◌||◌, Option, none, some, List, [], ◌∷◌, ◌++◌,
  leb, eqb, if◌then◌else◌, length, is_empty,
}
use loomterm.Model.Execution.{Bytes}

-- What a non-empty sequence of bytes begins with: a character and what is behind it, bytes that
-- begin none and what is behind them, or a character that is not complete.
pub data Scan : Type 0 where
  complete : Bytes → Bytes → Scan
  malformed : Bytes → Scan
  incomplete : Scan

unfoldable pub within : ℕ → ℕ → ℕ → Bool
within low high b = leb low b && leb b high

unfoldable pub is_continuation : ℕ → Bool
unfolding within
is_continuation b = within 0x80 0xbf b

-- The range of the second byte depends on the first.
unfoldable pub second_of_three : ℕ → ℕ → Bool
unfolding within is_continuation
second_of_three a b =
    eqb a 0xe0 && within 0xa0 0xbf b
    || within 0xe1 0xec a && is_continuation b
    || eqb a 0xed && within 0x80 0x9f b
    || within 0xee 0xef a && is_continuation b

unfoldable pub second_of_four : ℕ → ℕ → Bool
unfolding within is_continuation
second_of_four a b =
    eqb a 0xf0 && within 0x90 0xbf b
    || within 0xf1 0xf3 a && is_continuation b
    || eqb a 0xf4 && within 0x80 0x8f b

unfoldable pub scan_two : ℕ → Bytes → Scan
unfolding is_continuation
scan_two a [] = incomplete
scan_two a (b ∷ rest) =
    if is_continuation b then complete (a ∷ b ∷ []) rest else malformed (b ∷ rest)

unfoldable pub scan_three : ℕ → Bytes → Scan
unfolding is_continuation second_of_three
scan_three a [] = incomplete
scan_three a (b ∷ []) = if second_of_three a b then incomplete else malformed (b ∷ [])
scan_three a (b ∷ c ∷ rest) =
    if second_of_three a b
    then if is_continuation c then complete (a ∷ b ∷ c ∷ []) rest else malformed (c ∷ rest)
    else malformed (b ∷ c ∷ rest)

unfoldable pub scan_four : ℕ → Bytes → Scan
unfolding is_continuation second_of_four
scan_four a [] = incomplete
scan_four a (b ∷ []) = if second_of_four a b then incomplete else malformed (b ∷ [])
scan_four a (b ∷ c ∷ []) =
    if second_of_four a b
    then if is_continuation c then incomplete else malformed (c ∷ [])
    else malformed (b ∷ c ∷ [])
scan_four a (b ∷ c ∷ d ∷ rest) =
    if second_of_four a b
    then if is_continuation c
      then if is_continuation d then complete (a ∷ b ∷ c ∷ d ∷ []) rest else malformed (d ∷ rest)
      else malformed (c ∷ d ∷ rest)
    else malformed (b ∷ c ∷ d ∷ rest)

unfoldable pub scan : ℕ → Bytes → Scan
unfolding within scan_two scan_three scan_four
scan a rest =
    if leb a 0x7f
    then complete (a ∷ []) rest
    else if within 0xc2 0xdf a
    then scan_two a rest
    else if within 0xe0 0xef a
    then scan_three a rest
    else if within 0xf0 0xf4 a
    then scan_four a rest
    else malformed rest

-- `from_utf8` as the decoder uses it: `valid_up_to`, here the valid text, and what is behind it. It
-- is an error unless nothing is.
abbrev pub also : Bytes → Bytes × Bytes → Bytes × Bytes
also char (text, rest) = (char ++ text, rest)

unfoldable pub from_utf8 : ℕ → Bytes → Bytes × Bytes
unfolding scan
from_utf8 zero bytes = ([], bytes)
from_utf8 (suc fuel) [] = ([], [])
from_utf8 (suc fuel) (a ∷ rest) = elim (scan a rest) [
  | complete char more ↦ also char (from_utf8 fuel more)
  | malformed more ↦ ([], a ∷ rest)
  | incomplete ↦ ([], a ∷ rest)
]

abbrev pub replacement : Bytes
replacement = 0xef ∷ 0xbf ∷ 0xbd ∷ []

abbrev pub unless_empty : Bytes → List Bytes
unless_empty [] = []
unless_empty (a ∷ text) = (a ∷ text) ∷ []

abbrev pub output_first : List Bytes → List Bytes × Bytes → List Bytes × Bytes
output_first texts (output, pending) = (texts ++ output, pending)

-- One turn of the loop of `push`; `again` is the rest of it.
unfoldable pub next_texts : (Bytes → List Bytes × Bytes) → Bytes × Bytes → List Bytes × Bytes
unfolding scan
next_texts again (text, []) = (unless_empty text, [])
next_texts again (text, a ∷ rest) = elim (scan a rest) [
  | malformed more ↦ output_first (unless_empty text ++ replacement ∷ []) (again more)
  | incomplete ↦ (unless_empty text, a ∷ rest)
  | complete char more ↦ (unless_empty text, a ∷ rest)
]

-- The loop on the pending bytes: the texts, and what stays pending.
unfoldable pub decode_pending : ℕ → Bytes → List Bytes × Bytes
unfolding from_utf8 next_texts
decode_pending zero pending = ([], pending)
decode_pending (suc fuel) pending =
    next_texts (λ more. decode_pending fuel more) (from_utf8 (length pending) pending)

unfoldable pub push : Bytes → Bytes → List Bytes × Bytes
unfolding decode_pending
push pending bytes = decode_pending (suc (length (pending ++ bytes))) (pending ++ bytes)

-- `String::from_utf8_lossy`: each sequence that begins no character is one U+FFFD.
unfoldable pub from_utf8_lossy : ℕ → Bytes → Bytes
unfolding scan
from_utf8_lossy zero bytes = []
from_utf8_lossy (suc fuel) [] = []
from_utf8_lossy (suc fuel) (a ∷ rest) = elim (scan a rest) [
  | complete char more ↦ char ++ from_utf8_lossy fuel more
  | malformed more ↦ replacement ++ from_utf8_lossy fuel more
  | incomplete ↦ replacement
]

abbrev pub lossy : Bytes → Bytes
lossy bytes = from_utf8_lossy (length bytes) bytes

unfoldable pub finish : Bytes → Option Bytes
unfolding from_utf8_lossy
finish pending = if is_empty pending then none else some (lossy pending)

-- The reads of `capture_output` one after another, and the end.
unfoldable pub decode_chunks : Bytes → List Bytes → List Bytes × Bytes
unfolding push
decode_chunks pending [] = ([], pending)
decode_chunks pending (chunk ∷ chunks) =
    let (texts, pending') = push pending chunk in output_first texts (decode_chunks pending' chunks)
