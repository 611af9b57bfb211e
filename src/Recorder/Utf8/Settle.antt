-- ===== src/Recorder/Utf8/Settle.antt =====
-- A whole sequence of bytes decoded at once, for the decoder of src/session.rs to be compared with.
use loomterm.Prelude.{
  ℕ, zero, suc, ◌+◌, ◌≤◌, ◌≡◌, refl, sym, ap, ◌∙◌, inl, inr, [], ◌∷◌, ◌++◌, append_assoc, arith,
  length, length-append,
}
use loomterm.Model.Execution.{Bytes}
use loomterm.Recorder.Utf8.{
  complete, malformed, incomplete, scan, also, replacement, from_utf8_lossy,
}
use loomterm.Recorder.Utf8.Scanning.{behind, scan-append, scan_shrinks, Scan-cases}

-- All that can be decided of a sequence of bytes: its text, and the incomplete character at the end.
unfoldable pub settle : ℕ → Bytes → Bytes × Bytes
settle zero bytes = ([], bytes)
settle (suc fuel) [] = ([], [])
settle (suc fuel) (a ∷ rest) = elim (scan a rest) [
  | complete char more ↦ also char (settle fuel more)
  | malformed more ↦ also replacement (settle fuel more)
  | incomplete ↦ ([], a ∷ rest)
]

module _ (f a : ℕ) (rest : Bytes) where
  pub settle_complete :
      (char more : Bytes)
      → scan a rest ≡ complete char more
      → settle (suc f) (a ∷ rest) ≡ also char (settle f more)
  unfolding settle
  settle_complete char more e = rw (e, settle) refl

  pub settle_malformed :
      (more : Bytes)
      → scan a rest ≡ malformed more
      → settle (suc f) (a ∷ rest) ≡ also replacement (settle f more)
  unfolding settle
  settle_malformed more e = rw (e, settle) refl

  pub settle_incomplete : scan a rest ≡ incomplete → settle (suc f) (a ∷ rest) ≡ ([], a ∷ rest)
  unfolding settle
  settle_incomplete e = rw (e, settle) refl

pub settle_fuel :
    (f g : ℕ) (bytes : Bytes)
    → length bytes ≤ f
    → length bytes ≤ g
    → settle f bytes ≡ settle g bytes
unfolding settle
settle_fuel zero zero bytes hf hg = refl
settle_fuel zero (suc g) [] hf hg = refl
settle_fuel (suc f) zero [] hf hg = refl
settle_fuel (suc f) (suc g) [] hf hg = refl
settle_fuel zero (suc g) (a ∷ rest) hf hg = absurd (omega arith)
settle_fuel (suc f) zero (a ∷ rest) hf hg = absurd (omega arith)
settle_fuel (suc f) (suc g) (a ∷ rest) hf hg = elim (Scan-cases (scan a rest)) [
  | inl (char, more, e) ↦
      let shorter : length more ≤ length rest = rw e at (scan_shrinks a rest) in
      rw (settle_complete f a rest char more e, settle_complete g a rest char more e)
        (ap (also char) (settle_fuel f g more (omega arith) (omega arith)))
  | inr (inl (more, e)) ↦
      let shorter : length more ≤ length rest = rw e at (scan_shrinks a rest) in
      rw (settle_malformed f a rest more e, settle_malformed g a rest more e)
        (ap (also replacement) (settle_fuel f g more (omega arith) (omega arith)))
  | inr (inr e) ↦ rw (settle_incomplete f a rest e, settle_incomplete g a rest e) refl
]

pub settle_shrinks : (f : ℕ) (bytes : Bytes) → length (settle f bytes).1 ≤ length bytes
unfolding settle
settle_shrinks zero bytes = omega arith
settle_shrinks (suc f) [] = omega arith
settle_shrinks (suc f) (a ∷ rest) = elim (Scan-cases (scan a rest)) [
  | inl (char, more, e) ↦
      let shorter : length more ≤ length rest = rw e at (scan_shrinks a rest) in
      rw (settle_complete f a rest char more e) (omega (arith, settle_shrinks f more))
  | inr (inl (more, e)) ↦
      let shorter : length more ≤ length rest = rw e at (scan_shrinks a rest) in
      rw (settle_malformed f a rest more e) (omega (arith, settle_shrinks f more))
  | inr (inr e) ↦ rw (settle_incomplete f a rest e) (omega arith)
]

pub also-also : (x y : Bytes) (r : Bytes × Bytes) → also x (also y r) ≡ also (x ++ y) r
also-also x y r = ap (λ t. (t, r.1)) (sym (append_assoc x y r.0))

pub settle-append :
    (f : ℕ) (bytes more : Bytes)
    → length bytes + length more ≤ f
    → settle f (bytes ++ more) ≡ also (settle f bytes).0 (settle f ((settle f bytes).1 ++ more))
unfolding settle
settle-append zero [] more h = refl
settle-append zero (a ∷ rest) more h = absurd (omega arith)
settle-append (suc f) [] more h = refl
settle-append (suc f) (a ∷ rest) more h = elim (Scan-cases (scan a rest)) [
  | inl (char, left, e) ↦
      let shorter : length left ≤ length rest = rw e at (scan_shrinks a rest) in
      let grown : scan a (rest ++ more) ≡ complete char (left ++ more) =
        scan-append a rest more (rw e refl) ∙ ap (λ s. behind s more) e in
      let size : length ((settle f left).1 ++ more) ≤ f =
        omega (arith, length-append (settle f left).1 more, settle_shrinks f left) in
      rw
        (
          settle_complete f a (rest ++ more) char (left ++ more) grown,
          settle_complete f a rest char left e,
          settle-append f left more (omega arith),
          settle_fuel (suc f) f ((settle f left).1 ++ more) (omega arith) size,
        )
        (also-also char (settle f left).0 _)
  | inr (inl (left, e)) ↦
      let shorter : length left ≤ length rest = rw e at (scan_shrinks a rest) in
      let grown : scan a (rest ++ more) ≡ malformed (left ++ more) =
        scan-append a rest more (rw e refl) ∙ ap (λ s. behind s more) e in
      let size : length ((settle f left).1 ++ more) ≤ f =
        omega (arith, length-append (settle f left).1 more, settle_shrinks f left) in
      rw
        (
          settle_malformed f a (rest ++ more) (left ++ more) grown,
          settle_malformed f a rest left e,
          settle-append f left more (omega arith),
          settle_fuel (suc f) f ((settle f left).1 ++ more) (omega arith) size,
        )
        (also-also replacement (settle f left).0 _)
  | inr (inr e) ↦ rw (settle_incomplete f a rest e) refl
]

-- What stays pending has no character to give.
pub settle-settle :
    (f : ℕ) (bytes : Bytes)
    → length bytes ≤ f
    → settle f (settle f bytes).1 ≡ ([], (settle f bytes).1)
unfolding settle
settle-settle zero [] h = refl
settle-settle zero (a ∷ rest) h = absurd (omega arith)
settle-settle (suc f) [] h = refl
settle-settle (suc f) (a ∷ rest) h = elim (Scan-cases (scan a rest)) [
  | inl (char, more, e) ↦
      let shorter : length more ≤ length rest = rw e at (scan_shrinks a rest) in
      let less = settle_shrinks f more in
      rw (settle_complete f a rest char more e) (
        settle_fuel (suc f) f (settle f more).1 (omega arith) (omega arith)
        ∙ settle-settle f more (omega arith))
  | inr (inl (more, e)) ↦
      let shorter : length more ≤ length rest = rw e at (scan_shrinks a rest) in
      let less = settle_shrinks f more in
      rw (settle_malformed f a rest more e) (
        settle_fuel (suc f) f (settle f more).1 (omega arith) (omega arith)
        ∙ settle-settle f more (omega arith))
  | inr (inr e) ↦ rw (settle_incomplete f a rest e) (settle_incomplete f a rest e)
]

-- `from_utf8_lossy` replaces what stays pending.
abbrev pub replaced : Bytes → Bytes
replaced [] = []
replaced (a ∷ rest) = replacement

pub from_utf8_lossy-settle :
    (f : ℕ) (bytes : Bytes)
    → length bytes ≤ f
    → from_utf8_lossy f bytes ≡ (settle f bytes).0 ++ replaced (settle f bytes).1
unfolding settle from_utf8_lossy
from_utf8_lossy-settle zero [] h = refl
from_utf8_lossy-settle zero (a ∷ rest) h = absurd (omega arith)
from_utf8_lossy-settle (suc f) [] h = refl
from_utf8_lossy-settle (suc f) (a ∷ rest) h = elim (Scan-cases (scan a rest)) [
  | inl (char, more, e) ↦
      let shorter : length more ≤ length rest = rw e at (scan_shrinks a rest) in
      rw (e, from_utf8_lossy, settle)
        (ap (λ t. char ++ t) (from_utf8_lossy-settle f more (omega arith))
          ∙ sym (append_assoc char (settle f more).0 (replaced (settle f more).1)))
  | inr (inl (more, e)) ↦
      let shorter : length more ≤ length rest = rw e at (scan_shrinks a rest) in
      rw (e, from_utf8_lossy, settle)
        (ap (λ t. replacement ++ t) (from_utf8_lossy-settle f more (omega arith))
          ∙ sym (append_assoc replacement (settle f more).0 (replaced (settle f more).1)))
  | inr (inr e) ↦ rw (e, from_utf8_lossy, settle) refl
]
