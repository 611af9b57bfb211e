-- ===== src/Recorder/Utf8/Chunks.antt =====
-- How a terminal's output is cut into reads makes no difference to the text that is recorded.
use loomterm.Prelude.{
  ℕ, zero, suc, ◌+◌, ◌≤◌, ◌<◌, ◌≡◌, refl, sym, ap, ◌∙◌, Bool, true, false, inl, inr, Option, none,
  some, List, [], ◌∷◌, ◌++◌, append_assoc, append-nil, arith, length, length-append,
}
use loomterm.Model.Execution.{Bytes}
use loomterm.Recorder.Utf8.{
  Scan, complete, scan, from_utf8, also, replacement, unless_empty, next_texts, decode_pending,
  push, lossy, finish, decode_chunks,
}
use loomterm.Recorder.Utf8.Scanning.{scan_shrinks, Scan-cases}
use loomterm.Recorder.Utf8.Settle.{
  settle, settle_malformed, settle_incomplete, settle_fuel, settle_shrinks, settle-append,
  also-also, settle-settle, replaced, from_utf8_lossy-settle,
}

-- The texts one after another.
abbrev pub all_text : List Bytes → Bytes
all_text [] = []
all_text (text ∷ texts) = text ++ all_text texts

abbrev pub or_nothing : Option Bytes → Bytes
or_nothing none = []
or_nothing (some text) = text

abbrev Agrees : List Bytes × Bytes → Bytes × Bytes → Type 0
Agrees x y = (all_text x.0 ≡ y.0) × (x.1 ≡ y.1)

abbrev is_complete : Scan → Bool
is_complete (complete char more) = true
is_complete _ = false

-- No character stands at the beginning.
abbrev IsStopped : Bytes → Type 0
IsStopped [] = Unit
IsStopped (a ∷ rest) = is_complete (scan a rest) ≡ false

pub all_text-append : (x y : List Bytes) → all_text (x ++ y) ≡ all_text x ++ all_text y
all_text-append [] y = refl
all_text-append (t ∷ x) y = rw (all_text-append x y, append_assoc) refl

all_text-unless_empty : (t : Bytes) → all_text (unless_empty t) ≡ t
all_text-unless_empty [] = refl
all_text-unless_empty (a ∷ t) = append-nil (a ∷ t)

settle_nil : (f : ℕ) → settle f [] ≡ ([], [])
unfolding settle
settle_nil zero = refl
settle_nil (suc f) = refl

from_utf8_lem :
    (f : ℕ) (bytes : Bytes)
    → length bytes ≤ f
    → let (text, rest) = from_utf8 f bytes in
      (settle f bytes ≡ also text (settle f rest)) × IsStopped rest × (length rest ≤ length bytes)
unfolding from_utf8 settle
from_utf8_lem zero [] h = (refl, tt, omega arith)
from_utf8_lem zero (a ∷ rest) h = absurd (omega arith)
from_utf8_lem (suc f) [] h = (refl, tt, omega arith)
from_utf8_lem (suc f) (a ∷ rest) h = elim (Scan-cases (scan a rest)) [
  | inl (char, more, e) ↦
      let shorter : length more ≤ length rest = rw e at (scan_shrinks a rest) in
      let (same, stopped, size) = from_utf8_lem f more (omega arith) in
      rw (e, from_utf8, settle)
        (
          ap (also char) same
              ∙ ap (also char) (
                  ap (also (from_utf8 f more).0)
                    (settle_fuel f (suc f) (from_utf8 f more).1 (omega arith) (omega arith)))
              ∙ also-also char (from_utf8 f more).0 (settle (suc f) (from_utf8 f more).1),
          stopped,
          omega arith,
        )
  | inr (inl (more, e)) ↦ rw (e, from_utf8) (refl, rw e refl, omega arith)
  | inr (inr e) ↦ rw (e, from_utf8) (refl, rw e refl, omega arith)
]

next_texts-Agrees :
    (again : Bytes → List Bytes × Bytes) (n : ℕ) (text rest : Bytes)
    → length rest ≤ n
    → IsStopped rest
    → ((more : Bytes) → length more < length rest → Agrees (again more) (settle n more))
    → Agrees (next_texts again (text, rest)) (also text (settle n rest))
unfolding next_texts
next_texts-Agrees again n text [] h s ih =
    rw (settle_nil n) (all_text-unless_empty text ∙ sym (append-nil text), refl)
next_texts-Agrees again zero text (a ∷ rest) h s ih = absurd (omega arith)
next_texts-Agrees again (suc n) text (a ∷ rest) h s ih = elim (Scan-cases (scan a rest)) [
  | inl (char, more, e) ↦ absurd (ground (arith, s, e))
  | inr (inl (more, e)) ↦
      let shorter : length more ≤ length rest = rw e at (scan_shrinks a rest) in
      let (out, left) = ih more (omega arith) in
      let same = settle_fuel n (suc n) more (omega arith) (omega arith) in
      rw (e, next_texts, settle_malformed n a rest more e, same)
        (
          all_text-append (unless_empty text ++ replacement ∷ []) (again more).0
              ∙ rw
                  (
                    all_text-append (unless_empty text) (replacement ∷ []),
                    all_text-unless_empty text,
                    out,
                  )
                  (append_assoc text replacement (settle (suc n) more).0),
          left,
        )
  | inr (inr e) ↦
      rw (e, next_texts, settle_incomplete n a rest e)
        (all_text-unless_empty text ∙ sym (append-nil text), refl)
]

decode_pending-Agrees :
    (f n : ℕ) (pending : Bytes)
    → length pending < f
    → length pending ≤ n
    → Agrees (decode_pending f pending) (settle n pending)
unfolding decode_pending
decode_pending-Agrees zero n pending h m = absurd (omega arith)
decode_pending-Agrees (suc f) n pending h m =
    let (same, stopped, size) = from_utf8_lem (length pending) pending (omega arith) in
    let (text, rest) = from_utf8 (length pending) pending in
    rw (settle_fuel n (length pending) pending m (omega arith), same)
      (next_texts-Agrees (λ more. decode_pending f more) (length pending)
        (from_utf8 (length pending) pending).0 (from_utf8 (length pending) pending).1 size stopped
        (λ more shorter.
          let (out, left) =
            decode_pending-Agrees f (length pending) more (omega arith) (omega arith) in
          (out, left)))

push-Agrees :
    (n : ℕ) (pending chunk : Bytes)
    → length (pending ++ chunk) ≤ n
    → Agrees (push pending chunk) (settle n (pending ++ chunk))
unfolding push
push-Agrees n pending chunk h =
    decode_pending-Agrees (suc (length (pending ++ chunk))) n (pending ++ chunk) (omega arith) h

-- The chunks are decoded as their whole.
decode_chunks-Agrees :
    (n : ℕ) (pending : Bytes) (chunks : List Bytes)
    → settle n pending ≡ ([], pending)
    → length pending + length (all_text chunks) ≤ n
    → Agrees (decode_chunks pending chunks) (settle n (pending ++ all_text chunks))
unfolding decode_chunks
decode_chunks-Agrees n pending [] s h = rw (append-nil pending, s) (refl, refl)
decode_chunks-Agrees n pending (chunk ∷ chunks) s h =
    let whole = pending ++ chunk in
    let size : length whole ≡ length pending + length chunk = length-append pending chunk in
    let sizes : length (all_text (chunk ∷ chunks)) ≡ length chunk + length (all_text chunks) =
      length-append chunk (all_text chunks) in
    let (out, left) = push-Agrees n pending chunk (omega arith) in
    let left' = (settle n whole).1 in
    let less : length left' ≤ length whole = settle_shrinks n whole in
    let rest =
      decode_chunks-Agrees n left' chunks (settle-settle n whole (omega arith)) (omega arith) in
    rw
      (
        ← append_assoc pending chunk (all_text chunks),
        settle-append n whole (all_text chunks) (omega arith),
        all_text-append (push pending chunk).0 (decode_chunks (push pending chunk).1 chunks).0,
        out,
        left,
      )
      (ap (λ t. (settle n whole).0 ++ t) rest.0, rest.1)

finish_settled :
    (n : ℕ) (pending : Bytes)
    → length pending ≤ n
    → settle n pending ≡ ([], pending)
    → or_nothing (finish pending) ≡ replaced pending
unfolding finish
finish_settled n [] h s = refl
finish_settled n (a ∷ rest) h s =
    from_utf8_lossy-settle (length (a ∷ rest)) (a ∷ rest) (omega arith)
    ∙ rw (settle_fuel (length (a ∷ rest)) n (a ∷ rest) (omega arith) h, s) refl

-- The bytes of a terminal, cut into reads in any way, are recorded as the text that the lossy
-- decoding of all of them at once gives: a character that a read cuts in two is put together again,
-- and a sequence that begins no character is replaced once.
pub decode_chunks-eq-lossy :
    (chunks : List Bytes)
    → let (texts, pending) = decode_chunks [] chunks in
      all_text texts ++ or_nothing (finish pending) ≡ lossy (all_text chunks)
decode_chunks-eq-lossy chunks =
    let bytes = all_text chunks in
    let n = length bytes in
    let (out, left) = decode_chunks-Agrees n [] chunks (settle_nil n) (omega arith) in
    let less = settle_shrinks n bytes in
    rw
      (
        out,
        left,
        finish_settled n (settle n bytes).1 less (settle-settle n bytes (omega arith)),
        from_utf8_lossy-settle n bytes (omega arith),
      )
      refl
