-- ===== src/Executor/Writer/Serves.antt =====
-- What the effects of `capture_writer` of src/executor.rs are the handling of.
use loomterm.Prelude.{
  ◌≤◌, ◌<◌, String, ◌≡◌, refl, sym, ap, ◌∙◌, true, false, Option, none, some, List, [], ◌∷◌, ◌++◌,
  map, append_assoc, append-nil, arith, is_empty, length, All, All-append,
}
use loomterm.Model.Execution.{ExecutionEvent}
use loomterm.Store.Executions.Batch.{CaptureRecord}
use loomterm.Executor.Writer.{
  capture_batch_size, CaptureMessage, captured, barrier, Effect, wrote, sent, reported, answered,
  Writer, Poll, ready, nothing, barrier_result, and_then,
}

abbrev pub messages : List Poll → List CaptureMessage
messages [] = []
messages (ready m ∷ polls) = m ∷ messages polls
messages (nothing ∷ polls) = messages polls

-- The messages that the effects are the handling of.
abbrev pub handled : List Effect → List CaptureMessage
handled [] = []
handled (wrote batch ∷ effects) = map captured batch ++ handled effects
handled (answered r ∷ effects) = barrier ∷ handled effects
handled (sent e ∷ effects) = handled effects
handled (reported t ∷ effects) = handled effects

-- A batch has 1 to 64 records.
abbrev pub HasBatchSize : Effect → Type 0
HasBatchSize (wrote batch) = (0 < length batch) × (length batch ≤ capture_batch_size)
HasBatchSize e = Unit

-- With `pending` unanswered at first and `left` at the end, each barrier is told the error of the
-- last batch that failed since the barrier before it.
abbrev pub AreHonest : Option String → List Effect → Option String → Type 0
AreHonest pending [] left = pending ≡ left
AreHonest pending (reported t ∷ effects) left = AreHonest (some t) effects left
AreHonest pending (answered r ∷ effects) left =
    (r ≡ barrier_result pending) × AreHonest none effects left
AreHonest pending (wrote batch ∷ effects) left = AreHonest pending effects left
AreHonest pending (sent e ∷ effects) left = AreHonest pending effects left

handled-append : (x y : List Effect) → handled (x ++ y) ≡ handled x ++ handled y
handled-append [] y = refl
handled-append (wrote batch ∷ x) y = rw (handled-append x y, append_assoc) refl
handled-append (answered r ∷ x) y = ap (λ l. barrier ∷ l) (handled-append x y)
handled-append (sent e ∷ x) y = handled-append x y
handled-append (reported t ∷ x) y = handled-append x y

AreHonest-append :
    (p q r : Option String) (x y : List Effect)
    → AreHonest p x q
    → AreHonest q y r
    → AreHonest p (x ++ y) r
AreHonest-append p q r [] y h k = rw h k
AreHonest-append p q r (wrote batch ∷ x) y h k = AreHonest-append p q r x y h k
AreHonest-append p q r (answered a ∷ x) y h k = (h.0, AreHonest-append none q r x y h.1 k)
AreHonest-append p q r (sent e ∷ x) y h k = AreHonest-append p q r x y h k
AreHonest-append p q r (reported t ∷ x) y h k = AreHonest-append (some t) q r x y h k

map-append : (x y : List CaptureRecord) → map captured (x ++ y) ≡ map captured x ++ map captured y
map-append [] y = refl
map-append (r ∷ x) y = ap (λ l. captured r ∷ l) (map-append x y)

pub handled_sent : (events : List ExecutionEvent) → handled (map sent events) ≡ []
handled_sent [] = refl
handled_sent (e ∷ events) = handled_sent events

pub sizes_sent : (events : List ExecutionEvent) → All HasBatchSize (map sent events)
sizes_sent [] = tt
sizes_sent (e ∷ events) = (tt, sizes_sent events)

pub honest_sent :
    (p : Option String) (events : List ExecutionEvent) → AreHonest p (map sent events) p
honest_sent p [] = refl
honest_sent p (e ∷ events) = honest_sent p events

-- From `w`, the messages were handled in order but for those that still wait in `result`.
pub record Serves (w : Writer) (incoming : List CaptureMessage) (result : List Effect × Writer)
    : Type 0 where
  pub order : handled result.0 ++ map captured result.1.records ≡ map captured w.records ++ incoming
  pub sizes : All HasBatchSize result.0
  pub room : length result.1.records < capture_batch_size
  pub honest : AreHonest w.pending_error result.0 result.1.pending_error

pub Serves-and_then :
    (w : Writer) (x y : List CaptureMessage) (r : List Effect × Writer)
    (next : Writer → List Effect × Writer)
    → Serves w x r
    → Serves r.1 y (next r.1)
    → Serves w (x ++ y) (and_then r next)
Serves-and_then w x y (effects, v) next a b = record {
  order =
      rw (handled-append effects (next v).0, append_assoc, b.order, ← append_assoc, a.order)
        (append_assoc (map captured w.records) x y);
  sizes = All-append HasBatchSize effects (next v).0 a.sizes b.sizes;
  room = b.room;
  honest =
      AreHonest-append w.pending_error v.pending_error (next v).1.pending_error effects (next v).0
        a.honest b.honest;
}

pub Serves-nothing : (w : Writer) → length w.records < capture_batch_size → Serves w [] ([], w)
Serves-nothing w h = record {
  order = sym (append-nil (map captured w.records));
  sizes = tt;
  room = h;
  honest = refl;
}

pub Serves-push :
    (w : Writer) (r : CaptureRecord) (result : List Effect × Writer)
    → Serves (record w { records = w.records ++ r ∷ [] }) [] result
    → Serves w (captured r ∷ []) result
Serves-push w r result a = record {
  order = a.order ∙ append-nil (map captured (w.records ++ r ∷ [])) ∙ map-append w.records (r ∷ []);
  sizes = a.sizes;
  room = a.room;
  honest = a.honest;
}

abbrev pub answer : Writer → List Effect × Writer
answer v = (answered (barrier_result v.pending_error) ∷ [], record v { pending_error = none })

pub Serves-answer : (v : Writer) → v.records ≡ [] → Serves v (barrier ∷ []) (answer v)
Serves-answer v empty = record {
  order = rw empty refl;
  sizes = (tt, tt);
  room = rw empty (omega arith);
  honest = (refl, refl);
}

pub is_empty_nil : (records : List CaptureRecord) → is_empty records ≡ true → records ≡ []
is_empty_nil [] h = refl
is_empty_nil (r ∷ records) h = ground arith

pub not_empty : (records : List CaptureRecord) → is_empty records ≡ false → 0 < length records
not_empty [] h = ground arith
not_empty (r ∷ records) h = omega arith
