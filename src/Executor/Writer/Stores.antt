-- ===== src/Executor/Writer/Stores.antt =====
-- What the batches of `capture_writer` of src/executor.rs do to the database.
use loomterm.Prelude.{
  String, ◌≡◌, refl, subst, Bool, true, false, inl, inr, List, [], ◌∷◌, ◌++◌, map, append_assoc,
  append-nil, leb, is_empty, length, if◌then◌else◌, Bool-cases, ◌&&◌,
}
use loomterm.Result.{Error, Result, ok, err}
use loomterm.Model.Execution.{Base64, ExecutionEvent}
use loomterm.Store.Tables.{Db}
use loomterm.Store.Executions.Batch.{CaptureRecord, append_capture_batch}
use loomterm.Executor.Writer.{
  capture_batch_size, CaptureMessage, captured, barrier, Effect, wrote, sent, reported, answered,
  Writer, Poll, ready, nothing, after_batch, flush_capture, process_capture_message, and_then,
  capture_writer,
}

module _ (b64 : Base64) (to_string : Error → String) where
  -- The effects lead from a database to a database: each batch is appended to the database that the
  -- one before it left; if that succeeds, the events that it gave are sent, and if it fails its error
  -- is reported.
  pub data IsStored : Db → List Effect → Db → Type 0 where
    all_stored : {db : Db} → IsStored db [] db
    answers :
        {db last : Db} {effects : List Effect} (r : Result (Unit {0}))
        → IsStored db effects last
        → IsStored db (answered r ∷ effects) last
    succeeds :
        {db next last : Db} {effects : List Effect} {batch : List CaptureRecord}
        {events : List ExecutionEvent}
        → append_capture_batch b64 batch db ≡ (ok events, next)
        → IsStored next effects last
        → IsStored db (wrote batch ∷ map sent events ++ effects) last
    fails :
        {db next last : Db} {effects : List Effect} {batch : List CaptureRecord} {e : Error}
        → append_capture_batch b64 batch db ≡ (err e, next)
        → IsStored next effects last
        → IsStored db (wrote batch ∷ reported (to_string e) ∷ effects) last

  IsStored-append :
      {db next last : Db} (x y : List Effect)
      → IsStored db x next
      → IsStored next y last
      → IsStored db (x ++ y) last
  IsStored-append _ y all_stored h = h
  IsStored-append _ y (answers r k) h = answers r (IsStored-append _ y k h)
  IsStored-append _ y (succeeds {effects = effects} {batch = batch} {events = events} ran k) h =
      rw append_assoc (succeeds ran (IsStored-append effects y k h))
  IsStored-append _ y (fails ran k) h = fails ran (IsStored-append _ y k h)

  abbrev Stores : Writer → List Effect × Writer → Type 0
  Stores w result = IsStored w.db result.0 result.1.db

  Stores-and_then :
      (w : Writer) (r : List Effect × Writer) (next : Writer → List Effect × Writer)
      → Stores w r
      → Stores r.1 (next r.1)
      → Stores w (and_then r next)
  Stores-and_then w r next h k = IsStored-append r.0 (next r.1).0 h k

  Stores-batch :
      (w : Writer) (result : Result (List ExecutionEvent)) (db : Db)
      → append_capture_batch b64 w.records w.db ≡ (result, db)
      → Stores w (after_batch b64 to_string w.records w result db)
  Stores-batch w (ok events) db ran =
      subst (λ l. IsStored w.db (wrote w.records ∷ l) db) (append-nil (map sent events))
        (succeeds ran all_stored)
  Stores-batch w (err e) db ran = fails ran all_stored

  Stores-flush : (w : Writer) → Stores w (flush_capture b64 to_string w)
  unfolding flush_capture
  Stores-flush w = elim (Bool-cases (is_empty w.records)) [
    | inl empty ↦ rw empty all_stored
    | inr some_left ↦ rw some_left (Stores-batch w _ _ refl)
  ]

  Stores-process :
      (m : CaptureMessage) (w : Writer) → Stores w (process_capture_message b64 to_string m w)
  unfolding process_capture_message
  Stores-process (captured r) w =
      let w' = record w { records = w.records ++ r ∷ [] } in
      elim (Bool-cases (leb capture_batch_size (length w'.records))) [
        | inl full ↦ rw full (Stores-flush w')
        | inr space ↦ rw space all_stored
      ]
  Stores-process barrier w =
      IsStored-append (flush_capture b64 to_string w).0 _ (Stores-flush w) (answers _ all_stored)

  Stores-first :
      (b : Bool) (w : Writer) → Stores w (if b then flush_capture b64 to_string w else ([], w))
  Stores-first true w = Stores-flush w
  Stores-first false w = all_stored

  pub Stores-writer :
      (is_filling : Bool) (polls : List Poll) (w : Writer)
      → Stores w (capture_writer b64 to_string is_filling polls w)
  unfolding capture_writer
  Stores-writer false [] w = Stores-flush w
  Stores-writer true [] w =
      Stores-and_then w (flush_capture b64 to_string w) (flush_capture b64 to_string)
        (Stores-flush w) (Stores-flush (flush_capture b64 to_string w).1)
  Stores-writer false (nothing ∷ polls) w = Stores-writer false polls w
  Stores-writer true (nothing ∷ polls) w =
      Stores-and_then w (flush_capture b64 to_string w) (capture_writer b64 to_string false polls)
        (Stores-flush w) (Stores-writer false polls (flush_capture b64 to_string w).1)
  Stores-writer is_filling (ready m ∷ polls) w =
      let full = is_filling && leb capture_batch_size (length w.records) in
      let first = if full then flush_capture b64 to_string w else ([], w) in
      let step = process_capture_message b64 to_string m in
      let rest = capture_writer b64 to_string true polls in
      Stores-and_then w first (λ v. and_then (step v) rest) (Stores-first full w)
        (Stores-and_then first.1 (step first.1) rest (Stores-process m first.1)
          (Stores-writer true polls (step first.1).1))
