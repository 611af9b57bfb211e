-- ===== src/Executor/Writer/Order.antt =====
-- The order in which `capture_writer` of src/executor.rs handles its messages.
use loomterm.Prelude.{
  ◌+◌, ◌≤◌, ◌<◌, String, ◌≡◌, refl, sym, ap, ◌∙◌, Bool, true, false, inl, inr, List, [], ◌∷◌, ◌++◌,
  map, append-nil, arith, leb, is_empty, length, length-append, All, if◌then◌else◌, Bool-cases,
  ◌&&◌,
}
use loomterm.Result.{Error, Result, ok, err}
use loomterm.Model.Execution.{Base64, ExecutionEvent}
use loomterm.Store.Tables.{Db}
use loomterm.Store.Executions.Batch.{append_capture_batch}
use loomterm.Executor.Writer.{
  capture_batch_size, CaptureMessage, captured, barrier, Writer, Poll, ready, nothing, after_batch,
  flush_capture, process_capture_message, and_then, capture_writer,
}
use loomterm.Executor.Writer.Serves.{
  messages, handled, HasBatchSize, AreHonest, Serves, Serves-and_then, Serves-nothing, Serves-push,
  Serves-answer, answer, handled_sent, sizes_sent, honest_sent, is_empty_nil, not_empty,
}
use loomterm.Executor.Writer.Stores.{IsStored, Stores-writer}

module _ (b64 : Base64) (to_string : Error → String) where
  -- A full batch may be flushed too.
  Serves-flush :
      (w : Writer)
      → length w.records ≤ capture_batch_size
      → Serves w [] (flush_capture b64 to_string w)
        × ((flush_capture b64 to_string w).1.records ≡ [])
  unfolding flush_capture
  Serves-flush w h = elim (Bool-cases (is_empty w.records)) [
    | inl empty ↦
        let none_left : w.records ≡ [] = is_empty_nil w.records empty in
        rw empty (Serves-nothing w (rw none_left (omega arith)), none_left)
    | inr some_left ↦ rw some_left (
        written (append_capture_batch b64 w.records w.db).0
          (append_capture_batch b64 w.records w.db).1 (not_empty w.records some_left))
  ]
    where
      written :
          (result : Result (List ExecutionEvent)) (db : Db)
          → 0 < length w.records
          → Serves w [] (after_batch b64 to_string w.records w result db)
            × ((after_batch b64 to_string w.records w result db).1.records ≡ [])
      written (ok events) db some_left = (
        record {
          order = rw (handled_sent events) (append-nil (map captured w.records ++ []));
          sizes = ((some_left, h), sizes_sent events);
          room = omega arith;
          honest = honest_sent w.pending_error events;
        },
        refl,
      )
      written (err e) db some_left = (
        record {
          order = append-nil (map captured w.records ++ []);
          sizes = ((some_left, h), (tt, tt));
          room = omega arith;
          honest = refl;
        },
        refl,
      )

  Serves-process :
      (m : CaptureMessage) (w : Writer)
      → length w.records < capture_batch_size
      → Serves w (m ∷ []) (process_capture_message b64 to_string m w)
  unfolding process_capture_message
  Serves-process (captured r) w h =
      let w' = record w { records = w.records ++ r ∷ [] } in
      let size : length w'.records ≡ length w.records + 1 = length-append w.records (r ∷ []) in
      elim (Bool-cases (leb capture_batch_size (length w'.records))) [
        | inl full ↦ rw full (Serves-push w r _ (Serves-flush w' (omega (arith, size))).0)
        | inr space ↦ rw space (Serves-push w r _ (Serves-nothing w' (ground (arith, size))))
      ]
  Serves-process barrier w h =
      let (a, none_left) = Serves-flush w (omega arith) in
      Serves-and_then w [] (barrier ∷ []) (flush_capture b64 to_string w) answer a
        (Serves-answer (flush_capture b64 to_string w).1 none_left)

  Serves-first :
      (b : Bool) (w : Writer)
      → length w.records < capture_batch_size
      → Serves w [] (if b then flush_capture b64 to_string w else ([], w))
  Serves-first true w h = (Serves-flush w (omega arith)).0
  Serves-first false w h = Serves-nothing w h

  Serves-writer :
      (is_filling : Bool) (polls : List Poll) (w : Writer)
      → length w.records < capture_batch_size
      → Serves w (messages polls) (capture_writer b64 to_string is_filling polls w)
        × ((capture_writer b64 to_string is_filling polls w).1.records ≡ [])
  unfolding capture_writer
  Serves-writer false [] w h = Serves-flush w (omega arith)
  Serves-writer true [] w h =
      let (a, none_left) = Serves-flush w (omega arith) in
      let (b, none_left') =
        Serves-flush (flush_capture b64 to_string w).1 (omega (arith, a.room)) in
      (
        Serves-and_then w [] [] (flush_capture b64 to_string w) (flush_capture b64 to_string) a b,
        none_left',
      )
  Serves-writer false (nothing ∷ polls) w h = Serves-writer false polls w h
  Serves-writer true (nothing ∷ polls) w h =
      let (a, none_left) = Serves-flush w (omega arith) in
      let (b, none_left') = Serves-writer false polls (flush_capture b64 to_string w).1 a.room in
      (
        Serves-and_then w [] (messages polls) (flush_capture b64 to_string w)
            (capture_writer b64 to_string false polls) a b,
        none_left',
      )
  Serves-writer is_filling (ready m ∷ polls) w h =
      let full = is_filling && leb capture_batch_size (length w.records) in
      let first = if full then flush_capture b64 to_string w else ([], w) in
      let step = process_capture_message b64 to_string m in
      let rest = capture_writer b64 to_string true polls in
      let a : Serves w [] first = Serves-first full w h in
      let b : Serves first.1 (m ∷ []) (step first.1) = Serves-process m first.1 a.room in
      let (c, none_left) = Serves-writer true polls (step first.1).1 b.room in
      (
        Serves-and_then w [] (m ∷ messages polls) first (λ v. and_then (step v) rest) a
            (Serves-and_then first.1 (m ∷ []) (messages polls) (step first.1) rest b c),
        none_left,
      )

  -- From an empty buffer, until the channel is closed, whatever the moments at which it is empty:
  -- each record is in one batch, in the order of the messages, in batches of 1 to 64; each batch is
  -- appended to the database that the batch before it left, and its events are sent if that succeeds
  -- and its error is reported if it fails, and nothing else changes the database; each barrier is
  -- answered once, behind the batches of all records before it and before those of any behind it;
  -- the answer is the error that was last reported since the barrier before it, or success if none
  -- was; and at the end no record waits.
  pub capture_writer_order :
      (polls : List Poll) (w : Writer)
      → w.records ≡ []
      → let result = capture_writer b64 to_string false polls w in
        (handled result.0 ≡ messages polls)
        × All HasBatchSize result.0
        × IsStored b64 to_string w.db result.0 result.1.db
        × AreHonest w.pending_error result.0 result.1.pending_error
        × (result.1.records ≡ [])
  capture_writer_order polls w empty =
      let (a, none_left) = Serves-writer false polls w (rw empty (omega arith)) in
      let result = capture_writer b64 to_string false polls w in
      let order : handled result.0 ≡ messages polls =
        sym (append-nil (handled result.0))
        ∙ ap (λ l. handled result.0 ++ map captured l) (sym none_left)
        ∙ a.order
        ∙ ap (λ l. map captured l ++ messages polls) empty in
      (order, a.sizes, Stores-writer b64 to_string false polls w, a.honest, none_left)
