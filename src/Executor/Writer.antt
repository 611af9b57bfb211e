-- ===== src/Executor/Writer.antt =====
-- `capture_writer`, `process_capture_message` and `flush_capture` of src/executor.rs: the task that
-- gathers captured records into batches for the store.
pub mod Serves
pub mod Stores
pub mod Order
use loomterm.Prelude.{
  ℕ, String, Bool, true, false, ◌&&◌, Option, none, some, List, [], ◌∷◌, ◌++◌, ltb, leb, is_empty,
  length, map, if◌then◌else◌,
}
use loomterm.Result.{Error, Result, ok, err, storage_unavailable}
use loomterm.Model.Execution.{Base64, ExecutionEvent}
use loomterm.Store.Tables.{Db}
use loomterm.Store.Executions.Batch.{CaptureRecord, append_capture_batch}

abbrev pub capture_batch_size : ℕ
capture_batch_size = 64

pub data CaptureMessage : Type 0 where
  captured : CaptureRecord → CaptureMessage
  barrier : CaptureMessage

-- What the task does that others see: a batch goes to the store, an event or a fatal message goes
-- out, a barrier is answered.
pub data Effect : Type 0 where
  wrote : List CaptureRecord → Effect
  sent : ExecutionEvent → Effect
  reported : String → Effect
  answered : Result (Unit {0}) → Effect

pub record Writer : Type 0 where
  pub db : Db
  pub records : List CaptureRecord
  pub pending_error : Option String

-- What the channel gives to a receiver: a message, or nothing at the moment. `recv` waits for a
-- message; `try_recv` returns `Empty`. After the list the channel is closed.
pub data Poll : Type 0 where
  ready : CaptureMessage → Poll
  nothing : Poll

abbrev pub barrier_result : Option String → Result (Unit {0})
barrier_result none = ok tt
barrier_result (some error) = err (storage_unavailable error)

abbrev pub and_then : List Effect × Writer → (Writer → List Effect × Writer) → List Effect × Writer
and_then (effects, w) next = let (more, w') = next w in (effects ++ more, w')

-- `to_string` is the text of an error, which thiserror derives from the attributes of `Error`.
module _ (b64 : Base64) (to_string : Error → String) where
  abbrev pub after_batch :
      List CaptureRecord → Writer → Result (List ExecutionEvent) → Db → List Effect × Writer
  after_batch batch w (ok written) db =
      (wrote batch ∷ map sent written, record w { db = db; records = [] })
  after_batch batch w (err e) db = (
    wrote batch ∷ reported (to_string e) ∷ [],
    record { db = db; records = []; pending_error = some (to_string e) },
  )

  unfoldable pub flush_capture : Writer → List Effect × Writer
  flush_capture w =
      if is_empty w.records
      then ([], w)
      else let (result, db) = append_capture_batch b64 w.records w.db in
        after_batch w.records w result db

  unfoldable pub process_capture_message : CaptureMessage → Writer → List Effect × Writer
  unfolding flush_capture
  process_capture_message (captured r) w =
      let w' = record w { records = w.records ++ r ∷ [] } in
      if leb capture_batch_size (length w'.records) then flush_capture w' else ([], w')
  process_capture_message barrier w =
      let (effects, w') = flush_capture w in
      (
        effects ++ answered (barrier_result w'.pending_error) ∷ [],
        record w' { pending_error = none },
      )

  -- `while let Some(message) = receiver.recv().await`, with the inner loop `while records.len() <
  -- CAPTURE_BATCH_SIZE` and the flush behind it; `is_filling` says that the inner loop runs.
  unfoldable pub capture_writer : Bool → List Poll → Writer → List Effect × Writer
  unfolding process_capture_message
  capture_writer false [] w = flush_capture w
  capture_writer true [] w = and_then (flush_capture w) flush_capture
  capture_writer false (nothing ∷ polls) w = capture_writer false polls w
  capture_writer true (nothing ∷ polls) w = and_then (flush_capture w) (capture_writer false polls)
  capture_writer is_filling (ready m ∷ polls) w =
      and_then
        (if is_filling && leb capture_batch_size (length w.records)
          then flush_capture w
          else ([], w))
        λ w'. and_then (process_capture_message m w') (capture_writer true polls)
