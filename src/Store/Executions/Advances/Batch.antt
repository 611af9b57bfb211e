-- ===== src/Store/Executions/Advances/Batch.antt =====
-- The loops over executions and captured records advance the rows too: `append_capture_batch`,
-- `reconcile_incomplete` and `cancel_queued` of src/store.rs.
use loomterm.Prelude.{ℕ, ◌+◌, refl, inl, inr, List, [], ◌∷◌, arith, Option-cases}
use loomterm.Result.{Result, ok, err}
use loomterm.Result.Run.{Action, continue, ◌>>=◌, transaction, pure, lift, roll_back}
use loomterm.Model.Execution.{Base64, ExecutionState, ExecutionOutcome}
use loomterm.Store.Tables.{Db, ExecutionRow, find_execution}
use loomterm.Store.Journal.{IsConsistent}
use loomterm.Store.Keeps.{Keeps}
use loomterm.Store.Executions.{finish_all, reconcile_incomplete, cancel_queued}
use loomterm.Store.Executions.Batch.{
  CaptureRecord, output_record, truncated_record, append_record, append_records,
  append_capture_batch,
}
use loomterm.Store.Executions.Captures.{
  append_output_missing, append_output_ok, append_truncated_missing, append_truncated_ok,
  output_row, truncated_row, to_captured, to_truncated,
}
use loomterm.Store.Executions.Consistency.{
  finish-Keeps, finish_all-Keeps, append_record-Keeps, append_records-Keeps,
}
use loomterm.Store.Executions.Advances.{
  AllAdvance, AllAdvance-refl, AllAdvance-trans, AllAdvance-append_event, Advancing,
  finish-Advancing,
}

pub Advancing-pure : {A : Type 0} (a : A) → Advancing (pure a)
Advancing-pure a = record { at = λ db c. AllAdvance-refl db }

pub Advancing-lift : {A : Type 0} (r : Result A) → Advancing (lift r)
Advancing-lift r = record { at = λ db c. AllAdvance-refl db }

continue-AllAdvance :
    {A B : Type 0} (before : Db) (r : Result A) (db : Db) (f : A → Action Db B)
    → ((a : A) → Advancing (f a))
    → IsConsistent db
    → AllAdvance before db
    → AllAdvance before (continue r db f).1
continue-AllAdvance before (ok a) db f h c x =
    AllAdvance-trans before db (f a db).1 x ((h a).at db c)
continue-AllAdvance before (err e) db f h c x = x

pub Advancing-bind :
    {A B : Type 0} (m : Action Db A) (f : A → Action Db B)
    → Keeps m
    → Advancing m
    → ((a : A) → Advancing (f a))
    → Advancing (m >>= f)
Advancing-bind m f k hm hf = record {
  at = λ db c. continue-AllAdvance db (m db).0 (m db).1 f hf (k.at db c) (hm.at db c);
}

roll_back-AllAdvance :
    {A : Type 0} (r : Result A) (before after : Db)
    → AllAdvance before after
    → AllAdvance before (roll_back before r after).1
roll_back-AllAdvance (ok a) before after x = x
roll_back-AllAdvance (err e) before after x = AllAdvance-refl before

Advancing-transaction : {A : Type 0} (m : Action Db A) → Advancing m → Advancing (transaction m)
Advancing-transaction m h = record {
  at = λ db c. roll_back-AllAdvance (m db).0 db (m db).1 (h.at db c);
}

module _ (b64 : Base64) where
  append_record-Advancing : (r : CaptureRecord) → Advancing (append_record b64 r)
  append_record-Advancing (output_record id t stream bytes) = record { at = at }
    where
      at :
          (db : Db)
          → IsConsistent db
          → AllAdvance db (append_record b64 (output_record id t stream bytes) db).1
      at db c = elim (Option-cases (find_execution id db)) [
        | inl missing ↦
            rw (append_output_missing b64 db id t stream bytes missing) (AllAdvance-refl db)
        | inr (r, found) ↦
            let seq = r.last_seq + 1 in
            rw (append_output_ok b64 db id t found c stream bytes) (
              AllAdvance-append_event id r (output_row id t stream bytes seq)
                (to_captured bytes seq) db found (λ x. refl)
                (record {
                  same_id = refl;
                  same_command = refl;
                  same_created_at = refl;
                  last_seq = omega arith;
                  captured = omega arith;
                  same_state = λ h. refl;
                  same_outcome = λ h. refl;
                  same_end = λ h. refl;
                  same_start = λ h. refl;
                }))
      ]
  append_record-Advancing (truncated_record id t limit) = record { at = at }
    where
      at :
          (db : Db)
          → IsConsistent db
          → AllAdvance db (append_record b64 (truncated_record id t limit) db).1
      at db c = elim (Option-cases (find_execution id db)) [
        | inl missing ↦ rw (append_truncated_missing b64 db id t limit missing) (AllAdvance-refl db)
        | inr (r, found) ↦
            let seq = r.last_seq + 1 in
            rw (append_truncated_ok b64 db id t found c limit) (
              AllAdvance-append_event id r (truncated_row id t limit seq) (to_truncated seq) db
                found (λ x. refl)
                (record {
                  same_id = refl;
                  same_command = refl;
                  same_created_at = refl;
                  last_seq = omega arith;
                  captured = omega arith;
                  same_state = λ h. refl;
                  same_outcome = λ h. refl;
                  same_end = λ h. refl;
                  same_start = λ h. refl;
                }))
      ]

  append_records-Advancing : (records : List CaptureRecord) → Advancing (append_records b64 records)
  unfolding append_records
  append_records-Advancing [] = Advancing-pure []
  append_records-Advancing (r ∷ records) =
      Advancing-bind _ _ (append_record-Keeps b64 r) (append_record-Advancing r) λ event.
        Advancing-bind _ _ (append_records-Keeps b64 records) (append_records-Advancing records)
          λ events. Advancing-pure _

  pub append_capture_batch-Advancing :
      (records : List CaptureRecord) → Advancing (append_capture_batch b64 records)
  unfolding append_capture_batch
  append_capture_batch-Advancing [] = Advancing-pure []
  append_capture_batch-Advancing (r ∷ records) =
      Advancing-transaction (append_records b64 (r ∷ records))
        (append_records-Advancing (r ∷ records))

finish_all-Advancing :
    (t : ℕ) (state : ExecutionState) (outcome : ExecutionOutcome) (rows : List ExecutionRow)
    → Advancing (finish_all t state outcome rows)
unfolding finish_all
finish_all-Advancing t state outcome [] = Advancing-pure []
finish_all-Advancing t state outcome (row ∷ rows) =
    Advancing-bind _ _ (finish-Keeps t row.id state outcome)
      (finish-Advancing t row.id state outcome)
      λ event.
        Advancing-bind _ _ (finish_all-Keeps t state outcome rows)
          (finish_all-Advancing t state outcome rows) λ events. Advancing-pure _

pub reconcile_incomplete-Advancing : (t : ℕ) → Advancing (reconcile_incomplete t)
unfolding reconcile_incomplete
reconcile_incomplete-Advancing t = record {
  at = λ db c.
      (Advancing-bind _ _ (finish_all-Keeps t _ _ _) (finish_all-Advancing t _ _ _)
          λ events. Advancing-pure _).at
        db c;
}

pub cancel_queued-Advancing : (t : ℕ) → Advancing (cancel_queued t)
unfolding cancel_queued
cancel_queued-Advancing t = record { at = λ db c. (finish_all-Advancing t _ _ _).at db c }
