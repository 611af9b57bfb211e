-- ===== src/Store/Executions/Advances.antt =====
-- How one operation changes the row of an execution: `mark_running`, `append_capture_batch`,
-- `finish` and the loops over it in src/store.rs.
pub mod Batch
pub mod Creation
use loomterm.Prelude.{
  ℕ, ◌+◌, ◌≤◌, ℤ, String, ◌≡◌, refl, sym, ◌∙◌, Bool, true, false, ◌⊎◌, inl, inr, Option, none, some,
  List, [], ◌∷◌, arith, if◌then◌else◌, Bool-cases, Option-cases, ◌==◌, find_key-update, map_row,
  find_key, select, eq_iff,
}
use loomterm.Result.{Result, ok, err}
use loomterm.Result.Run.{Action, continue, ◌>>=◌, transaction, pure, raise, lift, roll_back}
use loomterm.Model.Command.{CommandSpec}
use loomterm.Model.Execution.{
  Base64, Bytes, OutputStream, ExecutionState, ExecutionOutcome, is_terminal,
}
use loomterm.Store.Tables.{Db, ExecutionRow, EventRow, execution_key, find_execution}
use loomterm.Store.Journal.{IsConsistent, append_event}
use loomterm.Store.Keeps.{Keeps}
use loomterm.Store.Executions.{
  is_queued, is_incomplete, mark_running, finish, finish_all, reconcile_incomplete, cancel_queued,
}
use loomterm.Store.Executions.Batch.{
  CaptureRecord, output_record, truncated_record, append_record, append_records,
  append_capture_batch,
}
use loomterm.Store.Executions.Outcomes.{
  mark_running_missing, mark_running_refused, mark_running_ok, finish_missing, finish_refused,
  finish_ok, started_row, finished_row, to_running, to_finished,
}
use loomterm.Store.Executions.Captures.{
  append_output_missing, append_output_ok, append_truncated_missing, append_truncated_ok,
  output_row, truncated_row, to_captured, to_truncated,
}
use loomterm.Store.Executions.Consistency.{finish-Keeps, append_record-Keeps, append_records-Keeps}

-- `s` is a later state of the row `r`: the number of the last event and the size of the output do
-- not fall, the id, the command and the time of creation stay, and once it is terminal its state,
-- its outcome and its times stay too.
pub record Advances (r s : ExecutionRow) : Type 0 where
  pub same_id : s.id ≡ r.id
  pub same_command : s.command_json ≡ r.command_json
  pub same_created_at : s.created_at_ms ≡ r.created_at_ms
  pub last_seq : r.last_seq ≤ s.last_seq
  pub captured : r.captured_bytes ≤ s.captured_bytes
  pub same_state : is_terminal r.state ≡ true → s.state ≡ r.state
  pub same_outcome : is_terminal r.state ≡ true → s.outcome_json ≡ r.outcome_json
  pub same_end : is_terminal r.state ≡ true → s.ended_at_ms ≡ r.ended_at_ms
  pub same_start : is_terminal r.state ≡ true → s.started_at_ms ≡ r.started_at_ms

pub Advances-refl : (r : ExecutionRow) → Advances r r
Advances-refl r = record {
  same_id = refl;
  same_command = refl;
  same_created_at = refl;
  last_seq = omega arith;
  captured = omega arith;
  same_state = λ t. refl;
  same_outcome = λ t. refl;
  same_end = λ t. refl;
  same_start = λ t. refl;
}

Advances-trans : (r s t : ExecutionRow) → Advances r s → Advances s t → Advances r t
Advances-trans r s t a b = record {
  same_id = b.same_id ∙ a.same_id;
  same_command = b.same_command ∙ a.same_command;
  same_created_at = b.same_created_at ∙ a.same_created_at;
  last_seq = omega (arith, a.last_seq, b.last_seq);
  captured = omega (arith, a.captured, b.captured);
  same_state = λ h. b.same_state (rw (a.same_state h) h) ∙ a.same_state h;
  same_outcome = λ h. b.same_outcome (rw (a.same_state h) h) ∙ a.same_outcome h;
  same_end = λ h. b.same_end (rw (a.same_state h) h) ∙ a.same_end h;
  same_start = λ h. b.same_start (rw (a.same_state h) h) ∙ a.same_start h;
}

-- No execution of `before` is missing in `after`, and each has advanced.
pub record AllAdvance (before after : Db) : Type 0 where
  pub at :
      (id : String) (r : ExecutionRow)
      → find_execution id before ≡ some r
      → (s : ExecutionRow) × (find_execution id after ≡ some s) × Advances r s

pub AllAdvance-refl : (db : Db) → AllAdvance db db
AllAdvance-refl db = record { at = λ id r found. (r, found, Advances-refl r) }

pub AllAdvance-trans : (a b c : Db) → AllAdvance a b → AllAdvance b c → AllAdvance a c
AllAdvance-trans a b c x y = record { at = at }
  where
    at :
        (id : String) (r : ExecutionRow)
        → find_execution id a ≡ some r
        → (s : ExecutionRow) × (find_execution id c ≡ some s) × Advances r s
    at id r found =
        let (s, found', rs) = x.at id r found in
        let (t, found'', st) = y.at id s found' in (t, found'', Advances-trans r s t rs st)

-- One more event, with a change of the row that advances it.
pub AllAdvance-append_event :
    (id : String) (r : ExecutionRow) (e : EventRow) (f : ExecutionRow → ExecutionRow) (db : Db)
    → find_execution id db ≡ some r
    → ((x : ExecutionRow) → (f x).id ≡ x.id)
    → Advances r (f r)
    → AllAdvance db (append_event id e f db)
AllAdvance-append_event id r e f db found keeps a = record { at = at }
  where
    at :
        (k : String) (q : ExecutionRow)
        → find_execution k db ≡ some q
        → (s : ExecutionRow) × (find_execution k (append_event id e f db) ≡ some s) × Advances q s
    at k q h = elim (Bool-cases (id == k)) [
      | inl same ↦
          let found' : find_execution k db ≡ some r = rw ((eq_iff id k).0 same) at found in
          let q_is_r : q ≡ r = ground (arith, found', h) in
          (
            f r,
            rw (find_key-update execution_key id k f db.executions keeps, same, found') refl,
            rw q_is_r a,
          )
      | inr other ↦ (
        q,
        rw (find_key-update execution_key id k f db.executions keeps, other) h,
        Advances-refl q,
      )
    ]

-- An action after which every execution has advanced.
pub record Advancing {A : Type 0} (m : Action Db A) : Type 0 where
  pub at : (db : Db) → IsConsistent db → AllAdvance db (m db).1

pub mark_running-Advancing :
    (t : ℕ) (id : String) (pid : ℕ) (pgid : ℤ) → Advancing (mark_running t id pid pgid)
mark_running-Advancing t id pid pgid = record { at = at }
  where
    at : (db : Db) → IsConsistent db → AllAdvance db (mark_running t id pid pgid db).1
    at db c = elim (Option-cases (find_execution id db)) [
      | inl missing ↦ rw (mark_running_missing db id t pid pgid missing) (AllAdvance-refl db)
      | inr (r, found) ↦ elim (Bool-cases (is_queued r.state)) [
        | inl waits ↦
            let seq = r.last_seq + 1 in
            rw (mark_running_ok db id t found c pid pgid waits) (
              AllAdvance-append_event id r (started_row t id pid pgid seq)
                (to_running t pid pgid seq) db found (λ x. refl)
                (record {
                  same_id = refl;
                  same_command = refl;
                  same_created_at = refl;
                  last_seq = omega arith;
                  captured = omega arith;
                  same_state = λ h. ground arith;
                  same_outcome = λ h. refl;
                  same_end = λ h. refl;
                  same_start = λ h. ground arith;
                }))
        | inr late ↦ rw (mark_running_refused db id t found pid pgid late) (AllAdvance-refl db)
      ]
    ]

pub finish-Advancing :
    (t : ℕ) (id : String) (state : ExecutionState) (outcome : ExecutionOutcome)
    → Advancing (finish t id state outcome)
finish-Advancing t id state outcome = record { at = at }
  where
    at : (db : Db) → IsConsistent db → AllAdvance db (finish t id state outcome db).1
    at db c = elim (Option-cases (find_execution id db)) [
      | inl missing ↦ rw (finish_missing db id t state outcome missing) (AllAdvance-refl db)
      | inr (r, found) ↦ elim (Bool-cases (is_terminal r.state)) [
        | inl over ↦ rw (finish_refused db id t found state outcome over) (AllAdvance-refl db)
        | inr going ↦
            let seq = r.last_seq + 1 in
            rw (finish_ok db id t found c state outcome going) (
              AllAdvance-append_event id r (finished_row t id outcome seq)
                (to_finished t state outcome seq) db found (λ x. refl)
                (record {
                  same_id = refl;
                  same_command = refl;
                  same_created_at = refl;
                  last_seq = omega arith;
                  captured = omega arith;
                  same_state = λ h. ground (arith, h, going);
                  same_outcome = λ h. ground (arith, h, going);
                  same_end = λ h. ground (arith, h, going);
                  same_start = λ h. refl;
                }))
      ]
    ]
