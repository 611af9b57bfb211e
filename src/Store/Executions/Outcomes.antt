-- ===== src/Store/Executions/Outcomes.antt =====
-- What `mark_running` and `finish` do on each branch, on a
-- consistent database.
use loomterm.Prelude.{ℕ, ◌+◌, ℤ, String, ◌≡◌, refl, true, false, none, some, arith}
use loomterm.Result.{ok, err, execution_not_found, already_terminal}
use loomterm.Model.Execution.{
  ExecutionState, ExecutionOutcome, is_terminal, running, started, finished_with,
}
use loomterm.Store.Tables.{Db, ExecutionRow, EventRow, started_json, outcome_json, find_execution}
use loomterm.Store.Rows.{event_payload, execution_from_row}
use loomterm.Store.Journal.{IsConsistent, IsReadable, append_event, insert_next}
use loomterm.Store.Executions.{get_execution, is_queued, next_seq, mark_running, finish}

abbrev pub started_row : ℕ → String → ℕ → ℤ → ℕ → EventRow
started_row timestamp id pid pgid seq = record {
  execution_id = id;
  seq = seq;
  timestamp_ms = timestamp;
  kind = "started";
  stream = none;
  blob = none;
  payload_json = some (started_json pid pgid);
}

pub started_row-IsReadable :
    (t : ℕ) (id : String) (pid : ℕ) (pgid : ℤ) (seq : ℕ)
    → IsReadable (started_row t id pid pgid seq)
unfolding event_payload
started_row-IsReadable t id pid pgid seq b64 = (started pid pgid, refl)

abbrev pub to_running : ℕ → ℕ → ℤ → ℕ → ExecutionRow → ExecutionRow
to_running timestamp pid pgid seq r = record r {
  state = running;
  started_at_ms = some timestamp;
  pid = some pid;
  pgid = some pgid;
  last_seq = seq;
}

abbrev pub finished_row : ℕ → String → ExecutionOutcome → ℕ → EventRow
finished_row timestamp id outcome seq = record {
  execution_id = id;
  seq = seq;
  timestamp_ms = timestamp;
  kind = "finished";
  stream = none;
  blob = none;
  payload_json = some (outcome_json outcome);
}

pub finished_row-IsReadable :
    (t : ℕ) (id : String) (outcome : ExecutionOutcome) (seq : ℕ)
    → IsReadable (finished_row t id outcome seq)
unfolding event_payload
finished_row-IsReadable t id outcome seq b64 = (finished_with outcome, refl)

abbrev pub to_finished : ℕ → ExecutionState → ExecutionOutcome → ℕ → ExecutionRow → ExecutionRow
to_finished timestamp state outcome seq r = record r {
  state = state;
  ended_at_ms = some timestamp;
  outcome_json = some outcome;
  last_seq = seq;
}

pub next_seq_found :
    (db : Db) (id : String) {r : ExecutionRow}
    → find_execution id db ≡ some r
    → next_seq id db ≡ (ok (r.last_seq + 1), db)
unfolding next_seq
next_seq_found db id found = rw found

pub get_execution_missing :
    (now : ℕ) (id : String) (db : Db)
    → find_execution id db ≡ none
    → get_execution now id db ≡ (err (execution_not_found id), db)
unfolding get_execution
get_execution_missing now id db gone = rw gone refl

pub get_execution_found :
    (now : ℕ) (id : String) (db : Db) {r : ExecutionRow}
    → find_execution id db ≡ some r
    → get_execution now id db ≡ (ok (execution_from_row now r), db)
unfolding get_execution
get_execution_found now id db found = rw found refl

module _ (db : Db) (id : String) (t : ℕ) where
  pub mark_running_missing :
      (pid : ℕ) (pgid : ℤ)
      → find_execution id db ≡ none
      → mark_running t id pid pgid db ≡ (err (execution_not_found id), db)
  unfolding mark_running
  mark_running_missing pid pgid h = ground arith

  pub finish_missing :
      (state : ExecutionState) (outcome : ExecutionOutcome)
      → find_execution id db ≡ none
      → finish t id state outcome db ≡ (err (execution_not_found id), db)
  unfolding finish
  finish_missing state outcome h = ground arith

  module _ {r : ExecutionRow} (found : find_execution id db ≡ some r) where
    pub mark_running_refused :
        (pid : ℕ) (pgid : ℤ)
        → is_queued r.state ≡ false
        → mark_running t id pid pgid db ≡ (err (already_terminal id), db)
    unfolding mark_running
    mark_running_refused pid pgid h = ground (arith, found)

    pub finish_refused :
        (state : ExecutionState) (outcome : ExecutionOutcome)
        → is_terminal r.state ≡ true
        → finish t id state outcome db ≡ (err (already_terminal id), db)
    unfolding finish
    finish_refused state outcome h = ground (arith, found)

    module _ (c : IsConsistent db) where
      pub mark_running_ok :
          (pid : ℕ) (pgid : ℤ)
          → is_queued r.state ≡ true
          → let seq = r.last_seq + 1 in
            mark_running t id pid pgid db ≡ (
              ok (record {
                execution_id = id;
                seq = seq;
                timestamp_ms = t;
                payload = started pid pgid;
              }),
              append_event id (started_row t id pid pgid seq) (to_running t pid pgid seq) db,
            )
      unfolding mark_running
      mark_running_ok pid pgid h =
          let seq = r.last_seq + 1 in
          ground (
            arith,
            found,
            h,
            next_seq_found db id found,
            insert_next c (started_row t id pid pgid seq) found refl refl,
          )

      pub finish_ok :
          (state : ExecutionState) (outcome : ExecutionOutcome)
          → is_terminal r.state ≡ false
          → let seq = r.last_seq + 1 in
            finish t id state outcome db ≡ (
              ok (record {
                execution_id = id;
                seq = seq;
                timestamp_ms = t;
                payload = finished_with outcome;
              }),
              append_event id (finished_row t id outcome seq) (to_finished t state outcome seq) db,
            )
      unfolding finish
      finish_ok state outcome h =
          let seq = r.last_seq + 1 in
          ground (
            arith,
            found,
            h,
            next_seq_found db id found,
            insert_next c (finished_row t id outcome seq) found refl refl,
          )
