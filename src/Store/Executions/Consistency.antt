-- ===== src/Store/Executions/Consistency.antt =====
-- Every operation on executions keeps the journals consistent with their rows, on every path, also
-- where it fails or is rolled back.
use loomterm.Prelude.{
  ℕ, ◌+◌, ℤ, String, ◌≡◌, refl, sym, true, false, ◌⊎◌, inl, inr, Option, none, some, List, [], ◌∷◌,
  ◌++◌, arith, Bool-cases, Option-cases, or_else, find_key-append, HasUniqueKeys-append,
  if◌then◌else◌, is_some, ◌==◌, eq_iff, eq_refl, ◌&&◌,
}
use loomterm.Result.{agent_session_not_found, execution_not_found}
use loomterm.Model.Execution.{
  ExecutionRequest, Base64, ExecutionState, ExecutionOutcome, is_terminal,
}
use loomterm.Store.Tables.{
  Db, ExecutionRow, find_execution, execution_key, find_session, session_exists, find_workspace,
}
use loomterm.Store.Journal.{IsConsistent, HasJournal, journal, IsConsistent-append_event}
use loomterm.Store.Keeps.{
  Keeps, keeps_rules, Keeps-bind, Keeps-pure, Keeps-lift, Keeps-transaction, Keeps-or_not_found,
}
use loomterm.Store.Executions.{
  is_queued, mark_running, finish, finish_all, reconcile_incomplete, cancel_queued,
  create_execution, check_session, insert_execution, get_agent_session_record, get_execution,
  new_row, execution_row,
}
use loomterm.Store.Executions.Batch.{
  CaptureRecord, append_record, output_record, truncated_record, append_records,
  append_capture_batch,
}
use loomterm.Store.Executions.Outcomes.{
  started_row, to_running, finished_row, to_finished, mark_running_missing, mark_running_refused,
  mark_running_ok, finish_missing, finish_refused, finish_ok, started_row-IsReadable,
  finished_row-IsReadable,
}
use loomterm.Store.Executions.Captures.{
  output_row, to_captured, truncated_row, to_truncated, append_output_missing, append_output_ok,
  append_truncated_missing, append_truncated_ok, output_row-IsReadable, truncated_row-IsReadable,
}

pub mark_running-Keeps :
    (t : ℕ) (id : String) (pid : ℕ) (pgid : ℤ) → Keeps (mark_running t id pid pgid)
mark_running-Keeps t id pid pgid = record { at = at }
  where
    at : (db : Db) → IsConsistent db → IsConsistent (mark_running t id pid pgid db).1
    at db c = elim (Option-cases (find_execution id db)) [
      | inl missing ↦ rw (mark_running_missing db id t pid pgid missing) c
      | inr (r, found) ↦ elim (Bool-cases (is_queued r.state)) [
        | inl fresh ↦
            let e = started_row t id pid pgid (r.last_seq + 1) in
            rw (mark_running_ok db id t found c pid pgid fresh) (
              IsConsistent-append_event c e found refl (to_running t pid pgid (r.last_seq + 1))
                (record { keeps_id = λ x. refl; next = refl; last = refl; size = omega arith })
                (started_row-IsReadable t id pid pgid (r.last_seq + 1)))
        | inr old ↦ rw (mark_running_refused db id t found pid pgid old) c
      ]
    ]

pub finish-Keeps :
    (t : ℕ) (id : String) (state : ExecutionState) (outcome : ExecutionOutcome)
    → Keeps (finish t id state outcome)
finish-Keeps t id state outcome = record { at = at }
  where
    at : (db : Db) → IsConsistent db → IsConsistent (finish t id state outcome db).1
    at db c = elim (Option-cases (find_execution id db)) [
      | inl missing ↦ rw (finish_missing db id t state outcome missing) c
      | inr (r, found) ↦ elim (Bool-cases (is_terminal r.state)) [
        | inl old ↦ rw (finish_refused db id t found state outcome old) c
        | inr live ↦
            let e = finished_row t id outcome (r.last_seq + 1) in
            rw (finish_ok db id t found c state outcome live) (
              IsConsistent-append_event c e found refl
                (to_finished t state outcome (r.last_seq + 1))
                (record { keeps_id = λ x. refl; next = refl; last = refl; size = omega arith })
                (finished_row-IsReadable t id outcome (r.last_seq + 1)))
      ]
    ]

module _ (b64 : Base64) where
  pub append_record-Keeps : (r : CaptureRecord) → Keeps (append_record b64 r)
  append_record-Keeps (output_record id t stream bytes) = record { at = at }
    where
      at :
          (db : Db)
          → IsConsistent db
          → IsConsistent (append_record b64 (output_record id t stream bytes) db).1
      at db c = elim (Option-cases (find_execution id db)) [
        | inl missing ↦ rw (append_output_missing b64 db id t stream bytes missing) c
        | inr (r, found) ↦
            let e = output_row id t stream bytes (r.last_seq + 1) in
            rw (append_output_ok b64 db id t found c stream bytes) (
              IsConsistent-append_event c e found refl (to_captured bytes (r.last_seq + 1))
                (record { keeps_id = λ x. refl; next = refl; last = refl; size = refl })
                (output_row-IsReadable id t stream bytes (r.last_seq + 1)))
      ]
  append_record-Keeps (truncated_record id t limit) = record { at = at }
    where
      at :
          (db : Db)
          → IsConsistent db
          → IsConsistent (append_record b64 (truncated_record id t limit) db).1
      at db c = elim (Option-cases (find_execution id db)) [
        | inl missing ↦ rw (append_truncated_missing b64 db id t limit missing) c
        | inr (r, found) ↦
            let e = truncated_row id t limit (r.last_seq + 1) in
            rw (append_truncated_ok b64 db id t found c limit) (
              IsConsistent-append_event c e found refl (to_truncated (r.last_seq + 1))
                (record { keeps_id = λ x. refl; next = refl; last = refl; size = omega arith })
                (truncated_row-IsReadable id t limit (r.last_seq + 1)))
      ]

  pub append_records-Keeps : (records : List CaptureRecord) → Keeps (append_records b64 records)
  unfolding append_records
  append_records-Keeps [] = Keeps-pure []
  append_records-Keeps (r ∷ records) =
      Keeps-bind _ _ (append_record-Keeps r)
        λ event. Keeps-bind _ _ (append_records-Keeps records) λ events. Keeps-pure _

  pub append_capture_batch-Keeps :
      (records : List CaptureRecord) → Keeps (append_capture_batch b64 records)
  unfolding append_capture_batch
  append_capture_batch-Keeps [] = Keeps-pure []
  append_capture_batch-Keeps (r ∷ records) =
      Keeps-transaction (append_records b64 (r ∷ records)) (append_records-Keeps (r ∷ records))

pub finish_all-Keeps :
    (t : ℕ) (state : ExecutionState) (outcome : ExecutionOutcome) (rows : List ExecutionRow)
    → Keeps (finish_all t state outcome rows)
unfolding finish_all
finish_all-Keeps t state outcome [] = Keeps-pure []
finish_all-Keeps t state outcome (row ∷ rows) =
    Keeps-bind _ _ (finish-Keeps t row.id state outcome)
      λ event. Keeps-bind _ _ (finish_all-Keeps t state outcome rows) λ events. Keeps-pure _

pub reconcile_incomplete-Keeps : (t : ℕ) → Keeps (reconcile_incomplete t)
unfolding reconcile_incomplete
reconcile_incomplete-Keeps t = record {
  at = λ db c. (Keeps-bind _ _ (finish_all-Keeps t _ _ _) (λ events. Keeps-pure _)).at db c;
}

pub cancel_queued-Keeps : (t : ℕ) → Keeps (cancel_queued t)
unfolding cancel_queued
cancel_queued-Keeps t = record { at = λ db c. (finish_all-Keeps t _ _ _).at db c }

module _ (db : Db) (c : IsConsistent db) (row : ExecutionRow)
    (new : find_execution row.id db ≡ none) (no_events : row.last_seq ≡ 0)
    (no_output : row.captured_bytes ≡ 0) where
  -- A new row with no events is consistent, since no event names it.
  IsConsistent-append_row : IsConsistent (record db { executions = db.executions ++ row ∷ [] })
  IsConsistent-append_row = record {
    unique = HasUniqueKeys-append execution_key db.executions row c.unique new;
    journals = λ k.
        rw (find_key-append execution_key k db.executions row)
          (by_key k (Bool-cases (row.id == k)));
    readable = c.readable;
  }
    where
      by_key :
          (k : String)
          → ((row.id == k) ≡ true) ⊎ ((row.id == k) ≡ false)
          → HasJournal
              (or_else (find_execution k db) (if row.id == k then some row else none))
              (journal k db.events)
      by_key k (inl p) =
          let bare : journal row.id db.events ≡ [] = rw new at (c.journals row.id) in
          rw (← (eq_iff row.id k).0 p, new, eq_refl row.id, bare) (tt, sym no_events, sym no_output)
      by_key k (inr p) = kept (find_execution k db) (c.journals k)
        where
          kept :
              (o : Option ExecutionRow)
              → HasJournal o (journal k db.events)
              → HasJournal
                  (or_else o (if row.id == k then some row else none))
                  (journal k db.events)
          kept none h = rw p h
          kept (some r) h = h

get_session-Keeps : (id : String) → Keeps (get_agent_session_record id)
get_session-Keeps id = Keeps-or_not_found (agent_session_not_found id) (find_session id)

pub check_session-Keeps : (w : String) (session : Option String) → Keeps (check_session w session)
unfolding check_session
check_session-Keeps w none = Keeps-pure tt
check_session-Keeps w (some id) = search (keeps_rules, get_session-Keeps)

pub insert_new_row-Keeps :
    (t : ℕ) (id : String) (request : ExecutionRequest) (cwd : String)
    → Keeps (insert_execution (new_row t id request cwd))
unfolding insert_execution new_row
insert_new_row-Keeps t id request cwd = record { at = at }
  where
    row : ExecutionRow
    row = new_row t id request cwd

    at : (db : Db) → IsConsistent db → IsConsistent (insert_execution row db).1
    at db c = elim (Option-cases (find_execution id db)) [
      | inl new ↦
          elim (Bool-cases (
            is_some (find_workspace request.workspace_id db)
            && session_exists request.initiator.session_id db)) [
              | inl allowed ↦ rw (new, allowed) (IsConsistent-append_row db c row new refl refl)
              | inr refused ↦ rw (new, refused) c
            ]
      | inr (r, taken) ↦ rw taken c
    ]

pub get_execution-Keeps : (t : ℕ) (id : String) → Keeps (get_execution t id)
unfolding get_execution
get_execution-Keeps t id =
    Keeps-bind (execution_row id) _
      (Keeps-or_not_found (execution_not_found id) (find_execution id)) λ row. Keeps-pure _

pub create_execution-Keeps :
    (b64 : Base64) (t : ℕ) (id : String) (request : ExecutionRequest) (cwd : String)
    → Keeps (create_execution b64 t id request cwd)
unfolding create_execution
create_execution-Keeps b64 t id request cwd = Keeps-bind _ _ (Keeps-lift _) λ valid.
    Keeps-bind _ _ (check_session-Keeps request.workspace_id request.initiator.session_id)
      λ allowed.
        Keeps-bind _ _ (insert_new_row-Keeps t id request cwd) λ inserted. get_execution-Keeps t id
