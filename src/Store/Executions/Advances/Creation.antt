-- ===== src/Store/Executions/Advances/Creation.antt =====
-- `create_execution` of src/store.rs leaves the rows that are there already.
use loomterm.Prelude.{
  ℕ, String, ◌≡◌, refl, ◌&&◌, Option, none, some, [], ◌∷◌, ◌++◌, arith, Bool-cases, inl, inr,
  is_some, find_key-append,
}
use loomterm.Result.Run.{or_not_found}
use loomterm.Result.{Error}
use loomterm.Model.Execution.{Base64, ExecutionRequest}
use loomterm.Store.Tables.{
  Db, ExecutionRow, execution_key, find_execution, find_workspace, session_exists,
}
use loomterm.Store.Journal.{IsConsistent}
use loomterm.Store.Keeps.{Keeps-lift, Keeps-or_not_found}
use loomterm.Store.Executions.{
  create_execution, insert_execution, check_session, new_row, get_execution, execution_row,
}
use loomterm.Store.Executions.Consistency.{check_session-Keeps, insert_new_row-Keeps}
use loomterm.Store.Executions.Advances.{Advances-refl, AllAdvance, AllAdvance-refl, Advancing}
use loomterm.Store.Executions.Advances.Batch.{Advancing-pure, Advancing-lift, Advancing-bind}

or_not_found-AllAdvance :
    {A : Type 0} (e : Error) (o : Option A) (db : Db) → AllAdvance db (or_not_found e o db).1
or_not_found-AllAdvance e none db = AllAdvance-refl db
or_not_found-AllAdvance e (some a) db = AllAdvance-refl db

pub Advancing-query :
    {A : Type 0} (e : Error) (query : Db → Option A)
    → Advancing (λ db. or_not_found e (query db) db)
Advancing-query e query = record { at = λ db c. or_not_found-AllAdvance e (query db) db }

pub get_execution-Advancing : (now : ℕ) (id : String) → Advancing (get_execution now id)
unfolding get_execution
get_execution-Advancing now id =
    Advancing-bind (execution_row id) _ (Keeps-or_not_found _ (find_execution id))
      (Advancing-query _ (find_execution id)) λ row. Advancing-pure _

check_session_same :
    (w : String) (session : Option String) (db : Db) → (check_session w session db).1 ≡ db
unfolding check_session
check_session_same w none db = refl
check_session_same w (some id) db = ground arith

check_session-Advancing :
    (w : String) (session : Option String) → Advancing (check_session w session)
check_session-Advancing w session = record {
  at = λ db c. rw (check_session_same w session db) (AllAdvance-refl db);
}

appended :
    (row : ExecutionRow) (db : Db)
    → AllAdvance db (record db { executions = db.executions ++ row ∷ [] })
appended row db = record {
  at = λ id r found.
      (r, rw (find_key-append execution_key id db.executions row, found) refl, Advances-refl r);
}

insert_execution-Advancing : (row : ExecutionRow) → Advancing (insert_execution row)
unfolding insert_execution
insert_execution-Advancing row = record { at = at }
  where
    at : (db : Db) → IsConsistent db → AllAdvance db (insert_execution row db).1
    at db c = elim (Bool-cases (is_some (find_execution row.id db))) [
      | inl taken ↦ rw taken (AllAdvance-refl db)
      | inr new ↦
          elim (Bool-cases
            (is_some (find_workspace row.workspace_id db) && session_exists row.session_id db)) [
              | inl allowed ↦ rw (new, allowed) (appended row db)
              | inr refused ↦ rw (new, refused) (AllAdvance-refl db)
            ]
    ]

pub create_execution-Advancing :
    (b64 : Base64) (t : ℕ) (id : String) (request : ExecutionRequest) (cwd : String)
    → Advancing (create_execution b64 t id request cwd)
unfolding create_execution
create_execution-Advancing b64 t id request cwd =
    Advancing-bind _ _ (Keeps-lift _) (Advancing-lift _) λ valid.
      Advancing-bind _ _ (check_session-Keeps request.workspace_id request.initiator.session_id)
        (check_session-Advancing request.workspace_id request.initiator.session_id)
        λ allowed.
          Advancing-bind _ _ (insert_new_row-Keeps t id request cwd)
            (insert_execution-Advancing (new_row t id request cwd))
            λ inserted. get_execution-Advancing t id
