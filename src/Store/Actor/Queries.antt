-- ===== src/Store/Actor/Queries.antt =====
-- The commands of `run_store_actor` of src/store.rs that only read, and the deletion of a session,
-- which rewrites rows of executions.
use loomterm.Prelude.{
  ℕ, String, ◌≡◌, refl, Bool, Option, none, some, List, arith, map_row, find_key-update_where,
  HasUniqueKeys-update_where, update_where, if◌then◌else◌,
}
use loomterm.Result.{FilePath}
use loomterm.Model.Execution.{Base64}
use loomterm.Store.Tables.{Db, ExecutionRow, EventRow, execution_key, find_execution}
use loomterm.Store.Journal.{IsConsistent, HasJournal, journal}
use loomterm.Store.Keeps.{Keeps, Keeps-bind, Keeps-lift}
use loomterm.Store.Executions.{get_execution, execution_row}
use loomterm.Store.Reading.{read_output}
use loomterm.Store.Stats.{execution_stats}
use loomterm.Store.Workspaces.{FileSystem, find_workspace_by_root, list_workspaces}
use loomterm.Store.Sessions.{active_agent_sessions, delete_agent_session, remove_session, is_of}
use loomterm.Store.Listing.{list_executions, list_agent_sessions, get_agent_session}
use loomterm.Store.Actor.Frames.{
  Frames, Frames-pure, Frames-query, Frames-lift, Frames-bind, read_session-Frames,
  get_workspace-Frames, get_session_record-Frames, Frames-Keeps,
}

pub find_workspace_by_root-Frames :
    (fs : FileSystem) (root : FilePath) → Frames (find_workspace_by_root fs root)
unfolding find_workspace_by_root
find_workspace_by_root-Frames fs root = record {
  executions = λ db. ground arith;
  events = λ db. ground arith;
}

pub list_workspaces-Frames : Frames list_workspaces
unfolding list_workspaces
list_workspaces-Frames = record { executions = λ db. refl; events = λ db. refl }

pub list_executions-Frames :
    (now : ℕ) (w : Option String) (limit : ℕ) → Frames (list_executions now w limit)
unfolding list_executions
list_executions-Frames now w limit = record { executions = λ db. refl; events = λ db. refl }

pub list_agent_sessions-Frames :
    (w : Option String) (limit : ℕ) → Frames (list_agent_sessions w limit)
unfolding list_agent_sessions
list_agent_sessions-Frames w limit = record { executions = λ db. refl; events = λ db. refl }

pub active_agent_sessions-Frames : Frames active_agent_sessions
unfolding active_agent_sessions
active_agent_sessions-Frames = record { executions = λ db. refl; events = λ db. refl }

-- A query that goes on with the database as its argument.
pub get_agent_session-Frames : (now : ℕ) (id : String) → Frames (get_agent_session now id)
unfolding get_agent_session
get_agent_session-Frames now id = record {
  executions = λ db. (Frames-bind _ _ (read_session-Frames id) λ s. Frames-pure _).executions db;
  events = λ db. (Frames-bind _ _ (read_session-Frames id) λ s. Frames-pure _).events db;
}

pub execution_stats-Frames :
    (workspace : String) (since_ms until_ms : ℕ)
    → Frames (execution_stats workspace since_ms until_ms)
unfolding execution_stats
execution_stats-Frames workspace since_ms until_ms = record {
  executions = λ db.
      (Frames-bind _ _ (Frames-bind _ _ (Frames-lift _) λ u. get_workspace-Frames workspace)
          λ w. Frames-pure _).executions
        db;
  events = λ db.
      (Frames-bind _ _ (Frames-bind _ _ (Frames-lift _) λ u. get_workspace-Frames workspace)
          λ w. Frames-pure _).events
        db;
}

pub get_execution-Frames : (now : ℕ) (id : String) → Frames (get_execution now id)
unfolding get_execution
get_execution-Frames now id =
    Frames-bind (execution_row id) _ (Frames-query _ (find_execution id)) λ row. Frames-pure _

pub read_output-Frames :
    (b64 : Base64) (now : ℕ) (id : String) (after_seq max_bytes : ℕ)
    → Frames (read_output b64 now id after_seq max_bytes)
unfolding read_output
read_output-Frames b64 now id after_seq max_bytes = record {
  executions = λ db.
      (Frames-bind _ _ (get_execution-Frames now id)
          λ e. Frames-bind _ _ (Frames-lift _) λ page. Frames-pure _).executions
        db;
  events = λ db.
      (Frames-bind _ _ (get_execution-Frames now id)
          λ e. Frames-bind _ _ (Frames-lift _) λ page. Frames-pure _).events
        db;
}

-- Rows of executions rewritten with the same identity and counters.
relabel-HasJournal :
    (o : Option ExecutionRow) (f : ExecutionRow → ExecutionRow)
    → ((r : ExecutionRow) → (f r).last_seq ≡ r.last_seq)
    → ((r : ExecutionRow) → (f r).captured_bytes ≡ r.captured_bytes)
    → (events : List EventRow) → HasJournal o events
    → HasJournal (map_row f o) events
relabel-HasJournal none f hl hc events h = h
relabel-HasJournal (some r) f hl hc events h = (h.0, rw (hl r) h.1, rw (hc r) h.2)

relabel-IsConsistent :
    (db : Db) (p : ExecutionRow → Bool) (f : ExecutionRow → ExecutionRow)
    → ((r : ExecutionRow) → (f r).id ≡ r.id)
    → ((r : ExecutionRow) → (f r).last_seq ≡ r.last_seq)
    → ((r : ExecutionRow) → (f r).captured_bytes ≡ r.captured_bytes)
    → IsConsistent db
    → IsConsistent (record db { executions = update_where p f db.executions })
relabel-IsConsistent db p f hi hl hc c = record {
  unique = HasUniqueKeys-update_where execution_key p f db.executions hi c.unique;
  journals = λ id. rw (find_key-update_where execution_key id p f db.executions hi) (
      relabel-HasJournal (find_execution id db) (λ r. if p r then f r else r)
        (λ r. ground (arith, hl r)) (λ r. ground (arith, hc r)) (journal id db.events)
        (c.journals id));
  readable = c.readable;
}

remove_session-Keeps : (id : String) → Keeps (remove_session id)
unfolding remove_session journal
remove_session-Keeps id = record { at = at }
  where
    at : (db : Db) → IsConsistent db → IsConsistent (remove_session id db).1
    at db c =
        let d =
          relabel-IsConsistent db (λ r. is_of id r.session_id) _ (λ r. refl) (λ r. refl) (λ r. refl)
            c in
        record { unique = d.unique; journals = d.journals; readable = d.readable }

pub delete_agent_session-Keeps : (id : String) → Keeps (delete_agent_session id)
unfolding delete_agent_session
delete_agent_session-Keeps id =
    Keeps-bind _ _ (Frames-Keeps _ (get_session_record-Frames id))
      λ s. Keeps-bind _ _ (Keeps-lift _) λ u. remove_session-Keeps id
