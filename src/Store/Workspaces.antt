-- ===== src/Store/Workspaces.antt =====
-- The operations of `Database` on workspaces: src/store.rs, `add_workspace` to `list_workspaces`.
-- The file system is a parameter.
use Prim.Native.Char.{code}
pub mod Registration
use loomterm.Prelude.{
  ℕ, ◌+◌, String, Bool, true, false, not, ◌&&◌, ◌||◌, Option, none, some, List, [], ◌∷◌, ◌++◌, map,
  ◌<>◌, ◌==◌, leb, ltb, eqb, if◌then◌else◌, select, select_first, update_where, order_by, has_key,
  is_some,
}
use loomterm.Result.{
  Result, ok, err, FilePath, invalid_request, database, workspace_not_found, reject_if,
}
use loomterm.Result.Run.{Action, or_not_found, pure, lift, ◌>>=◌, ◌>>◌}
use loomterm.Model.Text.{is_blank}
use loomterm.Model.Workspace.{Workspace, same_path}
use loomterm.Store.Tables.{Db, WorkspaceRow, workspace_key, find_workspace}

-- What the operations ask of the file system; `display` is the text of a path.
pub record FileSystem : Type 0 where
  pub canonicalize : FilePath → Result FilePath
  pub is_dir : FilePath → Bool
  pub display : FilePath → String

abbrev pub has_root : FilePath → WorkspaceRow → Bool
has_root root row = same_path row.workspace.root root

abbrev pub has_name : String → WorkspaceRow → Bool
has_name name row = row.workspace.name == name

-- UPDATE workspaces SET active = … WHERE id = ?1
abbrev pub set_active : Bool → String → Db → Db
set_active active id db = record db {
  workspaces =
      update_where (has_key workspace_key id) (λ w. record w { is_active = active }) db.workspaces;
}

insert_workspace : Workspace → Action Db (Unit {0})
insert_workspace w db =
    if is_some (find_workspace w.id db)
    then (err (database "UNIQUE constraint failed: workspaces.id"), db)
    else (
      ok tt,
      record db { workspaces = db.workspaces ++ record { workspace = w; is_active = true } ∷ [] },
    )

module _ (fs : FileSystem) where
  -- The root is registered already.
  unfoldable pub register_again : String → WorkspaceRow → Action Db Workspace
  register_again name row db =
      if not (row.workspace.name == name)
      then (
        err (
            invalid_request (
              "workspace root "
              <> fs.display row.workspace.root
              <> " is already registered as "
              <> row.workspace.name)),
        db,
      )
      else (ok row.workspace, if row.is_active then db else set_active true row.workspace.id db)

  -- The root is new.
  unfoldable pub register_new : ℕ → String → String → FilePath → Action Db Workspace
  unfolding insert_workspace
  register_new now id name root db = elim (select_first (has_name name) db.workspaces) [
    | some row ↦ (
      err (
          invalid_request (
            "workspace name "
            <> name
            <> " is already registered for "
            <> fs.display row.workspace.root)),
      db,
    )
    | none ↦
        let w : Workspace = record { id = id; name = name; root = root; created_at_ms = now } in
        (insert_workspace w >> pure w) db
  ]

  unfoldable pub register : ℕ → String → String → FilePath → Action Db Workspace
  unfolding register_again register_new
  register now id name root db = elim (select_first (has_root root) db.workspaces) [
    | some row ↦ register_again name row db
    | none ↦ register_new now id name root db
  ]

  unfoldable pub add_workspace : ℕ → String → String → FilePath → Action Db Workspace
  unfolding register
  add_workspace now id name path = do
    lift (reject_if (is_blank name) (invalid_request "workspace name must not be empty"))
    root ← lift (fs.canonicalize path)
    lift (
        reject_if (not (fs.is_dir root))
          (invalid_request ("workspace root is not a directory: " <> fs.display root)))
    register now id name root

  unfoldable pub find_workspace_by_root : FilePath → Action Db (Option Workspace)
  find_workspace_by_root path = do
    root ← lift (fs.canonicalize path)
    λ db. (ok (workspace_of (select_first (λ w. has_root root w && w.is_active) db.workspaces)), db)
    where
      workspace_of : Option WorkspaceRow → Option Workspace
      workspace_of none = none
      workspace_of (some row) = some row.workspace

-- WHERE id = ?1 OR name = ?1
abbrev pub identified : String → WorkspaceRow → Bool
identified identifier w = w.workspace.id == identifier || w.workspace.name == identifier

unfoldable pub remove_workspace : String → Action Db (Unit {0})
remove_workspace identifier db = elim (select_first (identified identifier) db.workspaces) [
  | none ↦ (err (workspace_not_found identifier), db)
  | some row ↦ (ok tt, set_active false row.workspace.id db)
]

unfoldable pub get_workspace : String → Action Db Workspace
get_workspace identifier = do
  row ← (λ db.
      or_not_found (workspace_not_found identifier)
        (select_first (λ w. identified identifier w && w.is_active) db.workspaces) db)
  pure row.workspace

-- COLLATE NOCASE: the letters A to Z count as small.
fold_case : ℕ → ℕ
fold_case c = if leb b'A' c && leb c b'Z' then c + 32 else c

unfoldable pub nocase_le : String → String → Bool
unfolding fold_case
nocase_le String.[] t = true
nocase_le (String.◌∷◌ c s) String.[] = false
nocase_le (String.◌∷◌ c s) (String.◌∷◌ d t) =
    let a = fold_case (code c) in let b = fold_case (code d) in ltb a b || eqb a b && nocase_le s t

unfoldable pub list_workspaces : Action Db (List Workspace)
unfolding nocase_le
list_workspaces db = (
  ok (
      map (λ w. w.workspace)
        (order_by (λ a b. nocase_le a.workspace.name b.workspace.name)
          (select (λ w. w.is_active) db.workspaces))),
  db,
)
