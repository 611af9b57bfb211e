-- ===== src/Store/Workspaces/Registration.antt =====
-- `add_workspace` of src/store.rs, called again with the same name and root.
use loomterm.Prelude.{
  ℕ, String, ◌≡◌, refl, sym, ◌∙◌, ap, Bool, true, false, inl, inr, none, some, List, [], ◌∷◌, ◌++◌,
  arith, ◌==◌, eq_refl, eq_iff, Bool-cases, Option-cases, if◌then◌else◌, select_first, update_where,
  has_key, map_row, or_else, is_some,
}
use loomterm.Result.{Result, ok, err, FilePath, absolute, relative}
use loomterm.Model.Text.{is_blank}
use loomterm.Model.Workspace.{Workspace, same_path, same_components}
use loomterm.Store.Tables.{Db, WorkspaceRow, workspace_key, find_workspace}
use loomterm.Store.Workspaces.{
  FileSystem, has_root, has_name, set_active, register_again, register_new, register, add_workspace,
}

select_first_update :
    (p q : WorkspaceRow → Bool) (f : WorkspaceRow → WorkspaceRow) (rows : List WorkspaceRow)
    → ((w : WorkspaceRow) → p (f w) ≡ p w)
    → select_first p (update_where q f rows)
      ≡ map_row (λ w. if q w then f w else w) (select_first p rows)
unfolding select_first update_where
select_first_update p q f [] h = refl
select_first_update p q f (w ∷ rows) h = ground (arith, select_first_update p q f rows h, h w)

select_first_append :
    (p : WorkspaceRow → Bool) (rows : List WorkspaceRow) (w : WorkspaceRow)
    → select_first p (rows ++ w ∷ []) ≡ or_else (select_first p rows) (if p w then some w else none)
unfolding select_first
select_first_append p [] w = ground arith
select_first_append p (x ∷ rows) w = ground (arith, select_first_append p rows w)

same_components_refl : (c : List String) → same_components c c ≡ true
unfolding same_components
same_components_refl [] = refl
same_components_refl (a ∷ c) = rw (eq_refl a) (same_components_refl c)

same_path_refl : (p : FilePath) → same_path p p ≡ true
unfolding same_path
same_path_refl (absolute c) = same_components_refl c
same_path_refl (relative c) = same_components_refl c

abbrev activated : WorkspaceRow → WorkspaceRow
activated row = record row { is_active = true }

-- `row` is under the root, active, and has the workspace that was returned.
abbrev Holds : FilePath → String → Workspace → Db → WorkspaceRow → Type 0
Holds root name w after row =
    (select_first (has_root root) after.workspaces ≡ some row)
    × (row.workspace ≡ w)
    × (row.is_active ≡ true)
    × (w.name ≡ name)

module _ (fs : FileSystem) (root : FilePath) where
  again_Holds :
      (name : String) (row : WorkspaceRow) (db : Db) (w : Workspace) (after : Db)
      → select_first (has_root root) db.workspaces ≡ some row
      → register_again fs name row db ≡ (ok w, after)
      → (found : WorkspaceRow) × Holds root name w after found
  unfolding register_again
  again_Holds name row db w after h ran = elim (Bool-cases (row.workspace.name == name)) [
    | inr other ↦ absurd (ground (arith, ran, other))
    | inl same ↦ elim (Bool-cases row.is_active) [
      | inl active ↦
          let unchanged : after ≡ db = ground (arith, ran, same, active) in
          let value : row.workspace ≡ w = ground (arith, ran, same, active) in
          (row, (rw unchanged h, value, active, ap (λ x. x.name) (sym value) ∙ (eq_iff _ _).0 same))
      | inr inactive ↦
          let changed : after ≡ set_active true row.workspace.id db =
            ground (arith, ran, same, inactive) in
          let value : row.workspace ≡ w = ground (arith, ran, same, inactive) in
          (
            activated row,
            (
              rw changed (
                  select_first_update (has_root root) (has_key workspace_key row.workspace.id)
                    activated db.workspaces (λ x. refl)
                  ∙ rw (h, eq_refl row.workspace.id) refl),
              value,
              refl,
              ap (λ x. x.name) (sym value) ∙ (eq_iff _ _).0 same,
            ),
          )
    ]
  ]

  new_Holds :
      (now : ℕ) (id name : String) (db : Db) (w : Workspace) (after : Db)
      → select_first (has_root root) db.workspaces ≡ none
      → register_new fs now id name root db ≡ (ok w, after)
      → (found : WorkspaceRow) × Holds root name w after found
  unfolding register_new
  new_Holds now id name db w after h ran =
      let made : Workspace = record { id = id; name = name; root = root; created_at_ms = now } in
      let row : WorkspaceRow = record { workspace = made; is_active = true } in
      elim (Option-cases (select_first (has_name name) db.workspaces)) [
        | inr (other, taken) ↦ absurd (ground (arith, ran, taken))
        | inl free ↦ elim (Bool-cases (is_some (find_workspace id db))) [
          | inl taken ↦ absurd (ground (arith, ran, free, taken))
          | inr unused ↦
              let rows : after.workspaces ≡ db.workspaces ++ row ∷ [] =
                ground (arith, ran, free, unused) in
              let value : made ≡ w = ground (arith, ran, free, unused) in
              (
                row,
                (
                  rw rows (
                      select_first_append (has_root root) db.workspaces row
                      ∙ rw (h, same_path_refl root) refl),
                  value,
                  refl,
                  ap (λ x. x.name) (sym value),
                ),
              )
        ]
      ]

  register-Holds :
      (now : ℕ) (id name : String) (db : Db) (w : Workspace) (after : Db)
      → register fs now id name root db ≡ (ok w, after)
      → (found : WorkspaceRow) × Holds root name w after found
  unfolding register
  register-Holds now id name db w after ran =
      elim (Option-cases (select_first (has_root root) db.workspaces)) [
        | inl new ↦ new_Holds now id name db w after new (rw (new, register) at ran)
        | inr (row, found) ↦ again_Holds name row db w after found (rw (found, register) at ran)
      ]

  register_again_same :
      (later : ℕ) (id name : String) (db : Db) (w : Workspace) (row : WorkspaceRow)
      → Holds root name w db row
      → register fs later id name root db ≡ (ok w, db)
  unfolding register register_again
  register_again_same later id name db w row h =
      let (found, value, active, named) = h in
      let same : (row.workspace.name == name) ≡ true =
        (eq_iff row.workspace.name name).1 (ap (λ x. x.name) value ∙ named) in
      rw (found, register) (rw (same, active) (ap (λ x. (ok x, db)) value))

-- A registration that succeeded can be repeated, at a later time and whatever id is drawn: it
-- returns the same workspace and changes nothing.
pub add_workspace-twice :
    (fs : FileSystem) (now later : ℕ) (id other name : String) (path : FilePath) (db : Db)
    (w : Workspace) (after : Db)
    → add_workspace fs now id name path db ≡ (ok w, after)
    → add_workspace fs later other name path after ≡ (ok w, after)
unfolding add_workspace
add_workspace-twice fs now later id other name path db w after ran =
    elim (Bool-cases (is_blank name)) [
      | inl blank ↦ absurd (ground (arith, ran, blank))
      | inr named ↦ at_path (fs.canonicalize path) refl named
    ]
  where
    at_path :
        (r : Result FilePath)
        → fs.canonicalize path ≡ r
        → is_blank name ≡ false
        → add_workspace fs later other name path after ≡ (ok w, after)
    at_path (err e) h named = absurd (ground (arith, ran, h, named))
    at_path (ok root) h named = elim (Bool-cases (fs.is_dir root)) [
      | inr file ↦ absurd (ground (arith, ran, h, named, file))
      | inl dir ↦
          let first : register fs now id name root db ≡ (ok w, after) =
            ground (arith, ran, h, named, dir) in
          let (row, holds) = register-Holds fs root now id name db w after first in
          let second = register_again_same fs root later other name after w row holds in
          ground (arith, second, h, named, dir)
    ]
