-- ===== src/Model/Workspace.antt =====
-- `Workspace` of src/model.rs, `workspace_contains` of src/executor.rs, and the paths they compare.
pub mod Below
use loomterm.Prelude.{
  ℕ, String, Bool, true, false, ◌&&◌, ◌||◌, Option, none, some, List, [], ◌∷◌, ◌++◌, ◌==◌,
  if◌then◌else◌,
}
use loomterm.Result.{Result, ok, err, FilePath, absolute, relative, outside_workspace}
use loomterm.Result.Try.{◌>>=◌}

pub record Workspace : Type 0 where
  pub id : String
  pub name : String
  pub root : FilePath
  pub created_at_ms : ℕ

-- `Path::starts_with` goes by whole components.
unfoldable pub is_prefix : List String → List String → Bool
is_prefix [] path = true
is_prefix (c ∷ root) [] = false
is_prefix (c ∷ root) (d ∷ path) = c == d && is_prefix root path

unfoldable pub starts_with : FilePath → FilePath → Bool
unfolding is_prefix
starts_with (absolute path) (absolute root) = is_prefix root path
starts_with (relative path) (relative root) = is_prefix root path
starts_with path root = false

-- `Path::join`: an absolute path replaces the one that it is joined to.
abbrev pub join : FilePath → FilePath → FilePath
join root (absolute path) = absolute path
join (absolute root) (relative path) = absolute (root ++ path)
join (relative root) (relative path) = relative (root ++ path)

unfoldable pub same_components : List String → List String → Bool
same_components [] [] = true
same_components (c ∷ p) (d ∷ q) = c == d && same_components p q
same_components p q = false

unfoldable pub same_path : FilePath → FilePath → Bool
unfolding same_components
same_path (absolute p) (absolute q) = same_components p q
same_path (relative p) (relative q) = same_components p q
same_path p q = false

unfoldable pub workspace_contains : FilePath → FilePath → Bool
workspace_contains root cwd = same_path cwd root || starts_with cwd root

-- `canonicalize` asks the file system.
module _ (canonicalize : FilePath → Result FilePath) where
  candidate : FilePath → Option FilePath → FilePath
  candidate root (some (absolute path)) = absolute path
  candidate root (some path) = join root path
  candidate root none = root

  unfoldable pub resolve_cwd : Workspace → Option FilePath → Result FilePath
  unfolding candidate workspace_contains
  resolve_cwd workspace requested = do
    canonical ← canonicalize (candidate workspace.root requested)
    if workspace_contains workspace.root canonical
        then ok canonical
        else err (outside_workspace canonical workspace.root)
