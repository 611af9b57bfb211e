-- ===== src/Daemon/Artifacts.antt =====
-- `validate_session_paths` of src/daemon.rs: where the files of a recorded session may be. A path is
-- its components; like those of `Path`, the operations here do not resolve `..`.
pub mod Accepted
use loomterm.Prelude.{
  String, Bool, true, false, not, ◌||◌, ◌==◌, Option, none, some, List, [], ◌∷◌, if◌then◌else◌,
}
use loomterm.Result.{Result, ok, err, FilePath, absolute, relative, invalid_request}
use loomterm.Model.Workspace.{starts_with, same_path}

unfoldable pub init : List String → List String
init [] = []
init (c ∷ []) = []
init (c ∷ d ∷ path) = c ∷ init (d ∷ path)

unfoldable pub last : List String → Option String
last [] = none
last (c ∷ []) = some c
last (c ∷ d ∷ path) = last (d ∷ path)

-- `Path::parent`
unfoldable pub parent : FilePath → Option FilePath
unfolding init
parent (absolute []) = none
parent (absolute (c ∷ path)) = some (absolute (init (c ∷ path)))
parent (relative []) = none
parent (relative (c ∷ path)) = some (relative (init (c ∷ path)))

abbrev components : FilePath → List String
components (absolute path) = path
components (relative path) = path

-- Whether `Path::file_name` is the name: `..` is no file name.
abbrev pub is_name : Option String → String → Bool
is_name none name = false
is_name (some component) name = if component == ".." then false else component == name

unfoldable pub has_name : FilePath → String → Bool
unfolding last
has_name path name = is_name (last (components path)) name

abbrev pub is_path : Option FilePath → FilePath → Bool
is_path none path = false
is_path (some q) path = same_path q path

unfoldable pub validate_session_paths : FilePath → String → FilePath → FilePath → Result (Unit {0})
unfolding parent has_name starts_with same_path
validate_session_paths sessions_dir session_id cast html = elim (parent cast) [
  | none ↦ err (invalid_request "cast_path has no parent")
  | some directory ↦
      if same_path directory sessions_dir
        || not (starts_with directory sessions_dir)
        || not (is_path (parent html) directory)
        || not (has_name directory session_id)
      then err (
          invalid_request
            "session artifacts must share a private directory under the Loomterm state directory")
      else ok tt
]
