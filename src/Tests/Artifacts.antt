-- ===== src/Tests/Artifacts.antt =====
-- The result on the files of a session, applied to paths that lead out of the directory of sessions.
use loomterm.Prelude.{◌≡◌, [], ◌∷◌, ◌↔◌}
use loomterm.Result.{ok, FilePath, absolute}
use loomterm.Daemon.Artifacts.{validate_session_paths}
use loomterm.Daemon.Artifacts.Accepted.{IsPlaced, validate_session_paths-IsPlaced}

abbrev cast : FilePath
cast = absolute ("state" ∷ "sessions" ∷ ".." ∷ ".." ∷ "home" ∷ "s1" ∷ "session.cast" ∷ [])

abbrev html : FilePath
html = absolute ("state" ∷ "sessions" ∷ ".." ∷ ".." ∷ "home" ∷ "s1" ∷ "session.html" ∷ [])

validate_session_paths-IsPlaced_example :
    (validate_session_paths (absolute ("state" ∷ "sessions" ∷ [])) "s1" cast html ≡ ok tt)
    ↔ IsPlaced ("state" ∷ "sessions" ∷ []) "s1" cast html
validate_session_paths-IsPlaced_example =
    validate_session_paths-IsPlaced ("state" ∷ "sessions" ∷ []) "s1" cast html
