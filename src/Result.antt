-- ===== src/Result.antt =====
-- The errors of src/error.rs and the two shapes of fallible code: a `Result`, and an action on a
-- state, which keeps what was written before an error.
pub mod Try
pub mod Run
use loomterm.Prelude.{ℕ, String, ◌≡◌, Bool, true, false, List}

-- A path as the list of its components. An absolute path begins at the root.
pub data FilePath : Type 0 where
  absolute : List String → FilePath
  relative : List String → FilePath

-- The texts of `Io`, `Database` and `Json` are those of the libraries that raise them.
pub data Error : Type 0 where
  io : String → Error
  database : String → Error
  storage_unavailable : String → Error
  json : String → Error
  config : String → Error
  workspace_not_found : String → Error
  execution_not_found : String → Error
  agent_session_not_found : String → Error
  outside_workspace : FilePath → FilePath → Error
  invalid_request : String → Error
  protocol : String → Error
  protocol_version_mismatch : ℕ → ℕ → Error
  daemon_upgrade_required : ℕ → String → Error
  daemon_unavailable : FilePath → Error
  daemon_draining : Error
  timeout : Error
  already_terminal : String → Error
  permission_denied : String → Error

pub data Result {ℓ} (A : Type ℓ) : Type ℓ where
  ok : A → Result A
  err : Error → Result A

-- `if … { return Err(e) }`
abbrev pub reject_if : Bool → Error → Result (Unit {0})
reject_if true e = err e
reject_if false e = ok tt
