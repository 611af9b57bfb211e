-- ===== src/Model/Execution.antt =====
-- Executions and their events: `ExecutionRequest`, `Execution`, `ExecutionEvent` of src/model.rs.
use loomterm.Prelude.{
  ℕ, ℤ, String, ◌≡◌, Bool, true, false, ◌||◌, ◌⊎◌, inl, inr, Option, none, some, List, [], ◌∷◌,
  ◌<>◌,
}
use loomterm.Result.{Result, ok, err, invalid_request, reject_if}
use loomterm.Result.Try.{◌>>=◌, ◌>>◌}
use loomterm.Model.Text.{str_is_empty, contains_char}
use loomterm.Model.Command
use loomterm.Model.Command.{CommandSpec}

abbrev pub Bytes : Type 0
Bytes = List ℕ

abbrev pub no_bytes : Bytes
no_bytes = []

-- The `base64` crate: `decode` returns the text of its error, or the bytes.
pub record Base64 : Type 0 where
  pub encode : Bytes → String
  pub decode : String → String ⊎ Bytes
  pub decode-encode : (bytes : Bytes) → decode (encode bytes) ≡ inr bytes

pub record Initiator : Type 0 where
  pub kind : String
  pub name : Option String
  pub session_id : Option String

abbrev pub default_client_kind : String
default_client_kind = "unknown"

abbrev pub default_initiator : Initiator
default_initiator = record { kind = default_client_kind; name = none; session_id = none }

pub record ExecutionRequest : Type 0 where
  pub workspace_id : String
  pub cwd : Option String
  pub command : CommandSpec
  pub env : List (String × String)
  pub stdin_base64 : Option String
  pub initiator : Initiator
  pub capture_limit_bytes : Option ℕ

any_bad_key : List (String × String) → Bool
any_bad_key [] = false
any_bad_key ((key, value) ∷ env) = str_is_empty key || contains_char b'=' key || any_bad_key env

unfoldable pub env_keys : List (String × String) → List String
env_keys [] = []
env_keys ((key, value) ∷ env) = key ∷ env_keys env

module _ (b64 : Base64) where
  unfoldable pub stdin_bytes : ExecutionRequest → Result (Option Bytes)
  stdin_bytes request = decoded request.stdin_base64
    where
      decoded : Option String → Result (Option Bytes)
      decoded none = ok none
      decoded (some value) = elim (b64.decode value) [
        | inl e ↦ err (invalid_request ("invalid stdin_base64: " <> e))
        | inr bytes ↦ ok (some bytes)
      ]

  unfoldable pub validate : ExecutionRequest → Result (Unit {0})
  unfolding any_bad_key stdin_bytes
  validate request = do
    reject_if (str_is_empty request.workspace_id) (invalid_request "workspace_id must not be empty")
    Command.validate request.command
    _ ← stdin_bytes request
    reject_if (any_bad_key request.env)
        (invalid_request "environment keys must be non-empty and must not contain '='")

pub data ExecutionState : Type 0 where
  queued running finished cancelled interrupted : ExecutionState

abbrev pub is_terminal : ExecutionState → Bool
is_terminal queued = false
is_terminal running = false
is_terminal finished = true
is_terminal cancelled = true
is_terminal interrupted = true

pub data ExecutionOutcome : Type 0 where
  exited : ℤ → ExecutionOutcome
  signaled : ℤ → ExecutionOutcome
  spawn_error : String → ExecutionOutcome
  was_cancelled : Option ℤ → ExecutionOutcome
  was_interrupted : String → ExecutionOutcome

pub data OutputStream : Type 0 where
  stdout stderr : OutputStream

pub data ExecutionEventPayload : Type 0 where
  started : ℕ → ℤ → ExecutionEventPayload
  output : OutputStream → String → ExecutionEventPayload
  capture_truncated : ℕ → ExecutionEventPayload
  finished_with : ExecutionOutcome → ExecutionEventPayload

pub record ExecutionEvent : Type 0 where
  pub execution_id : String
  pub seq : ℕ
  pub timestamp_ms : ℕ
  pub payload : ExecutionEventPayload

pub record Execution : Type 0 where
  pub id : String
  pub workspace_id : String
  pub state : ExecutionState
  pub command : CommandSpec
  pub command_display : String
  pub cwd : String
  pub env_keys : List String
  pub initiator : Initiator
  pub created_at_ms : ℕ
  pub started_at_ms : Option ℕ
  pub ended_at_ms : Option ℕ
  pub duration_ms : Option ℕ
  pub pid : Option ℕ
  pub pgid : Option ℤ
  pub outcome : Option ExecutionOutcome
  pub captured_bytes : ℕ
  pub output_truncated : Bool
  pub last_seq : ℕ

pub record ReadOutputResponse : Type 0 where
  pub execution : Execution
  pub events : List ExecutionEvent
  pub next_seq : ℕ
  pub has_more : Bool
