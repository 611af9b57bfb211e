-- ===== src/Tests/Data.antt =====
-- A stand-in for the base64 crate, and a database that the operations build.
use Prim.Native.Char.{code}
use loomterm.Prelude.{
  ℕ, zero, suc, ◌+◌, pos, String, ◌≡◌, refl, ap, true, false, inr, none, some, [], ◌∷◌, arith, eqb,
  select, select_first, update_where, find_key, if◌then◌else◌,
}
use loomterm.Result.{absolute}
use loomterm.Model.Command.{argv}
use loomterm.Model.Execution.{
  Bytes, Base64, ExecutionRequest, stdout, stderr, exited, finished, default_initiator, validate,
  env_keys,
}
use loomterm.Store.Tables.{Db, empty_db, ExecutionRow, find_execution, insert_event}
use loomterm.Store.Executions.{create_execution, mark_running, finish, next_seq}
use loomterm.Store.Executions.Batch.{append_capture_batch, output_record}
use loomterm.Store.Executions.Consistency.{
  create_execution-Keeps, mark_running-Keeps, finish-Keeps, append_capture_batch-Keeps,
}
use loomterm.Model.Text.{str_is_empty}
use loomterm.Model.Command
use loomterm.Store.Journal.{IsConsistent, journal}

-- Bytes in unary: "1" for each unit, "0" for the end of a byte.
unary : ℕ → String → String
unary zero rest = String.◌∷◌ "0" rest
unary (suc n) rest = String.◌∷◌ "1" (unary n rest)

pub encode : Bytes → String
encode [] = ""
encode (byte ∷ bytes) = unary byte (encode bytes)

pub decode : ℕ → String → Bytes
decode n String.[] = []
decode n (String.◌∷◌ c s) = if eqb (code c) 48 then n ∷ decode 0 s else decode (suc n) s

decode-unary : (m n : ℕ) (s : String) → decode m (unary n s) ≡ (m + n) ∷ decode 0 s
unfolding decode unary
decode-unary m zero s = ap (λ k. k ∷ decode 0 s) (omega arith)
decode-unary m (suc n) s = rw (decode-unary (suc m) n s) (ap (λ k. k ∷ decode 0 s) (omega arith))

pub decode-encode : (bytes : Bytes) → decode 0 (encode bytes) ≡ bytes
unfolding encode decode
decode-encode [] = refl
decode-encode (byte ∷ bytes) =
    rw (decode-unary 0 byte (encode bytes), decode-encode bytes) (ap (λ k. k ∷ bytes) (omega arith))

unfoldable pub plain : Base64
unfolding encode decode unary
plain = record {
  encode = encode;
  decode = λ s. inr (decode 0 s);
  decode-encode = λ bytes. ap inr (decode-encode bytes);
}

abbrev pub request : ExecutionRequest
request = record {
  workspace_id = "w";
  cwd = none;
  command = argv "make" ("test" ∷ []);
  env = [];
  stdin_base64 = none;
  initiator = default_initiator;
  capture_limit_bytes = none;
}

abbrev pub registered : Db
registered = record empty_db {
  workspaces =
      record {
        workspace = record { id = "w"; name = "demo"; root = absolute []; created_at_ms = 0 };
        is_active = true;
      }
      ∷ [];
}

pub registered-IsConsistent : IsConsistent registered
unfolding journal select find_key
registered-IsConsistent = record { unique = tt; journals = λ id. refl; readable = tt }

-- One execution, from its creation to its end.
abbrev pub created : Db
created = (create_execution plain 10 "e1" request "/" registered).1

abbrev pub begun : Db
begun = (mark_running 11 "e1" 77 (pos 77) created).1

abbrev pub captured : Db
captured =
    (append_capture_batch plain
      (output_record "e1" 12 stdout (1 ∷ 2 ∷ []) ∷ output_record "e1" 13 stderr (3 ∷ []) ∷ [])
      begun).1

abbrev pub ended : Db
ended = (finish 20 "e1" finished (exited (pos 0)) captured).1

pub created-IsConsistent : IsConsistent created
created-IsConsistent =
    (create_execution-Keeps plain 10 "e1" request "/").at registered registered-IsConsistent

pub begun-IsConsistent : IsConsistent begun
begun-IsConsistent = (mark_running-Keeps 11 "e1" 77 (pos 77)).at created created-IsConsistent

pub captured-IsConsistent : IsConsistent captured
captured-IsConsistent = (append_capture_batch-Keeps plain _).at begun begun-IsConsistent

pub ended-IsConsistent : IsConsistent ended
ended-IsConsistent =
    (finish-Keeps 20 "e1" finished (exited (pos 0))).at captured captured-IsConsistent

-- The row of the execution, as the operations left it.
abbrev pub ended_row : ExecutionRow
ended_row = record {
  id = "e1";
  workspace_id = "w";
  state = finished;
  command_json = request.command;
  cwd = "/";
  env_keys_json = [];
  initiator_json = default_initiator;
  created_at_ms = 10;
  started_at_ms = some 11;
  ended_at_ms = some 20;
  pid = some 77;
  pgid = some (pos 77);
  outcome_json = some (exited (pos 0));
  captured_bytes = 3;
  output_truncated = false;
  last_seq = 4;
  session_id = none;
}

pub ended_found : find_execution "e1" ended ≡ some ended_row
unfolding finish append_capture_batch mark_running create_execution next_seq insert_event select
    select_first find_key update_where validate str_is_empty env_keys Command.validate
ended_found = refl
