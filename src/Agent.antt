-- ===== src/Agent.antt =====
-- The hooks of src/agent.rs on JSON values. An object is the list of its fields in the order of
-- `values`; `parse` is `serde_json::from_str`, without its error.
pub mod Search
pub mod Selection
use Prim.Native.Char.{code}
use loomterm.Prelude.{
  ℕ, zero, suc, ◌+◌, ◌*◌, String, Bool, true, false, not, ◌&&◌, ◌||◌, Option, none, some, List, [],
  ◌∷◌, ◌==◌, ◌<>◌, if◌then◌else◌, leb, ltb, eqb,
}
use loomterm.Result.{Result, ok, err, Error, invalid_request, FilePath}
use loomterm.Result.Try.{◌>>=◌, ◌>>◌}
use loomterm.Model.Text.{str_is_empty}
use loomterm.Model.Session.{
  AgentSession, AgentSessionState, recording, AgentEvent, prompt_submitted, tool_started,
  tool_finished, turn_finished, AgentEventRequest, validate_event_request,
}
use loomterm.Model.Workspace.{workspace_contains}

mutual
  pub data Value : Type 0 where
    null : Value
    bool : Bool → Value
    number : String → Value
    string : String → Value
    array : Items → Value
    object : Fields → Value

  pub data Items : Type 0 where
    empty_array : Items
    item : Value → Items → Items

  pub data Fields : Type 0 where
    empty_object : Fields
    field : String → Value → Fields → Fields

-- `Map::get`, `Value::as_str`, `Value::as_object`
unfoldable pub get : String → Fields → Option Value
get name empty_object = none
get name (field key value fields) =
    let rest = get name fields in if key == name then some value else rest

abbrev pub as_str : Value → Option String
as_str (string text) = some text
as_str _ = none

abbrev pub as_object : Value → Option (Fields)
as_object (object fields) = some fields
as_object _ = none

abbrev pub and_then {ℓ κ} : {A : Type ℓ} {B : Type κ} → Option A → (A → Option B) → Option B
and_then none f = none
and_then (some a) f = f a

abbrev pub or_else : Option String → Option String → Option String
or_else none b = b
or_else (some a) b = some a

-- `find_map` over an array, and over the values of an object.
unfoldable pub find_in_array : (Value → Option String) → Items → Option String
find_in_array f empty_array = none
find_in_array f (item value values) = or_else (f value) (find_in_array f values)

unfoldable pub find_in_object : (Value → Option String) → Fields → Option String
find_in_object f empty_object = none
find_in_object f (field key value fields) = or_else (f value) (find_in_object f fields)

-- The id that an object carries itself.
unfoldable pub own_id : Fields → Option String
unfolding get
own_id fields = or_else (and_then (get "execution_id" fields) as_str) (
    and_then (get "execution" fields)
      λ execution. and_then (as_object execution) λ inner. and_then (get "id" inner) as_str)

abbrev pub max_hook_input_bytes : ℕ
max_hook_input_bytes = 1024 * 1024

module _ (parse : String → Option Value) (byte_length : String → ℕ) where
  -- `left` is how deep the search may still go, 9 at the outermost value: `depth > 8` is `left = 0`.
  unfoldable pub find_execution_id_at_depth : ℕ → Value → Option String
  unfolding find_in_array find_in_object own_id
  find_execution_id_at_depth zero value = none
  find_execution_id_at_depth (suc left) (object fields) =
      or_else (own_id fields)
        (find_in_object (λ value. find_execution_id_at_depth left value) fields)
  find_execution_id_at_depth (suc left) (array values) =
      find_in_array (λ value. find_execution_id_at_depth left value) values
  find_execution_id_at_depth (suc left) (string text) =
      let inner = and_then (parse text) (λ value. find_execution_id_at_depth left value) in
      if leb (byte_length text) max_hook_input_bytes then inner else none
  find_execution_id_at_depth (suc left) null = none
  find_execution_id_at_depth (suc left) (bool b) = none
  find_execution_id_at_depth (suc left) (number n) = none

  unfoldable pub find_execution_id : Value → Option String
  unfolding find_execution_id_at_depth
  find_execution_id value = find_execution_id_at_depth 9 value

  abbrev pub optional_string : Option Value → Option String
  optional_string value = and_then value as_str

  abbrev pub required : String → Option String → Result String
  required name none = err (invalid_request ("hook field " <> name <> " must be a string"))
  required name (some value) =
      if str_is_empty value
      then err (invalid_request ("hook field " <> name <> " must be a string"))
      else ok value

  abbrev pub required_string : String → Fields → Result String
  required_string name fields = required name (optional_string (get name fields))

  -- The event that a hook stands for; `none` for a hook that is not recorded.
  unfoldable pub hook_event : String → Fields → Result (Option AgentEvent)
  unfolding get find_execution_id
  hook_event name fields =
      if name == "UserPromptSubmit"
      then (required_string "prompt" fields >>= λ prompt. ok (some (prompt_submitted prompt)))
      else if name == "PreToolUse"
      then (required_string "tool_use_id" fields >>= λ action_id.
          required_string "tool_name" fields >>= λ tool_name.
          ok (some (tool_started action_id tool_name)))
      else if name == "PostToolUse" || name == "PostToolUseFailure"
      then (required_string "tool_use_id" fields >>= λ action_id.
          required_string "tool_name" fields >>= λ tool_name. ok (
            some (
              tool_finished action_id tool_name (name == "PostToolUseFailure")
                (and_then (get "tool_response" fields) find_execution_id))))
      else if name == "Stop" || name == "StopFailure"
      then ok (
          some (
            turn_finished (name == "StopFailure")
              (optional_string (get "last_assistant_message" fields))))
      else ok none

  abbrev pub as_request :
      String
      → String
      → String
      → Option String
      → Option AgentEvent
      → Result (Option AgentEventRequest)
  as_request provider loom_session_id provider_session_id provider_turn_id none = ok none
  as_request provider loom_session_id provider_session_id provider_turn_id (some event) =
      let request : AgentEventRequest = record {
        session_id = loom_session_id;
        provider = provider;
        provider_session_id = provider_session_id;
        provider_turn_id = provider_turn_id;
        event = event;
      } in
      validate_event_request request >> ok (some request)

  unfoldable pub normalize_hook_event : String → String → Value → Result (Option AgentEventRequest)
  unfolding hook_event get
  normalize_hook_event provider loom_session_id (object fields) =
      required_string "session_id" fields >>= λ provider_session_id.
      required_string "hook_event_name" fields >>= λ name. hook_event name fields >>= λ event.
      as_request provider loom_session_id provider_session_id
        (optional_string (get "turn_id" fields)) event
  normalize_hook_event provider loom_session_id _ =
      err (invalid_request "hook input must be a JSON object")

-- `eq_ignore_ascii_case`
abbrev pub lower : ℕ → ℕ
lower c = if leb 65 c && leb c 90 then c + 32 else c

unfoldable pub eq_ignore_ascii_case : String → String → Bool
eq_ignore_ascii_case String.[] String.[] = true
eq_ignore_ascii_case (String.◌∷◌ c s) (String.◌∷◌ d t) =
    eqb (lower (code c)) (lower (code d)) && eq_ignore_ascii_case s t
eq_ignore_ascii_case _ _ = false

abbrev pub is_str : (String → Bool) → Option Value → Bool
is_str p (some (string text)) = p text
is_str p _ = false

-- Whether the answer denies the tool; the answer itself is a constant.
unfoldable pub denies_native_shell : Value → Bool
unfolding get eq_ignore_ascii_case
denies_native_shell (object fields) =
    is_str (λ text. text == "PreToolUse") (get "hook_event_name" fields)
    && is_str (λ text. eq_ignore_ascii_case text "bash") (get "tool_name" fields)
denies_native_shell _ = false

abbrev pub is_recording : AgentSessionState → Bool
is_recording recording = true
is_recording _ = false

module _ (parse_path : String → FilePath) where
  -- A session that a hook in this directory may belong to.
  unfoldable pub is_candidate : String → FilePath → AgentSession → Bool
  unfolding eq_ignore_ascii_case workspace_contains
  is_candidate provider cwd session =
      is_recording session.state
      && (eq_ignore_ascii_case session.agent_kind provider
          || eq_ignore_ascii_case session.agent_kind "generic")
      && workspace_contains (parse_path session.cwd) cwd

  unfoldable pub select_active_session_id : List AgentSession → String → FilePath → Option String
  unfolding is_candidate
  select_active_session_id [] provider cwd = none
  select_active_session_id (session ∷ sessions) provider cwd =
      let rest = select_active_session_id sessions provider cwd in
      if is_candidate provider cwd session then some session.id else rest
