-- ===== src/Mcp.antt =====
-- The tools of src/mcp.rs that read an execution. The client's calls are the daemon's answers
-- (`dispatch` of src/daemon.rs) on its database; errors reach a tool as texts. A text of the output
-- is its bytes in UTF-8.
pub mod Convert
pub mod Read
pub mod Project
use loomterm.Prelude.{
  ℕ, ◌+◌, ◌-◌, ◌*◌, ◌<◌, min, ℤ, String, Bool, true, false, ◌||◌, Option, none, some, List, [], ◌∷◌,
  ◌==◌, ◌<>◌, if◌then◌else◌, ltb, length, ◌⊎◌, inl, inr, is_empty,
}
use loomterm.Result.{Result, ok, err, Error, FilePath}
use loomterm.Model.Execution.{
  Base64, Bytes, Execution, ExecutionEvent, ExecutionEventPayload, ExecutionOutcome, OutputStream,
  started, output, capture_truncated, finished_with, ReadOutputResponse,
}
use loomterm.Store.Tables.{Db}
use loomterm.Store.Executions.{get_execution}
use loomterm.Store.Reading.{read_output}
use loomterm.Recorder.Utf8.{from_utf8, lossy}

pub data OutputFormat : Type 0 where
  text base64 : OutputFormat

pub data ToolEventPayload : Type 0 where
  started_event : ℕ → ℤ → ToolEventPayload
  output_event : OutputStream → ℕ → Option Bytes → Option String → Option Bool → ToolEventPayload
  capture_truncated_event : ℕ → ToolEventPayload
  finished_event : ExecutionOutcome → ToolEventPayload

pub record ToolEvent : Type 0 where
  pub execution_id : String
  pub seq : ℕ
  pub timestamp_ms : ℕ
  pub payload : ToolEventPayload

pub record ToolOutputResponse : Type 0 where
  pub execution : Execution
  pub events : List ToolEvent
  pub next_seq : ℕ
  pub has_more : Bool

pub record ReadInput : Type 0 where
  pub execution_id : String
  pub after_seq : ℕ
  pub output_format : OutputFormat
  pub max_bytes : Option ℕ

-- `std::result::Result<_, String>`: the text of an error, or a value.
abbrev pub ToolResult : Type 0 → Type 0
ToolResult A = String ⊎ A

abbrev pub clamp : ℕ → ℕ → ℕ → ℕ
clamp low high n = if ltb n low then low else if ltb high n then high else n

abbrev pub unwrap_or : ℕ → Option ℕ → ℕ
unwrap_or n none = n
unwrap_or n (some m) = m

unfoldable pub normalized_max : Option ℕ → ℕ
normalized_max value = clamp 1 (1024 * 1024) (unwrap_or (256 * 1024) value)

unfoldable pub ensure_workspace_match : Execution → String → ToolResult Execution
ensure_workspace_match execution workspace_id =
    if execution.workspace_id == workspace_id
    then inr execution
    else inl "execution is outside the MCP server's project workspace"

-- The text, and whether it is lossy.
unfoldable pub text_of : Bytes → Bytes × Bool
text_of bytes =
    let whole = from_utf8 (length bytes) bytes in
    if is_empty whole.1 then (whole.0, false) else (lossy bytes, true)

-- What the loop leaves: the events, whether it stopped early, the budget and the cursor.
pub record Converted : Type 0 where
  pub events : List ToolEvent
  pub page_more : Bool
  pub remaining : ℕ
  pub cursor : ℕ

abbrev pub put_event : ToolEvent → ToolResult Converted → ToolResult Converted
put_event event (inl error) = inl error
put_event event (inr c) = inr (record c { events = event ∷ c.events })

abbrev pub after_conversion : ToolResult Converted → ToolResult ToolEvent → ToolResult Converted
after_conversion rest (inl error) = inl error
after_conversion rest (inr event) = put_event event rest

module _ (b64 : Base64) where
  abbrev pub decoded_or : {A : Type 0} → (Bytes → A) → String ⊎ Bytes → ToolResult A
  decoded_or f (inl error) = inl ("invalid persisted output: " <> error)
  decoded_or f (inr bytes) = inr (f bytes)

  unfoldable pub event_raw_bytes : ExecutionEventPayload → ToolResult ℕ
  event_raw_bytes (output stream data_base64) = decoded_or length (b64.decode data_base64)
  event_raw_bytes (started pid pgid) = inr 0
  event_raw_bytes (capture_truncated limit_bytes) = inr 0
  event_raw_bytes (finished_with outcome) = inr 0

  abbrev pub output_as : OutputFormat → OutputStream → String → Bytes → ToolEventPayload
  output_as base64 stream data_base64 bytes =
      output_event stream (length bytes) none (some data_base64) none
  output_as text stream data_base64 bytes =
      let (shown, is_lossy) = text_of bytes in
      output_event stream (length bytes) (some shown) none (if is_lossy then some true else none)

  unfoldable pub convert_payload :
      OutputFormat → ExecutionEventPayload → ToolResult ToolEventPayload
  unfolding text_of
  convert_payload format (started pid pgid) = inr (started_event pid pgid)
  convert_payload format (output stream data_base64) =
      decoded_or (output_as format stream data_base64) (b64.decode data_base64)
  convert_payload format (capture_truncated limit_bytes) = inr (capture_truncated_event limit_bytes)
  convert_payload format (finished_with outcome) = inr (finished_event outcome)

  unfoldable pub convert_event : ExecutionEvent → OutputFormat → ToolResult ToolEvent
  unfolding convert_payload
  convert_event event format = elim (convert_payload format event.payload) [
    | inl error ↦ inl error
    | inr payload ↦ inr (record {
      execution_id = event.execution_id;
      seq = event.seq;
      timestamp_ms = event.timestamp_ms;
      payload = payload;
    })
  ]

  unfoldable pub convert_events : List ExecutionEvent → OutputFormat → ℕ → ℕ → ToolResult Converted
  unfolding convert_event event_raw_bytes
  convert_events [] format remaining cursor =
      inr (record { events = []; page_more = false; remaining = remaining; cursor = cursor })
  convert_events (event ∷ events) format remaining cursor = elim (event_raw_bytes event.payload) [
    | inl error ↦ inl error
    | inr raw_bytes ↦
        let rest = convert_events events format (remaining - raw_bytes) event.seq in
        if ltb remaining raw_bytes
        then inr (record { events = []; page_more = true; remaining = remaining; cursor = cursor })
        else after_conversion rest (convert_event event format)
  ]

  module _ (error_text : Error → String) (workspace_id : String) (now : ℕ) where
    unfoldable pub allowed_execution : String → Db → ToolResult Execution
    unfolding ensure_workspace_match
    allowed_execution id db = elim (get_execution now id db).0 [
      | err error ↦ inl (error_text error)
      | ok execution ↦ ensure_workspace_match execution workspace_id
    ]

    -- `Operation::ReadOutput` in `dispatch`.
    abbrev pub daemon_read_output : String → ℕ → ℕ → Db → Result ReadOutputResponse
    daemon_read_output id after_seq max_bytes db =
        (read_output b64 now id after_seq (clamp 1 (8 * 1024 * 1024) max_bytes) db).0

    abbrev pub page_response :
        ReadOutputResponse → ToolResult Converted → ToolResult ToolOutputResponse
    page_response response (inl error) = inl error
    page_response response (inr c) = inr (record {
      execution = response.execution;
      events = c.events;
      next_seq = c.cursor;
      has_more = response.has_more || c.page_more || ltb c.cursor response.next_seq;
    })

    unfoldable pub read : ReadInput → Db → ToolResult ToolOutputResponse
    unfolding allowed_execution convert_events normalized_max
    read input db = elim (allowed_execution input.execution_id db) [
      | inl error ↦ inl error
      | inr allowed ↦
          let max_bytes = normalized_max input.max_bytes in
          elim (daemon_read_output input.execution_id input.after_seq max_bytes db) [
            | err error ↦ inl (error_text error)
            | ok response ↦
                page_response response
                  (convert_events response.events input.output_format max_bytes input.after_seq)
          ]
    ]
