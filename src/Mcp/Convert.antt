-- ===== src/Mcp/Convert.antt =====
-- What of a page of events a tool returns.
use loomterm.Prelude.{
  ℕ, suc, ◌-◌, ◌≤◌, ◌<◌, String, ◌≡◌, refl, subst, ap, ◌∙◌, true, false, List, [], ◌∷◌, arith, ltb,
  length, take, sum_by, inl, inr, ◌⊎◌, none, some, if◌then◌else◌, Bool-cases, All,
}
use loomterm.Result.{ok}
use loomterm.Model.Execution.{
  Base64, ExecutionEvent, ExecutionEventPayload, started, output, capture_truncated, finished_with,
  OutputStream, Bytes,
}
use loomterm.Store.Tables.{EventRow}
use loomterm.Store.Rows.{event_payload, bytes_of}
use loomterm.Store.Journal.{IsReadable}
use loomterm.Store.Reading.{last_seq_or}
use loomterm.Store.Reading.Page.{decoded, event_from_row_ok}
use loomterm.Mcp.{
  OutputFormat, text, base64, ToolEventPayload, started_event, output_event,
  capture_truncated_event, finished_event, text_of, convert_payload, ToolEvent, ToolResult,
  output_as, decoded_or, Converted, event_raw_bytes, convert_event, convert_events,
}

module _ (b64 : Base64) where
  abbrev size_of_bytes : String ⊎ Bytes → ℕ
  size_of_bytes (inl error) = 0
  size_of_bytes (inr bytes) = length bytes

  abbrev payload_size : ExecutionEventPayload → ℕ
  payload_size (output stream data_base64) = size_of_bytes (b64.decode data_base64)
  payload_size (started pid pgid) = 0
  payload_size (capture_truncated limit_bytes) = 0
  payload_size (finished_with outcome) = 0

  -- The bytes of output in an event.
  abbrev pub raw_size : ExecutionEvent → ℕ
  raw_size e = payload_size e.payload

  bytes_counted :
      (decoded : String ⊎ Bytes) (n : ℕ)
      → decoded_or b64 length decoded ≡ inr n
      → size_of_bytes decoded ≡ n
  bytes_counted (inl error) n h = absurd (ground (arith, h))
  bytes_counted (inr bytes) n h = ground (arith, h)

  payload_counted :
      (payload : ExecutionEventPayload) (n : ℕ)
      → event_raw_bytes b64 payload ≡ inr n
      → payload_size payload ≡ n
  unfolding event_raw_bytes
  payload_counted (output stream encoded) n h = bytes_counted (b64.decode encoded) n h
  payload_counted (started pid pgid) n h = ground (arith, h)
  payload_counted (capture_truncated limit) n h = ground (arith, h)
  payload_counted (finished_with outcome) n h = ground (arith, h)

  -- Output as the tool shows it: the bytes in base64 as they are stored, or as text, with a mark
  -- where that is lossy.
  abbrev shown_output : OutputFormat → OutputStream → String → Bytes → ToolEventPayload
  shown_output base64 stream encoded bytes =
      output_event stream (length bytes) none (some encoded) none
  shown_output text stream encoded bytes =
      output_event stream (length bytes) (some (text_of bytes).0) none
        (if (text_of bytes).1 then some true else none)

  abbrev IsPayloadShown : OutputFormat → ExecutionEventPayload → ToolEventPayload → Type 0
  IsPayloadShown format (started pid pgid) shown = shown ≡ started_event pid pgid
  IsPayloadShown format (capture_truncated limit_bytes) shown =
      shown ≡ capture_truncated_event limit_bytes
  IsPayloadShown format (finished_with outcome) shown = shown ≡ finished_event outcome
  IsPayloadShown format (output stream encoded) shown =
      (bytes : Bytes) × (b64.decode encoded ≡ inr bytes)
      × (shown ≡ shown_output format stream encoded bytes)

  abbrev IsShown : OutputFormat → ExecutionEvent → ToolEvent → Type 0
  IsShown format e t =
      (t.execution_id ≡ e.execution_id)
      × (t.seq ≡ e.seq)
      × (t.timestamp_ms ≡ e.timestamp_ms)
      × IsPayloadShown format e.payload t.payload

  output_as-shown :
      (format : OutputFormat) (stream : OutputStream) (encoded : String) (bytes : Bytes)
      → output_as b64 format stream encoded bytes ≡ shown_output format stream encoded bytes
  output_as-shown base64 stream encoded bytes = refl
  output_as-shown text stream encoded bytes = refl

  output_shown :
      (format : OutputFormat) (stream : OutputStream) (encoded : String) (decoded : String ⊎ Bytes)
      (shown : ToolEventPayload)
      → b64.decode encoded ≡ decoded
      → decoded_or b64 (output_as b64 format stream encoded) decoded ≡ inr shown
      → IsPayloadShown format (output stream encoded) shown
  output_shown format stream encoded (inl error) shown d h = absurd (ground (arith, h))
  output_shown format stream encoded (inr bytes) shown d h =
      (bytes, d, ground (arith, h) ∙ output_as-shown format stream encoded bytes)

  payload_shown :
      (format : OutputFormat) (payload : ExecutionEventPayload) (shown : ToolEventPayload)
      → convert_payload b64 format payload ≡ inr shown
      → IsPayloadShown format payload shown
  unfolding convert_payload
  payload_shown format (started pid pgid) shown h = ground (arith, h)
  payload_shown format (capture_truncated limit_bytes) shown h = ground (arith, h)
  payload_shown format (finished_with outcome) shown h = ground (arith, h)
  payload_shown format (output stream encoded) shown h =
      output_shown format stream encoded (b64.decode encoded) shown refl h

  abbrev with_payload : ExecutionEvent → ToolEventPayload → ToolEvent
  with_payload e payload = record {
    execution_id = e.execution_id;
    seq = e.seq;
    timestamp_ms = e.timestamp_ms;
    payload = payload;
  }

  event-IsShown :
      (format : OutputFormat) (e : ExecutionEvent) (t : ToolEvent)
      → convert_event b64 e format ≡ inr t
      → IsShown format e t
  unfolding convert_event
  event-IsShown format e t h = go (convert_payload b64 format e.payload) refl h
    where
      go :
          (result : ToolResult ToolEventPayload)
          → convert_payload b64 format e.payload ≡ result
          → elim result [ inl error ↦ inl error | inr payload ↦ inr (with_payload e payload) ]
            ≡ inr t
          → IsShown format e t
      go (inl error) p h = absurd (ground (arith, h))
      go (inr payload) p h =
          let same : with_payload e payload ≡ t = ground (arith, h) in
          subst (IsShown format e) same (refl, refl, refl, payload_shown format e.payload payload p)

  -- The one list is the other, each event as the tool shows it.
  abbrev pub AreShown : OutputFormat → List ExecutionEvent → List ToolEvent → Type 0
  AreShown format [] [] = Unit
  AreShown format (e ∷ events) (t ∷ tools) = IsShown format e t × AreShown format events tools
  AreShown format _ _ = ⊥

  abbrev IsDecodable : ExecutionEvent → Type 0
  IsDecodable e =
      ((n : ℕ) × (event_raw_bytes b64 e.payload ≡ inr n))
      × ((format : OutputFormat) → (t : ToolEvent) × (convert_event b64 e format ≡ inr t))

  payload_encoded :
      (row : EventRow) (stream : OutputStream) (encoded : String)
      → event_payload b64 row ≡ ok (output stream encoded)
      → encoded ≡ b64.encode (bytes_of row.blob)
  unfolding event_payload
  payload_encoded row stream encoded h = let json = row.payload_json in ground (arith, h)

  IsDecodable-payload :
      (id : String) (row : EventRow) (payload : ExecutionEventPayload)
      → event_payload b64 row ≡ ok payload
      → IsDecodable (record {
        execution_id = id;
        seq = row.seq;
        timestamp_ms = row.timestamp_ms;
        payload = payload;
      })
  unfolding event_raw_bytes convert_event
  IsDecodable-payload id row (started pid pgid) h = ((_, refl), λ format. (_, refl))
  IsDecodable-payload id row (capture_truncated limit) h = ((_, refl), λ format. (_, refl))
  IsDecodable-payload id row (finished_with outcome) h = ((_, refl), λ format. (_, refl))
  IsDecodable-payload id row (output stream encoded) h =
      let bytes = bytes_of row.blob in
      let readable : b64.decode encoded ≡ inr bytes =
        ap b64.decode (payload_encoded row stream encoded h) ∙ b64.decode-encode bytes in
      (
        (length bytes, rw readable refl),
        λ format. (
          record {
            execution_id = id;
            seq = row.seq;
            timestamp_ms = row.timestamp_ms;
            payload = output_as b64 format stream encoded bytes;
          },
          rw (readable, convert_event) refl,
        ),
      )

  pub decoded-IsDecodable :
      (id : String) (rows : List EventRow)
      → All IsReadable rows
      → All IsDecodable (decoded b64 id rows)
  unfolding decoded
  decoded-IsDecodable id [] h = tt
  decoded-IsDecodable id (row ∷ rows) h =
      let (p, readable) = h.0 b64 in
      rw (event_from_row_ok b64 id row p readable, decoded)
        (IsDecodable-payload id row p readable, decoded-IsDecodable id rows h.1)

  -- What the loop over a page comes to: the first j events are returned.
  pub record Returns (format : OutputFormat) (events : List ExecutionEvent) (remaining cursor : ℕ)
      (result : ToolResult Converted) : Type 0 where
    pub converted : Converted
    pub returned : result ≡ inr converted
    pub count : ℕ
    pub within : count ≤ length events
    pub shown : AreShown format (take count events) converted.events
    pub budget : sum_by raw_size (take count events) ≤ remaining
    pub moved : converted.cursor ≡ last_seq_or cursor (take count events)
    pub more : converted.page_more ≡ ltb count (length events)
    pub stopped : count < length events → remaining < sum_by raw_size (take (suc count) events)

  pub convert_events-Returns :
      (format : OutputFormat) (events : List ExecutionEvent) (remaining cursor : ℕ)
      → All IsDecodable events
      → Returns format events remaining cursor (convert_events b64 events format remaining cursor)
  unfolding convert_events last_seq_or
  convert_events-Returns format [] remaining cursor h = record {
    converted = record { events = []; page_more = false; remaining = remaining; cursor = cursor };
    returned = refl;
    count = 0;
    within = omega arith;
    shown = tt;
    budget = omega arith;
    moved = refl;
    more = refl;
    stopped = λ l. absurd (omega (arith, l));
  }
  convert_events-Returns format (e ∷ events) remaining cursor h =
      let (n, sized) = h.0.0 in
      let (t, shows) = h.0.1 format in
      let ih = convert_events-Returns format events (remaining - n) e.seq h.1 in
      let size : raw_size e ≡ n = payload_counted e.payload n sized in
      elim (Bool-cases (ltb remaining n)) [
        | inl over ↦ record {
          converted = record {
            events = [];
            page_more = true;
            remaining = remaining;
            cursor = cursor;
          };
          returned = rw (sized, over, convert_events) refl;
          count = 0;
          within = omega arith;
          shown = tt;
          budget = omega arith;
          moved = refl;
          more = ground arith;
          stopped = λ l. ground (arith, size, over);
        }
        | inr fits ↦ record {
          converted = record ih.converted { events = t ∷ ih.converted.events };
          returned = rw (sized, fits, shows, ih.returned, convert_events) refl;
          count = suc ih.count;
          within = omega (arith, ih.within);
          shown = (event-IsShown format e t shows, ih.shown);
          budget = ground (arith, size, fits, ih.budget);
          moved = ih.moved;
          more = ih.more ∙ ground arith;
          stopped = λ l. ground (arith, size, fits, ih.stopped (omega (arith, l)));
        }
      ]
