-- ===== src/Watch/Bounded.antt =====
-- The output that the view holds is counted and bounded.
use loomterm.Prelude.{
  ℕ, ◌+◌, ◌-◌, ◌^◌, ◌≤◌, ◌<◌, min, String, ◌≡◌, refl, List, [], ◌∷◌, ◌++◌, arith, length, sum_by,
  sum_by-append, inl, inr, ◌⊎◌, All,
}
use loomterm.Result.{Result, ok, err, Error}
use loomterm.Model.Execution.{
  Base64, Bytes, ExecutionEvent, ExecutionEventPayload, started, output, capture_truncated,
  finished_with, OutputStream,
}
use loomterm.Model.Session.{AgentSessionDetail}
use loomterm.Mcp.{event_raw_bytes}
use loomterm.Watch.{
  sanitize_output, Text, WatchState, OutputChunk, output_cap_bytes, usize_max, drop_oldest,
  push_chunk, ingest_event, ingest, reset_output, refresh, reset_if, with_error, select_relative,
  ask_cancel, selected, handle_key, KeyEvent, ViewEvent, key_pressed, refreshed, page_read, failed,
  handle_event, handle_events, new,
}

abbrev pub chunk_bytes : OutputChunk → ℕ
chunk_bytes chunk = chunk.bytes

-- The counter is the size of the chunks, and it keeps to the cap.
abbrev pub IsBounded : WatchState → Type 0
IsBounded s = (s.output_bytes ≡ sum_by chunk_bytes s.output) × (s.output_bytes ≤ output_cap_bytes)

drop_oldest-IsBounded :
    (chunks : List OutputChunk) (bytes : ℕ)
    → bytes ≡ sum_by chunk_bytes chunks
    → let (kept, size) = drop_oldest chunks bytes in
      (size ≡ sum_by chunk_bytes kept) × (size ≤ output_cap_bytes)
unfolding drop_oldest
drop_oldest-IsBounded [] bytes h = (h, omega (arith, h))
drop_oldest-IsBounded (chunk ∷ chunks) bytes h =
    ground (arith, h, drop_oldest-IsBounded chunks (bytes - chunk.bytes) (omega (arith, h)))

Sum-cases : {A B : Type 0} (x : A ⊎ B) → ((a : A) × (x ≡ inl a)) ⊎ ((b : B) × (x ≡ inr b))
Sum-cases (inl a) = inl (a, refl)
Sum-cases (inr b) = inr (b, refl)

Result-cases : {A : Type 0} (r : Result A) → ((e : Error) × (r ≡ err e)) ⊎ ((a : A) × (r ≡ ok a))
Result-cases (err e) = inl (e, refl)
Result-cases (ok a) = inr (a, refl)

module _ (b64 : Base64) (lossy_chars : Bytes → Text) (number : ℕ → String) where
  abbrev size_or : String ⊎ ℕ → ℕ
  size_or (inl error) = 0
  size_or (inr n) = n

  -- A `Vec` has at most `isize::MAX` bytes.
  abbrev pub IsSmall : ExecutionEvent → Type 0
  IsSmall e = size_or (event_raw_bytes b64 e.payload) < 2 ^ 63

  push_chunk-IsBounded :
      (stream : OutputStream) (bytes : Bytes) (s : WatchState)
      → length bytes < 2 ^ 63
      → IsBounded s
      → IsBounded (push_chunk b64 lossy_chars number stream bytes s)
  unfolding push_chunk
  push_chunk-IsBounded stream bytes s small h =
      let chunk : OutputChunk = record {
        stream = stream;
        text = sanitize_output (lossy_chars bytes);
        bytes = length bytes;
      } in
      let total : min (s.output_bytes + length bytes) usize_max
          ≡ sum_by chunk_bytes (s.output ++ chunk ∷ []) =
        omega (arith, h, small, sum_by-append chunk_bytes s.output (chunk ∷ [])) in
      drop_oldest-IsBounded (s.output ++ chunk ∷ []) (min (s.output_bytes + length bytes) usize_max)
        total

  ingest_event-IsBounded :
      (payload : ExecutionEventPayload) (s : WatchState)
      → size_or (event_raw_bytes b64 payload) < 2 ^ 63
      → IsBounded s
      → IsBounded (ingest_event b64 lossy_chars number payload s).1
  unfolding ingest_event event_raw_bytes
  ingest_event-IsBounded (started pid pgid) s small h = h
  ingest_event-IsBounded (capture_truncated limit) s small h = h
  ingest_event-IsBounded (finished_with outcome) s small h = h
  ingest_event-IsBounded (output stream text) s small h = elim (Sum-cases (b64.decode text)) [
    | inl (message, bad) ↦ rw (bad, ingest_event) h
    | inr (bytes, good) ↦
        let less : length bytes < 2 ^ 63 = rw good at small in
        rw (good, ingest_event) (push_chunk-IsBounded stream bytes s less h)
  ]

  ingest-IsBounded :
      (events : List ExecutionEvent) (next_seq : ℕ) (s : WatchState)
      → All IsSmall events
      → IsBounded s
      → IsBounded (ingest b64 lossy_chars number events next_seq s).1
  unfolding ingest
  ingest-IsBounded [] next_seq s small h = h
  ingest-IsBounded (e ∷ events) next_seq s small h =
      let (r, s') = ingest_event b64 lossy_chars number e.payload s in
      let kept = ingest_event-IsBounded e.payload s small.0 h in
      elim (Result-cases r) [
        | inl (error, bad) ↦ rw (bad, ingest) kept
        | inr (unit, good) ↦ rw (good, ingest) (ingest-IsBounded events next_seq s' small.1 kept)
      ]

-- Keys leave the output as it is, or clear it.
abbrev Same : WatchState → WatchState → Type 0
Same s s' = (s'.output ≡ s.output) × (s'.output_bytes ≡ s.output_bytes)

abbrev Cleared : WatchState → Type 0
Cleared s = (s.output ≡ []) × (s.output_bytes ≡ 0)

handle_key-output :
    (key : KeyEvent) (s : WatchState) → Same s (handle_key key s).1 ⊎ Cleared (handle_key key s).1
unfolding handle_key select_relative reset_output ask_cancel selected
handle_key-output key s = ground arith

refresh-output :
    (detail : AgentSessionDetail) (s : WatchState)
    → Same s (reset_if (refresh detail s)) ⊎ Cleared (reset_if (refresh detail s))
unfolding refresh reset_output
refresh-output detail s = ground arith

still_IsBounded : (s s' : WatchState) → Same s s' ⊎ Cleared s' → IsBounded s → IsBounded s'
still_IsBounded s s' (inl same) h = rw (same.0, same.1) h
still_IsBounded s s' (inr cleared) h = rw (cleared.0, cleared.1) (refl, omega arith)

with_error-IsBounded :
    (f : Error → String) (r : Result (Unit {0})) (s : WatchState)
    → IsBounded s
    → IsBounded (with_error f (r, s))
with_error-IsBounded f (ok unit) s h = h
with_error-IsBounded f (err e) s h = h

module _ (b64 : Base64) (lossy_chars : Bytes → Text) (number : ℕ → String)
    (error_text : Error → String) where
  -- The events of a page are of a size that a `Vec` can have.
  abbrev pub HasSmall : ViewEvent → Type 0
  HasSmall (page_read events next_seq) = All (IsSmall b64 lossy_chars number) events
  HasSmall _ = Unit

  handle_event-IsBounded :
      (event : ViewEvent) (s : WatchState)
      → HasSmall event
      → IsBounded s
      → IsBounded (handle_event b64 lossy_chars number error_text event s)
  unfolding handle_event
  handle_event-IsBounded (key_pressed key) s small h =
      still_IsBounded s (handle_key key s).1 (handle_key-output key s) h
  handle_event-IsBounded (refreshed detail) s small h =
      still_IsBounded s (reset_if (refresh detail s)) (refresh-output detail s) h
  handle_event-IsBounded (page_read events next_seq) s small h =
      with_error-IsBounded error_text _ _
        (ingest-IsBounded b64 lossy_chars number events next_seq s small h)
  handle_event-IsBounded (failed message) s small h = h

  after_events-IsBounded :
      (events : List ViewEvent) (s : WatchState)
      → All HasSmall events
      → IsBounded s
      → IsBounded (handle_events b64 lossy_chars number error_text events s)
  unfolding handle_events
  after_events-IsBounded [] s small h = h
  after_events-IsBounded (event ∷ events) s small h =
      after_events-IsBounded events (handle_event b64 lossy_chars number error_text event s) small.1
        (handle_event-IsBounded event s small.0 h)

  -- A view is opened, and after any events, of which the pages have output of less than 2^63 bytes
  -- each: the counter is the number of bytes of the chunks that the view holds, and it is at most
  -- 1 MiB.
  pub handle_events-IsBounded :
      (detail : AgentSessionDetail) (events : List ViewEvent)
      → All HasSmall events
      → IsBounded (handle_events b64 lossy_chars number error_text events (new detail))
  unfolding new
  handle_events-IsBounded detail events small =
      after_events-IsBounded events (new detail) small (refl, omega arith)
