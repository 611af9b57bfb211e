-- ===== src/Watch.antt =====
-- `WatchState` of src/watch.rs: the state of the view of a recorded session, with its operations, and
-- the events of `run_loop` that change it. Drawing and the calls of the daemon are not modelled; what
-- those calls answer is an event.
pub mod Bounded
pub mod Selected
use loomterm.Prelude.{
  ℕ, zero, suc, ◌+◌, ◌-◌, ◌*◌, ◌^◌, min, ℤ, pos, negsuc, String, Bool, true, false, not, ◌&&◌, ◌||◌,
  Option, none, some, List, [], ◌∷◌, ◌++◌, ◌==◌, if◌then◌else◌, ltb, leb, eqb, length, map, ◌⊎◌,
  inl, inr, ◌<>◌,
}
use loomterm.Result.{Result, ok, err, Error, protocol}
use loomterm.Model.Execution.{
  Base64, Bytes, Execution, ExecutionEvent, ExecutionEventPayload, started, output,
  capture_truncated, finished_with, OutputStream, ExecutionState, queued, running, finished,
  cancelled, interrupted,
}
use loomterm.Model.Session.{AgentSessionDetail}

-- A text as the codes of its characters.
abbrev pub Text : Type 0
Text = List ℕ

pub data Focus : Type 0 where
  on_executions on_output : Focus

pub record OutputChunk : Type 0 where
  pub stream : OutputStream
  pub text : Text
  pub bytes : ℕ

pub data Command : Type 0 where
  no_command quit reload_output cancel open_replay export_replay : Command

pub record WatchState : Type 0 where
  pub detail : AgentSessionDetail
  pub selected_id : Option String
  pub focus : Focus
  pub follow : Bool
  pub output_scroll : ℕ
  pub output_cursor : ℕ
  pub output : List OutputChunk
  pub output_bytes : ℕ
  pub confirmation : Option String
  pub notice : Option String
  pub error : Option String

abbrev pub output_cap_bytes : ℕ
output_cap_bytes = 1024 * 1024

unfoldable pub last_id : List Execution → Option String
last_id [] = none
last_id (x ∷ []) = some x.id
last_id (x ∷ y ∷ executions) = last_id (y ∷ executions)

unfoldable pub is_listed : String → List Execution → Bool
is_listed id [] = false
is_listed id (x ∷ executions) = x.id == id || is_listed id executions

unfoldable pub new : AgentSessionDetail → WatchState
unfolding last_id
new detail = record {
  detail = detail;
  selected_id = last_id detail.executions;
  focus = on_executions;
  follow = true;
  output_scroll = 0;
  output_cursor = 0;
  output = [];
  output_bytes = 0;
  confirmation = none;
  notice = none;
  error = none;
}

-- `position` of the id; `nth` of a position.
unfoldable pub position : String → List Execution → Option ℕ
position id [] = none
position id (x ∷ executions) =
    let rest = position id executions in if x.id == id then some 0 else map_suc rest
  where
    map_suc : Option ℕ → Option ℕ
    map_suc none = none
    map_suc (some n) = some (suc n)

unfoldable pub nth : ℕ → List Execution → Option Execution
nth n [] = none
nth zero (x ∷ executions) = some x
nth (suc n) (x ∷ executions) = nth n executions

unfoldable pub selected_index : WatchState → Option ℕ
unfolding position
selected_index s = elim s.selected_id [ none ↦ none | some id ↦ position id s.detail.executions ]

unfoldable pub selected : WatchState → Option Execution
unfolding selected_index nth
selected s = elim (selected_index s) [ none ↦ none | some n ↦ nth n s.detail.executions ]

abbrev pub is_selected : Option String → List Execution → Bool
is_selected none executions = false
is_selected (some id) executions = is_listed id executions

abbrev same_id : Option String → Option String → Bool
same_id none none = true
same_id (some a) (some b) = a == b
same_id _ _ = false

-- Whether the selection changed, and the state.
unfoldable pub refresh : AgentSessionDetail → WatchState → Bool × WatchState
unfolding is_listed last_id
refresh detail s =
    let chosen =
      if is_selected s.selected_id detail.executions
      then s.selected_id
      else last_id detail.executions in
    (not (same_id s.selected_id chosen), record s { detail = detail; selected_id = chosen })

unfoldable pub reset_output : WatchState → WatchState
reset_output s = record s {
  output = [];
  output_bytes = 0;
  output_cursor = 0;
  output_scroll = 0;
  follow = true;
}

-- `(current + amount).clamp(0, last)`
unfoldable pub moved : ℕ → ℤ → ℕ → ℕ
moved current (pos n) last = min (current + n) last
moved current (negsuc n) last = min (current - suc n) last

abbrev pub or_zero : Option ℕ → ℕ
or_zero none = 0
or_zero (some n) = n

unfoldable pub select_relative : ℤ → WatchState → Bool × WatchState
unfolding selected_index moved nth reset_output
select_relative amount s =
    let executions = s.detail.executions in
    let next = moved (or_zero (selected_index s)) amount (length executions - 1) in
    elim (nth next executions) [
      | none ↦ (false, s)
      | some x ↦
          if same_id s.selected_id (some x.id)
          then (false, s)
          else (true, reset_output (record s { selected_id = some x.id }))
    ]

-- `char::is_control`
abbrev is_control : ℕ → Bool
is_control c = ltb c 0x20 || leb 0x7f c && leb c 0x9f

unfoldable pub sanitize_output : Text → Text
sanitize_output text =
    map (λ c. if eqb c 10 then 10 else if eqb c 9 then 32 else if is_control c then 63 else c) text

-- The loop that drops the oldest chunks.
unfoldable pub drop_oldest : List OutputChunk → ℕ → List OutputChunk × ℕ
drop_oldest [] bytes = ([], bytes)
drop_oldest (chunk ∷ chunks) bytes =
    let rest = drop_oldest chunks (bytes - chunk.bytes) in
    if ltb output_cap_bytes bytes then rest else (chunk ∷ chunks, bytes)

abbrev pub usize_max : ℕ
usize_max = 2 ^ 64 - 1

-- `lossy_chars` is `String::from_utf8_lossy`, the characters of its result; `number` is the text of
-- a number.
module _ (b64 : Base64) (lossy_chars : Bytes → Text) (number : ℕ → String) where
  unfoldable pub push_chunk : OutputStream → Bytes → WatchState → WatchState
  unfolding drop_oldest sanitize_output
  push_chunk stream bytes s =
      let chunk : OutputChunk = record {
        stream = stream;
        text = sanitize_output (lossy_chars bytes);
        bytes = length bytes;
      } in
      let total = min (s.output_bytes + length bytes) usize_max in
      let (kept, size) = drop_oldest (s.output ++ chunk ∷ []) total in
      record s { output = kept; output_bytes = size }

  unfoldable pub ingest_event : ExecutionEventPayload → WatchState → Result (Unit {0}) × WatchState
  unfolding push_chunk
  ingest_event (output stream data_base64) s = elim (b64.decode data_base64) [
    | inl message ↦ (err (protocol ("invalid output encoding: " <> message)), s)
    | inr bytes ↦ (ok tt, push_chunk stream bytes s)
  ]
  ingest_event (capture_truncated limit_bytes) s = (
    ok tt,
    record s { notice = some ("capture truncated at " <> number limit_bytes <> " bytes") },
  )
  ingest_event (started pid pgid) s = (ok tt, s)
  ingest_event (finished_with outcome) s = (ok tt, s)

  unfoldable pub ingest : List ExecutionEvent → ℕ → WatchState → Result (Unit {0}) × WatchState
  unfolding ingest_event
  ingest [] next_seq s = (ok tt, record s { output_cursor = next_seq })
  ingest (event ∷ events) next_seq s =
      let (r, s') = ingest_event event.payload s in
      let rest = ingest events next_seq s' in
      elim r [ err error ↦ (err error, s') | ok unit ↦ rest ]

pub data KeyCode : Type 0 where
  char : ℕ → KeyCode
  enter esc tab up down home end_key other_key : KeyCode

pub record KeyEvent : Type 0 where
  pub is_press : Bool
  pub code : KeyCode

abbrev stays : WatchState → Command × WatchState
stays s = (no_command, s)

abbrev after_move : Bool × WatchState → Command × WatchState
after_move (has_moved, s) = (if has_moved then reload_output else no_command, s)

abbrev other_focus : Focus → Focus
other_focus on_executions = on_output
other_focus on_output = on_executions

abbrev can_cancel : ExecutionState → Bool
can_cancel queued = true
can_cancel running = true
can_cancel _ = false

-- A confirmation is asked for.
unfoldable pub answer_confirmation : KeyCode → WatchState → Command × WatchState
answer_confirmation (char c) s =
    if eqb c 121 || eqb c 89
    then (cancel, record s { confirmation = none })
    else if eqb c 110 || eqb c 78
    then (no_command, record s { confirmation = none })
    else stays s
answer_confirmation enter s = (cancel, record s { confirmation = none })
answer_confirmation esc s = (no_command, record s { confirmation = none })
answer_confirmation tab s = stays s
answer_confirmation up s = stays s
answer_confirmation down s = stays s
answer_confirmation home s = stays s
answer_confirmation end_key s = stays s
answer_confirmation other_key s = stays s

-- `c`: only what runs can be cancelled.
unfoldable pub ask_cancel : WatchState → WatchState
unfolding selected
ask_cancel s = elim (selected s) [
  | none ↦ s
  | some execution ↦
      if can_cancel execution.state
      then record s { confirmation = some execution.id }
      else record s { notice = some "only queued or running executions can be cancelled" }
]

-- 113 is q, 102 f, 99 c, 111 o, 101 e.
unfoldable pub press_char : ℕ → WatchState → Command × WatchState
unfolding ask_cancel
press_char c s =
    if eqb c 113
    then (quit, s)
    else if eqb c 102
    then (no_command, record s { follow = not s.follow })
    else if eqb c 99
    then (no_command, ask_cancel s)
    else if eqb c 111
    then (open_replay, s)
    else if eqb c 101
    then (export_replay, s)
    else stays s

abbrev scrolled : ℕ → WatchState → WatchState
scrolled n s = record s { follow = false; output_scroll = n }

unfoldable pub press_key : Focus → KeyCode → WatchState → Command × WatchState
unfolding select_relative press_char
press_key focus (char c) s = press_char c s
press_key focus tab s = (no_command, record s { focus = other_focus s.focus })
press_key on_executions up s = after_move (select_relative (negsuc 0) s)
press_key on_executions down s = after_move (select_relative (pos 1) s)
press_key on_output up s = stays (scrolled (s.output_scroll - 1) s)
press_key on_output down s = stays (scrolled (min (s.output_scroll + 1) usize_max) s)
press_key on_output home s = stays (scrolled 0 s)
press_key on_output end_key s = stays (record s { follow = true })
press_key on_executions home s = stays s
press_key on_executions end_key s = stays s
press_key focus enter s = stays s
press_key focus esc s = stays s
press_key focus other_key s = stays s

unfoldable pub handle_key : KeyEvent → WatchState → Command × WatchState
unfolding answer_confirmation press_key
handle_key key s = if not key.is_press then stays s else elim s.confirmation [
  | some id ↦ answer_confirmation key.code s
  | none ↦ press_key s.focus key.code s
]

-- What `run_loop` is woken by, or a call of the daemon answers.
pub data ViewEvent : Type 0 where
  key_pressed : KeyEvent → ViewEvent
  refreshed : AgentSessionDetail → ViewEvent
  page_read : List ExecutionEvent → ℕ → ViewEvent
  failed : String → ViewEvent

-- `Command::Cancel` in `handle_command`: the execution that the daemon is asked to cancel.
abbrev pub cancel_target : Command × WatchState → Option String
cancel_target (cancel, s) = s.selected_id
cancel_target (_, s) = none

abbrev reset_if : Bool × WatchState → WatchState
reset_if (true, s) = reset_output s
reset_if (false, s) = s

abbrev with_error : (Error → String) → Result (Unit {0}) × WatchState → WatchState
with_error error_text (err error, s) = record s { error = some (error_text error) }
with_error error_text (ok unit, s) = s

module _ (b64 : Base64) (lossy_chars : Bytes → Text) (number : ℕ → String)
    (error_text : Error → String) where
  unfoldable pub handle_event : ViewEvent → WatchState → WatchState
  unfolding handle_key refresh ingest reset_output
  handle_event (key_pressed key) s = (handle_key key s).1
  handle_event (refreshed detail) s = record (reset_if (refresh detail s)) { error = none }
  handle_event (page_read events next_seq) s =
      with_error error_text (ingest b64 lossy_chars number events next_seq s)
  handle_event (failed message) s = record s { error = some message }

  unfoldable pub handle_events : List ViewEvent → WatchState → WatchState
  unfolding handle_event
  handle_events [] s = s
  handle_events (event ∷ events) s = handle_events events (handle_event event s)
