-- ===== src/Tests/Watch.antt =====
-- The results on the view of a session, each applied to a concrete input.
use loomterm.Prelude.{ℕ, ◌≡◌, true, false, none, some, List, [], ◌∷◌, arith, All}
use loomterm.Model.Command.{argv}
use loomterm.Model.Execution.{ExecutionEvent, output, stdout}
use loomterm.Model.Session.{AgentSession, AgentSessionDetail, recording}
use loomterm.Store.Rows.{execution_from_row}
use loomterm.Mcp.{event_raw_bytes}
use loomterm.Watch.{
  ViewEvent, key_pressed, page_read, KeyEvent, char, new, handle_key, handle_events, cancel_target,
}
use loomterm.Watch.Bounded.{IsBounded, HasSmall, handle_events-IsBounded}
use loomterm.Watch.Selected.{HasSelection, cancel_confirmed}
use loomterm.Tests.Data.{plain}
use loomterm.Tests.Daemon.{begun_row}

abbrev pub session : AgentSession
session = record {
  id = "s1";
  workspace_id = "w";
  state = recording;
  agent_kind = "codex";
  name = none;
  command = argv "codex" [];
  command_display = "codex";
  cwd = "/";
  created_at_ms = 1;
  ended_at_ms = none;
  duration_ms = none;
  recorder_pid = 7;
  outcome = none;
  captured_bytes = 0;
  output_truncated = false;
  initial_cols = 80;
  initial_rows = 24;
  cast_path = "/s/s1/session.cast";
  html_path = "/s/s1/session.html";
}

abbrev detail : AgentSessionDetail
detail = record {
  session = session;
  executions = execution_from_row 30 begun_row ∷ [];
  turns = [];
  actions = [];
}

abbrev key : ℕ → KeyEvent
key c = record { is_press = true; code = char c }

abbrev event : ExecutionEvent
event = record { execution_id = "e1"; seq = 2; timestamp_ms = 12; payload = output stdout "110" }

abbrev events : List ViewEvent
events = page_read (event ∷ []) 2 ∷ key_pressed (key 99) ∷ []

small : All (HasSmall plain (λ bytes. bytes) (λ n. "") (λ e. "")) events
unfolding event_raw_bytes plain
small = ((omega arith, tt), (tt, tt))

handle_events-IsBounded_example :
    IsBounded (handle_events plain (λ bytes. bytes) (λ n. "") (λ e. "") events (new detail))
handle_events-IsBounded_example =
    handle_events-IsBounded plain (λ bytes. bytes) (λ n. "") (λ e. "") detail events small

cancel_confirmed_example :
    let s = handle_events plain (λ bytes. bytes) (λ n. "") (λ e. "") events (new detail) in
    HasSelection s
    × (cancel_target (handle_key (key 121) s) ≡ some "e1" → s.confirmation ≡ some "e1")
cancel_confirmed_example =
    cancel_confirmed plain (λ bytes. bytes) (λ n. "") (λ e. "") detail events (key 121) "e1"
      (tt, (tt, tt))
