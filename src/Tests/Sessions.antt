-- ===== src/Tests/Sessions.antt =====
-- The results on workspaces and agent sessions, each applied to a concrete input.
use loomterm.Prelude.{
  String, ◌≡◌, refl, true, false, none, some, [], ◌∷◌, select_first, find_key, update_where, pos,
}
use loomterm.Result.{ok, absolute}
use loomterm.Model.Command.{argv}
use loomterm.Model.Text.{is_blank, is_whitespace}
use loomterm.Model.Execution.{exited}
use loomterm.Model.Session.{
  AgentSessionFinish, finished, recording, AgentEventRequest, prompt_submitted, AgentTurn,
}
use loomterm.Model.Workspace.{Workspace}
use loomterm.Store.Tables.{Db, empty_db, SessionRow}
use loomterm.Store.Rows.{agent_session_from_row}
use loomterm.Store.Workspaces.{FileSystem, add_workspace, register, register_new}
use loomterm.Store.Workspaces.Registration.{add_workspace-twice}
use loomterm.Store.Sessions.{finish_agent_session, close_session, read_session}
use loomterm.Store.Sessions.Closing.{finish_agent_session-twice}
use loomterm.Store.Sessions.Turns.{
  new_turn, insert_turn, insert_agent_turn, get_agent_turn, find_provider_turn,
}
use loomterm.Store.Sessions.Events.{submit_prompt, open_turn}
use loomterm.Store.Sessions.Events.Prompt.{active_turns, other_turns, submit_prompt_one_active}

abbrev disk : FileSystem
disk = record { canonicalize = λ path. ok path; is_dir = λ path. true; display = λ path. "" }

abbrev demo : Workspace
demo = record { id = "w"; name = "demo"; root = absolute ("srv" ∷ []); created_at_ms = 1 }

abbrev with_demo : Db
with_demo = record empty_db { workspaces = record { workspace = demo; is_active = true } ∷ [] }

added : add_workspace disk 1 "w" "demo" (absolute ("srv" ∷ [])) empty_db ≡ (ok demo, with_demo)
unfolding add_workspace register register_new is_blank is_whitespace select_first find_key
added = refl

add_workspace-twice_example :
    add_workspace disk 2 "v" "demo" (absolute ("srv" ∷ [])) with_demo ≡ (ok demo, with_demo)
add_workspace-twice_example =
    add_workspace-twice disk 1 2 "w" "v" "demo" (absolute ("srv" ∷ [])) empty_db demo with_demo
      added

abbrev row : SessionRow
row = record {
  id = "s";
  workspace_id = "w";
  state = recording;
  agent_kind = "codex";
  name = none;
  command_json = argv "codex" [];
  cwd = "/srv";
  created_at_ms = 2;
  ended_at_ms = none;
  recorder_pid = 7;
  outcome_json = none;
  captured_bytes = 0;
  output_truncated = false;
  initial_cols = 80;
  initial_rows = 24;
  cast_path = "s.cast";
  html_path = "s.html";
}

abbrev recorded : Db
recorded = record with_demo { agent_sessions = row ∷ [] }

abbrev end_of_session : AgentSessionFinish
end_of_session = record {
  state = finished;
  outcome = exited (pos 0);
  captured_bytes = 12;
  output_truncated = false;
}

abbrev over : SessionRow
over = record row {
  state = finished;
  ended_at_ms = some 5;
  outcome_json = some (exited (pos 0));
  captured_bytes = 12;
}

finishes :
    finish_agent_session 5 "s" end_of_session recorded
    ≡ (ok (agent_session_from_row over), record with_demo { agent_sessions = over ∷ [] })
unfolding finish_agent_session close_session read_session agent_session_from_row find_key
    update_where
finishes = refl

finish_agent_session-twice_example :
    finish_agent_session 9 "s" end_of_session (record with_demo { agent_sessions = over ∷ [] })
    ≡ (ok (agent_session_from_row over), record with_demo { agent_sessions = over ∷ [] })
finish_agent_session-twice_example =
    finish_agent_session-twice 5 9 "s" end_of_session recorded (agent_session_from_row over)
      (record with_demo { agent_sessions = over ∷ [] }) finishes

abbrev hook : AgentEventRequest
hook = record {
  session_id = "s";
  provider = "codex";
  provider_session_id = "p";
  provider_turn_id = none;
  event = prompt_submitted "again";
}

abbrev first_turn : AgentTurn
first_turn = new_turn "t1" hook "first" 3

abbrev prompted : Db
prompted = record recorded { agent_turns = first_turn ∷ [] }

abbrev prompted_again : Db
prompted_again = (submit_prompt 4 "t2" hook "again" prompted).1

submits :
    submit_prompt 4 "t2" hook "again" prompted ≡ (ok (new_turn "t2" hook "again" 4), prompted_again)
unfolding submit_prompt open_turn insert_agent_turn insert_turn get_agent_turn find_provider_turn
    find_key update_where
submits = refl

submit_prompt_one_active_example :
    (active_turns hook prompted_again ≡ new_turn "t2" hook "again" 4 ∷ [])
    × (other_turns hook prompted_again ≡ other_turns hook prompted)
    × (◌≡◌ {A = String} "again" "again")
submit_prompt_one_active_example =
    submit_prompt_one_active 4 "t2" hook "again" prompted (new_turn "t2" hook "again" 4)
      prompted_again refl submits
