-- ===== src/Tests/Daemon.antt =====
-- The results on subscriptions, each applied to a concrete input.
use loomterm.Prelude.{
  ℕ, String, ◌≡◌, refl, pos, sym, ap, ◌∙◌, ◌++◌, ◌==◌, Option, take, select-append, none, some,
  List, [], ◌∷◌, arith, select, select_first, find_key, update_where,
}
use loomterm.Model.Execution.{
  Bytes, ExecutionEvent, exited, running, validate, env_keys, finished_with,
}
use loomterm.Model.Text.{str_is_empty}
use loomterm.Model.Command
use loomterm.Store.Tables.{
  Db, ExecutionRow, EventRow, PayloadJson, started_json, outcome_json, find_execution, insert_event,
}
use loomterm.Store.Executions.{create_execution, mark_running, finish, next_seq}
use loomterm.Store.Executions.Batch.{append_capture_batch}
use loomterm.Store.Rows.{execution_from_row}
use loomterm.Store.Journal.{journal}
use loomterm.Store.Rows.{event_from_row, event_payload}
use loomterm.Store.Reading.Page.{decoded}
use loomterm.Daemon.Live.{Moment, Replay, received, lagged, subscription, handle_subscription}
use loomterm.Daemon.Live.Stored.{stored, Grows}
use loomterm.Daemon.Live.Pages.{IsGoingOn, Grows-refl}
use loomterm.Daemon.Live.Follows.{Follows, IsHistory}
use loomterm.Daemon.Live.Answer.{handle_subscription-Follows}
use loomterm.Tests.Data.{
  plain, begun, begun-IsConsistent, captured, captured-IsConsistent, ended, ended-IsConsistent,
  ended_row, ended_found,
}

abbrev pub begun_row : ExecutionRow
begun_row = record ended_row {
  state = running;
  ended_at_ms = none;
  outcome_json = none;
  captured_bytes = 0;
  last_seq = 1;
}

begun_found : find_execution "e1" begun ≡ some begun_row
unfolding mark_running create_execution next_seq insert_event select select_first find_key
    update_where validate str_is_empty env_keys Command.validate
begun_found = refl

captured_found :
    find_execution "e1" captured ≡ some (record begun_row { captured_bytes = 3; last_seq = 3 })
unfolding append_capture_batch mark_running create_execution next_seq insert_event select
    select_first find_key update_where validate str_is_empty env_keys Command.validate
captured_found = refl

-- The finished event is received; what was written before it is lost by the channel.
abbrev last_event : ExecutionEvent
last_event = record {
  execution_id = "e1";
  seq = 4;
  timestamp_ms = 20;
  payload = finished_with (exited (pos 0));
}

-- Between the first wakeup and the replay that it leads to, output is written.
abbrev first : Replay
first = record { turns = 5; pages = λ n. begun }

abbrev growing : Replay
growing = record { turns = 5; pages = λ n. captured }

abbrev at_end : Replay
at_end = record { turns = 5; pages = λ n. ended }

abbrev moments : List Moment
moments =
    record { db = begun; replay = growing; wakeup = lagged }
    ∷ record { db = ended; replay = at_end; wakeup = received last_event }
    ∷ []

abbrev written_row : ℕ → ℕ → String → Option String → Option Bytes → Option PayloadJson → EventRow
written_row n time kind stream blob payload = record {
  execution_id = "e1";
  seq = n;
  timestamp_ms = time;
  kind = kind;
  stream = stream;
  blob = blob;
  payload_json = payload;
}

abbrev pub first_rows : List EventRow
first_rows = written_row 1 11 "started" none none (some (started_json 77 (pos 77))) ∷ []

abbrev pub output_rows : List EventRow
output_rows =
    written_row 2 12 "output" (some "stdout") (some (1 ∷ 2 ∷ [])) none
    ∷ written_row 3 13 "output" (some "stderr") (some (3 ∷ [])) none
    ∷ []

abbrev pub last_rows : List EventRow
last_rows = written_row 4 20 "finished" none none (some (outcome_json (exited (pos 0)))) ∷ []

pub begun_events : begun.events ≡ first_rows
unfolding mark_running create_execution next_seq insert_event select select_first find_key
    update_where validate str_is_empty env_keys Command.validate
begun_events = refl

pub captured_events : captured.events ≡ first_rows ++ output_rows
unfolding append_capture_batch mark_running create_execution next_seq insert_event select
    select_first find_key update_where validate str_is_empty env_keys Command.validate
captured_events = refl

pub ended_events : ended.events ≡ first_rows ++ output_rows ++ last_rows
unfolding finish append_capture_batch mark_running create_execution next_seq insert_event select
    select_first find_key update_where validate str_is_empty env_keys Command.validate
ended_events = refl

grows :
    (older newer : Db) (rows more : List EventRow)
    → older.events ≡ rows
    → newer.events ≡ rows ++ more
    → Grows plain "e1" older newer
unfolding journal
grows older newer rows more o n = (
  journal "e1" more,
  ap (journal "e1") n
      ∙ select-append (λ e. e.execution_id == "e1") rows more
      ∙ sym (ap (λ l. journal "e1" l ++ journal "e1" more) o),
)

-- The event that is received is the one that is stored.
last_stored : take 1 (stored plain "e1" ended 3) ≡ last_event ∷ []
unfolding journal decoded plain event_from_row event_payload select
last_stored = rw ended_events refl

begun-Grows : Grows plain "e1" begun captured
begun-Grows = grows begun captured first_rows output_rows begun_events captured_events

first-IsGoingOn : IsGoingOn plain "e1" begun first
unfolding journal select
first-IsGoingOn = record {
  consistent = λ n. begun-IsConsistent;
  there = λ n. (_, begun_found);
  later = λ n. Grows-refl plain "e1" begun;
  since = λ n. Grows-refl plain "e1" begun;
  enough = rw begun_events (omega arith);
}

growing-IsGoingOn : IsGoingOn plain "e1" begun growing
unfolding journal select
growing-IsGoingOn = record {
  consistent = λ n. captured-IsConsistent;
  there = λ n. (_, captured_found);
  later = λ n. Grows-refl plain "e1" captured;
  since = λ n. begun-Grows;
  enough = rw captured_events (omega arith);
}

at_end-IsGoingOn : IsGoingOn plain "e1" ended at_end
unfolding journal select
at_end-IsGoingOn = record {
  consistent = λ n. ended-IsConsistent;
  there = λ n. (_, ended_found);
  later = λ n. Grows-refl plain "e1" ended;
  since = λ n. Grows-refl plain "e1" ended;
  enough = rw ended_events (omega arith);
}

moments-IsHistory : IsHistory plain "e1" begun moments
moments-IsHistory = (
  begun-IsConsistent,
  Grows-refl plain "e1" begun,
  tt,
  growing-IsGoingOn,
  (
    ended-IsConsistent,
    grows captured ended (first_rows ++ output_rows) last_rows captured_events ended_events,
    λ owner. last_stored,
    at_end-IsGoingOn,
    tt,
  ),
)

handle_subscription-Follows_example :
    ((handle_subscription plain 30 "e1" (λ n m. "") 0 begun first moments).0
      ≡ subscription (execution_from_row 30 begun_row) 0)
    × Follows plain 30 "e1" 0 ended []
        (handle_subscription plain 30 "e1" (λ n m. "") 0 begun first moments).1
handle_subscription-Follows_example =
    handle_subscription-Follows plain 30 "e1" 0 (λ n m. "") begun first moments begun_row
      begun-IsConsistent begun_found (omega arith) first-IsGoingOn moments-IsHistory
