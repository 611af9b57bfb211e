-- ===== src/Tests/Task.antt =====
-- The results on the task of an execution, each applied to a concrete input.
use loomterm.Prelude.{
  List, ℕ, ◌+◌, ◌≡◌, refl, pos, true, false, none, [], ◌∷◌, eqb, if◌then◌else◌, Bool-cases, inl,
  inr,
}
use loomterm.Result.{ok}
use loomterm.Model.Execution.{stdout, cancelled, was_cancelled, exited}
use loomterm.Store.Journal.{IsConsistent}
use loomterm.Store.Executions.{finish}
use loomterm.Store.Executions.Consistency.{finish-Keeps}
use loomterm.Executor.Task.{
  Turn, World, Surroundings, started_frame, output_frame, finished_frame, written, run_task,
}
use loomterm.Executor.Task.Calls.{After, HasEnded, IsHarmless, finish-HasEnded}
use loomterm.Executor.Task.Ends.{run_task-Ends}
use loomterm.Executor.Cancel.{Control, Receive, event_or_lag, channel_closed, cancel}
use loomterm.Store.Tables.{find_execution}
use loomterm.Executor.Cancel.Request.{IsRequestedOf, found_db}
use loomterm.Executor.Cancel.Answer.{Answered, cancel-Answered}
use loomterm.Tests.Data.{plain, created, created-IsConsistent}

-- The execution is cancelled by another task before the third call of the store.
abbrev turns : ℕ → Turn
turns n = record {
  now = 20 + n;
  failure = none;
  others = λ db. if eqb n 2 then (finish 19 "e1" cancelled (was_cancelled none) db).1 else db;
}

turns-IsHarmless : (n : ℕ) → IsHarmless "e1" (turns n)
turns-IsHarmless n = elim (Bool-cases (eqb n 2)) [
  | inl third ↦ record {
    answers = refl;
    consistent = λ db c. rw third ((finish-Keeps 19 "e1" cancelled (was_cancelled none)).at db c);
    stays = λ db c e. rw third (finish-HasEnded 19 "e1" cancelled (was_cancelled none) db c refl);
  }
  | inr other ↦ record {
    answers = refl;
    consistent = λ db c. rw other c;
    stays = λ db c e. rw other e;
  }
]

abbrev surroundings : Surroundings
surroundings = record {
  has_permit = true;
  spawned = none;
  spawn_sent = true;
  frames =
      started_frame 77 (pos 77) ∷ output_frame stdout "110" ∷ finished_frame (exited (pos 0)) ∷ [];
  capture_takes = true;
  flushed = ok tt;
  control = written;
  exit_status = ok "exit status: 0";
  capture_limit = 100;
  retention_days = 30;
  retention_bytes = 1000;
  error_text = λ e. "error";
}

abbrev world : World
world = record {
  db = created;
  calls = 0;
  cancels = 0;
  notified = [];
  records = [];
  has_process = false;
  fatal = none;
}

run_task-Ends_example :
    IsConsistent (run_task turns "e1" plain surroundings world).db
    × HasEnded "e1" (run_task turns "e1" plain surroundings world).db
    × ((run_task turns "e1" plain surroundings world).has_process ≡ false)
run_task-Ends_example =
    run_task-Ends turns "e1" turns-IsHarmless plain surroundings world refl created-IsConsistent

abbrev control : Control
control = record { is_there = true; is_open = true }

abbrev receives : List Receive
receives = event_or_lag ∷ channel_closed ∷ []

cancel-Answered_example :
    IsRequestedOf turns "e1" turns-IsHarmless control
      (find_execution "e1" (found_db turns "e1" turns-IsHarmless control world))
      world
      (cancel turns "e1" control receives world).0
      (cancel turns "e1" control receives world).1
    × After
        (Answered turns "e1" turns-IsHarmless control)
        (cancel turns "e1" control receives world).0
        (cancel turns "e1" control receives world).1
cancel-Answered_example =
    cancel-Answered turns "e1" turns-IsHarmless control receives world created-IsConsistent
