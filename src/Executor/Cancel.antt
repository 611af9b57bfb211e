-- ===== src/Executor/Cancel.antt =====
-- `cancel` of src/executor.rs, between the calls of other tasks as in Executor/Task.
pub mod Answer
pub mod Request
use loomterm.Prelude.{String, Bool, true, false, List, [], ◌∷◌, ◌<>◌, if◌then◌else◌, ℕ, none}
use loomterm.Result.{Error, protocol, timeout, already_terminal}
use loomterm.Result.Run.{Action, ◌>>=◌, ◌>>◌, pure, raise}
use loomterm.Model.Execution.{
  Execution, ExecutionState, queued, running, finished, cancelled, interrupted, was_cancelled,
  is_terminal,
}
use loomterm.Executor.Task.{World, Turn, call, current, finish_with, send_cancel, done}

-- What the broadcast channel gives to the loop, before the time is up.
pub data Receive : Type 0 where
  event_or_lag : Receive
  channel_closed : Receive

-- Whether there is a handle of the supervisor, and whether it takes a command.
pub record Control : Type 0 where
  pub is_there : Bool
  pub is_open : Bool

module _ (turns : ℕ → Turn) (id : String) (control : Control) where
  abbrev cancel_supervisor : Action World (Unit {0})
  cancel_supervisor =
      if control.is_there
      then (if control.is_open
          then send_cancel
          else raise (protocol "supervisor control writer stopped"))
      else raise (protocol ("execution " <> id <> " is running but has no supervisor handle"))

  -- What is done under the lock, by the state that was read.
  unfoldable pub request_cancel : ExecutionState → Action World (Unit {0})
  request_cancel queued =
      finish_with turns id cancelled (was_cancelled none)
      >> (if control.is_there then send_cancel else done)
  request_cancel running = cancel_supervisor
  request_cancel finished = raise (already_terminal id)
  request_cancel cancelled = raise (already_terminal id)
  request_cancel interrupted = raise (already_terminal id)

  -- The loop; when the list is at its end the time is up.
  unfoldable pub wait_terminal : List Receive → Action World Execution
  unfolding call
  wait_terminal [] = current turns id >>= λ execution.
      if is_terminal execution.state then pure execution else raise timeout
  wait_terminal (channel_closed ∷ receives) = current turns id >>= λ execution.
      if is_terminal execution.state
      then pure execution
      else raise (protocol "execution event channel closed")
  wait_terminal (event_or_lag ∷ receives) = current turns id >>= λ execution.
      if is_terminal execution.state then pure execution else wait_terminal receives

  unfoldable pub cancel : List Receive → Action World Execution
  unfolding request_cancel wait_terminal
  cancel receives =
      (current turns id >>= λ execution. request_cancel execution.state) >> wait_terminal receives
