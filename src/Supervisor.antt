-- ===== src/Supervisor.antt =====
-- The loop of `run` in src/supervisor.rs that waits for the child of a supervisor, and the outcome
-- that it reports. What the operating system answers is part of an event.
pub mod Signals
use loomterm.Prelude.{
  ℕ, ℤ, String, Bool, true, false, not, ◌&&◌, ◌||◌, Option, none, some, List, [], ◌∷◌, ◌++◌,
  is_some, if◌then◌else◌, pos,
}
use loomterm.Result.{Error, Result, ok, err}
use loomterm.Model.Execution.{ExecutionOutcome, exited, signaled, was_cancelled, was_interrupted}

pub data Signal : Type 0 where
  sigterm sigkill : Signal

-- `ExitStatus`: `code()` and `signal()`.
pub record ExitStatus : Type 0 where
  pub code : Option ℤ
  pub signal : Option ℤ

-- What `select!` can be woken by. The child's exit comes with `process_group_alive`; a cancellation
-- with the answer of `terminate`; the others ignore that answer.
pub data Wakeup : Type 0 where
  child_exited : ExitStatus → Bool → Wakeup
  cancel : Result (Unit {0}) → Wakeup
  daemon_gone : Wakeup
  capture_failed : String → Wakeup
  channel_closed : Wakeup
  deadline_reached : Wakeup

-- The local variables of the loop; `is_armed` is `kill_deadline.is_some()`.
pub record Loop : Type 0 where
  pub is_cancelled : Bool
  pub is_daemon_gone : Bool
  pub interrupted_reason : Option String
  pub is_armed : Bool
  pub exit_status : Option ExitStatus

abbrev pub initial_loop : Loop
initial_loop = record {
  is_cancelled = false;
  is_daemon_gone = false;
  interrupted_reason = none;
  is_armed = false;
  exit_status = none;
}

pub data Next : Type 0 where
  goes_on : Loop → Next
  leaves : ExitStatus → Loop → Next
  fails : Error → Next

-- The branches with a guard: the child is waited for until it exits, the deadline when it is set.
abbrev pub is_enabled : Loop → Wakeup → Bool
is_enabled s (child_exited status alive) = not (is_some s.exit_status)
is_enabled s (cancel answer) = true
is_enabled s daemon_gone = true
is_enabled s (capture_failed reason) = true
is_enabled s channel_closed = true
is_enabled s deadline_reached = s.is_armed

abbrev pub armed : Loop → Loop
armed s = record s { is_cancelled = true; is_armed = true }

-- The signals that the branch sends to the process group, and where the loop stands behind it.
unfoldable pub wake : Loop → Wakeup → List Signal × Next
wake s (child_exited status alive) =
    if not s.is_armed || not alive
    then ([], leaves status s)
    else ([], goes_on (record s { exit_status = some status }))
wake s (cancel answer) =
    if s.is_cancelled
    then ([], goes_on s)
    else (sigterm ∷ [], elim answer [ ok u ↦ goes_on (armed s) | err e ↦ fails e ])
wake s daemon_gone =
    let s' = record s { is_daemon_gone = true } in
    if s.is_cancelled then ([], goes_on s') else (sigterm ∷ [], goes_on (armed s'))
wake s (capture_failed reason) =
    let s' = record s { interrupted_reason = some reason } in
    if s.is_cancelled then ([], goes_on s') else (sigterm ∷ [], goes_on (armed s'))
wake s channel_closed = ([], goes_on s)
wake s deadline_reached = (
  sigkill ∷ [],
  elim s.exit_status [
    | some status ↦ leaves status (record s { is_armed = false; exit_status = none })
    | none ↦ goes_on (record s { is_armed = false })
  ],
)

abbrev or_zero : Option ℤ → ℤ
or_zero none = pos 0
or_zero (some n) = n

-- The outcome that is reported; nothing is when the daemon is gone.
unfoldable pub outcome : ExitStatus → Loop → Option ExecutionOutcome
outcome status s = if s.is_daemon_gone then none else elim s.interrupted_reason [
  | some reason ↦ some (was_interrupted reason)
  | none ↦ if s.is_cancelled then some (was_cancelled status.signal) else elim status.code [
    | some code ↦ some (exited code)
    | none ↦ some (signaled (or_zero status.signal))
  ]
]
