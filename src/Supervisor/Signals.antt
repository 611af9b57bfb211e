-- ===== src/Supervisor/Signals.antt =====
-- The runs of the loop of `run` in src/supervisor.rs, and the signals that they send.
use loomterm.Prelude.{
  ℤ, String, pos, ◌≡◌, Bool, true, false, Option, none, some, List, [], ◌∷◌, ◌++◌, is_some,
  is_empty,
}
use loomterm.Supervisor.{
  Signal, sigterm, sigkill, ExitStatus, Wakeup, Loop, initial_loop, goes_on, is_enabled, wake,
  armed,
}
use loomterm.Model.Execution.{ExecutionOutcome, exited, signaled, was_cancelled, was_interrupted}

-- `Runs s signals`: enabled wakeups lead from the beginning to `s` and send the signals.
pub data Runs : Loop → List Signal → Type 0 where
  begins : Runs initial_loop []
  steps :
      {s s' : Loop} {signals sent : List Signal} (w : Wakeup)
      → Runs s signals
      → is_enabled s w ≡ true
      → wake s w ≡ (sent, goes_on s')
      → Runs s' (signals ++ sent)

-- The signals that were sent in a state, in their order.
abbrev pub signals_of : Bool → Bool → List Signal
signals_of false armed = []
signals_of true true = sigterm ∷ []
signals_of true false = sigterm ∷ sigkill ∷ []

abbrev pub Implies : Bool → Bool → Type 0
Implies true b = b ≡ true
Implies false b = Unit

pub record IsOrderly (s : Loop) (signals : List Signal) : Type 0 where
  -- No signal, then SIGTERM and a deadline, then SIGKILL and no deadline.
  pub sent : signals ≡ signals_of s.is_cancelled s.is_armed
  pub deadline : Implies s.is_armed s.is_cancelled
  -- A child that has exited is waited for only up to a deadline.
  pub waits : Implies (is_some s.exit_status) s.is_armed
  pub gone : Implies s.is_daemon_gone s.is_cancelled
  pub failed : Implies (is_some s.interrupted_reason) s.is_cancelled

abbrev pub was_left_alone : Option ExecutionOutcome → Bool
was_left_alone none = false
was_left_alone (some (exited code)) = true
was_left_alone (some (signaled signal)) = true
was_left_alone (some _) = false

-- The end of a child by itself: its exit code, or else the signal, where the system knows one.
abbrev pub end_of : Option ℤ → Option ℤ → ExecutionOutcome
end_of (some code) signal = exited code
end_of none (some signal) = signaled signal
end_of none none = signaled (pos 0)

-- The end of a child that was stopped: a failure of the capture goes before a cancellation.
abbrev pub stopped_by : Option String → Option ℤ → ExecutionOutcome
stopped_by (some reason) signal = was_interrupted reason
stopped_by none signal = was_cancelled signal

pub record IsReported (status : ExitStatus) (s : Loop) (signals : List Signal)
    (reported : Option ExecutionOutcome) : Type 0 where
  pub left_alone : was_left_alone reported ≡ is_empty signals
  pub ended : is_empty signals ≡ true → reported ≡ some (end_of status.code status.signal)
  pub stopped :
      is_empty signals ≡ false
      → s.is_daemon_gone ≡ false
      → reported ≡ some (stopped_by s.interrupted_reason status.signal)
  pub gone : s.is_daemon_gone ≡ true → reported ≡ none
