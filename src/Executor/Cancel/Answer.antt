-- ===== src/Executor/Cancel/Answer.antt =====
-- What `cancel` answers.
use loomterm.Prelude.{ℕ, String, ◌≡◌, refl, true, none, List, [], ◌∷◌, if◌then◌else◌}
use loomterm.Result.{Error}
use loomterm.Result.Run.{Action, ◌>>=◌, pure, raise}
use loomterm.Model.Execution.{
  Execution, ExecutionState, queued, running, finished, cancelled, interrupted, was_cancelled,
  is_terminal,
}
use loomterm.Store.Tables.{find_execution}
use loomterm.Executor.Cancel.Request.{IsRequestedOf, found_db, cancel-IsRequested}
use loomterm.Store.Journal.{IsConsistent}
use loomterm.Executor.Task.{World, Turn, current}
use loomterm.Executor.Task.Calls.{
  IsHarmless, After, Leads, Leads-bind, Leads-if, Any, Ended, Leads-finish_with, Leads-current,
}
use loomterm.Executor.Cancel.{
  Receive, event_or_lag, channel_closed, Control, request_cancel, wait_terminal, cancel,
}

module _ (turns : ℕ → Turn) (id : String) (harmless : (n : ℕ) → IsHarmless id (turns n))
    (control : Control) where
  -- The execution that is answered is terminal, and so it is in the database.
  abbrev pub Answered : Execution → World → Type 0
  Answered execution w = (is_terminal execution.state ≡ true) × Ended turns id harmless w

  Leads-raise : {A : Type 0} (e : Error) (Q : A → World → Type 0) → Leads Any (raise e) Q
  Leads-raise e Q = record { at = λ w c r. c }

  Leads-request :
      (state : ExecutionState) → Leads Any (request_cancel turns id control state) (λ unit. Any)
  unfolding request_cancel
  Leads-request queued =
      Leads-bind Any (λ unit. Ended turns id harmless) (λ unit. Any) _ _
        (Leads-finish_with turns id harmless cancelled (was_cancelled none) refl)
        λ unit.
          Leads-if _ (λ unit. Any) control.is_there _ _ (λ there. record { at = λ w c r. (c, tt) })
            (λ gone. record { at = λ w c r. (c, tt) })
  Leads-request running =
      Leads-if Any (λ unit. Any) control.is_there _ _
        (λ there.
          Leads-if Any (λ unit. Any) control.is_open _ _ (λ takes. record { at = λ w c r. (c, tt) })
            (λ closed. Leads-raise _ _))
        (λ gone. Leads-raise _ _)
  Leads-request finished = Leads-raise _ _
  Leads-request cancelled = Leads-raise _ _
  Leads-request interrupted = Leads-raise _ _

  -- A turn of the loop: what was read is the answer if it is terminal.
  Leads-turn :
      (next : Action World Execution)
      → Leads Any next Answered
      → Leads Any
          (current turns id >>= λ execution.
            if is_terminal execution.state then pure execution else next)
          Answered
  Leads-turn next h =
      Leads-bind Any (λ e w. is_terminal e.state ≡ true → Ended turns id harmless w) Answered
        (current turns id) _ (Leads-current turns id harmless)
        λ execution.
          Leads-if _ Answered (is_terminal execution.state) _ _
            (λ over. record { at = λ w c ended. (c, (over, ended over)) })
            (λ live. record { at = λ w c ended. h.at w c tt })

  Leads-wait :
      (receives : List Receive) → Leads Any (wait_terminal turns id control receives) Answered
  unfolding wait_terminal
  Leads-wait [] = Leads-turn _ (Leads-raise _ _)
  Leads-wait (channel_closed ∷ receives) = Leads-turn _ (Leads-raise _ _)
  Leads-wait (event_or_lag ∷ receives) = Leads-turn _ (Leads-wait receives)

  Leads-cancel : (receives : List Receive) → Leads Any (cancel turns id control receives) Answered
  unfolding cancel
  Leads-cancel receives =
      Leads-bind Any (λ unit. Any) Answered _ _
        (Leads-bind Any (λ e w. is_terminal e.state ≡ true → Ended turns id harmless w)
          (λ unit. Any) (current turns id) _ (Leads-current turns id harmless)
          λ execution. record { at = λ w c h. (Leads-request execution.state).at w c tt })
        λ unit. Leads-wait receives

  -- Whatever the other tasks do between the calls, as long as the store does not fail and they leave
  -- the database consistent and an execution that has ended as it is: by the state of the execution
  -- that `cancel` reads first, a queued one has ended behind it; of a running one the supervisor is
  -- sent one command if it takes commands, and otherwise nothing is changed and the answer is an
  -- error; for one that has ended and for one that is missing the answer is the error that says so,
  -- no command is sent and nothing is changed. If the answer is an execution, that is terminal, and it
  -- is so in the database, or gone from it; the database is consistent in any case.
  pub cancel-Answered :
      (receives : List Receive) (w : World)
      → IsConsistent w.db
      → let (answer, w') = cancel turns id control receives w in
        IsRequestedOf turns id harmless control
          (find_execution id (found_db turns id harmless control w))
          w
          answer
          w'
        × After Answered answer w'
  cancel-Answered receives w c =
      (cancel-IsRequested turns id harmless control receives w c, (Leads-cancel receives).at w c tt)
