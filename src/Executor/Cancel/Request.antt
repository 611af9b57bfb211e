-- ===== src/Executor/Cancel/Request.antt =====
-- What `cancel` asks for, by the state of the execution that it read.
use loomterm.Prelude.{
  ℕ, ◌+◌, String, ◌≡◌, refl, ◌∙◌, ◌&&◌, none, some, Option, List, [], ◌∷◌, inl, inr, if◌then◌else◌,
  arith, Bool-cases, Option-cases,
}
use loomterm.Result.{
  Result, ok, err, Error, already_terminal, protocol, timeout, execution_not_found,
}
use loomterm.Result.Run.{Action, continue, ◌>>=◌, pure, raise}
use loomterm.Model.Execution.{
  Execution, ExecutionState, queued, running, finished, cancelled, interrupted, was_cancelled,
  is_terminal,
}
use loomterm.Store.Tables.{Db, ExecutionRow, find_execution}
use loomterm.Store.Rows.{execution_from_row}
use loomterm.Store.Journal.{IsConsistent}
use loomterm.Store.Executions.{get_execution}
use loomterm.Store.Executions.Outcomes.{get_execution_missing, get_execution_found}
use loomterm.Executor.Task.{World, Turn, current, finish_with, send_cancel, done}
use loomterm.Executor.Task.Calls.{IsHarmless, HasEnded, answered, finish_with-Ends}
use loomterm.Executor.Cancel.{
  Receive, event_or_lag, channel_closed, Control, request_cancel, wait_terminal, cancel,
}

module _ (turns : ℕ → Turn) (id : String) (harmless : (n : ℕ) → IsHarmless id (turns n))
    (control : Control) where
  -- The database as the first call of the store finds it.
  abbrev pub found_db : World → Db
  found_db w = (turns w.calls).others w.db

  -- The state after that call, which reads only.
  abbrev read_world : World → World
  read_world w = record w { db = found_db w; calls = w.calls + 1 }

  -- No command is sent, and an execution that has ended stays so.
  abbrev Stays : World → World → Type 0
  Stays w w' =
      (w'.cancels ≡ w.cancels)
      × (IsConsistent w.db → HasEnded id w.db → IsConsistent w'.db × HasEnded id w'.db)

  Stays-trans : (u v w : World) → Stays u v → Stays v w → Stays u w
  Stays-trans u v w h k = (k.0 ∙ h.0, λ c e. let (c', e') = h.1 c e in k.1 c' e')

  read_as :
      (w : World) (execution : Execution)
      → get_execution (turns w.calls).now id (found_db w) ≡ (ok execution, found_db w)
      → current turns id w ≡ (ok execution, read_world w)
  read_as w execution h = answered turns id harmless (λ now. get_execution now id) w ∙ rw h refl

  read_missing :
      (w : World)
      → find_execution id (found_db w) ≡ none
      → current turns id w ≡ (err (execution_not_found id), read_world w)
  read_missing w gone =
      answered turns id harmless (λ now. get_execution now id) w
      ∙ rw (get_execution_missing (turns w.calls).now id (found_db w) gone) refl

  read_Stays : (w : World) → Stays w (read_world w)
  read_Stays w =
      (refl, λ c e. ((harmless w.calls).consistent w.db c, (harmless w.calls).stays w.db c e))

  turn_Stays :
      (next : Action World Execution) (w : World)
      → ((v : World) → Stays v (next v).1)
      → Stays w
          ((current turns id >>= λ execution.
              if is_terminal execution.state then pure execution else next)
            w).1
  turn_Stays next w h = elim (Option-cases (find_execution id (found_db w))) [
    | inl gone ↦ rw (read_missing w gone) (read_Stays w)
    | inr (r, found) ↦
        let execution = execution_from_row (turns w.calls).now r in
        let read =
          read_as w execution (get_execution_found (turns w.calls).now id (found_db w) found) in
        rw read (elim (Bool-cases (is_terminal execution.state)) [
          | inl over ↦ rw over (read_Stays w)
          | inr live ↦ rw live (
              Stays-trans w (read_world w) (next (read_world w)).1 (read_Stays w)
                (h (read_world w)))
        ])
  ]

  wait_Stays :
      (receives : List Receive) (w : World) → Stays w (wait_terminal turns id control receives w).1
  unfolding wait_terminal
  wait_Stays [] w = turn_Stays (raise timeout) w (λ v. (refl, λ c e. (c, e)))
  wait_Stays (channel_closed ∷ receives) w =
      turn_Stays (raise (protocol "execution event channel closed")) w (λ v. (refl, λ c e. (c, e)))
  wait_Stays (event_or_lag ∷ receives) w =
      turn_Stays (wait_terminal turns id control receives) w (wait_Stays receives)

  -- What is asked of an execution in a state: a queued one has ended; of one that is running, the
  -- supervisor is sent one command if it takes commands, and else nothing is done and an error is the
  -- answer; of one that has ended nothing is asked, and that is the answer.
  abbrev pub IsRequested : ExecutionState → World → Result Execution → World → Type 0
  IsRequested queued w answer w' = HasEnded id w'.db
  IsRequested running w answer w' =
      if control.is_there && control.is_open
      then w'.cancels ≡ w.cancels + 1
      else (w'.cancels ≡ w.cancels) × (w'.db ≡ found_db w) × ((e : Error) × (answer ≡ err e))
  IsRequested finished w answer w' =
      (answer ≡ err (already_terminal id)) × (w'.cancels ≡ w.cancels) × (w'.db ≡ found_db w)
  IsRequested cancelled w answer w' =
      (answer ≡ err (already_terminal id)) × (w'.cancels ≡ w.cancels) × (w'.db ≡ found_db w)
  IsRequested interrupted w answer w' =
      (answer ≡ err (already_terminal id)) × (w'.cancels ≡ w.cancels) × (w'.db ≡ found_db w)

  abbrev pub IsRequestedOf : Option ExecutionRow → World → Result Execution → World → Type 0
  IsRequestedOf none w answer w' =
      (answer ≡ err (execution_not_found id)) × (w'.cancels ≡ w.cancels) × (w'.db ≡ found_db w)
  IsRequestedOf (some r) w answer w' = IsRequested r.state w answer w'

  -- What is left when the execution was asked to end.
  asked : List Receive → ExecutionState → World → Result Execution × World
  asked receives state w =
      let (r, v) = request_cancel turns id control state w in
      continue r v (λ unit. wait_terminal turns id control receives)

  -- An execution that has ended stays so while its end is waited for.
  ended_wait :
      (receives : List Receive) (r : Result (Unit {0})) (w : World)
      → IsConsistent w.db
      → HasEnded id w.db
      → HasEnded id (continue r w (λ unit. wait_terminal turns id control receives)).1.db
  ended_wait receives (ok unit) w c e = ((wait_Stays receives w).1 c e).1
  ended_wait receives (err error) w c e = e

  queued_sent :
      (r : Result (Unit {0})) (w : World)
      → (continue r w (λ unit. if control.is_there then send_cancel else done)).1.db ≡ w.db
  queued_sent (ok unit) w = ground arith
  queued_sent (err error) w = refl

  asked-IsRequested :
      (receives : List Receive) (state : ExecutionState) (w : World)
      → IsConsistent (found_db w)
      → let (answer, w') = asked receives state (read_world w) in IsRequested state w answer w'
  unfolding asked request_cancel wait_terminal
  asked-IsRequested receives queued w c =
      let (r, v) = finish_with turns id cancelled (was_cancelled none) (read_world w) in
      let (c', e) =
        finish_with-Ends turns id harmless cancelled (was_cancelled none) (read_world w) refl c in
      let same = queued_sent r v in
      ended_wait receives (continue r v (λ unit. if control.is_there then send_cancel else done)).0
        (continue r v (λ unit. if control.is_there then send_cancel else done)).1 (rw same c')
        (rw same e)
  asked-IsRequested receives running w c = elim (Bool-cases control.is_there) [
    | inr gone ↦ rw gone (refl, refl, (_, refl))
    | inl there ↦ elim (Bool-cases control.is_open) [
      | inr closed ↦ rw (there, closed) (refl, refl, (_, refl))
      | inl takes ↦
          let sent : World = record (read_world w) { cancels = w.cancels + 1 } in
          rw (there, takes) (wait_Stays receives sent).0
    ]
  ]
  asked-IsRequested receives finished w c = (refl, refl, refl)
  asked-IsRequested receives cancelled w c = (refl, refl, refl)
  asked-IsRequested receives interrupted w c = (refl, refl, refl)

  pub cancel-IsRequested :
      (receives : List Receive) (w : World)
      → IsConsistent w.db
      → let (answer, w') = cancel turns id control receives w in
        IsRequestedOf (find_execution id (found_db w)) w answer w'
  unfolding cancel asked execution_from_row
  cancel-IsRequested receives w c = elim (Option-cases (find_execution id (found_db w))) [
    | inl gone ↦ rw (gone, read_missing w gone) (refl, refl, refl)
    | inr (r, found) ↦
        let execution = execution_from_row (turns w.calls).now r in
        let read =
          read_as w execution (get_execution_found (turns w.calls).now id (found_db w) found) in
        rw (found, read)
          (asked-IsRequested receives r.state w ((harmless w.calls).consistent w.db c))
  ]
