-- ===== src/Executor/Task/Ends.antt =====
-- An execution whose task ran has ended.
use loomterm.Prelude.{
  ℕ, ℤ, ◌⊎◌, String, ◌≡◌, refl, ◌<>◌, Bool, true, false, not, Option, none, some, List, [], ◌∷◌,
  arith, inl, inr, Bool-cases,
}
use loomterm.Result.{Result, ok, err, protocol}
use loomterm.Result.Run.{raise, lift}
use loomterm.Model.Execution.{
  Base64, Bytes, OutputStream, ExecutionOutcome, interrupted, finished, is_terminal, exited,
  signaled, spawn_error, was_cancelled, was_interrupted,
}
use loomterm.Store.Journal.{IsConsistent}
use loomterm.Store.Retention.{prune}
use loomterm.Store.Retention.Budget.{prune-Keeps}
use loomterm.Store.Retention.Remainder.{prune-IsRemainder}
use loomterm.Executor.Capture.{CaptureState, not_captured}
use loomterm.Executor.Task.{
  World, Turn, Frame, started_frame, output_frame, finished_frame, broken_frame, Surroundings,
  outcome_state, current, finish_with, settle, capture, on_started, on_output, read_frames,
  control_result, prune_quietly, after_frames, supervise, run_execution, run_task, set_process,
  report_fatal,
}
use loomterm.Executor.Task.Calls.{
  HasEnded, IsHarmless, After, Leads, Leads-bind, Leads-if, Leads-lift, Any, Ended,
  finish_once-Ends, Leads-finish_with, Leads-finish_once, Leads-current, Leads-mark_running,
  answered,
}

outcome_state-terminal : (o : ExecutionOutcome) → is_terminal (outcome_state o) ≡ true
outcome_state-terminal (exited code) = refl
outcome_state-terminal (signaled signal) = refl
outcome_state-terminal (spawn_error message) = refl
outcome_state-terminal (was_cancelled signal) = refl
outcome_state-terminal (was_interrupted reason) = refl

module _ (turns : ℕ → Turn) (id : String) (harmless : (n : ℕ) → IsHarmless id (turns n))
    (b64 : Base64) (s : Surroundings) where
  -- When the outcome was received the execution has ended.
  abbrev When : Bool → World → Type 0
  When received w = received ≡ true → Ended turns id harmless w

  Leads-on_started :
      (pid : ℕ) (pgid : ℤ) → Leads Any (on_started turns id b64 s pid pgid) (λ unit. Any)
  Leads-on_started pid pgid =
      Leads-bind Any (λ e w. is_terminal e.state ≡ true → Ended turns id harmless w) (λ unit. Any)
        (current turns id) _ (Leads-current turns id harmless)
        λ execution.
          Leads-if _ (λ unit. Any) (is_terminal execution.state) _ _
            (λ over. record { at = λ w c r. (c, tt) })
            (λ live. record {
              at = λ w c r. (Leads-mark_running turns id harmless pid pgid).at w c tt;
            })

  Leads-capture :
      (state : CaptureState) (stream : OutputStream) (bytes : Bytes)
      → Leads Any (capture turns id b64 s state stream bytes) (λ state'. Any)
  Leads-capture state stream bytes = record {
    at = λ w c r. elim (Bool-cases s.capture_takes) [
      | inl takes ↦ rw takes (c, tt)
      | inr stopped ↦ rw stopped c
    ];
  }

  Leads-decoded :
      (state : CaptureState) (stream : OutputStream) (decoded : String ⊎ Bytes)
      → Leads {A = CaptureState} Any
          (elim decoded [
            | inl error ↦ raise (protocol ("invalid supervisor output: " <> error))
            | inr bytes ↦ capture turns id b64 s state stream bytes
          ])
          (λ state'. Any)
  Leads-decoded state stream (inl error) = record { at = λ w c r. c }
  Leads-decoded state stream (inr bytes) = Leads-capture state stream bytes

  Leads-on_output :
      (state : CaptureState) (stream : OutputStream) (text : String)
      → Leads Any (on_output turns id b64 s state stream text) (λ state'. Any)
  Leads-on_output state stream text = Leads-decoded state stream (b64.decode text)

  Leads-read_frames :
      (state : CaptureState) (frames : List Frame)
      → Leads Any (read_frames turns id b64 s state frames) When
  unfolding read_frames
  Leads-read_frames state [] = record { at = λ w c r. (c, λ h. absurd (ground (arith, h))) }
  Leads-read_frames state (broken_frame error ∷ frames) = record { at = λ w c r. c }
  Leads-read_frames state (started_frame pid pgid ∷ frames) =
      Leads-bind Any (λ unit. Any) When (on_started turns id b64 s pid pgid) _
        (Leads-on_started pid pgid) λ unit. Leads-read_frames state frames
  Leads-read_frames state (output_frame stream text ∷ frames) =
      Leads-bind Any (λ state'. Any) When (on_output turns id b64 s state stream text) _
        (Leads-on_output state stream text) λ state'. Leads-read_frames state' frames
  Leads-read_frames state (finished_frame outcome ∷ frames) =
      Leads-bind Any (λ unit. Ended turns id harmless) When _ _
        (Leads-bind Any (λ unit. Any) (λ unit. Ended turns id harmless) (lift s.flushed) _
          (Leads-lift Any s.flushed)
          λ unit.
            Leads-finish_once turns id harmless (outcome_state outcome) outcome
              (outcome_state-terminal outcome))
        λ unit. record { at = λ w c e. (c, λ h. e) }

  Leads-prune :
      Leads
        (Ended turns id harmless)
        (prune_quietly turns id b64 s)
        (λ unit. Ended turns id harmless)
  Leads-prune = record {
    at = λ w c e.
        let t = turns w.calls in
        let db = t.others w.db in
        let c' = (harmless w.calls).consistent w.db c in
        let e' = (harmless w.calls).stays w.db c e in
        rw (answered turns id harmless (λ now. prune now s.retention_days s.retention_bytes) w) (
          (prune-Keeps t.now s.retention_days s.retention_bytes).at db c',
          elim (prune-IsRemainder t.now s.retention_days s.retention_bytes id db c') [
            | inl same ↦ rw same e'
            | inr gone ↦ rw gone refl
          ],
        );
  }

  Leads-after_frames :
      (received : Bool)
      → Leads
          (When received)
          (after_frames turns id b64 s received)
          (λ unit. Ended turns id harmless)
  Leads-after_frames received =
      Leads-bind (When received) (λ unit. When received) (λ unit. Ended turns id harmless) _ _
        (Leads-bind (When received) (λ unit. When received) (λ unit. When received)
          (set_process false) _ (record { at = λ w c h. (c, h) })
          λ unit. Leads-lift (When received) (control_result turns id b64 s received s.control))
        λ unit.
          Leads-bind (When received) (λ status. When received) (λ unit. Ended turns id harmless)
            (lift s.exit_status) _ (Leads-lift (When received) s.exit_status)
            λ status.
              Leads-bind (When received) (λ unit. Ended turns id harmless)
                (λ unit. Ended turns id harmless) _ _
                (Leads-if (When received) (λ unit. Ended turns id harmless) received _ _
                  (λ yes. record { at = λ w c h. (c, h yes) })
                  (λ no.
                    Leads-bind (When received) (λ unit. Any) (λ unit. Ended turns id harmless)
                      (lift s.flushed) _
                      (record { at = λ w c h. (Leads-lift Any s.flushed).at w c tt })
                      λ unit. Leads-finish_once turns id harmless interrupted _ refl))
                λ unit. Leads-prune

  Leads-supervise : Leads Any (supervise turns id b64 s) (λ unit. Ended turns id harmless)
  Leads-supervise =
      Leads-bind Any (λ unit. Any) (λ unit. Ended turns id harmless) _ _
        (Leads-bind Any (λ unit. Any) (λ unit. Any) _ _
          (Leads-if Any (λ unit. Any) s.spawn_sent _ _ (λ yes. record { at = λ w c h. (c, h) })
            (λ no. record { at = λ w c h. c }))
          λ unit.
            Leads-bind Any (λ e w. is_terminal e.state ≡ true → Ended turns id harmless w)
              (λ unit. Any) (current turns id) _ (Leads-current turns id harmless)
              λ execution.
                Leads-if _ (λ unit. Any) (is_terminal execution.state) _ _
                  (λ over. record { at = λ w c r. (c, tt) })
                  (λ live. record { at = λ w c r. (c, tt) }))
        λ unit.
          Leads-bind Any When (λ unit. Ended turns id harmless) _ _
            (Leads-read_frames not_captured s.frames) Leads-after_frames

  Leads-spawned :
      (spawned : Option String)
      → Leads {A = Unit {0}} Any
          (elim spawned [
            | some error ↦
                finish_with turns id finished
                  (spawn_error ("could not start loom-supervisor: " <> error))
            | none ↦ supervise turns id b64 s
          ])
          (λ unit. Ended turns id harmless)
  Leads-spawned none = Leads-supervise
  Leads-spawned (some error) = Leads-finish_with turns id harmless finished _ refl

  run_execution-Ends :
      s.has_permit ≡ true
      → Leads Any (run_execution turns id b64 s) (λ unit. Ended turns id harmless)
  unfolding run_execution
  run_execution-Ends permit =
      Leads-if Any (λ unit. Ended turns id harmless) (not s.has_permit) _ _
        (λ none_of. absurd (ground (arith, permit, none_of)))
        λ has.
          Leads-bind Any (λ e w. is_terminal e.state ≡ true → Ended turns id harmless w)
            (λ unit. Ended turns id harmless) (current turns id) _ (Leads-current turns id harmless)
            λ execution.
              Leads-if _ (λ unit. Ended turns id harmless) (is_terminal execution.state) _ _
                (λ over. record { at = λ w c h. (c, h over) })
                (λ live. record { at = λ w c h. (Leads-spawned s.spawned).at w c tt })

  settle-Ends :
      (r : Result (Unit {0})) (w : World)
      → After (λ unit. Ended turns id harmless) r w
      → let w' = settle turns id b64 s r w in IsConsistent w'.db × HasEnded id w'.db
  settle-Ends (ok unit) w h = h
  settle-Ends (err error) w h =
      finish_once-Ends turns id harmless interrupted _ (report_fatal turns id b64 s error w) refl h

  -- When the task of an execution got its permit and has run from a consistent database, the
  -- execution is in a terminal state, or gone, and has no process: whatever the supervisor sent,
  -- whether it could be started, whether its pipes, its exit status or the capture writer failed, and
  -- whatever the other tasks did to the database between the calls of the store. The condition is
  -- that the store answers each call of the task, with a refusal at worst, but not with a failure of
  -- the store itself, and that the others leave the database consistent and an execution that has
  -- ended as it is.
  pub run_task-Ends :
      (w : World)
      → s.has_permit ≡ true
      → IsConsistent w.db
      → let w' = run_task turns id b64 s w in
        IsConsistent w'.db × HasEnded id w'.db × (w'.has_process ≡ false)
  unfolding run_task
  run_task-Ends w permit c =
      let after = (run_execution-Ends permit).at w c tt in
      let (c', e) =
        settle-Ends (run_execution turns id b64 s w).0 (run_execution turns id b64 s w).1 after in
      (c', e, refl)
