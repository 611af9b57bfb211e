-- ===== src/Executor/Task.antt =====
-- The task of an execution in src/executor.rs: `run_execution`, and what the closure in `execute`
-- does with its result. Every call of the store is preceded by what other tasks did to the database
-- in the meantime: cancellations, the capture writer, other executions. The locks are left out,
-- which allows more of it.
pub mod Calls
pub mod Ends
use loomterm.Prelude.{
  ℕ, ◌+◌, ℤ, String, Bool, true, false, not, Option, none, some, List, [], ◌∷◌, ◌++◌, ◌<>◌,
  if◌then◌else◌, inl, inr,
}
use loomterm.Result.{Result, ok, err, Error, protocol, storage_unavailable}
use loomterm.Result.Run.{Action, continue, ◌>>=◌, ◌>>◌, pure, raise, lift}
use loomterm.Model.Execution.{
  Base64, Bytes, Execution, ExecutionState, ExecutionEvent, ExecutionOutcome, OutputStream,
  finished, cancelled, interrupted, is_terminal, exited, signaled, spawn_error, was_cancelled,
  was_interrupted,
}
use loomterm.Store.Tables.{Db}
use loomterm.Store.Executions.{get_execution, mark_running, finish}
use loomterm.Store.Executions.Batch.{CaptureRecord}
use loomterm.Store.Retention.{prune}
use loomterm.Executor.Capture.{CaptureState, Chunk, capture_output, not_captured}

-- The time of a call of the store, what others did before it, and how the store fails, if it does:
-- its thread is gone, or SQLite reports an error. What a thread that is gone still wrote is to be
-- counted among what others do before the next call.
pub record Turn : Type 0 where
  pub now : ℕ
  pub failure : Option Error
  pub others : Db → Db

-- `SupervisorEvent`, or a frame that cannot be read.
pub data Frame : Type 0 where
  started_frame : ℕ → ℤ → Frame
  output_frame : OutputStream → String → Frame
  finished_frame : ExecutionOutcome → Frame
  broken_frame : Error → Frame

-- How the task ended that writes the supervisor's commands.
pub data ControlEnd : Type 0 where
  written : ControlEnd
  not_written : Error → ControlEnd
  aborted : String → ControlEnd

-- What the task meets outside the store. `flushed` is the answer to a barrier.
pub record Surroundings : Type 0 where
  pub has_permit : Bool
  pub spawned : Option String
  pub spawn_sent : Bool
  pub frames : List Frame
  pub capture_takes : Bool
  pub flushed : Result (Unit {0})
  pub control : ControlEnd
  pub exit_status : Result String
  pub capture_limit : ℕ
  pub retention_days : ℕ
  pub retention_bytes : ℕ
  pub error_text : Error → String

-- `calls` counts the calls of the store. A command to the supervisor is a cancellation.
pub record World : Type 0 where
  pub db : Db
  pub calls : ℕ
  pub cancels : ℕ
  pub notified : List ExecutionEvent
  pub records : List CaptureRecord
  pub has_process : Bool
  pub fatal : Option String

abbrev pub outcome_state : ExecutionOutcome → ExecutionState
outcome_state (was_cancelled signal) = cancelled
outcome_state (was_interrupted reason) = interrupted
outcome_state (exited code) = finished
outcome_state (signaled signal) = finished
outcome_state (spawn_error message) = finished

abbrev is_storage_unavailable : Error → Bool
is_storage_unavailable (storage_unavailable message) = true
is_storage_unavailable _ = false

abbrev pub done : Action World (Unit {0})
done = pure tt

abbrev pub notify : ExecutionEvent → Action World (Unit {0})
notify event w = (ok tt, record w { notified = w.notified ++ event ∷ [] })

abbrev pub send_cancel : Action World (Unit {0})
send_cancel w = (ok tt, record w { cancels = w.cancels + 1 })

abbrev pub set_process : Bool → Action World (Unit {0})
set_process b w = (ok tt, record w { has_process = b })

module _ (turns : ℕ → Turn) (id : String) where
  unfoldable pub call : {A : Type 0} → (ℕ → Action Db A) → Action World A
  call m w =
      let t = turns w.calls in
      let (r, db) = m t.now (t.others w.db) in
      elim t.failure [
        | none ↦ (r, record w { db = db; calls = w.calls + 1 })
        | some error ↦ (err error, record w { db = t.others w.db; calls = w.calls + 1 })
      ]

  abbrev pub current : Action World Execution
  current = call (λ now. get_execution now id)

  abbrev pub finish_with : ExecutionState → ExecutionOutcome → Action World (Unit {0})
  finish_with state outcome = call (λ now. finish now id state outcome) >>= notify

  -- The execution is finished unless it is terminal.
  abbrev pub finish_once : ExecutionState → ExecutionOutcome → Action World (Unit {0})
  finish_once state outcome = current >>= λ execution.
      if is_terminal execution.state then done else finish_with state outcome

  module _ (b64 : Base64) (s : Surroundings) where
    abbrev pub capture : CaptureState → OutputStream → Bytes → Action World CaptureState
    capture state stream bytes w =
        let chunk : Chunk = record {
          timestamp_ms = (turns w.calls).now;
          stream = stream;
          bytes = bytes;
        } in
        let (records, state') = capture_output id s.capture_limit state chunk in
        if s.capture_takes
        then (ok state', record w { records = w.records ++ records })
        else (err (protocol "capture writer stopped"), w)

    abbrev pub on_started : ℕ → ℤ → Action World (Unit {0})
    on_started pid pgid = current >>= λ execution.
        if is_terminal execution.state
        then send_cancel
        else call (λ now. mark_running now id pid pgid) >>= notify

    abbrev pub on_output : CaptureState → OutputStream → String → Action World CaptureState
    on_output state stream data_base64 = elim (b64.decode data_base64) [
      | inl error ↦ raise (protocol ("invalid supervisor output: " <> error))
      | inr bytes ↦ capture state stream bytes
    ]

    -- The loop over the frames: whether the outcome was received.
    unfoldable pub read_frames : CaptureState → List Frame → Action World Bool
    unfolding call capture_output
    read_frames state [] = pure false
    read_frames state (broken_frame error ∷ frames) = raise error
    read_frames state (started_frame pid pgid ∷ frames) =
        on_started pid pgid >> read_frames state frames
    read_frames state (output_frame stream text ∷ frames) =
        on_output state stream text >>= λ state'. read_frames state' frames
    read_frames state (finished_frame outcome ∷ frames) =
        lift s.flushed >> finish_once (outcome_state outcome) outcome >> pure true

    abbrev pub control_result : Bool → ControlEnd → Result (Unit {0})
    control_result received written = ok tt
    control_result true (not_written error) = ok tt
    control_result false (not_written error) = err error
    control_result received (aborted error) =
        err (protocol ("supervisor control task failed: " <> error))

    -- An error of `prune` is logged.
    abbrev pub prune_quietly : Action World (Unit {0})
    prune_quietly w = (ok tt, (call (λ now. prune now s.retention_days s.retention_bytes) w).1)

    abbrev pub after_frames : Bool → Action World (Unit {0})
    after_frames received =
        set_process false
        >> lift (control_result received s.control)
        >> (lift s.exit_status >>= λ status.
            (if received
              then done
              else lift s.flushed
                >> finish_once interrupted (
                    was_interrupted
                      ("loom-supervisor exited without a terminal event: " <> status)))
            >> prune_quietly)

    abbrev pub supervise : Action World (Unit {0})
    supervise =
        (if s.spawn_sent then done else raise (protocol "supervisor control writer stopped"))
        >> (current >>= λ execution.
            if is_terminal execution.state then send_cancel else set_process true)
        >> (read_frames not_captured s.frames >>= after_frames)

    unfoldable pub run_execution : Action World (Unit {0})
    unfolding call read_frames
    run_execution =
        if not s.has_permit
        then done
        else current >>= λ execution. if is_terminal execution.state then done else elim s.spawned [
          | some error ↦
              finish_with finished (spawn_error ("could not start loom-supervisor: " <> error))
          | none ↦ supervise
        ]

    abbrev pub report_fatal : Error → World → World
    report_fatal error w = record w {
      fatal = if is_storage_unavailable error then some (s.error_text error) else w.fatal;
    }

    -- What is done with the result; an error of the store is passed over.
    abbrev pub settle : Result (Unit {0}) → World → World
    settle (ok unit) w = w
    settle (err error) w =
        (finish_once interrupted (was_interrupted (s.error_text error)) (report_fatal error w)).1

    -- The closure that is spawned.
    unfoldable pub run_task : World → World
    unfolding run_execution
    run_task w =
        let (result, w') = run_execution w in record (settle result w') { has_process = false }
