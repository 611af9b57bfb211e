-- ===== src/Tests/Supervisor.antt =====
-- The results on the supervisor, each applied to a concrete run.
use loomterm.Prelude.{pos, none, some}
use loomterm.Supervisor.{ExitStatus, Loop, initial_loop, armed}

abbrev status : ExitStatus
status = record { code = none; signal = some (pos 15) }

-- A cancellation, and the leader dies while its group lives on.
abbrev lingering : Loop
lingering = record (armed initial_loop) { exit_status = some status }
