-- ===== src/Tests/Store.antt =====
-- The results on the store, each applied to a concrete input.
use loomterm.Prelude.{
  select, length, ℕ, ◌+◌, ◌*◌, ◌≤◌, ◌<◌, pos, ◌≡◌, refl, true, ◌↔◌, ◌⊎◌, some, List, [], ◌∷◌, arith,
  take, drop, sum_by,
}
use loomterm.Result.{ok, relative}
use loomterm.Model.Execution.{interrupted, was_interrupted, finished, exited, stdout}
use loomterm.Store.Tables.{find_execution}
use loomterm.Store.Journal.{IsConsistent, journal, blob_size}
use loomterm.Store.Workspaces.{FileSystem}
use loomterm.Store.Executions.Batch.{output_record}
use loomterm.Store.Reading.{read_output}
use loomterm.Store.Reading.Cursor.{page_after, read_output_page}
use loomterm.Store.Retention.{prune, cutoff, is_expired}
use loomterm.Store.Retention.Budget.{Trims, prune-Trims}
use loomterm.Store.Retention.Age.{is_expired_exact, is_expired_overflow, day_ms}
use loomterm.Store.Stats.{status_counts, by_initiator, nearest_rank}
use loomterm.Store.Stats.Partition.{
  total_count, status_counts_total, counted_for, is_of_kind, by_initiator_counts,
}
use loomterm.Store.Stats.Percentiles.{nearest_rank_counts, count_le, count_lt}
use loomterm.Store.Actor.{
  StoreCommand, Inputs, Host, run_store_actor, execute, create_execution_command,
  mark_running_command, append_capture_command, finish_command, prune_command,
}
use loomterm.Store.Actor.Progress.{IsSuccessor, execute-IsSuccessor}
use loomterm.Store.Actor.Invariant.{run_store_actor-IsConsistent}
use loomterm.Daemon.Subscription.{replay_subscription}
use loomterm.Daemon.Subscription.Delivery.{Delivers, replay_subscription-Delivers}
use loomterm.Tests.Data.{
  plain, request, registered, registered-IsConsistent, ended, ended-IsConsistent, ended_row,
  ended_found,
}

abbrev disk : FileSystem
disk = record { canonicalize = λ path. ok path; is_dir = λ path. true; display = λ path. "" }

abbrev host : Host
host = record { b64 = plain; fs = disk; parse_path = λ text. relative (text ∷ []) }

abbrev clock : ℕ → Inputs
clock now = record { now = now; id = "e2"; other_id = "x2" }

abbrev commands : List (Inputs × StoreCommand)
commands =
    (clock 10, create_execution_command request "/")
    ∷ (clock 11, mark_running_command "e2" 77 (pos 77))
    ∷ (clock 12, append_capture_command (output_record "e2" 12 stdout (1 ∷ 2 ∷ []) ∷ []))
    ∷ (clock 13, mark_running_command "e2" 78 (pos 78))
    ∷ (clock 14, finish_command "e2" finished (exited (pos 0)))
    ∷ (clock 15, prune_command 30 1)
    ∷ []

run_store_actor-IsConsistent_example : IsConsistent (run_store_actor host commands registered).1
run_store_actor-IsConsistent_example =
    run_store_actor-IsConsistent host commands registered registered-IsConsistent

replay_subscription-Delivers_example :
    Delivers plain 30 "e1" ended ended-IsConsistent ended_found 1
      (replay_subscription plain 30 "e1" (λ turns. ended) 4 1)
replay_subscription-Delivers_example =
    replay_subscription-Delivers plain 30 "e1" ended ended-IsConsistent ended_found 4 1
      (omega arith) (omega arith)

read_output_page_example :
    (k : ℕ) × (read_output plain 30 "e1" 1 100 ended
      ≡ (ok (page_after plain 30 "e1" 1 k ended_row ended), ended))
    × (1 + k ≤ 4)
    × (1 < 4 → 0 < k)
    × ((sum_by blob_size (take k (drop 1 (journal "e1" ended.events))) ≤ 100) ⊎ (k ≡ 1))
read_output_page_example =
    read_output_page plain 30 "e1" 1 100 ended ended-IsConsistent ended_found (omega arith)
      (omega arith)

prune-Trims_example :
    (removed : ℕ) × (prune 50 30 1 ended ≡ (ok removed, (prune 50 30 1 ended).1))
    × Trims 1 0 ended (removed, (prune 50 30 1 ended).1)
prune-Trims_example = prune-Trims 50 30 1 ended ended-IsConsistent

is_expired_exact_example :
    (is_expired (cutoff (2 * day_ms) 1) ended_row ≡ true)
    ↔ ((true ≡ true) × (20 + 1 * day_ms < 2 * day_ms))
is_expired_exact_example =
    is_expired_exact (2 * day_ms) 1 20 ended_row (omega arith) (omega arith) (omega arith) refl

is_expired_overflow_example : is_expired (cutoff 50 200000000000) ended_row ≡ true
is_expired_overflow_example =
    is_expired_overflow 50 200000000000 20 ended_row (omega arith) (omega arith) (omega arith) refl
      refl

nearest_rank_counts_example :
    (v : ℕ) × (nearest_rank 50 (30 ∷ 10 ∷ 20 ∷ []) ≡ some v)
    × (3 * 50 ≤ 100 * count_le v (30 ∷ 10 ∷ 20 ∷ []))
    × (100 * count_lt v (30 ∷ 10 ∷ 20 ∷ []) < 3 * 50)
nearest_rank_counts_example =
    nearest_rank_counts 50 (30 ∷ 10 ∷ 20 ∷ []) (omega arith) (omega arith) (omega arith)

status_counts_total_example : total_count (status_counts (ended_row ∷ ended_row ∷ [])) ≡ 2
status_counts_total_example = status_counts_total (ended_row ∷ ended_row ∷ [])

by_initiator_counts_example :
    counted_for "unknown" (by_initiator (ended_row ∷ ended_row ∷ []))
    ≡ length (select (is_of_kind "unknown") (ended_row ∷ ended_row ∷ []))
by_initiator_counts_example = by_initiator_counts "unknown" (ended_row ∷ ended_row ∷ [])

execute-IsSuccessor_example : IsSuccessor ended_row (
    find_execution "e1"
      (execute host (clock 40) (finish_command "e1" interrupted (was_interrupted "late")) ended).1)
execute-IsSuccessor_example =
    execute-IsSuccessor host (clock 40) (finish_command "e1" interrupted (was_interrupted "late"))
      ended ended-IsConsistent "e1" ended_row ended_found
