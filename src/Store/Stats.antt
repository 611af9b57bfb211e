-- ===== src/Store/Stats.antt =====
-- `Database::execution_stats` of src/store.rs: counts by outcome, by initiator, and the nearest-rank
-- percentiles of the durations.
pub mod Partition
pub mod Percentiles
use Prim.Native.Char.{code}
use loomterm.Prelude.{
  ℕ, zero, suc, ◌+◌, ◌-◌, ◌*◌, ◌/◌, ℤ, pos, negsuc, String, Bool, true, false, not, ◌&&◌, ◌||◌,
  Option, none, some, List, [], ◌∷◌, ◌==◌, leb, ltb, eqb, if◌then◌else◌, length, sum_by, select,
  order_by,
}
use loomterm.Result.{Result, ok, err, invalid_request, reject_if}
use loomterm.Result.Run.{Action, pure, lift, ◌>>=◌, ◌>>◌}
use loomterm.Model.Text.{str_is_empty}
use loomterm.Model.Execution.{
  ExecutionState, queued, running, finished, cancelled, interrupted, is_terminal, ExecutionOutcome,
  exited, signaled, spawn_error, was_cancelled, was_interrupted,
}
use loomterm.Model.Workspace.{Workspace}
use loomterm.Store.Tables.{Db, ExecutionRow}
use loomterm.Store.Workspaces.{get_workspace}

pub record ExecutionStatusCounts : Type 0 where
  pub queued : ℕ
  pub running : ℕ
  pub exited_zero : ℕ
  pub exited_nonzero : ℕ
  pub signaled : ℕ
  pub spawn_error : ℕ
  pub cancelled : ℕ
  pub interrupted : ℕ
  pub unknown_terminal : ℕ

pub record InitiatorStats : Type 0 where
  pub kind : String
  pub count : ℕ

pub record ExecutionStats : Type 0 where
  pub workspace : Workspace
  pub since_ms : ℕ
  pub until_ms : ℕ
  pub total : ℕ
  pub status : ExecutionStatusCounts
  pub by_initiator : List InitiatorStats
  pub captured_bytes : ℕ
  pub truncated_executions : ℕ
  pub duration_samples : ℕ
  pub duration_p50_ms : Option ℕ
  pub duration_p95_ms : Option ℕ

-- COALESCE(SUM(test), 0)
abbrev pub count_where : (ExecutionRow → Bool) → List ExecutionRow → ℕ
count_where test rows = sum_by (λ r. if test r then 1 else 0) rows

abbrev is_finished : ExecutionState → Bool
is_finished finished = true
is_finished _ = false

abbrev pub is_zero : ℤ → Bool
is_zero (pos n) = eqb n 0
is_zero (negsuc n) = false

abbrev pub exited_with : (ℤ → Bool) → Option ExecutionOutcome → Bool
exited_with test (some (exited code)) = test code
exited_with test _ = false

abbrev pub kind_signaled : Option ExecutionOutcome → Bool
kind_signaled (some (signaled signal)) = true
kind_signaled _ = false

abbrev pub kind_spawn_error : Option ExecutionOutcome → Bool
kind_spawn_error (some (spawn_error message)) = true
kind_spawn_error _ = false

abbrev pub kind_cancelled : Option ExecutionOutcome → Bool
kind_cancelled (some (was_cancelled signal)) = true
kind_cancelled _ = false

abbrev pub kind_interrupted : Option ExecutionOutcome → Bool
kind_interrupted (some (was_interrupted reason)) = true
kind_interrupted _ = false

abbrev is_null : Option ExecutionOutcome → Bool
is_null none = true
is_null (some outcome) = false

abbrev pub state_queued : ExecutionState → Bool
state_queued queued = true
state_queued _ = false

abbrev pub state_running : ExecutionState → Bool
state_running running = true
state_running _ = false

abbrev pub state_cancelled : ExecutionState → Bool
state_cancelled cancelled = true
state_cancelled _ = false

abbrev pub state_interrupted : ExecutionState → Bool
state_interrupted interrupted = true
state_interrupted _ = false

-- The nine sums of the first query.
unfoldable pub status_counts : List ExecutionRow → ExecutionStatusCounts
status_counts rows = record {
  queued = count_where (λ r. state_queued r.state) rows;
  running = count_where (λ r. state_running r.state) rows;
  exited_zero = count_where (λ r. is_finished r.state && exited_with is_zero r.outcome_json) rows;
  exited_nonzero =
      count_where (λ r. is_finished r.state && exited_with (λ c. not (is_zero c)) r.outcome_json)
        rows;
  signaled = count_where (λ r. is_finished r.state && kind_signaled r.outcome_json) rows;
  spawn_error = count_where (λ r. is_finished r.state && kind_spawn_error r.outcome_json) rows;
  cancelled =
      count_where
        (λ r. state_cancelled r.state || is_finished r.state && kind_cancelled r.outcome_json) rows;
  interrupted =
      count_where
        (λ r. state_interrupted r.state || is_finished r.state && kind_interrupted r.outcome_json)
        rows;
  unknown_terminal = count_where (λ r. is_finished r.state && is_null r.outcome_json) rows;
}

-- The binary collation: texts by the codes of their characters.
text_lt : String → String → Bool
text_lt String.[] String.[] = false
text_lt String.[] (String.◌∷◌ d t) = true
text_lt (String.◌∷◌ c s) String.[] = false
text_lt (String.◌∷◌ c s) (String.◌∷◌ d t) =
    ltb (code c) (code d) || eqb (code c) (code d) && text_lt s t

-- GROUP BY 1 ORDER BY 1: one more row of a kind.
unfoldable pub count_kind : String → List InitiatorStats → List InitiatorStats
unfolding text_lt
count_kind kind [] = record { kind = kind; count = 1 } ∷ []
count_kind kind (g ∷ groups) =
    let rest = count_kind kind groups in
    if g.kind == kind
    then record g { count = g.count + 1 } ∷ groups
    else if text_lt kind g.kind
    then record { kind = kind; count = 1 } ∷ g ∷ groups
    else g ∷ rest

-- COALESCE(NULLIF(json_extract(initiator_json, '$.kind'), ''), 'unknown')
abbrev pub initiator_kind : ExecutionRow → String
initiator_kind r = if str_is_empty r.initiator_json.kind then "unknown" else r.initiator_json.kind

unfoldable pub by_initiator : List ExecutionRow → List InitiatorStats
unfolding count_kind
by_initiator [] = []
by_initiator (r ∷ rows) = count_kind (initiator_kind r) (by_initiator rows)

-- The durations of the terminal executions that were started and ended; no less than 0.
sample : ExecutionState → Option ℕ → Option ℕ → List ℕ
sample state none ended = []
sample state (some began) none = []
sample state (some began) (some ended) = if is_terminal state then (ended - began) ∷ [] else []

unfoldable pub durations : List ExecutionRow → List ℕ
unfolding sample
durations [] = []
durations (r ∷ rows) =
    let rest = durations rows in
    elim (sample r.state r.started_at_ms r.ended_at_ms) [ [] ↦ rest | d ∷ more ↦ d ∷ rest ]

-- The row of a rank, counted from 1.
unfoldable pub at_rank : ℕ → List ℕ → Option ℕ
at_rank rank [] = none
at_rank zero (d ∷ samples) = none
at_rank (suc zero) (d ∷ samples) = some d
at_rank (suc (suc rank)) (d ∷ samples) = at_rank (suc rank) samples

-- rank_number = (sample_count * percent + 99) / 100, in the order of the durations
unfoldable pub nearest_rank : ℕ → List ℕ → Option ℕ
unfolding at_rank
nearest_rank percent samples =
    at_rank ((length samples * percent + 99) / 100) (order_by leb samples)

unfoldable pub execution_stats : String → ℕ → ℕ → Action Db ExecutionStats
unfolding status_counts by_initiator durations nearest_rank
execution_stats workspace since_ms until_ms db =
    (lift (
          reject_if (ltb until_ms since_ms)
            (invalid_request "statistics window start must not exceed its end"))
        >> get_workspace workspace
        >>= λ w.
            let rows =
              select
                (λ r.
                  r.workspace_id == w.id
                  && leb since_ms r.created_at_ms
                  && leb r.created_at_ms until_ms)
                db.executions in
            pure (record {
              workspace = w;
              since_ms = since_ms;
              until_ms = until_ms;
              total = length rows;
              status = status_counts rows;
              by_initiator = by_initiator rows;
              captured_bytes = sum_by (λ r. r.captured_bytes) rows;
              truncated_executions = count_where (λ r. r.output_truncated) rows;
              duration_samples = length (durations rows);
              duration_p50_ms = nearest_rank 50 (durations rows);
              duration_p95_ms = nearest_rank 95 (durations rows);
            }))
      db
