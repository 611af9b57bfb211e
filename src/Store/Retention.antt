-- ===== src/Store/Retention.antt =====
-- `Database::prune` of src/store.rs: what is too old goes, then the oldest until the rest fits.
-- Times are `i64` bit patterns here, and the age limit is computed modulo 2^64, as a release build
-- does.
pub mod Deletion
pub mod Limits
pub mod Budget
pub mod Remainder
pub mod Age
use loomterm.Prelude.{
  ℕ, zero, suc, ◌+◌, ◌-◌, ◌*◌, ◌%◌, ◌^◌, String, Bool, true, false, ◌&&◌, Option, none, some, List,
  [], ◌∷◌, ◌==◌, ltb, leb, eqb, if◌then◌else◌, length, sum_by, select, order_by, has_key,
}
use loomterm.Result.{Result, ok}
use loomterm.Result.Run.{Action, pure, transaction, ◌>>=◌}
use loomterm.Model.Execution.{is_terminal}
use loomterm.Store.Tables.{Db, ExecutionRow, execution_key, delete_executions}

abbrev pub i64_mod : ℕ
i64_mod = 2 ^ 64

-- `a < b` on bit patterns of `i64`
unfoldable pub lt_i64 : ℕ → ℕ → Bool
lt_i64 a b = ltb ((a + 2 ^ 63) % i64_mod) ((b + 2 ^ 63) % i64_mod)

-- `now_ms() - (retention_days as i64 * 24 * 60 * 60 * 1000)`
unfoldable pub cutoff : ℕ → ℕ → ℕ
cutoff now retention_days = (now + i64_mod - retention_days * 86400000 % i64_mod) % i64_mod

-- state IN ('finished', 'cancelled', 'interrupted') AND ended_at_ms < ?1
ended_before : ℕ → Option ℕ → Bool
ended_before limit none = false
ended_before limit (some ended) = lt_i64 ended limit

unfoldable pub is_expired : ℕ → ExecutionRow → Bool
unfolding ended_before lt_i64
is_expired limit row = is_terminal row.state && ended_before limit row.ended_at_ms

-- SELECT COALESCE(SUM(captured_bytes), 0) FROM executions
abbrev pub total_captured : Db → ℕ
total_captured db = sum_by (λ r. r.captured_bytes) db.executions

-- ORDER BY ended_at_ms ASC: NULL comes first.
unfoldable pub ended_le : Option ℕ → Option ℕ → Bool
ended_le none b = true
ended_le (some a) none = false
ended_le (some a) (some b) = leb a b

-- What `execute` returns for a DELETE: the number of rows.
abbrev pub deleted : (ExecutionRow → Bool) → Db → ℕ
deleted p db = length (select p db.executions)

-- The loop over the candidates: the oldest are deleted while there is an excess.
unfoldable pub remove_excess : ℕ → ℕ → List ExecutionRow → Db → ℕ × Db
remove_excess excess removed [] db = (removed, db)
remove_excess excess removed (row ∷ rows) db =
    let rest =
      remove_excess (excess - row.captured_bytes)
        (removed + deleted (has_key execution_key row.id) db) rows
        (delete_executions (has_key execution_key row.id) db) in
    if eqb excess 0 then (removed, db) else rest

abbrev pub candidates : Db → List ExecutionRow
candidates db =
    order_by (λ a b. ended_le a.ended_at_ms b.ended_at_ms)
      (select (λ r. is_terminal r.state) db.executions)

-- The second step of `prune`, on what the age limit left.
unfoldable pub fit : ℕ → ℕ → Db → ℕ × Db
unfolding remove_excess ended_le
fit retention_bytes removed db =
    if ltb retention_bytes (total_captured db)
    then remove_excess (total_captured db - retention_bytes) removed (candidates db) db
    else (removed, db)

unfoldable pub prune : ℕ → ℕ → ℕ → Action Db ℕ
unfolding cutoff is_expired fit
prune now retention_days retention_bytes db =
    let limit = cutoff now retention_days in
    let (removed, db') =
      fit retention_bytes (deleted (is_expired limit) db)
        (delete_executions (is_expired limit) db) in
    (ok removed, db')
