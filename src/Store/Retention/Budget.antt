-- ===== src/Store/Retention/Budget.antt =====
-- The two steps of `prune` together, over every database.
use loomterm.Prelude.{
  ℕ, ◌+◌, ◌-◌, ◌≤◌, String, ◌≡◌, refl, ◌∙◌, Bool, false, inl, inr, some, List, [], ◌∷◌, arith, eqb,
  ltb, Bool-cases, length, select, has_key, find_key, find_key-select, HasUniqueKeys-select,
  order_by_keys, length-delete_where,
}
use loomterm.Result.{ok}
use loomterm.Model.Execution.{is_terminal}
use loomterm.Store.Tables.{Db, ExecutionRow, execution_key, find_execution, delete_executions}
use loomterm.Store.Journal.{IsConsistent}
use loomterm.Store.Keeps.{Keeps}
use loomterm.Store.Retention.{
  cutoff, is_expired, total_captured, ended_le, deleted, remove_excess, candidates, fit, prune,
}
use loomterm.Store.Retention.Deletion.{find-delete_executions, delete_executions-IsConsistent}
use loomterm.Store.Retention.Limits.{
  IsQueue, Spares, IsFitted, without, next_IsQueue, next_Spares, next_total,
}

-- `result` is a count and a table that `db` was cut down to, `removed` having gone before.
pub record Trims (limit removed : ℕ) (db : Db) (result : ℕ × Db) : Type 0 where
  pub consistent : IsConsistent result.1
  pub fits : IsFitted limit result.1
  pub spares : Spares db result.1
  pub counts : result.0 + length result.1.executions ≡ removed + length db.executions

count-delete :
    (p : ExecutionRow → Bool) (db : Db)
    → deleted p db + length (delete_executions p db).executions ≡ length db.executions
unfolding delete_executions
count-delete p db = omega (arith, length-delete_where {0} p db.executions)

remove_excess-Trims :
    (limit excess removed : ℕ) (rows : List ExecutionRow) (db : Db)
    → IsConsistent db
    → IsQueue rows db
    → excess ≡ total_captured db - limit
    → Trims limit removed db (remove_excess excess removed rows db)
unfolding remove_excess find_key
remove_excess-Trims limit excess removed [] db c q h = record {
  consistent = c;
  fits = inr λ id r found. ground (arith, q.holds id);
  spares = record { at = λ id r found live. found };
  counts = refl;
}
remove_excess-Trims limit excess removed (row ∷ rows) db c q h = elim (Bool-cases (eqb excess 0)) [
  | inl done ↦
      let fitted : total_captured db ≤ limit = ground arith in
      rw done (record {
        consistent = c;
        fits = inl fitted;
        spares = record { at = λ id r found live. found };
        counts = refl;
      })
  | inr over ↦
      let p = has_key execution_key row.id in
      let ih =
        remove_excess-Trims limit (excess - row.captured_bytes) (removed + deleted p db) rows
          (without row db) (delete_executions-IsConsistent p c) (next_IsQueue c q)
          (omega (arith, next_total c q)) in
      rw over (record {
        consistent = ih.consistent;
        fits = ih.fits;
        spares = record {
          at = λ id r found live. ih.spares.at id r ((next_Spares c q).at id r found live) live;
        };
        counts = ih.counts ∙ omega (arith, count-delete p db);
      })
]

candidates-IsQueue : (db : Db) → IsConsistent db → IsQueue (candidates db) db
candidates-IsQueue db c =
    let terminal = λ (r : ExecutionRow). is_terminal r.state in
    let le = λ (a b : ExecutionRow). ended_le a.ended_at_ms b.ended_at_ms in
    let (unique, same) =
      order_by_keys execution_key le (select terminal db.executions)
        (HasUniqueKeys-select execution_key terminal db.executions c.unique) in
    record {
      unique = unique;
      holds = λ id. same id ∙ find_key-select execution_key id terminal db.executions c.unique;
    }

fit-Trims :
    (limit removed : ℕ) (db : Db) → IsConsistent db → Trims limit removed db (fit limit removed db)
unfolding fit
fit-Trims limit removed db c = elim (Bool-cases (ltb limit (total_captured db))) [
  | inl over ↦ rw over (
      remove_excess-Trims limit (total_captured db - limit) removed (candidates db) db c
        (candidates-IsQueue db c) refl)
  | inr within ↦
      let fitted : total_captured db ≤ limit = ground arith in
      rw within (record {
        consistent = c;
        fits = inl fitted;
        spares = record { at = λ id r found live. found };
        counts = refl;
      })
]

-- On a consistent database `prune` succeeds with a count and a database such that: the database is
-- consistent, it keeps to the byte limit unless no terminal execution is left in it, every
-- execution that was not terminal is still there unchanged, and the count is the number of
-- executions that are gone.
pub prune-Trims :
    (now days limit : ℕ) (db : Db)
    → IsConsistent db
    → (removed : ℕ) × (prune now days limit db ≡ (ok removed, (prune now days limit db).1))
      × Trims limit 0 db (removed, (prune now days limit db).1)
unfolding prune
prune-Trims now days limit db c =
    let expired = is_expired (cutoff now days) in
    let before = delete_executions expired db in
    let t =
      fit-Trims limit (deleted expired db) before (delete_executions-IsConsistent expired c) in
    (
      (fit limit (deleted expired db) before).0,
      refl,
      record {
        consistent = t.consistent;
        fits = t.fits;
        spares = record { at = λ id r found live. t.spares.at id r (spared id r found live) live };
        counts = t.counts ∙ omega (arith, count-delete expired db);
      },
    )
  where
    spared :
        (id : String) (r : ExecutionRow)
        → find_execution id db ≡ some r
        → is_terminal r.state ≡ false
        → find_execution id (delete_executions (is_expired (cutoff now days)) db) ≡ some r
    spared id r found live =
        rw (find-delete_executions (is_expired (cutoff now days)) c id, found, is_expired, live)

pub prune-Keeps : (now days limit : ℕ) → Keeps (prune now days limit)
prune-Keeps now days limit = record { at = λ db c. (prune-Trims now days limit db c).2.consistent }
