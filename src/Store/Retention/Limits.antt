-- ===== src/Store/Retention/Limits.antt =====
-- What `prune` leaves: every execution that is not terminal, and no more than the limit, unless
-- nothing terminal is left to delete.
use loomterm.Prelude.{
  ℕ, ◌+◌, ◌≤◌, String, ◌≡◌, refl, ap, ◌∙◌, Bool, true, false, not, ◌⊎◌, inl, inr, Option, none,
  some, List, ◌∷◌, arith, ◌==◌, eq_iff, eq_refl, Bool-cases, find_key, has_key, HasUniqueKeys,
  discard, find_key-key, sum_by-delete,
}
use loomterm.Model.Execution.{is_terminal}
use loomterm.Store.Tables.{Db, ExecutionRow, execution_key, find_execution, delete_executions}
use loomterm.Store.Journal.{IsConsistent}
use loomterm.Store.Retention.{total_captured}
use loomterm.Store.Retention.Deletion.{find-delete_executions}

abbrev pub is_live : ExecutionRow → Bool
is_live r = not (is_terminal r.state)

-- The queue holds the terminal executions of the table, each once.
pub record IsQueue (rows : List ExecutionRow) (db : Db) : Type 0 where
  pub unique : HasUniqueKeys execution_key rows
  pub holds :
      (id : String) → find_key execution_key id rows ≡ discard is_live (find_execution id db)

-- Of `before`, every execution that is not terminal is still there as it was.
pub record Spares (before after : Db) : Type 0 where
  pub at :
      (id : String) (r : ExecutionRow)
      → find_execution id before ≡ some r
      → is_terminal r.state ≡ false
      → find_execution id after ≡ some r

-- Either the limit is kept, or nothing terminal is left.
abbrev pub IsFitted : ℕ → Db → Type 0
IsFitted limit db =
    (total_captured db ≤ limit)
    ⊎ ((id : String) (r : ExecutionRow)
        → find_execution id db ≡ some r
        → is_terminal r.state ≡ false)

abbrev pub without : ExecutionRow → Db → Db
without row db = delete_executions (has_key execution_key row.id) db

module _ {row : ExecutionRow} {rows : List ExecutionRow} {db : Db} (c : IsConsistent db)
    (q : IsQueue (row ∷ rows) db) where
  -- The head of the queue is in the table.
  head_found : (find_execution row.id db ≡ some row) × (is_live row ≡ false)
  unfolding find_key
  head_found =
      let held : some row ≡ discard is_live (find_execution row.id db) =
        rw (eq_refl row.id) at (q.holds row.id) in
      of_held (find_execution row.id db) held
    where
      of_held :
          (o : Option ExecutionRow)
          → some row ≡ discard is_live o
          → (o ≡ some row) × (is_live row ≡ false)
      of_held none h = ground arith
      of_held (some r) h = ground arith

  pub next_IsQueue : IsQueue rows (without row db)
  unfolding find_key
  next_IsQueue = record {
    unique = q.unique.1;
    holds = λ id.
        rw (find-delete_executions (has_key execution_key row.id) c id)
          (held id (Bool-cases (row.id == id)));
  }
    where
      held :
          (id : String)
          → ((row.id == id) ≡ true) ⊎ ((row.id == id) ≡ false)
          → find_key execution_key id rows
            ≡ discard is_live (discard (has_key execution_key row.id) (find_execution id db))
      held id (inl e) = rw (← (eq_iff row.id id).0 e, head_found.0, eq_refl row.id) q.unique.0
      held id (inr e) =
          let tail : find_key execution_key id rows ≡ discard is_live (find_execution id db) =
            rw e at (q.holds id) in
          tail ∙ ap (discard is_live) (kept id e (find_execution id db) refl)
        where
          kept :
              (id : String)
              → (row.id == id) ≡ false
              → (o : Option ExecutionRow) → find_execution id db ≡ o
              → o ≡ discard (has_key execution_key row.id) o
          kept id e none h = refl
          kept id e (some r) h = ground (
            arith,
            find_key-key execution_key id db.executions r h,
            eq_iff r.id row.id,
            eq_iff row.id id,
          )

  pub next_Spares : Spares db (without row db)
  next_Spares = record {
    at = λ id r h live.
        rw (find-delete_executions (has_key execution_key row.id) c id, h)
          (ground (
            arith,
            live,
            head_found,
            h,
            find_key-key execution_key id db.executions r h,
            eq_iff r.id row.id,
          ));
  }

  pub next_total : total_captured (without row db) + row.captured_bytes ≡ total_captured db
  unfolding delete_executions
  next_total =
      sum_by-delete execution_key (λ r. r.captured_bytes) row.id db.executions row c.unique
        head_found.0
