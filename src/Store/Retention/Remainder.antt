-- ===== src/Store/Retention/Remainder.antt =====
-- What `prune` of src/store.rs leaves of an execution: its row as it was, or nothing.
use loomterm.Prelude.{
  ℕ, ◌-◌, ◌+◌, String, ◌≡◌, refl, ◌∙◌, Bool, ◌⊎◌, inl, inr, Option, none, some, List, [], ◌∷◌, eqb,
  ltb, Bool-cases, discard, has_key,
}
use loomterm.Store.Tables.{Db, ExecutionRow, execution_key, find_execution, delete_executions}
use loomterm.Store.Journal.{IsConsistent}
use loomterm.Store.Retention.{
  cutoff, is_expired, total_captured, deleted, remove_excess, candidates, fit, prune,
}
use loomterm.Store.Retention.Deletion.{find-delete_executions, delete_executions-IsConsistent}

-- What is under the id afterwards: the row of before, or none.
abbrev pub IsRemainder : Option ExecutionRow → Option ExecutionRow → Type 0
IsRemainder before after = (after ≡ before) ⊎ (after ≡ none)

IsRemainder-trans :
    {a b c : Option ExecutionRow} → IsRemainder a b → IsRemainder b c → IsRemainder a c
IsRemainder-trans h (inr gone) = inr gone
IsRemainder-trans (inl same) (inl kept) = inl (kept ∙ same)
IsRemainder-trans (inr gone) (inl kept) = inr (kept ∙ gone)

discarded : (q : ExecutionRow → Bool) (o : Option ExecutionRow) → IsRemainder o (discard q o)
discarded q none = inl refl
discarded q (some r) = elim (Bool-cases (q r)) [ inl e ↦ inr (rw e refl) | inr e ↦ inl (rw e refl) ]

delete-IsRemainder :
    (id : String) (p : ExecutionRow → Bool) (db : Db)
    → IsConsistent db
    → IsRemainder (find_execution id db) (find_execution id (delete_executions p db))
delete-IsRemainder id p db c =
    rw (find-delete_executions p c id) (discarded p (find_execution id db))

remove_excess-IsRemainder :
    (id : String) (excess removed : ℕ) (rows : List ExecutionRow) (db : Db)
    → IsConsistent db
    → IsRemainder
        (find_execution id db)
        (find_execution id (remove_excess excess removed rows db).1)
unfolding remove_excess
remove_excess-IsRemainder id excess removed [] db c = inl refl
remove_excess-IsRemainder id excess removed (row ∷ rows) db c = elim (Bool-cases (eqb excess 0)) [
  | inl done ↦ rw done (inl refl)
  | inr over ↦
      let p = has_key execution_key row.id in
      rw over (
        IsRemainder-trans (delete-IsRemainder id p db c) (
          remove_excess-IsRemainder id (excess - row.captured_bytes) (removed + deleted p db) rows
            (delete_executions p db) (delete_executions-IsConsistent p c)))
]

fit-IsRemainder :
    (id : String) (limit removed : ℕ) (db : Db)
    → IsConsistent db
    → IsRemainder (find_execution id db) (find_execution id (fit limit removed db).1)
unfolding fit
fit-IsRemainder id limit removed db c = elim (Bool-cases (ltb limit (total_captured db))) [
  | inl over ↦ rw over (remove_excess-IsRemainder id _ removed (candidates db) db c)
  | inr within ↦ rw within (inl refl)
]

pub prune-IsRemainder :
    (now days limit : ℕ) (id : String) (db : Db)
    → IsConsistent db
    → IsRemainder (find_execution id db) (find_execution id (prune now days limit db).1)
unfolding prune
prune-IsRemainder now days limit id db c =
    let p = is_expired (cutoff now days) in
    IsRemainder-trans (delete-IsRemainder id p db c) (
      fit-IsRemainder id limit (deleted p db) (delete_executions p db)
        (delete_executions-IsConsistent p c))
