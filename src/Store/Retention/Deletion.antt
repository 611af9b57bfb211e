-- ===== src/Store/Retention/Deletion.antt =====
-- A deletion of executions keeps the journals consistent, and takes away just what it names.
use loomterm.Prelude.{
  String, ◌≡◌, refl, ap, Bool, not, inl, inr, Option, none, some, List, [], ◌∷◌, arith, eq_iff,
  if◌then◌else◌, Bool-cases, is_some, All, select, delete_where, find_key, discard, find_key-select,
  find_key-delete, HasUniqueKeys-delete,
}
use loomterm.Store.Tables.{
  Db, ExecutionRow, EventRow, execution_key, find_execution, delete_executions,
}
use loomterm.Store.Journal.{journal, IsReadable, IsConsistent, HasJournal}

All-delete {ℓ κ} :
    {A : Type ℓ} (P : A → Type κ) (p : A → Bool) (xs : List A)
    → All P xs
    → All P (delete_where p xs)
unfolding delete_where
All-delete P p [] h = tt
All-delete P p (x ∷ xs) h = elim (Bool-cases (p x)) [
  | inl e ↦ rw e (All-delete P p xs h.1)
  | inr e ↦ rw e (h.0, All-delete P p xs h.1)
]

-- Whole journals are deleted.
journal-delete :
    (gone : String → Bool) (k : String) (events : List EventRow)
    → journal k (delete_where (λ e. gone e.execution_id) events)
      ≡ (if gone k then [] else journal k events)
unfolding journal select delete_where
journal-delete gone k [] = ground arith
journal-delete gone k (e ∷ events) =
    ground (arith, journal-delete gone k events, eq_iff e.execution_id k)

module _ (p : ExecutionRow → Bool) {db : Db} (c : IsConsistent db) where
  pub find-delete_executions :
      (k : String) → find_execution k (delete_executions p db) ≡ discard p (find_execution k db)
  unfolding delete_executions
  find-delete_executions k = find_key-delete execution_key k p db.executions c.unique

  abbrev gone : String → Bool
  gone k = is_some (find_key execution_key k (select p db.executions))

  gone_iff : (k : String) → gone k ≡ is_some (discard (λ r. not (p r)) (find_execution k db))
  gone_iff k = ap is_some (find_key-select execution_key k p db.executions c.unique)

  left_journal :
      (k : String) (o : Option ExecutionRow)
      → HasJournal o (journal k db.events)
      → HasJournal
          (discard p o)
          (if is_some (discard (λ r. not (p r)) o) then [] else journal k db.events)
  left_journal k none h = h
  left_journal k (some r) h = elim (Bool-cases (p r)) [ inl e ↦ rw e refl | inr e ↦ rw e h ]

  pub delete_executions-IsConsistent : IsConsistent (delete_executions p db)
  unfolding delete_executions
  delete_executions-IsConsistent = record {
    unique = HasUniqueKeys-delete execution_key p db.executions c.unique;
    journals = λ k.
        rw
          (
            find_key-delete execution_key k p db.executions c.unique,
            journal-delete gone k db.events,
            gone_iff k,
          )
          (left_journal k (find_execution k db) (c.journals k));
    readable = All-delete IsReadable _ db.events c.readable;
  }
