-- ===== src/Store/Stats/Partition.antt =====
-- The nine counters of `execution_stats` put every execution into exactly one class.
use loomterm.Prelude.{
  ℕ, String, ◌+◌, ◌≡◌, refl, List, [], ◌∷◌, arith, length, sum_by, Bool, Bool-cases, inl, inr, ◌==◌,
  if◌then◌else◌, eq_iff, eq_refl, select,
}
use loomterm.Model.Text.{str_is_empty}
use loomterm.Store.Tables.{ExecutionRow}
use loomterm.Store.Stats.{
  ExecutionStatusCounts, InitiatorStats, status_counts, count_kind, by_initiator, initiator_kind,
}

abbrev pub total_count : ExecutionStatusCounts → ℕ
total_count c =
    c.queued + c.running + c.exited_zero + c.exited_nonzero + c.signaled + c.spawn_error
    + c.cancelled + c.interrupted + c.unknown_terminal

one_class : (r : ExecutionRow) → total_count (status_counts (r ∷ [])) ≡ 1
unfolding status_counts
one_class r = ground arith

status_counts-cons :
    (r : ExecutionRow) (rows : List ExecutionRow)
    → total_count (status_counts (r ∷ rows))
      ≡ total_count (status_counts (r ∷ [])) + total_count (status_counts rows)
unfolding status_counts
status_counts-cons r rows = omega arith

-- The nine counters add up to the number of executions: each is counted once.
pub status_counts_total :
    (rows : List ExecutionRow) → total_count (status_counts rows) ≡ length rows
unfolding status_counts
status_counts_total [] = refl
status_counts_total (r ∷ rows) =
    omega (arith, status_counts-cons r rows, one_class r, status_counts_total rows)

-- The kind of the initiator that an execution was recorded with; `unknown` if that is empty.
abbrev pub is_of_kind : String → ExecutionRow → Bool
is_of_kind kind r =
    if str_is_empty r.initiator_json.kind then kind == "unknown" else r.initiator_json.kind == kind

abbrev pub counted_for : String → List InitiatorStats → ℕ
counted_for kind groups = sum_by (λ g. if g.kind == kind then g.count else 0) groups

one_more :
    (kind other : String) (groups : List InitiatorStats)
    → counted_for kind (count_kind other groups)
      ≡ (if other == kind then 1 else 0) + counted_for kind groups
unfolding count_kind
one_more kind other [] = ground arith
one_more kind other (g ∷ groups) = elim (Bool-cases (g.kind == other)) [
  | inl same ↦
      let equal : g.kind ≡ other = ground (arith, same, eq_iff g.kind other) in
      rw equal (ground (arith, eq_refl other))
  | inr differs ↦ ground (arith, differs, one_more kind other groups)
]

-- For each kind of initiator, the counts of the groups of that kind add up to the number of the
-- executions that were recorded with it, where an empty kind counts as `unknown`.
pub by_initiator_counts :
    (kind : String) (rows : List ExecutionRow)
    → counted_for kind (by_initiator rows) ≡ length (select (is_of_kind kind) rows)
unfolding by_initiator select
by_initiator_counts kind [] = refl
by_initiator_counts kind (r ∷ rows) = ground (
  arith,
  one_more kind (initiator_kind r) (by_initiator rows),
  by_initiator_counts kind rows,
  eq_iff "unknown" kind,
  eq_iff kind "unknown",
)
