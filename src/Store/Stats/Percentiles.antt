-- ===== src/Store/Stats/Percentiles.antt =====
-- `nearest_rank` is the nearest-rank percentile: it is described by how many samples lie below.
use loomterm.Prelude.{
  ℕ, zero, suc, ◌+◌, ◌-◌, ◌*◌, ◌/◌, ◌≤◌, ◌<◌, ◌≡◌, refl, some, List, [], ◌∷◌, arith, leb, ltb,
  if◌then◌else◌, Bool-cases, inl, inr, All, length, sum_by, order_by, insert_by,
}
use loomterm.Store.Stats.{at_rank, nearest_rank}

abbrev pub count_le : ℕ → List ℕ → ℕ
count_le v samples = sum_by (λ d. if leb d v then 1 else 0) samples

abbrev pub count_lt : ℕ → List ℕ → ℕ
count_lt v samples = sum_by (λ d. if ltb d v then 1 else 0) samples

abbrev IsSorted : List ℕ → Type 0
IsSorted [] = Unit
IsSorted (d ∷ samples) = All (λ e. d ≤ e) samples × IsSorted samples

All-insert_by :
    (P : ℕ → Type 0) (d : ℕ) (samples : List ℕ)
    → P d
    → All P samples
    → All P (insert_by leb d samples)
unfolding insert_by
All-insert_by P d [] p h = (p, tt)
All-insert_by P d (e ∷ samples) p h = elim (Bool-cases (leb d e)) [
  | inl le ↦ rw le (p, h)
  | inr gt ↦ rw gt (h.0, All-insert_by P d samples p h.1)
]

All-weaken :
    (d e : ℕ) (samples : List ℕ) → d ≤ e → All (λ x. e ≤ x) samples → All (λ x. d ≤ x) samples
All-weaken d e [] le h = tt
All-weaken d e (x ∷ samples) le h = (omega (arith, h.0), All-weaken d e samples le h.1)

insert_by-IsSorted :
    (d : ℕ) (samples : List ℕ) → IsSorted samples → IsSorted (insert_by leb d samples)
unfolding insert_by
insert_by-IsSorted d [] s = (tt, tt)
insert_by-IsSorted d (e ∷ samples) s = elim (Bool-cases (leb d e)) [
  | inl le ↦
      let below : d ≤ e = ground arith in rw le ((below, All-weaken d e samples below s.0), s)
  | inr gt ↦
      let above : e ≤ d = ground arith in
      rw gt (All-insert_by (λ x. e ≤ x) d samples above s.0, insert_by-IsSorted d samples s.1)
]

order_by-IsSorted : (samples : List ℕ) → IsSorted (order_by leb samples)
unfolding order_by
order_by-IsSorted [] = tt
order_by-IsSorted (d ∷ samples) =
    insert_by-IsSorted d (order_by leb samples) (order_by-IsSorted samples)

-- Sorting changes no sum over the samples.
sum_by-insert_by :
    (f : ℕ → ℕ) (d : ℕ) (samples : List ℕ)
    → sum_by f (insert_by leb d samples) ≡ f d + sum_by f samples
unfolding insert_by
sum_by-insert_by f d [] = refl
sum_by-insert_by f d (e ∷ samples) = ground (arith, sum_by-insert_by f d samples)

sum_by-order_by :
    (f : ℕ → ℕ) (samples : List ℕ) → sum_by f (order_by leb samples) ≡ sum_by f samples
unfolding order_by
sum_by-order_by f [] = refl
sum_by-order_by f (d ∷ samples) =
    omega (arith, sum_by-insert_by f d (order_by leb samples), sum_by-order_by f samples)

length-sum_by : (samples : List ℕ) → length samples ≡ sum_by (λ d. 1) samples
length-sum_by [] = refl
length-sum_by (d ∷ samples) = omega (arith, length-sum_by samples)

none_below : (d : ℕ) (samples : List ℕ) → All (λ x. d ≤ x) samples → count_lt d samples ≡ 0
none_below d [] h = refl
none_below d (e ∷ samples) h = ground (arith, none_below d samples h.1)

-- In a sorted list, the element of a rank has at least that many at or below it, and fewer below.
at_rank_counts :
    (k : ℕ) (samples : List ℕ)
    → IsSorted samples
    → k < length samples
    → (v : ℕ) × (at_rank (suc k) samples ≡ some v)
      × (k < count_le v samples)
      × (count_lt v samples ≤ k)
      × ((m : ℕ) → All (λ x. m ≤ x) samples → m ≤ v)
unfolding at_rank
at_rank_counts k [] s h = absurd (omega arith)
at_rank_counts zero (d ∷ samples) s h =
    (d, refl, ground arith, ground (arith, none_below d samples s.0), λ m a. a.0)
at_rank_counts (suc k) (d ∷ samples) s h =
    let (v, found, enough, few, least) = at_rank_counts k samples s.1 (omega arith) in
    let above : d ≤ v = least d s.0 in (v, found, ground arith, ground arith, λ m a. least m a.1)

-- For a percentage from 1 to 100 and at least one sample there is a percentile: a value with at
-- least that share of the samples at or below it, and less than that share below it.
pub nearest_rank_counts :
    (percent : ℕ) (samples : List ℕ)
    → 0 < percent
    → percent ≤ 100
    → 0 < length samples
    → (v : ℕ) × (nearest_rank percent samples ≡ some v)
      × (length samples * percent ≤ 100 * count_le v samples)
      × (100 * count_lt v samples < length samples * percent)
unfolding nearest_rank
nearest_rank_counts percent samples p q n =
    let sorted = order_by leb samples in
    let size = length samples * percent in
    let small : size ≤ length samples * 100 = grind arith in
    let large : 0 < size = grind arith in
    let rank = (size + 99) / 100 in
    let same : length sorted ≡ length samples =
      omega
        (arith, length-sum_by sorted, length-sum_by samples, sum_by-order_by (λ d. 1) samples) in
    let k = rank - 1 in
    let next : rank ≡ suc k = omega arith in
    let (v, found, enough, few, least) =
      at_rank_counts k sorted (order_by-IsSorted samples) (omega arith) in
    (
      v,
      rw next found,
      omega (arith, sum_by-order_by (λ d. if leb d v then 1 else 0) samples),
      omega (arith, sum_by-order_by (λ d. if ltb d v then 1 else 0) samples),
    )
