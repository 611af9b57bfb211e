-- ===== src/Agent/Search.antt =====
-- What `find_execution_id` finds: an id that some object within eight levels carries, and the search
-- fails only if there is none.
use loomterm.Prelude.{
  ℕ, zero, suc, ◌*◌, ◌≤◌, String, ◌≡◌, refl, true, Option, none, some, arith, leb, ◌⊎◌, inl, inr,
  Option-cases, is_some, Bool-cases, ◌==◌, eq_iff, ap,
}
use loomterm.Agent.{
  Value, null, bool, number, string, array, object, Items, empty_array, item, Fields, empty_object,
  field, get, as_str, as_object, and_then, own_id, or_else, find_in_array, find_in_object,
  find_execution_id_at_depth, find_execution_id, max_hook_input_bytes,
}

-- The values of an array, and of an object.
pub data IsItem : Value → Items → Type 0 where
  first_item : {v : Value} {items : Items} → IsItem v (item v items)
  later_item : {v w : Value} {items : Items} → IsItem v items → IsItem v (item w items)

pub data IsField : Value → Fields → Type 0 where
  first_field : {key : String} {v : Value} {fields : Fields} → IsField v (field key v fields)
  later_field :
      {key : String} {v w : Value} {fields : Fields}
      → IsField v fields
      → IsField v (field key w fields)

-- The first field of the name has the value.
pub data Has : String → Value → Fields → Type 0 where
  has_first :
      {name key : String} {v : Value} {fields : Fields}
      → name ≡ key
      → Has name v (field key v fields)
  has_later :
      {name key : String} {v w : Value} {fields : Fields}
      → ¬ (name ≡ key)
      → Has name v fields
      → Has name v (field key w fields)

get-Has :
    (name : String) (fields : Fields) (v : Value) → get name fields ≡ some v → Has name v fields
unfolding get
get-Has name empty_object v h = absurd (ground (arith, h))
get-Has name (field key w fields) v h = elim (Bool-cases (key == name)) [
  | inl here ↦
      let same : w ≡ v = ground (arith, h, here) in
      rw same (
        has_first {name = name} {key = key} {v = v} {fields = fields}
          (ground (arith, here, eq_iff key name)))
  | inr other ↦
      has_later (λ e. absurd (ground (arith, e, other, eq_iff key name)))
        (get-Has name fields v (ground (arith, h, other)))
]

Has-get :
    (name : String) (fields : Fields) (v : Value) → Has name v fields → get name fields ≡ some v
unfolding get
Has-get name empty_object v h = elim h [ ]
Has-get name (field key w fields) _ (has_first same) = ground (arith, same, eq_iff key name)
Has-get name (field key w fields) v (has_later differs h) = elim (Bool-cases (key == name)) [
  | inl here ↦ absurd (differs (ground (arith, here, eq_iff key name)))
  | inr other ↦ rw other (Has-get name fields v h)
]

-- The object names the id: as its `execution_id`, or as the `id` of its `execution`.
pub data Names : Fields → String → Type 0 where
  execution_id :
      {fields : Fields} {id : String} → Has "execution_id" (string id) fields → Names fields id
  id_of_execution :
      {fields inner : Fields} {id : String}
      → Has "execution" (object inner) fields
      → Has "id" (string id) inner
      → Names fields id

string_is : (o : Option Value) (id : String) → and_then o as_str ≡ some id → o ≡ some (string id)
string_is none id h = absurd (ground (arith, h))
string_is (some (string text)) id h = ap (λ t. some (string t)) (ground (arith, h))
string_is (some null) id h = absurd (ground (arith, h))
string_is (some (bool b)) id h = absurd (ground (arith, h))
string_is (some (number n)) id h = absurd (ground (arith, h))
string_is (some (array items)) id h = absurd (ground (arith, h))
string_is (some (object fields)) id h = absurd (ground (arith, h))

inner_id : Option Value → Option String
inner_id o =
    and_then o
      (λ execution. and_then (as_object execution) (λ inner. and_then (get "id" inner) as_str))

inner_is :
    (o : Option Value) (id : String)
    → inner_id o ≡ some id
    → (inner : Fields) × (o ≡ some (object inner)) × (get "id" inner ≡ some (string id))
unfolding inner_id
inner_is none id h = absurd (ground (arith, h))
inner_is (some (object inner)) id h = (inner, refl, string_is (get "id" inner) id h)
inner_is (some (string text)) id h = absurd (ground (arith, h))
inner_is (some null) id h = absurd (ground (arith, h))
inner_is (some (bool b)) id h = absurd (ground (arith, h))
inner_is (some (number n)) id h = absurd (ground (arith, h))
inner_is (some (array items)) id h = absurd (ground (arith, h))

or_else-some :
    (a b : Option String) (id : String) → or_else a b ≡ some id → (a ≡ some id) ⊎ (b ≡ some id)
or_else-some none b id h = inr h
or_else-some (some x) b id h = inl h

or_else-later : (a b : Option String) → is_some b ≡ true → is_some (or_else a b) ≡ true
or_else-later none b h = h
or_else-later (some x) b h = refl

own_id-Names : (fields : Fields) (id : String) → own_id fields ≡ some id → Names fields id
unfolding own_id inner_id
own_id-Names fields id h =
    elim (or_else-some (and_then (get "execution_id" fields) as_str)
      (inner_id (get "execution" fields)) id h) [
        | inl own ↦ execution_id (
            get-Has "execution_id" fields (string id)
              (string_is (get "execution_id" fields) id own))
        | inr deeper ↦
            let (inner, there, here) = inner_is (get "execution" fields) id deeper in
            id_of_execution (get-Has "execution" fields (object inner) there)
              (get-Has "id" inner (string id) here)
      ]

Names-own_id : (fields : Fields) (id : String) → Names fields id → is_some (own_id fields) ≡ true
unfolding own_id
Names-own_id fields id (execution_id h) = rw (Has-get "execution_id" fields (string id) h) refl
Names-own_id fields id (id_of_execution {inner = inner} h k) =
    or_else-later (and_then (get "execution_id" fields) as_str) _
      (rw (Has-get "execution" fields (object inner) h, Has-get "id" inner (string id) k) refl)

module _ (parse : String → Option Value) (byte_length : String → ℕ) where
  -- An object at most `n` levels down carries the id; a text counts as the value that it holds.
  pub data Carries : ℕ → Value → String → Type 0 where
    itself :
        {n : ℕ} {fields : Fields} {id : String}
        → Names fields id
        → Carries (suc n) (object fields) id
    in_object :
        {n : ℕ} {fields : Fields} {v : Value} {id : String}
        → IsField v fields
        → Carries n v id
        → Carries (suc n) (object fields) id
    in_array :
        {n : ℕ} {items : Items} {v : Value} {id : String}
        → IsItem v items
        → Carries n v id
        → Carries (suc n) (array items) id
    in_text :
        {n : ℕ} {text : String} {v : Value} {id : String}
        → byte_length text ≤ 1024 * 1024
        → parse text ≡ some v
        → Carries n v id
        → Carries (suc n) (string text) id

  abbrev find : ℕ → Value → Option String
  find n v = find_execution_id_at_depth parse byte_length n v

  items-Carries :
      (n : ℕ) (items : Items) (id : String)
      → ((v : Value) → find n v ≡ some id → Carries n v id)
      → find_in_array (find n) items ≡ some id
      → (v : Value) × IsItem v items × Carries n v id
  unfolding find_in_array
  items-Carries n empty_array id f h = absurd (ground (arith, h))
  items-Carries n (item v items) id f h =
      elim (or_else-some (find n v) (find_in_array (find n) items) id h) [
        | inl here ↦ (v, first_item, f v here)
        | inr later ↦
            let (w, place, c) = items-Carries n items id f later in (w, later_item place, c)
      ]

  fields-Carries :
      (n : ℕ) (fields : Fields) (id : String)
      → ((v : Value) → find n v ≡ some id → Carries n v id)
      → find_in_object (find n) fields ≡ some id
      → (v : Value) × IsField v fields × Carries n v id
  unfolding find_in_object
  fields-Carries n empty_object id f h = absurd (ground (arith, h))
  fields-Carries n (field key v fields) id f h =
      elim (or_else-some (find n v) (find_in_object (find n) fields) id h) [
        | inl here ↦ (v, first_field, f v here)
        | inr later ↦
            let (w, place, c) = fields-Carries n fields id f later in (w, later_field place, c)
      ]

  find-Carries : (n : ℕ) (v : Value) (id : String) → find n v ≡ some id → Carries n v id
  unfolding find_execution_id_at_depth
  find-Carries zero v id h = absurd (ground (arith, h))
  find-Carries (suc n) null id h = absurd (ground (arith, h))
  find-Carries (suc n) (bool b) id h = absurd (ground (arith, h))
  find-Carries (suc n) (number x) id h = absurd (ground (arith, h))
  find-Carries (suc n) (array items) id h =
      let (v, place, c) = items-Carries n items id (λ v. find-Carries n v id) h in in_array place c
  find-Carries (suc n) (object fields) id h =
      elim (or_else-some (own_id fields) (find_in_object (find n) fields) id h) [
        | inl own ↦ itself (own_id-Names fields id own)
        | inr deeper ↦
            let (v, place, c) = fields-Carries n fields id (λ v. find-Carries n v id) deeper in
            in_object place c
      ]
  find-Carries (suc n) (string text) id h = elim (Option-cases (parse text)) [
    | inl bad ↦ absurd (ground (arith, bad, h))
    | inr (v, good) ↦
        in_text (ground (arith, h)) good (find-Carries n v id (ground (arith, good, h)))
  ]

  find_in_array-some :
      (n : ℕ) (items : Items) (v : Value)
      → IsItem v items
      → is_some (find n v) ≡ true
      → is_some (find_in_array (find n) items) ≡ true
  unfolding find_in_array
  find_in_array-some n empty_array v place h = elim place [ ]
  find_in_array-some n (item w items) v first_item h = elim (Option-cases (find n v)) [
    | inl nothing ↦ absurd (ground (arith, nothing, h))
    | inr (id, found) ↦ rw found refl
  ]
  find_in_array-some n (item w items) v (later_item place) h = elim (Option-cases (find n w)) [
    | inl nothing ↦ rw nothing (find_in_array-some n items v place h)
    | inr (id, found) ↦ rw found refl
  ]

  find_in_object-some :
      (n : ℕ) (fields : Fields) (v : Value)
      → IsField v fields
      → is_some (find n v) ≡ true
      → is_some (find_in_object (find n) fields) ≡ true
  unfolding find_in_object
  find_in_object-some n empty_object v place h = elim place [ ]
  find_in_object-some n (field key w fields) v first_field h = elim (Option-cases (find n v)) [
    | inl nothing ↦ absurd (ground (arith, nothing, h))
    | inr (id, found) ↦ rw found refl
  ]
  find_in_object-some n (field key w fields) v (later_field place) h =
      elim (Option-cases (find n w)) [
        | inl nothing ↦ rw nothing (find_in_object-some n fields v place h)
        | inr (id, found) ↦ rw found refl
      ]

  or_else-first : (a b : Option String) → is_some a ≡ true → is_some (or_else a b) ≡ true
  or_else-first none b h = absurd (ground (arith, h))
  or_else-first (some x) b h = refl

  Carries-found : (n : ℕ) (v : Value) (id : String) → Carries n v id → is_some (find n v) ≡ true
  unfolding find_execution_id_at_depth
  Carries-found zero v id c = elim c [ ]
  Carries-found (suc n) null id c = elim c [ ]
  Carries-found (suc n) (bool _) id c = elim c [ ]
  Carries-found (suc n) (number _) id c = elim c [ ]
  Carries-found (suc n) (object fields) id (itself own) =
      or_else-first (own_id fields) _ (Names-own_id fields id own)
  Carries-found (suc n) (object fields) id (in_object place c) =
      or_else-later (own_id fields) _
        (find_in_object-some n fields _ place (Carries-found n _ id c))
  Carries-found (suc n) (array items) id (in_array place c) =
      find_in_array-some n items _ place (Carries-found n _ id c)
  Carries-found (suc n) (string text) id (in_text short good c) =
      let deeper = Carries-found n _ id c in
      let fits : leb (byte_length text) max_hook_input_bytes ≡ true = ground (arith, short) in
      rw (fits, good, find_execution_id_at_depth) deeper

  -- The search either returns an id that the value, or a value at most eight levels inside it, has as
  -- its `execution_id`, or as the `id` of its `execution`, where a text of at most 1 MiB counts as the
  -- JSON value that it holds and of fields with one name the first counts; or it returns nothing, and
  -- there is no such id.
  pub find_execution_id-finds :
      (v : Value)
      → ((id : String) × (find_execution_id parse byte_length v ≡ some id) × Carries 9 v id)
        ⊎ ((find_execution_id parse byte_length v ≡ none) × ((id : String) → ¬ Carries 9 v id))
  unfolding find_execution_id
  find_execution_id-finds v = elim (Option-cases (find 9 v)) [
    | inl nothing ↦ inr (nothing, λ id c. absurd (ground (arith, nothing, Carries-found 9 v id c)))
    | inr (id, found) ↦ inl (id, found, find-Carries 9 v id found)
  ]
