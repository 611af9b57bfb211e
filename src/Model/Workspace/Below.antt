-- ===== src/Model/Workspace/Below.antt =====
-- What `workspace_contains` and `Path::starts_with` say of the components of two paths.
use loomterm.Prelude.{
  String, ◌≡◌, refl, sym, ap, ◌∙◌, ◌↔◌, true, ◌||◌, List, [], ◌∷◌, ◌++◌, append-nil, arith, eq_iff,
  Bool-cases, inl, inr,
}
use loomterm.Result.{FilePath, absolute, relative}
use loomterm.Model.Workspace.{
  is_prefix, starts_with, same_components, same_path, workspace_contains,
}

pub prefix_rest :
    (root path : List String)
    → is_prefix root path ≡ true
    → (rest : List String) × (path ≡ root ++ rest)
unfolding is_prefix
prefix_rest [] path h = (path, refl)
prefix_rest (c ∷ root) [] h = absurd (ground (arith, h))
prefix_rest (c ∷ root) (d ∷ path) h =
    let (rest, whole) = prefix_rest root path (ground (arith, h)) in
    (rest, ground (arith, h, whole, eq_iff c d))

pub is_prefix-append : (root rest : List String) → is_prefix root (root ++ rest) ≡ true
unfolding is_prefix
is_prefix-append [] rest = refl
is_prefix-append (c ∷ root) rest = ground (arith, is_prefix-append root rest, eq_iff c c)

pub same_components-eq : (p q : List String) → same_components p q ≡ true → p ≡ q
unfolding same_components
same_components-eq [] [] h = refl
same_components-eq [] (d ∷ q) h = absurd (ground (arith, h))
same_components-eq (c ∷ p) [] h = absurd (ground (arith, h))
same_components-eq (c ∷ p) (d ∷ q) h = ground (arith, h, same_components-eq p q, eq_iff c d)

-- The components of the path go on those of the root.
abbrev pub IsBelow : FilePath → FilePath → Type 0
IsBelow (absolute root) (absolute path) = (rest : List String) × (path ≡ root ++ rest)
IsBelow (relative root) (relative path) = (rest : List String) × (path ≡ root ++ rest)
IsBelow root path = ⊥

below_prefix : (root path rest : List String) → path ≡ root ++ rest → is_prefix root path ≡ true
below_prefix root path rest whole = ap (is_prefix root) whole ∙ is_prefix-append root rest

components_below :
    (root path : List String)
    → (same_components path root || is_prefix root path) ≡ true
    → (rest : List String) × (path ≡ root ++ rest)
components_below root path h = elim (Bool-cases (same_components path root)) [
  | inl same ↦ ([], same_components-eq path root same ∙ sym (append-nil root))
  | inr other ↦ prefix_rest root path (ground (arith, h, other))
]

pub contains-IsBelow :
    (root path : FilePath) → (workspace_contains root path ≡ true) ↔ IsBelow root path
unfolding workspace_contains same_path starts_with
contains-IsBelow (absolute root) (absolute path) =
    (components_below root path, λ (rest, whole). ground (arith, below_prefix root path rest whole))
contains-IsBelow (relative root) (relative path) =
    (components_below root path, λ (rest, whole). ground (arith, below_prefix root path rest whole))
contains-IsBelow (absolute root) (relative path) = (λ h. absurd (ground (arith, h)), λ h. absurd h)
contains-IsBelow (relative root) (absolute path) = (λ h. absurd (ground (arith, h)), λ h. absurd h)
