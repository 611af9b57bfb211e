-- ===== src/Daemon/Artifacts/Accepted.antt =====
-- Which paths of a session's files are accepted.
use loomterm.Prelude.{
  String, ◌≡◌, refl, sym, ap, ◌∙◌, true, false, ◌==◌, eq_iff, Option, none, some, List, [], ◌∷◌,
  ◌++◌, append_assoc, append-nil, arith, ◌↔◌, ◌⊎◌, inl, inr, Bool-cases, Option-cases,
}
use loomterm.Result.{ok, FilePath, absolute, relative}
use loomterm.Model.Workspace.{is_prefix, starts_with, same_components, same_path}
use loomterm.Model.Workspace.Below.{prefix_rest, is_prefix-append, same_components-eq}
use loomterm.Daemon.Artifacts.{
  init, last, parent, is_name, has_name, is_path, validate_session_paths,
}

init_last :
    (xs : List String) (x : String) → (init (xs ++ x ∷ []) ≡ xs) × (last (xs ++ x ∷ []) ≡ some x)
unfolding init last
init_last [] x = (refl, refl)
init_last (c ∷ []) x = (refl, refl)
init_last (c ∷ d ∷ xs) x = let (front, end) = init_last (d ∷ xs) x in (ap (λ l. c ∷ l) front, end)

ends_or_not :
    (xs : List String) → (xs ≡ []) ⊎ ((ys : List String) × (y : String) × (xs ≡ ys ++ y ∷ []))
ends_or_not [] = inl refl
ends_or_not (x ∷ xs) = elim (ends_or_not xs) [
  | inl nothing ↦ inr ([], x, rw nothing refl)
  | inr (ys, y, whole) ↦ inr (x ∷ ys, y, rw whole refl)
]

same_components_refl : (p : List String) → same_components p p ≡ true
unfolding same_components
same_components_refl [] = refl
same_components_refl (c ∷ p) = ground (arith, same_components_refl p, eq_iff c c)

longer_differs :
    (root rest : List String) (x : String) → same_components (root ++ rest ++ x ∷ []) root ≡ false
unfolding same_components
longer_differs [] [] x = refl
longer_differs [] (c ∷ rest) x = refl
longer_differs (c ∷ root) rest x = ground (arith, longer_differs root rest x)

parent_last :
    (xs : List String) (x : String) → parent (absolute (xs ++ x ∷ [])) ≡ some (absolute xs)
unfolding parent
parent_last [] x = refl
parent_last (c ∷ xs) x = ap (λ p. some (absolute p)) (init_last (c ∷ xs) x).0

parent_root : parent (absolute []) ≡ none
unfolding parent
parent_root = refl

relative_parent : (xs p : List String) → ¬ (parent (relative xs) ≡ some (absolute p))
unfolding parent
relative_parent [] p h = ground (arith, h)
relative_parent (c ∷ xs) p h = ground (arith, h)

same_path-eq : (q : FilePath) (p : List String) → same_path q (absolute p) ≡ true → q ≡ absolute p
unfolding same_path
same_path-eq (absolute q) p h = ap absolute (same_components-eq q p h)
same_path-eq (relative q) p h = absurd (ground (arith, h))

named_is :
    (o : Option String) (y id : String)
    → o ≡ some y
    → is_name o id ≡ true
    → (y ≡ id) × ((id == "..") ≡ false)
named_is o y id e h = elim (Bool-cases (y == "..")) [
  | inl dots ↦ absurd (ground (arith, e, h, dots))
  | inr other ↦
      let same : y ≡ id = ground (arith, e, h, other, eq_iff y id) in (same, rw same at other)
]

-- A path whose parent is known has one component more.
parent_of :
    (f : FilePath) (p : List String)
    → parent f ≡ some (absolute p)
    → (c : String) × (f ≡ absolute (p ++ c ∷ []))
parent_of (absolute xs) p h = elim (ends_or_not xs) [
  | inl nothing ↦
      absurd (ground (arith, sym (ap (λ l. parent (absolute l)) nothing) ∙ h, parent_root))
  | inr (ys, y, whole) ↦
      let same = sym (parent_last ys y) ∙ sym (ap (λ l. parent (absolute l)) whole) ∙ h in
      (y, rw whole (ground (arith, same)))
]
parent_of (relative xs) p h = absurd (relative_parent xs p h)

module _ (root : List String) (id : String) where
  -- The directory is below the root and has the id's name; `..` may stand between.
  abbrev pub directory : List String → List String
  directory middle = root ++ middle ++ id ∷ []

  abbrev pub IsPlaced : FilePath → FilePath → Type 0
  IsPlaced cast html =
      (middle : List String) × (c : String) × (h : String) × ((id == "..") ≡ false)
      × (cast ≡ absolute (directory middle ++ c ∷ []))
      × (html ≡ absolute (directory middle ++ h ∷ []))

  placed :
      (cast html d : FilePath)
      → parent cast ≡ some d
      → same_path d (absolute root) ≡ false
      → starts_with d (absolute root) ≡ true
      → is_path (parent html) d ≡ true
      → has_name d id ≡ true
      → IsPlaced cast html
  unfolding starts_with same_path has_name
  placed cast html (relative p) up differs inside beside named = absurd (ground (arith, inside))
  placed cast html (absolute p) up differs inside beside named =
      let (rest, whole) = prefix_rest root p inside in
      let (c, cast_is) = parent_of cast p up in
      elim (Option-cases (parent html)) [
        | inl nothing ↦ absurd (ground (arith, nothing, beside))
        | inr (q, html_up) ↦
            let level : q ≡ absolute p = same_path-eq q p (ground (arith, html_up, beside)) in
            let (h, html_is) = parent_of html p (html_up ∙ ap some level) in
            elim (ends_or_not rest) [
              | inl nothing ↦
                  let equal : p ≡ root = whole ∙ ap (λ l. root ++ l) nothing ∙ append-nil root in
                  absurd (
                    ground (
                      arith,
                      sym (ap (λ l. same_components l root) equal) ∙ differs,
                      same_components_refl root,
                    ))
              | inr (middle, y, ending) ↦
                  let full : p ≡ root ++ middle ++ y ∷ [] =
                    whole ∙ ap (λ l. root ++ l) ending ∙ sym (append_assoc root middle (y ∷ [])) in
                  let name : last p ≡ some y = ap last full ∙ (init_last (root ++ middle) y).1 in
                  let (same, plain_name) = named_is (last p) y id name named in
                  let place : p ≡ directory middle =
                    full ∙ ap (λ l. root ++ middle ++ l ∷ []) same in
                  (
                    middle,
                    c,
                    h,
                    plain_name,
                    cast_is ∙ ap (λ l. absolute (l ++ c ∷ [])) place,
                    html_is ∙ ap (λ l. absolute (l ++ h ∷ [])) place,
                  )
            ]
      ]

  forwards :
      (cast html : FilePath)
      → validate_session_paths (absolute root) id cast html ≡ ok tt
      → IsPlaced cast html
  unfolding validate_session_paths
  forwards cast html h = elim (Option-cases (parent cast)) [
    | inl nothing ↦ absurd (ground (arith, nothing, h))
    | inr (d, up) ↦
        placed cast html d up (ground (arith, up, h)) (ground (arith, up, h))
          (ground (arith, up, h)) (ground (arith, up, h))
  ]

  -- What is asked of the directory.
  directory_lem :
      (middle : List String)
      → (id == "..") ≡ false
      → let d = absolute (directory middle) in
        (same_path d (absolute root) ≡ false)
        × (starts_with d (absolute root) ≡ true)
        × (same_path d d ≡ true)
        × (has_name d id ≡ true)
  unfolding same_path starts_with has_name
  directory_lem middle plain_name = (
    longer_differs root middle id,
    ap (is_prefix root) (append_assoc root middle (id ∷ []))
        ∙ is_prefix-append root (middle ++ id ∷ []),
    same_components_refl (directory middle),
    rw ((init_last (root ++ middle) id).1, plain_name) ((eq_iff id id).1 refl),
  )

  accepted :
      (cast html d : FilePath)
      → parent cast ≡ some d
      → parent html ≡ some d
      → same_path d (absolute root) ≡ false
      → starts_with d (absolute root) ≡ true
      → same_path d d ≡ true
      → has_name d id ≡ true
      → validate_session_paths (absolute root) id cast html ≡ ok tt
  unfolding validate_session_paths
  accepted cast html d up html_up differs inside same named =
      ground (arith, up, html_up, differs, inside, same, named)

  backwards :
      (cast html : FilePath)
      → IsPlaced cast html
      → validate_session_paths (absolute root) id cast html ≡ ok tt
  backwards cast html (middle, c, h, plain_name, cast_is, html_is) =
      let (differs, inside, same, named) = directory_lem middle plain_name in
      accepted cast html (absolute (directory middle))
        (ap parent cast_is ∙ parent_last (directory middle) c)
        (ap parent html_is ∙ parent_last (directory middle) h) differs inside same named

  -- With an absolute directory of sessions: the files of a session are accepted exactly when they
  -- stand in one directory that has the session's id as its name, which is not `..`, and whose
  -- components go on those of the directory of sessions. Between the two any components may stand,
  -- `..` among them.
  pub validate_session_paths-IsPlaced :
      (cast html : FilePath)
      → (validate_session_paths (absolute root) id cast html ≡ ok tt) ↔ IsPlaced cast html
  validate_session_paths-IsPlaced cast html = (forwards cast html, backwards cast html)
