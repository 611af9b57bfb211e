-- ===== src/Mcp/Project.antt =====
-- `select_project_workspace` of src/mcp.rs: the workspace that a server serves.
use loomterm.Prelude.{
  ℕ, suc, ◌≤◌, ◌≡◌, refl, sym, ap, subst, ◌⊎◌, ◌++◌, Bool, true, false, Option, none, some, List,
  [], ◌∷◌, inl, inr, arith, if◌then◌else◌, ltb, leb, length, All, Bool-cases,
}
use loomterm.Result.{FilePath, absolute, relative}
use loomterm.Model.Workspace.{Workspace, workspace_contains}
use loomterm.Model.Workspace.Below.{IsBelow, contains-IsBelow}

-- `components().count()`; the root is a component.
abbrev pub component_count : FilePath → ℕ
component_count (absolute path) = suc (length path)
component_count (relative path) = length path

-- `max_by_key` over those that contain the directory: of several the last.
abbrev pub deeper : Option Workspace → Workspace → Option Workspace
deeper none w = some w
deeper (some best) w =
    if ltb (component_count w.root) (component_count best.root) then some best else some w

unfoldable pub select_from : Option Workspace → List Workspace → FilePath → Option Workspace
unfolding workspace_contains
select_from best [] cwd = best
select_from best (w ∷ workspaces) cwd =
    let taken = select_from (deeper best w) workspaces cwd in
    let passed = select_from best workspaces cwd in
    if workspace_contains w.root cwd then taken else passed

unfoldable pub select_project_workspace : List Workspace → FilePath → Option Workspace
unfolding select_from
select_project_workspace workspaces cwd = select_from none workspaces cwd

module _ (cwd : FilePath) where
  -- Not better than what is chosen: elsewhere, or not deeper.
  abbrev pub is_beaten : Option Workspace → Workspace → Bool
  is_beaten none w = if workspace_contains w.root cwd then false else true
  is_beaten (some best) w =
      if workspace_contains w.root cwd
      then leb (component_count w.root) (component_count best.root)
      else true

  abbrev pub IsContaining : Option Workspace → Type 0
  IsContaining none = Unit
  IsContaining (some w) = workspace_contains w.root cwd ≡ true

  abbrev IsDeeper : Option Workspace → Option Workspace → Type 0
  IsDeeper none b = Unit
  IsDeeper (some a) none = ⊥
  IsDeeper (some a) (some b) = component_count a.root ≤ component_count b.root

  IsDeeper-trans : (a b c : Option Workspace) → IsDeeper a b → IsDeeper b c → IsDeeper a c
  IsDeeper-trans none b c h g = tt
  IsDeeper-trans (some a) none c h g = absurd h
  IsDeeper-trans (some a) (some b) none h g = absurd g
  IsDeeper-trans (some a) (some b) (some c) h g = omega (arith, h, g)

  IsDeeper-refl : (a : Option Workspace) → IsDeeper a a
  IsDeeper-refl none = tt
  IsDeeper-refl (some a) = omega arith

  deeper_lem :
      (best : Option Workspace) (w : Workspace)
      → workspace_contains w.root cwd ≡ true
      → IsContaining best
      → IsContaining (deeper best w)
        × IsDeeper best (deeper best w)
        × IsDeeper (some w) (deeper best w)
  deeper_lem none w h g = (h, tt, omega arith)
  deeper_lem (some best) w h g =
      elim (Bool-cases (ltb (component_count w.root) (component_count best.root))) [
        | inl less ↦ rw less (g, omega arith, ground (arith, less))
        | inr more ↦ rw more (h, ground (arith, more), omega arith)
      ]

  deeper_beats :
      (chosen : Option Workspace) (w : Workspace)
      → IsDeeper (some w) chosen
      → is_beaten chosen w ≡ true
  deeper_beats none w h = absurd h
  deeper_beats (some c) w h = ground (arith, h)

  elsewhere_beaten :
      (chosen : Option Workspace) (w : Workspace)
      → workspace_contains w.root cwd ≡ false
      → is_beaten chosen w ≡ true
  elsewhere_beaten none w h = rw h refl
  elsewhere_beaten (some c) w h = rw h refl

  abbrev IsBest : Option Workspace → List Workspace → Option Workspace → Type 0
  IsBest best workspaces chosen =
      IsContaining chosen × IsDeeper best chosen × All (λ w. is_beaten chosen w ≡ true) workspaces

  select_from-IsBest :
      (best : Option Workspace) (workspaces : List Workspace)
      → IsContaining best
      → IsBest best workspaces (select_from best workspaces cwd)
  unfolding select_from
  select_from-IsBest best [] h = (h, IsDeeper-refl best, tt)
  select_from-IsBest best (w ∷ workspaces) h = elim (Bool-cases (workspace_contains w.root cwd)) [
    | inl inside ↦
        let (c, d, e) = deeper_lem best w inside h in
        let chosen = select_from (deeper best w) workspaces cwd in
        let same : select_from best (w ∷ workspaces) cwd ≡ chosen = rw inside refl in
        let (found, above, rest) = select_from-IsBest (deeper best w) workspaces c in
        let beats = IsDeeper-trans (some w) (deeper best w) chosen e above in
        subst (IsBest best (w ∷ workspaces)) (sym same) (
          found,
          IsDeeper-trans best (deeper best w) chosen d above,
          (deeper_beats chosen w beats, rest),
        )
    | inr outside ↦
        let chosen = select_from best workspaces cwd in
        let same : select_from best (w ∷ workspaces) cwd ≡ chosen = rw outside refl in
        let (found, above, rest) = select_from-IsBest best workspaces h in
        subst (IsBest best (w ∷ workspaces)) (sym same)
          (found, above, (elsewhere_beaten chosen w outside, rest))
  ]

  abbrev pub IsListed : Workspace → List Workspace → Type 0
  IsListed w workspaces =
      (before : List Workspace) × (after : List Workspace) × (workspaces ≡ before ++ w ∷ after)

  later-IsListed :
      (w v : Workspace) (workspaces : List Workspace)
      → IsListed w workspaces
      → IsListed w (v ∷ workspaces)
  later-IsListed w v workspaces (before, after, whole) = (v ∷ before, after, ap (λ l. v ∷ l) whole)

  -- What is chosen was chosen before, or is of the list.
  chosen_from :
      (best : Option Workspace) (workspaces : List Workspace) (w : Workspace)
      → select_from best workspaces cwd ≡ some w
      → (best ≡ some w) ⊎ IsListed w workspaces
  unfolding select_from
  chosen_from best [] w h = inl h
  chosen_from best (v ∷ workspaces) w h = elim (Bool-cases (workspace_contains v.root cwd)) [
    | inr outside ↦ elim (chosen_from best workspaces w (ground (arith, h, outside))) [
      | inl old ↦ inl old
      | inr later ↦ inr (later-IsListed w v workspaces later)
    ]
    | inl inside ↦ elim (chosen_from (deeper best v) workspaces w (ground (arith, h, inside))) [
      | inl better ↦ elim (one_of best v w better) [
        | inl old ↦ inl old
        | inr this ↦ inr ([], workspaces, ap (λ x. x ∷ workspaces) this)
      ]
      | inr later ↦ inr (later-IsListed w v workspaces later)
    ]
  ]
    where
      one_of :
          (best : Option Workspace) (v w : Workspace)
          → deeper best v ≡ some w
          → (best ≡ some w) ⊎ (v ≡ w)
      one_of none v w h = inr (ground (arith, h))
      one_of (some b) v w h =
          elim (Bool-cases (ltb (component_count v.root) (component_count b.root))) [
            | inl less ↦ inl (ground (arith, h, less))
            | inr more ↦ inr (ground (arith, h, more))
          ]

  -- How many names the path has.
  abbrev pub depth : FilePath → ℕ
  depth (absolute path) = length path
  depth (relative path) = length path

  depth_counted :
      (p q : FilePath)
      → IsBelow p cwd
      → IsBelow q cwd
      → component_count p ≤ component_count q
      → depth p ≤ depth q
  depth_counted p q h k l = go cwd p q h k l
    where
      go :
          (path p q : FilePath)
          → IsBelow p path
          → IsBelow q path
          → component_count p ≤ component_count q
          → depth p ≤ depth q
      go (absolute path) (absolute p) (absolute q) h k l = omega (arith, l)
      go (relative path) (relative p) (relative q) h k l = omega (arith, l)
      go (relative path) (absolute p) q h k l = absurd h
      go (absolute path) (relative p) q h k l = absurd h
      go (relative path) (relative p) (absolute q) h k l = absurd k
      go (absolute path) (absolute p) (relative q) h k l = absurd k

  -- Of the list, around the directory, and of those around it none with a longer path.
  abbrev pub IsDeepest : List Workspace → Option Workspace → Type 0
  IsDeepest workspaces none = All (λ w. ¬ IsBelow w.root cwd) workspaces
  IsDeepest workspaces (some b) =
      IsListed b workspaces
      × IsBelow b.root cwd
      × All (λ w. IsBelow w.root cwd → depth w.root ≤ depth b.root) workspaces

  none_around :
      (workspaces : List Workspace)
      → All (λ w. is_beaten none w ≡ true) workspaces
      → All (λ w. ¬ IsBelow w.root cwd) workspaces
  none_around [] h = tt
  none_around (w ∷ workspaces) h = (
    λ below. absurd (ground (arith, h.0, (contains-IsBelow w.root cwd).1 below)),
    none_around workspaces h.1,
  )

  none_deeper :
      (b : Workspace) (workspaces : List Workspace)
      → IsBelow b.root cwd
      → All (λ w. is_beaten (some b) w ≡ true) workspaces
      → All (λ w. IsBelow w.root cwd → depth w.root ≤ depth b.root) workspaces
  none_deeper b [] k h = tt
  none_deeper b (w ∷ workspaces) k h = (
    λ below.
        depth_counted w.root b.root below k
          (ground (arith, h.0, (contains-IsBelow w.root cwd).1 below)),
    none_deeper b workspaces k h.1,
  )

  -- The chosen workspace is one of the list, the directory is its root or below it, and no other of
  -- the list of which that holds has a root with more names; none is chosen only if it holds of none.
  pub select_project_workspace-IsDeepest :
      (workspaces : List Workspace) → IsDeepest workspaces (select_project_workspace workspaces cwd)
  unfolding select_project_workspace
  select_project_workspace-IsDeepest workspaces =
      let (found, above, rest) = select_from-IsBest none workspaces tt in
      deepest (select_from none workspaces cwd) (chosen_from none workspaces) found rest
    where
      deepest :
          (chosen : Option Workspace)
          → ((w : Workspace) → chosen ≡ some w → (none ≡ some w) ⊎ IsListed w workspaces)
          → IsContaining chosen
          → All (λ w. is_beaten chosen w ≡ true) workspaces
          → IsDeepest workspaces chosen
      deepest none from found rest = none_around workspaces rest
      deepest (some b) from found rest =
          let below = (contains-IsBelow b.root cwd).0 found in
          let place : IsListed b workspaces = elim (from b refl) [
            | inl wrong ↦ absurd (ground (arith, wrong))
            | inr listed ↦ listed
          ] in
          (place, below, none_deeper b workspaces below rest)
