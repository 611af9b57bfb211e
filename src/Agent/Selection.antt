-- ===== src/Agent/Selection.antt =====
-- Which session a hook is recorded for.
use Prim.Native.Char.{code}
use loomterm.Prelude.{
  ℕ, ◌+◌, String, ◌≡◌, refl, true, ◌&&◌, none, some, List, [], ◌∷◌, ◌++◌, ◌⊎◌, inl, inr, arith,
  if◌then◌else◌, leb, Bool-cases, All,
}
use loomterm.Result.{FilePath}
use loomterm.Model.Session.{AgentSession, AgentSessionState, recording}
use loomterm.Model.Workspace.Below.{IsBelow, contains-IsBelow}
use loomterm.Agent.{eq_ignore_ascii_case, is_recording, is_candidate, select_active_session_id}

-- The codes of the characters, with those of A to Z as those of a to z.
abbrev pub small : ℕ → ℕ
small c = if leb 65 c && leb c 90 then c + 32 else c

abbrev pub small_letters : String → List ℕ
small_letters String.[] = []
small_letters (String.◌∷◌ c text) = small (code c) ∷ small_letters text

same_letters : (s t : String) → eq_ignore_ascii_case s t ≡ true → small_letters s ≡ small_letters t
unfolding eq_ignore_ascii_case
same_letters String.[] String.[] h = refl
same_letters String.[] (String.◌∷◌ d t) h = absurd (ground (arith, h))
same_letters (String.◌∷◌ c s) String.[] h = absurd (ground (arith, h))
same_letters (String.◌∷◌ c s) (String.◌∷◌ d t) h = ground (arith, h, same_letters s t)

letters_same : (s t : String) → small_letters s ≡ small_letters t → eq_ignore_ascii_case s t ≡ true
unfolding eq_ignore_ascii_case
letters_same String.[] String.[] h = refl
letters_same String.[] (String.◌∷◌ d t) h = absurd (ground (arith, h))
letters_same (String.◌∷◌ c s) String.[] h = absurd (ground (arith, h))
letters_same (String.◌∷◌ c s) (String.◌∷◌ d t) h = ground (arith, h, letters_same s t)

recording_is : (state : AgentSessionState) → is_recording state ≡ true → state ≡ recording
recording_is recording h = refl
recording_is _ h = absurd (ground (arith, h))

module _ (parse_path : String → FilePath) (provider : String) (cwd : FilePath) where
  -- The session is recording, its agent is the provider or generic, and the directory is its own or
  -- below it.
  abbrev pub IsOpenTo : AgentSession → Type 0
  IsOpenTo s =
      (s.state ≡ recording)
      × ((small_letters s.agent_kind ≡ small_letters provider)
          ⊎ (small_letters s.agent_kind ≡ small_letters "generic"))
      × IsBelow (parse_path s.cwd) cwd

  candidate_open : (s : AgentSession) → is_candidate parse_path provider cwd s ≡ true → IsOpenTo s
  unfolding is_candidate
  candidate_open s h =
      let kind : (small_letters s.agent_kind ≡ small_letters provider)
          ⊎ (small_letters s.agent_kind ≡ small_letters "generic") =
        elim (Bool-cases (eq_ignore_ascii_case s.agent_kind provider)) [
          | inl own ↦ inl (same_letters s.agent_kind provider own)
          | inr other ↦ inr (same_letters s.agent_kind "generic" (ground (arith, h, other)))
        ] in
      (
        recording_is s.state (ground (arith, h)),
        kind,
        (contains-IsBelow (parse_path s.cwd) cwd).0 (ground (arith, h)),
      )

  open_candidate : (s : AgentSession) → IsOpenTo s → is_candidate parse_path provider cwd s ≡ true
  unfolding is_candidate
  open_candidate s (state, kind, below) =
      let inside = (contains-IsBelow (parse_path s.cwd) cwd).1 below in
      elim kind [
        | inl own ↦ rw (state, letters_same s.agent_kind provider own, inside) refl
        | inr generic ↦ ground (arith, state, letters_same s.agent_kind "generic" generic, inside)
      ]

  abbrev pub IsPassed : AgentSession → Type 0
  IsPassed s = ¬ IsOpenTo s

  -- The chosen session is the first of the list that is recording, whose kind of agent is the
  -- provider or `generic` but for the case of ASCII letters, and whose directory is that of the hook
  -- or above it; if none is chosen there is no such session.
  pub select_active_session_id_first :
      (sessions : List AgentSession)
      → ((before : List AgentSession) × (s : AgentSession) × (after : List AgentSession) × (sessions
            ≡ before ++ s ∷ after)
          × All IsPassed before
          × IsOpenTo s
          × (select_active_session_id parse_path sessions provider cwd ≡ some s.id))
        ⊎ (All IsPassed sessions
            × (select_active_session_id parse_path sessions provider cwd ≡ none))
  unfolding select_active_session_id
  select_active_session_id_first [] = inr (tt, refl)
  select_active_session_id_first (s ∷ sessions) =
      elim (Bool-cases (is_candidate parse_path provider cwd s)) [
        | inl here ↦ inl ([], s, sessions, refl, tt, candidate_open s here, rw here refl)
        | inr passed ↦
            let skips : IsPassed s = λ h. absurd (ground (arith, open_candidate s h, passed)) in
            elim (select_active_session_id_first sessions) [
              | inl (before, found, after, whole, skipped, fits, chosen) ↦ inl (
                s ∷ before,
                found,
                after,
                rw whole refl,
                (skips, skipped),
                fits,
                rw passed chosen,
              )
              | inr (skipped, none_of) ↦ inr ((skips, skipped), rw passed none_of)
            ]
      ]
