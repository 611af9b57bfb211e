-- ===== src/Tests/Agent.antt =====
-- The results on hooks, each applied to a concrete input.
use loomterm.Prelude.{
  String, ◌≡◌, refl, Option, none, some, List, [], ◌∷◌, ◌++◌, All, ◌⊎◌, ◌==◌, if◌then◌else◌,
}
use loomterm.Result.{absolute}
use loomterm.Model.Session.{AgentSession}
use loomterm.Agent.{
  Value, string, array, object, empty_array, item, empty_object, field, find_execution_id,
  select_active_session_id, get,
}
use loomterm.Agent.Search.{Carries, find_execution_id-finds}
use loomterm.Agent.Selection.{IsOpenTo, IsPassed, select_active_session_id_first}
use loomterm.Tests.Watch.{session}

-- The text of a tool's answer holds an object with an execution.
abbrev parse : String → Option Value
parse text =
    if text == "inner"
    then some
        (object (field "execution" (object (field "id" (string "e1") empty_object)) empty_object))
    else none

abbrev answer : Value
answer = object (field "content" (array (item (string "inner") empty_array)) empty_object)

found : find_execution_id parse (λ text. 5) answer ≡ some "e1"
unfolding find_execution_id get
found = refl

find_execution_id-finds_example :
    ((id : String) × (find_execution_id parse (λ text. 5) answer ≡ some id)
      × Carries parse (λ text. 5) 9 answer id)
    ⊎ ((find_execution_id parse (λ text. 5) answer ≡ none)
        × ((id : String) → ¬ Carries parse (λ text. 5) 9 answer id))
find_execution_id-finds_example = find_execution_id-finds parse (λ text. 5) answer

abbrev sessions : List AgentSession
sessions = record session { id = "s0"; agent_kind = "other" } ∷ session ∷ []

select_active_session_id_first_example :
    ((before : List AgentSession) × (s : AgentSession) × (after : List AgentSession) × (sessions
        ≡ before ++ s ∷ after)
      × All (IsPassed (λ text. absolute []) "Codex" (absolute [])) before
      × IsOpenTo (λ text. absolute []) "Codex" (absolute []) s
      × (select_active_session_id (λ text. absolute []) sessions "Codex" (absolute []) ≡ some s.id))
    ⊎ (All (IsPassed (λ text. absolute []) "Codex" (absolute [])) sessions
        × (select_active_session_id (λ text. absolute []) sessions "Codex" (absolute []) ≡ none))
select_active_session_id_first_example =
    select_active_session_id_first (λ text. absolute []) "Codex" (absolute []) sessions
