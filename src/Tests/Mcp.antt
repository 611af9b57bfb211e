-- ===== src/Tests/Mcp.antt =====
-- The results on the tools, each applied to a concrete input.
use loomterm.Prelude.{
  ℕ, ◌≤◌, ◌<◌, ◌≡◌, refl, ◌⊎◌, inr, true, some, List, [], ◌∷◌, arith, take, sum_by, select,
}
use loomterm.Store.Journal.{journal}
use loomterm.Store.Reading.Page.{decoded}
use loomterm.Store.Rows.{event_from_row, event_payload, execution_from_row}
use loomterm.Mcp.{ReadInput, ToolEvent, text, read, normalized_max, event_raw_bytes}
use loomterm.Mcp.Convert.{raw_size, AreShown}
use loomterm.Mcp.Read.{asked, behind, tool_page, read_page, read_stuck}
use loomterm.Result.{FilePath, absolute}
use loomterm.Model.Workspace.{Workspace}
use loomterm.Mcp.Project.{IsDeepest, select_project_workspace, select_project_workspace-IsDeepest}
use loomterm.Tests.Data.{plain, ended, ended-IsConsistent, ended_row, ended_found}
use loomterm.Tests.Daemon.{ended_events}

abbrev input : ReadInput
input = record { execution_id = "e1"; after_seq = 1; output_format = text; max_bytes = some 1 }

read_page_example :
    (k : ℕ) × (events : List ToolEvent) × (read plain (λ e. "error") "w" 30 input ended
      ≡ inr (tool_page plain (λ e. "error") "w" 30 input ended ended_row k events))
    × AreShown plain text (take k (behind plain (λ e. "error") "w" 30 input ended)) events
    × (sum_by (raw_size plain) (take k (behind plain (λ e. "error") "w" 30 input ended))
        ≤ asked (some 1))
    × (k ≡ 0
        → (input.after_seq ≡ ended_row.last_seq)
          ⊎ (asked (some 1)
              < sum_by (raw_size plain) (take 1 (behind plain (λ e. "error") "w" 30 input ended))))
read_page_example =
    read_page plain (λ e. "error") "w" 30 input ended ended_row ended-IsConsistent ended_found refl
      (omega arith)

-- The event behind the cursor has two bytes.
two_bytes : sum_by (raw_size plain) (take 1 (behind plain (λ e. "error") "w" 30 input ended)) ≡ 2
unfolding journal decoded plain event_from_row event_payload select event_raw_bytes
two_bytes = rw ended_events refl

larger :
    normalized_max (some 1)
    < sum_by (raw_size plain) (take 1 (behind plain (λ e. "error") "w" 30 input ended))
unfolding normalized_max
larger = omega (arith, two_bytes)

read_stuck_example :
    read plain (λ e. "error") "w" 30 input ended
    ≡ inr (record {
      execution = execution_from_row 30 ended_row;
      events = [];
      next_seq = 1;
      has_more = true;
    })
read_stuck_example =
    read_stuck plain (λ e. "error") "w" 30 input ended ended_row ended-IsConsistent ended_found refl
      (omega arith) larger

abbrev workspaces : List Workspace
workspaces =
    record { id = "w"; name = "demo"; root = absolute ("a" ∷ []); created_at_ms = 0 }
    ∷ record { id = "v"; name = "inner"; root = absolute ("a" ∷ "b" ∷ []); created_at_ms = 0 }
    ∷ []

abbrev directory : FilePath
directory = absolute ("a" ∷ "b" ∷ "c" ∷ [])

select_project_workspace-IsDeepest_example :
    IsDeepest directory workspaces (select_project_workspace workspaces directory)
select_project_workspace-IsDeepest_example = select_project_workspace-IsDeepest directory workspaces
