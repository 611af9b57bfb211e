-- ===== src/Daemon/Subscription.antt =====
-- `replay_subscription` of src/daemon.rs: a subscriber is sent the stored events page by page.
-- Sending a frame succeeds; a connection that fails ends the subscription.
pub mod Pages
pub mod Delivery
use loomterm.Prelude.{
  ℕ, zero, suc, ◌*◌, String, Bool, true, false, ◌&&◌, Option, none, some, List, [], ◌∷◌, ◌++◌, leb,
  if◌then◌else◌,
}
use loomterm.Result.{Result, ok, err}
use loomterm.Model.Execution.{
  Base64, ExecutionEvent, ExecutionEventPayload, finished_with, ReadOutputResponse, is_terminal,
}
use loomterm.Store.Tables.{Db}
use loomterm.Store.Reading.{read_output}

abbrev pub is_finish : ExecutionEventPayload → Bool
is_finish (finished_with outcome) = true
is_finish _ = false

-- What the loop over a page sends, where the cursor then stands, and whether it returned.
pub record Sent : Type 0 where
  pub events : List ExecutionEvent
  pub cursor : ℕ
  pub returned : Bool

abbrev also : ExecutionEvent → Sent → Sent
also e s = record s { events = e ∷ s.events }

unfoldable pub send_page : ℕ → List ExecutionEvent → Sent
send_page cursor [] = record { events = []; cursor = cursor; returned = false }
send_page cursor (e ∷ events) =
    let skipped = send_page cursor events in
    let rest = send_page e.seq events in
    if leb e.seq cursor
    then skipped
    else if is_finish e.payload
    then record { events = e ∷ []; cursor = e.seq; returned = true }
    else also e rest

abbrev prepend : List ExecutionEvent → Option (Result Sent) → Option (Result Sent)
prepend sent none = none
prepend sent (some (err e)) = some (err e)
prepend sent (some (ok s)) = some (ok (record s { events = sent ++ s.events }))

-- One turn of the loop, once its page is read; `again` is the rest of the loop.
unfoldable pub handle_page :
    (ℕ → Option (Result Sent)) → ℕ → ReadOutputResponse → Option (Result Sent)
handle_page again cursor page =
    let sent = send_page cursor page.events in
    if sent.returned
    then some (ok sent)
    else if page.has_more
    then prepend sent.events (again sent.cursor)
    else some (
        ok (record sent {
          returned = is_terminal page.execution.state && leb page.execution.last_seq sent.cursor;
        }))

module _ (b64 : Base64) (now : ℕ) (execution_id : String) (dbs : ℕ → Db) where
  -- `none` means that the fuel ran out before the loop returned. A page is read from the database
  -- as it is then; `dbs` has it by the number of turns that are left behind the page.
  unfoldable pub replay_subscription : ℕ → ℕ → Option (Result Sent)
  unfolding handle_page
  replay_subscription zero cursor = none
  replay_subscription (suc fuel) cursor =
      elim (read_output b64 now execution_id cursor (1024 * 1024) (dbs fuel)).0 [
        | err e ↦ some (err e)
        | ok page ↦ handle_page (λ next. replay_subscription fuel next) cursor page
      ]
