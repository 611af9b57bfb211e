-- ===== src/Daemon/Subscription/Pages.antt =====
-- What `replay_subscription` of src/daemon.rs sends of one page of stored events.
use loomterm.Prelude.{
  ℕ, suc, ◌+◌, String, ◌≡◌, refl, Bool, false, ◌||◌, List, [], ◌∷◌, ◌++◌, arith, if◌then◌else◌,
  length, All,
}
use loomterm.Model.Execution.{Base64, ExecutionEvent}
use loomterm.Store.Tables.{EventRow}
use loomterm.Store.Journal.{IsRun, IsReadable}
use loomterm.Store.Reading.Page.{decoded, event_from_row_ok}
use loomterm.Daemon.Subscription.{is_finish, send_page}

-- The events up to the first `finished` one, that one included.
abbrev pub until_finish : List ExecutionEvent → List ExecutionEvent
until_finish [] = []
until_finish (e ∷ events) =
    let rest = until_finish events in if is_finish e.payload then e ∷ [] else e ∷ rest

abbrev pub any_finish : List ExecutionEvent → Bool
any_finish [] = false
any_finish (e ∷ events) = is_finish e.payload || any_finish events

pub until_finish-append :
    (xs ys : List ExecutionEvent)
    → until_finish (xs ++ ys) ≡ (if any_finish xs then until_finish xs else xs ++ until_finish ys)
until_finish-append [] ys = refl
until_finish-append (e ∷ xs) ys = ground (arith, until_finish-append xs ys)

pub any_finish-append :
    (xs ys : List ExecutionEvent) → any_finish (xs ++ ys) ≡ (any_finish xs || any_finish ys)
any_finish-append [] ys = refl
any_finish-append (e ∷ xs) ys = ground (arith, any_finish-append xs ys)

pub until_finish_all : (xs : List ExecutionEvent) → any_finish xs ≡ false → until_finish xs ≡ xs
until_finish_all [] h = refl
until_finish_all (e ∷ xs) h = ground (arith, until_finish_all xs)

module _ (b64 : Base64) (id : String) where
  pub decoded-append :
      (xs ys : List EventRow) → decoded b64 id (xs ++ ys) ≡ decoded b64 id xs ++ decoded b64 id ys
  unfolding decoded
  decoded-append [] ys = refl
  decoded-append (x ∷ xs) ys = ground (arith, decoded-append xs ys)

  -- On the rows behind the cursor the loop skips none.
  pub send_page-run :
      (cursor : ℕ) (rows : List EventRow)
      → All IsReadable rows
      → IsRun cursor rows
      → let events = decoded b64 id rows in
        let sent = send_page cursor events in
        (sent.events ≡ until_finish events)
        × (sent.returned ≡ any_finish events)
        × (sent.cursor ≡ cursor + length (until_finish events))
  unfolding send_page decoded
  send_page-run cursor [] h r = (refl, refl, omega arith)
  send_page-run cursor (row ∷ rows) h r =
      let (p, readable) = h.0 b64 in
      let ih = send_page-run (suc cursor) rows h.1 r.1 in
      ground (arith, event_from_row_ok b64 id row p readable, r.0, ih.0, ih.1, ih.2)

  pub length-decoded :
      (rows : List EventRow) → All IsReadable rows → length (decoded b64 id rows) ≡ length rows
  unfolding decoded
  length-decoded [] h = refl
  length-decoded (row ∷ rows) h =
      let (p, readable) = h.0 b64 in
      ground (arith, event_from_row_ok b64 id row p readable, length-decoded rows h.1)
