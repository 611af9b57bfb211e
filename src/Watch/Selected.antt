-- ===== src/Watch/Selected.antt =====
-- What is selected in the view is listed, and what is cancelled was confirmed.
use loomterm.Prelude.{
  ℕ, zero, suc, ◌-◌, ℤ, pos, negsuc, String, ◌≡◌, refl, sym, ◌∙◌, true, eq_iff, Option, none, some,
  List, [], ◌∷◌, arith, if◌then◌else◌, length, inl, inr, ◌⊎◌, Bool-cases, Option-cases,
}
use loomterm.Result.{Result, ok, err, Error}
use loomterm.Model.Execution.{Base64, Bytes, Execution, ExecutionEvent, ExecutionEventPayload}
use loomterm.Model.Session.{AgentSessionDetail}
use loomterm.Watch.{
  Text, WatchState, last_id, is_listed, is_selected, position, nth, selected, selected_index,
  refresh, reset_output, reset_if, select_relative, moved, or_zero, ask_cancel, handle_key,
  KeyEvent, cancel_target, push_chunk, ingest_event, ingest, with_error, ViewEvent, key_pressed,
  refreshed, page_read, failed, handle_event, handle_events, new,
}

is_selected-later :
    (o : Option String) (x : Execution) (executions : List Execution)
    → is_selected o executions ≡ true
    → is_selected o (x ∷ executions) ≡ true
unfolding is_listed
is_selected-later none x executions h = h
is_selected-later (some id) x executions h = ground (arith, h)

last_id-listed :
    (x : Execution) (executions : List Execution)
    → is_selected (last_id (x ∷ executions)) (x ∷ executions) ≡ true
unfolding last_id is_listed
last_id-listed x [] = ground (arith, eq_iff x.id x.id)
last_id-listed x (y ∷ executions) =
    is_selected-later (last_id (y ∷ executions)) x (y ∷ executions) (last_id-listed y executions)

nth-listed :
    (n : ℕ) (executions : List Execution) (x : Execution)
    → nth n executions ≡ some x
    → is_listed x.id executions ≡ true
unfolding nth is_listed
nth-listed n [] x h = absurd (ground (arith, h))
nth-listed zero (y ∷ executions) x h = ground (arith, h, eq_iff x.id x.id)
nth-listed (suc n) (y ∷ executions) x h = ground (arith, nth-listed n executions x h)

nth-position :
    (id : String) (executions : List Execution) (n : ℕ) (x : Execution)
    → position id executions ≡ some n
    → nth n executions ≡ some x
    → x.id ≡ id
unfolding position nth
nth-position id [] n x p h = absurd (ground (arith, p))
nth-position id (y ∷ executions) zero x p h = ground (arith, p, h, eq_iff y.id id)
nth-position id (y ∷ executions) (suc n) x p h =
    ground (arith, p, h, nth-position id executions n x)

-- The selected execution has the selected id.
selected_lem : (s : WatchState) (x : Execution) → selected s ≡ some x → s.selected_id ≡ some x.id
unfolding selected selected_index
selected_lem s x h = elim (Option-cases s.selected_id) [
  | inl nothing ↦ absurd (ground (arith, nothing, h))
  | inr (id, chosen) ↦ elim (Option-cases (position id s.detail.executions)) [
    | inl nowhere ↦ absurd (ground (arith, chosen, nowhere, h))
    | inr (n, place) ↦
        ground (arith, chosen, place, h, nth-position id s.detail.executions n x place)
  ]
]

-- Listed, or there is nothing to select.
abbrev pub HasSelection : WatchState → Type 0
HasSelection s =
    (is_selected s.selected_id s.detail.executions ≡ true)
    ⊎ ((s.detail.executions ≡ []) × (s.selected_id ≡ none))

-- The execution whose cancellation is to be confirmed is the one that is selected.
abbrev pub IsConfirmed : WatchState → Type 0
IsConfirmed s = (id : String) → s.confirmation ≡ some id → s.selected_id ≡ some id

ask_cancel-IsConfirmed :
    (s : WatchState) (id : String)
    → s.confirmation ≡ none
    → (ask_cancel s).confirmation ≡ some id
    → s.selected_id ≡ some id
unfolding ask_cancel
ask_cancel-IsConfirmed s id n h = elim (Option-cases (selected s)) [
  | inl nothing ↦ absurd (ground (arith, nothing, n, h))
  | inr (x, found) ↦ ground (arith, found, n, h, selected_lem s x found)
]

handle_key-IsConfirmed :
    (key : KeyEvent) (s : WatchState) → IsConfirmed s → IsConfirmed (handle_key key s).1
unfolding handle_key
handle_key-IsConfirmed key s c id h = ground (arith, h, c id, ask_cancel-IsConfirmed s id)

-- The selection after a refresh.
refresh_selects :
    (detail : AgentSessionDetail) (s : WatchState)
    → let s' = reset_if (refresh detail s) in
      (s'.detail ≡ detail)
      × (s'.confirmation ≡ s.confirmation)
      × (s'.selected_id ≡ (
          if is_selected s.selected_id detail.executions
          then s.selected_id
          else last_id detail.executions))
unfolding refresh reset_output
refresh_selects detail s = ground arith

chosen-listed :
    (o : Option String) (executions : List Execution)
    → let chosen = if is_selected o executions then o else last_id executions in
      (is_selected chosen executions ≡ true) ⊎ ((executions ≡ []) × (chosen ≡ none))
unfolding last_id is_listed
chosen-listed none [] = inr (refl, refl)
chosen-listed (some id) [] = inr (refl, refl)
chosen-listed o (x ∷ executions) = elim (Bool-cases (is_selected o (x ∷ executions))) [
  | inl there ↦ inl (rw there there)
  | inr gone ↦ inl (rw gone (last_id-listed x executions))
]

select_relative-HasSelection :
    (amount : ℤ) (s : WatchState) → HasSelection s → HasSelection (select_relative amount s).1
unfolding select_relative reset_output
select_relative-HasSelection amount s h =
    let executions = s.detail.executions in
    let next = moved (or_zero (selected_index s)) amount (length executions - 1) in
    elim (Option-cases (nth next executions)) [
      | inl nothing ↦ ground (arith, h, nothing)
      | inr (x, found) ↦ ground (arith, h, found, nth-listed next executions x found)
    ]

handle_key-HasSelection :
    (key : KeyEvent) (s : WatchState) → HasSelection s → HasSelection (handle_key key s).1
unfolding handle_key ask_cancel
handle_key-HasSelection key s h =
    let less = select_relative-HasSelection (negsuc 0) s h in
    let more = select_relative-HasSelection (pos 1) s h in ground (arith, h, less, more)

-- Only an answer to a confirmation cancels.
cancel_target_lem :
    (key : KeyEvent) (s : WatchState) (id : String)
    → IsConfirmed s
    → cancel_target (handle_key key s) ≡ some id
    → s.confirmation ≡ some id
unfolding handle_key
cancel_target_lem key s id confirmed h = elim (Option-cases s.confirmation) [
  | inl unasked ↦ absurd (ground (arith, unasked, h))
  | inr (j, asked) ↦ ground (arith, asked, h, confirmed j asked)
]

-- What a page of output leaves as it is.
abbrev SameChoice : WatchState → WatchState → Type 0
SameChoice s s' =
    (s'.detail ≡ s.detail) × (s'.selected_id ≡ s.selected_id) × (s'.confirmation ≡ s.confirmation)

module _ (b64 : Base64) (lossy_chars : Bytes → Text) (number : ℕ → String) where
  ingest_event-keeps :
      (payload : ExecutionEventPayload) (s : WatchState)
      → SameChoice s (ingest_event b64 lossy_chars number payload s).1
  unfolding ingest_event push_chunk
  ingest_event-keeps payload s = ground arith

  ingest-keeps :
      (events : List ExecutionEvent) (next_seq : ℕ) (s : WatchState)
      → SameChoice s (ingest b64 lossy_chars number events next_seq s).1
  unfolding ingest
  ingest-keeps [] next_seq s = (refl, refl, refl)
  ingest-keeps (e ∷ events) next_seq s =
      let (r, s') = ingest_event b64 lossy_chars number e.payload s in
      ground (arith, ingest_event-keeps e.payload s, ingest-keeps events next_seq s')

-- The executions that are listed stay listed after a refresh.
abbrev pub OnlyAdds : WatchState → ViewEvent → Type 0
OnlyAdds s (refreshed detail) =
    (id : String) → is_listed id s.detail.executions ≡ true → is_listed id detail.executions ≡ true
OnlyAdds s _ = Unit

abbrev IsSound : WatchState → Type 0
IsSound s = HasSelection s × IsConfirmed s

kept_IsSound : (s s' : WatchState) → SameChoice s s' → IsSound s → IsSound s'
kept_IsSound s s' same h = (ground (arith, same, h), λ id c. ground (arith, same, c, h.1 id))

with_error-keeps :
    (f : Error → String) (r : Result (Unit {0})) (s : WatchState)
    → SameChoice s (with_error f (r, s))
with_error-keeps f (ok unit) s = (refl, refl, refl)
with_error-keeps f (err e) s = (refl, refl, refl)

refresh-IsSound :
    (detail : AgentSessionDetail) (s : WatchState)
    → OnlyAdds s (refreshed detail)
    → IsSound s
    → IsSound (reset_if (refresh detail s))
refresh-IsSound detail s adds h =
    let (same_detail, same_confirmation, choice) = refresh_selects detail s in
    let listed = chosen-listed s.selected_id detail.executions in
    (
      rw (same_detail, choice) listed,
      λ id c.
          let chosen : s.selected_id ≡ some id = h.1 id (sym same_confirmation ∙ c) in
          let there : is_listed id s.detail.executions ≡ true = ground (arith, h.0, chosen) in
          let still : is_selected s.selected_id detail.executions ≡ true =
            rw chosen (adds id there) in
          choice ∙ rw still chosen,
    )

module _ (b64 : Base64) (lossy_chars : Bytes → Text) (number : ℕ → String)
    (error_text : Error → String) where
  handle_event-IsSound :
      (event : ViewEvent) (s : WatchState)
      → OnlyAdds s event
      → IsSound s
      → IsSound (handle_event b64 lossy_chars number error_text event s)
  unfolding handle_event
  handle_event-IsSound (key_pressed key) s adds h =
      (handle_key-HasSelection key s h.0, handle_key-IsConfirmed key s h.1)
  handle_event-IsSound (refreshed detail) s adds h = refresh-IsSound detail s adds h
  handle_event-IsSound (failed message) s adds h = h
  handle_event-IsSound (page_read events next_seq) s adds h =
      let (r, s') = ingest b64 lossy_chars number events next_seq s in
      kept_IsSound s' (with_error error_text (r, s')) (with_error-keeps error_text r s')
        (kept_IsSound s s' (ingest-keeps b64 lossy_chars number events next_seq s) h)

  abbrev pub AllOnlyAdd : WatchState → List ViewEvent → Type 0
  AllOnlyAdd s [] = Unit
  AllOnlyAdd s (event ∷ events) =
      OnlyAdds s event × AllOnlyAdd (handle_event b64 lossy_chars number error_text event s) events

  handle_events-IsSound :
      (events : List ViewEvent) (s : WatchState)
      → AllOnlyAdd s events
      → IsSound s
      → IsSound (handle_events b64 lossy_chars number error_text events s)
  unfolding handle_events
  handle_events-IsSound [] s adds h = h
  handle_events-IsSound (event ∷ events) s adds h =
      handle_events-IsSound events (handle_event b64 lossy_chars number error_text event s) adds.1
        (handle_event-IsSound event s adds.0 h)

  new-IsSound : (detail : AgentSessionDetail) → IsSound (new detail)
  unfolding new
  new-IsSound detail = (chosen-listed none detail.executions, λ id c. absurd (ground (arith, c)))

  -- A view is opened, and after any events, of which the refreshes take no execution from the list,
  -- a key is pressed. The selected execution was then one of the list, unless the list was empty; and
  -- if the key has an execution cancelled, it is the one whose cancellation was to be confirmed.
  pub cancel_confirmed :
      (detail : AgentSessionDetail) (events : List ViewEvent) (key : KeyEvent) (id : String)
      → AllOnlyAdd (new detail) events
      → let s = handle_events b64 lossy_chars number error_text events (new detail) in
        HasSelection s × (cancel_target (handle_key key s) ≡ some id → s.confirmation ≡ some id)
  cancel_confirmed detail events key id adds =
      let s = handle_events b64 lossy_chars number error_text events (new detail) in
      let (selection, confirmed) =
        handle_events-IsSound events (new detail) adds (new-IsSound detail) in
      (selection, λ c. cancel_target_lem key s id confirmed c)
