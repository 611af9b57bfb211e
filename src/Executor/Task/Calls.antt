-- ===== src/Executor/Task/Calls.antt =====
-- Calls of the store by the task of an execution: what holds after each, whatever other tasks do
-- before it.
use loomterm.Prelude.{
  ℕ, ◌+◌, ℤ, String, ◌≡◌, refl, Bool, true, false, Option, none, some, inl, inr, if◌then◌else◌,
  Bool-cases, Option-cases, find_key-update, eq_iff,
}
use loomterm.Result.{Result, ok, err}
use loomterm.Result.Run.{Action, continue, ◌>>=◌, lift}
use loomterm.Model.Execution.{ExecutionState, ExecutionOutcome, ExecutionEvent, is_terminal}
use loomterm.Store.Tables.{Db, ExecutionRow, execution_key, find_execution}
use loomterm.Store.Rows.{execution_from_row}
use loomterm.Store.Journal.{IsConsistent}
use loomterm.Store.Executions.{get_execution, finish, mark_running}
use loomterm.Store.Executions.Outcomes.{
  get_execution_missing, get_execution_found, finish_missing, finish_refused, finish_ok,
  to_finished,
}
use loomterm.Store.Executions.Consistency.{finish-Keeps, mark_running-Keeps}
use loomterm.Executor.Task.{World, Turn, call, current, finish_with, finish_once, notify}

-- Terminal, or gone.
abbrev pub is_ended : Option ExecutionRow → Bool
is_ended none = true
is_ended (some r) = is_terminal r.state

abbrev pub HasEnded : String → Db → Type 0
HasEnded id db = is_ended (find_execution id db) ≡ true

-- The store does not fail, and what others do keeps the database consistent and an execution that
-- has ended as it is.
pub record IsHarmless (id : String) (t : Turn) : Type 0 where
  pub answers : t.failure ≡ none
  pub consistent : (db : Db) → IsConsistent db → IsConsistent (t.others db)
  pub stays : (db : Db) → IsConsistent db → HasEnded id db → HasEnded id (t.others db)

-- Of the state after a step: what holds when it returned a value.
abbrev pub After : {A : Type 0} → (A → World → Type 0) → Result A → World → Type 0
After Q (ok a) w = IsConsistent w.db × Q a w
After Q (err e) w = IsConsistent w.db

pub record Leads {A : Type 0} (R : World → Type 0) (m : Action World A) (Q : A → World → Type 0)
    : Type 0 where
  pub at : (w : World) → IsConsistent w.db → R w → After Q (m w).0 (m w).1

continue-After :
    {A B : Type 0} (Q : A → World → Type 0) (S : B → World → Type 0) (r : Result A) (w : World)
    (f : A → Action World B)
    → After Q r w
    → ((a : A) → Leads (Q a) (f a) S)
    → After S (continue r w f).0 (continue r w f).1
continue-After Q S (ok a) w f h k = (k a).at w h.0 h.1
continue-After Q S (err e) w f h k = h

pub Leads-bind :
    {A B : Type 0} (R : World → Type 0) (Q : A → World → Type 0) (S : B → World → Type 0)
    (m : Action World A) (f : A → Action World B)
    → Leads R m Q
    → ((a : A) → Leads (Q a) (f a) S)
    → Leads R (m >>= f) S
Leads-bind R Q S m f h k = record {
  at = λ w c r. continue-After Q S (m w).0 (m w).1 f (h.at w c r) k;
}

pub Leads-if :
    {A : Type 0} (R : World → Type 0) (Q : A → World → Type 0) (b : Bool) (m n : Action World A)
    → (b ≡ true → Leads R m Q)
    → (b ≡ false → Leads R n Q)
    → Leads R (if b then m else n) Q
Leads-if R Q true m n h k = h refl
Leads-if R Q false m n h k = k refl

pub Leads-lift : {A : Type 0} (R : World → Type 0) (r : Result A) → Leads R (lift r) (λ a w. R w)
Leads-lift R (ok a) = record { at = λ w c r. (c, r) }
Leads-lift R (err e) = record { at = λ w c r. c }

abbrev pub Any : World → Type 0
Any w = Unit

-- The row that `finish` leaves.
pub finish-HasEnded :
    (now : ℕ) (id : String) (state : ExecutionState) (outcome : ExecutionOutcome) (db : Db)
    → IsConsistent db
    → is_terminal state ≡ true
    → HasEnded id (finish now id state outcome db).1
finish-HasEnded now id state outcome db c h = elim (Option-cases (find_execution id db)) [
  | inl gone ↦ rw (finish_missing db id now state outcome gone, gone) refl
  | inr (r, found) ↦ elim (Bool-cases (is_terminal r.state)) [
    | inl over ↦ rw (finish_refused db id now found state outcome over, found) over
    | inr live ↦ rw (finish_ok db id now found c state outcome live) (
        rw
          (
            find_key-update execution_key id id (to_finished now state outcome (r.last_seq + 1))
                db.executions (λ q. refl),
            (eq_iff id id).1 refl,
            found,
          )
          h)
  ]
]

notify-db : (r : Result ExecutionEvent) (w : World) → (continue r w notify).1.db ≡ w.db
notify-db (ok event) w = refl
notify-db (err e) w = refl

module _ (turns : ℕ → Turn) (id : String) (harmless : (n : ℕ) → IsHarmless id (turns n)) where
  abbrev before : World → Db
  before w = (turns w.calls).others w.db

  before-IsConsistent : (w : World) → IsConsistent w.db → IsConsistent (before w)
  before-IsConsistent w c = (harmless w.calls).consistent w.db c

  -- A call that the store answers.
  pub answered :
      {A : Type 0} (m : ℕ → Action Db A) (w : World)
      → call turns id m w ≡ (
        (m (turns w.calls).now (before w)).0,
        record w { db = (m (turns w.calls).now (before w)).1; calls = w.calls + 1 },
      )
  unfolding call
  answered m w = rw ((harmless w.calls).answers, call) refl

  pub finish_with-Ends :
      (state : ExecutionState) (outcome : ExecutionOutcome) (w : World)
      → is_terminal state ≡ true
      → IsConsistent w.db
      → let w' = (finish_with turns id state outcome w).1 in IsConsistent w'.db × HasEnded id w'.db
  finish_with-Ends state outcome w h c =
      let t = turns w.calls in
      let db = before w in
      let c' = before-IsConsistent w c in
      let m = finish t.now id state outcome db in
      let same = notify-db m.0 (record w { db = m.1; calls = w.calls + 1 }) in
      rw (answered (λ now. finish now id state outcome) w, same)
        (
          (finish-Keeps t.now id state outcome).at db c',
          finish-HasEnded t.now id state outcome db c' h,
        )

  -- The task finishes the execution, or another task has.
  pub finish_once-Ends :
      (state : ExecutionState) (outcome : ExecutionOutcome) (w : World)
      → is_terminal state ≡ true
      → IsConsistent w.db
      → let w' = (finish_once turns id state outcome w).1 in IsConsistent w'.db × HasEnded id w'.db
  unfolding execution_from_row
  finish_once-Ends state outcome w h c =
      let t = turns w.calls in
      let db = before w in
      let c' = before-IsConsistent w c in
      let next : World = record w { db = db; calls = w.calls + 1 } in
      let answers = answered (λ now. get_execution now id) w in
      elim (Option-cases (find_execution id db)) [
        | inl gone ↦ rw (answers, get_execution_missing t.now id db gone) (c', rw gone refl)
        | inr (r, found) ↦ elim (Bool-cases (is_terminal r.state)) [
          | inl over ↦ rw (answers, get_execution_found t.now id db found, over) (c', rw found over)
          | inr live ↦
              rw (answers, get_execution_found t.now id db found, live)
                (finish_with-Ends state outcome next h c')
        ]
      ]

  abbrev pub Ended : World → Type 0
  Ended w = HasEnded id w.db

  After-both :
      {A : Type 0} (r : Result A) (w : World) (R : World → Type 0)
      → IsConsistent w.db
      → R w
      → After (λ a. R) r w
  After-both (ok a) w R c h = (c, h)
  After-both (err e) w R c h = c

  pub Leads-finish_with :
      (state : ExecutionState) (outcome : ExecutionOutcome)
      → is_terminal state ≡ true
      → Leads Any (finish_with turns id state outcome) (λ unit. Ended)
  Leads-finish_with state outcome h = record {
    at = λ w c r.
        let (c', e) = finish_with-Ends state outcome w h c in
        After-both (finish_with turns id state outcome w).0 (finish_with turns id state outcome w).1
          Ended c' e;
  }

  pub Leads-finish_once :
      (state : ExecutionState) (outcome : ExecutionOutcome)
      → is_terminal state ≡ true
      → Leads Any (finish_once turns id state outcome) (λ unit. Ended)
  Leads-finish_once state outcome h = record {
    at = λ w c r.
        let (c', e) = finish_once-Ends state outcome w h c in
        After-both (finish_once turns id state outcome w).0 (finish_once turns id state outcome w).1
          Ended c' e;
  }

  -- What is read of the execution says whether it has ended.
  pub Leads-current :
      Leads Any (current turns id) (λ execution w. is_terminal execution.state ≡ true → Ended w)
  unfolding execution_from_row
  Leads-current = record {
    at = λ w c any.
        let t = turns w.calls in
        let db = before w in
        let c' = before-IsConsistent w c in
        let answers = answered (λ now. get_execution now id) w in
        elim (Option-cases (find_execution id db)) [
          | inl gone ↦ rw (answers, get_execution_missing t.now id db gone) c'
          | inr (r, found) ↦
              rw (answers, get_execution_found t.now id db found) (c', λ over. rw found over)
        ];
  }

  pub Leads-mark_running :
      (pid : ℕ) (pgid : ℤ)
      → Leads Any (call turns id (λ now. mark_running now id pid pgid) >>= notify) (λ unit. Any)
  Leads-mark_running pid pgid = record {
    at = λ w c any.
        let t = turns w.calls in
        let db = before w in
        let c' = before-IsConsistent w c in
        let m = mark_running t.now id pid pgid db in
        let same = notify-db m.0 (record w { db = m.1; calls = w.calls + 1 }) in
        After-both _ _ Any
          (rw (answered (λ now. mark_running now id pid pgid) w, same)
            ((mark_running-Keeps t.now id pid pgid).at db c'))
          tt;
  }
