-- ===== src/Daemon/Live/Follows.antt =====
-- A subscriber is sent the stored events behind its cursor once and in order, whatever the
-- broadcast channel loses, and nothing behind the first `finished` event.
use loomterm.Prelude.{
  ℕ, ◌+◌, ◌-◌, String, ◌≡◌, refl, sym, subst, ◌∙◌, inl, inr, Bool, true, false, not, ◌||◌, ◌==◌,
  List, [], ◌∷◌, ◌++◌, arith, if◌then◌else◌, leb, eqb, take, append_assoc, append-nil, Bool-cases,
  eq_iff,
}
use loomterm.Result.{protocol}
use loomterm.Model.Execution.{Base64, ExecutionEvent}
use loomterm.Store.Tables.{Db}
use loomterm.Store.Journal.{IsConsistent}
use loomterm.Daemon.Subscription.{is_finish}
use loomterm.Daemon.Subscription.Pages.{
  until_finish, any_finish, until_finish-append, any_finish-append,
}
use loomterm.Daemon.Live.Pages.{IsGoingOn, Grows-refl, Grows-trans, replay-Sends}
use loomterm.Daemon.Live.{
  Wakeup, request, disconnected, received, lagged, closed, Moment, Replay, Ending, waiting,
  returned, failed, Followed, ends, after_events, after_replay, last_replay, replay, handle_wakeup,
}
use loomterm.Daemon.Live.Stored.{stored, Grows, IsPart, IsPart-append, IsPart-Grows}

-- No replay failed or ran out of fuel.
abbrev pub is_sound : Ending → Bool
is_sound waiting = true
is_sound returned = true
is_sound (failed (protocol message)) = true
is_sound _ = false

abbrev pub is_waiting : Ending → Bool
is_waiting waiting = true
is_waiting _ = false

module _ (b64 : Base64) (id : String) where
  -- An event of the execution that the channel gives is stored under its number.
  abbrev pub IsHonest : Db → Wakeup → Type 0
  IsHonest db (received e) = e.execution_id ≡ id → take 1 (stored b64 id db (e.seq - 1)) ≡ e ∷ []
  IsHonest db _ = Unit

  -- The database at each wakeup and behind it: the execution is there, and its journal goes on.
  abbrev pub IsHistory : Db → List Moment → Type 0
  IsHistory db [] = Unit
  IsHistory db (m ∷ moments) =
      IsConsistent m.db
      × Grows b64 id db m.db
      × IsHonest m.db m.wakeup
      × IsGoingOn b64 id m.db m.replay
      × IsHistory (m.replay.pages 0) moments

abbrev pub last_db : Db → List Moment → Db
last_db db [] = db
last_db db (m ∷ moments) = last_db (m.replay.pages 0) moments

module _ (b64 : Base64) (id : String) where
  pub history-Grows :
      (db : Db) (moments : List Moment)
      → IsHistory b64 id db moments
      → Grows b64 id db (last_db db moments)
  history-Grows db [] h = Grows-refl b64 id db
  history-Grows db (m ∷ moments) h =
      let behind = m.replay.pages 0 in
      Grows-trans b64 id db m.db (last_db behind moments) h.1 (
        Grows-trans b64 id m.db behind (last_db behind moments) (h.3.since 0)
          (history-Grows behind moments h.4))

module _ (b64 : Base64) (now : ℕ) (id : String) (after_seq : ℕ) where
  -- What a subscription comes to that already sent `before`.
  pub record Follows (db : Db) (before : List ExecutionEvent) (s : Followed) : Type 0 where
    pub part : IsPart b64 id after_seq db s.cursor (before ++ s.events)
    pub at_finish : until_finish (before ++ s.events) ≡ before ++ s.events
    pub goes_on : is_waiting s.ending ≡ true → any_finish (before ++ s.events) ≡ false
    pub sound : is_sound s.ending ≡ true

  -- What goes on after more events were sent follows the journal.
  abbrev pub GoesOn : Db → Db → List ExecutionEvent → (ℕ → Followed) → Type 0
  GoesOn db final before again =
      (next : ℕ) (events : List ExecutionEvent)
      → IsPart b64 id after_seq db next (before ++ events)
      → any_finish (before ++ events) ≡ false
      → Follows final (before ++ events) (again next)

  -- What was sent up to the wakeup is a part of the journal behind it.
  IsPart-behind :
      {db : Db} (c : IsConsistent db) {p : Replay} (h : IsGoingOn b64 id db p) (cursor : ℕ)
      (events : List ExecutionEvent)
      → IsPart b64 id after_seq db cursor events
      → IsPart b64 id after_seq (p.pages 0) cursor events
  IsPart-behind c {p} h cursor events part =
      IsPart-Grows b64 id after_seq c (p.pages 0) cursor events (h.since 0) part

  module _ {db final : Db} (c : IsConsistent db) {p : Replay} (h : IsGoingOn b64 id db p)
      (grows : Grows b64 id (p.pages 0) final) (before : List ExecutionEvent)
      (unfinished : any_finish before ≡ false) where
    stopped :
        (cursor : ℕ) (events : List ExecutionEvent) (ending : Ending)
        → IsPart b64 id after_seq (p.pages 0) cursor (before ++ events)
        → until_finish events ≡ events
        → (is_waiting ending ≡ true → any_finish events ≡ false)
        → is_sound ending ≡ true
        → Follows final before (record { events = events; cursor = cursor; ending = ending })
    stopped cursor events ending part u g s = record {
      part =
          IsPart-Grows b64 id after_seq (h.consistent 0) final cursor (before ++ events) grows part;
      at_finish = until_finish-append before events ∙ rw (unfinished, u) refl;
      goes_on = λ w. any_finish-append before events ∙ rw (unfinished, g w) refl;
      sound = s;
    }

    went_on :
        (events : List ExecutionEvent) (s : Followed)
        → Follows final (before ++ events) s
        → Follows final before (after_events events s)
    went_on events s f =
        let joined = append_assoc before events s.events in
        record {
          part = rw joined at f.part;
          at_finish = rw joined at f.at_finish;
          goes_on = λ w. rw joined at (f.goes_on w);
          sound = f.sound;
        }

    pub replayed :
        (again : ℕ → Followed) (cursor : ℕ)
        → IsPart b64 id after_seq db cursor before
        → GoesOn (p.pages 0) final before again
        → Follows final before (after_replay again cursor (replay b64 now id p cursor))
    unfolding after_replay
    replayed again cursor part further =
        let d = replay-Sends b64 now id after_seq db p h cursor before c part in
        rw (d.returns, after_replay)
          (elim (Bool-cases d.sent.returned) [
            | inl done ↦ rw done (
                stopped d.sent.cursor d.sent.events returned d.part d.once
                  (λ w. absurd (ground (arith, w))) refl)
            | inr more ↦
                let still : any_finish (before ++ d.sent.events) ≡ false =
                  any_finish-append before d.sent.events ∙ rw (unfinished, d.more more) refl in
                rw more (
                  went_on d.sent.events (again d.sent.cursor)
                    (further d.sent.cursor d.sent.events d.part still))
          ])

    replayed_last :
        (cursor : ℕ)
        → IsPart b64 id after_seq db cursor before
        → Follows final before (last_replay cursor (replay b64 now id p cursor))
    replayed_last cursor part =
        let d = replay-Sends b64 now id after_seq db p h cursor before c part in
        rw (d.returns, last_replay)
          (stopped d.sent.cursor d.sent.events returned d.part d.once
            (λ w. absurd (ground (arith, w))) refl)

    -- Nothing is sent.
    ended :
        (cursor : ℕ) (ending : Ending)
        → IsPart b64 id after_seq db cursor before
        → is_sound ending ≡ true
        → Follows final before (ends cursor ending)
    ended cursor ending part s =
        let same = sym (append-nil before) in
        stopped cursor [] ending
          (subst (IsPart b64 id after_seq (p.pages 0) cursor) same
            (IsPart-behind c h cursor before part))
          refl (λ w. refl) s

    -- The next event is sent as it is received.
    received_next :
        (again : ℕ → Followed) (cursor : ℕ) (e : ExecutionEvent)
        → IsPart b64 id after_seq db cursor before
        → take 1 (stored b64 id db cursor) ≡ e ∷ []
        → GoesOn (p.pages 0) final before again
        → Follows final before (
            if is_finish e.payload
            then record { events = e ∷ []; cursor = cursor + 1; ending = returned }
            else after_events (e ∷ []) (again (cursor + 1)))
    received_next again cursor e sent_part stored_next further =
        let part =
          IsPart-behind c h (cursor + 1) (before ++ e ∷ [])
            (IsPart-append b64 id after_seq c cursor before (e ∷ []) sent_part (sym stored_next)) in
        elim (Bool-cases (is_finish e.payload)) [
          | inl done ↦ rw done (
              stopped (cursor + 1) (e ∷ []) returned part (rw done refl)
                (λ w. absurd (ground (arith, w))) refl)
          | inr more ↦
              let still : any_finish (before ++ e ∷ []) ≡ false =
                any_finish-append before (e ∷ []) ∙ rw (unfinished, more) refl in
              rw more
                (went_on (e ∷ []) (again (cursor + 1)) (further (cursor + 1) (e ∷ []) part still))
        ]

    -- Nothing is sent, and the loop goes on.
    ignored :
        (again : ℕ → Followed) (cursor : ℕ)
        → IsPart b64 id after_seq db cursor before
        → GoesOn (p.pages 0) final before again
        → Follows final before (again cursor)
    ignored again cursor part further =
        let same = append-nil before in
        rw same at
          (further cursor [] (rw same (IsPart-behind c h cursor before part)) (rw same unfinished))

    pub one_wakeup :
        (again : ℕ → Followed) (cursor : ℕ) (wakeup : Wakeup)
        → IsHonest b64 id db wakeup
        → IsPart b64 id after_seq db cursor before
        → GoesOn (p.pages 0) final before again
        → Follows final before (handle_wakeup b64 now id again cursor p wakeup)
    unfolding handle_wakeup
    one_wakeup again cursor request honest part further = ended cursor _ part refl
    one_wakeup again cursor disconnected honest part further = ended cursor _ part refl
    one_wakeup again cursor lagged honest part further = replayed again cursor part further
    one_wakeup again cursor closed honest part further = replayed_last cursor part
    one_wakeup again cursor (received e) honest part further =
        elim (Bool-cases (not (e.execution_id == id) || leb e.seq cursor)) [
          | inl other ↦ rw other (ignored again cursor part further)
          | inr ours ↦ elim (Bool-cases (eqb e.seq (cursor + 1))) [
            | inl next ↦
                let place : e.seq - 1 ≡ cursor = ground (arith, next) in
                let owner : e.execution_id ≡ id = ground (arith, ours, eq_iff e.execution_id id) in
                rw (ours, next)
                  (received_next again cursor e part (rw place at (honest owner)) further)
            | inr gap ↦ rw (ours, gap) (replayed again cursor part further)
          ]
        ]
