-- ===== src/Remote/Runs.antt =====
-- Histories of services/remote_negotiation.py: each call has a database session of its own, and what it
-- leaves uncommitted is rolled back when that is closed.
use enishi.Prelude.{ℕ, ◌≡◌, subst, sym, Bool, true, Option, List, [], ◌∷◌, All}
use enishi.Errors.{Result, ok, err}
use enishi.Exec.{Db, Exec}
use enishi.Exec.Triples.{Ends}
use enishi.Tasks.Types.{ApprovalStatus}
use enishi.Remote.Types.{Envelope, Tables}
use enishi.Remote.Domain.{Node, Call}
use enishi.Remote.Outbox.{flush_outbox}
use enishi.Remote.Inbox.{Delivery, Turn, process_inbox}
use enishi.Remote.Resolve.{resolve_remote_approval}
use enishi.Remote.Start.{Start, start_remote_negotiation}
use enishi.Remote.Machine.{Base, Local, Steps, stays, local, Follows}
use enishi.Remote.Invariants.{is_over, InOrder, nothing, nothing-InOrder, Steps-InOrder, Steps-over}
use enishi.Remote.Answered.{Kept, Fallback}
use enishi.Remote.Refinement.{Fits, flush_outbox-Kept, process_inbox-Kept}
use enishi.Remote.Resolved.{resolve_remote_approval-Kept}
use enishi.Remote.Started.{start_remote_negotiation-Kept}

pub data Event (J : Type 0) : Type 0 where
  inbox : List (Turn J × Delivery J) → Event J
  resolves : Call → ℕ → ApprovalStatus → Option J → Event J
  starts : Call → Start J → (Envelope J → Bool) → Event J
  flushes : (Envelope J → Bool) → ℕ → Event J

module _ {J C : Type 0} (node : Node J C) where
  -- A call from what is committed; what it leaves is what it committed.
  abbrev pub opened_db : Tables J C → Db (Tables J C)
  opened_db T = record { committed = T; working = T }

  abbrev pub left : {A : Type 0} → Exec (Tables J C) A → Tables J C → Tables J C
  left m T = (m (opened_db T)).1.committed

  unfoldable pub after : Event J → Tables J C → Tables J C
  unfolding process_inbox resolve_remote_approval start_remote_negotiation flush_outbox
  after (inbox deliveries) T = left (process_inbox node deliveries) T
  after (resolves call i target override) T =
      left (resolve_remote_approval node call i target override) T
  after (starts call s accepts) T = left (start_remote_negotiation node call s accepts) T
  after (flushes accepts now) T = (flush_outbox accepts now (opened_db T)).2.committed

  unfoldable pub run : List (Event J) → Tables J C → Tables J C
  unfolding after
  run [] T = T
  run (event ∷ events) T = run events (after event T)

  committed_Kept :
      {A : Type 0} (base : Base J) (end : Result A × Db (Tables J C))
      → Ends (λ _. Kept base) (Kept base) end
      → Follows base end.1.committed
  committed_Kept base (ok a, db) h = h.0
  committed_Kept base (err c, db) h = h.0

  committed_Fallback :
      {A : Type 0} (base : Base J) (end : Result A × Db (Tables J C))
      → Ends (λ _. Kept base) (Fallback base) end
      → Follows base end.1.committed
  committed_Fallback base (ok a, db) h = h.0
  committed_Fallback base (err c, db) h = h

  -- The times of the deliveries suit what is to hold of the messages that were seen.
  abbrev pub Suits : Base J → Event J → Type 0
  Suits base (inbox deliveries) = All (λ (d : Turn J × Delivery J). Fits base node d.0) deliveries
  Suits base _ = Unit

  after-Follows :
      (base : Base J) (event : Event J) (T : Tables J C)
      → Suits base event
      → Follows base T
      → Follows base (after event T)
  unfolding after
  after-Follows base (inbox deliveries) T suits h =
      committed_Kept base _
        ((process_inbox-Kept base node deliveries suits).at (opened_db T) (h, h))
  after-Follows base (resolves call i target override) T suits h =
      committed_Fallback base _
        ((resolve_remote_approval-Kept base node call i target override).at (opened_db T) (h, h))
  after-Follows base (starts call s accepts) T suits h =
      committed_Fallback base _
        ((start_remote_negotiation-Kept base node call s accepts).at (opened_db T) (h, h))
  after-Follows base (flushes accepts now) T suits h =
      (flush_outbox-Kept base node accepts now (opened_db T) (h, h)).0

  pub run-Follows :
      (base : Base J) (events : List (Event J)) (T : Tables J C)
      → All (Suits base) events
      → Follows base T
      → Follows base (run events T)
  unfolding run
  run-Follows base [] T suits h = h
  run-Follows base (event ∷ events) T (suits, all) h =
      run-Follows base events (after event T) all (after-Follows base event T suits h)

  -- Nothing is to hold of the messages that were seen.
  abbrev anything : (ℕ → Local J) → Base J
  anything sessions = record { sessions = sessions; seen = λ _. Unit }

  deliveries-Fits :
      (sessions : ℕ → Local J) (deliveries : List (Turn J × Delivery J))
      → All (λ (d : Turn J × Delivery J). Fits (anything sessions) node d.0) deliveries
  deliveries-Fits sessions [] = tt
  deliveries-Fits sessions (d ∷ deliveries) = (λ _ _ _. tt, deliveries-Fits sessions deliveries)

  event-Suits : (sessions : ℕ → Local J) (event : Event J) → Suits (anything sessions) event
  event-Suits sessions (inbox deliveries) = deliveries-Fits sessions deliveries
  event-Suits sessions (resolves call i target override) = tt
  event-Suits sessions (starts call s accepts) = tt
  event-Suits sessions (flushes accepts now) = tt

  events-Suits :
      (sessions : ℕ → Local J) (events : List (Event J)) → All (Suits (anything sessions)) events
  events-Suits sessions [] = tt
  events-Suits sessions (event ∷ events) =
      (event-Suits sessions event, events-Suits sessions events)

  -- Through any calls - deliveries of whatever content, answers of the owner, new negotiations, sending -
  -- each session goes from what the tables held for it only by steps of the abstract session.
  pub run-Steps :
      (events : List (Event J)) (T : Tables J C) (t : ℕ)
      → Steps (local t T) (local t (run events T))
  run-Steps events T t =
      let before = λ (i : ℕ). local i T in
      (run-Follows (anything before) events T (events-Suits before events) (λ i. stays, tt)).0 t

  -- From tables that hold nothing for a session, after any calls, its messages have the numbers
  -- 1, 2, 3 and so on up to its last sequence, in the order in which they were saved, and it has an
  -- agreement exactly when its status is agreed.
  pub run-InOrder :
      (events : List (Event J)) (T : Tables J C) (t : ℕ)
      → local t T ≡ nothing
      → InOrder (local t (run events T))
  run-InOrder events T t h =
      Steps-InOrder (run-Steps events T t) (subst InOrder (sym h) nothing-InOrder)

  -- A session that is agreed or failed keeps its row, its messages and its agreement through any calls.
  pub run-over :
      (events : List (Event J)) (T : Tables J C) (t : ℕ)
      → is_over (local t T).session ≡ true
      → local t (run events T) ≡ local t T
  run-over events T t h = Steps-over (run-Steps events T t) h
