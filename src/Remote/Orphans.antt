-- ===== src/Remote/Orphans.antt =====
-- An approval whose session the peer has ended, by services/remote_negotiation.py: it stays pending, and
-- nothing can resolve it.
use enishi.Prelude.{ℕ, ◌≡◌, refl, sym, ap, subst, ◌∙◌, Bool, true, false, Option, none, some}
use enishi.Prelude.Table.{lookup}
use enishi.Errors.{ok, err, invalid_state_transition}
use enishi.Exec.{Db, lift, read, ◌>>=◌}
use enishi.Exec.Triples.{
  Ends, Ensures, Ensures-pure, Ensures-lift, Ensures-read, Ensures-bind, Ensures-modify,
  Ensures-commit, Ensures-if,
}
use enishi.Protocol.{
  failed, MessageType, request, propose, counter, accept, reject, error, request_approval,
  approval_result, execute, receipt, ◌is_type◌,
}
use enishi.Tasks.Types.{ApprovalStatus, is_pending}
use enishi.Remote.Types.{Envelope, NegotiationSession, Approval, Tables}
use enishi.Remote.Domain.{Node, Call}
use enishi.Remote.Messages.{with_sequence, save_message, update_session, record_incoming}
use enishi.Remote.Receive.{gate}
use enishi.Remote.Handle.{Action, refused, respond, handle_message, handle_envelope}
use enishi.Remote.Awaiting.{require_pending, require_waiting}
use enishi.Remote.Resolve.{resolve_remote_approval}
use enishi.Remote.Passed.{gate-passed}
use enishi.Remote.Locals.{update_session_found, lookup-update_session}

abbrev pub is_refusal : MessageType → Bool
is_refusal reject = true
is_refusal error = true
is_refusal _ = false

no_request : (type : MessageType) → is_refusal type ≡ true → (type is_type request) ≡ false
no_request reject h = refl
no_request error h = refl
no_request request h = cc
no_request propose h = cc
no_request counter h = cc
no_request accept h = cc
no_request request_approval h = cc
no_request approval_result h = cc
no_request execute h = cc
no_request receipt h = cc

module _ {J C : Type 0} where
  -- An approval that waits for an answer about a session.
  pub record Waiting (i s : ℕ) (a : Approval J) (T : Tables J C) : Type 0 where
    pub stored : lookup i T.approvals ≡ some a
    pub remote : a.is_remote_decision ≡ true
    pub still_pending : is_pending a.status ≡ true
    pub about : a.session_id ≡ s

  abbrev pub Failed : ℕ → Tables J C → Type 0
  Failed s T =
      (row : NegotiationSession J) × (lookup s T.sessions ≡ some row) × (row.status ≡ failed)

  require_pending-stored :
      (i s : ℕ) (a : Approval J) (T : Tables J C) → Waiting i s a T → require_pending i T ≡ ok a
  unfolding require_pending
  require_pending-stored i s a T w = rw (w.stored, w.remote, w.still_pending) refl

  require_waiting-Failed :
      (i s : ℕ) (a : Approval J) (T : Tables J C)
      → Waiting i s a T
      → Failed s T
      → require_waiting i a T ≡ err invalid_state_transition
  unfolding require_waiting
  require_waiting-Failed i s a T w (row, here, over) = rw (w.about, here, over) refl

module _ {J C : Type 0} (node : Node J C) (call : Call) (i s : ℕ) (a : Approval J) where
  unanswerable :
      (target : ApprovalStatus) (override : Option J) (db : Db (Tables J C))
      → is_pending target ≡ false
      → Waiting i s a db.working
      → Failed s db.working
      → resolve_remote_approval node call i target override db ≡ (err invalid_state_transition, db)
  unfolding resolve_remote_approval read lift ◌>>=◌
  unanswerable target override db ends w f =
      rw
        (
          require_pending-stored i s a db.working w,
          ends,
          require_waiting-Failed i s a db.working w f,
        )
        refl

module _ {J C : Type 0} (node : Node J C) (call : Call) (i : ℕ) (a : Approval J)
    (e : Envelope J) where
  abbrev pub Still : Tables J C → Type 0
  Still T = Waiting i e.session_id a T

  Still-update :
      (f : NegotiationSession J → NegotiationSession J) (row : NegotiationSession J)
      (T : Tables J C)
      → lookup e.session_id T.sessions ≡ some row
      → Still T
      → Still (update_session e.session_id f T)
  Still-update f row T here w = record {
    stored =
        ap (λ (U : Tables J C). lookup i U.approvals)
          (update_session_found e.session_id f row T here)
        ∙ w.stored;
    remote = w.remote;
    still_pending = w.still_pending;
    about = w.about;
  }

  refused-Failed :
      (row : NegotiationSession J)
      → Ensures
          (λ db. Still db.working × (lookup e.session_id db.working.sessions ≡ some row))
          (refused node call e)
          (λ _ db. Still db.working × Failed e.session_id db.working)
          (λ _. Unit {0})
  unfolding refused
  refused-Failed row =
      Ensures-bind
        (Ensures-modify {Q = λ _ db. Still db.working × Failed e.session_id db.working} _ (λ db p. (
          Still-update _ row db.working p.1 p.0,
          (_, lookup-update_session e.session_id _ row db.working p.1, refl),
        )))
        λ _.
          Ensures-bind
            (Ensures-commit {Q = λ _ db. Still db.working × Failed e.session_id db.working}
              (λ db p. p))
            λ _. Ensures-pure _ (λ db p. p)

  respond-Failed :
      (type : MessageType) (row session : NegotiationSession J)
      → is_refusal type ≡ true
      → Ensures
          (λ db. Still db.working × (lookup e.session_id db.working.sessions ≡ some row))
          (respond node call type e session)
          (λ _ db. Still db.working × Failed e.session_id db.working)
          (λ _. Unit {0})
  unfolding respond
  respond-Failed reject row session h = refused-Failed row
  respond-Failed error row session h = refused-Failed row
  respond-Failed request row session h = cc
  respond-Failed propose row session h = cc
  respond-Failed counter row session h = cc
  respond-Failed accept row session h = cc
  respond-Failed request_approval row session h = cc
  respond-Failed approval_result row session h = cc
  respond-Failed execute row session h = cc
  respond-Failed receipt row session h = cc

  Still-saved : (T : Tables J C) → Still T → Still (save_message e.session_id e T)
  unfolding save_message
  Still-saved T w = record {
    stored = w.stored;
    remote = w.remote;
    still_pending = w.still_pending;
    about = w.about;
  }

  message-Failed :
      (o : Option (NegotiationSession J))
      → is_refusal e.message_type ≡ true
      → Ensures
          (λ db. Still db.working × (gate e db.working ≡ ok o))
          (handle_message node call e o)
          (λ _ db. Still db.working × Failed e.session_id db.working)
          (λ _. Unit {0})
  unfolding handle_message record_incoming save_message
  message-Failed none h = Ensures-lift _ (λ _ _. tt) λ session none_found. cc
  message-Failed (some session) h =
      Ensures-lift _ (λ _ _. tt)
        λ s same.
          Ensures-lift _ (λ _ _. tt)
            λ _ _.
              Ensures-bind
                (Ensures-modify
                  {Q = λ _ db.
                    Still db.working
                    × (lookup e.session_id db.working.sessions
                        ≡ some (with_sequence e.sequence session))}
                  (record_incoming e.session_id e)
                  (λ db p.
                    let here = sym (gate-passed e db.working (some session) p.1).0 in
                    (
                      Still-update (with_sequence e.sequence) session
                          (save_message e.session_id e db.working) here
                          (Still-saved db.working p.0),
                      lookup-update_session e.session_id (with_sequence e.sequence) session
                          (save_message e.session_id e db.working) here,
                    )))
                λ _. respond-Failed e.message_type (with_sequence e.sequence session) s h

  handle-Failed :
      is_refusal e.message_type ≡ true
      → Ensures
          (λ db. Still db.working)
          (handle_envelope node call e)
          (λ _ db. Still db.working × Failed e.session_id db.working)
          (λ _. Unit {0})
  unfolding handle_envelope
  handle-Failed h =
      Ensures-read _ (λ _ _. tt)
        λ o.
          Ensures-if (e.message_type is_type request)
            (λ k. let other = no_request e.message_type h in cc) (λ _. message-Failed o h)

  -- Once a REJECT or ERROR of the peer is handled while an approval about its session is pending, that
  -- approval is still pending, and every attempt to resolve it - to approve it, to reject it or to let
  -- it expire - raises INVALID_STATE_TRANSITION and changes nothing.
  pub refused-unanswerable :
      (db db' : Db (Tables J C)) (action : Action) (later : Call) (target : ApprovalStatus)
      (override : Option J)
      → is_refusal e.message_type ≡ true
      → Waiting i e.session_id a db.working
      → handle_envelope node call e db ≡ (ok action, db')
      → is_pending target ≡ false
      → Waiting i e.session_id a db'.working
        × (resolve_remote_approval node later i target override db'
            ≡ (err invalid_state_transition, db'))
  refused-unanswerable db db' action later target override h w handled ends =
      let (still, over) =
        subst
          (Ends (λ _ (d : Db (Tables J C)). Still d.working × Failed e.session_id d.working)
            (λ _. Unit {0}))
          handled ((handle-Failed h).at db w) in
      (still, unanswerable node later i e.session_id a target override db' ends still over)
