-- ===== src/Remote/Answered.antt =====
-- The parts of `_handle_envelope` of services/remote_negotiation.py that answer a message: each leads
-- its session on by steps of the abstract session.
use enishi.Prelude.{
  ℕ, ◌+◌, ◌≡◌, refl, sym, ap, subst, ◌∙◌, true, false, Option, none, some, is_some, Option-cases,
  inl, inr, ◌==◌,
}
use enishi.Prelude.Table.{lookup}
use enishi.Errors.{ok}
use enishi.Exec.{Db}
use enishi.Exec.Triples.{
  Ensures, Ensures-pure, Ensures-raise, Ensures-lift, Ensures-read, Ensures-bind, Ensures-modify,
  Ensures-commit, Ensures-if, Ensures-option, Ensures-weaken, Both,
}
use enishi.Protocol.{NegotiationStatus, agreed, MessageType, is_terminal}
use enishi.Remote.Types.{Envelope, SessionResult, NegotiationSession, Tables}
use enishi.Remote.Domain.{Node, Call}
use enishi.Remote.Messages.{
  with_sequence, save_message, enqueue_envelope, update_session, record_outgoing, register_node,
  ensure_device_node, transport, build_envelope,
}
use enishi.Remote.Writes.{
  store_delegations, store_approval_rules, delegation_enabled, approval_rule, ended, end_session,
  add_agreement, create_remote_agreement, agree,
}
use enishi.Remote.Handle.{send_reply}
use enishi.Remote.Guards.{sender_node}
use enishi.Remote.Locals.{update_session_found, lookup-update_session}
use enishi.Remote.Machine.{Base, SameTerms, local, Follows}
use enishi.Remote.Follows.{record_outgoing-Follows, agreed-Follows, kept_agreement-Follows}

-- The terms of a session whose status, result and approval alone change.
pub same_terms :
    {J : Type 0} (row : NegotiationSession J) (status : NegotiationStatus)
    (result : Option (SessionResult J)) (pending_approval_id : Option ℕ)
    → SameTerms row
        (record row { status = status; result = result; pending_approval_id = pending_approval_id })
same_terms row status result pending_approval_id = record {
  initiator = refl;
  responder = refl;
  peer = refl;
  intent = refl;
  version = refl;
  sequence = refl;
}

pub ok-same : {A : Type 0} {x y : A} → ok x ≡ ok y → x ≡ y
ok-same h = cc

module _ {J C : Type 0} (base : Base J) where
  -- A database whose sessions have all come by steps, and what is left of that when a method raises.
  abbrev pub Kept : Db (Tables J C) → Type 0
  Kept db = Both (Follows base) db

  abbrev pub Fallback : Db (Tables J C) → Type 0
  Fallback db = Follows base db.committed

  module _ (s : ℕ) where
    -- The same, where the open transaction shows a session.
    abbrev pub Shows : Option (NegotiationSession J) → Db (Tables J C) → Type 0
    Shows known db = Kept db × (lookup s db.working.sessions ≡ known)

    abbrev pub Open : NegotiationSession J → Db (Tables J C) → Type 0
    Open row = Shows (some row)

    pub delegation_enabled-Shows :
        (known : Option (NegotiationSession J)) (user_id action : ℕ)
        → Ensures (Shows known) (delegation_enabled user_id action) (λ _. Shows known) Fallback
    unfolding delegation_enabled local
    delegation_enabled-Shows known user_id action =
        Ensures-read _ (λ db p. p.0.0)
          λ holds.
            Ensures-bind
              (Ensures-modify {Q = λ _. Shows known} (store_delegations user_id action)
                (λ db p. p.0))
              λ _.
                Ensures-bind (Ensures-commit {Q = λ _. Shows known} (λ db p. ((p.0.1, p.0.1), p.1)))
                  λ _. Ensures-pure holds (λ db p. p)

    pub approval_rule-Shows :
        (known : Option (NegotiationSession J)) (user_id action : ℕ)
        → Ensures (Shows known) (approval_rule user_id action) (λ _. Shows known) Fallback
    unfolding approval_rule local
    approval_rule-Shows known user_id action =
        Ensures-read _ (λ db p. p.0.0)
          λ holds.
            Ensures-bind
              (Ensures-modify {Q = λ _. Shows known} (store_approval_rules user_id action)
                (λ db p. p.0))
              λ _.
                Ensures-bind (Ensures-commit {Q = λ _. Shows known} (λ db p. ((p.0.1, p.0.1), p.1)))
                  λ _. Ensures-pure holds (λ db p. p)

    module _ (node : Node J C) where
      pub ensure_device_node-Shows :
          (known : Option (NegotiationSession J)) (personal_id : ℕ)
          → Ensures (Shows known) (ensure_device_node node personal_id) (λ _. Shows known) Fallback
      unfolding ensure_device_node local
      ensure_device_node-Shows known personal_id =
          Ensures-read _ (λ db p. p.0.0)
            λ owner.
              Ensures-option owner
                (λ _.
                  Ensures-bind
                    (Ensures-modify {Q = λ _. Shows known} (register_node node personal_id)
                      (λ db p. p.0))
                    (λ _. Ensures-pure node.node_id (λ db p. p)))
                (λ other _.
                  Ensures-if (other == personal_id) (λ _. Ensures-pure node.node_id (λ db p. p.0))
                    (λ _. Ensures-raise _ (λ db p. p.0.0.0)))

      pub transport-Open :
          (row session : NegotiationSession J) (sender : Option ℕ) (receiver_node_id : ℕ)
          → Ensures
              (Open row)
              (transport node session sender receiver_node_id)
              (λ _. Open row)
              Fallback
      unfolding transport
      transport-Open row session sender receiver_node_id =
          Ensures-option session.responder_agent_id (λ _. Ensures-pure _ (λ db p. p))
            (λ _ _.
              Ensures-lift _ (λ db p. p.0.0)
                λ sender_id _.
                  Ensures-read _ (λ db p. p.0.0)
                    λ _.
                      Ensures-bind
                        (Ensures-weaken (λ db p. p.0) (λ _ db p. p) (λ db p. p)
                          (ensure_device_node-Shows (some row) sender_id))
                        λ device. Ensures-pure _ (λ db p. p))

  pub lookup-record_outgoing :
      (s : ℕ) (reply : Envelope J) (approval_id : Option ℕ) (row : NegotiationSession J)
      (db : Tables J C)
      → lookup s db.sessions ≡ some row
      → lookup s (record_outgoing s reply approval_id db).sessions
        ≡ some (with_sequence reply.sequence row)
  unfolding record_outgoing save_message enqueue_envelope
  lookup-record_outgoing s reply approval_id row db h =
      lookup-update_session s (with_sequence reply.sequence) row _ h

  module _ (node : Node J C) (call : Call) (e : Envelope J) where
    -- A reply takes the next number.
    pub send_reply-Open :
        (row session : NegotiationSession J) (sender : Option ℕ) (message_type : MessageType)
        (delta payload : J)
        → is_terminal row.status ≡ false
        → row.last_sequence ≡ e.sequence
        → Ensures
            (Open e.session_id row)
            (send_reply node call e session sender message_type delta payload)
            (λ _. Open e.session_id (with_sequence (e.sequence + 1) row))
            Fallback
    unfolding send_reply
    send_reply-Open row session sender message_type delta payload open_yet now =
        Ensures-bind (transport-Open e.session_id node row session sender (sender_node e)) (λ ids.
          let reply =
            build_envelope node call e.session_id session ids e.sender_agent_id message_type
              (e.sequence + 1) delta payload in
          Ensures-modify (record_outgoing e.session_id reply none) (λ db p. (
            (
              p.0.0,
              record_outgoing-Follows base e.session_id reply none row db.working p.1 open_yet
                  (ap (λ n. n + 1) (sym now)) p.0.1,
            ),
            lookup-record_outgoing e.session_id reply none row db.working p.1,
          )))

  -- The transaction between a session's end and its agreement.
  pub record Ending (s : ℕ) (row : NegotiationSession J) (result : SessionResult J)
      (db : Db (Tables J C)) : Type 0 where
    pub kept : Follows base db.committed
    pub before : Tables J C
    pub ended_now : db.working ≡ update_session s (ended agreed result) before
    pub followed : Follows base before
    pub found : lookup s before.sessions ≡ some row

  agreement_before :
      (s : ℕ) (row : NegotiationSession J) (result : SessionResult J) (db : Db (Tables J C))
      (p : Ending s row result db)
      → lookup s db.working.agreements ≡ lookup s p.before.agreements
  agreement_before s row result db p =
      ap (λ T. lookup s T.agreements) p.ended_now
      ∙ ap (λ T. lookup s T.agreements)
          (update_session_found s (ended agreed result) row p.before p.found)

  Ending-kept :
      (s : ℕ) (row : NegotiationSession J) (result : SessionResult J) (db : Db (Tables J C))
      → is_terminal row.status ≡ false
      → Ending s row result db
      → is_some (lookup s db.working.agreements) ≡ true
      → Follows base db.working
  Ending-kept s row result db open_yet p there =
      elim (Option-cases (lookup s p.before.agreements)) [
        | inl e ↦ let none_there = agreement_before s row result db p in cc
        | inr (a, e) ↦ subst (Follows base) (sym p.ended_now) (
            kept_agreement-Follows base s (ended agreed result) row a p.before p.found e open_yet
              refl (same_terms row agreed (some result) row.pending_approval_id) p.followed)
      ]

  Ending-new :
      (s : ℕ) (row session : NegotiationSession J) (payload : J) (result : SessionResult J)
      (db : Db (Tables J C))
      → is_terminal row.status ≡ false
      → Ending s row result db
      → is_some (lookup s db.working.agreements) ≡ false
      → Follows base (add_agreement s session payload db.working)
  Ending-new s row session payload result db open_yet p absent =
      elim (Option-cases (lookup s p.before.agreements)) [
        | inl e ↦
            subst (λ T. Follows base (add_agreement s session payload T)) (sym p.ended_now)
              (agreed-Follows base s (ended agreed result) row session payload p.before p.found e
                open_yet refl (same_terms row agreed (some result) row.pending_approval_id)
                p.followed)
        | inr (a, e) ↦ let some_there = agreement_before s row result db p in cc
      ]

  -- The session ends agreed, with its agreement: one that it has already is kept.
  pub agree-Kept :
      (s : ℕ) (row session : NegotiationSession J) (payload : J) (result : SessionResult J)
      → is_terminal row.status ≡ false
      → Ensures (Open s row) (agree s session payload result) (λ _. Kept) Fallback
  unfolding agree create_remote_agreement
  agree-Kept s row session payload result open_yet =
      Ensures-bind
        (Ensures-modify {Q = λ _. Ending s row result} (end_session s agreed result) (λ db p.
          record {
            kept = p.0.0;
            before = db.working;
            ended_now = refl;
            followed = p.0.1;
            found = p.1;
          }))
        (λ _.
          Ensures-read _ (λ db p. p.kept)
            λ existing.
              Ensures-if existing
                (λ e.
                  Ensures-pure tt (λ db p.
                    (p.0.kept, Ending-kept s row result db open_yet p.0 (ok-same p.1 ∙ e))))
                (λ e.
                  Ensures-bind {M = λ _ db. Follows base db.working}
                    (Ensures-modify (add_agreement s session payload) (λ db p.
                      Ending-new s row session payload result db open_yet p.0 (ok-same p.1 ∙ e)))
                    (λ _. Ensures-commit (λ db p. (p, p)))))
