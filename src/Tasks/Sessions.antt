-- ===== src/Tasks/Sessions.antt =====
-- `on_approval_resolved` of services/local-core/enishi_core/services/negotiation.py, with
-- `create_agreement` of domains/common.py: what an owner's answer does to a session of this node.
use enishi.Prelude.{
  ℕ, ◌+◌, Bool, true, false, not, ◌&&◌, Option, none, some, List, [], ◌∷◌, ◌++◌, leb, ◌==◌,
  if◌then◌else◌,
}
use enishi.Prelude.Table.{Table, lookup, insert}
use enishi.Protocol.{NegotiationStatus, MessageType}
use enishi.Tasks.Types.{
  ApprovalStatus, ActionType, negotiation_decision, Approval, SessionResult, accepted_task,
  refused_by_owner, approval_lapsed, NegotiationSession, SessionMessage, Database,
  is_waiting_session,
}

abbrev pub same_id : Option ℕ → ℕ → Bool
same_id none i = false
same_id (some j) i = j == i

abbrev pub status_after : ApprovalStatus → NegotiationStatus
status_after ApprovalStatus.approved = NegotiationStatus.agreed
status_after _ = NegotiationStatus.failed

abbrev pub type_after : ApprovalStatus → MessageType
type_after ApprovalStatus.approved = MessageType.accept
type_after _ = MessageType.reject

abbrev pub for_decision : ActionType → Option ℕ → Option ℕ
for_decision negotiation_decision session_id = session_id
for_decision _ session_id = none

module _ {P : Type 0} where
  -- The greatest sequence of the session's messages, or 0.
  unfoldable pub last_sequence : ℕ → List (SessionMessage P) → ℕ
  last_sequence i [] = 0
  last_sequence i (m ∷ ms) =
      let rest = last_sequence i ms in
      if (m.session_id == i) && leb rest m.sequence then m.sequence else rest

  -- One agreement for a session: the first one stays.
  unfoldable pub create_agreement : ℕ → P → Table P → Table P
  create_agreement i agreed d = elim (lookup i d) [ none ↦ insert i agreed d | some _ ↦ d ]

  abbrev pub outcome_of : ApprovalStatus → P → ℕ → SessionResult P
  outcome_of ApprovalStatus.approved p i = accepted_task p i
  outcome_of ApprovalStatus.expired p i = approval_lapsed i
  outcome_of _ p i = refused_by_owner i

  abbrev pub agreements_after : ApprovalStatus → ℕ → P → Table P → Table P
  agreements_after ApprovalStatus.approved i p d = create_agreement i p d
  agreements_after _ i p d = d

  -- The clone that asked its owner; of an old approval that does not say so, the responder.
  abbrev pub sender_after : Option ℕ → NegotiationSession P → ℕ
  sender_after none s = s.responder_clone_id
  sender_after (some c) s = c

  abbrev pub settled : ℕ → Approval P → NegotiationSession P → NegotiationSession P
  settled approval_id a s = record s {
    status = status_after a.status;
    result = some (outcome_of a.status a.payload.proposal approval_id);
    pending_approval_id = none;
  }

  -- The changes, once the guards are passed.
  unfoldable pub settle_session :
      ℕ → Approval P → ℕ → NegotiationSession P → Database P → Database P
  unfolding create_agreement
  settle_session approval_id a i s db =
      let sender = sender_after a.payload.decider_clone_id s in
      let outcome = outcome_of a.status a.payload.proposal approval_id in
      let message : SessionMessage P = record {
        session_id = i;
        sequence = last_sequence i db.messages + 1;
        sender_agent_id = sender;
        receiver_agent_id =
            if sender == s.initiator_clone_id then s.responder_clone_id else s.initiator_clone_id;
        message_type = type_after a.status;
        outcome = outcome;
        requires_human_approval = true;
      } in
      record db {
        sessions = insert i (settled approval_id a s) db.sessions;
        messages = db.messages ++ message ∷ [];
        agreements = agreements_after a.status i a.payload.proposal db.agreements;
      }

  abbrev pub resolve_session :
      ℕ → Approval P → ℕ → Option (NegotiationSession P) → Database P → Database P
  resolve_session approval_id a i none db = db
  resolve_session approval_id a i (some s) db =
      if not (same_id s.pending_approval_id approval_id)
      then db
      else if not (is_waiting_session s.status)
      then db
      else settle_session approval_id a i s db

  unfoldable pub on_approval_resolved : ℕ → Approval P → Database P → Database P
  on_approval_resolved approval_id a db = elim (for_decision a.action_type a.payload.session_id) [
    | none ↦ db
    | some i ↦ resolve_session approval_id a i (lookup i db.sessions) db
  ]
