-- ===== src/Remote/Resolve.antt =====
-- `resolve_remote_approval` of services/remote_negotiation.py: the owner's answer, or the end of its
-- time, becomes the node's next message.
use enishi.Prelude.{ℕ, ◌+◌, Bool, true, false, ◌&&◌, Option, none, some, [], ◌∷◌, if◌then◌else◌}
use enishi.Prelude.Table.{insert}
use enishi.Errors.{Result, ok, err, Done, unhandled}
use enishi.Exec.{Exec, pure, lift, read, modify, commit, ◌>>=◌, ◌>>◌, found}
use enishi.Protocol.{opened, failed, MessageType, counter, accept, reject}
use enishi.PublicReasons.{ReasonCode, human_rejected, to_public_reason}
use enishi.Tasks.Types.{ApprovalStatus, is_pending}
use enishi.Remote.Types.{
  agreed_by_human, countered_by_human, refused_by_human, NegotiationSession, Approval, Tables,
  or_else,
}
use enishi.Remote.Domain.{ApprovalReply, DecisionDomain, Node, Call}
use enishi.Remote.Guards.{get_domain}
use enishi.Remote.Messages.{update_session, record_outgoing, transport, build_envelope}
use enishi.Remote.Writes.{agree, ended}
use enishi.Remote.Awaiting.{require_pending, require_waiting}

abbrev pub is_approved : ApprovalStatus → Bool
is_approved ApprovalStatus.approved = true
is_approved _ = false

abbrev pub refusal_reason : ApprovalStatus → ReasonCode
refusal_reason ApprovalStatus.expired = ReasonCode.approval_expired
refusal_reason _ = human_rejected

abbrev pub is_accept : MessageType → Bool
is_accept accept = true
is_accept _ = false

abbrev pub resolved : {J : Type 0} → ℕ → ApprovalStatus → Approval J → Approval J
resolved now status a = record a { status = status; resolved_at = some now }

abbrev pub no_longer_pending : {J : Type 0} → NegotiationSession J → NegotiationSession J
no_longer_pending session = record session { pending_approval_id = none }

abbrev pub reopened : {J : Type 0} → NegotiationSession J → NegotiationSession J
reopened session = record session { status = opened; result = some countered_by_human }

module _ {J C : Type 0} (node : Node J C) (call : Call) where
  open node use {json}

  abbrev pub public_payload : ApprovalStatus → Approval J → MessageType → J
  public_payload target a counter = json.reason_payload (to_public_reason a.reason_codes)
  public_payload target a reject =
      json.reason_payload (to_public_reason (refusal_reason target ∷ []))
  public_payload target a _ = json.empty

  -- The session and the approval, once the answer is in the outbox.
  unfoldable pub close_approval : ℕ → ApprovalStatus → Approval J → Tables J C → Tables J C
  unfolding update_session insert
  close_approval approval_id target a db =
      update_session a.session_id no_longer_pending
        (record db { approvals = insert approval_id (resolved call.now target a) db.approvals })

  -- How the session goes on.
  unfoldable pub conclude :
      ApprovalStatus
      → ℕ
      → NegotiationSession J
      → DecisionDomain J C
      → ApprovalReply J
      → Exec (Tables J C) Done
  unfolding update_session agree
  conclude target session_id session domain reply =
      if is_approved target && is_accept reply.message_type
      then (do
        payload ← lift (domain.remote_agreement_payload reply.agreement_value)
        agree session_id session payload (agreed_by_human payload))
      else if is_approved target
      then modify (update_session session_id reopened)
      else (do
        code ← lift (found unhandled (json.code_of reply.delta))
        modify (update_session session_id (ended failed (refused_by_human code))))

  -- An approval of an older version has its proposal under the slots' names.
  unfoldable pub reply_of :
      DecisionDomain J C → ApprovalStatus → Approval J → Option J → Result (ApprovalReply J)
  reply_of domain target a override =
      domain.approval_reply (is_approved target) target
        (or_else (json.non_empty a.proposal) (json.slot_proposal a.selected_slot))
        (or_else (json.non_empty a.public_context) (json.slot_context a.candidate_slots)) override

  -- `a or b`, of which either may be missing.
  abbrev pub first_of : Option ℕ → Option ℕ → Option ℕ
  first_of none b = b
  first_of (some a) b = some a

  -- The answer of an approval whose session waits for it; a node id that is nowhere is the empty text,
  -- here 0.
  unfoldable pub resolve_waiting :
      ℕ
      → ApprovalStatus
      → Option J
      → Approval J
      → NegotiationSession J
      → Exec (Tables J C) (Approval J)
  unfolding get_domain reply_of transport record_outgoing close_approval conclude
  resolve_waiting approval_id target override a session = do
    domain ← lift (get_domain node session.intent)
    reply ← lift (reply_of domain target a override)
    ids ←
        transport node session (first_of a.own_personal_agent_id session.responder_agent_id)
          (or_else (first_of a.peer_node_id session.remote_peer_agent_id) 0)
    modify (
        record_outgoing a.session_id
          (build_envelope node call a.session_id session ids
            (or_else a.peer_personal_agent_id
              (or_else session.initiator_agent_id session.initiator_clone_id))
            reply.message_type (session.last_sequence + 1) reply.delta
            (public_payload target a reply.message_type))
          (some approval_id))
    modify (close_approval approval_id target a)
    conclude target a.session_id session domain reply
    commit
    pure (resolved call.now target a)

  -- A target that is no end of an approval raises `ValueError`.
  unfoldable pub resolve_remote_approval :
      ℕ → ApprovalStatus → Option J → Exec (Tables J C) (Approval J)
  unfolding require_pending require_waiting resolve_waiting
  resolve_remote_approval approval_id target override = do
    a ← read (require_pending approval_id)
    lift (if is_pending target then err unhandled else ok tt)
    session ← read (require_waiting approval_id a)
    resolve_waiting approval_id target override a session
