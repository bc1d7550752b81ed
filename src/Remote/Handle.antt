-- ===== src/Remote/Handle.antt =====
-- `_handle_envelope` of services/remote_negotiation.py: one verified message, by the state of its
-- session.
use enishi.Prelude.{ℕ, ◌+◌, true, Option, none, some, ◌==◌, ltb, if◌then◌else◌}
use enishi.Prelude.Table.{insert}
use enishi.Errors.{ok, Done, invalid_state_transition}
use enishi.Exec.{Exec, pure, lift, read, modify, commit, ◌>>=◌, ◌>>◌, found}
use enishi.Protocol.{
  waiting_approval, failed, MessageType, request, propose, counter, accept, reject, error,
  max_counter_rounds, ◌is_type◌,
}
use enishi.PublicReasons.{to_public_reason}
use enishi.Tasks.Types.{ApprovalStatus}
use enishi.Remote.Types.{
  Outcome, CloneAgent, Envelope, agreed_in_rounds, failed_in_rounds, refused_by_peer,
  NegotiationSession, Approval, Tables, or_else,
}
use enishi.Remote.Domain.{Reply, DecisionDomain, Node, Call}
use enishi.Remote.Guards.{get_domain, resolve_own_identity, sender_node, require_bound_to_session}
use enishi.Remote.Messages.{
  request_payload, counter_rounds, own_last_offer_delta, update_session, record_incoming,
  record_outgoing, transport, build_envelope,
}
use enishi.Remote.Writes.{
  schedule_negotiation, high_value, delegation_enabled, approval_rule, end_session, agree,
  record_remote_decision,
}
use enishi.Remote.Receive.{gate, requested, open_session}

-- What is returned for the message's id.
pub data Action : Type 0 where
  processed approval_required : Action

module _ {J C : Type 0} (node : Node J C) (call : Call) where
  open node use {json}

  unfoldable pub send_reply :
      Envelope J → NegotiationSession J → Option ℕ → MessageType → J → J → Exec (Tables J C) Done
  unfolding transport record_outgoing
  send_reply e session sender message_type delta payload = do
    ids ← transport node session sender (sender_node e)
    modify (
        record_outgoing e.session_id
          (build_envelope node call e.session_id session ids e.sender_agent_id message_type
            (e.sequence + 1) delta payload)
          none)

  -- `_request_human_decision`: the session waits for the owner.
  unfoldable pub request_human_decision :
      Envelope J → Option ℕ → CloneAgent C → Reply J → J × J → Tables J C → Tables J C
  unfolding insert update_session
  request_human_decision e own clone reply (proposal, public_context) db =
      let approval : Approval J = record {
        user_id = clone.user_id;
        is_remote_decision = true;
        status = ApprovalStatus.pending;
        resolved_at = none;
        session_id = e.session_id;
        proposed_action = reply.proposed_action;
        proposal = proposal;
        public_context = public_context;
        selected_slot = json.selected_slot reply.approval_raw;
        candidate_slots = json.candidate_slots reply.approval_raw;
        reason_codes = reply.reason_codes;
        peer_node_id = some (sender_node e);
        peer_personal_agent_id = some e.sender_agent_id;
        own_personal_agent_id = own;
      } in
      update_session e.session_id
        (λ session. record session {
          status = waiting_approval;
          pending_approval_id = some call.approval_id;
        })
        (record db { approvals = insert call.approval_id approval db.approvals })

  -- The outcome of a decision, carried out.
  unfoldable pub answer :
      Outcome
      → Envelope J
      → NegotiationSession J
      → DecisionDomain J C
      → Option ℕ
      → CloneAgent C
      → ℕ
      → Reply J
      → Exec (Tables J C) Action
  unfolding send_reply request_human_decision agree to_public_reason
  answer Outcome.approval_required e session domain own clone rounds reply = do
    context ← lift (domain.approval_context reply.approval_raw)
    modify (request_human_decision e own clone reply context)
    commit
    pure approval_required
  answer Outcome.auto_accept e session domain own clone rounds reply = do
    send_reply e session own accept reply.reply_delta json.empty
    payload ← lift (domain.remote_agreement_payload reply.agreement_value)
    agree e.session_id session payload (agreed_in_rounds payload rounds)
    commit
    pure processed
  answer Outcome.reject e session domain own clone rounds reply = do
    send_reply e session own reject reply.reply_delta
        (json.reason_payload (to_public_reason reply.reason_codes))
    modify (
        end_session e.session_id failed
          (failed_in_rounds (or_else (json.code_of reply.reply_delta) json.rejected_text) rounds))
    commit
    pure processed
  answer Outcome.counter e session domain own clone rounds reply =
      if ltb rounds max_counter_rounds
      then (do
        send_reply e session own counter reply.reply_delta
            (json.reason_payload (to_public_reason reply.reason_codes))
        commit
        pure processed)
      else (do
        let code = domain.remote_rounds_exhausted_code
        send_reply e session own error (json.code_delta code) json.empty
        modify (end_session e.session_id failed (failed_in_rounds code rounds))
        commit
        pure processed)

  -- A PROPOSE or COUNTER of the peer: what the owner's clone answers.
  unfoldable pub decide : Envelope J → NegotiationSession J → Exec (Tables J C) Action
  unfolding resolve_own_identity get_domain request_payload counter_rounds own_last_offer_delta
      delegation_enabled approval_rule record_remote_decision answer
  decide e session = do
    own ← read (resolve_own_identity session e.receiver_agent_id)
    domain ← lift (get_domain node session.intent)
    payload ← read (request_payload e.session_id)
    position ← lift (domain.derive_own_position own.2.profile payload (sender_node e))
    rounds ← read (λ db. ok (counter_rounds e.session_id db + 1))
    delegated ←
        delegation_enabled own.2.user_id (or_else domain.delegation_key schedule_negotiation)
    high ← approval_rule own.2.user_id high_value
    last ← read (λ db. ok (own_last_offer_delta e.session_id e.sender_agent_id db))
    reply ← lift (
        domain.decide_remote_reply own.2.profile position e.delta (record {
          is_initiator = session.initiator_clone_id == own.1;
          round_number = rounds;
          peer_personal_agent_id = e.sender_agent_id;
          delegation_enabled = delegated;
          high_value_approval_required = high;
          own_last_delta = last;
        }))
    modify (record_remote_decision e.session_id own.1 reply)
    answer reply.outcome e session domain own.0 own.2 rounds reply

  -- The peer's ACCEPT makes the agreement.
  unfoldable pub accepted : Envelope J → NegotiationSession J → Exec (Tables J C) Action
  unfolding get_domain request_payload counter_rounds agree
  accepted e session = do
    domain ← lift (get_domain node session.intent)
    payload ← read (request_payload e.session_id)
    value ← lift (domain.agreement_value_from_accept_delta e.delta payload)
    agreed_payload ← lift (domain.remote_agreement_payload value)
    rounds ← read (λ db. ok (counter_rounds e.session_id db + 1))
    agree e.session_id session agreed_payload (agreed_in_rounds agreed_payload rounds)
    commit
    pure processed

  unfoldable pub refused : Envelope J → Exec (Tables J C) Action
  refused e = do
    modify (
        end_session e.session_id failed (
          refused_by_peer (or_else (json.code_of e.delta) (json.type_text e.message_type))
            (json.reason_of e.payload)))
    commit
    pure processed

  unfoldable pub respond :
      MessageType → Envelope J → NegotiationSession J → Exec (Tables J C) Action
  unfolding decide accepted refused
  respond propose e session = decide e session
  respond counter e session = decide e session
  respond accept e session = accepted e session
  respond reject e session = refused e
  respond error e session = refused e
  respond other e session = commit >> pure processed

  unfoldable pub handle_request : Envelope J → Exec (Tables J C) Action
  unfolding requested open_session
  handle_request e = do
    session ← read (requested node e)
    modify (open_session e session)
    commit
    pure processed

  unfoldable pub handle_message :
      Envelope J → Option (NegotiationSession J) → Exec (Tables J C) Action
  unfolding require_bound_to_session record_incoming respond
  handle_message e known = do
    session ← lift (found invalid_state_transition known)
    lift (require_bound_to_session session e)
    modify (record_incoming e.session_id e)
    respond e.message_type e session

  unfoldable pub handle_envelope : Envelope J → Exec (Tables J C) Action
  unfolding gate handle_request handle_message
  handle_envelope e = do
    known ← read (gate e)
    if e.message_type is_type request then handle_request e else handle_message e known
