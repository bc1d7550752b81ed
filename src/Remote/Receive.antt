-- ===== src/Remote/Receive.antt =====
-- What `_handle_envelope` of services/remote_negotiation.py reads before it writes: whether the session
-- takes the message now, and the session that a REQUEST opens.
use enishi.Prelude.{ℕ, Option, none, some, is_some, if◌then◌else◌}
use enishi.Prelude.Table.{lookup, insert}
use enishi.Errors.{
  Result, ok, Done, raise_if, ◌>>=◌, ◌>>◌, agent_identity_mismatch, clone_review_required,
  unhandled,
}
use enishi.Exec.{found}
use enishi.Protocol.{MessageType, opened, validate_incoming}
use enishi.Remote.Types.{Envelope, NegotiationSession, NegotiationMessage, Tables}
use enishi.Remote.Domain.{Node}
use enishi.Remote.Guards.{require_receivable_request, find_active_clone, sender_node}
use enishi.Remote.Messages.{last_message, counter_rounds, save_message}

abbrev pub type_of : {J : Type 0} → Option (NegotiationMessage J) → Option MessageType
type_of none = none
type_of (some m) = some m.message_type

module _ {J : Type 0} where
  abbrev pub separated : Envelope J → ℕ → Option ℕ
  separated e i = if is_some e.sender_node_id then some i else none

  unfoldable pub received_session : Envelope J → ℕ → NegotiationSession J
  received_session e responder_id = record {
    initiator_clone_id = e.sender_agent_id;
    responder_clone_id = responder_id;
    initiator_agent_id = separated e e.sender_agent_id;
    responder_agent_id = separated e e.receiver_agent_id;
    intent = e.intent;
    status = opened;
    session_version = 1;
    result = none;
    pending_approval_id = none;
    last_sequence = e.sequence;
    remote_peer_agent_id = some (sender_node e);
  }

module _ {J C : Type 0} where
  -- `protocol_state.validate_incoming` for the session as the database has it.
  unfoldable pub validate_session :
      Envelope J → Option (NegotiationSession J) → Tables J C → Result Done
  unfolding last_message counter_rounds validate_incoming
  validate_session e none db = validate_incoming opened 0 e.message_type e.sequence none 0
  validate_session e (some session) db =
      validate_incoming session.status session.last_sequence e.message_type e.sequence
        (type_of (last_message e.session_id db)) (counter_rounds e.session_id db)

  unfoldable pub gate : Envelope J → Tables J C → Result (Option (NegotiationSession J))
  unfolding lookup validate_session
  gate e db = do
    validate_session e (lookup e.session_id db.sessions) db
    ok (lookup e.session_id db.sessions)

  -- Whose clone a REQUEST is for, by the ids of separate agents and nodes or without them.
  unfoldable pub separate_responder : ℕ → Tables J C → Result ℕ
  unfolding lookup
  separate_responder receiver db = do
    personal ← found agent_identity_mismatch (lookup receiver db.personals)
    clone_id ← found agent_identity_mismatch personal.active_clone_id
    _ ← found clone_review_required (lookup clone_id db.clones)
    ok clone_id

  unfoldable pub responder_of : Envelope J → Tables J C → Result ℕ
  unfolding separate_responder find_active_clone
  responder_of e db =
      if is_some e.sender_node_id
      then separate_responder e.receiver_agent_id db
      else (find_active_clone none db >>= λ clone. ok clone.0)

  -- The session of a REQUEST; the primary key refuses a second one.
  unfoldable pub requested : Node J C → Envelope J → Tables J C → Result (NegotiationSession J)
  unfolding lookup require_receivable_request responder_of received_session
  requested node e db = do
    require_receivable_request node e.intent e.payload (sender_node e) db
    responder_id ← responder_of e db
    raise_if (is_some (lookup e.session_id db.sessions)) unhandled
    ok (received_session e responder_id)

  unfoldable pub open_session : Envelope J → NegotiationSession J → Tables J C → Tables J C
  unfolding insert save_message
  open_session e session db =
      save_message e.session_id e (record db { sessions = insert e.session_id session db.sessions })
