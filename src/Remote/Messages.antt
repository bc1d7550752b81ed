-- ===== src/Remote/Messages.antt =====
-- The messages of a session of services/remote_negotiation.py: what is read of them, how one is
-- recorded, and how a reply is made, recorded and put into the outbox.
use enishi.Prelude.{
  ℕ, Bool, false, not, ◌&&◌, ◌||◌, Option, none, some, List, [], ◌∷◌, ◌++◌, length, keep, ltb, ◌==◌,
  if◌then◌else◌,
}
use enishi.Prelude.Table.{lookup, insert}
use enishi.Errors.{
  Result, ok, err, invalid_state_transition, agent_identity_mismatch, device_identity_conflict,
}
use enishi.Exec.{Exec, pure, lift, read, modify, ◌>>=◌, ◌>>◌, found}
use enishi.Protocol.{
  MessageType, request, propose, counter, request_approval, approval_result, ◌is_type◌,
}
use enishi.Remote.Types.{
  pending, Envelope, NegotiationSession, NegotiationMessage, RelayOutbox, Tables,
}
use enishi.Remote.Domain.{Node, Call}

-- What a message of this node says besides its session: its sender and the ids of the nodes.
pub record Transport : Type 0 where
  pub sender_id : ℕ
  pub sender_node_id : Option ℕ
  pub receiver_node_id : Option ℕ

module _ {J : Type 0} where
  abbrev pub of_session : ℕ → NegotiationMessage J → Bool
  of_session session_id m = m.session_id == session_id

  -- The message with the greatest sequence.
  unfoldable pub latest : List (NegotiationMessage J) → Option (NegotiationMessage J)
  latest [] = none
  latest (m ∷ messages) = elim (latest messages) [
    | none ↦ some m
    | some n ↦ if ltb m.sequence n.sequence then some n else some m
  ]

  abbrev pub first : List (NegotiationMessage J) → Option (NegotiationMessage J)
  first [] = none
  first (m ∷ messages) = some m

  abbrev pub payload_of : Option (NegotiationMessage J) → Result J
  payload_of none = err invalid_state_transition
  payload_of (some m) = ok m.payload

  abbrev pub delta_of : Option (NegotiationMessage J) → Option J
  delta_of none = none
  delta_of (some m) = some m.delta

  abbrev pub with_sequence : ℕ → NegotiationSession J → NegotiationSession J
  with_sequence sequence session = record session { last_sequence = sequence }

module _ {J C : Type 0} where
  unfoldable pub last_message : ℕ → Tables J C → Option (NegotiationMessage J)
  unfolding latest
  last_message session_id db = latest (
      keep
        (λ m.
          of_session session_id m
          && not
              (m.message_type is_type request_approval || m.message_type is_type approval_result))
        db.messages)

  unfoldable pub request_payload : ℕ → Tables J C → Result J
  request_payload session_id db =
      payload_of
        (first (keep (λ m. of_session session_id m && m.message_type is_type request) db.messages))

  unfoldable pub counter_rounds : ℕ → Tables J C → ℕ
  counter_rounds session_id db =
      length (keep (λ m. of_session session_id m && m.message_type is_type counter) db.messages)

  unfoldable pub own_last_offer_delta : ℕ → ℕ → Tables J C → Option J
  unfolding latest
  own_last_offer_delta session_id peer_sender db = delta_of (
      latest (
        keep
          (λ m.
            of_session session_id m
            && (m.message_type is_type propose || m.message_type is_type counter)
            && not (m.sender_agent_id == peer_sender))
          db.messages))

  unfoldable pub save_message : ℕ → Envelope J → Tables J C → Tables J C
  save_message session_id e db =
      let message : NegotiationMessage J = record {
        session_id = session_id;
        sequence = e.sequence;
        sender_agent_id = e.sender_agent_id;
        receiver_agent_id = e.receiver_agent_id;
        message_type = e.message_type;
        intent = e.intent;
        payload = e.payload;
        delta = e.delta;
        requires_human_approval = e.requires_human_approval;
      } in
      record db { messages = db.messages ++ message ∷ [] }

  unfoldable pub enqueue_envelope : Envelope J → Option ℕ → Tables J C → Tables J C
  enqueue_envelope e approval_id db =
      let item : RelayOutbox J = record {
        approval_id = approval_id;
        envelope = e;
        status = pending;
        attempts = 0;
        sent_at = none;
      } in
      record db { outbox = db.outbox ++ item ∷ [] }

  -- The row of a session that is loaded is changed in place.
  unfoldable pub update_session :
      ℕ → (NegotiationSession J → NegotiationSession J) → Tables J C → Tables J C
  unfolding lookup insert
  update_session session_id f db = elim (lookup session_id db.sessions) [
    | none ↦ db
    | some session ↦ record db { sessions = insert session_id (f session) db.sessions }
  ]

  -- A message that was received, and that its session has now seen.
  unfoldable pub record_incoming : ℕ → Envelope J → Tables J C → Tables J C
  unfolding save_message update_session
  record_incoming session_id e db =
      update_session session_id (with_sequence e.sequence) (save_message session_id e db)

  -- A message that this node sends.
  unfoldable pub record_outgoing : ℕ → Envelope J → Option ℕ → Tables J C → Tables J C
  unfolding save_message enqueue_envelope update_session
  record_outgoing session_id e approval_id db =
      update_session session_id (with_sequence e.sequence)
        (enqueue_envelope e approval_id (save_message session_id e db))

module _ {J C : Type 0} (node : Node J C) where
  abbrev pub register_node : ℕ → Tables J C → Tables J C
  register_node personal_id db = record db { nodes = insert node.node_id personal_id db.nodes }

  -- A device has one owner, and is registered when it is first used.
  unfoldable pub ensure_device_node : ℕ → Exec (Tables J C) ℕ
  unfolding lookup insert
  ensure_device_node personal_id = do
    owner ← read (λ db. ok (lookup node.node_id db.nodes))
    elim owner [
      | none ↦ do modify (register_node personal_id); pure node.node_id
      | some other ↦
          if other == personal_id then pure node.node_id else lift (err device_identity_conflict)
    ]

  unfoldable pub transport : NegotiationSession J → Option ℕ → ℕ → Exec (Tables J C) Transport
  unfolding ensure_device_node
  transport session sender receiver_node_id = elim session.responder_agent_id [
    | none ↦
        pure (record { sender_id = node.node_id; sender_node_id = none; receiver_node_id = none })
    | some _ ↦ do
      sender_id ← lift (found agent_identity_mismatch sender)
      _ ← read (λ db. found agent_identity_mismatch (lookup sender_id db.personals))
      device ← ensure_device_node sender_id
      pure (record {
        sender_id = sender_id;
        sender_node_id = some device;
        receiver_node_id = some receiver_node_id;
      })
  ]

  abbrev pub build_envelope :
      Call → ℕ → NegotiationSession J → Transport → ℕ → MessageType → ℕ → J → J → Envelope J
  build_envelope call session_id session ids receiver message_type sequence delta payload =
      let e : Envelope J = record {
        message_id = call.message_id;
        session_id = session_id;
        sender_agent_id = ids.sender_id;
        receiver_agent_id = receiver;
        sender_node_id = ids.sender_node_id;
        receiver_node_id = ids.receiver_node_id;
        message_type = message_type;
        intent = session.intent;
        session_version = session.session_version;
        sequence = sequence;
        payload = payload;
        delta = delta;
        requires_human_approval = false;
        seal = 0;
      } in
      record e { seal = node.sealed e }
