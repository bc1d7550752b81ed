-- ===== src/Remote/Start.antt =====
-- `start_remote_negotiation` of services/remote_negotiation.py: the owner's REQUEST and the first
-- PROPOSE go into the outbox together.
use enishi.Prelude.{ℕ, Bool, not, none, some, is_some, if◌then◌else◌}
use enishi.Prelude.Table.{lookup, insert}
use enishi.Errors.{
  Result, ok, err, Done, raise_if, negotiation_permission_denied, clone_review_required, unhandled,
}
use enishi.Exec.{Exec, pure, lift, read, modify, commit, ◌>>=◌, ◌>>◌}
use enishi.Protocol.{opened, request, propose}
use enishi.Remote.Types.{
  PeerAgent, PersonalAgent, CloneAgent, Envelope, NegotiationSession, Tables, or_else,
}
use enishi.Remote.Domain.{Node, Call}
use enishi.Remote.Guards.{require_trusted_peer, require_peer_capability, get_domain}
use enishi.Remote.Messages.{
  save_message, enqueue_envelope, ensure_device_node, Transport, build_envelope,
}
use enishi.Remote.Personal.{ensure_personal_agent}
use enishi.Remote.Outbox.{flush_outbox}
use enishi.Remote.Writes.{schedule_negotiation, delegation_enabled}

-- What is asked for, and the identifiers of the new rows.
pub record Start (J : Type 0) : Type 0 where
  pub user_id : ℕ
  pub peer_agent_id : ℕ
  pub intent : ℕ
  pub payload : J
  pub session_id : ℕ
  pub personal_id : ℕ
  pub second_message_id : ℕ

-- `"UTC"`
abbrev utc : ℕ
utc = 0

module _ {J C : Type 0} (node : Node J C) (call : Call) (s : Start J) where
  open node use {json}

  -- The owner's agent without a clone gives the error of a missing clone, where there is one; with a
  -- clone of the owner that is active all the same, `session.get` of no id finds nothing.
  unfoldable pub own_clone : PersonalAgent → Tables J C → Result (ℕ × CloneAgent C)
  unfolding lookup
  own_clone personal db = elim personal.active_clone_id [
    | none ↦ err clone_review_required
    | some clone_id ↦ elim (lookup clone_id db.clones) [
      | none ↦ err clone_review_required
      | some clone ↦ if clone.active then ok (clone_id, clone) else err clone_review_required
    ]
  ]

  unfoldable pub opened_here : ℕ → ℕ → ℕ → NegotiationSession J
  opened_here clone_id personal_id peer_personal_id = record {
    initiator_clone_id = clone_id;
    responder_clone_id = s.peer_agent_id;
    initiator_agent_id = some personal_id;
    responder_agent_id = some peer_personal_id;
    intent = s.intent;
    status = opened;
    session_version = 1;
    result = none;
    pending_approval_id = none;
    last_sequence = 2;
    remote_peer_agent_id = some s.peer_agent_id;
  }

  -- A peer without an agent of its own is written to as the node it is.
  abbrev pub own_transport : PeerAgent → ℕ → ℕ → Transport
  own_transport peer personal_id device =
      if is_some peer.personal_agent_id
      then record {
        sender_id = personal_id;
        sender_node_id = some device;
        receiver_node_id = some s.peer_agent_id;
      }
      else record { sender_id = device; sender_node_id = none; receiver_node_id = none }

  abbrev pub second_call : Call
  second_call = record call { message_id = s.second_message_id }

  unfoldable pub record_start :
      NegotiationSession J → Envelope J → Envelope J → Tables J C → Tables J C
  unfolding insert save_message enqueue_envelope
  record_start session request_env propose_env db = enqueue_envelope propose_env none (
      enqueue_envelope request_env none (
        save_message s.session_id propose_env (
          save_message s.session_id request_env
            (record db { sessions = insert s.session_id session db.sessions }))))

  unfoldable pub flush : (Envelope J → Bool) → Exec (Tables J C) Done
  unfolding flush_outbox
  flush accepts db = (ok tt, (flush_outbox accepts call.now db).2)

  -- The primary key refuses a session that is there.
  unfoldable pub start_remote_negotiation : (Envelope J → Bool) → Exec (Tables J C) ℕ
  unfolding get_domain require_trusted_peer require_peer_capability delegation_enabled own_clone
      ensure_personal_agent ensure_device_node opened_here flush
  start_remote_negotiation accepts = do
    domain ← lift (get_domain node s.intent)
    lift (domain.validate_request s.payload)
    peer ← read (require_trusted_peer s.peer_agent_id)
    lift (require_peer_capability peer s.intent)
    delegated ← delegation_enabled s.user_id (or_else domain.delegation_key schedule_negotiation)
    lift (raise_if (not delegated) negotiation_permission_denied)
    personal ← ensure_personal_agent s.user_id s.personal_id
    clone ← read (own_clone personal.1)
    device ← ensure_device_node node personal.0
    timezone ← read (λ db. ok (or_else (lookup s.user_id db.users) utc))
    payload ← lift (domain.build_remote_request_payload (json.with_timezone timezone s.payload))
    position ← lift (domain.derive_own_position clone.1.profile payload s.peer_agent_id)
    delta ← lift (domain.build_remote_propose_delta position)
    let peer_personal_id = or_else peer.personal_agent_id s.peer_agent_id
    let ids = own_transport peer personal.0 device
    let session = opened_here clone.0 personal.0 peer_personal_id
    read (λ db. raise_if (is_some (lookup s.session_id db.sessions)) unhandled)
    modify (
        record_start session
          (build_envelope node call s.session_id session ids peer_personal_id request 1 json.empty
            payload)
          (build_envelope node second_call s.session_id session ids peer_personal_id propose 2 delta
            json.empty))
    commit
    flush accepts
    commit
    pure s.session_id
