-- ===== src/Remote/Types.antt =====
-- The rows of models/negotiation.py, models/peer.py, models/approval.py and models/agent.py that
-- remote_negotiation.py reads and writes, and the messages on the wire. J stands for the JSON values
-- that a domain understands, C for what a domain reads of a clone.
use enishi.Prelude.{ℕ, Bool, Option, none, some, List}
use enishi.Prelude.Table.{Table}
use enishi.Protocol.{NegotiationStatus, MessageType}
use enishi.Policies.{Policies}
use enishi.Replay.{SeenMessage}
use enishi.PublicReasons.{ReasonCode}
use enishi.Tasks.Types.{ApprovalStatus}

pub data PeerStatus : Type 0 where
  pending trusted blocked : PeerStatus

-- The decisions of a domain: `outcome` of `NegotiationDecision`.
pub data Outcome : Type 0 where
  auto_accept approval_required counter reject : Outcome

pub data OutboxStatus : Type 0 where
  pending sent : OutboxStatus

pub record Capabilities : Type 0 where
  pub supported_intents : List ℕ
  pub protocol_versions : List ℕ

-- Capabilities that are empty or missing are `none`.
pub record PeerAgent : Type 0 where
  pub status : PeerStatus
  pub capabilities : Option Capabilities
  pub public_key : ℕ
  pub personal_agent_id : Option ℕ

pub record PersonalAgent : Type 0 where
  pub user_id : ℕ
  pub active_clone_id : Option ℕ

module _ (C : Type 0) where
  pub record CloneAgent : Type 0 where
    pub user_id : ℕ
    pub active : Bool
    pub created_at : ℕ
    pub profile : C

module _ (J : Type 0) where
  -- A node id that the message does not have is `none`; `seal` is what protects the message: its
  -- protocol, nonce, time, payload hash and signature.
  pub record Envelope : Type 0 where
    pub message_id : ℕ
    pub session_id : ℕ
    pub sender_agent_id : ℕ
    pub receiver_agent_id : ℕ
    pub sender_node_id : Option ℕ
    pub receiver_node_id : Option ℕ
    pub message_type : MessageType
    pub intent : ℕ
    pub session_version : ℕ
    pub sequence : ℕ
    pub payload : J
    pub delta : J
    pub requires_human_approval : Bool
    pub seal : ℕ

  pub data SessionResult : Type 0 where
    agreed_in_rounds : J → ℕ → SessionResult
    failed_in_rounds : ℕ → ℕ → SessionResult
    refused_by_peer : ℕ → ℕ → SessionResult
    agreed_by_human : J → SessionResult
    countered_by_human : SessionResult
    refused_by_human : ℕ → SessionResult

  pub record NegotiationSession : Type 0 where
    pub initiator_clone_id : ℕ
    pub responder_clone_id : ℕ
    pub initiator_agent_id : Option ℕ
    pub responder_agent_id : Option ℕ
    pub intent : ℕ
    pub status : NegotiationStatus
    pub session_version : ℕ
    pub result : Option SessionResult
    pub pending_approval_id : Option ℕ
    pub last_sequence : ℕ
    pub remote_peer_agent_id : Option ℕ

  pub record NegotiationMessage : Type 0 where
    pub session_id : ℕ
    pub sequence : ℕ
    pub sender_agent_id : ℕ
    pub receiver_agent_id : ℕ
    pub message_type : MessageType
    pub intent : ℕ
    pub payload : J
    pub delta : J
    pub requires_human_approval : Bool

  pub record NegotiationDecision : Type 0 where
    pub session_id : ℕ
    pub clone_id : ℕ
    pub policy_version : ℕ
    pub outcome : Outcome
    pub reason_codes : List ReasonCode
    pub evidence : J

  pub record Agreement : Type 0 where
    pub intent : ℕ
    pub initiator_agent_id : ℕ
    pub responder_agent_id : ℕ
    pub agreed_payload : J

  pub record RelayOutbox : Type 0 where
    pub approval_id : Option ℕ
    pub envelope : Envelope
    pub status : OutboxStatus
    pub attempts : ℕ
    pub sent_at : Option ℕ

  -- An approval of a decision on a session with another node: its payload's keys are fields.
  -- `is_remote_decision` says that the row is one at all.
  pub record Approval : Type 0 where
    pub user_id : ℕ
    pub is_remote_decision : Bool
    pub status : ApprovalStatus
    pub resolved_at : Option ℕ
    pub session_id : ℕ
    pub proposed_action : MessageType
    pub proposal : J
    pub public_context : J
    pub selected_slot : J
    pub candidate_slots : J
    pub reason_codes : List ReasonCode
    pub peer_node_id : Option ℕ
    pub peer_personal_agent_id : Option ℕ
    pub own_personal_agent_id : Option ℕ

  -- The tables. An agreement is found by its session; messages, decisions and the outbox are in the
  -- order in which they were created. `nodes` gives the owner of a device, `users` a
  -- user's timezone.
  pub record Tables (C : Type 0) : Type 0 where
    pub sessions : Table NegotiationSession
    pub messages : List NegotiationMessage
    pub decisions : List NegotiationDecision
    pub agreements : Table Agreement
    pub outbox : List RelayOutbox
    pub approvals : Table Approval
    pub peers : Table PeerAgent
    pub users : Table ℕ
    pub personals : Table PersonalAgent
    pub clones : Table (CloneAgent C)
    pub nodes : Table ℕ
    pub delegations : Policies
    pub approval_rules : Policies
    pub seen : List SeenMessage

-- `x or d` of a text, and `x if x is not None else d`.
abbrev pub or_else {ℓ} : {A : Type ℓ} → Option A → A → A
or_else none d = d
or_else (some a) d = a
