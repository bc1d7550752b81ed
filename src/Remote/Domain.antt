-- ===== src/Remote/Domain.antt =====
-- The interfaces of the negotiation with other nodes: `DecisionDomain` of domains/base.py with the
-- hooks that the driver calls, what the driver reads and makes of JSON values, and the node itself.
use enishi.Prelude.{ℕ, Bool, Option, List}
use enishi.Errors.{Result, Done}
use enishi.Protocol.{MessageType}
use enishi.PublicReasons.{ReasonCode, PublicReason}
use enishi.Tasks.Types.{ApprovalStatus}
use enishi.Remote.Types.{Outcome, Envelope}

-- What `decide_remote_reply` returns, but for its confidence, which is stored for people; a key that
-- an outcome does not use may hold anything.
pub record Reply (J : Type 0) : Type 0 where
  pub outcome : Outcome
  pub reason_codes : List ReasonCode
  pub evidence : J
  pub policy_version : ℕ
  pub reply_delta : J
  pub agreement_value : J
  pub approval_raw : J
  pub proposed_action : MessageType

pub record ApprovalReply (J : Type 0) : Type 0 where
  pub message_type : MessageType
  pub delta : J
  pub agreement_value : J

-- What `decide_remote_reply` is told besides the clone, its position and the offer.
pub record Circumstances (J : Type 0) : Type 0 where
  pub is_initiator : Bool
  pub round_number : ℕ
  pub peer_personal_agent_id : ℕ
  pub delegation_enabled : Bool
  pub high_value_approval_required : Bool
  pub own_last_delta : Option J

-- A hook may raise. What `derive_own_position` reads of the owner's memories is part of the domain.
pub record DecisionDomain (J C : Type 0) : Type 0 where
  pub delegation_key : Option ℕ
  pub supports_remote : Bool
  pub remote_rounds_exhausted_code : ℕ
  pub validate_request : J → Result Done
  pub build_remote_request_payload : J → Result J
  pub derive_own_position : C → J → ℕ → Result J
  pub build_remote_propose_delta : J → Result J
  pub decide_remote_reply : C → J → J → Circumstances J → Result (Reply J)
  pub remote_agreement_payload : J → Result J
  pub agreement_value_from_accept_delta : J → J → Result J
  pub approval_context : J → Result (J × J)
  pub approval_reply : Bool → ApprovalStatus → J → J → Option J → Result (ApprovalReply J)

-- JSON values as the driver itself makes and reads them: `{}`, `{"code": c}`,
-- `{"public_reason": r}`, `delta.get("code")`, `payload.get("public_reason", "")`, the slots with
-- their old names, and whether a value is a dict that is not empty. A text is a number.
pub record Json (J : Type 0) : Type 0 where
  pub empty : J
  pub code_delta : ℕ → J
  pub reason_payload : PublicReason → J
  pub code_of : J → Option ℕ
  pub reason_of : J → ℕ
  pub type_text : MessageType → ℕ
  pub rejected_text : ℕ
  pub selected_slot : J → J
  pub candidate_slots : J → J
  pub slot_proposal : J → J
  pub slot_context : J → J
  pub non_empty : J → Option J
  pub with_timezone : ℕ → J → J

-- The node: its registry of domains, its own identity, and its cryptography.
pub record Node (J C : Type 0) : Type 0 where
  pub json : Json J
  pub domain_of : ℕ → Option (DecisionDomain J C)
  pub node_id : ℕ
  pub sealed : Envelope J → ℕ
  pub verify_envelope : ℕ → Envelope J → ℕ → Result Done

-- One call: when it is made, and the identifiers that it draws.
pub record Call : Type 0 where
  pub now : ℕ
  pub message_id : ℕ
  pub approval_id : ℕ
