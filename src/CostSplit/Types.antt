-- ===== src/CostSplit/Types.antt =====
-- The data of domains/cost_split.py, cost_split_strategy.py and of the models that they read, over
-- the type of the amounts. Titles, currencies and dates are texts that the domain passes on.
use Prim.Native.String.{String}
use enishi.Prelude.{ℕ, Bool, Option, List}
use enishi.Protocol.{MessageType, NegotiationStatus}

pub data Role : Type 0 where
  initiator responder : Role

pub data ActionKind : Type 0 where
  accept counter escalate reject : ActionKind

-- The reason codes that the domain and the common guards write.
pub data ReasonCode : Type 0 where
  cost_share_exceeds_reservation cost_share_exceeds_limit cost_share_below_reservation : ReasonCode
  no_agreement_within_rounds no_zone_of_agreement : ReasonCode
  cost_split_within_position cost_split_concession cost_split_requires_approval : ReasonCode
  cost_split_negotiation_not_delegated clone_confidence_below_threshold : ReasonCode
  relationship_requires_approval : ReasonCode

pub data Outcome : Type 0 where
  auto_accept approval_required counter reject : Outcome

module _ (A : Type 0) where
  pub record OfferState : Type 0 where
    pub round_number : ℕ
    pub standing_offer : A
    pub my_last_offer : Option A

  pub record StrategyAction : Type 0 where
    pub kind : ActionKind
    pub amount : Option A
    pub reason_codes : List ReasonCode

  -- The entry `cost_split` of a policy profile; a key that is not there is `none`.
  pub record PolicyEntry : Type 0 where
    pub max_auto_accept_amount : Option A
    pub max_negotiable_amount : Option A
    pub reservation_ratio : Option A
    pub concession_ratio : Option A

  pub record Policy : Type 0 where
    pub max_auto_accept_amount : A
    pub max_negotiable_amount : A
    pub reservation_ratio : A
    pub concession_ratio : A

  -- Of a clone what the domain reads. An entry of a profile that is missing or no dict is `none`;
  -- `relationships` gives the peer's `allow_auto_accept` where that is a Boolean.
  pub record CloneAgent : Type 0 where
    pub id : ℕ
    pub user_id : ℕ
    pub version : ℕ
    pub confidence_score : A
    pub cost_split_policy : Option PolicyEntry
    pub preferred_ratio : Option A
    pub relationships : ℕ → Option Bool

  pub record CostSplitRequest : Type 0 where
    pub initiator_user_id : ℕ
    pub responder_user_id : ℕ
    pub title : String
    pub total_amount : A
    pub currency : String
    pub proposed_share : A
    pub deadline : Option String

  pub record AgreedPayload : Type 0 where
    pub title : String
    pub total_amount : A
    pub currency : String
    pub agreed_share : A
    pub deadline : Option String

  -- The payload and the delta of a message, by what they carry.
  pub data Content : Type 0 where
    asks : CostSplitRequest → Content
    offers : A → ReasonCode → Content
    agrees : A → Content
    refuses : ReasonCode → Content
    refers : ReasonCode → Content

  pub record NegotiationMessage : Type 0 where
    pub sequence : ℕ
    pub sender_agent_id : ℕ
    pub receiver_agent_id : ℕ
    pub message_type : MessageType
    pub content : Content
    pub requires_human_approval : Bool

  pub record NegotiationDecision : Type 0 where
    pub clone_id : ℕ
    pub policy_version : ℕ
    pub outcome : Outcome
    pub reason_codes : List ReasonCode
    pub standing_offer : A
    pub round_number : ℕ
    pub confidence : A

  pub record Approval : Type 0 where
    pub user_id : ℕ
    pub reason : ReasonCode
    pub payload : AgreedPayload
    pub decider_clone_id : ℕ

  pub data SessionResult : Type 0 where
    agreed_share : A → ℕ → SessionResult
    refusal : ReasonCode → ℕ → SessionResult

  -- What the driver writes: the session, its messages and decisions, and the rows of the agreement
  -- and of the approval that it may create.
  pub record Negotiation : Type 0 where
    pub status : NegotiationStatus
    pub result : Option SessionResult
    pub messages : List NegotiationMessage
    pub decisions : List NegotiationDecision
    pub agreement : Option AgreedPayload
    pub approval : Option Approval
