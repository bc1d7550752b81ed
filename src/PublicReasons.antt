-- ===== src/PublicReasons.antt =====
-- services/local-core/enishi_core/services/public_reasons.py: the reasons that may leave the node.
use enishi.Prelude.{ℕ, Option, none, some, List, [], ◌∷◌}

-- The reason codes that the mapping knows, and any other text.
pub data ReasonCode : Type 0 where
  no_common_slot meeting_outside_preferred_time meeting_time_avoided : ReasonCode
  task_request_policy_threshold_exceeded schedule_negotiation_not_delegated : ReasonCode
  task_negotiation_not_delegated clone_confidence_below_threshold : ReasonCode
  meeting_auto_accept_disabled relationship_requires_approval human_rejected : ReasonCode
  approval_expired cost_split_negotiation_not_delegated cost_split_concession : ReasonCode
  cost_share_exceeds_limit : ReasonCode
  other_reason : ℕ → ReasonCode

pub data PublicReason : Type 0 where
  no_common_slot constraint_violation policy_declined : PublicReason

-- `_MAPPING.get(code)`
abbrev pub mapping : ReasonCode → Option PublicReason
mapping ReasonCode.no_common_slot = some PublicReason.no_common_slot
mapping meeting_outside_preferred_time = some constraint_violation
mapping meeting_time_avoided = some constraint_violation
mapping task_request_policy_threshold_exceeded = some constraint_violation
mapping schedule_negotiation_not_delegated = some policy_declined
mapping task_negotiation_not_delegated = some policy_declined
mapping clone_confidence_below_threshold = some policy_declined
mapping meeting_auto_accept_disabled = some policy_declined
mapping relationship_requires_approval = some policy_declined
mapping human_rejected = some policy_declined
mapping approval_expired = some policy_declined
mapping cost_split_negotiation_not_delegated = some policy_declined
mapping cost_split_concession = some constraint_violation
mapping cost_share_exceeds_limit = some constraint_violation
mapping (other_reason code) = none

-- The default that every caller leaves as it is.
abbrev pub first_public : Option PublicReason → PublicReason → PublicReason
first_public none rest = rest
first_public (some reason) rest = reason

unfoldable pub to_public_reason : List ReasonCode → PublicReason
to_public_reason [] = policy_declined
to_public_reason (code ∷ codes) = first_public (mapping code) (to_public_reason codes)
