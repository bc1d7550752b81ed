-- ===== src/CostSplit/Hooks/Dicts.antt =====
-- The dicts of the hooks of domains/cost_split.py and the texts of its reason codes.
use Prim.Native.String.{String}
use text.Mathlib.Text
use enishi.Prelude.{ℕ, Bool, true, false, Option, none, some, List, [], ◌∷◌, leb, if◌then◌else◌}
use enishi.PublicReasons
use enishi.Tasks.Types.{ApprovalStatus}
use enishi.CostSplit.Types.{
  Role, initiator, responder, ActionKind, counter, escalate, ReasonCode,
  cost_share_exceeds_reservation, cost_share_exceeds_limit, cost_share_below_reservation,
  no_agreement_within_rounds, no_zone_of_agreement, cost_split_within_position,
  cost_split_concession, cost_split_requires_approval, cost_split_negotiation_not_delegated,
  clone_confidence_below_threshold, relationship_requires_approval, StrategyAction,
}
use enishi.CostSplit.Strategy.{or_else}
use enishi.CostSplit.Driver.{max_rounds}

pub record Dict (A : Type 0) : Type 0 where
  pub title : Option String
  pub total_amount : Option A
  pub currency : Option String
  pub proposed_share : Option A
  pub deadline : Option String
  pub agreed_share : Option A
  pub standing_offer : Option A
  pub round_number : Option ℕ
  pub code : Option ℕ
  pub reservation_ratio : Option A
  pub preferred_ratio : Option A
  pub concession_ratio : Option A
  pub max_auto_accept_amount : Option A
  pub max_negotiable_amount : Option A

-- The texts of the reason codes, as services/public_reasons.py knows them or by a number.
abbrev pub reason_text : ReasonCode → PublicReasons.ReasonCode
reason_text cost_split_negotiation_not_delegated =
    PublicReasons.ReasonCode.cost_split_negotiation_not_delegated
reason_text clone_confidence_below_threshold =
    PublicReasons.ReasonCode.clone_confidence_below_threshold
reason_text relationship_requires_approval = PublicReasons.ReasonCode.relationship_requires_approval
reason_text cost_split_concession = PublicReasons.ReasonCode.cost_split_concession
reason_text cost_share_exceeds_limit = PublicReasons.ReasonCode.cost_share_exceeds_limit
reason_text cost_share_exceeds_reservation = PublicReasons.other_reason 0
reason_text cost_share_below_reservation = PublicReasons.other_reason 1
reason_text no_agreement_within_rounds = PublicReasons.other_reason 2
reason_text no_zone_of_agreement = PublicReasons.other_reason 3
reason_text cost_split_within_position = PublicReasons.other_reason 4
reason_text cost_split_requires_approval = PublicReasons.other_reason 5

-- `reason_code.upper()`, by a number: of the codes of refusals the last two are not reasons.
abbrev pub delta_code : ReasonCode → ℕ
delta_code cost_share_exceeds_reservation = 0
delta_code cost_share_below_reservation = 1
delta_code no_agreement_within_rounds = 2
delta_code no_zone_of_agreement = 3
delta_code cost_split_within_position = 4
delta_code cost_split_requires_approval = 5
delta_code cost_share_exceeds_limit = 6
delta_code cost_split_concession = 7
delta_code cost_split_negotiation_not_delegated = 8
delta_code clone_confidence_below_threshold = 9
delta_code relationship_requires_approval = 10

abbrev pub human_rejected : ℕ
human_rejected = 11

abbrev pub approval_expired : ℕ
approval_expired = 12

abbrev pub reason_texts : List ReasonCode → List PublicReasons.ReasonCode
reason_texts [] = []
reason_texts (c ∷ codes) = reason_text c ∷ reason_texts codes

-- `codes[0] if codes else default`
abbrev pub first_or : ReasonCode → List ReasonCode → ReasonCode
first_or default [] = default
first_or default (c ∷ codes) = c

abbrev pub role_of : Bool → Role
role_of true = initiator
role_of false = responder

abbrev pub rejection_code : ApprovalStatus → ℕ
rejection_code ApprovalStatus.rejected = human_rejected
rejection_code _ = approval_expired

-- `"JPY"`, `""` and the constants that the numbers' type gives.
abbrev pub jpy : String
jpy = "JPY"

-- `d.get("currency") or "JPY"`, which replaces the empty text too.
abbrev pub currency_or : Option String → String
currency_or none = jpy
currency_or (some c) = if Text.◌==◌ c "" then jpy else c

module _ {A : Type 0} where
  abbrev pub empty_dict : Dict A
  empty_dict = record {
    title = none;
    total_amount = none;
    currency = none;
    proposed_share = none;
    deadline = none;
    agreed_share = none;
    standing_offer = none;
    round_number = none;
    code = none;
    reservation_ratio = none;
    preferred_ratio = none;
    concession_ratio = none;
    max_auto_accept_amount = none;
    max_negotiable_amount = none;
  }

  -- `title`, `total_amount`, `currency` and `deadline` as one dict takes them from another.
  abbrev pub described : Dict A → Dict A
  described d = record empty_dict {
    title = some (or_else d.title "");
    total_amount = d.total_amount;
    currency = some (currency_or d.currency);
    deadline = d.deadline;
  }

  abbrev pub with_share : Option A → Dict A → Dict A
  with_share share d = record d { agreed_share = share }

  -- A counter in the last round or after it becomes an escalation.
  unfoldable pub cap_reply : ActionKind → ℕ → StrategyAction A → StrategyAction A
  cap_reply counter round action =
      if leb max_rounds round
      then record { kind = escalate; amount = none; reason_codes = no_agreement_within_rounds ∷ [] }
      else action
  cap_reply _ round action = action
