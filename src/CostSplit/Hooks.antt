-- ===== src/CostSplit/Hooks.antt =====
-- The hooks of `CostSplitDomain`, services/local-core/enishi_core/domains/cost_split.py, by which the
-- domain takes part in negotiations with other nodes. A dict is a record of the keys that the domain
-- uses, each there or not; a number is an amount, so `float` of it is itself. The evidence is kept without
-- what the guards add to it.
mod Dicts
mod Decide
mod Wire
unfoldable pub use Dicts.*
unfoldable pub use Decide.*
unfoldable pub use Wire.*
use Prim.Native.String.{String}
use text.Mathlib.Text
use enishi.Prelude.{
  ℕ, Bool, true, false, not, Option, none, some, List, [], ◌∷◌, leb, if◌then◌else◌,
}
use enishi.Errors.{
  Result, Done, ok, invalid_payload, invalid_approval_selection, unhandled, ◌>>=◌, ◌>>◌, raise_if,
}
use enishi.Exec.{found}
use enishi.Protocol.{MessageType}
use enishi.PublicReasons
use enishi.Tasks.Types.{ApprovalStatus}
use enishi.Remote.Types
use enishi.Remote.Domain.{Reply, ApprovalReply, Circumstances, DecisionDomain}
use enishi.CostSplit.Amounts
use enishi.CostSplit.Amounts.{Amounts}
use enishi.CostSplit.Types.{
  Role, initiator, responder, ActionKind, accept, counter, escalate, reject, ReasonCode,
  cost_share_exceeds_reservation, cost_share_exceeds_limit, cost_share_below_reservation,
  no_agreement_within_rounds, no_zone_of_agreement, cost_split_within_position,
  cost_split_concession, cost_split_requires_approval, cost_split_negotiation_not_delegated,
  clone_confidence_below_threshold, relationship_requires_approval, OfferState, StrategyAction,
  CloneAgent,
}
use enishi.CostSplit.Guards.{evaluate_common_guards, guard_codes}
use enishi.CostSplit.Strategy.{cost_split_policy, cost_split_preferred_ratio, or_else, next_action}
use enishi.CostSplit.Driver.{max_rounds}

module _ (num : Amounts) where
  open num use {Amount, le, round2}

  -- `CostSplitDomain`, its delegation key `cost_split_negotiation` by its place in the defaults.
  abbrev pub cost_split_domain : DecisionDomain (Dict Amount) (CloneAgent Amount)
  cost_split_domain = record {
    delegation_key = some 4;
    supports_remote = true;
    remote_rounds_exhausted_code = 13;
    validate_request = validate_payload num;
    build_remote_request_payload = build_remote_request_payload num;
    derive_own_position = derive_own_position num;
    build_remote_propose_delta = build_remote_propose_delta num;
    decide_remote_reply = decide_remote_reply num;
    remote_agreement_payload = remote_agreement_payload num;
    agreement_value_from_accept_delta = agreement_value_from_accept_delta num;
    approval_context = approval_context num;
    approval_reply = approval_reply num;
  }
