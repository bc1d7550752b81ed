-- ===== src/CostSplit/Strategy.antt =====
-- services/local-core/enishi_core/domains/cost_split_strategy.py: the pure choice of the next move.
use enishi.Prelude.{Bool, ◌&&◌, ◌||◌, Option, none, some, [], ◌∷◌, if◌then◌else◌}
use enishi.CostSplit.Amounts
use enishi.CostSplit.Amounts.{Amounts}
use enishi.CostSplit.Types.{
  Role, initiator, responder, accept, counter, escalate, reject, cost_share_exceeds_reservation,
  cost_share_exceeds_limit, cost_share_below_reservation, OfferState, StrategyAction, PolicyEntry,
  Policy, CloneAgent,
}

-- `x if x is not None else d`, and `d.get(key, default)`.
abbrev pub or_else {ℓ} : {A : Type ℓ} → Option A → A → A
or_else none d = d
or_else (some a) d = a

module _ (num : Amounts) where
  open num use {Amount, le, add, sub, mul, round2, decimal}

  abbrev no_entry : PolicyEntry Amount
  no_entry = record {
    max_auto_accept_amount = none;
    max_negotiable_amount = none;
    reservation_ratio = none;
    concession_ratio = none;
  }

  unfoldable pub cost_split_policy : CloneAgent Amount → Policy Amount
  cost_split_policy clone =
      let policy = or_else clone.cost_split_policy no_entry in
      record {
        max_auto_accept_amount = or_else policy.max_auto_accept_amount (decimal 5000 0);
        max_negotiable_amount = or_else policy.max_negotiable_amount (decimal 30000 0);
        reservation_ratio = or_else policy.reservation_ratio (decimal 5 1);
        concession_ratio = or_else policy.concession_ratio (decimal 5 1);
      }

  unfoldable pub cost_split_preferred_ratio : CloneAgent Amount → Amount
  cost_split_preferred_ratio clone = or_else clone.preferred_ratio (decimal 5 1)

  -- U: what the responder pays at most.
  unfoldable pub reservation : CloneAgent Amount → Amount → Amount
  reservation clone total = round2 (mul total (cost_split_policy clone).reservation_ratio)

  unfoldable pub opening : CloneAgent Amount → Amount → Amount
  opening clone total = round2 (
      mul total (
        Amounts.min num (cost_split_preferred_ratio clone)
          (cost_split_policy clone).reservation_ratio))

  -- `L_policy` and L: what the initiator asks at least.
  unfoldable pub policy_floor : CloneAgent Amount → Amount → Amount
  policy_floor clone total =
      round2 (mul total (sub (decimal 1 0) (cost_split_policy clone).reservation_ratio))

  unfoldable pub floor : CloneAgent Amount → Amount → Amount → Amount
  floor clone total proposed_share = Amounts.min num (policy_floor clone total) proposed_share

  unfoldable pub responder_action :
      CloneAgent Amount → Amount → OfferState Amount → Bool → StrategyAction Amount
  responder_action clone total state high_value_approval_required =
      let policy = cost_split_policy clone in
      let limit = reservation clone total in
      let x_r = or_else state.my_last_offer (opening clone total) in
      let standing = state.standing_offer in
      let step = mul (sub standing x_r) policy.concession_ratio in
      if le standing x_r
      then record { kind = accept; amount = some standing; reason_codes = [] }
      else if Amounts.gt num standing limit
      then (if le standing policy.max_negotiable_amount || high_value_approval_required
          then record {
            kind = escalate;
            amount = none;
            reason_codes = cost_share_exceeds_reservation ∷ [];
          }
          else record {
            kind = reject;
            amount = none;
            reason_codes = cost_share_exceeds_limit ∷ [];
          })
      else record {
        kind = counter;
        amount = some (round2 (Amounts.min num limit (add x_r step)));
        reason_codes = [];
      }

  unfoldable pub initiator_action :
      CloneAgent Amount → Amount → Amount → OfferState Amount → StrategyAction Amount
  initiator_action clone total proposed_share state =
      let policy = cost_split_policy clone in
      let least = floor clone total proposed_share in
      let x_i = or_else state.my_last_offer proposed_share in
      let standing = state.standing_offer in
      let step = mul (sub x_i standing) policy.concession_ratio in
      let candidate = round2 (Amounts.max num least (sub x_i step)) in
      if le x_i standing
      then record { kind = accept; amount = some standing; reason_codes = [] }
      else if le x_i least && Amounts.gt num least standing
      then record {
        kind = escalate;
        amount = none;
        reason_codes = cost_share_below_reservation ∷ [];
      }
      else if le candidate standing
      then record { kind = accept; amount = some standing; reason_codes = [] }
      else record { kind = counter; amount = some candidate; reason_codes = [] }

  unfoldable pub next_action :
      CloneAgent Amount → Role → Amount → Amount → OfferState Amount → Bool → StrategyAction Amount
  next_action clone responder total proposed_share state high =
      responder_action clone total state high
  next_action clone initiator total proposed_share state high =
      initiator_action clone total proposed_share state
