-- ===== src/CostSplit/Hooks/Decide.antt =====
-- `decide_remote_reply` of domains/cost_split.py.

use enishi.Prelude.{ℕ, Option, none, some, List, [], ◌∷◌}
use enishi.Errors.{Result, ok, unhandled, ◌>>=◌}
use enishi.Exec.{found}
use enishi.Protocol.{MessageType}
use enishi.Remote.Types
use enishi.Remote.Domain.{Reply, Circumstances}
use enishi.CostSplit.Amounts.{Amounts}
use enishi.CostSplit.Types.{
  ActionKind, accept, counter, escalate, reject, ReasonCode, cost_share_exceeds_limit,
  cost_split_within_position, cost_split_concession, cost_split_requires_approval,
  cost_split_negotiation_not_delegated, OfferState, StrategyAction, CloneAgent,
}
use enishi.CostSplit.Guards.{evaluate_common_guards, guard_codes}
use enishi.CostSplit.Strategy.{or_else, next_action}
use enishi.CostSplit.Hooks.Dicts.{
  Dict, reason_texts, delta_code, first_or, role_of, empty_dict, described, with_share, cap_reply,
}

module _ (num : Amounts) where
  open num use {Amount, le, round2}

  module _ (clone : CloneAgent Amount) (position : Dict Amount) (standing : Amount)
      (round : ℕ) where
    -- What the person is asked about.
    abbrev pub approval_raw : Dict Amount
    approval_raw = record (described position) {
      agreed_share = some (round2 standing);
      standing_offer = some (round2 standing);
      round_number = some round;
    }

    abbrev evidence : Dict Amount
    evidence = record empty_dict {
      standing_offer = some (round2 standing);
      round_number = some round;
    }

    abbrev plain : Types.Outcome → List ReasonCode → Reply (Dict Amount)
    plain outcome codes = record {
      outcome = outcome;
      reason_codes = reason_texts codes;
      evidence = evidence;
      policy_version = clone.version;
      reply_delta = empty_dict;
      agreement_value = empty_dict;
      approval_raw = empty_dict;
      proposed_action = MessageType.accept;
    }

    abbrev pub asks_owner : List ReasonCode → Reply (Dict Amount)
    asks_owner codes = record (plain Types.approval_required codes) { approval_raw = approval_raw }

    unfoldable pub reply_for : ActionKind → StrategyAction Amount → Result (Reply (Dict Amount))
    reply_for accept action =
        let share = some (round2 (or_else action.amount standing)) in
        ok (record (plain Types.auto_accept (cost_split_within_position ∷ [])) {
          reply_delta = with_share share empty_dict;
          agreement_value = with_share share (described position);
        })
    reply_for counter action = do
      amount ← found unhandled action.amount
      ok (record (plain Types.counter (cost_split_concession ∷ [])) {
        reply_delta = record empty_dict { proposed_share = some (round2 amount) };
        proposed_action = MessageType.counter;
      })
    reply_for escalate action =
        ok (asks_owner (first_or cost_split_requires_approval action.reason_codes ∷ []))
    reply_for reject action =
        let reason = first_or cost_share_exceeds_limit action.reason_codes in
        ok (record (plain Types.reject (reason ∷ [])) {
          reply_delta = record empty_dict { code = some (delta_code reason) };
        })

  abbrev pub guards_of : CloneAgent Amount → Circumstances (Dict Amount) → List ReasonCode
  guards_of clone c = guard_codes num (
      evaluate_common_guards num clone c.delegation_enabled c.peer_personal_agent_id
        cost_split_negotiation_not_delegated)

  -- `my_last_offer`
  abbrev pub last_share : Option (Dict Amount) → Option Amount
  last_share none = none
  last_share (some d) = d.proposed_share

  unfoldable pub chosen_reply :
      CloneAgent Amount
      → Amount
      → Amount
      → Amount
      → Circumstances (Dict Amount)
      → StrategyAction Amount
  unfolding next_action cap_reply
  chosen_reply clone total proposed_share standing c =
      let state : OfferState Amount = record {
        round_number = c.round_number;
        standing_offer = round2 standing;
        my_last_offer = last_share c.own_last_delta;
      } in
      let action =
        next_action num clone (role_of c.is_initiator) total proposed_share state
          c.high_value_approval_required in
      cap_reply action.kind c.round_number action

  abbrev pub guarded :
      List ReasonCode
      → Result (Reply (Dict Amount))
      → Reply (Dict Amount)
      → Result (Reply (Dict Amount))
  guarded [] go_on ask = go_on
  guarded (code ∷ codes) go_on ask = ok ask

  -- The answer, once the amounts of the own position are read.
  abbrev pub answer :
      CloneAgent Amount
      → Dict Amount
      → Circumstances (Dict Amount)
      → Amount
      → Amount
      → Amount
      → Result (Reply (Dict Amount))
  answer clone position c total proposed_share standing =
      let codes = guards_of clone c in
      let action = chosen_reply clone total proposed_share standing c in
      guarded codes (reply_for clone position standing c.round_number action.kind action)
        (asks_owner clone position standing c.round_number codes)

  unfoldable pub decide_remote_reply :
      CloneAgent Amount
      → Dict Amount
      → Dict Amount
      → Circumstances (Dict Amount)
      → Result (Reply (Dict Amount))
  unfolding evaluate_common_guards reply_for chosen_reply
  decide_remote_reply clone position received c = do
    total ← found unhandled position.total_amount
    proposed_share ← found unhandled position.proposed_share
    answer clone position c total proposed_share (or_else received.proposed_share proposed_share)
