-- ===== src/CostSplit/Hooks/Wire.antt =====
-- What the hooks of domains/cost_split.py send, take from a message and ask a person.

use enishi.Prelude.{ℕ, Bool, not, Option, none, some, if◌then◌else◌}
use enishi.Errors.{
  Result, Done, ok, invalid_payload, invalid_approval_selection, unhandled, ◌>>=◌, ◌>>◌, raise_if,
}
use enishi.Exec.{found}
use enishi.Protocol.{MessageType}
use enishi.Tasks.Types.{ApprovalStatus}
use enishi.Remote.Domain.{ApprovalReply}
use enishi.CostSplit.Amounts
use enishi.CostSplit.Amounts.{Amounts}
use enishi.CostSplit.Types.{CloneAgent}
use enishi.CostSplit.Strategy.{cost_split_policy, cost_split_preferred_ratio}
use enishi.CostSplit.Hooks.Dicts.{
  Dict, rejection_code, currency_or, empty_dict, described, with_share,
}

module _ (num : Amounts) where
  open num use {Amount, le, round2}

  unfoldable pub derive_own_position : CloneAgent Amount → Dict Amount → ℕ → Result (Dict Amount)
  unfolding cost_split_policy cost_split_preferred_ratio
  derive_own_position clone request peer = do
    title ← found unhandled request.title
    total_amount ← found unhandled request.total_amount
    proposed_share ← found unhandled request.proposed_share
    let policy = cost_split_policy num clone
    ok (record empty_dict {
      title = some title;
      total_amount = some total_amount;
      currency = some (currency_or request.currency);
      deadline = request.deadline;
      proposed_share = some proposed_share;
      reservation_ratio = some policy.reservation_ratio;
      preferred_ratio =
          some (Amounts.min num (cost_split_preferred_ratio num clone) policy.reservation_ratio);
      concession_ratio = some policy.concession_ratio;
      max_auto_accept_amount = some policy.max_auto_accept_amount;
      max_negotiable_amount = some policy.max_negotiable_amount;
    })

  unfoldable pub build_remote_propose_delta : Dict Amount → Result (Dict Amount)
  build_remote_propose_delta position = do
    share ← found unhandled position.proposed_share
    ok (record empty_dict { proposed_share = some share })

  unfoldable pub build_remote_request_payload : Dict Amount → Result (Dict Amount)
  build_remote_request_payload request = do
    title ← found unhandled request.title
    total_amount ← found unhandled request.total_amount
    proposed_share ← found unhandled request.proposed_share
    ok (record empty_dict {
      title = some title;
      total_amount = some total_amount;
      currency = some (currency_or request.currency);
      proposed_share = some proposed_share;
      deadline = request.deadline;
    })

  -- `float(None)` raises; a key that is missing gives 0, but every caller's dict has the keys.
  unfoldable pub remote_agreement_payload : Dict Amount → Result (Dict Amount)
  remote_agreement_payload agreed = do
    total_amount ← found unhandled agreed.total_amount
    share ← found unhandled agreed.agreed_share
    ok (record (described agreed) { total_amount = some total_amount; agreed_share = some share })

  unfoldable pub agreement_value_from_accept_delta :
      Dict Amount → Dict Amount → Result (Dict Amount)
  agreement_value_from_accept_delta delta request =
      ok (with_share delta.agreed_share (described request))

  unfoldable pub approval_context : Dict Amount → Result (Dict Amount × Dict Amount)
  approval_context raw = ok (
    with_share raw.agreed_share (described raw),
    record empty_dict { standing_offer = raw.standing_offer; round_number = raw.round_number },
  )

  -- An amount that is no number is like one that is missing: `float` raises the same error here. An
  -- override without an amount does not fall back on the proposal's.
  abbrev pub selected_share : Dict Amount → Option (Dict Amount) → Option Amount
  selected_share proposal none = proposal.agreed_share
  selected_share proposal (some override) = override.agreed_share

  unfoldable pub approval_reply :
      Bool
      → ApprovalStatus
      → Dict Amount
      → Dict Amount
      → Option (Dict Amount)
      → Result (ApprovalReply (Dict Amount))
  approval_reply approved target proposal public_context override =
      if approved
      then (found invalid_approval_selection (selected_share proposal override) >>= λ share.
          ok (record {
            message_type = MessageType.accept;
            delta = with_share (some (round2 share)) empty_dict;
            agreement_value = with_share (some (round2 share)) (described proposal);
          }))
      else ok (record {
        message_type = MessageType.reject;
        delta = record empty_dict { code = some (rejection_code target) };
        agreement_value = empty_dict;
      })

  -- `CostSplitPayload`: what pydantic asks of the amounts; what it asks of texts is not modelled.
  unfoldable pub validate_payload : Dict Amount → Result Done
  validate_payload d = do
    _ ← found invalid_payload d.title
    total ← found invalid_payload d.total_amount
    share ← found invalid_payload d.proposed_share
    raise_if (le total (num.decimal 0 0)) invalid_payload
    raise_if (not (le (num.decimal 0 0) share)) invalid_payload
    raise_if (not (le share total)) invalid_payload
