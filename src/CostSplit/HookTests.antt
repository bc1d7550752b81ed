-- ===== src/CostSplit/HookTests.antt =====
-- The hooks of domains/cost_split.py at a concrete request between two nodes.
use enishi.Prelude.{ℕ, ◌≡◌, refl, true, false, none, some, []}
use enishi.Errors.{Result, ok, err}
use enishi.Protocol.{MessageType}
use enishi.Tasks.Types.{ApprovalStatus}
use enishi.Remote.Types
use enishi.Remote.Domain.{Reply, Circumstances}
use enishi.CostSplit.Types.{responder}
use enishi.CostSplit.Guards.{evaluate_common_guards}
use enishi.CostSplit.Strategy.{
  cost_split_policy, cost_split_preferred_ratio, reservation, opening, responder_action,
  next_action,
}
use enishi.CostSplit.Hooks.{
  Dict, empty_dict, described, cap_reply, reply_for, chosen_reply, derive_own_position,
  decide_remote_reply, agreement_value_from_accept_delta, approval_context, approval_reply,
}
use enishi.CostSplit.Offers.{Keeps, decide_remote_reply-Keeps}
use enishi.CostSplit.Consent.{consented, Consents, accepted-same, approved-Consents}
use enishi.CostSplit.Cents.{cents, paying}

abbrev wire : Dict ℕ
wire = record empty_dict {
  title = some "dinner";
  total_amount = some 10000;
  currency = some "JPY";
  proposed_share = some 5900;
}

abbrev position : Dict ℕ
position = record (described wire) {
  proposed_share = some 5900;
  reservation_ratio = some 60;
  preferred_ratio = some 30;
  concession_ratio = some 50;
  max_auto_accept_amount = some 500000;
  max_negotiable_amount = some 3000000;
}

abbrev offer : ℕ → Dict ℕ
offer share = record empty_dict { proposed_share = some share }

abbrev told : Circumstances (Dict ℕ)
told = record {
  is_initiator = false;
  round_number = 1;
  peer_personal_agent_id = 1;
  delegation_enabled = true;
  high_value_approval_required = true;
  own_last_delta = none;
}

abbrev nothing : Reply (Dict ℕ)
nothing = record {
  outcome = Types.reject;
  reason_codes = [];
  evidence = empty_dict;
  policy_version = 0;
  reply_delta = empty_dict;
  agreement_value = empty_dict;
  approval_raw = empty_dict;
  proposed_action = MessageType.accept;
}

abbrev reply_in : Result (Reply (Dict ℕ)) → Reply (Dict ℕ)
reply_in (ok r) = r
reply_in (err c) = nothing

abbrev reply_to : ℕ → Reply (Dict ℕ)
reply_to share = reply_in (decide_remote_reply cents paying position (offer share) told)

derived : derive_own_position cents paying wire 1 ≡ ok position
unfolding derive_own_position cost_split_policy cost_split_preferred_ratio
derived = refl

decide_remote_reply-Keeps_example :
    (r : Reply (Dict ℕ)) × (decide_remote_reply cents paying position (offer 5500) told ≡ ok r)
    × Keeps cents paying responder 10000 5900 1 r.outcome 5500 r
decide_remote_reply-Keeps_example =
    decide_remote_reply-Keeps cents paying position (offer 5500) told 10000 5900 refl refl refl refl
      tt

accepted-same_example :
    agreement_value_from_accept_delta cents (reply_to 2900).reply_delta wire
    ≡ ok (reply_to 2900).agreement_value
unfolding decide_remote_reply chosen_reply next_action cap_reply reply_for evaluate_common_guards
    responder_action opening reservation cost_split_policy cost_split_preferred_ratio
accepted-same_example =
    accepted-same cents paying wire position (offer 2900) 1 told (reply_to 2900) derived refl refl

-- An offer above the reservation goes to the owner, who names another amount.
abbrev asked : Dict ℕ × Dict ℕ
asked = (
  record (described wire) { agreed_share = some 7000 },
  record empty_dict { standing_offer = some 7000; round_number = some 1 },
)

approved-Consents_example :
    Consents cents wire
      (consented cents 7000 (some (record empty_dict { agreed_share = some 6500 })))
      (approval_reply cents true ApprovalStatus.approved asked.0 asked.1
        (some (record empty_dict { agreed_share = some 6500 })))
unfolding decide_remote_reply chosen_reply next_action cap_reply reply_for evaluate_common_guards
    responder_action opening reservation cost_split_policy cost_split_preferred_ratio
    approval_context
approved-Consents_example =
    approved-Consents cents paying wire position (offer 7000) 1 told (reply_to 7000)
      ApprovalStatus.approved asked.0 asked.1
      (some (record empty_dict { agreed_share = some 6500 })) 5900 derived refl refl refl refl
