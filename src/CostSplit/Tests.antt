-- ===== src/CostSplit/Tests.antt =====
-- The cost split over whole cents, and the theorems at concrete negotiations.
use enishi.Prelude.{
  length, ◌≤◌, ℕ, ◌≡◌, ◌≢◌, refl, Bool, true, false, ◌↔◌, Option, none, some, List, [], ◌∷◌, leb,
  ◌==◌, if◌then◌else◌,
}
use enishi.Errors.{Result, ok, err}
use enishi.Protocol.{MessageType, NegotiationStatus}
use enishi.CostSplit.Types.{
  responder, cost_split_negotiation_not_delegated, OfferState, CloneAgent, CostSplitRequest,
  Approval, Negotiation,
}
use enishi.CostSplit.Guards.{
  confidence_threshold, clamped_confidence, evaluate_common_guards, guard_codes,
}
use enishi.CostSplit.Strategy
use enishi.CostSplit.Strategy.{cost_split_policy, floor, reservation, next_action}
use enishi.CostSplit.Limits.{Commits, next_action-Commits}
use enishi.CostSplit.Cents.{cents, asking, paying}
use enishi.CostSplit.Driver.{
  World, play_round, play_rounds, chosen, act, settle, guard_reason, opened_session,
  require_active_clone, negotiate, append_message, escalate, reject, run_cost_split_negotiation,
}
use enishi.CostSplit.Rounds.{Settled}
use enishi.CostSplit.Settlement.{run_cost_split_negotiation-Settled}
use enishi.CostSplit.Gate.{evaluate_common_guards_exact, said, run_undelegated}

abbrev users : ℕ → Option (CloneAgent ℕ)
users u = if u == 101 then some asking else if u == 102 then some paying else none

abbrev world : Bool → World ℕ
world delegated = record {
  active_clone = users;
  delegation_enabled = λ _ _. delegated;
  high_value_approval = λ _ _. true;
}

-- The whole bill is 100.00, of which the initiator asks the responder for 59.00.
abbrev dinner : CostSplitRequest ℕ
dinner = record {
  initiator_user_id = 101;
  responder_user_id = 102;
  title = "dinner";
  total_amount = 10000;
  currency = "JPY";
  proposed_share = 5900;
  deadline = none;
}

evaluate_common_guards_exact_example :
    (guard_codes cents
        (evaluate_common_guards cents asking true 7 cost_split_negotiation_not_delegated)
      ≡ [])
    ↔ ((◌≡◌ {A = Bool} true true)
        × (leb (confidence_threshold cents) (clamped_confidence cents asking) ≡ true)
        × (asking.relationships 7 ≢ some false))
evaluate_common_guards_exact_example =
    evaluate_common_guards_exact cents asking true 7 cost_split_negotiation_not_delegated

abbrev second_state : OfferState ℕ
second_state = record { round_number = 3; standing_offer = 5500; my_last_offer = some 4450 }

next_action-Commits_example :
    Commits cents paying responder 10000 5900
      (next_action cents paying responder 10000 5900 second_state true).amount
unfolding reservation cost_split_policy
next_action-Commits_example =
    next_action-Commits cents paying responder 10000 5900 second_state true refl refl refl

run_cost_split_negotiation-Settled_example :
    (n : Negotiation ℕ) × (run_cost_split_negotiation cents (world true) dinner ≡ ok n)
    × Settled leb (floor cents asking 10000 5900) (reservation cents paying 10000) n
    × (length n.messages ≤ 4)
run_cost_split_negotiation-Settled_example =
    run_cost_split_negotiation-Settled cents (world true) dinner asking paying refl refl refl

run_undelegated_example :
    (n : Negotiation ℕ) × (run_cost_split_negotiation cents (world false) dinner ≡ ok n)
    × (n.status ≡ NegotiationStatus.waiting_approval)
    × (n.agreement ≡ none)
    × (said cents n ≡ MessageType.request ∷ MessageType.request_approval ∷ [])
    × ((a : Approval ℕ) × (n.approval ≡ some a)
        × (a.user_id ≡ 102)
        × (a.reason ≡ cost_split_negotiation_not_delegated))
run_undelegated_example = run_undelegated cents (world false) dinner asking paying refl refl refl

abbrev messages_of : Result (Negotiation ℕ) → List MessageType
messages_of (ok n) = said cents n
messages_of (err c) = []

-- Two counters, and then the responder's owner is asked.
dinner_messages :
    messages_of (run_cost_split_negotiation cents (world true) dinner)
    ≡ MessageType.request ∷ MessageType.counter ∷ MessageType.counter ∷ MessageType.request_approval
      ∷ []
unfolding run_cost_split_negotiation require_active_clone negotiate guard_reason opened_session
    escalate reject play_rounds play_round chosen next_action act settle append_message
    Strategy.responder_action Strategy.initiator_action Strategy.opening Strategy.floor
    Strategy.policy_floor Strategy.reservation Strategy.cost_split_policy
    Strategy.cost_split_preferred_ratio
dinner_messages = refl
