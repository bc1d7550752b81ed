-- ===== src/CostSplit/Driver.antt =====
-- `run_cost_split_negotiation` of services/local-core/enishi_core/domains/cost_split.py, with
-- `append_message`, `create_agreement` and `create_negotiation_approval` of domains/common.py: two
-- clones of one node take turns, three rounds at most.
use enishi.Prelude.{
  ℕ, zero, suc, ◌+◌, Bool, true, false, ◌||◌, Option, none, some, List, [], ◌∷◌, ◌++◌, length, ◌==◌,
  if◌then◌else◌,
}
use enishi.Errors.{Result, ok, err, clone_review_required, unhandled, ◌>>=◌}
use enishi.Protocol.{MessageType, NegotiationStatus}
use enishi.CostSplit.Amounts
use enishi.CostSplit.Amounts.{Amounts}
use enishi.CostSplit.Types.{
  Role, initiator, responder, ActionKind, ReasonCode, cost_share_exceeds_limit,
  no_agreement_within_rounds, no_zone_of_agreement, cost_split_concession,
  cost_split_negotiation_not_delegated, Outcome, OfferState, StrategyAction, CloneAgent,
  CostSplitRequest, AgreedPayload, Content, asks, offers, agrees, refuses, refers,
  NegotiationMessage, NegotiationDecision, Approval, SessionResult, Negotiation,
}
use enishi.CostSplit.Guards.{clamped_confidence, evaluate_common_guards, guard_codes}
use enishi.CostSplit.Strategy.{cost_split_policy, or_else, reservation, floor, next_action}

abbrev pub max_rounds : ℕ
max_rounds = 3

-- What the driver reads of the database. A setting that a person may change while the negotiation
-- runs is read anew each round; round 0 is the check before the first.
pub record World (A : Type 0) : Type 0 where
  pub active_clone : ℕ → Option (CloneAgent A)
  pub delegation_enabled : ℕ → ℕ → Bool
  pub high_value_approval : ℕ → ℕ → Bool

pub record Parties (A : Type 0) : Type 0 where
  pub initiator_clone : CloneAgent A
  pub responder_clone : CloneAgent A
  pub request : CostSplitRequest A

-- The variables of the loop.
pub record Turns (A : Type 0) : Type 0 where
  pub standing : A
  pub x_i : Option A
  pub x_r : Option A
  pub turn : Role

-- What one round does: it returns from the driver, or goes on.
pub data Round (A : Type 0) : Type 0 where
  returns : Negotiation A → Round A
  goes_on : Turns A → Negotiation A → Round A

-- `action.reason_codes[0]`
abbrev pub first_code : List ReasonCode → Result ReasonCode
first_code [] = err unhandled
first_code (c ∷ cs) = ok c

abbrev pub head_code : List ReasonCode → Option ReasonCode
head_code [] = none
head_code (c ∷ cs) = some c

abbrev pub other_role : Role → Role
other_role responder = initiator
other_role initiator = responder

module _ {A : Type 0} where
  abbrev pub capped : ActionKind → ℕ → StrategyAction A → StrategyAction A
  capped ActionKind.counter round action =
      if round == max_rounds
      then record {
        kind = ActionKind.escalate;
        amount = none;
        reason_codes = no_agreement_within_rounds ∷ [];
      }
      else action
  capped _ round action = action

  -- A counter in the last round becomes an escalation.
  unfoldable pub cap_action : ℕ → StrategyAction A → StrategyAction A
  cap_action round action = capped action.kind round action

  unfoldable pub append_message :
      ℕ → ℕ → MessageType → Content A → Bool → Negotiation A → Negotiation A
  append_message sender receiver message_type content human n =
      let message : NegotiationMessage A = record {
        sequence = length n.messages + 1;
        sender_agent_id = sender;
        receiver_agent_id = receiver;
        message_type = message_type;
        content = content;
        requires_human_approval = human;
      } in
      record n { messages = n.messages ++ message ∷ [] }

  unfoldable pub agreed_payload : CostSplitRequest A → A → AgreedPayload A
  agreed_payload r share = record {
    title = r.title;
    total_amount = r.total_amount;
    currency = r.currency;
    agreed_share = share;
    deadline = r.deadline;
  }

  -- An agreement that the session has already is kept.
  unfoldable pub create_agreement : AgreedPayload A → Negotiation A → Negotiation A
  create_agreement payload n = record n { agreement = some (or_else n.agreement payload) }

  unfoldable pub create_negotiation_approval :
      Parties A → CloneAgent A → AgreedPayload A → ReasonCode → Negotiation A → Negotiation A
  unfolding append_message
  create_negotiation_approval p decider payload reason n =
      let other =
        if decider.id == p.responder_clone.id then p.initiator_clone.id else p.responder_clone.id in
      let approval : Approval A = record {
        user_id = decider.user_id;
        reason = reason;
        payload = payload;
        decider_clone_id = decider.id;
      } in
      append_message decider.id other MessageType.request_approval (refers reason) true
        (record n { status = NegotiationStatus.waiting_approval; approval = some approval })

  abbrev pub resume :
      (Turns A → Negotiation A → Result (Negotiation A)) → Round A → Result (Negotiation A)
  resume next (returns n) = ok n
  resume next (goes_on t n) = next t n

  abbrev pub clone_of : Parties A → Role → CloneAgent A
  clone_of p responder = p.responder_clone
  clone_of p initiator = p.initiator_clone

  abbrev pub last_offer : Turns A → Role → Option A
  last_offer t responder = t.x_r
  last_offer t initiator = t.x_i

  abbrev pub countered : Role → A → Turns A → Turns A
  countered responder x t = record t { x_r = some x; standing = x; turn = initiator }
  countered initiator x t = record t { x_i = some x; standing = x; turn = responder }

  -- Only the responder's turn asks whether a high value needs approval.
  abbrev pub high_value_of : World A → ℕ → Parties A → Role → Bool
  high_value_of w round p responder = w.high_value_approval round p.responder_clone.user_id
  high_value_of w round p initiator = false

  unfoldable pub require_active_clone : World A → ℕ → Result (CloneAgent A)
  require_active_clone w user_id = elim (w.active_clone user_id) [
    | none ↦ err clone_review_required
    | some clone ↦ ok clone
  ]

module _ (num : Amounts) (w : World num.Amount) where
  open num use {Amount, le, round2}

  unfoldable pub record_decision :
      CloneAgent Amount
      → Outcome
      → ReasonCode
      → ℕ
      → Amount
      → Negotiation Amount
      → Negotiation Amount
  record_decision decider outcome reason round standing n =
      let decision : NegotiationDecision Amount = record {
        clone_id = decider.id;
        policy_version = decider.version;
        outcome = outcome;
        reason_codes = reason ∷ [];
        standing_offer = standing;
        round_number = round;
        confidence = clamped_confidence num decider;
      } in
      record n { decisions = n.decisions ++ decision ∷ [] }

  unfoldable pub guard_reason : ℕ → CloneAgent Amount → CloneAgent Amount → Option ReasonCode
  unfolding evaluate_common_guards
  guard_reason round acting peer = head_code (
      guard_codes num (
        evaluate_common_guards num acting (w.delegation_enabled round acting.user_id) peer.id
          cost_split_negotiation_not_delegated))

  module _ (p : Parties Amount) where
    open p use {initiator_clone, responder_clone, request}

    unfoldable pub escalate :
        CloneAgent Amount → ReasonCode → ℕ → Amount → Negotiation Amount → Negotiation Amount
    unfolding record_decision create_negotiation_approval agreed_payload
    escalate decider reason round standing n =
        create_negotiation_approval p decider (agreed_payload request (round2 standing)) reason
          (record_decision decider Outcome.approval_required reason round standing n)

    unfoldable pub reject :
        CloneAgent Amount
        → CloneAgent Amount
        → ReasonCode
        → ℕ
        → Negotiation Amount
        → Negotiation Amount
    unfolding record_decision append_message
    reject decider other reason round n =
        let offer = round2 request.proposed_share in
        let said =
          append_message decider.id other.id MessageType.reject (refuses reason) false
            (record_decision decider Outcome.reject reason round (round2 offer) n) in
        record said {
          status = NegotiationStatus.failed;
          result = some (SessionResult.refusal reason round);
        }

    unfoldable pub settle : Role → Amount → ℕ → Negotiation Amount → Negotiation Amount
    unfolding append_message create_agreement agreed_payload
    settle role share round n =
        let acting = clone_of p role in
        let other = clone_of p (other_role role) in
        let said = append_message acting.id other.id MessageType.accept (agrees share) false n in
        create_agreement (agreed_payload request share) (record said {
          status = NegotiationStatus.agreed;
          result = some (SessionResult.agreed_share share round);
        })

    unfoldable pub act :
        ActionKind
        → StrategyAction Amount
        → ℕ
        → Turns Amount
        → Negotiation Amount
        → Result (Round Amount)
    act ActionKind.accept action round t n =
        ok (returns (settle t.turn (round2 (or_else action.amount t.standing)) round n))
    act ActionKind.escalate action round t n = do
      reason ← first_code action.reason_codes
      ok (returns (escalate (clone_of p t.turn) reason round t.standing n))
    act ActionKind.reject action round t n = do
      reason ← first_code action.reason_codes
      ok (returns (reject (clone_of p t.turn) (clone_of p (other_role t.turn)) reason round n))
    act ActionKind.counter action round t n = elim action.amount [
      | none ↦ err unhandled
      | some amount ↦
          let new_offer = round2 amount in
          let acting = clone_of p t.turn in
          let other = clone_of p (other_role t.turn) in
          ok (
            goes_on (countered t.turn new_offer t) (
              append_message acting.id other.id MessageType.counter
                (offers new_offer cost_split_concession) false n))
    ]

    unfoldable pub chosen : ℕ → Turns Amount → StrategyAction Amount
    unfolding cap_action
    chosen round t =
        let state : OfferState Amount = record {
          round_number = round;
          standing_offer = round2 t.standing;
          my_last_offer = last_offer t t.turn;
        } in
        cap_action round (
          next_action num (clone_of p t.turn) t.turn request.total_amount
            (round2 request.proposed_share) state (high_value_of w round p t.turn))

    unfoldable pub play_round : ℕ → Turns Amount → Negotiation Amount → Result (Round Amount)
    play_round round t n =
        let acting = clone_of p t.turn in
        elim (guard_reason round acting (clone_of p (other_role t.turn))) [
          | some reason ↦ ok (returns (escalate acting reason round t.standing n))
          | none ↦ let action = chosen round t in act action.kind action round t n
        ]

    -- `for round_number in range(...)`, by the number of rounds left; at its end the session stays
    -- open.
    unfoldable pub play_rounds :
        ℕ → ℕ → Turns Amount → Negotiation Amount → Result (Negotiation Amount)
    play_rounds zero round t n = ok n
    play_rounds (suc left) round t n =
        play_round round t n >>= resume (play_rounds left (round + 1))

    -- The session with its REQUEST.
    unfoldable pub opened_session : Negotiation Amount
    unfolding append_message
    opened_session =
        append_message initiator_clone.id responder_clone.id MessageType.request (asks request)
          false
          (record {
            status = NegotiationStatus.opened;
            result = none;
            messages = [];
            decisions = [];
            agreement = none;
            approval = none;
          })

    unfoldable pub negotiate : Result (Negotiation Amount)
    negotiate =
        let offer = round2 request.proposed_share in
        let n = opened_session in
        elim (guard_reason 0 responder_clone initiator_clone) [
          | some reason ↦ ok (escalate responder_clone reason 1 offer n)
          | none ↦
              let zopa_floor = floor num initiator_clone request.total_amount offer in
              let zopa_ceiling = reservation num responder_clone request.total_amount in
              let policy = cost_split_policy num responder_clone in
              if Amounts.gt num zopa_floor zopa_ceiling
              then ok (
                  if le offer policy.max_negotiable_amount
                    || w.high_value_approval 0 responder_clone.user_id
                  then escalate responder_clone no_zone_of_agreement 1 offer n
                  else reject responder_clone initiator_clone cost_share_exceeds_limit 1 n)
              else play_rounds max_rounds 1
                  (record { standing = offer; x_i = some offer; x_r = none; turn = responder }) n
        ]

  unfoldable pub run_cost_split_negotiation : CostSplitRequest Amount → Result (Negotiation Amount)
  run_cost_split_negotiation request = do
    initiator_clone ← require_active_clone w request.initiator_user_id
    responder_clone ← require_active_clone w request.responder_user_id
    negotiate (record {
      initiator_clone = initiator_clone;
      responder_clone = responder_clone;
      request = request;
    })
