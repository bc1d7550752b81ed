-- ===== src/CostSplit/Gate.antt =====
-- The human gate of domains/cost_split.py and domains/common.py: what lets a clone decide alone,
-- and what happens where nothing does.
use mathlib.Core.List.{map}
use enishi.Prelude.{
  ℕ, ◌≡◌, ◌≢◌, refl, ◌∙◌, Bool, true, false, ◌↔◌, none, some, List, [], ◌∷◌, arith,
}
use enishi.Errors.{ok}
use enishi.Protocol.{MessageType, NegotiationStatus}
use enishi.CostSplit.Amounts.{Amounts}
use enishi.CostSplit.Types.{
  ReasonCode, cost_split_negotiation_not_delegated, CloneAgent, CostSplitRequest, Approval,
  Negotiation,
}
use enishi.CostSplit.Guards.{
  clamped_confidence, confidence_threshold, evaluate_common_guards, guard_codes,
}
use enishi.CostSplit.Driver.{
  World, guard_reason, opened_session, escalate, negotiate, run_cost_split_negotiation,
}
use enishi.CostSplit.Settlement.{parties, run-negotiate}

module _ (num : Amounts) where
  open num use {Amount, le}

  -- The common guards give no reason exactly when the owner has delegated, the clone's clamped
  -- confidence reaches the threshold, and the owner has not forbidden automatic acceptance for this
  -- peer.
  pub evaluate_common_guards_exact :
      (clone : CloneAgent Amount) (delegated : Bool) (peer : ℕ) (code : ReasonCode)
      → (guard_codes num (evaluate_common_guards num clone delegated peer code) ≡ []) ↔ (
          (delegated ≡ true)
          × (le (confidence_threshold num) (clamped_confidence num clone) ≡ true)
          × (clone.relationships peer ≢ some false))
  unfolding evaluate_common_guards
  evaluate_common_guards_exact clone delegated peer code = ground arith

  abbrev pub said : Negotiation Amount → List MessageType
  said n = map (λ m. m.message_type) n.messages

  undelegated-guard_reason :
      (w : World Amount) (round : ℕ) (acting peer : CloneAgent Amount)
      → w.delegation_enabled round acting.user_id ≡ false
      → guard_reason num w round acting peer ≡ some cost_split_negotiation_not_delegated
  unfolding guard_reason
  undelegated-guard_reason w round acting peer off = rw off

  -- If the responder's owner has not delegated cost splits when the negotiation starts, it ends
  -- before any offer is answered: the messages are REQUEST and REQUEST_APPROVAL, the session waits,
  -- there is no agreement, and an approval for the responder's owner has been created.
  pub run_undelegated :
      (w : World Amount) (request : CostSplitRequest Amount) (i r : CloneAgent Amount)
      → w.active_clone request.initiator_user_id ≡ some i
      → w.active_clone request.responder_user_id ≡ some r
      → w.delegation_enabled 0 r.user_id ≡ false
      → (n : Negotiation Amount) × (run_cost_split_negotiation num w request ≡ ok n)
        × (n.status ≡ NegotiationStatus.waiting_approval)
        × (n.agreement ≡ none)
        × (said n ≡ MessageType.request ∷ MessageType.request_approval ∷ [])
        × ((a : Approval Amount) × (n.approval ≡ some a)
            × (a.user_id ≡ r.user_id)
            × (a.reason ≡ cost_split_negotiation_not_delegated))
  unfolding negotiate opened_session escalate
  run_undelegated w request i r hi hr off =
      let p = parties num w request i r hi hr in
      let n = opened_session num w p in
      let reason = cost_split_negotiation_not_delegated in
      (
        escalate num w p r reason 1 (num.round2 request.proposed_share) n,
        run-negotiate num w request i r hi hr
            ∙ rw (undelegated-guard_reason w 0 r i off, negotiate),
        refl,
        refl,
        refl,
        (_, refl, refl, refl),
      )
