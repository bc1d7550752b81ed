-- ===== src/CostSplit/Shapes.antt =====
-- The form of the moves of domains/cost_split_strategy.py, as the driver relies on it: an accepted
-- amount is the standing offer, a counter has an amount, and a refusal has a reason.
use enishi.Prelude.{
  ℕ, ◌≡◌, ◌≢◌, refl, Bool, ◌&&◌, ◌||◌, Option, none, some, List, arith, if-intro, ◌==◌,
}
use enishi.Errors.{ok}
use enishi.CostSplit.Amounts
use enishi.CostSplit.Amounts.{Amounts}
use enishi.CostSplit.Types.{
  Role, initiator, responder, ActionKind, accept, counter, escalate, reject, ReasonCode, OfferState,
  StrategyAction, CloneAgent,
}
use enishi.CostSplit.Strategy.{
  cost_split_policy, or_else, reservation, opening, floor, responder_action, initiator_action,
  next_action,
}
use enishi.CostSplit.Limits.{Commits}
use enishi.CostSplit.Driver.{first_code, capped, cap_action, max_rounds}

module _ {A : Type 0} where
  abbrev pub HasForm : A → ActionKind → Option A → List ReasonCode → Type 0
  HasForm standing accept amount codes = amount ≡ some standing
  HasForm standing counter amount codes = (x : A) × (amount ≡ some x)
  HasForm standing escalate amount codes = (c : ReasonCode) × (first_code codes ≡ ok c)
  HasForm standing reject amount codes = (c : ReasonCode) × (first_code codes ≡ ok c)

  abbrev pub Shaped : A → StrategyAction A → Type 0
  Shaped standing a = HasForm standing a.kind a.amount a.reason_codes

  capped-Shaped :
      (k : ActionKind) (round : ℕ) (standing : A) (a : StrategyAction A)
      → Shaped standing a
      → Shaped standing (capped k round a)
  capped-Shaped counter round standing a h =
      if-intro (Shaped standing) (round == max_rounds) (λ _. (_, refl)) (λ _. h)
  capped-Shaped _ round standing a h = h

  capped_in_time :
      (k : ActionKind) (round : ℕ) (a : StrategyAction A)
      → a.kind ≡ k
      → (capped k round a).kind ≡ counter
      → round ≢ max_rounds
  capped_in_time counter round a e h = ground arith
  capped_in_time accept round a e h = cc
  capped_in_time _ round a e h = cc

module _ (num : Amounts) where
  open num use {Amount, le, round2}

  responder_action-Shaped :
      (clone : CloneAgent Amount) (total : Amount) (state : OfferState Amount) (high : Bool)
      → Shaped state.standing_offer (responder_action num clone total state high)
  unfolding responder_action
  responder_action-Shaped clone total state high =
      let standing = state.standing_offer in
      let P = Shaped standing in
      if-intro P (le standing (or_else state.my_last_offer (opening num clone total))) (λ _. refl)
        (λ _.
          if-intro P (Amounts.gt num standing (reservation num clone total))
            (λ _.
              if-intro P (le standing (cost_split_policy num clone).max_negotiable_amount || high)
                (λ _. (_, refl)) (λ _. (_, refl)))
            (λ _. (_, refl)))

  initiator_action-Shaped :
      (clone : CloneAgent Amount) (total share : Amount) (state : OfferState Amount)
      → Shaped state.standing_offer (initiator_action num clone total share state)
  unfolding initiator_action
  initiator_action-Shaped clone total share state =
      let least = floor num clone total share in
      let x_i = or_else state.my_last_offer share in
      let standing = state.standing_offer in
      let step = num.mul (num.sub x_i standing) (cost_split_policy num clone).concession_ratio in
      let candidate = round2 (Amounts.max num least (num.sub x_i step)) in
      let P = Shaped standing in
      if-intro P (le x_i standing) (λ _. refl)
        (λ _.
          if-intro P (le x_i least && Amounts.gt num least standing) (λ _. (_, refl))
            (λ _. if-intro P (le candidate standing) (λ _. refl) (λ _. (_, refl))))

  pub next_action-Shaped :
      (clone : CloneAgent Amount) (role : Role) (total share : Amount) (state : OfferState Amount)
      (high : Bool)
      → Shaped state.standing_offer (next_action num clone role total share state high)
  unfolding next_action
  next_action-Shaped clone responder total share state high =
      responder_action-Shaped clone total state high
  next_action-Shaped clone initiator total share state high =
      initiator_action-Shaped clone total share state

  abbrev pub KeepsBound :
      CloneAgent Amount → Role → Amount → Amount → StrategyAction Amount → Type 0
  KeepsBound clone role total share a = Commits num clone role total share a.amount

  pub none-Commits :
      (clone : CloneAgent Amount) (role : Role) (total share : Amount)
      → Commits num clone role total share none
  none-Commits clone responder total share = tt
  none-Commits clone initiator total share = tt

  capped-Commits :
      (k : ActionKind) (round : ℕ) (clone : CloneAgent Amount) (role : Role) (total share : Amount)
      (a : StrategyAction Amount)
      → KeepsBound clone role total share a
      → KeepsBound clone role total share (capped k round a)
  capped-Commits counter round clone role total share a h =
      if-intro (KeepsBound clone role total share) (round == max_rounds)
        (λ _. none-Commits clone role total share) (λ _. h)
  capped-Commits _ round clone role total share a h = h

  -- What a round may choose: a move of the right form, within the bound of the side whose turn it
  -- is, and no counter in the last round.
  pub record Sound (clone : CloneAgent Amount) (role : Role) (total share standing : Amount)
      (round : ℕ) (a : StrategyAction Amount) : Type 0 where
    pub form : Shaped standing a
    pub bound : KeepsBound clone role total share a
    pub in_time : a.kind ≡ counter → round ≢ max_rounds

  pub cap_action-Sound :
      (clone : CloneAgent Amount) (role : Role) (total share standing : Amount) (round : ℕ)
      (a : StrategyAction Amount)
      → Shaped standing a
      → KeepsBound clone role total share a
      → Sound clone role total share standing round (cap_action round a)
  unfolding cap_action
  cap_action-Sound clone role total share standing round a h k = record {
    form = capped-Shaped a.kind round standing a h;
    bound = capped-Commits a.kind round clone role total share a k;
    in_time = capped_in_time a.kind round a refl;
  }
