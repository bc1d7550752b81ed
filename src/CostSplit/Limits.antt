-- ===== src/CostSplit/Limits.antt =====
-- The bounds that domains/cost_split_strategy.py promises: neither side commits beyond what its
-- owner allows.
use enishi.Prelude.{◌≡◌, Bool, true, inl, inr, Option, none, some, Bool-cases, if-intro, ◌&&◌, ◌||◌}
use enishi.CostSplit.Amounts
use enishi.CostSplit.Amounts.{Amounts, min-le_left, min-le_right, le-max_left, round2-le, le-round2}
use enishi.CostSplit.Types.{Role, initiator, responder, OfferState, StrategyAction, CloneAgent}
use enishi.CostSplit.Strategy.{
  cost_split_policy, or_else, reservation, opening, policy_floor, floor, responder_action,
  initiator_action, next_action,
}

module _ (num : Amounts) where
  open num use {Amount, le, round2, decimal}

  abbrev pub AtMost : Amount → Option Amount → Type 0
  AtMost limit none = Unit
  AtMost limit (some a) = le a limit ≡ true

  abbrev pub AtLeast : Amount → Option Amount → Type 0
  AtLeast limit none = Unit
  AtLeast limit (some a) = le limit a ≡ true

  pub round2-reservation :
      (clone : CloneAgent Amount) (total : Amount)
      → round2 (reservation num clone total) ≡ reservation num clone total
  unfolding reservation
  round2-reservation clone total = num.round2_idem _

  pub opening-le-reservation :
      (clone : CloneAgent Amount) (total : Amount)
      → le (decimal 0 0) total ≡ true
      → le (opening num clone total) (reservation num clone total) ≡ true
  unfolding opening reservation
  opening-le-reservation clone total h =
      num.round2_mono _ _ (num.mul_mono total _ _ h (min-le_right num _ _))

  round2-policy_floor :
      (clone : CloneAgent Amount) (total : Amount)
      → round2 (policy_floor num clone total) ≡ policy_floor num clone total
  unfolding policy_floor
  round2-policy_floor clone total = num.round2_idem _

  pub round2-floor :
      (clone : CloneAgent Amount) (total share : Amount)
      → round2 share ≡ share
      → round2 (floor num clone total share) ≡ floor num clone total share
  unfolding floor
  round2-floor clone total share h = elim (Bool-cases (le (policy_floor num clone total) share)) [
    | inl e ↦ rw e (round2-policy_floor clone total)
    | inr e ↦ rw e h
  ]

  pub floor-le-share :
      (clone : CloneAgent Amount) (total share : Amount)
      → le (floor num clone total share) share ≡ true
  unfolding floor
  floor-le-share clone total share = min-le_right num _ _

  x_r-AtMost :
      (clone : CloneAgent Amount) (total : Amount) (last : Option Amount)
      → le (decimal 0 0) total ≡ true
      → AtMost (reservation num clone total) last
      → le (or_else last (opening num clone total)) (reservation num clone total) ≡ true
  x_r-AtMost clone total none h k = opening-le-reservation clone total h
  x_r-AtMost clone total (some a) h k = k

  x_i-AtLeast :
      (clone : CloneAgent Amount) (total share : Amount) (last : Option Amount)
      → AtLeast (floor num clone total share) last
      → le (floor num clone total share) (or_else last share) ≡ true
  x_i-AtLeast clone total share none k = floor-le-share clone total share
  x_i-AtLeast clone total share (some a) k = k

  pub responder_action-AtMost :
      (clone : CloneAgent Amount) (total : Amount) (state : OfferState Amount) (high : Bool)
      → le (decimal 0 0) total ≡ true
      → AtMost (reservation num clone total) state.my_last_offer
      → AtMost (reservation num clone total) (responder_action num clone total state high).amount
  unfolding responder_action
  responder_action-AtMost clone total state high h k =
      let limit = reservation num clone total in
      let last = state.my_last_offer in
      let standing = state.standing_offer in
      let P = λ (a : StrategyAction Amount). AtMost limit a.amount in
      if-intro P (le standing (or_else last (opening num clone total)))
        (λ e. num.le_trans _ _ _ e (x_r-AtMost clone total last h k))
        (λ _.
          if-intro P (Amounts.gt num standing limit)
            (λ _.
              if-intro P (le standing (cost_split_policy num clone).max_negotiable_amount || high)
                (λ _. tt) (λ _. tt))
            (λ _. round2-le num _ _ (round2-reservation clone total) (min-le_left num _ _)))

  pub initiator_action-AtLeast :
      (clone : CloneAgent Amount) (total share : Amount) (state : OfferState Amount)
      → round2 share ≡ share
      → AtLeast (floor num clone total share) state.my_last_offer
      → AtLeast (floor num clone total share) (initiator_action num clone total share state).amount
  unfolding initiator_action
  initiator_action-AtLeast clone total share state h k =
      let least = floor num clone total share in
      let x_i = or_else state.my_last_offer share in
      let standing = state.standing_offer in
      let step = num.mul (num.sub x_i standing) (cost_split_policy num clone).concession_ratio in
      let candidate = round2 (Amounts.max num least (num.sub x_i step)) in
      let above = le-round2 num _ _ (round2-floor clone total share h) (le-max_left num least _) in
      let P = λ (a : StrategyAction Amount). AtLeast least a.amount in
      if-intro P (le x_i standing)
        (λ e. num.le_trans _ _ _ (x_i-AtLeast clone total share state.my_last_offer k) e)
        (λ _.
          if-intro P (le x_i least && Amounts.gt num least standing) (λ _. tt)
            (λ _.
              if-intro P (le candidate standing) (λ e. num.le_trans _ _ _ above e) (λ _. above)))

  -- What a role may commit to: the responder pays at most its reservation, the initiator gets at
  -- least its floor.
  abbrev pub Commits : CloneAgent Amount → Role → Amount → Amount → Option Amount → Type 0
  Commits clone responder total share = AtMost (reservation num clone total)
  Commits clone initiator total share = AtLeast (floor num clone total share)

  -- For a total that is not negative and a proposed share that is rounded: whatever the other side
  -- offers, in either role, an amount that `next_action` accepts or proposes is at most the
  -- responder's reservation, respectively at least the initiator's floor, if that held of the own
  -- last offer.
  pub next_action-Commits :
      (clone : CloneAgent Amount) (role : Role) (total share : Amount) (state : OfferState Amount)
      (high : Bool)
      → le (decimal 0 0) total ≡ true
      → round2 share ≡ share
      → Commits clone role total share state.my_last_offer
      → Commits clone role total share (next_action num clone role total share state high).amount
  unfolding next_action
  next_action-Commits clone responder total share state high h r k =
      responder_action-AtMost clone total state high h k
  next_action-Commits clone initiator total share state high h r k =
      initiator_action-AtLeast clone total share state r k
