-- ===== src/CostSplit/Rounds.antt =====
-- The rounds of `run_cost_split_negotiation` of domains/cost_split.py: what each relies on, and how each
-- of them ends.
use enishi.Prelude.{
  ℕ, zero, suc, ◌+◌, ◌≡◌, ◌≢◌, refl, Bool, true, ◌||◌, Option, none, some, arith, if-intro,
  Option-cases, inl, inr, ◌≤◌, [], ◌∷◌, ◌++◌, length, length-append,
}
use enishi.Errors.{Result, ok, err, ◌>>=◌}
use enishi.Protocol.{NegotiationStatus}
use enishi.CostSplit.Amounts
use enishi.CostSplit.Amounts.{Amounts, round2-le, le-round2, min-le_right, le_refl}
use enishi.CostSplit.Types.{
  Role, initiator, responder, ActionKind, accept, counter, escalate, reject, ReasonCode,
  StrategyAction, CloneAgent, AgreedPayload, Approval, Negotiation, NegotiationMessage,
  no_zone_of_agreement, cost_share_exceeds_limit,
}
use enishi.CostSplit.Strategy.{reservation, floor, cost_split_policy}
use enishi.CostSplit.Limits.{
  AtMost, AtLeast, Commits, next_action-Commits, round2-reservation, round2-floor, floor-le-share,
}
use enishi.CostSplit.Shapes
use enishi.CostSplit.Shapes.{Shaped, Sound, next_action-Shaped, cap_action-Sound}
use enishi.CostSplit.Driver
use enishi.CostSplit.Driver.{
  World, Parties, Turns, Round, returns, goes_on, resume, clone_of, last_offer, max_rounds, settle,
  act, chosen, play_round, play_rounds, opened_session, negotiate, require_active_clone,
  run_cost_split_negotiation, guard_reason, high_value_of, first_code, other_role, agreed_payload,
  append_message,
}

-- A session that the driver has brought to its end: agreed on an amount between two bounds, in the
-- hands of a person, or refused.
pub data Settled {A : Type 0} (le : A → A → Bool) (lo hi : A) (n : Negotiation A) : Type 0 where
  within :
      (payload : AgreedPayload A)
      → n.status ≡ NegotiationStatus.agreed
      → n.agreement ≡ some payload
      → n.approval ≡ none
      → le lo payload.agreed_share ≡ true
      → le payload.agreed_share hi ≡ true
      → Settled le lo hi n
  waiting :
      (approval : Approval A)
      → n.status ≡ NegotiationStatus.waiting_approval
      → n.agreement ≡ none
      → n.approval ≡ some approval
      → Settled le lo hi n
  refused :
      n.status ≡ NegotiationStatus.failed
      → n.agreement ≡ none
      → n.approval ≡ none
      → Settled le lo hi n

-- A session that nothing has ended yet when a round begins: it has its REQUEST and one message of
-- each round before.
pub record Pending {A : Type 0} (round : ℕ) (n : Negotiation A) : Type 0 where
  pub in_time : round ≤ 3
  pub said : length n.messages ≡ round
  pub no_agreement : n.agreement ≡ none
  pub no_approval : n.approval ≡ none

module _ (num : Amounts) (w : World num.Amount) (p : Parties num.Amount)
    (positive : num.le (num.decimal 0 0) p.request.total_amount ≡ true) where
  open num use {Amount, le, round2}
  open p use {initiator_clone, responder_clone, request}

  abbrev pub total : Amount
  total = request.total_amount

  abbrev pub offer : Amount
  offer = round2 request.proposed_share

  abbrev pub lo : Amount
  lo = floor num initiator_clone total offer

  abbrev pub hi : Amount
  hi = reservation num responder_clone total

  abbrev pub Ended : Negotiation Amount → Type 0
  Ended n = Settled le lo hi n × (length n.messages ≤ 4)

  -- One message more.
  said_once :
      (round : ℕ) (n : Negotiation Amount) (m : NegotiationMessage Amount)
      → Pending round n
      → length (n.messages ++ m ∷ []) ≤ 4
  said_once round n m h =
      let a = h.in_time in let b = h.said in omega (arith, length-append n.messages (m ∷ []))

  escalate-Ended :
      (decider : CloneAgent Amount) (reason : ReasonCode) (round : ℕ) (standing : Amount)
      (n : Negotiation Amount)
      → Pending round n
      → Ended (Driver.escalate num w p decider reason round standing n)
  unfolding Driver.escalate
  escalate-Ended decider reason round standing n h =
      (waiting _ refl h.no_agreement refl, said_once round n _ h)

  reject-Ended :
      (decider other : CloneAgent Amount) (reason : ReasonCode) (round : ℕ) (n : Negotiation Amount)
      → Pending round n
      → Ended (Driver.reject num w p decider other reason round n)
  unfolding Driver.reject
  reject-Ended decider other reason round n h =
      (refused refl h.no_agreement h.no_approval, said_once round n _ h)

  settle-Ended :
      (role : Role) (share : Amount) (round : ℕ) (n : Negotiation Amount)
      → Pending round n
      → le lo share ≡ true
      → le share hi ≡ true
      → Ended (settle num w p role share round n)
  unfolding settle
  settle-Ended role share round n h a b = (
    within (agreed_payload request share) refl (rw h.no_agreement refl) h.no_approval a b,
    said_once round n _ h,
  )

  -- The offers on the table: each side's own keeps its bound, and so does the standing one, which
  -- is the other side's.
  abbrev StandingBound : Role → Amount → Type 0
  StandingBound responder x = le lo x ≡ true
  StandingBound initiator x = le x hi ≡ true

  record Fits (t : Turns Amount) : Type 0 where
    asked : AtLeast num lo t.x_i
    given : AtMost num hi t.x_r
    theirs : StandingBound t.turn t.standing

  abbrev RoundEnds : ℕ → Result (Round Amount) → Type 0
  RoundEnds round (ok (returns m)) = Ended m
  RoundEnds round (ok (goes_on t m)) = Fits t × Pending (round + 1) m
  RoundEnds round (err c) = ⊥

  abbrev pub RunEnds : Result (Negotiation Amount) → Type 0
  RunEnds (ok n) = Ended n
  RunEnds (err c) = ⊥

  round2-lo : round2 lo ≡ lo
  round2-lo = round2-floor num initiator_clone total offer (num.round2_idem _)

  round2-hi : round2 hi ≡ hi
  round2-hi = round2-reservation num responder_clone total

  abbrev SideCommits : Role → Option Amount → Type 0
  SideCommits role = Commits num (clone_of p role) role total offer

  own_bound : (role : Role) (t : Turns Amount) → Fits t → SideCommits role (last_offer t role)
  own_bound responder t h = h.given
  own_bound initiator t h = h.asked

  -- An offer that its sender may make and its receiver may take lies between the bounds.
  taken_bounds :
      (role : Role) (s : Amount)
      → StandingBound role s
      → SideCommits role (some (round2 s))
      → (le lo (round2 (round2 s)) ≡ true) × (le (round2 (round2 s)) hi ≡ true)
  taken_bounds responder s a b = (
    le-round2 num lo _ round2-lo (le-round2 num lo s round2-lo a),
    round2-le num _ hi round2-hi b,
  )
  taken_bounds initiator s a b = (
    le-round2 num lo _ round2-lo b,
    round2-le num _ hi round2-hi (round2-le num s hi round2-hi a),
  )

  countered-Fits :
      (role : Role) (t : Turns Amount) (x : Amount)
      → Fits t
      → SideCommits role (some x)
      → Fits (Driver.countered role (round2 x) t)
  countered-Fits responder t x h b =
      let kept = round2-le num x hi round2-hi b in
      record { asked = h.asked; given = kept; theirs = kept }
  countered-Fits initiator t x h b =
      let kept = le-round2 num lo x round2-lo b in
      record { asked = kept; given = h.given; theirs = kept }

  next_Pending :
      (round : ℕ) (n : Negotiation Amount) (m : NegotiationMessage Amount)
      → Pending round n
      → round ≢ max_rounds
      → Pending (round + 1) (record n { messages = n.messages ++ m ∷ [] })
  next_Pending round n m h early =
      let a = h.in_time in
      let b = h.said in
      record {
        in_time = ground arith;
        said = omega (arith, length-append n.messages (m ∷ []));
        no_agreement = h.no_agreement;
        no_approval = h.no_approval;
      }

  act-RoundEnds :
      (k : ActionKind) (a : StrategyAction Amount) (round : ℕ) (t : Turns Amount)
      (n : Negotiation Amount)
      → Shapes.HasForm (round2 t.standing) k a.amount a.reason_codes
      → SideCommits t.turn a.amount
      → (k ≡ counter → round ≢ max_rounds)
      → Fits t
      → Pending round n
      → RoundEnds round (act num w p k a round t n)
  unfolding act append_message
  act-RoundEnds accept a round t n form bound timely f h =
      let (x, y) = taken_bounds t.turn t.standing f.theirs (rw form at bound) in
      rw form (settle-Ended t.turn _ round n h x y)
  act-RoundEnds counter a round t n (x, form) bound timely f h =
      rw form
        (countered-Fits t.turn t x f (rw form at bound), next_Pending round n _ h (timely refl))
  act-RoundEnds escalate a round t n (c, form) bound timely f h =
      rw form (escalate-Ended (clone_of p t.turn) c round t.standing n h)
  act-RoundEnds reject a round t n (c, form) bound timely f h =
      rw form (reject-Ended (clone_of p t.turn) (clone_of p (other_role t.turn)) c round n h)

  chosen-Sound :
      (round : ℕ) (t : Turns Amount)
      → Fits t
      → Sound num
          (clone_of p t.turn)
          t.turn
          total
          offer
          (round2 t.standing)
          round
          (chosen num w p round t)
  unfolding chosen
  chosen-Sound round t f =
      cap_action-Sound num _ t.turn total offer _ round _
        (next_action-Shaped num _ t.turn total offer _ _)
        (next_action-Commits num _ t.turn total offer _ _ positive (num.round2_idem _)
          (own_bound t.turn t f))

  play_round-RoundEnds :
      (round : ℕ) (t : Turns Amount) (n : Negotiation Amount)
      → Fits t
      → Pending round n
      → RoundEnds round (play_round num w p round t n)
  unfolding play_round
  play_round-RoundEnds round t n f h =
      let acting = clone_of p t.turn in
      let peer = clone_of p (other_role t.turn) in
      let c = chosen-Sound round t f in
      elim (Option-cases (guard_reason num w round acting peer)) [
        | inl free ↦
            rw (free, play_round) (act-RoundEnds _ _ round t n c.form c.bound c.in_time f h)
        | inr (reason, held) ↦
            rw (held, play_round) (escalate-Ended acting reason round t.standing n h)
      ]

  resume-RunEnds :
      (next : Turns Amount → Negotiation Amount → Result (Negotiation Amount)) (round : ℕ)
      → ((t : Turns Amount) (n : Negotiation Amount)
          → Fits t
          → Pending (round + 1) n
          → RunEnds (next t n))
      → (r : Result (Round Amount)) → RoundEnds round r
      → RunEnds (r >>= resume next)
  resume-RunEnds next round rest (ok (returns n)) h = h
  resume-RunEnds next round rest (ok (goes_on t n)) (f, h) = rest t n f h
  resume-RunEnds next round rest (err c) h = absurd h

  play_rounds-RunEnds :
      (left round : ℕ) (t : Turns Amount) (n : Negotiation Amount)
      → left + round ≡ max_rounds
      → Fits t
      → Pending round n
      → RunEnds (play_rounds num w p (suc left) round t n)
  unfolding play_rounds
  play_rounds-RunEnds zero round t n e f h =
      resume-RunEnds _ round (λ t' m f' h'. let late = h'.in_time in absurd (omega arith))
        (play_round num w p round t n) (play_round-RoundEnds round t n f h)
  play_rounds-RunEnds (suc left) round t n e f h =
      resume-RunEnds _ round
        (λ t' m f' h'. play_rounds-RunEnds left (round + 1) t' m (omega arith) f' h')
        (play_round num w p round t n) (play_round-RoundEnds round t n f h)

  first_turn-Fits :
      Fits (record { standing = offer; x_i = some offer; x_r = none; turn = responder })
  first_turn-Fits =
      let kept = floor-le-share num initiator_clone total offer in
      record { asked = kept; given = tt; theirs = kept }

  opened_session-Pending : Pending 1 (opened_session num w p)
  unfolding opened_session append_message
  opened_session-Pending = record {
    in_time = omega arith;
    said = refl;
    no_agreement = refl;
    no_approval = refl;
  }

  pub negotiate-RunEnds : RunEnds (negotiate num w p)
  unfolding negotiate
  negotiate-RunEnds =
      let n = opened_session num w p in
      let h = opened_session-Pending in
      let policy = cost_split_policy num responder_clone in
      elim (Option-cases (guard_reason num w 0 responder_clone initiator_clone)) [
        | inr (reason, held) ↦
            rw (held, negotiate) (escalate-Ended responder_clone reason 1 offer n h)
        | inl free ↦
            rw (free, negotiate)
              (if-intro RunEnds (Amounts.gt num lo hi)
                (λ _.
                  if-intro Ended
                    (le offer policy.max_negotiable_amount
                      || w.high_value_approval 0 responder_clone.user_id)
                    (λ _. escalate-Ended responder_clone no_zone_of_agreement 1 offer n h)
                    (λ _.
                      reject-Ended responder_clone initiator_clone cost_share_exceeds_limit 1 n h))
                (λ _. play_rounds-RunEnds 2 1 _ n refl first_turn-Fits h))
      ]

  pub RunEnds-ok :
      (r : Result (Negotiation Amount))
      → RunEnds r
      → (n : Negotiation Amount) × (r ≡ ok n) × Settled le lo hi n × (length n.messages ≤ 4)
  RunEnds-ok (ok n) (h, few) = (n, refl, h, few)
  RunEnds-ok (err c) h = absurd h
