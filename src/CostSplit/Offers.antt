-- ===== src/CostSplit/Offers.antt =====
-- What the hooks of domains/cost_split.py answer to another node: within the owner's limits, by the
-- owner where the guards ask for it, and with the amount that a person chose.
use enishi.Prelude.{ℕ, ◌≡◌, refl, ◌∙◌, true, false, Option, some, List, [], ◌∷◌, leb, if-intro}
use enishi.Errors.{Code, unhandled, Result, ok, ◌>>=◌}
use enishi.Exec.{found}
use enishi.Remote.Types
use enishi.Remote.Domain.{Reply, Circumstances}
use enishi.CostSplit.Amounts.{Amounts, round2-le, le-round2}
use enishi.CostSplit.Types.{
  Role, initiator, responder, ActionKind, accept, counter, escalate, reject, ReasonCode, OfferState,
  StrategyAction, CloneAgent,
}
use enishi.CostSplit.Strategy.{or_else, next_action}
use enishi.CostSplit.Limits.{Commits, next_action-Commits, round2-reservation, round2-floor}
use enishi.CostSplit.Shapes.{HasForm, Shaped, KeepsBound, none-Commits, next_action-Shaped}
use enishi.CostSplit.Driver.{max_rounds}
use enishi.CostSplit.Hooks.{
  Dict, guarded, asks_owner, cap_reply, reply_for, role_of, guards_of, last_share, chosen_reply,
  decide_remote_reply,
}

found-some :
    {A B : Type 0} (code : Code) {x : Option A} {a : A}
    → x ≡ some a
    → (rest : A → Result B) → (found code x >>= rest) ≡ rest a
found-some code e rest = rw e refl

module _ (num : Amounts) where
  open num use {Amount, le, round2, decimal}

  round2-Commits :
      (clone : CloneAgent Amount) (role : Role) (total share a : Amount)
      → round2 share ≡ share
      → Commits num clone role total share (some a)
      → Commits num clone role total share (some (round2 a))
  round2-Commits clone responder total share a r h =
      round2-le num _ _ (round2-reservation num clone total) h
  round2-Commits clone initiator total share a r h =
      le-round2 num _ _ (round2-floor num clone total share r) h

  module _ (clone : CloneAgent Amount) (role : Role) (total share : Amount) (round : ℕ) where
    -- What an answer names, and who decides it.
    abbrev pub Keeps : Types.Outcome → Amount → Reply (Dict Amount) → Type 0
    Keeps Types.auto_accept standing r =
        (x : Amount) × (x ≡ round2 (round2 standing))
        × (r.reply_delta.agreed_share ≡ some x)
        × (r.agreement_value.agreed_share ≡ some x)
        × Commits num clone role total share (some x)
    Keeps Types.counter standing r =
        (x : Amount) × (r.reply_delta.proposed_share ≡ some x)
        × Commits num clone role total share (some x)
        × (leb max_rounds round ≡ false)
    Keeps Types.approval_required standing r = r.approval_raw.agreed_share ≡ some (round2 standing)
    Keeps Types.reject standing r = (code : ℕ) × (r.reply_delta.code ≡ some code)

    abbrev Capped : Amount → StrategyAction Amount → Type 0
    Capped standing a =
        Shaped standing a
        × KeepsBound num clone role total share a
        × (a.kind ≡ counter → leb max_rounds round ≡ false)

    cap_reply-Capped :
        (k : ActionKind) (standing : Amount) (a : StrategyAction Amount)
        → a.kind ≡ k
        → Shaped (round2 standing) a
        → KeepsBound num clone role total share a
        → Capped (round2 standing) (cap_reply k round a)
    unfolding cap_reply
    cap_reply-Capped counter standing a e s b =
        if-intro (Capped (round2 standing)) (leb max_rounds round)
          (λ _. ((_, refl), none-Commits num clone role total share, λ k. cc))
          (λ off. (s, b, λ _. off))
    cap_reply-Capped accept standing a e s b = (s, b, λ k. cc)
    cap_reply-Capped escalate standing a e s b = (s, b, λ k. cc)
    cap_reply-Capped reject standing a e s b = (s, b, λ k. cc)

    reply_for-Keeps :
        (k : ActionKind) (position : Dict Amount) (standing : Amount) (a : StrategyAction Amount)
        → round2 share ≡ share
        → HasForm (round2 standing) k a.amount a.reason_codes
        → KeepsBound num clone role total share a
        → (k ≡ counter → leb max_rounds round ≡ false)
        → (r : Reply (Dict Amount)) × (reply_for num clone position standing round k a ≡ ok r)
          × Keeps r.outcome standing r
    unfolding reply_for
    reply_for-Keeps accept position standing a h s b early =
        let bound = round2-Commits clone role total share (round2 standing) h (rw s at b) in
        (_, refl, (round2 (or_else a.amount standing), rw s refl, refl, refl, rw s bound))
    reply_for-Keeps counter position standing a h (x, e) b early = rw e (
      _,
      refl,
      (round2 x, refl, round2-Commits clone role total share x h (rw e at b), early refl),
    )
    reply_for-Keeps escalate position standing a h s b early = (_, refl, refl)
    reply_for-Keeps reject position standing a h s b early = (_, refl, (_, refl))

    guarded-Keeps :
        (codes : List ReasonCode) (position : Dict Amount) (standing : Amount)
        (go_on : Result (Reply (Dict Amount)))
        → ((r : Reply (Dict Amount)) × (go_on ≡ ok r) × Keeps r.outcome standing r)
        → (r : Reply (Dict Amount)) × (guarded num codes go_on
              (asks_owner num clone position standing round codes)
            ≡ ok r)
          × Keeps r.outcome standing r
    guarded-Keeps [] position standing go_on h = h
    guarded-Keeps (c ∷ codes) position standing go_on h = (_, refl, refl)

  -- For a position whose total is not negative and whose proposed share is rounded, and an own last
  -- offer within the owner's limits: `decide_remote_reply` answers any offer of the other node, and
  -- the answer accepts the standing offer, rounded, within the owner's limits (for the responder at
  -- most the reservation, for the initiator at least the floor), or counters within them and before
  -- the last round, or asks the owner about the standing offer, or refuses with a code.
  pub decide_remote_reply-Keeps :
      (clone : CloneAgent Amount) (position received : Dict Amount)
      (c : Circumstances (Dict Amount)) (total share : Amount)
      → position.total_amount ≡ some total
      → position.proposed_share ≡ some share
      → le (decimal 0 0) total ≡ true
      → round2 share ≡ share
      → Commits num clone (role_of c.is_initiator) total share (last_share num c.own_last_delta)
      → (r : Reply (Dict Amount)) × (decide_remote_reply num clone position received c ≡ ok r)
        × Keeps clone
            (role_of c.is_initiator)
            total
            share
            c.round_number
            r.outcome
            (or_else received.proposed_share share)
            r
  unfolding decide_remote_reply chosen_reply
  decide_remote_reply-Keeps clone position received c total share t p pos h k =
      let role = role_of c.is_initiator in
      let standing = or_else received.proposed_share share in
      let state : OfferState Amount = record {
        round_number = c.round_number;
        standing_offer = round2 standing;
        my_last_offer = last_share num c.own_last_delta;
      } in
      let high = c.high_value_approval_required in
      let action = next_action num clone role total share state high in
      let (s, b, early) =
        cap_reply-Capped clone role total share c.round_number action.kind standing action refl
          (next_action-Shaped num clone role total share state high)
          (next_action-Commits num clone role total share state high pos h k) in
      let chosen = chosen_reply num clone total share standing c in
      let go_on = reply_for num clone position standing c.round_number chosen.kind chosen in
      let (r, e, kept) =
        guarded-Keeps clone role total share c.round_number (guards_of num clone c) position
          standing go_on
          (reply_for-Keeps clone role total share c.round_number chosen.kind position standing
            chosen h s b early) in
      (r, found-some unhandled t _ ∙ (found-some unhandled p _ ∙ e), kept)
