-- ===== src/CostSplit/Consent.antt =====
-- What two nodes record when one accepts a cost split: the hooks of domains/cost_split.py on the
-- accepting side, by the strategy or by a person, and on the side that is told.
use Prim.Native.String.{String}
use text.Mathlib.Text
use enishi.Prelude.{
  Bool-cases, inl, inr, ℕ, ◌≡◌, refl, sym, ap, subst, ◌∙◌, true, Option, none, some, List, [], ◌∷◌,
}
use enishi.Errors.{Code, invalid_approval_selection, unhandled, Result, ok, err, >>=-returned}
use enishi.Exec.{found}
use enishi.Protocol.{MessageType}
use enishi.Tasks.Types.{ApprovalStatus}
use enishi.Remote.Types
use enishi.Remote.Domain.{Reply, Circumstances, ApprovalReply}
use enishi.CostSplit.Amounts.{Amounts}
use enishi.CostSplit.Types.{
  ActionKind, accept, counter, escalate, reject, ReasonCode, StrategyAction, CloneAgent,
}
use enishi.CostSplit.Strategy.{or_else}
use enishi.CostSplit.Hooks.{
  Dict, currency_or, empty_dict, described, with_share, guarded, asks_owner, reply_for, guards_of,
  chosen_reply, selected_share, derive_own_position, decide_remote_reply,
  agreement_value_from_accept_delta, approval_context, approval_reply,
}

ok-same : {A : Type 0} {x y : A} → Result.ok x ≡ ok y → x ≡ y
ok-same h = cc

found-ok : {A : Type 0} (c : Code) (o : Option A) {a : A} → found c o ≡ ok a → o ≡ some a
found-ok c none h = cc
found-ok c (some a) h = ap some (ok-same h)

currency_or_idem : (o : Option String) → currency_or (some (currency_or o)) ≡ currency_or o
currency_or_idem none = refl
currency_or_idem (some c) = elim (Bool-cases (Text.◌==◌ c "")) [
  | inl e ↦ rw e refl
  | inr e ↦ rw (e, e) refl
]

described_idem : {A : Type 0} (d : Dict A) → described (described d) ≡ described d
described_idem {A} d =
    ap
      (λ c. record (empty_dict {A = A}) {
        title = some (or_else d.title "");
        total_amount = d.total_amount;
        currency = some c;
        deadline = d.deadline;
      })
      (currency_or_idem d.currency)

module _ (num : Amounts) where
  open num use {Amount, round2}

  -- The own position repeats what the request says publicly.
  derive_own_position-described :
      (clone : CloneAgent Amount) (wire : Dict Amount) (peer : ℕ) {position : Dict Amount}
      → derive_own_position num clone wire peer ≡ ok position
      → described position ≡ described wire
  unfolding derive_own_position
  derive_own_position-described clone wire peer e =
      let (title, t, e1) = >>=-returned (found unhandled wire.title) _ e in
      let (total, m, e2) = >>=-returned (found unhandled wire.total_amount) _ e1 in
      let (share, s, e3) = >>=-returned (found unhandled wire.proposed_share) _ e2 in
      let known : String → Option String → Option Amount → Dict Amount = λ c o a.
        record empty_dict {
          title = some (or_else o "");
          total_amount = a;
          currency = some c;
          deadline = wire.deadline;
        } in
      let currency = currency_or wire.currency in
      sym (ap described (ok-same e3))
      ∙ (ap (λ c. known c (some title) (some total)) (currency_or_idem wire.currency)
          ∙ (ap (λ o. known currency o (some total)) (sym (found-ok unhandled wire.title t))
              ∙ ap (known currency wire.title) (sym (found-ok unhandled wire.total_amount m))))

  module _ (clone : CloneAgent Amount) (position : Dict Amount) (standing : Amount)
      (round : ℕ) where
    -- The amount that an acceptance names, and what the owner is asked about.
    abbrev Names : Types.Outcome → Reply (Dict Amount) → Type 0
    Names Types.auto_accept r =
        (x : Amount) × (r.reply_delta.agreed_share ≡ some x)
        × (r.agreement_value ≡ with_share (some x) (described position))
    Names Types.approval_required r =
        (r.approval_raw.agreed_share ≡ some (round2 standing))
        × (described r.approval_raw ≡ described (described position))
    Names _ r = Unit

    reply_for-Names :
        (k : ActionKind) (a : StrategyAction Amount) {r : Reply (Dict Amount)}
        → reply_for num clone position standing round k a ≡ ok r
        → Names r.outcome r
    unfolding reply_for
    reply_for-Names accept a e =
        subst (λ (r : Reply (Dict Amount)). Names r.outcome r) (ok-same e) (_, refl, refl)
    reply_for-Names counter a e =
        let (x, _, e1) = >>=-returned (found unhandled a.amount) _ e in
        subst (λ (r : Reply (Dict Amount)). Names r.outcome r) (ok-same e1) tt
    reply_for-Names escalate a e =
        subst (λ (r : Reply (Dict Amount)). Names r.outcome r) (ok-same e) (refl, refl)
    reply_for-Names reject a e =
        subst (λ (r : Reply (Dict Amount)). Names r.outcome r) (ok-same e) tt

    guarded-Names :
        (codes : List ReasonCode) (k : ActionKind) (a : StrategyAction Amount)
        {r : Reply (Dict Amount)}
        → guarded num codes
            (reply_for num clone position standing round k a)
            (asks_owner num clone position standing round codes)
          ≡ ok r
        → Names r.outcome r
    guarded-Names [] k a e = reply_for-Names k a e
    guarded-Names (c ∷ codes) k a e =
        subst (λ (r : Reply (Dict Amount)). Names r.outcome r) (ok-same e) (refl, refl)

  decide_remote_reply-Names :
      (clone : CloneAgent Amount) (position received : Dict Amount)
      (c : Circumstances (Dict Amount)) {r : Reply (Dict Amount)}
      → decide_remote_reply num clone position received c ≡ ok r
      → (share : Amount) × (position.proposed_share ≡ some share)
        × Names clone position (or_else received.proposed_share share) c.round_number r.outcome r
  unfolding decide_remote_reply
  decide_remote_reply-Names clone position received c e =
      let (total, _, e1) = >>=-returned (found unhandled position.total_amount) _ e in
      let (share, s, e2) = >>=-returned (found unhandled position.proposed_share) _ e1 in
      let standing = or_else received.proposed_share share in
      let a = chosen_reply num clone total share standing c in
      (
        share,
        found-ok unhandled position.proposed_share s,
        guarded-Names clone position standing c.round_number (guards_of num clone c) a.kind a e2,
      )

  -- When the clone of one node accepts on its own, whatever was offered: what that node records as
  -- agreed is what the other node makes of the ACCEPT and of the request both have.
  pub accepted-same :
      (clone : CloneAgent Amount) (wire position received : Dict Amount) (peer : ℕ)
      (c : Circumstances (Dict Amount)) (r : Reply (Dict Amount))
      → derive_own_position num clone wire peer ≡ ok position
      → decide_remote_reply num clone position received c ≡ ok r
      → r.outcome ≡ Types.auto_accept
      → agreement_value_from_accept_delta num r.reply_delta wire ≡ ok r.agreement_value
  unfolding agreement_value_from_accept_delta
  accepted-same clone wire position received peer c r derived decided accepts =
      let (share, _, named) = decide_remote_reply-Names clone position received c decided in
      let standing = or_else received.proposed_share share in
      let (x, delta, value) =
        subst (λ o. Names clone position standing c.round_number o r) accepts named in
      let same = derive_own_position-described clone wire peer derived in
      ap (λ s. ok (with_share s (described wire))) delta
      ∙ (ap (λ d. ok (with_share (some x) d)) (sym same) ∙ ap ok (sym value))

  -- The amount that the person's answer is about: the one asked about, or the one they name.
  abbrev pub consented : Amount → Option (Dict Amount) → Option Amount
  consented asked none = some asked
  consented asked (some override) = override.agreed_share

  selected_share-consented :
      (proposal : Dict Amount) (asked : Amount) (override : Option (Dict Amount))
      → proposal.agreed_share ≡ some asked
      → selected_share num proposal override ≡ consented asked override
  selected_share-consented proposal asked none e = e
  selected_share-consented proposal asked (some d) e = refl

  -- Without an amount the approval is refused; with one it is an ACCEPT of just that amount, rounded,
  -- of which the other node makes what this node records.
  abbrev pub Consents : Dict Amount → Option Amount → Result (ApprovalReply (Dict Amount)) → Type 0
  Consents wire none result = result ≡ err invalid_approval_selection
  Consents wire (some x) result =
      (a : ApprovalReply (Dict Amount)) × (result ≡ ok a)
      × (a.message_type ≡ MessageType.accept)
      × (a.delta.agreed_share ≡ some (round2 x))
      × (agreement_value_from_accept_delta num a.delta wire ≡ ok a.agreement_value)

  approval_reply-Consents :
      (wire proposal public_context : Dict Amount) (target : ApprovalStatus)
      (override : Option (Dict Amount)) (o : Option Amount)
      → selected_share num proposal override ≡ o
      → described proposal ≡ described wire
      → Consents wire o (approval_reply num true target proposal public_context override)
  unfolding approval_reply agreement_value_from_accept_delta
  approval_reply-Consents wire proposal public_context target override none e same = rw e refl
  approval_reply-Consents wire proposal public_context target override (some x) e same =
      rw e (_, refl, refl, refl, ap (λ d. ok (with_share (some (round2 x)) d)) (sym same))

  -- When the clone asks its owner instead: the question is about the standing offer, rounded, an
  -- approval with an override that names no amount is refused whatever was proposed, and any other
  -- approval sends an ACCEPT of the amount the person chose, rounded, of which the other node makes
  -- what this node records as agreed.
  pub approved-Consents :
      (clone : CloneAgent Amount) (wire position received : Dict Amount) (peer : ℕ)
      (c : Circumstances (Dict Amount)) (r : Reply (Dict Amount)) (target : ApprovalStatus)
      (proposal public_context : Dict Amount) (override : Option (Dict Amount)) (share : Amount)
      → derive_own_position num clone wire peer ≡ ok position
      → position.proposed_share ≡ some share
      → decide_remote_reply num clone position received c ≡ ok r
      → r.outcome ≡ Types.approval_required
      → approval_context num r.approval_raw ≡ ok (proposal, public_context)
      → Consents wire
          (consented (round2 (or_else received.proposed_share share)) override)
          (approval_reply num true target proposal public_context override)
  unfolding approval_context
  approved-Consents clone wire position received peer c r target proposal public_context override
        share derived p decided asks context =
      let (own, p1, named) = decide_remote_reply-Names clone position received c decided in
      let standing = or_else received.proposed_share own in
      let (asked, raw) = subst (λ o. Names clone position standing c.round_number o r) asks named in
      let proposed = ap (λ (x : Dict Amount × Dict Amount). x.0) (ok-same context) in
      let same : described proposal ≡ described wire =
        ap described (sym proposed)
        ∙ (described_idem r.approval_raw
            ∙ (raw
                ∙ (described_idem position
                    ∙ derive_own_position-described clone wire peer derived))) in
      let amount : proposal.agreed_share ≡ some (round2 standing) =
        ap (λ (d : Dict Amount). d.agreed_share) (sym proposed) ∙ asked in
      let own_share : own ≡ share = cc in
      let asked_share =
        subst
          (λ (x : Amount).
            proposal.agreed_share ≡ some (round2 (or_else received.proposed_share x)))
          own_share amount in
      approval_reply-Consents wire proposal public_context target override _
        (selected_share-consented proposal _ override asked_share) same
