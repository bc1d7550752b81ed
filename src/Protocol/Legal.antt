-- ===== src/Protocol/Legal.antt =====
-- What `validate_incoming` of services/protocol_state.py accepts, against a description that tests
-- nothing.
use enishi.Prelude.{
  ℕ, ◌+◌, ◌<◌, ◌≡◌, ◌≢◌, refl, Bool, true, false, not, ◌&&◌, ◌||◌, ◌↔◌, ◌⊎◌, inl, inr, Option, none,
  some, any, arith, leb, ◌==◌,
}
use enishi.Errors.{Result, Done, ok, invalid_state_transition, raise_if-passed}
use enishi.Protocol.{
  NegotiationStatus, opened, waiting_approval, MessageType, request, propose, counter, accept,
  reject, error, agreed, failed, request_approval, max_counter_rounds, allowed_after, ◌is_type◌,
  ◌is_status◌, is_terminal, validate_incoming,
}

-- A message after which the exchange still stands.
pub data Stands (t : MessageType) : Type 0 where
  asked : t ≡ request → Stands t
  offered : (t ≡ propose) ⊎ (t ≡ counter) → Stands t
  held : t ≡ request_approval → Stands t

-- REQUEST comes first and PROPOSE after it; an offer is answered by ACCEPT or COUNTER; REJECT and
-- ERROR break off whatever stands.
pub data Arrow (last : Option MessageType) (t : MessageType) : Type 0 where
  begins : last ≡ none → t ≡ request → Arrow last t
  proposes : last ≡ some request → t ≡ propose → Arrow last t
  answers :
      (last ≡ some propose) ⊎ (last ≡ some counter) → (t ≡ accept) ⊎ (t ≡ counter) → Arrow last t
  breaks : (x : MessageType) → last ≡ some x → Stands x → (t ≡ reject) ⊎ (t ≡ error) → Arrow last t

pub record Accepts (status : NegotiationStatus) (last_sequence : ℕ) (t : MessageType) (sequence : ℕ)
    (last : Option MessageType) (rounds : ℕ) : Type 0 where
  pub not_over : (status ≢ agreed) × (status ≢ failed)
  pub waits : status ≡ waiting_approval → (t ≡ reject) ⊎ (t ≡ error)
  pub next : sequence ≡ last_sequence + 1
  pub arrow : Arrow last t
  pub in_rounds : t ≡ counter → rounds < max_counter_rounds

abbrev Allows : Option MessageType → MessageType → Type 0
Allows last t = any (λ allowed. t is_type allowed) (allowed_after last) ≡ true

Allows-Arrow : (last : Option MessageType) (t : MessageType) → Allows last t → Arrow last t
Allows-Arrow none request h = begins refl refl
Allows-Arrow (some request) propose h = proposes refl refl
Allows-Arrow (some request) reject h = breaks request refl (asked refl) (inl refl)
Allows-Arrow (some request) error h = breaks request refl (asked refl) (inr refl)
Allows-Arrow (some propose) accept h = answers (inl refl) (inl refl)
Allows-Arrow (some propose) counter h = answers (inl refl) (inr refl)
Allows-Arrow (some propose) reject h = breaks propose refl (offered (inl refl)) (inl refl)
Allows-Arrow (some propose) error h = breaks propose refl (offered (inl refl)) (inr refl)
Allows-Arrow (some counter) accept h = answers (inr refl) (inl refl)
Allows-Arrow (some counter) counter h = answers (inr refl) (inr refl)
Allows-Arrow (some counter) reject h = breaks counter refl (offered (inr refl)) (inl refl)
Allows-Arrow (some counter) error h = breaks counter refl (offered (inr refl)) (inr refl)
Allows-Arrow (some request_approval) reject h = breaks request_approval refl (held refl) (inl refl)
Allows-Arrow (some request_approval) error h = breaks request_approval refl (held refl) (inr refl)
Allows-Arrow _ _ h = cc

Arrow-Allows : (last : Option MessageType) (t : MessageType) → Arrow last t → Allows last t
Arrow-Allows last t (begins p q) = ground arith
Arrow-Allows last t (proposes p q) = ground arith
Arrow-Allows last t (answers p q) = ground arith
Arrow-Allows last t (breaks x p (asked s) q) = ground arith
Arrow-Allows last t (breaks x p (offered s) q) = ground arith
Arrow-Allows last t (breaks x p (held s) q) = ground arith

not_over-is_terminal : (s : NegotiationStatus) → s ≢ agreed → s ≢ failed → is_terminal s ≡ false
not_over-is_terminal opened a f = refl
not_over-is_terminal waiting_approval a f = refl
not_over-is_terminal agreed a f = absurd (a refl)
not_over-is_terminal failed a f = absurd (f refl)

only_breaks :
    (s : NegotiationStatus) (t : MessageType)
    → (s ≡ waiting_approval → (t ≡ reject) ⊎ (t ≡ error))
    → (s is_status waiting_approval && not (t is_type reject || t is_type error)) ≡ false
only_breaks waiting_approval t h = ground (arith, h refl)
only_breaks _ t h = refl

only_in_rounds :
    (t : MessageType) (rounds : ℕ)
    → (t ≡ counter → rounds < max_counter_rounds)
    → (t is_type counter && leb max_counter_rounds rounds) ≡ false
only_in_rounds counter rounds h = ground (arith, h refl)
only_in_rounds _ rounds h = refl

module _ (status : NegotiationStatus) (last_sequence : ℕ) (t : MessageType) (sequence : ℕ)
    (last : Option MessageType) (rounds : ℕ) where
  abbrev verdict : Result Done
  verdict = validate_incoming status last_sequence t sequence last rounds

  abbrev guards : Bool × Bool × Bool × Bool × Bool
  guards = (
    is_terminal status,
    status is_status waiting_approval && not (t is_type reject || t is_type error),
    not (sequence == last_sequence + 1),
    not (any (λ allowed. t is_type allowed) (allowed_after last)),
    t is_type counter && leb max_counter_rounds rounds,
  )

  abbrev AllPass : Type 0
  AllPass =
      (guards.0 ≡ false)
      × (guards.1 ≡ false)
      × (guards.2 ≡ false)
      × (guards.3 ≡ false)
      × (guards.4 ≡ false)

  ok-AllPass : verdict ≡ ok tt → AllPass
  unfolding validate_incoming
  ok-AllPass h0 =
      let c = invalid_state_transition in
      let (g0, h1) = raise_if-passed guards.0 c _ h0 in
      let (g1, h2) = raise_if-passed guards.1 c _ h1 in
      let (g2, h3) = raise_if-passed guards.2 c _ h2 in
      let (g3, h4) = raise_if-passed guards.3 c _ h3 in (g0, g1, g2, g3, ground arith)

  AllPass-ok : AllPass → verdict ≡ ok tt
  unfolding validate_incoming
  AllPass-ok (g0, g1, g2, g3, g4) = rw (g0, g1, g2, g3, g4)

  AllPass-Accepts : AllPass → Accepts status last_sequence t sequence last rounds
  AllPass-Accepts (g0, g1, g2, g3, g4) = record {
    not_over = (λ e. ground arith, λ e. ground arith);
    waits = λ e. ground arith;
    next = ground arith;
    arrow = Allows-Arrow last t (ground arith);
    in_rounds = λ e. ground arith;
  }

  Accepts-AllPass : Accepts status last_sequence t sequence last rounds → AllPass
  Accepts-AllPass h = (
    not_over-is_terminal status h.not_over.0 h.not_over.1,
    only_breaks status t h.waits,
    ground arith,
    rw (Arrow-Allows last t h.arrow),
    only_in_rounds t rounds h.in_rounds,
  )

  -- A message is let through exactly when: the session is not over; while it waits for its owner's
  -- approval the message is REJECT or ERROR; its sequence follows the last one; its type may follow
  -- the last type by the arrows of the protocol; and a COUNTER comes within the round limit.
  pub validate_incoming_exact :
      (validate_incoming status last_sequence t sequence last rounds ≡ ok tt)
      ↔ Accepts status last_sequence t sequence last rounds
  validate_incoming_exact =
      (λ h. AllPass-Accepts (ok-AllPass h), λ h. AllPass-ok (Accepts-AllPass h))
