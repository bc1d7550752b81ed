-- ===== src/Relay/Answers.antt =====
-- `RelayError` of services/relay/relay/main.py, by its code, its status and what its details tell.
use enishi.Prelude.{◌≡◌, refl, Bool, true, false}
use enishi.Relay.Types.{Scope}

pub data RelayCode : Type 0 where
  unauthorized unknown_receiver message_too_large rate_limited : RelayCode
  mailbox_capacity_exceeded : Scope → RelayCode
  invalid_page_limit invalid_cursor delivery_not_found : RelayCode
  nested_too_deep string_too_long number_not_finite too_many_items : RelayCode
  -- An exception that no handler expects.
  internal_error : RelayCode

pub data Answer {ℓ} (A : Type ℓ) : Type ℓ where
  answered : A → Answer A
  refused : RelayCode → Answer A

infixl 5 ◌then◌
abbrev pub ◌then◌ {ℓ κ} : {A : Type ℓ} {B : Type κ} → Answer A → (A → Answer B) → Answer B
◌then◌ (answered a) next = next a
◌then◌ (refused c) next = refused c

-- `if b: raise RelayError(c)`
abbrev pub refuse_if {ℓ} : {A : Type ℓ} → Bool → RelayCode → Answer A → Answer A
refuse_if true c rest = refused c
refuse_if false c rest = rest

pub refuse_if-passed {ℓ} :
    {A : Type ℓ} (b : Bool) (c : RelayCode) (rest : Answer A) {x : A}
    → refuse_if b c rest ≡ answered x
    → (b ≡ false) × (rest ≡ answered x)
refuse_if-passed true c rest h = cc
refuse_if-passed false c rest h = (refl, h)

pub then-answered {ℓ κ} :
    {A : Type ℓ} {B : Type κ} (step : Answer A) (rest : A → Answer B) {x : B}
    → (step then rest) ≡ answered x
    → (a : A) × (step ≡ answered a) × (rest a ≡ answered x)
then-answered (answered a) rest h = (a, refl, h)
then-answered (refused c) rest h = cc
