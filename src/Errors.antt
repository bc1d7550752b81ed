-- ===== src/Errors.antt =====
-- services/local-core/enishi_core/errors.py: `EnishiError`, the one exception that the services
-- raise. Of its fields the code is kept; the message, the HTTP status and the details are for the
-- client's eyes and decide nothing.
use enishi.Prelude.{◌≡◌, refl, Bool, true, false}

pub data Code : Type 0 where
  invalid_state_transition message_replayed : Code
  approval_required approval_expired : Code
  peer_not_trusted peer_capability_mismatch : Code
  unknown_intent intent_not_supported invalid_payload : Code
  agent_identity_mismatch clone_review_required session_binding_mismatch : Code
  invalid_approval_selection : Code
  message_schema_invalid message_signature_invalid message_expired : Code
  message_processing_failed relay_unavailable : Code
  user_not_found clone_not_found project_not_found task_not_found task_permission_denied : Code
  negotiation_not_found agreement_not_found provider_not_installed : Code
  negotiation_permission_denied device_identity_conflict : Code
  peer_not_found disclosure_policy_invalid : Code
  -- Any exception that is no `EnishiError`, such as a failed assertion.
  unhandled : Code

pub data Result {ℓ} (A : Type ℓ) : Type ℓ where
  ok : A → Result A
  err : Code → Result A

abbrev pub Done : Type 0
Done = Unit {0}

infixl 5 ◌>>=◌ ◌>>◌
abbrev pub ◌>>=◌ {ℓ κ} : {A : Type ℓ} {B : Type κ} → Result A → (A → Result B) → Result B
◌>>=◌ (ok a) next = next a
◌>>=◌ (err c) next = err c

abbrev pub ◌>>◌ {ℓ} : {B : Type ℓ} → Result Done → Result B → Result B
first >> next = first >>= λ _. next

-- `if b: raise EnishiError(c)`
abbrev pub raise_if : Bool → Code → Result Done
raise_if true c = err c
raise_if false c = ok tt

-- A chain that has passed a guard.
pub raise_if-passed {ℓ} :
    {B : Type ℓ} (b : Bool) (c : Code) (rest : Result B) {x : B}
    → (raise_if b c >> rest) ≡ ok x
    → (b ≡ false) × (rest ≡ ok x)
raise_if-passed true c rest h = cc
raise_if-passed false c rest h = (refl, h)

-- A chain of steps that returned, taken apart at its first step.
pub >>=-returned {ℓ κ} :
    {A : Type ℓ} {B : Type κ} (step : Result A) (rest : A → Result B) {x : B}
    → (step >>= rest) ≡ ok x
    → (a : A) × (step ≡ ok a) × (rest a ≡ ok x)
>>=-returned (ok a) rest h = (a, refl, h)
>>=-returned (err c) rest h = cc
