-- ===== src/Protocol.antt =====
-- services/local-core/enishi_core/services/protocol_state.py, with the enumerations of
-- models/negotiation.py that it reads: which message a session accepts next.
pub mod Legal
mod Tests
use enishi.Prelude.{
  ℕ, ◌+◌, Bool, true, false, not, ◌&&◌, ◌||◌, Option, none, some, List, [], ◌∷◌, leb, any, ◌==◌,
}
use enishi.Errors.{Code, Result, invalid_state_transition, ok, raise_if, ◌>>=◌, ◌>>◌, Done}

-- `opened` is the source's `open`.
pub data NegotiationStatus : Type 0 where
  opened waiting_approval agreed failed : NegotiationStatus

pub data MessageType : Type 0 where
  request propose counter accept reject : MessageType
  request_approval approval_result execute receipt error : MessageType

-- Members of the enumerations are compared by their texts, which differ; here by their places.
abbrev pub status_place : NegotiationStatus → ℕ
status_place opened = 0
status_place waiting_approval = 1
status_place agreed = 2
status_place failed = 3

abbrev pub type_place : MessageType → ℕ
type_place request = 0
type_place propose = 1
type_place counter = 2
type_place accept = 3
type_place reject = 4
type_place request_approval = 5
type_place approval_result = 6
type_place execute = 7
type_place receipt = 8
type_place error = 9

infix 50 ◌is_status◌ ◌is_type◌
abbrev pub ◌is_status◌ : NegotiationStatus → NegotiationStatus → Bool
s is_status t = status_place s == status_place t

abbrev pub ◌is_type◌ : MessageType → MessageType → Bool
s is_type t = type_place s == type_place t

abbrev pub max_counter_rounds : ℕ
max_counter_rounds = 3

-- `_ALLOWED_AFTER.get(last_message_type, set())`, where `none` is the empty text of a session that
-- has no message yet.
abbrev pub allowed_after : Option MessageType → List MessageType
allowed_after none = request ∷ []
allowed_after (some request) = propose ∷ reject ∷ error ∷ []
allowed_after (some propose) = accept ∷ counter ∷ reject ∷ error ∷ []
allowed_after (some counter) = accept ∷ counter ∷ reject ∷ error ∷ []
allowed_after (some request_approval) = reject ∷ error ∷ []
allowed_after (some _) = []

abbrev pub is_terminal : NegotiationStatus → Bool
is_terminal s = s is_status agreed || s is_status failed

unfoldable pub validate_incoming :
    NegotiationStatus → ℕ → MessageType → ℕ → Option MessageType → ℕ → Result Done
validate_incoming current_status last_sequence message_type sequence last_message_type rounds = do
  raise_if (is_terminal current_status) invalid_state_transition
  raise_if
      (current_status is_status waiting_approval
        && not (message_type is_type reject || message_type is_type error))
      invalid_state_transition
  raise_if (not (sequence == last_sequence + 1)) invalid_state_transition
  raise_if (not (any (λ allowed. message_type is_type allowed) (allowed_after last_message_type)))
      invalid_state_transition
  raise_if (message_type is_type counter && leb max_counter_rounds rounds) invalid_state_transition
