-- ===== src/Protocol/Tests.antt =====
-- The state machine of services/protocol_state.py at concrete messages.
use enishi.Prelude.{◌≡◌, refl, ◌↔◌, some}
use enishi.Errors.{ok, err, invalid_state_transition}
use enishi.Protocol.{opened, waiting_approval, counter, accept, propose, validate_incoming}
use enishi.Protocol.Legal.{Accepts, validate_incoming_exact}

validate_incoming_exact_example :
    (validate_incoming opened 3 counter 4 (some counter) 2 ≡ ok tt)
    ↔ Accepts opened 3 counter 4 (some counter) 2
validate_incoming_exact_example = validate_incoming_exact opened 3 counter 4 (some counter) 2

-- The fourth COUNTER, a jump in the sequence, and an ACCEPT while the owner is asked.
refusals :
    (validate_incoming opened 4 counter 5 (some counter) 3 ≡ err invalid_state_transition)
    × (validate_incoming opened 2 counter 4 (some propose) 0 ≡ err invalid_state_transition)
    × (validate_incoming waiting_approval 2 accept 3 (some propose) 0
        ≡ err invalid_state_transition)
unfolding validate_incoming
refusals = (refl, refl, refl)
