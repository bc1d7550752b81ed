-- ===== src/Replay/Tests.antt =====
-- Replays refused by services/local-core/enishi_core/security/replay.py.
use enishi.Prelude.{◌≡◌, refl, List, [], ◌∷◌, arith}
use enishi.Errors.{Code, err}
use enishi.Replay.{check_and_record, Call, after_calls, accepted_once}

-- Another message comes, and a second copy is refused, before the third copy.
abbrev traffic : List Call
traffic = record { at = 20; ttl = 5; message = 8 } ∷ record { at = 30; ttl = 60; message = 7 } ∷ []

accepted_once_example :
    (check_and_record 70 60 7 (after_calls traffic (check_and_record 10 60 7 []).1)).0
    ≡ err Code.message_replayed
unfolding check_and_record
accepted_once_example =
    accepted_once 10 60 7 [] traffic 70 60 refl (omega arith, (omega arith, tt)) (omega arith)
