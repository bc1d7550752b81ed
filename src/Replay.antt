-- ===== src/Replay.antt =====
-- `check_and_record` of services/local-core/enishi_core/security/replay.py, over the table of
-- models/seen_message.py: a message that is verified is handled once.
mod Tests
use enishi.Prelude.{
  ℕ, ◌+◌, ◌≤◌, ◌≡◌, refl, Bool, true, false, not, ◌&&◌, List, [], ◌∷◌, keep, any, All, arith, ltb,
  leb, ◌==◌, ==-refl, if◌then◌else◌, Bool-cases, inl, inr,
}
use enishi.Errors.{Code, Result, ok, err, Done}

-- A message identifier, and until when it is remembered.
pub record SeenMessage : Type 0 where
  pub message_id : ℕ
  pub expires_at : ℕ

-- What is expired is deleted; the insertion fails on an identifier that is there, and then its
-- savepoint alone is rolled back.
unfoldable pub check_and_record : ℕ → ℕ → ℕ → List SeenMessage → Result Done × List SeenMessage
check_and_record now ttl_seconds message_id seen =
    let kept = keep (λ m. not (ltb m.expires_at now)) seen in
    let row : SeenMessage = record { message_id = message_id; expires_at = now + ttl_seconds } in
    if any (λ m. m.message_id == message_id) kept
    then (err Code.message_replayed, kept)
    else (ok tt, row ∷ kept)

-- A call: its time, its time to live and its message.
pub record Call : Type 0 where
  pub at : ℕ
  pub ttl : ℕ
  pub message : ℕ

unfoldable pub after_calls : List Call → List SeenMessage → List SeenMessage
unfolding check_and_record
after_calls [] seen = seen
after_calls (c ∷ cs) seen = after_calls cs (check_and_record c.at c.ttl c.message seen).1

-- The message is remembered until a time.
abbrev remembered : ℕ → ℕ → List SeenMessage → Bool
remembered i until seen = any (λ m. (m.message_id == i) && leb until m.expires_at) seen

remembered-keep :
    (i until now : ℕ) (seen : List SeenMessage)
    → now ≤ until
    → remembered i until seen ≡ true
    → remembered i until (keep (λ m. not (ltb m.expires_at now)) seen) ≡ true
remembered-keep i until now [] le h = h
remembered-keep i until now (m ∷ seen) le h = ground (arith, remembered-keep i until now seen le, h)

remembered_known :
    (i until : ℕ) (seen : List SeenMessage)
    → remembered i until seen ≡ true
    → any (λ m. m.message_id == i) seen ≡ true
remembered_known i until [] h = h
remembered_known i until (m ∷ seen) h = ground (arith, remembered_known i until seen, h)

still_remembered :
    (i until : ℕ) (c : Call) (seen : List SeenMessage)
    → c.at ≤ until
    → remembered i until seen ≡ true
    → remembered i until (check_and_record c.at c.ttl c.message seen).1 ≡ true
unfolding check_and_record
still_remembered i until c seen le h =
    let kept = remembered-keep i until c.at seen le h in ground (arith, kept)

remembered-after_calls :
    (i until : ℕ) (cs : List Call) (seen : List SeenMessage)
    → All (λ c. c.at ≤ until) cs
    → remembered i until seen ≡ true
    → remembered i until (after_calls cs seen) ≡ true
unfolding after_calls
remembered-after_calls i until [] seen les h = h
remembered-after_calls i until (c ∷ cs) seen (le, les) h =
    remembered-after_calls i until cs _ les (still_remembered i until c seen le h)

accepted-remembered :
    (now ttl i : ℕ) (seen : List SeenMessage)
    → (check_and_record now ttl i seen).0 ≡ ok tt
    → remembered i (now + ttl) (check_and_record now ttl i seen).1 ≡ true
unfolding check_and_record
accepted-remembered now ttl i seen h = ground (arith, h)

-- A message that was accepted at a time is refused as a replay at every time up to the end of its time
-- to live, whatever calls came in between, if none of them was later than that end.
pub accepted_once :
    (first ttl i : ℕ) (seen : List SeenMessage) (between : List Call) (now ttl' : ℕ)
    → (check_and_record first ttl i seen).0 ≡ ok tt
    → All (λ c. c.at ≤ first + ttl) between
    → now ≤ first + ttl
    → (check_and_record now ttl' i (after_calls between (check_and_record first ttl i seen).1)).0
      ≡ err Code.message_replayed
unfolding check_and_record
accepted_once first ttl i seen between now ttl' h les le =
    let recorded = accepted-remembered first ttl i seen h in
    let later = after_calls between (check_and_record first ttl i seen).1 in
    let kept =
      remembered-keep i (first + ttl) now later le
        (remembered-after_calls i (first + ttl) between _ les recorded) in
    let known =
      remembered_known i (first + ttl) (keep (λ m. not (ltb m.expires_at now)) later) kept in
    rw known refl
