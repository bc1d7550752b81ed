-- ===== src/Relay/Posts.antt =====
-- What the handlers of services/relay/relay/main.py let through to the store.
use enishi.Prelude.{ℕ, ◌≤◌, ◌≡◌, ◌↔◌, Bool, true, false, some, any, arith, ◌==◌}
use enishi.Relay.Types.{PutResult, delivered, exceeded}
use enishi.Relay.Answers.{Answer, answered, refused}
use enishi.Relay.Json.{validate_json_shape}
use enishi.Relay.Requests.{
  MailboxBackend, RelayEnvelope, RelaySettings, sender_of, receiver_of, put_answer, store_message,
  post_message,
}

module _ {S C : Type 0} (backend : MailboxBackend S RelayEnvelope C) (current : RelaySettings) where
  abbrev pub passes : {A : Type 0} → Answer A → Bool
  passes (answered a) = true
  passes (refused c) = false

  -- The store's own two answers.
  abbrev pub Accepted : ℕ → ℕ → RelayEnvelope → S → ℕ → Type 0
  Accepted now i e s d =
      ((backend.allow_send now (sender_of e) s).0 ≡ true)
      × ((backend.put now i (receiver_of e) e (some e.json_bytes)
            (backend.allow_send now (sender_of e) s).1).0
          ≡ delivered d)

  put_answer_exact :
      (r : PutResult × S) (d : ℕ)
      → ((put_answer backend current r).0 ≡ answered d) ↔ (r.0 ≡ delivered d)
  put_answer_exact (delivered i, s) d = (λ h. cc, λ h. cc)
  put_answer_exact (exceeded scope, s) d = (λ h. cc, λ h. cc)

  store_message_exact :
      (now i : ℕ) (e : RelayEnvelope) (s : S) (d : ℕ)
      → ((store_message backend current now i e s).0 ≡ answered d) ↔ Accepted now i e s d
  store_message_exact now i e s d = ground (arith, put_answer_exact _ d)

  -- A message is taken, under a delivery id, exactly when its JSON is within the limits, the
  -- authenticated agent is its sender, its receiver is registered, it is not too large, the rate
  -- limit lets the sender send and the mailbox has room; nothing else is asked.
  pub post_message_exact :
      (now i agent_id : ℕ) (e : RelayEnvelope) (s : S) (d : ℕ)
      → ((post_message backend current now i agent_id e s).0 ≡ answered d) ↔ (
          (passes (validate_json_shape current.json_limits e.json) ≡ true)
          × (sender_of e ≡ agent_id)
          × (any (λ a. a == receiver_of e) current.known_agents ≡ true)
          × (e.json_bytes ≤ current.max_message_bytes)
          × Accepted now i e s d)
  unfolding post_message
  post_message_exact now i agent_id e s d = ground (arith, store_message_exact now i e s d)
