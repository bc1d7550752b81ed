-- ===== src/Relay/Requests.antt =====
-- The handlers of services/relay/relay/main.py over a mailbox store: `post_message`, `get_messages`
-- and `ack_message`. Of the settings a call reads the values at its time. The metrics and the log
-- are left out: they are written and never read by a handler.
use enishi.Prelude.{
  ℕ, zero, suc, Bool, true, not, Option, none, some, List, any, ltb, ◌==◌, if◌then◌else◌,
}
use enishi.Relay.Types.{
  StoredMessage, PutResult, delivered, exceeded, FetchResult, page, index_error,
}
use enishi.Relay.Answers.{
  RelayCode, unauthorized, unknown_receiver, message_too_large, rate_limited,
  mailbox_capacity_exceeded, invalid_page_limit, delivery_not_found, internal_error, Answer,
  answered, refused,
}
use enishi.Relay.Json.{Json, JsonLimits, validate_json_shape}

-- What the handlers ask of a store: `MailboxBackend`. Each call has its time, and a `put` the
-- identifier that `uuid4` gives.
pub record MailboxBackend (S E C : Type 0) : Type 0 where
  pub allow_send : ℕ → ℕ → S → Bool × S
  pub put : ℕ → ℕ → ℕ → E → Option ℕ → S → PutResult × S
  pub fetch : ℕ → ℕ → ℕ → Option C → S → FetchResult E C × S
  pub ack : ℕ → ℕ → ℕ → S → Bool × S

-- Of a validated envelope: who sends and who receives, its JSON, and the length of the JSON text
-- that `json.dumps` writes with its default separators.
pub record RelayEnvelope : Type 0 where
  pub sender_agent_id : ℕ
  pub receiver_agent_id : ℕ
  pub sender_node_id : Option ℕ
  pub receiver_node_id : Option ℕ
  pub json : Json
  pub json_bytes : ℕ
  pub compact_bytes : ℕ

pub record RelaySettings : Type 0 where
  pub known_agents : List ℕ
  pub max_message_bytes : ℕ
  pub fetch_default_limit : ℕ
  pub fetch_max_limit : ℕ
  pub json_limits : JsonLimits

-- `envelope.get(node, envelope.get(agent))`
abbrev pub node_or : Option ℕ → ℕ → ℕ
node_or none agent = agent
node_or (some node) agent = node

abbrev pub sender_of : RelayEnvelope → ℕ
sender_of e = node_or e.sender_node_id e.sender_agent_id

abbrev pub receiver_of : RelayEnvelope → ℕ
receiver_of e = node_or e.receiver_node_id e.receiver_agent_id

-- `limit or current.fetch_default_limit`
abbrev pub page_limit : Option ℕ → ℕ → ℕ
page_limit none default = default
page_limit (some zero) default = default
page_limit (some (suc n)) default = suc n

module _ {S C : Type 0} (backend : MailboxBackend S RelayEnvelope C) (current : RelaySettings) where
  abbrev pub put_answer : PutResult × S → Answer ℕ × S
  put_answer (delivered i, s) = (answered i, s)
  put_answer (exceeded scope, s) = (refused (mailbox_capacity_exceeded scope), s)

  -- The part of `post_message` that calls the store.
  abbrev pub store_message : ℕ → ℕ → RelayEnvelope → S → Answer ℕ × S
  store_message now i e s =
      let (allowed, s') = backend.allow_send now (sender_of e) s in
      if allowed
      then put_answer (backend.put now i (receiver_of e) e (some e.json_bytes) s')
      else (refused rate_limited, s')

  unfoldable pub post_message : ℕ → ℕ → ℕ → RelayEnvelope → S → Answer ℕ × S
  unfolding validate_json_shape
  post_message now i agent_id e s = elim (validate_json_shape current.json_limits e.json) [
    | refused c ↦ (refused c, s)
    | answered _ ↦
        if not (sender_of e == agent_id)
        then (refused unauthorized, s)
        else if not (any (λ a. a == receiver_of e) current.known_agents)
        then (refused unknown_receiver, s)
        else if ltb current.max_message_bytes e.json_bytes
        then (refused message_too_large, s)
        else store_message now i e s
  ]

  abbrev Page : Type 0
  Page = List (StoredMessage RelayEnvelope) × Option C

  abbrev page_answer : FetchResult RelayEnvelope C × S → Answer Page × S
  page_answer (page items next, s) = (answered (items, next), s)
  page_answer (FetchResult.invalid_cursor, s) = (refused RelayCode.invalid_cursor, s)
  page_answer (index_error, s) = (refused internal_error, s)

  unfoldable pub get_messages : ℕ → ℕ → Option ℕ → Option C → S → Answer Page × S
  get_messages now agent_id limit cursor s =
      let n = page_limit limit current.fetch_default_limit in
      if ltb current.fetch_max_limit n
      then (refused invalid_page_limit, s)
      else page_answer (backend.fetch now agent_id n cursor s)

  unfoldable pub ack_message : ℕ → ℕ → ℕ → S → Answer Bool × S
  ack_message now agent_id i s =
      let (removed, s') = backend.ack now agent_id i s in
      if removed then (answered true, s') else (refused delivery_not_found, s')
