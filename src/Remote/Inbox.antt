-- ===== src/Remote/Inbox.antt =====
-- `process_inbox` of services/remote_negotiation.py: what the Relay delivers is verified and handled
-- one by one, each in its own transaction, and acknowledged.
use enishi.Prelude.{
  ℕ, Bool, true, false, not, ◌&&◌, ◌||◌, Option, none, some, List, [], ◌∷◌, is_some, ◌==◌,
  if◌then◌else◌,
}
use enishi.Prelude.Table.{lookup}
use enishi.Errors.{
  Code, Result, ok, err, Done, raise_if, message_schema_invalid, peer_not_trusted,
  agent_identity_mismatch, message_processing_failed, relay_unavailable, unhandled,
}
use enishi.Exec.{Exec, pure, lift, read, modify, commit, rollback, attempt, ◌>>=◌, ◌>>◌}
use enishi.Replay.{check_and_record}
use enishi.Remote.Types.{PeerAgent, Envelope, Tables, or_else}
use enishi.Remote.Domain.{Node, Call}
use enishi.Remote.Guards.{sender_node, is_trusted}
use enishi.Remote.Outbox.{flush_outbox, has_any}
use enishi.Remote.Handle.{Action, handle_envelope}

-- What is fetched: an empty id, and an envelope that is no dict, are `none`.
pub record Delivery (J : Type 0) : Type 0 where
  pub delivery_id : Option ℕ
  pub envelope : Option (Envelope J)

-- What is outside while a delivery is processed: the call's time and identifiers, which messages the
-- Relay takes, and whether it can be told that the delivery is done.
pub record Turn (J : Type 0) : Type 0 where
  pub call : Call
  pub accepts : Envelope J → Bool
  pub ack_works : Bool

pub data InboxResult : Type 0 where
  handled : ℕ → Action → InboxResult
  rejected : Option ℕ → Code → InboxResult
  duplicate : ℕ → InboxResult

abbrev pub ttl_seconds : ℕ
ttl_seconds = 3600

-- `exc.code`, or the code of every exception that is no `EnishiError`.
abbrev pub failure_code : Code → Code
failure_code unhandled = message_processing_failed
failure_code c = c

abbrev pub is_unhandled : Code → Bool
is_unhandled unhandled = true
is_unhandled _ = false

module _ {J C : Type 0} (node : Node J C) where
  unfoldable pub flush : Turn J → Exec (Tables J C) Done
  unfolding flush_outbox
  flush turn db = (ok tt, (flush_outbox turn.accepts turn.call.now db).2)

  abbrev pub store_seen : Turn J → Envelope J → Tables J C → Tables J C
  store_seen turn e db = record db {
    seen = (check_and_record turn.call.now ttl_seconds e.message_id db.seen).1;
  }

  -- The time to live of a record is in the unit of the clock: seconds.
  unfoldable pub record_seen : Turn J → Envelope J → Exec (Tables J C) (Result Done)
  unfolding check_and_record
  record_seen turn e = do
    fresh ← read (λ db. ok (check_and_record turn.call.now ttl_seconds e.message_id db.seen).0)
    modify (store_seen turn e)
    pure fresh

  unfoldable pub acknowledge : Turn J → Exec (Tables J C) Done
  acknowledge turn = lift (raise_if (not turn.ack_works) relay_unavailable)

  -- The rejection is logged, which commits.
  unfoldable pub reject : Turn J → Option ℕ → Code → Exec (Tables J C) InboxResult
  unfolding acknowledge
  reject turn message_id code = do acknowledge turn; commit; pure (rejected message_id code)

  abbrev pub trusted_peer : Envelope J → Tables J C → Option PeerAgent
  trusted_peer e db = elim (lookup (sender_node e) db.peers) [
    | none ↦ none
    | some peer ↦ if is_trusted peer.status then some peer else none
  ]

  -- Where the message names nodes, its sender has to be the peer's agent, and its receiver an agent of
  -- this node.
  abbrev pub is_misaddressed : Envelope J → PeerAgent → Tables J C → Bool
  is_misaddressed e peer db =
      is_some e.sender_node_id
      && (not (or_else peer.personal_agent_id (sender_node e) == e.sender_agent_id)
          || (not (or_else e.receiver_node_id e.receiver_agent_id == node.node_id)
              || not (is_some (lookup e.receiver_agent_id db.personals))))

  unfoldable pub after_handling :
      Turn J → Envelope J → Result Action → Exec (Tables J C) InboxResult
  unfolding flush acknowledge reject
  after_handling turn e (ok action) = do
    flush turn
    acknowledge turn
    pure (handled e.message_id action)
  after_handling turn e (err c) = do rollback; reject turn (some e.message_id) (failure_code c)

  unfoldable pub handle_verified : Turn J → Envelope J → Exec (Tables J C) InboxResult
  unfolding handle_envelope after_handling
  handle_verified turn e = do
    done ← attempt (handle_envelope node turn.call e)
    after_handling turn e done

  unfoldable pub process_verified : Turn J → Envelope J → Exec (Tables J C) InboxResult
  unfolding record_seen handle_verified acknowledge
  process_verified turn e = do
    fresh ← record_seen turn e
    elim fresh [
      | ok _ ↦ handle_verified turn e
      | err _ ↦ do acknowledge turn; pure (duplicate e.message_id)
    ]

  unfoldable pub process_envelope : Turn J → Envelope J → Exec (Tables J C) InboxResult
  unfolding lookup process_verified reject
  process_envelope turn e = do
    peer ← read (λ db. ok (trusted_peer e db))
    misaddressed ← read (λ db. ok (elim peer [ none ↦ false | some p ↦ is_misaddressed e p db ]))
    elim peer [
      | none ↦ reject turn (some e.message_id) peer_not_trusted
      | some p ↦
          if misaddressed
          then reject turn (some e.message_id) agent_identity_mismatch
          else elim (node.verify_envelope turn.call.now e p.public_key) [
            | err c ↦ if is_unhandled c then lift (err c) else reject turn (some e.message_id) c
            | ok _ ↦ process_verified turn e
          ]
    ]

  -- Without an id there is nothing to acknowledge; the rejection is logged all the same.
  unfoldable pub process_delivery : Turn J → Delivery J → Exec (Tables J C) InboxResult
  unfolding process_envelope reject
  process_delivery turn d = elim d.delivery_id [
    | none ↦ (commit >> pure (rejected none message_schema_invalid))
    | some _ ↦ elim d.envelope [
      | none ↦ reject turn none message_schema_invalid
      | some e ↦ process_envelope turn e
    ]
  ]

  -- `for delivery in relay.fetch()`; an acknowledgement that fails ends the loop.
  unfoldable pub process_deliveries :
      List (Turn J × Delivery J) → Exec (Tables J C) (List InboxResult)
  unfolding process_delivery
  process_deliveries [] = pure []
  process_deliveries ((turn, d) ∷ deliveries) = do
    result ← process_delivery turn d
    results ← process_deliveries deliveries
    pure (result ∷ results)

  unfoldable pub process_inbox : List (Turn J × Delivery J) → Exec (Tables J C) (List InboxResult)
  unfolding process_deliveries
  process_inbox deliveries = do
    results ← process_deliveries deliveries
    if has_any results then (commit >> pure results) else pure results
