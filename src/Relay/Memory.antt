-- ===== src/Relay/Memory.antt =====
-- `MailboxStore` of services/relay/relay/store.py: the mailboxes in a dict of lists.
use enishi.Prelude.{
  ℕ, ◌+◌, Bool, true, false, not, Option, none, some, List, [], ◌∷◌, ◌++◌, keep, length, total,
  take, ltb, leb, ◌==◌, if◌then◌else◌,
}
use enishi.Prelude.Table.{Table}
use enishi.Relay.Types.{
  StoredMessage, Limits, receiver_messages, receiver_bytes, total_bytes, PutResult, delivered,
  exceeded, CursorCodec, FetchResult, page, invalid_cursor, index_error, minute, Rates, count_of,
  set_count, drop_old, sort_messages, after_key, alive, last?,
}

pub record MailboxStore (E : Type 0) : Type 0 where
  pub mailboxes : Table (List (StoredMessage E))
  pub rate : Rates

abbrev pub Boxes : Type 0 → Type 0
Boxes E = Table (List (StoredMessage E))

module _ {E : Type 0} where
  -- `self._mailboxes.get(receiver, [])`
  unfoldable pub get_box : ℕ → Boxes E → List (StoredMessage E)
  get_box r [] = []
  get_box r ((k, messages) ∷ rest) = if k == r then messages else get_box r rest

  -- `self._mailboxes[receiver] = messages`, for a receiver that is there.
  unfoldable pub set_box : ℕ → List (StoredMessage E) → Boxes E → Boxes E
  set_box r new [] = (r, new) ∷ []
  set_box r new ((k, messages) ∷ rest) =
      if k == r then (k, new) ∷ rest else (k, messages) ∷ set_box r new rest

  -- `self._mailboxes.setdefault(receiver, []).append(message)`
  unfoldable pub append_box : ℕ → StoredMessage E → Boxes E → Boxes E
  append_box r m [] = (r, m ∷ []) ∷ []
  append_box r m ((k, messages) ∷ rest) =
      if k == r then (k, messages ++ m ∷ []) ∷ rest else (k, messages) ∷ append_box r m rest

  unfoldable pub purge_boxes : Limits → ℕ → Boxes E → Boxes E
  purge_boxes limits now [] = []
  purge_boxes limits now ((k, messages) ∷ rest) =
      (k, keep (λ m. alive limits now m.stored_at) messages) ∷ purge_boxes limits now rest

  -- `[message for items in self._mailboxes.values() for message in items]`
  unfoldable pub all_messages : Boxes E → List (StoredMessage E)
  all_messages [] = []
  all_messages ((k, messages) ∷ rest) = messages ++ all_messages rest

module _ {E : Type 0} (bytes : E → ℕ) (limits : Limits) (now : ℕ) where
  abbrev pub envelope_bytes : StoredMessage E → ℕ
  envelope_bytes m = bytes m.envelope

  unfoldable pub purge : MailboxStore E → MailboxStore E
  unfolding purge_boxes drop_old minute
  purge s = record {
    mailboxes = purge_boxes limits now s.mailboxes;
    rate = drop_old (minute now) s.rate;
  }

  unfoldable pub allow_send : ℕ → MailboxStore E → Bool × MailboxStore E
  allow_send sender s =
      let count = count_of sender (minute now) s.rate in
      if leb limits.rate_limit_per_minute count
      then (false, s)
      else (true, record s { rate = set_count sender (minute now) (count + 1) s.rate })

  unfoldable pub pending_stats : MailboxStore E → (ℕ × ℕ) × MailboxStore E
  pending_stats s =
      let purged = purge s in
      let messages = all_messages purged.mailboxes in
      ((length messages, total envelope_bytes messages), purged)

  -- `delivery_id` is the fresh identifier that `uuid4` gives.
  unfoldable pub put : ℕ → ℕ → E → Option ℕ → MailboxStore E → PutResult × MailboxStore E
  put delivery_id receiver envelope size s =
      let purged = purge s in
      let serialized_size : ℕ = elim size [ none ↦ bytes envelope | some n ↦ n ] in
      let receiver_messages' = get_box receiver purged.mailboxes in
      let receiver_bytes' = total envelope_bytes receiver_messages' in
      let ((_, total_bytes'), again) = pending_stats purged in
      let message : StoredMessage E = record {
        delivery_id = delivery_id;
        envelope = envelope;
        stored_at = now;
      } in
      if leb limits.max_pending_messages_per_receiver (length receiver_messages')
      then (exceeded receiver_messages, again)
      else if ltb limits.max_pending_bytes_per_receiver (receiver_bytes' + serialized_size)
      then (exceeded receiver_bytes, again)
      else if ltb limits.max_total_pending_bytes (total_bytes' + serialized_size)
      then (exceeded total_bytes, again)
      else (
        delivered delivery_id,
        record again { mailboxes = append_box receiver message again.mailboxes },
      )

  unfoldable pub ack : ℕ → ℕ → MailboxStore E → Bool × MailboxStore E
  ack receiver delivery_id s =
      let messages = get_box receiver s.mailboxes in
      let remaining = keep (λ m. not (m.delivery_id == delivery_id)) messages in
      if length remaining == length messages
      then (false, s)
      else (true, record s { mailboxes = set_box receiver remaining s.mailboxes })

  module _ (codec : CursorCodec) where
    open codec use {Cursor, encode, decode}

    abbrev pub page_of : ℕ → List (StoredMessage E) → FetchResult E Cursor
    page_of limit messages =
        let items = take limit messages in
        if ltb (length items) (length messages)
        then (elim (last? items) [
          | none ↦ index_error
          | some m ↦ page items (some (encode m.stored_at m.delivery_id))
        ])
        else page items none

    unfoldable pub fetch :
        ℕ → ℕ → Option Cursor → MailboxStore E → FetchResult E Cursor × MailboxStore E
    fetch receiver limit cursor s =
        let purged = purge s in
        let messages = sort_messages (get_box receiver purged.mailboxes) in
        elim cursor [
          | none ↦ (page_of limit messages, purged)
          | some c ↦ elim (decode c) [
            | none ↦ (invalid_cursor, purged)
            | some key ↦ (page_of limit (keep (after_key key) messages), purged)
          ]
        ]
