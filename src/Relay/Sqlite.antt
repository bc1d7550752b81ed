-- ===== src/Relay/Sqlite.antt =====
-- `SqliteMailboxStore` of services/relay/relay/store.py: the same operations over two tables. A
-- table is the list of its rows in the order of their insertion; a statement is what SQL says of
-- it: WHERE keeps rows, ORDER BY sorts, LIMIT takes. An envelope survives `json.dumps` and
-- `json.loads`.
use enishi.Prelude.{
  ℕ, suc, ◌+◌, Bool, true, false, not, ◌&&◌, Option, none, some, List, [], ◌∷◌, ◌++◌, keep, length,
  total, take, ltb, leb, ◌==◌, if◌then◌else◌,
}
use enishi.Relay.Types.{
  StoredMessage, Limits, receiver_messages, receiver_bytes, total_bytes, PutResult, delivered,
  exceeded, CursorCodec, FetchResult, page, invalid_cursor, minute, Rates, count_of, set_count,
  drop_old, sort_messages, after_key, alive, last?,
}

pub record Row (E : Type 0) : Type 0 where
  pub delivery_id : ℕ
  pub receiver : ℕ
  pub envelope : E
  pub stored_at : ℕ
  pub envelope_bytes : ℕ

pub record SqliteMailboxStore (E : Type 0) : Type 0 where
  pub messages : List (Row E)
  pub rate_limits : Rates

module _ {E : Type 0} where
  abbrev pub message_of : Row E → StoredMessage E
  message_of row = record {
    delivery_id = row.delivery_id;
    envelope = row.envelope;
    stored_at = row.stored_at;
  }

  -- The messages of the rows WHERE receiver = ?
  unfoldable pub rows_of : ℕ → List (Row E) → List (StoredMessage E)
  rows_of r [] = []
  rows_of r (row ∷ rows) =
      let rest = rows_of r rows in if row.receiver == r then message_of row ∷ rest else rest

module _ {E : Type 0} (bytes : E → ℕ) (limits : Limits) (now : ℕ) where
  unfoldable pub purge_messages : List (Row E) → List (Row E)
  purge_messages rows = keep (λ row. alive limits now row.stored_at) rows

  unfoldable pub allow_send : ℕ → SqliteMailboxStore E → Bool × SqliteMailboxStore E
  unfolding drop_old
  allow_send sender s =
      let rates = drop_old (minute now) s.rate_limits in
      let count = count_of sender (minute now) rates in
      if leb limits.rate_limit_per_minute count
      then (false, record s { rate_limits = rates })
      else (true, record s { rate_limits = set_count sender (minute now) (count + 1) rates })

  unfoldable pub pending_stats : SqliteMailboxStore E → (ℕ × ℕ) × SqliteMailboxStore E
  unfolding purge_messages
  pending_stats s =
      let rows = purge_messages s.messages in
      ((length rows, total (λ row. row.envelope_bytes) rows), record s { messages = rows })

  -- A raise inside the transaction rolls the purge back.
  unfoldable pub put :
      ℕ → ℕ → E → Option ℕ → SqliteMailboxStore E → PutResult × SqliteMailboxStore E
  unfolding purge_messages
  put delivery_id receiver envelope size s =
      let serialized_size : ℕ = elim size [ none ↦ bytes envelope | some n ↦ n ] in
      let rows = purge_messages s.messages in
      let own = keep (λ row. row.receiver == receiver) rows in
      let row : Row E = record {
        delivery_id = delivery_id;
        receiver = receiver;
        envelope = envelope;
        stored_at = now;
        envelope_bytes = serialized_size;
      } in
      if leb limits.max_pending_messages_per_receiver (length own)
      then (exceeded receiver_messages, s)
      else if ltb limits.max_pending_bytes_per_receiver
          (total (λ r. r.envelope_bytes) own + serialized_size)
      then (exceeded receiver_bytes, s)
      else if ltb limits.max_total_pending_bytes
          (total (λ r. r.envelope_bytes) rows + serialized_size)
      then (exceeded total_bytes, s)
      else (delivered delivery_id, record s { messages = rows ++ row ∷ [] })

  unfoldable pub ack : ℕ → ℕ → SqliteMailboxStore E → Bool × SqliteMailboxStore E
  ack receiver delivery_id s =
      let hit = λ (row : Row E). (row.receiver == receiver) && (row.delivery_id == delivery_id) in
      (
        ltb 0 (length (keep hit s.messages)),
        record s { messages = keep (λ row. not (hit row)) s.messages },
      )

  module _ (codec : CursorCodec) where
    open codec use {Cursor, encode, decode}

    -- Of the `limit + 1` rows the last one only tells that there are more.
    abbrev pub page_of : ℕ → List (StoredMessage E) → FetchResult E Cursor
    page_of limit selected =
        let rows = take (suc limit) selected in
        let items = take limit rows in
        if ltb limit (length rows)
        then (elim (last? items) [
          | none ↦ page items none
          | some m ↦ page items (some (encode m.stored_at m.delivery_id))
        ])
        else page items none

    unfoldable pub fetch :
        ℕ → ℕ → Option Cursor → SqliteMailboxStore E → FetchResult E Cursor × SqliteMailboxStore E
    unfolding purge_messages rows_of
    fetch receiver limit cursor s =
        let purged = record s { messages = purge_messages s.messages } in
        elim cursor [
          | none ↦
              (page_of limit (sort_messages (rows_of receiver (purge_messages s.messages))), purged)
          | some c ↦ elim (decode c) [
            | none ↦ (invalid_cursor, s)
            | some key ↦ (
              page_of limit (
                  sort_messages
                    (keep (after_key key) (rows_of receiver (purge_messages s.messages)))),
              purged,
            )
          ]
        ]
