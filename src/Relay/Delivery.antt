-- ===== src/Relay/Delivery.antt =====
-- Delivery at least once by services/relay/relay/store.py: what was stored is fetched, again and
-- again, until its receiver acknowledges it or its time is over.
use enishi.Prelude.{
  ℕ, zero, suc, ◌+◌, ◌≤◌, ◌≡◌, refl, ap, Bool, true, false, not, ◌&&◌, Option, none, some, List, [],
  ◌∷◌, ◌++◌, keep, length, length-keep, total, take, arith, inl, inr, ◌⊎◌, Bool-cases, Option-cases,
  ltb, leb, ◌==◌, ==-refl, if-intro,
}
use enishi.Relay.Types.{
  StoredMessage, Limits, CursorCodec, page, alive, key_leb, place, sort_messages, PutResult,
  count_of, minute, drop_old,
}
use enishi.Relay.Sqlite
use enishi.Relay.Sqlite.{SqliteMailboxStore, Row, message_of, rows_of, purge_messages}
use enishi.Relay.Boxes.{rows_of-purge_messages}
use enishi.Relay.Agree.{size_passed}
use enishi.Relay.Runs.{
  Op, call_allow_send, call_put, call_fetch, call_ack, call_pending_stats, History, sqlite_step,
  sqlite_run,
}

module _ {A : Type 0} where
  abbrev pub Has : A → List A → Type 0
  Has x [] = ⊥
  Has x (y ∷ ys) = (x ≡ y) ⊎ Has x ys

  Has-keep : (p : A → Bool) (x : A) (xs : List A) → p x ≡ true → Has x xs → Has x (keep p xs)
  Has-keep p x [] h there = absurd there
  Has-keep p x (y ∷ ys) h (inl e) = rw (← e, h) (inl refl)
  Has-keep p x (y ∷ ys) h (inr there) = elim (Bool-cases (p y)) [
    | inl kept ↦ rw kept (inr (Has-keep p x ys h there))
    | inr lost ↦ rw lost (Has-keep p x ys h there)
  ]

  Has-append : (x : A) (xs ys : List A) → Has x xs → Has x (xs ++ ys)
  Has-append x [] ys there = absurd there
  Has-append x (y ∷ xs) ys (inl e) = inl e
  Has-append x (y ∷ xs) ys (inr h) = inr (Has-append x xs ys h)

  Has-take : (n : ℕ) (x : A) (xs : List A) → length xs ≤ n → Has x xs → Has x (take n xs)
  Has-take n x [] le there = absurd there
  Has-take zero x (y ∷ ys) le h = absurd (omega (arith, le))
  Has-take (suc n) x (y ∷ ys) le (inl e) = inl e
  Has-take (suc n) x (y ∷ ys) le (inr h) = inr (Has-take n x ys (omega (arith, le)) h)

module _ {E : Type 0} where
  deeper :
      (m x y : StoredMessage E) (ys : List (StoredMessage E))
      → (x ≡ m) ⊎ ((x ≡ y) ⊎ Has x ys)
      → ((x ≡ m) ⊎ Has x ys → Has x (place m ys))
      → (x ≡ y) ⊎ Has x (place m ys)
  deeper m x y ys (inl e) below = inr (below (inl e))
  deeper m x y ys (inr (inl e)) below = inl e
  deeper m x y ys (inr (inr there)) below = inr (below (inr there))

  Has-place :
      (m x : StoredMessage E) (xs : List (StoredMessage E))
      → (x ≡ m) ⊎ Has x xs
      → Has x (place m xs)
  Has-place m x [] h = h
  Has-place m x (y ∷ ys) h = elim (Bool-cases (key_leb m y)) [
    | inl before ↦ rw before h
    | inr after ↦ rw after (deeper m x y ys h (Has-place m x ys))
  ]

  Has-sort_messages :
      (x : StoredMessage E) (xs : List (StoredMessage E)) → Has x xs → Has x (sort_messages xs)
  Has-sort_messages x [] there = absurd there
  Has-sort_messages x (y ∷ ys) (inl e) = Has-place y x (sort_messages ys) (inl e)
  Has-sort_messages x (y ∷ ys) (inr h) =
      Has-place y x (sort_messages ys) (inr (Has-sort_messages x ys h))

  length-place :
      (m : StoredMessage E) (xs : List (StoredMessage E)) → length (place m xs) ≡ length xs + 1
  length-place m [] = omega arith
  length-place m (x ∷ xs) = ground (arith, length-place m xs)

  length-sort_messages : (xs : List (StoredMessage E)) → length (sort_messages xs) ≡ length xs
  length-sort_messages [] = refl
  length-sort_messages (x ∷ xs) =
      omega (arith, length-place x (sort_messages xs), length-sort_messages xs)

  Has-rows_of :
      (row : Row E) (rows : List (Row E))
      → Has row rows
      → Has (message_of row) (rows_of row.receiver rows)
  unfolding rows_of
  Has-rows_of row [] there = absurd there
  Has-rows_of row (x ∷ rows) (inl e) = rw (← e, ==-refl row.receiver) (inl refl)
  Has-rows_of row (x ∷ rows) (inr h) = elim (Bool-cases (x.receiver == row.receiver)) [
    | inl own ↦ rw own (inr (Has-rows_of row rows h))
    | inr other ↦ rw other (Has-rows_of row rows h)
  ]

  length-take_le : (n : ℕ) (xs : List (StoredMessage E)) → length (take n xs) ≤ length xs
  length-take_le zero xs = omega arith
  length-take_le (suc n) [] = omega arith
  length-take_le (suc n) (x ∷ xs) = omega (arith, length-take_le n xs)

module _ {E : Type 0} (bytes : E → ℕ) (limits : Limits) (codec : CursorCodec) (row : Row E) where
  open codec use {Cursor}

  -- A call at a time that neither outlives the message nor acknowledges it.
  abbrev pub Spares : ℕ → Op E Cursor → Type 0
  Spares now (call_ack r i) =
      (alive limits now row.stored_at ≡ true)
      × (((row.receiver == r) && (row.delivery_id == i)) ≡ false)
  Spares now op = alive limits now row.stored_at ≡ true

  abbrev pub Quiet : History bytes limits codec → Type 0
  Quiet [] = Unit
  Quiet ((now, op) ∷ rest) = Spares now op × Quiet rest

  put-Has :
      (now i r : ℕ) (e : E) (size : Option ℕ) (s : SqliteMailboxStore E)
      → alive limits now row.stored_at ≡ true
      → Has row s.messages
      → Has row (Sqlite.put bytes limits now i r e size s).1.messages
  unfolding Sqlite.put purge_messages
  put-Has now i r e size s h there =
      let P = λ (out : PutResult × SqliteMailboxStore E). Has row out.1.messages in
      let kept = Has-keep (λ x. alive limits now x.stored_at) row s.messages h there in
      let rows = purge_messages bytes limits now s.messages in
      let own = keep (λ (x : Row E). x.receiver == r) rows in
      let n = size_passed bytes e size in
      let size_of = λ (x : Row E). x.envelope_bytes in
      let new : Row E = record {
        delivery_id = i;
        receiver = r;
        envelope = e;
        stored_at = now;
        envelope_bytes = n;
      } in
      if-intro P (leb limits.max_pending_messages_per_receiver (length own)) (λ _. there)
        (λ _.
          if-intro P (ltb limits.max_pending_bytes_per_receiver (total size_of own + n))
            (λ _. there)
            (λ _.
              if-intro P (ltb limits.max_total_pending_bytes (total size_of rows + n)) (λ _. there)
                (λ _. Has-append row rows (new ∷ []) kept)))

  allow_send-Has :
      (now sender : ℕ) (s : SqliteMailboxStore E)
      → Has row s.messages
      → Has row (Sqlite.allow_send bytes limits now sender s).1.messages
  unfolding Sqlite.allow_send
  allow_send-Has now sender s there =
      if-intro (λ (out : Bool × SqliteMailboxStore E). Has row out.1.messages)
        (leb limits.rate_limit_per_minute
          (count_of sender (minute now) (drop_old (minute now) s.rate_limits)))
        (λ _. there) (λ _. there)

  fetch-Has :
      (now r limit : ℕ) (cursor : Option Cursor) (s : SqliteMailboxStore E)
      → alive limits now row.stored_at ≡ true
      → Has row s.messages
      → Has row (Sqlite.fetch bytes limits now codec r limit cursor s).1.messages
  unfolding Sqlite.fetch purge_messages
  fetch-Has now r limit none s h there =
      Has-keep (λ x. alive limits now x.stored_at) row s.messages h there
  fetch-Has now r limit (some c) s h there = elim (Option-cases (codec.decode c)) [
    | inl bad ↦ rw (bad, Sqlite.fetch) there
    | inr (key, good) ↦
        rw (good, Sqlite.fetch)
          (Has-keep (λ x. alive limits now x.stored_at) row s.messages h there)
  ]

  step-Has :
      (now : ℕ) (op : Op E Cursor) (s : SqliteMailboxStore E)
      → Spares now op
      → Has row s.messages
      → Has row (sqlite_step bytes limits codec now op s).1.messages
  unfolding sqlite_step Sqlite.ack Sqlite.pending_stats purge_messages
  step-Has now (call_allow_send sender) s h there = allow_send-Has now sender s there
  step-Has now (call_put i r e size) s h there = put-Has now i r e size s h there
  step-Has now (call_fetch r limit c) s h there = fetch-Has now r limit c s h there
  step-Has now (call_ack r i) s (h, other) there =
      Has-keep (λ x. not ((x.receiver == r) && (x.delivery_id == i))) row s.messages (ap not other)
        there
  step-Has now call_pending_stats s h there =
      Has-keep (λ x. alive limits now x.stored_at) row s.messages h there

  run-Has :
      (history : History bytes limits codec) (s : SqliteMailboxStore E)
      → Quiet history
      → Has row s.messages
      → Has row (sqlite_run bytes limits codec history s).messages
  unfolding sqlite_run
  run-Has [] s quiet there = there
  run-Has ((now, op) ∷ rest) s (h, quiet) there = run-Has rest _ quiet (step-Has now op s h there)

  page_whole :
      (now limit : ℕ) (m : StoredMessage E) (xs : List (StoredMessage E))
      → length xs ≤ limit
      → Has m xs
      → (items : List (StoredMessage E)) × (Sqlite.page_of bytes limits now codec limit xs
          ≡ page items none)
        × Has m items
  page_whole now limit m xs le h =
      let short = length-take_le (suc limit) xs in
      let few : ltb limit (length (take (suc limit) xs)) ≡ false = ground (arith, short, le) in
      (
        take limit (take (suc limit) xs),
        rw few refl,
        Has-take limit m (take (suc limit) xs) (omega (arith, short, le))
            (Has-take (suc limit) m xs (omega (arith, le)) h),
      )

  -- A stored message is on the first page that its receiver fetches while the message lives, if the
  -- page has room for all that the receiver has, whatever calls came in between: as long as the
  -- message lived at their times and none of them was its receiver's acknowledgement of it. In
  -- particular fetching does not take it away.
  pub fetched_until_acked :
      (history : History bytes limits codec) (s : SqliteMailboxStore E) (now limit : ℕ)
      → Has row s.messages
      → Quiet history
      → alive limits now row.stored_at ≡ true
      → length (rows_of row.receiver (sqlite_run bytes limits codec history s).messages) ≤ limit
      → (items : List (StoredMessage E)) × ((Sqlite.fetch bytes limits now codec row.receiver limit
            none
            (sqlite_run bytes limits codec history s)).0
          ≡ page items none)
        × Has (message_of row) items
  unfolding Sqlite.fetch purge_messages
  fetched_until_acked history s now limit there quiet lives room =
      let rows = (sqlite_run bytes limits codec history s).messages in
      let kept = keep (λ x. alive limits now x.stored_at) rows in
      let own = rows_of row.receiver kept in
      let short = length-keep (λ m. alive limits now m.stored_at) (rows_of row.receiver rows) in
      let same = ap length (rows_of-purge_messages bytes limits now row.receiver rows) in
      page_whole now limit (message_of row) (sort_messages own)
        (omega (arith, length-sort_messages own, same, short, room))
        (Has-sort_messages (message_of row) own (
          Has-rows_of row kept (
            Has-keep (λ x. alive limits now x.stored_at) row rows lives
              (run-Has history s quiet there))))
