-- ===== src/Relay/Agree.antt =====
-- Each operation of the two stores of services/relay/relay/store.py, on stores that hold the same.
use enishi.Prelude.{
  ℕ, ◌+◌, ◌≤◌, ◌<◌, ◌≡◌, refl, sym, ◌∙◌, ap, Bool, not, ◌&&◌, inl, inr, Option, none, some, List,
  [], ◌∷◌, ◌++◌, keep, keep-keep, keep_comm, length, total, arith, Bool-cases, ltb, leb, ◌==◌,
  if◌then◌else◌, Option-cases, keep_whole,
}
use enishi.Relay.Types.{
  StoredMessage, Limits, CursorCodec, FetchResult, minute, count_of, set_count, drop_old, PutResult,
  after_key, sort_messages,
}
use enishi.Relay.Memory
use enishi.Relay.Memory.{MailboxStore, get_box, set_box, append_box, all_messages}
use enishi.Relay.Sqlite
use enishi.Relay.Sqlite.{SqliteMailboxStore, Row, message_of, rows_of, purge_messages}
use enishi.Relay.Boxes.{
  live, purge_boxes-purge_boxes, get_box-append_box, get_box-set_box, append_box-Distinct,
  set_box-Distinct, rows_of-append, rows_of-acked, Distinct,
}
use enishi.Relay.Pages.{keep-sort_messages, page_of_agrees}
use enishi.Relay.Same.{
  count_of-drop_old, count_of-set_count, keep-Sized, append-Sized, Same, cleared, kept_rows,
  cleared-Twins, Same-cleared, Same-cleared_memory, own_length, own_bytes, all_bytes, all_length,
}

-- `if serialized_size is None: serialized_size = _envelope_size(envelope)`
abbrev pub size_passed : {E : Type 0} → (E → ℕ) → E → Option ℕ → ℕ
size_passed bytes e size = elim size [ none ↦ bytes e | some n ↦ n ]

module _ {E : Type 0} (bytes : E → ℕ) (limits : Limits) (now : ℕ) where
  -- The same reply, and stores that hold the same again.
  abbrev pub Agree : (R : Type 0) → R × MailboxStore E → R × SqliteMailboxStore E → Type 0
  Agree R (r, mem) (q, sql) = (r ≡ q) × Same bytes limits now mem sql

  purge-purge :
      (s : MailboxStore E)
      → Memory.purge bytes limits now (Memory.purge bytes limits now s)
        ≡ Memory.purge bytes limits now s
  unfolding Memory.purge drop_old
  purge-purge s = rw (purge_boxes-purge_boxes limits now s.mailboxes, keep-keep _ s.rate) refl

  module _ (mem : MailboxStore E) (sql : SqliteMailboxStore E)
      (h : Same bytes limits now mem sql) where
    same_count :
        (s m : ℕ)
        → minute now ≤ m + 1
        → count_of s m mem.rate ≡ count_of s m (drop_old (minute now) sql.rate_limits)
    same_count s m p = h.counts s m p ∙ sym (count_of-drop_old (minute now) s m sql.rate_limits p)

    with_counts :
        (s n : ℕ)
        → Same bytes limits now
            (record mem { rate = set_count s (minute now) n mem.rate })
            (record sql {
              rate_limits = set_count s (minute now) n (drop_old (minute now) sql.rate_limits);
            })
    with_counts s n = record {
      boxes = h.boxes;
      distinct = h.distinct;
      sizes = h.sizes;
      counts = λ a k p.
          count_of-set_count s (minute now) n a k mem.rate
          ∙ ap (λ c. if (s == a) && (minute now == k) then n else c) (same_count a k p)
          ∙ sym (count_of-set_count s (minute now) n a k (drop_old (minute now) sql.rate_limits));
    }

    without_old :
        Same bytes limits now mem
          (record sql { rate_limits = drop_old (minute now) sql.rate_limits })
    without_old = record {
      boxes = h.boxes;
      distinct = h.distinct;
      sizes = h.sizes;
      counts = same_count;
    }

    pub allow_send-Agree :
        (sender : ℕ)
        → Agree Bool
            (Memory.allow_send bytes limits now sender mem)
            (Sqlite.allow_send bytes limits now sender sql)
    unfolding Memory.allow_send Sqlite.allow_send
    allow_send-Agree sender =
        let count = count_of sender (minute now) mem.rate in
        let same = same_count sender (minute now) (omega arith) in
        elim (Bool-cases (leb limits.rate_limit_per_minute count)) [
          | inl full ↦ rw (← same, full) (refl, without_old)
          | inr room ↦ rw (← same, room) (refl, with_counts sender (count + 1))
        ]

    pub pending_stats-Agree :
        Agree
          (ℕ × ℕ)
          (Memory.pending_stats bytes limits now mem)
          (Sqlite.pending_stats bytes limits now sql)
    unfolding Memory.pending_stats Sqlite.pending_stats Memory.purge
    pending_stats-Agree =
        let lengths = all_length bytes limits now mem sql h in
        let sums = all_bytes bytes limits now mem sql h in
        (rw (lengths, sums) refl, Same-cleared bytes limits now mem sql h)

    with_message :
        (i r : ℕ) (e : E)
        → Same bytes limits now
            (record (Memory.purge bytes limits now mem) {
              mailboxes =
                  append_box r
                    (record { delivery_id = i; envelope = e; stored_at = now })
                    (Memory.purge bytes limits now mem).mailboxes;
            })
            (record sql {
              messages =
                  kept_rows bytes limits now mem sql h
                  ++ (record {
                    delivery_id = i;
                    receiver = r;
                    envelope = e;
                    stored_at = now;
                    envelope_bytes = bytes e;
                  })
                    ∷ [];
            })
    unfolding Memory.purge
    with_message i r e =
        let base = Same-cleared bytes limits now mem sql h in
        let m : StoredMessage E = record { delivery_id = i; envelope = e; stored_at = now } in
        let row : Row E = record {
          delivery_id = i;
          receiver = r;
          envelope = e;
          stored_at = now;
          envelope_bytes = bytes e;
        } in
        record {
          boxes = λ q. ap (keep (live limits now)) (
              get_box-append_box r q m (cleared bytes limits now mem sql h)
              ∙ ap (λ xs. if r == q then xs ++ m ∷ [] else xs)
                  (cleared-Twins bytes limits now mem sql h q)
              ∙ sym (rows_of-append q (kept_rows bytes limits now mem sql h) row));
          distinct = append_box-Distinct r m _ base.distinct;
          sizes = append-Sized bytes limits _ row base.sizes refl;
          counts = base.counts;
        }

    purged_length :
        (r : ℕ)
        → length (keep (λ row. row.receiver == r) (kept_rows bytes limits now mem sql h))
          ≡ length (get_box r (Memory.purge bytes limits now mem).mailboxes)
    unfolding Memory.purge
    purged_length r = own_length bytes limits now mem sql h r

    purged_bytes :
        (r : ℕ)
        → total
            (λ row. row.envelope_bytes)
            (keep (λ row. row.receiver == r) (kept_rows bytes limits now mem sql h))
          ≡ total (λ m. bytes m.envelope) (get_box r (Memory.purge bytes limits now mem).mailboxes)
    unfolding Memory.purge
    purged_bytes r = own_bytes bytes limits now mem sql h r

    purged_total :
        total (λ row. row.envelope_bytes) (kept_rows bytes limits now mem sql h)
        ≡ total (λ m. bytes m.envelope) (all_messages (Memory.purge bytes limits now mem).mailboxes)
    unfolding Memory.purge
    purged_total = all_bytes bytes limits now mem sql h

    -- A failed `put` leaves one store purged and the other as it was.
    pub put-Agree :
        (i r : ℕ) (e : E) (size : Option ℕ)
        → size_passed bytes e size ≡ bytes e
        → Agree PutResult
            (Memory.put bytes limits now i r e size mem)
            (Sqlite.put bytes limits now i r e size sql)
    unfolding Memory.put Sqlite.put Memory.pending_stats
    put-Agree i r e size honest =
        let own = get_box r (Memory.purge bytes limits now mem).mailboxes in
        let all = all_messages (Memory.purge bytes limits now mem).mailboxes in
        let w = λ (m : StoredMessage E). bytes m.envelope in
        let over_own = ltb limits.max_pending_bytes_per_receiver (total w own + bytes e) in
        let over_all = ltb limits.max_total_pending_bytes (total w all + bytes e) in
        let failed = Same-cleared_memory bytes limits now mem sql h in
        rw (honest, purge-purge mem, purged_length r, purged_bytes r, purged_total)
          (elim (Bool-cases (leb limits.max_pending_messages_per_receiver (length own))) [
            | inl full ↦ rw full (refl, failed)
            | inr room ↦ rw room (elim (Bool-cases over_own) [
              | inl full ↦ rw full (refl, failed)
              | inr fits ↦ rw fits (elim (Bool-cases over_all) [
                | inl full ↦ rw full (refl, failed)
                | inr goes ↦ rw goes (refl, with_message i r e)
              ])
            ])
          ])

    get_box-ack :
        (r i q : ℕ)
        → get_box q (Memory.ack bytes limits now r i mem).1.mailboxes ≡ (
            if r == q
            then keep (λ m. not (m.delivery_id == i)) (get_box q mem.mailboxes)
            else get_box q mem.mailboxes)
    unfolding Memory.ack
    get_box-ack r i q =
        let p = λ (m : StoredMessage E). not (m.delivery_id == i) in
        let rest = keep p (get_box r mem.mailboxes) in
        ground
          (arith, keep_whole p (get_box r mem.mailboxes), get_box-set_box r q rest mem.mailboxes)

    ack-Distinct : (r i : ℕ) → Distinct (Memory.ack bytes limits now r i mem).1.mailboxes
    unfolding Memory.ack
    ack-Distinct r i = ground (
      arith,
      h.distinct,
      set_box-Distinct r (keep (λ m. not (m.delivery_id == i)) (get_box r mem.mailboxes))
          mem.mailboxes h.distinct,
    )

    ack_counts :
        (r i s m : ℕ)
        → count_of s m (Memory.ack bytes limits now r i mem).1.rate ≡ count_of s m mem.rate
    unfolding Memory.ack
    ack_counts r i s m = ground arith

    acked_live :
        (r i q : ℕ)
        → keep (live limits now) (
            if r == q
            then keep (λ m. not (m.delivery_id == i)) (get_box q mem.mailboxes)
            else get_box q mem.mailboxes)
          ≡ keep (live limits now) (
              if r == q
              then keep (λ m. not (m.delivery_id == i)) (rows_of q sql.messages)
              else rows_of q sql.messages)
    acked_live r i q = elim (Bool-cases (r == q)) [
      | inl same ↦
          let p = λ (m : StoredMessage E). not (m.delivery_id == i) in
          rw same (
            keep_comm (live limits now) p (get_box q mem.mailboxes)
            ∙ ap (keep p) (h.boxes q)
            ∙ keep_comm p (live limits now) (rows_of q sql.messages))
      | inr other ↦ rw other (h.boxes q)
    ]

    -- The two stores drop the same message from the same mailbox. Their replies are equal when no
    -- message is expired, and are not compared here.
    pub ack-Same :
        (r i : ℕ)
        → Same bytes limits now
            (Memory.ack bytes limits now r i mem).1
            (Sqlite.ack bytes limits now r i sql).1
    unfolding Memory.ack Sqlite.ack
    ack-Same r i = record {
      boxes = λ q.
          ap (keep (live limits now)) (get_box-ack r i q)
          ∙ acked_live r i q
          ∙ ap (keep (live limits now)) (sym (rows_of-acked r i q sql.messages));
      distinct = ack-Distinct r i;
      sizes = keep-Sized bytes limits _ sql.messages h.sizes;
      counts = λ s m p. ack_counts r i s m ∙ h.counts s m p;
    }

    purged_Twins :
        (r : ℕ)
        → get_box r (Memory.purge bytes limits now mem).mailboxes
          ≡ rows_of r (kept_rows bytes limits now mem sql h)
    unfolding Memory.purge
    purged_Twins r = cleared-Twins bytes limits now mem sql h r

    module _ (codec : CursorCodec) where
      abbrev page_cut : ℕ → List (StoredMessage E) → FetchResult E codec.Cursor
      page_cut = Memory.page_of bytes limits now codec

      pub fetch-Agree :
          (r limit : ℕ) (cursor : Option codec.Cursor)
          → 0 < limit
          → Agree
              (FetchResult E codec.Cursor)
              (Memory.fetch bytes limits now codec r limit cursor mem)
              (Sqlite.fetch bytes limits now codec r limit cursor sql)
      unfolding Memory.fetch Sqlite.fetch
      fetch-Agree r limit none positive = (
        ap (λ xs. page_cut limit (sort_messages xs)) (purged_Twins r)
            ∙ page_of_agrees bytes limits now codec limit _ positive,
        Same-cleared bytes limits now mem sql h,
      )
      fetch-Agree r limit (some c) positive = elim (Option-cases (codec.decode c)) [
        | inl bad ↦
            rw (bad, Memory.fetch, Sqlite.fetch)
              (refl, Same-cleared_memory bytes limits now mem sql h)
        | inr (key, good) ↦
            rw (good, Memory.fetch, Sqlite.fetch)
              (
                ap (λ xs. page_cut limit (keep (after_key key) (sort_messages xs))) (purged_Twins r)
                    ∙ ap (page_cut limit) (keep-sort_messages (after_key key) _)
                    ∙ page_of_agrees bytes limits now codec limit _ positive,
                Same-cleared bytes limits now mem sql h,
              )
      ]
