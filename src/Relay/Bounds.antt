-- ===== src/Relay/Bounds.antt =====
-- The limits that services/relay/relay/store.py keeps, in every history of calls.
use enishi.Prelude.{
  ℕ, ◌+◌, ◌≤◌, ◌≡◌, Bool, not, ◌&&◌, inl, inr, Option, none, some, List, [], ◌∷◌, ◌++◌, keep,
  keep-append, keep_comm, length, length-keep, length-append, total, total-append, total-keep, All,
  arith, Bool-cases, ltb, leb, ◌==◌, ==_iff, ++-nil, Option-cases,
}
use enishi.Relay.Types.{Limits, CursorCodec, Rates, count_of, set_count, drop_old, minute, alive}
use enishi.Relay.Sqlite
use enishi.Relay.Sqlite.{SqliteMailboxStore, Row, purge_messages}
use enishi.Relay.Agree.{size_passed}
use enishi.Relay.Runs.{
  Op, call_allow_send, call_put, call_fetch, call_ack, call_pending_stats, History, sqlite_step,
  sqlite_run, new_sqlite,
}

module _ {E : Type 0} (bytes : E → ℕ) (limits : Limits) where
  abbrev stored : List (Row E) → ℕ
  stored = total (λ row. row.envelope_bytes)

  abbrev own_rows : ℕ → List (Row E) → List (Row E)
  own_rows r = keep (λ row. row.receiver == r)

  -- What is pending is within all three capacities, and no counter is above the rate limit.
  pub record Within (s : SqliteMailboxStore E) : Type 0 where
    pub all_stored : stored s.messages ≤ limits.max_total_pending_bytes
    pub own_stored :
        (r : ℕ) → stored (own_rows r s.messages) ≤ limits.max_pending_bytes_per_receiver
    pub own_count :
        (r : ℕ) → length (own_rows r s.messages) ≤ limits.max_pending_messages_per_receiver
    pub rates : All (λ (_, _, n). n ≤ limits.rate_limit_per_minute) s.rate_limits

  keep-Within :
      (p : Row E → Bool) (s : SqliteMailboxStore E)
      → Within s
      → Within (record s { messages = keep p s.messages })
  keep-Within p s h = record {
    all_stored = omega (arith, h.all_stored, total-keep (λ row. row.envelope_bytes) p s.messages);
    own_stored = λ r. rw (keep_comm (λ row. row.receiver == r) p s.messages) (
        omega (
          arith,
          h.own_stored r,
          total-keep (λ row. row.envelope_bytes) p (own_rows r s.messages),
        ));
    own_count = λ r.
        rw (keep_comm (λ row. row.receiver == r) p s.messages)
          (omega (arith, h.own_count r, length-keep p (own_rows r s.messages)));
    rates = h.rates;
  }

  -- A measure of a receiver's rows, after one row more.
  one_more :
      (measure : List (Row E) → ℕ) (bound r : ℕ) (rows : List (Row E)) (row : Row E)
      → ((xs ys : List (Row E)) → measure (xs ++ ys) ≡ measure xs + measure ys)
      → measure (own_rows r rows) ≤ bound
      → measure (own_rows row.receiver rows) + measure (row ∷ []) ≤ bound
      → measure (own_rows r (rows ++ row ∷ [])) ≤ bound
  one_more measure bound r rows row adds before after =
      let split = keep-append (λ (x : Row E). x.receiver == r) rows (row ∷ []) in
      elim (Bool-cases (row.receiver == r)) [
        | inl same ↦ rw (split, same, adds, ← (==_iff row.receiver r).0 same) after
        | inr other ↦ rw (split, other, ++-nil (own_rows r rows)) before
      ]

  append-Within :
      (s : SqliteMailboxStore E) (row : Row E)
      → Within s
      → stored s.messages + row.envelope_bytes ≤ limits.max_total_pending_bytes
      → stored (own_rows row.receiver s.messages) + row.envelope_bytes
        ≤ limits.max_pending_bytes_per_receiver
      → length (own_rows row.receiver s.messages) + 1 ≤ limits.max_pending_messages_per_receiver
      → Within (record s { messages = s.messages ++ row ∷ [] })
  append-Within s row h a b c = record {
    all_stored =
        omega (arith, a, total-append (λ (x : Row E). x.envelope_bytes) s.messages (row ∷ []));
    own_stored = λ r.
        one_more (total (λ x. x.envelope_bytes)) _ r s.messages row
          (total-append (λ (x : Row E). x.envelope_bytes)) (h.own_stored r) (omega (arith, b));
    own_count =
        λ r. one_more length _ r s.messages row length-append (h.own_count r) (omega (arith, c));
    rates = h.rates;
  }

  drop_old-All :
      (bound current : ℕ) (rates : Rates)
      → All (λ (_, _, n). n ≤ bound) rates
      → All (λ (_, _, n). n ≤ bound) (drop_old current rates)
  unfolding drop_old
  drop_old-All bound current [] h = tt
  drop_old-All bound current ((s, k, n) ∷ rates) h = elim (Bool-cases (ltb (k + 1) current)) [
    | inl old ↦ rw old (drop_old-All bound current rates h.1)
    | inr new ↦ rw new (h.0, drop_old-All bound current rates h.1)
  ]

  set_count-All :
      (bound s m n : ℕ) (rates : Rates)
      → n ≤ bound
      → All (λ (_, _, n). n ≤ bound) rates
      → All (λ (_, _, n). n ≤ bound) (set_count s m n rates)
  unfolding set_count
  set_count-All bound s m n [] le h = (le, tt)
  set_count-All bound s m n ((a, k, old) ∷ rates) le h = elim (Bool-cases ((a == s) && (k == m))) [
    | inl same ↦ rw same (le, h.1)
    | inr other ↦ rw other (h.0, set_count-All bound s m n rates le h.1)
  ]

  with_rates :
      (s : SqliteMailboxStore E) (rates : Rates)
      → Within s
      → All (λ (_, _, n). n ≤ limits.rate_limit_per_minute) rates
      → Within (record s { rate_limits = rates })
  with_rates s rates h few = record {
    all_stored = h.all_stored;
    own_stored = h.own_stored;
    own_count = h.own_count;
    rates = few;
  }

  allow_send-Within :
      (now sender : ℕ) (s : SqliteMailboxStore E)
      → Within s
      → Within (Sqlite.allow_send bytes limits now sender s).1
  unfolding Sqlite.allow_send
  allow_send-Within now sender s h =
      let rates = drop_old (minute now) s.rate_limits in
      let few = drop_old-All limits.rate_limit_per_minute (minute now) s.rate_limits h.rates in
      let count = count_of sender (minute now) rates in
      elim (Bool-cases (leb limits.rate_limit_per_minute count)) [
        | inl full ↦ rw full (with_rates s rates h few)
        | inr room ↦ rw room (
            with_rates s _ h (
              set_count-All limits.rate_limit_per_minute sender (minute now) (count + 1) rates
                (ground (arith, room)) few))
      ]

  put-Within :
      (now i r : ℕ) (e : E) (size : Option ℕ) (s : SqliteMailboxStore E)
      → Within s
      → Within (Sqlite.put bytes limits now i r e size s).1
  unfolding Sqlite.put purge_messages
  put-Within now i r e size s h =
      let kept = keep-Within (λ row. alive limits now row.stored_at) s h in
      let rows = purge_messages bytes limits now s.messages in
      let n = size_passed bytes e size in
      let row : Row E = record {
        delivery_id = i;
        receiver = r;
        envelope = e;
        stored_at = now;
        envelope_bytes = n;
      } in
      let own = stored (own_rows r rows) in
      elim (Bool-cases (leb limits.max_pending_messages_per_receiver (length (own_rows r rows)))) [
        | inl full ↦ rw full h
        | inr room ↦ elim (Bool-cases (ltb limits.max_pending_bytes_per_receiver (own + n))) [
          | inl full ↦ rw (room, full) h
          | inr fits ↦ elim (Bool-cases (ltb limits.max_total_pending_bytes (stored rows + n))) [
            | inl full ↦ rw (room, fits, full) h
            | inr goes ↦
                rw (room, fits, goes)
                  (append-Within (record s { messages = rows }) row kept (ground (arith, goes))
                    (ground (arith, fits)) (ground (arith, room)))
          ]
        ]
      ]

  ack-Within :
      (now r i : ℕ) (s : SqliteMailboxStore E)
      → Within s
      → Within (Sqlite.ack bytes limits now r i s).1
  unfolding Sqlite.ack
  ack-Within now r i s h =
      keep-Within (λ row. not ((row.receiver == r) && (row.delivery_id == i))) s h

  stats-Within :
      (now : ℕ) (s : SqliteMailboxStore E)
      → Within s
      → Within (Sqlite.pending_stats bytes limits now s).1
  unfolding Sqlite.pending_stats purge_messages
  stats-Within now s h = keep-Within (λ row. alive limits now row.stored_at) s h

  fetch-Within :
      (codec : CursorCodec) (now r limit : ℕ) (cursor : Option codec.Cursor)
      (s : SqliteMailboxStore E)
      → Within s
      → Within (Sqlite.fetch bytes limits now codec r limit cursor s).1
  unfolding Sqlite.fetch purge_messages
  fetch-Within codec now r limit none s h = keep-Within (λ row. alive limits now row.stored_at) s h
  fetch-Within codec now r limit (some c) s h = elim (Option-cases (codec.decode c)) [
    | inl bad ↦ rw (bad, Sqlite.fetch) h
    | inr (key, good) ↦
        rw (good, Sqlite.fetch) (keep-Within (λ row. alive limits now row.stored_at) s h)
  ]

  step-Within :
      (codec : CursorCodec) (now : ℕ) (op : Op E codec.Cursor) (s : SqliteMailboxStore E)
      → Within s
      → Within (sqlite_step bytes limits codec now op s).1
  unfolding sqlite_step
  step-Within codec now (call_allow_send sender) s h = allow_send-Within now sender s h
  step-Within codec now (call_put i r e size) s h = put-Within now i r e size s h
  step-Within codec now (call_fetch r limit c) s h = fetch-Within codec now r limit c s h
  step-Within codec now (call_ack r i) s h = ack-Within now r i s h
  step-Within codec now call_pending_stats s h = stats-Within now s h

  run-Within :
      (codec : CursorCodec) (history : History bytes limits codec) (s : SqliteMailboxStore E)
      → Within s
      → Within (sqlite_run bytes limits codec history s)
  unfolding sqlite_run
  run-Within codec [] s h = h
  run-Within codec ((now, op) ∷ rest) s h =
      run-Within codec rest (sqlite_step bytes limits codec now op s).1
        (step-Within codec now op s h)

  -- After any calls on a new SQLite store, whatever their times, sizes and cursors, the bytes that
  -- are stored are within the capacity, those of a receiver and the number of its messages are
  -- within theirs, and no counter of sent messages is above the rate limit.
  pub store-Within :
      (codec : CursorCodec) (history : History bytes limits codec)
      → Within (sqlite_run bytes limits codec history (new_sqlite bytes limits codec))
  store-Within codec history = run-Within codec history _ (record {
    all_stored = omega arith;
    own_stored = λ r. omega arith;
    own_count = λ r. omega arith;
    rates = tt;
  })
