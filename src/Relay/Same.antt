-- ===== src/Relay/Same.antt =====
-- When the two stores of services/relay/relay/store.py hold the same, and that every operation
-- keeps it so.
use enishi.Prelude.{
  ℕ, ◌+◌, ◌≤◌, ◌≡◌, refl, sym, ◌∙◌, ap, Bool, ◌&&◌, List, [], ◌∷◌, ◌++◌, keep, keep-keep, length,
  total, total_one, All, arith, ◌==◌, if◌then◌else◌,
}
use enishi.Relay.Types.{StoredMessage, Limits, minute, Rates, count_of, set_count, drop_old}
use enishi.Relay.Memory
use enishi.Relay.Memory.{
  MailboxStore, Boxes, get_box, set_box, append_box, purge_boxes, all_messages,
}
use enishi.Relay.Sqlite.{SqliteMailboxStore, Row, message_of, rows_of, purge_messages}
use enishi.Relay.Boxes.{
  live, get_box-purge_boxes, Distinct, purge_boxes-Distinct, rows_of-purge_messages, total-own,
  length-own, Twins, total-Twins,
}

pub count_of-drop_old :
    (current s m : ℕ) (rates : Rates)
    → current ≤ m + 1
    → count_of s m (drop_old current rates) ≡ count_of s m rates
unfolding count_of drop_old
count_of-drop_old current s m [] h = refl
count_of-drop_old current s m ((a, k, n) ∷ rates) h =
    ground (arith, count_of-drop_old current s m rates h)

pub count_of-set_count :
    (s m n a k : ℕ) (rates : Rates)
    → count_of a k (set_count s m n rates)
      ≡ (if (s == a) && (m == k) then n else count_of a k rates)
unfolding count_of set_count
count_of-set_count s m n a k [] = ground arith
count_of-set_count s m n a k ((b, j, old) ∷ rates) =
    ground (arith, count_of-set_count s m n a k rates)

module _ {E : Type 0} (bytes : E → ℕ) (limits : Limits) where
  abbrev pub Sized : List (Row E) → Type 0
  Sized = All (λ row. row.envelope_bytes ≡ bytes row.envelope)

  pub keep-Sized : (p : Row E → Bool) (rows : List (Row E)) → Sized rows → Sized (keep p rows)
  keep-Sized p [] h = tt
  keep-Sized p (row ∷ rows) h = ground (arith, keep-Sized p rows h.1)

  pub append-Sized :
      (rows : List (Row E)) (row : Row E)
      → Sized rows
      → row.envelope_bytes ≡ bytes row.envelope
      → Sized (rows ++ row ∷ [])
  append-Sized [] row h e = (e, tt)
  append-Sized (x ∷ rows) row h e = (h.0, append-Sized rows row h.1 e)

  abbrev size_of : StoredMessage E → ℕ
  size_of m = bytes m.envelope

  total-Sized :
      (rows : List (Row E))
      → Sized rows
      → total (λ row. row.envelope_bytes) rows ≡ total (λ row. size_of (message_of row)) rows
  total-Sized [] h = refl
  total-Sized (row ∷ rows) h = omega (arith, h.0, total-Sized rows h.1)

  -- At a time: the same living messages for every receiver, in the same order; no receiver twice;
  -- the stored sizes are the envelopes'; and the same counts for the minutes that still matter.
  pub record Same (time : ℕ) (mem : MailboxStore E) (sql : SqliteMailboxStore E) : Type 0 where
    pub boxes :
        (r : ℕ)
        → keep (live limits time) (get_box r mem.mailboxes)
          ≡ keep (live limits time) (rows_of r sql.messages)
    pub distinct : Distinct mem.mailboxes
    pub sizes : Sized sql.messages
    pub counts :
        (s m : ℕ) → minute time ≤ m + 1 → count_of s m mem.rate ≡ count_of s m sql.rate_limits

  -- What lives later lives now.
  keep_later :
      (time now : ℕ) (xs : List (StoredMessage E))
      → time ≤ now
      → keep (live limits now) (keep (live limits time) xs) ≡ keep (live limits now) xs
  keep_later time now [] h = refl
  keep_later time now (x ∷ xs) h = ground (arith, keep_later time now xs h)

  minute_mono : (a b : ℕ) → a ≤ b → minute a ≤ minute b
  unfolding minute
  minute_mono a b h = omega arith

  pub Same-later :
      (time now : ℕ) (mem : MailboxStore E) (sql : SqliteMailboxStore E)
      → time ≤ now
      → Same time mem sql
      → Same now mem sql
  Same-later time now mem sql le h = record {
    boxes = λ r.
        sym (keep_later time now (get_box r mem.mailboxes) le)
        ∙ ap (keep (live limits now)) (h.boxes r)
        ∙ keep_later time now (rows_of r sql.messages) le;
    distinct = h.distinct;
    sizes = h.sizes;
    counts = λ s m p. h.counts s m (omega (arith, minute_mono time now le));
  }

  module _ (now : ℕ) (mem : MailboxStore E) (sql : SqliteMailboxStore E)
      (h : Same now mem sql) where
    abbrev pub cleared : Boxes E
    cleared = purge_boxes limits now mem.mailboxes

    abbrev pub kept_rows : List (Row E)
    kept_rows = purge_messages bytes limits now sql.messages

    pub cleared-Twins : Twins cleared kept_rows
    cleared-Twins r =
        get_box-purge_boxes limits now r mem.mailboxes
        ∙ h.boxes r
        ∙ sym (rows_of-purge_messages bytes limits now r sql.messages)

    pub cleared-Distinct : Distinct cleared
    cleared-Distinct = purge_boxes-Distinct limits now mem.mailboxes h.distinct

    kept_rows-Sized : Sized kept_rows
    unfolding purge_messages
    kept_rows-Sized = keep-Sized _ sql.messages h.sizes

    pub Same-cleared :
        Same now (Memory.purge bytes limits now mem) (record sql { messages = kept_rows })
    unfolding Memory.purge
    Same-cleared = record {
      boxes = λ r. ap (keep (live limits now)) (cleared-Twins r);
      distinct = cleared-Distinct;
      sizes = kept_rows-Sized;
      counts = λ s m p. count_of-drop_old (minute now) s m mem.rate p ∙ h.counts s m p;
    }

    -- One side may purge alone.
    pub Same-cleared_memory : Same now (Memory.purge bytes limits now mem) sql
    unfolding Memory.purge
    Same-cleared_memory = record {
      boxes = λ r.
          ap (keep (live limits now)) (get_box-purge_boxes limits now r mem.mailboxes)
          ∙ keep-keep (live limits now) (get_box r mem.mailboxes)
          ∙ h.boxes r;
      distinct = cleared-Distinct;
      sizes = h.sizes;
      counts = λ s m p. count_of-drop_old (minute now) s m mem.rate p ∙ h.counts s m p;
    }

    pub own_length :
        (r : ℕ) → length (keep (λ row. row.receiver == r) kept_rows) ≡ length (get_box r cleared)
    own_length r = length-own r kept_rows ∙ ap length (sym (cleared-Twins r))

    pub own_bytes :
        (r : ℕ)
        → total (λ row. row.envelope_bytes) (keep (λ row. row.receiver == r) kept_rows)
          ≡ total size_of (get_box r cleared)
    own_bytes r =
        total-Sized _ (keep-Sized _ kept_rows kept_rows-Sized)
        ∙ total-own size_of r kept_rows
        ∙ ap (total size_of) (sym (cleared-Twins r))

    pub all_bytes :
        total (λ row. row.envelope_bytes) kept_rows ≡ total size_of (all_messages cleared)
    all_bytes =
        total-Sized kept_rows kept_rows-Sized
        ∙ sym (total-Twins size_of cleared kept_rows cleared-Distinct cleared-Twins)

    pub all_length : length kept_rows ≡ length (all_messages cleared)
    all_length =
        sym (total_one kept_rows)
        ∙ sym (total-Twins (λ _. 1) cleared kept_rows cleared-Distinct cleared-Twins)
        ∙ total_one (all_messages cleared)
