-- ===== src/Relay/Types.antt =====
-- The data of services/relay/relay/store.py. Agents and deliveries are texts that are compared
-- only: a delivery id is 32 hexadecimal digits, whose order is that of the number. The clock counts
-- microseconds, and is read once by each operation. An envelope is what the caller stores; `bytes`
-- is the length of its compact JSON.
use enishi.Prelude.{
  ℕ, ◌+◌, ◌*◌, ◌/◌, ◌≡◌, Bool, not, ◌&&◌, ◌||◌, Option, none, some, List, [], ◌∷◌, keep, ltb, leb,
  ◌==◌, if◌then◌else◌,
}

pub record StoredMessage (E : Type 0) : Type 0 where
  pub delivery_id : ℕ
  pub envelope : E
  pub stored_at : ℕ

pub record Limits : Type 0 where
  pub ttl_seconds : ℕ
  pub rate_limit_per_minute : ℕ
  pub max_pending_messages_per_receiver : ℕ
  pub max_pending_bytes_per_receiver : ℕ
  pub max_total_pending_bytes : ℕ

-- The scope of `MailboxCapacityExceeded`.
pub data Scope : Type 0 where
  receiver_messages receiver_bytes total_bytes : Scope

pub data PutResult : Type 0 where
  delivered : ℕ → PutResult
  exceeded : Scope → PutResult

-- A cursor is base64 of the JSON of a time and a delivery id: both libraries are parameters here,
-- and decoding gives back what was encoded.
pub record CursorCodec : Type 1 where
  pub Cursor : Type 0
  pub encode : ℕ → ℕ → Cursor
  pub decode : Cursor → Option (ℕ × ℕ)
  pub decode-encode : (t i : ℕ) → decode (encode t i) ≡ some (t, i)

-- `fetch` returns a page, or raises `ValueError`, or `IndexError` for the last item of no item.
pub data FetchResult (E C : Type 0) : Type 0 where
  page : List (StoredMessage E) → Option C → FetchResult E C
  invalid_cursor : FetchResult E C
  index_error : FetchResult E C

abbrev pub microseconds : ℕ → ℕ
microseconds seconds = seconds * 1000000

-- `int(now // 60)`
unfoldable pub minute : ℕ → ℕ
minute now = now / 60000000

-- The rate limit counters: a sender and a minute, and the count.
abbrev pub Rates : Type 0
Rates = List (ℕ × ℕ × ℕ)

unfoldable pub count_of : ℕ → ℕ → Rates → ℕ
count_of sender m [] = 0
count_of sender m ((s, k, n) ∷ rest) =
    if (s == sender) && (k == m) then n else count_of sender m rest

unfoldable pub set_count : ℕ → ℕ → ℕ → Rates → Rates
set_count sender m n [] = (sender, m, n) ∷ []
set_count sender m n ((s, k, old) ∷ rest) =
    if (s == sender) && (k == m)
    then (sender, m, n) ∷ rest
    else (s, k, old) ∷ set_count sender m n rest

-- The counters of the minutes before the last one are dropped.
unfoldable pub drop_old : ℕ → Rates → Rates
drop_old current rates = keep (λ (s, k, n). not (ltb (k + 1) current)) rates

-- What was stored then is still within its time to live.
abbrev pub alive : Limits → ℕ → ℕ → Bool
alive limits now stored_at = ltb now (stored_at + microseconds limits.ttl_seconds)

module _ {E : Type 0} where
  -- `(a.stored_at, a.delivery_id) <= (b.stored_at, b.delivery_id)`
  abbrev pub key_leb : StoredMessage E → StoredMessage E → Bool
  key_leb a b =
      ltb a.stored_at b.stored_at || (a.stored_at == b.stored_at && leb a.delivery_id b.delivery_id)

  abbrev pub place : StoredMessage E → List (StoredMessage E) → List (StoredMessage E)
  place m [] = m ∷ []
  place m (x ∷ xs) = let later = place m xs in if key_leb m x then m ∷ x ∷ xs else x ∷ later

  -- `sorted(messages, key=...)`, which is stable.
  abbrev pub sort_messages : List (StoredMessage E) → List (StoredMessage E)
  sort_messages [] = []
  sort_messages (x ∷ xs) = place x (sort_messages xs)

  -- `(message.stored_at, message.delivery_id) > cursor_key`
  abbrev pub after_key : ℕ × ℕ → StoredMessage E → Bool
  after_key (t, i) m = ltb t m.stored_at || (m.stored_at == t && ltb i m.delivery_id)

  abbrev pub last? : List (StoredMessage E) → Option (StoredMessage E)
  last? [] = none
  last? (x ∷ []) = some x
  last? (x ∷ y ∷ rest) = last? (y ∷ rest)
