-- ===== src/Relay/Runs.antt =====
-- A store of services/relay/relay/store.py seen from main.py: a history of calls, each at a time, and
-- the replies. `MailboxBackend` promises one behaviour, and both stores have it.
use enishi.Prelude.{ℕ, ◌≤◌, ◌<◌, ◌≡◌, refl, ap, Bool, Option, List, [], ◌∷◌}
use enishi.Relay.Types.{Limits, CursorCodec, FetchResult, PutResult}
use enishi.Relay.Memory
use enishi.Relay.Memory.{MailboxStore}
use enishi.Relay.Sqlite
use enishi.Relay.Sqlite.{SqliteMailboxStore}
use enishi.Relay.Same.{Same, Same-later}
use enishi.Relay.Agree.{
  Agree, size_passed, allow_send-Agree, pending_stats-Agree, put-Agree, ack-Same, fetch-Agree,
}

-- The calls. `uuid4` gives the delivery id of a `put`, so a history names it.
pub data Op (E C : Type 0) : Type 0 where
  call_allow_send : ℕ → Op E C
  call_put : ℕ → ℕ → E → Option ℕ → Op E C
  call_fetch : ℕ → ℕ → Option C → Op E C
  call_ack : ℕ → ℕ → Op E C
  call_pending_stats : Op E C

-- What a caller sees. The reply to an `ack` is left out: of an expired message the one store may
-- know no more what the other still finds.
pub data Reply (E C : Type 0) : Type 0 where
  allowed : Bool → Reply E C
  put_reply : PutResult → Reply E C
  fetched : FetchResult E C → Reply E C
  acknowledged : Reply E C
  stats : ℕ × ℕ → Reply E C

module _ {E : Type 0} (bytes : E → ℕ) (limits : Limits) (codec : CursorCodec) where
  open codec use {Cursor}

  unfoldable pub memory_step : ℕ → Op E Cursor → MailboxStore E → Reply E Cursor × MailboxStore E
  memory_step now (call_allow_send sender) s =
      let (b, s') = Memory.allow_send bytes limits now sender s in (allowed b, s')
  memory_step now (call_put i r e size) s =
      let (p, s') = Memory.put bytes limits now i r e size s in (put_reply p, s')
  memory_step now (call_fetch r limit c) s =
      let (f, s') = Memory.fetch bytes limits now codec r limit c s in (fetched f, s')
  memory_step now (call_ack r i) s = (acknowledged, (Memory.ack bytes limits now r i s).1)
  memory_step now call_pending_stats s =
      let (n, s') = Memory.pending_stats bytes limits now s in (stats n, s')

  unfoldable pub sqlite_step :
      ℕ → Op E Cursor → SqliteMailboxStore E → Reply E Cursor × SqliteMailboxStore E
  sqlite_step now (call_allow_send sender) s =
      let (b, s') = Sqlite.allow_send bytes limits now sender s in (allowed b, s')
  sqlite_step now (call_put i r e size) s =
      let (p, s') = Sqlite.put bytes limits now i r e size s in (put_reply p, s')
  sqlite_step now (call_fetch r limit c) s =
      let (f, s') = Sqlite.fetch bytes limits now codec r limit c s in (fetched f, s')
  sqlite_step now (call_ack r i) s = (acknowledged, (Sqlite.ack bytes limits now r i s).1)
  sqlite_step now call_pending_stats s =
      let (n, s') = Sqlite.pending_stats bytes limits now s in (stats n, s')

  abbrev pub History : Type 0
  History = List (ℕ × Op E Cursor)

  unfoldable pub memory_replies : History → MailboxStore E → List (Reply E Cursor)
  memory_replies [] s = []
  memory_replies ((now, op) ∷ rest) s =
      let (reply, s') = memory_step now op s in reply ∷ memory_replies rest s'

  unfoldable pub sqlite_replies : History → SqliteMailboxStore E → List (Reply E Cursor)
  sqlite_replies [] s = []
  sqlite_replies ((now, op) ∷ rest) s =
      let (reply, s') = sqlite_step now op s in reply ∷ sqlite_replies rest s'

  unfoldable pub sqlite_run : History → SqliteMailboxStore E → SqliteMailboxStore E
  sqlite_run [] s = s
  sqlite_run ((now, op) ∷ rest) s = sqlite_run rest (sqlite_step now op s).1

  -- A size that is passed is the envelope's, and a page has room for a message.
  abbrev pub Admissible : Op E Cursor → Type 0
  Admissible (call_put i r e size) = size_passed bytes e size ≡ bytes e
  Admissible (call_fetch r limit c) = 0 < limit
  Admissible op = Unit

  -- The clock does not go back.
  abbrev pub InOrder : ℕ → History → Type 0
  InOrder time [] = Unit
  InOrder time ((now, op) ∷ rest) = (time ≤ now) × Admissible op × InOrder now rest

  step-Agree :
      (now : ℕ) (op : Op E Cursor) (mem : MailboxStore E) (sql : SqliteMailboxStore E)
      → Admissible op
      → Same bytes limits now mem sql
      → Agree bytes limits now (Reply E Cursor) (memory_step now op mem) (sqlite_step now op sql)
  unfolding memory_step sqlite_step
  step-Agree now (call_allow_send sender) mem sql fine h =
      let (r, s) = allow_send-Agree bytes limits now mem sql h sender in (ap allowed r, s)
  step-Agree now (call_put i r e size) mem sql fine h =
      let (p, s) = put-Agree bytes limits now mem sql h i r e size fine in (ap put_reply p, s)
  step-Agree now (call_fetch r limit c) mem sql fine h =
      let (f, s) = fetch-Agree bytes limits now mem sql h codec r limit c fine in (ap fetched f, s)
  step-Agree now (call_ack r i) mem sql fine h = (refl, ack-Same bytes limits now mem sql h r i)
  step-Agree now call_pending_stats mem sql fine h =
      let (n, s) = pending_stats-Agree bytes limits now mem sql h in (ap stats n, s)

  replies_agree :
      (time : ℕ) (history : History) (mem : MailboxStore E) (sql : SqliteMailboxStore E)
      → InOrder time history
      → Same bytes limits time mem sql
      → memory_replies history mem ≡ sqlite_replies history sql
  unfolding memory_replies sqlite_replies
  replies_agree time [] mem sql order h = refl
  replies_agree time ((now, op) ∷ rest) mem sql (le, fine, order) h =
      let (reply, same) =
        step-Agree now op mem sql fine (Same-later bytes limits time now mem sql le h) in
      rw (reply, replies_agree now rest _ _ order same) refl

  abbrev pub new_memory : MailboxStore E
  new_memory = record { mailboxes = []; rate = [] }

  abbrev pub new_sqlite : SqliteMailboxStore E
  new_sqlite = record { messages = []; rate_limits = [] }

  -- From new stores on, whatever calls are made while the clock does not go back, with the
  -- envelope's own size where one is passed and with page limits that are not 0, the store in memory
  -- and the store on SQLite give the same replies: to `allow_send`, `put`, `fetch` and
  -- `pending_stats`, refusals and cursors included.
  pub stores_agree :
      (history : History)
      → InOrder 0 history
      → memory_replies history new_memory ≡ sqlite_replies history new_sqlite
  unfolding Memory.get_box Sqlite.rows_of
  stores_agree history order =
      replies_agree 0 history new_memory new_sqlite order
        (record { boxes = λ r. refl; distinct = tt; sizes = tt; counts = λ s m p. refl })
