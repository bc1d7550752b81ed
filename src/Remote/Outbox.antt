-- ===== src/Remote/Outbox.antt =====
-- `flush_outbox` of services/remote_negotiation.py: what is pending is sent in the order in which it
-- was created, up to the first message that the Relay does not take.
use enishi.Prelude.{
  ℕ, ◌+◌, ◌-◌, Bool, true, false, some, List, [], ◌∷◌, length, keep, if◌then◌else◌,
}
use enishi.Exec.{Db}
use enishi.Remote.Types.{OutboxStatus, Envelope, RelayOutbox, Tables}

abbrev pub is_pending : OutboxStatus → Bool
is_pending OutboxStatus.pending = true
is_pending OutboxStatus.sent = false

pub record FlushCounts : Type 0 where
  pub sent : ℕ
  pub failed : ℕ
  pub pending : ℕ

abbrev pub has_any : {A : Type 0} → List A → Bool
has_any [] = false
has_any (x ∷ xs) = true

-- The rows as the loop leaves them, what it sent, and how often sending failed.
pub record Flushed (J : Type 0) : Type 0 where
  pub rows : List (RelayOutbox J)
  pub sent : List (Envelope J)
  pub failed : ℕ

module _ {J : Type 0} where
  abbrev pub attempted : RelayOutbox J → RelayOutbox J
  attempted row = record row { attempts = row.attempts + 1 }

  abbrev pub delivered : ℕ → RelayOutbox J → RelayOutbox J
  delivered now row = record row {
    attempts = row.attempts + 1;
    status = OutboxStatus.sent;
    sent_at = some now;
  }

  abbrev pub kept_before : RelayOutbox J → Flushed J → Flushed J
  kept_before row f = record f { rows = row ∷ f.rows }

  abbrev pub sent_before : ℕ → RelayOutbox J → Flushed J → Flushed J
  sent_before now row f = record f {
    rows = delivered now row ∷ f.rows;
    sent = row.envelope ∷ f.sent;
  }

  abbrev pub stopped_at : RelayOutbox J → List (RelayOutbox J) → Flushed J
  stopped_at row rows = record { rows = attempted row ∷ rows; sent = []; failed = 1 }

  -- `relay.send` returns for the envelopes that `accepts` says, and raises for the others.
  unfoldable pub flush_rows : (Envelope J → Bool) → ℕ → List (RelayOutbox J) → Flushed J
  flush_rows accepts now [] = record { rows = []; sent = []; failed = 0 }
  flush_rows accepts now (row ∷ rows) =
      let rest = flush_rows accepts now rows in
      if is_pending row.status
      then (if accepts row.envelope then sent_before now row rest else stopped_at row rows)
      else kept_before row rest

  abbrev pub pending_rows : List (RelayOutbox J) → List (RelayOutbox J)
  pending_rows rows = keep (λ (row : RelayOutbox J). is_pending row.status) rows

module _ {J C : Type 0} where
  -- Each attempt is committed; where nothing is pending, nothing is.
  abbrev pub flushed_db : Flushed J → Db (Tables J C) → Db (Tables J C)
  flushed_db f db =
      let tables = record db.working { outbox = f.rows } in
      record { committed = tables; working = tables }

  unfoldable pub flush_outbox :
      (Envelope J → Bool) → ℕ → Db (Tables J C) → FlushCounts × List (Envelope J) × Db (Tables J C)
  unfolding flush_rows
  flush_outbox accepts now db =
      let waiting = pending_rows db.working.outbox in
      let f = flush_rows accepts now db.working.outbox in
      let counts : FlushCounts = record {
        sent = length f.sent;
        failed = f.failed;
        pending = length waiting - length f.sent;
      } in
      (counts, f.sent, if has_any waiting then flushed_db f db else db)
