-- ===== src/Remote/Refinement.antt =====
-- Whatever services/remote_negotiation.py does - reading its inbox, sending, resolving an approval,
-- starting a negotiation - its sessions go by the steps of the abstract session alone.
use enishi.Prelude.{ℕ, Bool, Option, List, [], ◌∷◌, All, if-intro}
use enishi.Errors.{Code, Result, ok, err}
use enishi.Exec.{Db, Exec}
use enishi.Exec.Triples.{
  Ensures, Ensures-pure, Ensures-raise, Ensures-read, Ensures-bind, Ensures-modify, Ensures-commit,
  Ensures-rollback, Ensures-attempt, Ensures-if, Ensures-option, Ensures-result, Ensures-weaken,
  Ensures-computed, Caught,
}
use enishi.Replay.{SeenMessage, check_and_record}
use enishi.Remote.Types.{Envelope, Tables}
use enishi.Remote.Domain.{Node}
use enishi.Remote.Outbox.{flush_outbox, has_any, pending_rows}
use enishi.Remote.Handle.{Action}
use enishi.Remote.Inbox.{
  Delivery, Turn, flush, store_seen, record_seen, acknowledge, reject, after_handling,
  handle_verified, process_verified, process_envelope, process_delivery, process_deliveries,
  process_inbox, is_unhandled, ttl_seconds,
}
use enishi.Remote.Machine.{Base, local}
use enishi.Remote.Answered.{Kept, Fallback}
use enishi.Remote.Handled.{handle_envelope-Kept}

module _ {J C : Type 0} (base : Base J) (node : Node J C) where
  pub flush_outbox-Kept :
      (accepts : Envelope J → Bool) (now : ℕ) (db : Db (Tables J C))
      → Kept base db
      → Kept base (flush_outbox accepts now db).2
  unfolding flush_outbox local
  flush_outbox-Kept accepts now db p =
      if-intro (Kept base) (has_any (pending_rows db.working.outbox)) (λ _. (p.1, p.1)) (λ _. p)

  -- What is to hold of the messages that were seen outlives a call at that time.
  abbrev pub Fits : Turn J → Type 0
  Fits turn =
      (message_id : ℕ) (seen : List SeenMessage)
      → base.seen seen
      → base.seen (check_and_record turn.call.now ttl_seconds message_id seen).1

  module _ (turn : Turn J) (fits : Fits turn) where
    -- A step of the loop.
    abbrev pub Keeps : {A : Type 0} → Exec (Tables J C) A → Type 0
    Keeps m = Ensures (Kept base) m (λ _. Kept base) (Kept base)

    flush-Kept : Keeps (flush node turn)
    unfolding flush
    flush-Kept = record { at = flush_outbox-Kept turn.accepts turn.call.now }

    acknowledge-Kept : Keeps (acknowledge node turn)
    unfolding acknowledge
    acknowledge-Kept = Ensures-computed _ (λ _ db p. p) (λ db p. p)

    reject-Kept : (message_id : Option ℕ) (code : Code) → Keeps (reject node turn message_id code)
    unfolding reject
    reject-Kept message_id code = Ensures-bind acknowledge-Kept λ _.
        Ensures-bind {M = λ _. Kept base} (Ensures-commit (λ db p. (p.1, p.1)))
          λ _. Ensures-pure _ (λ db p. p)

    record_seen-Kept : (e : Envelope J) → Keeps (record_seen node turn e)
    unfolding record_seen local
    record_seen-Kept e =
        Ensures-read _ (λ db p. p)
          λ fresh.
            Ensures-bind
              (Ensures-modify {Q = λ _. Kept base} (store_seen node turn e)
                (λ db p. (p.0.0, (p.0.1.0, fits e.message_id db.working.seen p.0.1.1))))
              λ _. Ensures-pure _ (λ db p. p)

    -- A message that was handled is answered; one that raised leaves what was committed.
    handled-Kept :
        (e : Envelope J) (done : Result Action)
        → Ensures
            (Caught (λ _. Kept base) (Fallback base) done)
            (after_handling node turn e done)
            (λ _. Kept base)
            (Kept base)
    unfolding after_handling
    handled-Kept e (ok action) =
        Ensures-bind flush-Kept λ _. Ensures-bind acknowledge-Kept λ _. Ensures-pure _ (λ db p. p)
    handled-Kept e (err c) =
        Ensures-bind (Ensures-rollback {Q = λ _. Kept base} (λ db p. (p, p))) λ _. reject-Kept _ _

    pub handle_verified-Kept : (e : Envelope J) → Keeps (handle_verified node turn e)
    unfolding handle_verified
    handle_verified-Kept e =
        Ensures-bind (Ensures-attempt (handle_envelope-Kept base node turn.call e)) (handled-Kept e)

    pub process_verified-Kept : (e : Envelope J) → Keeps (process_verified node turn e)
    unfolding process_verified
    process_verified-Kept e = Ensures-bind (record_seen-Kept e) λ fresh.
        Ensures-result fresh (λ _ _. handle_verified-Kept e)
          (λ _ _. Ensures-bind acknowledge-Kept λ _. Ensures-pure _ (λ db p. p))

    process_envelope-Kept : (e : Envelope J) → Keeps (process_envelope node turn e)
    unfolding process_envelope
    process_envelope-Kept e =
        Ensures-read _ (λ db p. p)
          λ peer.
            Ensures-read _ (λ db p. p.0)
              λ misaddressed.
                Ensures-weaken (λ db p. p.0.0) (λ _ db p. p) (λ db p. p)
                  (Ensures-option peer (λ _. reject-Kept _ _)
                    (λ p _.
                      Ensures-if misaddressed (λ _. reject-Kept _ _)
                        (λ _.
                          Ensures-result (node.verify_envelope turn.call.now e p.public_key)
                            (λ _ _. process_verified-Kept e)
                            (λ c _.
                              Ensures-if (is_unhandled c) (λ _. Ensures-raise c (λ db p. p))
                                (λ _. reject-Kept _ _)))))

    process_delivery-Kept : (d : Delivery J) → Keeps (process_delivery node turn d)
    unfolding process_delivery
    process_delivery-Kept d =
        Ensures-option d.delivery_id
          (λ _.
            Ensures-bind {M = λ _. Kept base} (Ensures-commit (λ db p. (p.1, p.1)))
              λ _. Ensures-pure _ (λ db p. p))
          (λ _ _. Ensures-option d.envelope (λ _. reject-Kept _ _) (λ e _. process_envelope-Kept e))

  process_deliveries-Kept :
      (deliveries : List (Turn J × Delivery J))
      → All (λ (d : Turn J × Delivery J). Fits d.0) deliveries
      → Ensures (Kept base) (process_deliveries node deliveries) (λ _. Kept base) (Kept base)
  unfolding process_deliveries
  process_deliveries-Kept [] all = Ensures-pure [] (λ db p. p)
  process_deliveries-Kept ((turn, d) ∷ deliveries) (fits, all) =
      Ensures-bind (process_delivery-Kept turn fits d) λ result.
        Ensures-bind (process_deliveries-Kept deliveries all) λ results. Ensures-pure _ (λ db p. p)

  pub process_inbox-Kept :
      (deliveries : List (Turn J × Delivery J))
      → All (λ (d : Turn J × Delivery J). Fits d.0) deliveries
      → Ensures (Kept base) (process_inbox node deliveries) (λ _. Kept base) (Kept base)
  unfolding process_inbox
  process_inbox-Kept deliveries all =
      Ensures-bind (process_deliveries-Kept deliveries all) λ results.
        Ensures-if (has_any results)
          (λ _.
            Ensures-bind {M = λ _. Kept base} (Ensures-commit (λ db p. (p.1, p.1)))
              λ _. Ensures-pure _ (λ db p. p))
          (λ _. Ensures-pure _ (λ db p. p))
