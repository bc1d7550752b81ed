-- ===== src/Remote/Sending.antt =====
-- `flush_outbox` of services/remote_negotiation.py: nothing is lost, nothing is sent twice, and the
-- order is kept.
use enishi.Prelude.{
  ℕ, ◌+◌, ◌-◌, ◌≡◌, refl, sym, ap, subst, ◌∙◌, Bool, true, false, List, [], ◌∷◌, ◌++◌, length,
  length-append, arith, if-intro, if◌then◌else◌,
}
use enishi.Exec.{Db}
use enishi.Remote.Types.{Envelope, RelayOutbox, Tables}
use enishi.Remote.Outbox.{
  is_pending, Flushed, flush_rows, pending_rows, attempted, flush_outbox, flushed_db, has_any,
}

module _ {J : Type 0} where
  -- The messages that wait, in the order of the outbox.
  abbrev pub waiting : List (RelayOutbox J) → List (Envelope J)
  waiting [] = []
  waiting (row ∷ rows) =
      let rest = waiting rows in if is_pending row.status then row.envelope ∷ rest else rest

  -- The loop stops at the first message that the Relay does not take.
  abbrev pub Stopped : (Envelope J → Bool) → List (Envelope J) → ℕ → Type 0
  Stopped accepts [] failed = failed ≡ 0
  Stopped accepts (e ∷ es) failed = (accepts e ≡ false) × (failed ≡ 1)

  abbrev pub AllTaken : (Envelope J → Bool) → List (Envelope J) → Type 0
  AllTaken accepts [] = Unit
  AllTaken accepts (e ∷ es) = (accepts e ≡ true) × AllTaken accepts es

  -- What waited was sent, or waits still; and what was sent was taken.
  pub record Exact (accepts : Envelope J → Bool) (before sent after : List (Envelope J))
      (failed : ℕ) : Type 0 where
    pub order : before ≡ sent ++ after
    pub taken : AllTaken accepts sent
    pub stopped : Stopped accepts after failed

  waiting_pending :
      (row : RelayOutbox J) (rows : List (RelayOutbox J))
      → is_pending row.status ≡ true
      → waiting (row ∷ rows) ≡ row.envelope ∷ waiting rows
  waiting_pending row rows h = rw h refl

  waiting_sent :
      (row : RelayOutbox J) (rows : List (RelayOutbox J))
      → is_pending row.status ≡ false
      → waiting (row ∷ rows) ≡ waiting rows
  waiting_sent row rows h = rw h refl

  flush_rows-Exact :
      (accepts : Envelope J → Bool) (now : ℕ) (rows : List (RelayOutbox J))
      → let f = flush_rows accepts now rows in
        Exact accepts (waiting rows) f.sent (waiting f.rows) f.failed
  unfolding flush_rows
  flush_rows-Exact accepts now [] = record { order = refl; taken = tt; stopped = refl }
  flush_rows-Exact accepts now (row ∷ rows) =
      let rest = flush_rows accepts now rows in
      let h = flush_rows-Exact accepts now rows in
      let P =
        λ (f : Flushed J). Exact accepts (waiting (row ∷ rows)) f.sent (waiting f.rows) f.failed in
      if-intro P (is_pending row.status)
        (λ p.
          if-intro P (accepts row.envelope)
            (λ t. record {
              order = waiting_pending row rows p ∙ ap (λ l. row.envelope ∷ l) h.order;
              taken = (t, h.taken);
              stopped = h.stopped;
            })
            (λ t. record {
              order = waiting_pending row rows p ∙ sym (waiting_pending (attempted row) rows p);
              taken = tt;
              stopped =
                  subst (λ l. Stopped accepts l 1) (sym (waiting_pending (attempted row) rows p))
                    (t, refl);
            }))
        (λ p. record {
          order =
              waiting_sent row rows p
              ∙ h.order
              ∙ ap (λ l. rest.sent ++ l) (sym (waiting_sent row rest.rows p));
          taken = h.taken;
          stopped =
              subst (λ l. Stopped accepts l rest.failed) (sym (waiting_sent row rest.rows p))
                h.stopped;
        })

  length-waiting :
      (rows : List (RelayOutbox J)) → length (pending_rows rows) ≡ length (waiting rows)
  length-waiting [] = refl
  length-waiting (row ∷ rows) = ground (arith, length-waiting rows)

  waiting_none :
      (rows : List (RelayOutbox J)) → has_any (pending_rows rows) ≡ false → waiting rows ≡ []
  waiting_none rows h = empty_too (pending_rows rows) (waiting rows) h (length-waiting rows)
    where
      empty_too :
          {A B : Type 0} (xs : List A) (ys : List B)
          → has_any xs ≡ false
          → length xs ≡ length ys
          → ys ≡ []
      empty_too [] [] h e = refl
      empty_too [] (y ∷ ys) h e = cc
      empty_too (x ∷ xs) ys h e = cc

  both_empty : (xs ys : List (Envelope J)) → [] ≡ xs ++ ys → (xs ≡ []) × (ys ≡ [])
  both_empty [] ys h = (refl, sym h)
  both_empty (x ∷ xs) ys h = cc

  -- Where nothing waits the loop does nothing, and leaves nothing.
  idle-Exact :
      (accepts : Envelope J → Bool) (rows : List (RelayOutbox J)) (f : Flushed J)
      → waiting rows ≡ []
      → Exact accepts (waiting rows) f.sent (waiting f.rows) f.failed
      → Exact accepts (waiting rows) f.sent (waiting rows) f.failed
  idle-Exact accepts rows f none h =
      let left = both_empty f.sent (waiting f.rows) (sym none ∙ h.order) in
      subst (λ l. Exact accepts (waiting rows) f.sent l f.failed) (left.1 ∙ sym none) h

module _ {J C : Type 0} where
  -- Of the messages that wait, a first part is sent, in order, each taken by the Relay, and the rest
  -- waits still, in the same order; the rest is empty, or its first message is one that the Relay did
  -- not take, and then one failure is reported. The counts are those of the sent and of the rest.
  pub flush_outbox-Exact :
      (accepts : Envelope J → Bool) (now : ℕ) (db : Db (Tables J C))
      → Exact accepts
          (waiting db.working.outbox)
          (flush_outbox accepts now db).1
          (waiting (flush_outbox accepts now db).2.working.outbox)
          (flush_outbox accepts now db).0.failed
        × ((flush_outbox accepts now db).0.sent ≡ length (flush_outbox accepts now db).1)
        × ((flush_outbox accepts now db).0.pending
            ≡ length (waiting (flush_outbox accepts now db).2.working.outbox))
  unfolding flush_outbox
  flush_outbox-Exact accepts now db =
      let rows = db.working.outbox in
      let f = flush_rows accepts now rows in
      let h = flush_rows-Exact accepts now rows in
      let P = λ (d : Db (Tables J C)).
        Exact accepts (waiting rows) f.sent (waiting d.working.outbox) f.failed in
      let exact : P (if has_any (pending_rows rows) then flushed_db f db else db) =
        if-intro P (has_any (pending_rows rows)) (λ _. h)
          (λ e. idle-Exact accepts rows f (waiting_none rows e) h) in
      (
        exact,
        refl,
        count (pending_rows rows) f.sent _
            (length-waiting rows ∙ ap length exact.order ∙ length-append f.sent _),
      )
    where
      count :
          (xs : List (RelayOutbox J)) (sent after : List (Envelope J))
          → length xs ≡ length sent + length after
          → length xs - length sent ≡ length after
      count xs sent after h = omega (arith, h)
