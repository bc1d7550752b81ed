-- ===== src/Relay/Boxes.antt =====
-- How the updates of the two stores of services/relay/relay/store.py show in what a receiver has.
use enishi.Prelude.{
  ℕ, ◌≡◌, refl, sym, ◌∙◌, ap, Bool, false, not, ◌&&◌, inl, inr, List, [], ◌∷◌, ◌++◌, keep,
  keep-keep, length, total, total-append, total-split, arith, Bool-cases, ◌==◌, ==_iff,
  if◌then◌else◌,
}
use enishi.Relay.Types.{StoredMessage, Limits, alive}
use enishi.Relay.Memory.{Boxes, get_box, set_box, append_box, purge_boxes, all_messages}
use enishi.Relay.Sqlite.{Row, message_of, rows_of, purge_messages}

module _ {E : Type 0} where
  abbrev pub live : Limits → ℕ → StoredMessage E → Bool
  live limits now m = alive limits now m.stored_at

  pub get_box-purge_boxes :
      (limits : Limits) (now r : ℕ) (d : Boxes E)
      → get_box r (purge_boxes limits now d) ≡ keep (live limits now) (get_box r d)
  unfolding get_box purge_boxes
  get_box-purge_boxes limits now r [] = refl
  get_box-purge_boxes limits now r ((k, ms) ∷ d) =
      ground (arith, get_box-purge_boxes limits now r d)

  pub purge_boxes-purge_boxes :
      (limits : Limits) (now : ℕ) (d : Boxes E)
      → purge_boxes limits now (purge_boxes limits now d) ≡ purge_boxes limits now d
  unfolding purge_boxes
  purge_boxes-purge_boxes limits now [] = refl
  purge_boxes-purge_boxes limits now ((k, ms) ∷ d) =
      rw (keep-keep (live limits now) ms, purge_boxes-purge_boxes limits now d) refl

  pub get_box-append_box :
      (r q : ℕ) (m : StoredMessage E) (d : Boxes E)
      → get_box q (append_box r m d) ≡ (if r == q then get_box q d ++ m ∷ [] else get_box q d)
  unfolding get_box append_box
  get_box-append_box r q m [] = ground arith
  get_box-append_box r q m ((k, ms) ∷ d) = ground (arith, get_box-append_box r q m d)

  pub get_box-set_box :
      (r q : ℕ) (new : List (StoredMessage E)) (d : Boxes E)
      → get_box q (set_box r new d) ≡ (if r == q then new else get_box q d)
  unfolding get_box set_box
  get_box-set_box r q new [] = ground arith
  get_box-set_box r q new ((k, ms) ∷ d) = ground (arith, get_box-set_box r q new d)

  -- No receiver has messages under two keys.
  abbrev pub Distinct : Boxes E → Type 0
  Distinct [] = Unit
  Distinct ((k, ms) ∷ d) = (get_box k d ≡ []) × Distinct d

  pub purge_boxes-Distinct :
      (limits : Limits) (now : ℕ) (d : Boxes E) → Distinct d → Distinct (purge_boxes limits now d)
  unfolding purge_boxes
  purge_boxes-Distinct limits now [] h = tt
  purge_boxes-Distinct limits now ((k, ms) ∷ d) h = (
    get_box-purge_boxes limits now k d ∙ ap (keep (live limits now)) h.0,
    purge_boxes-Distinct limits now d h.1,
  )

  pub append_box-Distinct :
      (r : ℕ) (m : StoredMessage E) (d : Boxes E) → Distinct d → Distinct (append_box r m d)
  unfolding append_box get_box
  append_box-Distinct r m [] h = (refl, tt)
  append_box-Distinct r m ((k, ms) ∷ d) h =
      ground (arith, append_box-Distinct r m d h.1, get_box-append_box r k m d)

  pub set_box-Distinct :
      (r : ℕ) (new : List (StoredMessage E)) (d : Boxes E) → Distinct d → Distinct (set_box r new d)
  unfolding set_box get_box
  set_box-Distinct r new [] h = (refl, tt)
  set_box-Distinct r new ((k, ms) ∷ d) h =
      ground (arith, set_box-Distinct r new d h.1, get_box-set_box r k new d)

  pub rows_of-purge_messages :
      (bytes : E → ℕ) (limits : Limits) (now r : ℕ) (rows : List (Row E))
      → rows_of r (purge_messages bytes limits now rows) ≡ keep (live limits now) (rows_of r rows)
  unfolding rows_of purge_messages
  rows_of-purge_messages bytes limits now r [] = refl
  rows_of-purge_messages bytes limits now r (row ∷ rows) =
      ground (arith, rows_of-purge_messages bytes limits now r rows)

  pub rows_of-append :
      (r : ℕ) (rows : List (Row E)) (row : Row E)
      → rows_of r (rows ++ row ∷ [])
        ≡ (if row.receiver == r then rows_of r rows ++ message_of row ∷ [] else rows_of r rows)
  unfolding rows_of
  rows_of-append r [] row = ground arith
  rows_of-append r (x ∷ rows) row = ground (arith, rows_of-append r rows row)

  pub rows_of-acked :
      (r i q : ℕ) (rows : List (Row E))
      → rows_of q (keep (λ row. not ((row.receiver == r) && (row.delivery_id == i))) rows)
        ≡ (if r == q then keep (λ m. not (m.delivery_id == i)) (rows_of q rows) else rows_of q rows)
  unfolding rows_of
  rows_of-acked r i q [] = ground arith
  rows_of-acked r i q (row ∷ rows) = ground (arith, rows_of-acked r i q rows)

  -- The rows of a receiver, counted and summed, are its messages.
  pub total-own :
      (w : StoredMessage E → ℕ) (r : ℕ) (rows : List (Row E))
      → total (λ row. w (message_of row)) (keep (λ row. row.receiver == r) rows)
        ≡ total w (rows_of r rows)
  unfolding rows_of
  total-own w r [] = refl
  total-own w r (row ∷ rows) = ground (arith, total-own w r rows)

  pub length-own :
      (r : ℕ) (rows : List (Row E))
      → length (keep (λ row. row.receiver == r) rows) ≡ length (rows_of r rows)
  unfolding rows_of
  length-own r [] = refl
  length-own r (row ∷ rows) = ground (arith, length-own r rows)

  rows_of-others_self :
      (k : ℕ) (rows : List (Row E)) → rows_of k (keep (λ row. not (row.receiver == k)) rows) ≡ []
  unfolding rows_of
  rows_of-others_self k [] = refl
  rows_of-others_self k (row ∷ rows) = ground (arith, rows_of-others_self k rows)

  rows_of-others_ne :
      (k r : ℕ) (rows : List (Row E))
      → (k == r) ≡ false
      → rows_of r (keep (λ row. not (row.receiver == k)) rows) ≡ rows_of r rows
  unfolding rows_of
  rows_of-others_ne k r [] h = refl
  rows_of-others_ne k r (row ∷ rows) h = ground (arith, rows_of-others_ne k r rows h)

  -- Two representations of the same mailboxes.
  abbrev pub Twins : Boxes E → List (Row E) → Type 0
  Twins d rows = (r : ℕ) → get_box r d ≡ rows_of r rows

  get_box_head : (k : ℕ) (ms : List (StoredMessage E)) (d : Boxes E) → get_box k ((k, ms) ∷ d) ≡ ms
  unfolding get_box
  get_box_head k ms d = ground arith

  get_box_skip :
      (k r : ℕ) (ms : List (StoredMessage E)) (d : Boxes E)
      → (k == r) ≡ false
      → get_box r ((k, ms) ∷ d) ≡ get_box r d
  unfolding get_box
  get_box_skip k r ms d h = ground arith

  Twins-tail :
      (k : ℕ) (ms : List (StoredMessage E)) (d : Boxes E) (rows : List (Row E))
      → get_box k d ≡ []
      → Twins ((k, ms) ∷ d) rows
      → Twins d (keep (λ row. not (row.receiver == k)) rows)
  Twins-tail k ms d rows gone h r = elim (Bool-cases (k == r)) [
    | inl same ↦ rw (← (==_iff k r).0 same) (gone ∙ sym (rows_of-others_self k rows))
    | inr other ↦ sym (get_box_skip k r ms d other) ∙ h r ∙ sym (rows_of-others_ne k r rows other)
  ]

  no_rows : (rows : List (Row E)) → Twins [] rows → rows ≡ []
  unfolding get_box rows_of
  no_rows [] h = refl
  no_rows (row ∷ rows) h = ground (arith, h row.receiver)

  -- Whatever is summed over all messages, the two representations agree.
  pub total-Twins :
      (w : StoredMessage E → ℕ) (d : Boxes E) (rows : List (Row E))
      → Distinct d
      → Twins d rows
      → total w (all_messages d) ≡ total (λ row. w (message_of row)) rows
  unfolding all_messages
  total-Twins w [] rows h t = rw (no_rows rows t)
  total-Twins w ((k, ms) ∷ d) rows h t =
      let own = sym (get_box_head k ms d) ∙ t k in
      let rest = total-Twins w d _ h.1 (Twins-tail k ms d rows h.0 t) in
      omega (
        arith,
        total-append w ms (all_messages d),
        ap (total w) own,
        rest,
        total-own w k rows,
        total-split (λ row. w (message_of row)) (λ row. row.receiver == k) rows,
      )
