-- ===== src/Scheduling/Slots.antt =====
-- The candidates of services/scheduling.py.
use enishi.Prelude.{
  ℕ, zero, suc, ◌+◌, ◌≤◌, ◌≡◌, refl, Bool, true, false, ◌&&◌, Option, List, [], ◌∷◌, ◌++◌, length,
  length-append, All, arith, leb, ltb, if-intro, if◌then◌else◌,
}
use enishi.Errors.{Result, ok}
use enishi.Scheduling.Overlaps.{Uniform, Apart, is_busy-Denies}
use enishi.Scheduling.{Slot, TimeRange, max_slots, step_minutes, slot_at, midnight, scan}

module _ (zone : Option (ℕ → ℕ)) (duration : ℕ) (busy : List Slot) where
  -- A slot from a local time on, within one of the ranges of a day, apart from every busy item.
  abbrev pub InRange : ℕ → TimeRange → Slot → Type 0
  InRange day r slot =
      (cursor : ℕ) × (slot ≡ slot_at zone duration cursor)
      × (midnight day + r.start ≤ cursor)
      × (cursor + duration ≤ midnight day + r.end)
      × All (Apart slot) busy

  -- At most twenty slots, each of which has a property.
  abbrev pub AtMostTwenty : (Slot → Type 0) → List Slot → Type 0
  AtMostTwenty P slots = (length slots ≤ max_slots) × All P slots

  All-snoc :
      (P : Slot → Type 0) (slots : List Slot) (s : Slot)
      → All P slots
      → P s
      → All P (slots ++ s ∷ [])
  All-snoc P [] s h p = (p, tt)
  All-snoc P (x ∷ slots) s (a, h) p = (a, All-snoc P slots s h p)

  snoc-AtMostTwenty :
      (P : Slot → Type 0) (slots : List Slot) (s : Slot)
      → ltb (length slots) max_slots ≡ true
      → AtMostTwenty P slots
      → P s
      → AtMostTwenty P (slots ++ s ∷ [])
  snoc-AtMostTwenty P slots s room (n, h) p =
      (ground (arith, length-append slots (s ∷ [])), All-snoc P slots s h p)

  -- A result that is a list of at most twenty slots with a property.
  abbrev pub Gives : (Slot → Type 0) → Result (List Slot) → Type 0
  Gives P result = (slots : List Slot) × (result ≡ ok slots) × AtMostTwenty P slots

  step-AtMostTwenty :
      (P : Slot → Type 0) (slots : List Slot) (s : Slot) (b : Bool)
      → ltb (length slots) max_slots ≡ true
      → AtMostTwenty P slots
      → (b ≡ false → P s)
      → AtMostTwenty P (if b then slots else slots ++ s ∷ [])
  step-AtMostTwenty P slots s true room h p = h
  step-AtMostTwenty P slots s false room h p = snoc-AtMostTwenty P slots s room h (p refl)

  pub scan-Gives :
      (P : Slot → Type 0) (fuel low high cursor : ℕ) (slots : List Slot)
      → All Uniform busy
      → ((c : ℕ)
          → low ≤ c
          → c + duration ≤ high
          → All (Apart (slot_at zone duration c)) busy
          → P (slot_at zone duration c))
      → low ≤ cursor
      → AtMostTwenty P slots
      → Gives P (scan zone duration busy fuel high cursor slots)
  unfolding scan
  scan-Gives P zero low high cursor slots uniform good le h = (slots, refl, h)
  scan-Gives P (suc fuel) low high cursor slots uniform good le h =
      let slot = slot_at zone duration cursor in
      let (b, e, exact) = is_busy-Denies zone duration cursor busy uniform in
      if-intro (Gives P) (leb (cursor + duration) high && ltb (length slots) max_slots)
        (λ on. rw e (
          scan-Gives P fuel low high (cursor + step_minutes) _ uniform good (omega arith) (
            step-AtMostTwenty P slots slot b (ground arith) h
              (λ free. good cursor le (ground arith) (exact.0 free)))))
        (λ off. (slots, refl, h))
