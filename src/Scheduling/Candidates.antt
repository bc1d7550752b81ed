-- ===== src/Scheduling/Candidates.antt =====
-- What `candidate_slots` of services/scheduling.py returns.
use enishi.Prelude.{
  ℕ, zero, suc, ◌+◌, ◌-◌, ◌≤◌, ◌≡◌, refl, Option, List, [], ◌∷◌, length, All, if-intro, arith, ltb,
}
use mathlib.Core.List.{Mem, mem-cons_self, mem-cons_of_mem}
use enishi.Errors.{ok}
use enishi.Scheduling.Overlaps.{Uniform}
use enishi.Scheduling.Slots.{InRange, AtMostTwenty, Gives, scan-Gives}
use enishi.Scheduling.{
  Slot, TimeRange, max_slots, midnight, scan_ranges, scan_days, candidate_slots,
}

module _ (zone : Option (ℕ → ℕ)) (duration : ℕ) (busy : List Slot) where
  scan_ranges-Gives :
      (P : Slot → Type 0) (day : ℕ) (ranges : List TimeRange) (slots : List Slot)
      → All Uniform busy
      → ((r : TimeRange) → Mem r ranges → (s : Slot) → InRange zone duration busy day r s → P s)
      → AtMostTwenty zone duration busy P slots
      → Gives zone duration busy P (scan_ranges zone duration busy day ranges slots)
  unfolding scan_ranges
  scan_ranges-Gives P day [] slots uniform good h = (slots, refl, h)
  scan_ranges-Gives P day (r ∷ ranges) slots uniform good h =
      let low = midnight day + r.start in
      let high = midnight day + r.end in
      let (out, e, k) =
        scan-Gives zone duration busy P (suc high) low high low slots uniform
          (λ c above below free. good r mem-cons_self _ (c, refl, above, below, free)) (omega arith)
          h in
      rw e (scan_ranges-Gives P day ranges out uniform (λ q at. good q (mem-cons_of_mem r at)) k)

  scan_days-Gives :
      (P : Slot → Type 0) (ranges : List TimeRange) (days day : ℕ) (slots : List Slot)
      → All Uniform busy
      → ((d : ℕ) (r : TimeRange)
          → day ≤ d
          → suc d ≤ day + days
          → Mem r ranges
          → (s : Slot) → InRange zone duration busy d r s
          → P s)
      → AtMostTwenty zone duration busy P slots
      → Gives zone duration busy P (scan_days zone duration busy ranges days day slots)
  unfolding scan_days
  scan_days-Gives P ranges zero day slots uniform good h = (slots, refl, h)
  scan_days-Gives P ranges (suc days) day slots uniform good h =
      if-intro (Gives zone duration busy P) (ltb (length slots) max_slots)
        (λ on.
          let (out, e, k) =
            scan_ranges-Gives P day ranges slots uniform
              (λ r at. good day r (omega arith) (omega arith) at) h in
          rw e (
            scan_days-Gives P ranges days (suc day) out uniform
              (λ d r after early at. good d r (omega arith) (omega arith) at) k))
        (λ off. (slots, refl, h))

-- A slot within one of the preferred ranges of a day of the period, of the duration asked for, apart
-- from every busy item.
abbrev pub Candidate : ℕ → ℕ → List TimeRange → ℕ → List Slot → Option (ℕ → ℕ) → Slot → Type 0
Candidate start_date end_date ranges duration busy zone slot =
    (day : ℕ) × (r : TimeRange) × (start_date ≤ day)
    × (day ≤ end_date)
    × Mem r ranges
    × InRange zone duration busy day r slot

-- Where every busy item has an offset in both its datetimes or in neither, `candidate_slots` returns:
-- at most twenty slots, each of the duration asked for, within a preferred range of a day of the
-- period, and apart from every busy item: one of the two ends before, or just when, the other starts.
pub candidate_slots-Candidate :
    (start_date end_date : ℕ) (ranges : List TimeRange) (duration : ℕ) (busy : List Slot)
    (zone : Option (ℕ → ℕ))
    → All Uniform busy
    → (slots : List Slot) × (candidate_slots start_date end_date ranges duration busy zone
        ≡ ok slots)
      × (length slots ≤ 20)
      × All (Candidate start_date end_date ranges duration busy zone) slots
unfolding candidate_slots
candidate_slots-Candidate start_date end_date ranges duration busy zone uniform =
    let (slots, e, (few, all)) =
      scan_days-Gives zone duration busy (Candidate start_date end_date ranges duration busy zone)
        ranges (suc end_date - start_date) start_date [] uniform
        (λ d r after early at s within. (d, r, after, omega arith, at, within)) (omega arith, tt) in
    (slots, e, few, all)
