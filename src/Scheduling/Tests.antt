-- ===== src/Scheduling/Tests.antt =====
-- Two days of which a meeting takes the first afternoon, in a time zone nine hours ahead of UTC.
use enishi.Prelude.{inl, ℕ, ◌≡◌, ◌≤◌, refl, Option, some, List, [], ◌∷◌, length, All, arith}
use enishi.Errors.{ok}
use enishi.Scheduling.{
  Slot, TimeRange, slot_at, is_busy, overlaps, scan, scan_ranges, scan_days, candidate_slots,
  same_slot, intersect_slots,
}
use enishi.Scheduling.Complete.{Has, candidate_slots-Has}
use enishi.Scheduling.Candidates.{Candidate, candidate_slots-Candidate}

abbrev tokyo : Option (ℕ → ℕ)
tokyo = some (λ _. 900)

abbrev afternoon : List TimeRange
afternoon = record { start = 840; end = 930 } ∷ []

-- 05:00 to 06:00 UTC of the first day, which is 14:00 to 15:00 in the zone.
abbrev meeting : List Slot
meeting =
    record {
      start = record { local = 1740; tzinfo = some 1440 };
      end = record { local = 1800; tzinfo = some 1440 };
    }
    ∷ []

abbrev both : List Slot
both = slot_at tokyo 60 3720 ∷ slot_at tokyo 60 3750 ∷ []

first_free : candidate_slots 1 2 afternoon 60 meeting tokyo ≡ ok both
unfolding candidate_slots scan_days scan_ranges scan is_busy overlaps
first_free = refl

candidate_slots-Candidate_example :
    (slots : List Slot) × (candidate_slots 1 2 afternoon 60 meeting tokyo ≡ ok slots)
    × (length slots ≤ 20)
    × All (Candidate 1 2 afternoon 60 meeting tokyo) slots
candidate_slots-Candidate_example =
    candidate_slots-Candidate 1 2 afternoon 60 meeting tokyo (refl, tt)

candidate_slots-Has_example : Has (slot_at tokyo 60 3750) both
unfolding candidate_slots scan_days scan_ranges scan is_busy overlaps
candidate_slots-Has_example =
    candidate_slots-Has 1 2 afternoon 60 meeting tokyo both 2 (record { start = 840; end = 930 }) []
      [] 1 3750 refl (omega arith) (omega arith) refl refl (omega arith) (refl, tt)
      (inl (omega arith), tt)

-- 14:00 in the zone is 05:00 UTC.
shared :
    intersect_slots (λ _. 1440) (slot_at tokyo 60 2280 ∷ both) meeting ≡ slot_at tokyo 60 2280 ∷ []
unfolding intersect_slots same_slot
shared = refl
