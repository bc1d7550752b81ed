-- ===== src/Scheduling.antt =====
-- services/local-core/enishi_core/services/scheduling.py: the free slots of a calendar and what two
-- calendars share. A datetime is its local time in minutes since a fixed day; times of day and busy
-- items are at whole minutes.
pub mod Slots
pub mod Overlaps
pub mod Candidates
pub mod Complete
mod Tests
use enishi.Prelude.{
  ℕ, zero, suc, ◌+◌, ◌-◌, ◌*◌, Bool, true, false, ◌&&◌, Option, none, some, List, [], ◌∷◌, ◌++◌,
  length, leb, ltb, ◌==◌, is_some, keep, any, if◌then◌else◌,
}
use enishi.Errors.{Result, ok, err, unhandled, ◌>>=◌}

-- A UTC offset is kept as the minutes from the local time to UTC, plus a day, which keeps it positive.
pub record DateTime : Type 0 where
  pub local : ℕ
  pub tzinfo : Option ℕ

pub record Slot : Type 0 where
  pub start : DateTime
  pub end : DateTime

-- Times of day, in minutes.
pub record TimeRange : Type 0 where
  pub start : ℕ
  pub end : ℕ

abbrev pub step_minutes : ℕ
step_minutes = 30

abbrev pub max_slots : ℕ
max_slots = 20

abbrev pub zone_or : Option ℕ → Option ℕ → Option ℕ
zone_or none z = z
zone_or (some y) z = some y

-- `_align_legacy_datetimes`
abbrev pub align_legacy_datetimes : DateTime → DateTime → DateTime × DateTime
align_legacy_datetimes left right = (
  record left { tzinfo = zone_or left.tzinfo right.tzinfo },
  record right { tzinfo = zone_or right.tzinfo left.tzinfo },
)

-- `<` of two datetimes, which raises where only one has an offset.
abbrev pub before_in : Option ℕ → Option ℕ → ℕ → ℕ → Result Bool
before_in none none l r = ok (ltb l r)
before_in (some y) (some z) l r = ok (ltb (l + y) (r + z))
before_in _ _ l r = err unhandled

abbrev pub before : DateTime → DateTime → Result Bool
before left right = before_in left.tzinfo right.tzinfo left.local right.local

abbrev pub second_if : Result Bool → Bool → Result Bool
second_if next true = next
second_if next false = ok false

unfoldable pub overlaps : Slot → Slot → Result Bool
overlaps slot busy_item =
    let (slot_start, busy_start) = align_legacy_datetimes slot.start busy_item.start in
    let (slot_end, busy_end) = align_legacy_datetimes slot.end busy_item.end in
    before slot_start busy_end >>= second_if (before busy_start slot_end)

-- `any(overlaps(slot, item) for item in busy)`, which stops at the first overlap.
unfoldable pub is_busy : List Slot → Slot → Result Bool
is_busy [] slot = ok false
is_busy (item ∷ busy) slot =
    let rest = is_busy busy slot in overlaps slot item >>= λ b. if b then ok true else rest

-- The offset that a time zone has at a local time is the zone's; without a zone there is none.
abbrev pub localized : Option (ℕ → ℕ) → ℕ → DateTime
localized none l = record { local = l; tzinfo = none }
localized (some zone) l = record { local = l; tzinfo = some (zone l) }

abbrev pub slot_at : Option (ℕ → ℕ) → ℕ → ℕ → Slot
slot_at zone duration cursor = record {
  start = localized zone cursor;
  end = localized zone (cursor + duration);
}

abbrev pub midnight : ℕ → ℕ
midnight day = day * 1440

module _ (zone : Option (ℕ → ℕ)) (duration : ℕ) (busy : List Slot) where
  -- `while cursor + duration <= range_end and len(slots) < _MAX_SLOTS`, on fuel.
  unfoldable pub scan : ℕ → ℕ → ℕ → List Slot → Result (List Slot)
  scan zero range_end cursor slots = ok slots
  scan (suc fuel) range_end cursor slots =
      if leb (cursor + duration) range_end && ltb (length slots) max_slots
      then (is_busy busy (slot_at zone duration cursor) >>= λ b.
          scan fuel range_end (cursor + step_minutes)
            (if b then slots else slots ++ slot_at zone duration cursor ∷ []))
      else ok slots

  -- A cursor takes fewer steps than there are minutes up to the range's end.
  unfoldable pub scan_ranges : ℕ → List TimeRange → List Slot → Result (List Slot)
  unfolding scan
  scan_ranges day [] slots = ok slots
  scan_ranges day (r ∷ ranges) slots =
      let range_end = midnight day + r.end in
      scan (suc range_end) range_end (midnight day + r.start) slots >>= scan_ranges day ranges

  -- `while current_date <= end_date and len(slots) < _MAX_SLOTS`, by the number of days left.
  unfoldable pub scan_days : List TimeRange → ℕ → ℕ → List Slot → Result (List Slot)
  scan_days ranges zero day slots = ok slots
  scan_days ranges (suc days) day slots =
      if ltb (length slots) max_slots
      then scan_ranges day ranges slots >>= scan_days ranges days (suc day)
      else ok slots

unfoldable pub candidate_slots :
    ℕ → ℕ → List TimeRange → ℕ → List Slot → Option (ℕ → ℕ) → Result (List Slot)
unfolding scan_days
candidate_slots start_date end_date preferred_time_ranges duration busy zone =
    scan_days zone duration busy preferred_time_ranges (suc end_date - start_date) start_date []

abbrev same_moment : Option ℕ → Option ℕ → ℕ → ℕ → Bool
same_moment none none l r = l == r
same_moment (some y) (some z) l r = l + y == r + z
same_moment _ _ l r = false

-- `astimezone(UTC)`, which takes a datetime without an offset to be in the system's time zone.
abbrev offset_or : ℕ → Option ℕ → ℕ
offset_or system none = system
offset_or system (some z) = z

abbrev utc : (ℕ → ℕ) → DateTime → ℕ
utc system t = t.local + offset_or (system t.local) t.tzinfo

-- `_same_slot`
unfoldable pub same_slot : (ℕ → ℕ) → Slot → Slot → Bool
same_slot system left right =
    let (left_start, right_start) = align_legacy_datetimes left.start right.start in
    let (left_end, right_end) = align_legacy_datetimes left.end right.end in
    same_moment left_start.tzinfo right_start.tzinfo left_start.local right_start.local
    && (if is_some left_start.tzinfo
        then utc system left_end == utc system right_end
        else same_moment left_end.tzinfo right_end.tzinfo left_end.local right_end.local)

unfoldable pub intersect_slots : (ℕ → ℕ) → List Slot → List Slot → List Slot
unfolding same_slot
intersect_slots system a b = keep (λ slot. any (same_slot system slot) b) a
