-- ===== src/Scheduling/Overlaps.antt =====
-- The comparisons of services/scheduling.py: when they return, and what they say of the moments at
-- which slots start and end.
use enishi.Prelude.{
  ℕ, ◌+◌, ◌≤◌, ◌≡◌, ◌↔◌, ◌⊎◌, refl, Bool, true, false, Option, none, some, List, [], ◌∷◌, All,
  is_some, inl, inr, arith, ltb, Bool-cases,
}
use enishi.Errors.{Result, ok, ◌>>=◌}
use enishi.Scheduling.{DateTime, Slot, slot_at, zone_or, before_in, second_if, overlaps, is_busy}

-- A slot whose two datetimes both have an offset, or neither.
abbrev pub Uniform : Slot → Type 0
Uniform slot = is_some slot.start.tzinfo ≡ is_some slot.end.tzinfo

-- The moment of a local time: by its own offset, or else by the one of the datetime that it is
-- aligned with; where neither has one, both are in the same unknown zone.
abbrev moment_in : Option ℕ → Option ℕ → ℕ → ℕ
moment_in (some z) other l = l + z
moment_in none (some z) l = l + z
moment_in none none l = l

abbrev pub moment : DateTime → DateTime → ℕ
moment other t = moment_in t.tzinfo other.tzinfo t.local

-- One of the two is over before, or just when, the other starts.
abbrev pub Apart : Slot → Slot → Type 0
Apart slot item =
    (moment slot.end item.end ≤ moment item.start slot.start)
    ⊎ (moment item.end slot.end ≤ moment slot.start item.start)

-- An answer that is false exactly where something holds.
abbrev pub Denies : Type 0 → Result Bool → Type 0
Denies Q result = (b : Bool) × (result ≡ ok b) × ((b ≡ false) ↔ Q)

second_if-Denies : (k l m n : ℕ) → Denies ((l ≤ k) ⊎ (n ≤ m)) (second_if (ok (ltb m n)) (ltb k l))
second_if-Denies k l m n = elim (Bool-cases (ltb k l)) [
  | inl first ↦ rw first (ltb m n, refl, ground arith)
  | inr later ↦ rw later (false, refl, ground arith)
]

compared-Denies :
    (a b c d : Option ℕ) (k l m n : ℕ)
    → is_some a ≡ is_some b
    → is_some c ≡ is_some d
    → Denies ((moment_in d b l ≤ moment_in a c k) ⊎ (moment_in b d n ≤ moment_in c a m)) (
        before_in (zone_or a c) (zone_or d b) k l
        >>= second_if (before_in (zone_or c a) (zone_or b d) m n))
compared-Denies none none none none k l m n h j = second_if-Denies k l m n
compared-Denies none none (some c) (some d) k l m n h j =
    second_if-Denies (k + c) (l + d) (m + c) (n + d)
compared-Denies (some a) (some b) none none k l m n h j =
    second_if-Denies (k + a) (l + b) (m + a) (n + b)
compared-Denies (some a) (some b) (some c) (some d) k l m n h j =
    second_if-Denies (k + a) (l + d) (m + c) (n + b)
compared-Denies (some a) none c d k l m n h j = cc
compared-Denies none (some b) c d k l m n h j = cc
compared-Denies (some a) (some b) (some c) none k l m n h j = cc
compared-Denies (some a) (some b) none (some d) k l m n h j = cc
compared-Denies none none (some c) none k l m n h j = cc
compared-Denies none none none (some d) k l m n h j = cc

overlaps-Denies :
    (slot item : Slot) → Uniform slot → Uniform item → Denies (Apart slot item) (overlaps slot item)
unfolding overlaps
overlaps-Denies slot item h j =
    compared-Denies slot.start.tzinfo slot.end.tzinfo item.start.tzinfo item.end.tzinfo
      slot.start.local item.end.local item.start.local slot.end.local h j

slot_at-Uniform :
    (offset : Option (ℕ → ℕ)) (duration cursor : ℕ) → Uniform (slot_at offset duration cursor)
slot_at-Uniform none duration cursor = refl
slot_at-Uniform (some offset) duration cursor = refl

is_busy-cons :
    (item : Slot) (busy : List Slot) (slot : Slot)
    → Denies (Apart slot item) (overlaps slot item)
    → Denies (All (Apart slot) busy) (is_busy busy slot)
    → Denies (All (Apart slot) (item ∷ busy)) (is_busy (item ∷ busy) slot)
unfolding is_busy
is_busy-cons item busy slot (true, e, apart) h =
    rw e (true, refl, (λ no. cc, λ (near, _). let clash = apart.1 near in cc))
is_busy-cons item busy slot (false, e, apart) (b, f, rest) =
    rw e (b, f, (λ free. (apart.0 refl, rest.0 free), λ (_, free). rest.1 free))

-- Where the busy items are uniform, `is_busy` returns, and says no exactly of a slot that is apart
-- from each of them.
pub is_busy-Denies :
    (offset : Option (ℕ → ℕ)) (duration cursor : ℕ) (busy : List Slot)
    → All Uniform busy
    → Denies
        (All (Apart (slot_at offset duration cursor)) busy)
        (is_busy busy (slot_at offset duration cursor))
unfolding is_busy
is_busy-Denies offset duration cursor [] h = (false, refl, (λ _. tt, λ _. refl))
is_busy-Denies offset duration cursor (item ∷ busy) (u, h) =
    let slot = slot_at offset duration cursor in
    is_busy-cons item busy slot
      (overlaps-Denies slot item (slot_at-Uniform offset duration cursor) u)
      (is_busy-Denies offset duration cursor busy h)
