-- ===== src/Scheduling/Complete.antt =====
-- No free slot is missed by `candidate_slots` of services/scheduling.py before it has twenty; so the
-- fuel of `scan` is enough.
use enishi.Prelude.{
  ℕ, ap, ◌∙◌, zero, suc, ◌+◌, ◌-◌, ◌*◌, ◌≤◌, ◌≡◌, sym, subst, ◌⊎◌, inl, inr, Bool, true, false,
  ◌&&◌, Option, List, [], ◌∷◌, ◌++◌, length, length-append, All, if-intro, if◌then◌else◌, arith,
  leb, ltb, ◌==◌, Bool-cases,
}
use mathlib.Core.List.{Mem, mem-cons_self, mem-append_right, mem-append_left}
use enishi.Errors.{Result, ok, >>=-returned}
use enishi.Scheduling.Overlaps.{Uniform, Apart, is_busy-Denies}
use enishi.Scheduling.{
  Slot, TimeRange, max_slots, step_minutes, is_busy, slot_at, midnight, scan, scan_ranges,
  scan_days, candidate_slots,
}

ok-same : {A : Type 0} {x y : A} → Result.ok x ≡ ok y → x ≡ y
ok-same h = cc

All-everywhere :
    (P : TimeRange → Type 0) (ranges : List TimeRange) → ((r : TimeRange) → P r) → All P ranges
All-everywhere P [] h = tt
All-everywhere P (r ∷ ranges) h = (h r, All-everywhere P ranges h)

All-map :
    (P Q : TimeRange → Type 0) (ranges : List TimeRange)
    → ((r : TimeRange) → P r → Q r)
    → All P ranges
    → All Q ranges
All-map P Q [] f h = tt
All-map P Q (r ∷ ranges) f (p, h) = (f r p, All-map P Q ranges f h)

-- A list has a slot, unless it is full.
abbrev pub Has : Slot → List Slot → Type 0
Has s slots = (20 ≤ length slots) ⊎ Mem s slots

Has-snoc :
    (s t : Slot) (slots : List Slot) (b : Bool)
    → Has s slots
    → Has s (if b then slots else slots ++ t ∷ [])
Has-snoc s t slots true h = h
Has-snoc s t slots false (inl n) = inl (omega (arith, length-append slots (t ∷ [])))
Has-snoc s t slots false (inr m) = inr (mem-append_left (t ∷ []) m)

module _ (zone : Option (ℕ → ℕ)) (duration : ℕ) (busy : List Slot) where
  scan-keeps :
      (s : Slot) (fuel high cursor : ℕ) (slots : List Slot) {out : List Slot}
      → Has s slots
      → scan zone duration busy fuel high cursor slots ≡ ok out
      → Has s out
  unfolding scan
  scan-keeps s zero high cursor slots h e = subst (Has s) (ok-same e) h
  scan-keeps s (suc fuel) high cursor slots {out} h e =
      if-intro (λ (o : Result (List Slot)). o ≡ ok out → Has s out)
        (leb (cursor + duration) high && ltb (length slots) max_slots)
        (λ on e1.
          let (b, _, rest) = >>=-returned (is_busy busy (slot_at zone duration cursor)) _ e1 in
          scan-keeps s fuel high (cursor + step_minutes)
            (if b then slots else slots ++ slot_at zone duration cursor ∷ [])
            (Has-snoc s _ slots b h) rest)
        (λ off e1. subst (Has s) (ok-same e1) h) e

  new-Has :
      (cursor : ℕ) (slots : List Slot) (b : Bool)
      → is_busy busy (slot_at zone duration cursor) ≡ ok b
      → is_busy busy (slot_at zone duration cursor) ≡ ok false
      → Has
          (slot_at zone duration cursor)
          (if b then slots else slots ++ slot_at zone duration cursor ∷ [])
  new-Has cursor slots true e free = cc
  new-Has cursor slots false e free = inr (mem-append_right slots mem-cons_self)

  here-Has :
      (cursor c : ℕ) (slots : List Slot) (b : Bool)
      → cursor ≡ c
      → is_busy busy (slot_at zone duration cursor) ≡ ok b
      → is_busy busy (slot_at zone duration c) ≡ ok false
      → Has
          (slot_at zone duration c)
          (if b then slots else slots ++ slot_at zone duration cursor ∷ [])
  here-Has cursor c slots b here e free =
      let new : List Slot = if b then slots else slots ++ slot_at zone duration cursor ∷ [] in
      subst (λ x. Has (slot_at zone duration x) new) here
        (new-Has cursor slots b e
          (subst (λ x. is_busy busy (slot_at zone duration x) ≡ ok false) (sym here) free))

  scan-Has :
      (fuel high cursor k c : ℕ) (slots : List Slot) {out : List Slot}
      → suc high ≤ cursor + fuel
      → c ≡ cursor + k * 30
      → c + duration ≤ high
      → is_busy busy (slot_at zone duration c) ≡ ok false
      → scan zone duration busy fuel high cursor slots ≡ ok out
      → Has (slot_at zone duration c) out
  unfolding scan
  scan-Has zero high cursor k c slots enough at fits free e = absurd (omega arith)
  scan-Has (suc fuel) high cursor k c slots {out} enough at fits free e =
      if-intro (λ (o : Result (List Slot)). o ≡ ok out → Has (slot_at zone duration c) out)
        (leb (cursor + duration) high && ltb (length slots) max_slots)
        (λ on e1.
          let (b, d, rest) =
            >>=-returned (is_busy busy (slot_at zone duration cursor))
              (λ b.
                scan zone duration busy fuel high (cursor + step_minutes)
                  (if b then slots else slots ++ slot_at zone duration cursor ∷ []))
              e1 in
          let next : List Slot = if b then slots else slots ++ slot_at zone duration cursor ∷ [] in
          elim (Bool-cases (k == 0)) [
            | inl z ↦
                let here : cursor ≡ c = ground arith in
                scan-keeps (slot_at zone duration c) fuel high (cursor + step_minutes) next
                  (here-Has cursor c slots b here d free) rest
            | inr n ↦
                scan-Has fuel high (cursor + step_minutes) (k - 1) c next (omega arith)
                  (ground arith) fits free rest
          ])
        (λ off e1.
          inl (subst (λ (o : List Slot). max_slots ≤ length o) (ok-same e1) (ground arith)))
        e

  scan_ranges-keeps :
      (s : Slot) (day : ℕ) (ranges : List TimeRange) (slots : List Slot) {out : List Slot}
      → Has s slots
      → scan_ranges zone duration busy day ranges slots ≡ ok out
      → Has s out
  unfolding scan_ranges
  scan_ranges-keeps s day [] slots h e = subst (Has s) (ok-same e) h
  scan_ranges-keeps s day (r ∷ ranges) slots h e =
      let (mid, d, rest) =
        >>=-returned
          (scan zone duration busy (suc (midnight day + r.end)) (midnight day + r.end)
            (midnight day + r.start) slots)
          (scan_ranges zone duration busy day ranges) e in
      scan_ranges-keeps s day ranges mid
        (scan-keeps s (suc (midnight day + r.end)) (midnight day + r.end) (midnight day + r.start)
          slots h d)
        rest

  scan_days-keeps :
      (s : Slot) (ranges : List TimeRange) (days day : ℕ) (slots : List Slot) {out : List Slot}
      → Has s slots
      → scan_days zone duration busy ranges days day slots ≡ ok out
      → Has s out
  unfolding scan_days
  scan_days-keeps s ranges zero day slots h e = subst (Has s) (ok-same e) h
  scan_days-keeps s ranges (suc days) day slots {out} h e =
      if-intro (λ (o : Result (List Slot)). o ≡ ok out → Has s out) (ltb (length slots) max_slots)
        (λ on e1.
          let (mid, d, rest) =
            >>=-returned (scan_ranges zone duration busy day ranges slots)
              (scan_days zone duration busy ranges days (suc day)) e1 in
          scan_days-keeps s ranges days (suc day) mid (scan_ranges-keeps s day ranges slots h d)
            rest)
        (λ off e1. subst (Has s) (ok-same e1) h) e

  -- A list has every free slot of the grid of a range, unless it is full.
  abbrev HasAll : ℕ → List Slot → TimeRange → Type 0
  HasAll day out r =
      (k cursor : ℕ)
      → cursor ≡ midnight day + r.start + k * 30
      → cursor + duration ≤ midnight day + r.end
      → is_busy busy (slot_at zone duration cursor) ≡ ok false
      → Has (slot_at zone duration cursor) out

  scan_ranges-Has :
      (day : ℕ) (ranges : List TimeRange) (slots : List Slot) {out : List Slot}
      → scan_ranges zone duration busy day ranges slots ≡ ok out
      → All (HasAll day out) ranges
  unfolding scan_ranges
  scan_ranges-Has day [] slots e = tt
  scan_ranges-Has day (r ∷ ranges) slots e =
      let (mid, d, rest) =
        >>=-returned
          (scan zone duration busy (suc (midnight day + r.end)) (midnight day + r.end)
            (midnight day + r.start) slots)
          (scan_ranges zone duration busy day ranges) e in
      (
        λ k c at fits free.
            scan_ranges-keeps (slot_at zone duration c) day ranges mid
              (scan-Has (suc (midnight day + r.end)) (midnight day + r.end) (midnight day + r.start)
                k c slots (omega arith) at fits free d)
              rest,
        scan_ranges-Has day ranges mid rest,
      )

  scan_days-Has :
      (ranges : List TimeRange) (days day d : ℕ) (slots : List Slot) {out : List Slot}
      → day ≤ d
      → suc d ≤ day + days
      → scan_days zone duration busy ranges days day slots ≡ ok out
      → All (HasAll d out) ranges
  unfolding scan_days
  scan_days-Has ranges zero day d slots after early e = absurd (omega arith)
  scan_days-Has ranges (suc days) day d slots {out} after early e =
      if-intro (λ (o : Result (List Slot)). o ≡ ok out → All (HasAll d out) ranges)
        (ltb (length slots) max_slots)
        (λ on e1.
          let (mid, m, rest) =
            >>=-returned (scan_ranges zone duration busy day ranges slots)
              (scan_days zone duration busy ranges days (suc day)) e1 in
          elim (Bool-cases (day == d)) [
            | inl z ↦
                let here : day ≡ d = ground arith in
                subst (λ x. All (HasAll x out) ranges) here
                  (All-map (HasAll day mid) (HasAll day out) ranges
                    (λ r h k c at fits free.
                      scan_days-keeps (slot_at zone duration c) ranges days (suc day) mid
                        (h k c at fits free) rest)
                    (scan_ranges-Has day ranges slots m))
            | inr n ↦ scan_days-Has ranges days (suc day) d mid (ground arith) (omega arith) rest
          ])
        (λ off e1. All-everywhere (HasAll d out) ranges (λ r k c at fits free.
          inl (subst (λ (o : List Slot). max_slots ≤ length o) (ok-same e1) (ground arith))))
        e

All-among :
    (P : TimeRange → Type 0) (sooner : List TimeRange) (r : TimeRange) (later : List TimeRange)
    → All P (sooner ++ r ∷ later)
    → P r
All-among P [] r later (p, h) = p
All-among P (q ∷ sooner) r later (p, h) = All-among P sooner r later h

Apart-is_busy :
    (zone : Option (ℕ → ℕ)) (duration cursor : ℕ) (busy : List Slot)
    → All Uniform busy
    → All (Apart (slot_at zone duration cursor)) busy
    → is_busy busy (slot_at zone duration cursor) ≡ ok false
Apart-is_busy zone duration cursor busy uniform free =
    let (b, e, exact) = is_busy-Denies zone duration cursor busy uniform in e ∙ ap ok (exact.1 free)

-- Unless `candidate_slots` returns twenty slots, it returns every slot that starts a multiple of
-- thirty minutes after the start of a preferred range, of any day of the period, ends within that
-- range and is apart from every busy item: one of the two ends before, or just when, the other starts.
-- Every busy item has an offset in both its datetimes or in neither.
pub candidate_slots-Has :
    (start_date end_date : ℕ) (ranges : List TimeRange) (duration : ℕ) (busy : List Slot)
    (zone : Option (ℕ → ℕ)) (slots : List Slot) (day : ℕ) (r : TimeRange)
    (sooner later : List TimeRange) (k cursor : ℕ)
    → candidate_slots start_date end_date ranges duration busy zone ≡ ok slots
    → start_date ≤ day
    → day ≤ end_date
    → ranges ≡ sooner ++ r ∷ later
    → cursor ≡ midnight day + r.start + k * 30
    → cursor + duration ≤ midnight day + r.end
    → All Uniform busy
    → All (Apart (slot_at zone duration cursor)) busy
    → Has (slot_at zone duration cursor) slots
unfolding candidate_slots
candidate_slots-Has start_date end_date ranges duration busy zone slots day r sooner later k cursor
      e after early among at fits uniform free =
    All-among (HasAll zone duration busy day slots) sooner r later
      (subst (All (HasAll zone duration busy day slots)) among (
        scan_days-Has zone duration busy ranges (suc end_date - start_date) start_date day [] after
          (omega arith) e))
      k cursor at fits (Apart-is_busy zone duration cursor busy uniform free)
