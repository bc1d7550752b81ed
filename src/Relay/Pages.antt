-- ===== src/Relay/Pages.antt =====
-- The pages of the two `fetch` of services/relay/relay/store.py: one sorts and then drops what lies
-- before the cursor, the other selects and then sorts; one measures what is left, the other reads
-- one row more.
use enishi.Prelude.{
  ℕ, zero, suc, ◌<◌, ◌≡◌, refl, ◌∙◌, Bool, true, false, inl, inr, some, List, [], ◌∷◌, keep, length,
  take, All, arith, Bool-cases, ltb, if◌then◌else◌,
}
use enishi.Relay.Types.{StoredMessage, Limits, CursorCodec, key_leb, place, sort_messages, last?}
use enishi.Relay.Memory
use enishi.Relay.Sqlite

module _ {E : Type 0} where
  abbrev Sorted : List (StoredMessage E) → Type 0
  Sorted [] = Unit
  Sorted (x ∷ xs) = All (λ y. key_leb x y ≡ true) xs × Sorted xs

  key_leb_trans :
      (a b c : StoredMessage E) → key_leb a b ≡ true → key_leb b c ≡ true → key_leb a c ≡ true
  key_leb_trans a b c p q = ground arith

  key_leb_flip : (a b : StoredMessage E) → key_leb a b ≡ false → key_leb b a ≡ true
  key_leb_flip a b p = ground arith

  All-above :
      (m x : StoredMessage E) (xs : List (StoredMessage E))
      → key_leb m x ≡ true
      → All (λ y. key_leb x y ≡ true) xs
      → All (λ y. key_leb m y ≡ true) xs
  All-above m x [] p h = tt
  All-above m x (y ∷ ys) p h = (key_leb_trans m x y p h.0, All-above m x ys p h.1)

  All-place :
      (m x : StoredMessage E) (xs : List (StoredMessage E))
      → key_leb x m ≡ true
      → All (λ y. key_leb x y ≡ true) xs
      → All (λ y. key_leb x y ≡ true) (place m xs)
  All-place m x [] p h = (p, tt)
  All-place m x (y ∷ ys) p h = elim (Bool-cases (key_leb m y)) [
    | inl e ↦ rw e (p, h)
    | inr e ↦ rw e (h.0, All-place m x ys p h.1)
  ]

  place-Sorted :
      (m : StoredMessage E) (xs : List (StoredMessage E)) → Sorted xs → Sorted (place m xs)
  place-Sorted m [] h = (tt, tt)
  place-Sorted m (x ∷ xs) h = elim (Bool-cases (key_leb m x)) [
    | inl e ↦ rw e ((e, All-above m x xs e h.0), h)
    | inr e ↦ rw e (All-place m x xs (key_leb_flip m x e) h.0, place-Sorted m xs h.1)
  ]

  pub sort_messages-Sorted : (xs : List (StoredMessage E)) → Sorted (sort_messages xs)
  sort_messages-Sorted [] = tt
  sort_messages-Sorted (x ∷ xs) = place-Sorted x (sort_messages xs) (sort_messages-Sorted xs)

  All-keep :
      (P : StoredMessage E → Type 0) (p : StoredMessage E → Bool) (xs : List (StoredMessage E))
      → All P xs
      → All P (keep p xs)
  All-keep P p [] h = tt
  All-keep P p (x ∷ xs) h = elim (Bool-cases (p x)) [
    | inl e ↦ rw e (h.0, All-keep P p xs h.1)
    | inr e ↦ rw e (All-keep P p xs h.1)
  ]

  place_front :
      (m : StoredMessage E) (xs : List (StoredMessage E))
      → All (λ y. key_leb m y ≡ true) xs
      → place m xs ≡ m ∷ xs
  place_front m [] h = refl
  place_front m (x ∷ xs) h = rw h.0

  keep-place :
      (p : StoredMessage E → Bool) (m : StoredMessage E) (xs : List (StoredMessage E))
      → Sorted xs
      → keep p (place m xs) ≡ (if p m then place m (keep p xs) else keep p xs)
  keep-place p m [] h = ground arith
  keep-place p m (x ∷ xs) h = elim (Bool-cases (key_leb m x)) [
    | inl e ↦
        let P = λ (y : StoredMessage E). key_leb m y ≡ true in
        let above = All-keep P p (x ∷ xs) (e, All-above m x xs e h.0) in
        rw (e, place_front m (keep p (x ∷ xs)) above)
    | inr e ↦ rw e (ground (arith, keep-place p m xs h.1))
  ]

  -- Selecting after sorting is sorting after selecting.
  pub keep-sort_messages :
      (p : StoredMessage E → Bool) (xs : List (StoredMessage E))
      → keep p (sort_messages xs) ≡ sort_messages (keep p xs)
  keep-sort_messages p [] = refl
  keep-sort_messages p (x ∷ xs) =
      keep-place p x (sort_messages xs) (sort_messages-Sorted xs)
      ∙ ground (arith, keep-sort_messages p xs)

  take_more : (n : ℕ) (xs : List (StoredMessage E)) → take n (take (suc n) xs) ≡ take n xs
  take_more zero xs = refl
  take_more (suc n) [] = refl
  take_more (suc n) (x ∷ xs) = rw (take_more n xs)

  more_rows :
      (n : ℕ) (xs : List (StoredMessage E))
      → ltb n (length (take (suc n) xs)) ≡ ltb (length (take n xs)) (length xs)
  more_rows zero [] = refl
  more_rows zero (x ∷ xs) = ground arith
  more_rows (suc n) [] = ground arith
  more_rows (suc n) (x ∷ xs) = ground (arith, more_rows n xs)

  last_taken :
      (n : ℕ) (x : StoredMessage E) (xs : List (StoredMessage E))
      → (m : StoredMessage E) × (last? (take (suc n) (x ∷ xs)) ≡ some m)
  last_taken zero x xs = (x, refl)
  last_taken (suc n) x [] = (x, refl)
  last_taken (suc n) x (y ∷ xs) = last_taken n y xs

  module _ (bytes : E → ℕ) (limits : Limits) (now : ℕ) (codec : CursorCodec) where
    -- For a limit that is not 0 both stores cut the same page, with the same cursor to the next.
    pub page_of_agrees :
        (limit : ℕ) (xs : List (StoredMessage E))
        → 0 < limit
        → Memory.page_of bytes limits now codec limit xs
          ≡ Sqlite.page_of bytes limits now codec limit xs
    page_of_agrees zero xs h = elim h [ ]
    page_of_agrees (suc n) [] h = ground arith
    page_of_agrees (suc n) (x ∷ xs) h =
        let (m, last) = last_taken n x xs in
        ground (arith, take_more (suc n) (x ∷ xs), more_rows (suc n) (x ∷ xs), last)
