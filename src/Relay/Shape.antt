-- ===== src/Relay/Shape.antt =====
-- What the walk of `_validate_json_shape` in services/relay/relay/main.py is for: a description that
-- counts nothing on the way.
use enishi.Prelude.{ℕ, ◌+◌, ◌≤◌, ◌≡◌, ◌↔◌, ap, ◌∙◌, true, arith, ltb}
use enishi.Relay.Answers.{answered, ◌then◌, refuse_if-passed, then-answered, nested_too_deep}
use enishi.Relay.Json.{
  Json, text, number, other, array, object, Items, no_items, item, Members, no_members, member,
  JsonLimits, items_length, members_length, counted, visit_text, visit, visit_items, visit_members,
  validate_json_shape,
}

-- The elements of all arrays and the members of all objects.
unfoldable mutual
  pub items_of : Json → ℕ
  items_of (text n) = 0
  items_of (number finite) = 0
  items_of other = 0
  items_of (array xs) = items_length xs + items_in xs
  items_of (object ms) = members_length ms + members_in ms

  pub items_in : Items → ℕ
  items_in no_items = 0
  items_in (item v rest) = items_of v + items_in rest

  pub members_in : Members → ℕ
  members_in no_members = 0
  members_in (member k v rest) = items_of v + members_in rest

module _ (limits : JsonLimits) where
  -- At a depth: nothing nests too deep, no text or key is too long, every number is finite.
  unfoldable mutual
    pub Shaped : ℕ → Json → Type 0
    Shaped depth (text n) = (depth ≤ limits.max_json_depth) × (n ≤ limits.max_string_length)
    Shaped depth (number finite) = (depth ≤ limits.max_json_depth) × (finite ≡ true)
    Shaped depth other = depth ≤ limits.max_json_depth
    Shaped depth (array xs) = (depth ≤ limits.max_json_depth) × ItemsShaped (depth + 1) xs
    Shaped depth (object ms) = (depth ≤ limits.max_json_depth) × MembersShaped (depth + 1) ms

    pub ItemsShaped : ℕ → Items → Type 0
    ItemsShaped depth no_items = Unit
    ItemsShaped depth (item v rest) = Shaped depth v × ItemsShaped depth rest

    pub MembersShaped : ℕ → Members → Type 0
    MembersShaped depth no_members = Unit
    MembersShaped depth (member k v rest) =
        ((depth ≤ limits.max_json_depth) × (k ≤ limits.max_string_length))
        × Shaped depth v
        × MembersShaped depth rest

  counted-answered :
      (count n : ℕ) → counted limits count ≡ answered n → (n ≡ count) × (n ≤ limits.max_json_items)
  counted-answered count n h = ground (arith, h)

  visit_text-answered :
      (k depth count n : ℕ)
      → visit_text limits k depth count ≡ answered n
      → ((depth ≤ limits.max_json_depth) × (k ≤ limits.max_string_length))
        × (n ≡ count)
        × (n ≤ limits.max_json_items)
  visit_text-answered k depth count n h = ground (arith, h)

  mutual
    unfolding visit items_of Shaped

    visit-answered :
        (v : Json) (depth count n : ℕ)
        → visit limits v depth count ≡ answered n
        → Shaped depth v × (n ≡ count + items_of v) × (n ≤ limits.max_json_items)
    visit-answered (text k) depth count n h = ground (arith, h)
    visit-answered (number finite) depth count n h = ground (arith, h)
    visit-answered other depth count n h = ground (arith, h)
    visit-answered (array xs) depth count n h =
        let walk = visit_items limits xs depth (count + items_length xs) in
        let (shallow, rest) =
          refuse_if-passed (ltb limits.max_json_depth depth) nested_too_deep
            (walk then counted limits) h in
        let (c, e, last) = then-answered walk (counted limits) rest in
        let (shaped, sum) = visit_items-answered xs depth (count + items_length xs) c e in
        let (same, bounded) = counted-answered c n last in
        ((ground (arith, shallow), shaped), omega (arith, same, sum), bounded)
    visit-answered (object ms) depth count n h =
        let walk = visit_members limits ms depth (count + members_length ms) in
        let (shallow, rest) =
          refuse_if-passed (ltb limits.max_json_depth depth) nested_too_deep
            (walk then counted limits) h in
        let (c, e, last) = then-answered walk (counted limits) rest in
        let (shaped, sum) = visit_members-answered ms depth (count + members_length ms) c e in
        let (same, bounded) = counted-answered c n last in
        ((ground (arith, shallow), shaped), omega (arith, same, sum), bounded)

    visit_items-answered :
        (xs : Items) (depth count n : ℕ)
        → visit_items limits xs depth count ≡ answered n
        → ItemsShaped (depth + 1) xs × (n ≡ count + items_in xs)
    visit_items-answered no_items depth count n h = ground (arith, h)
    visit_items-answered (item v rest) depth count n h =
        let (c, e, last) =
          then-answered (visit limits v (depth + 1) count) (λ c. visit_items limits rest depth c)
            h in
        let (shaped, sum, _) = visit-answered v (depth + 1) count c e in
        let (others, sum') = visit_items-answered rest depth c n last in
        ((shaped, others), omega (arith, sum, sum'))

    visit_members-answered :
        (ms : Members) (depth count n : ℕ)
        → visit_members limits ms depth count ≡ answered n
        → MembersShaped (depth + 1) ms × (n ≡ count + members_in ms)
    visit_members-answered no_members depth count n h = ground (arith, h)
    visit_members-answered (member k v rest) depth count n h =
        let (c, e, after_key) =
          then-answered (visit_text limits k (depth + 1) count)
            (λ c. visit limits v (depth + 1) c then λ c'. visit_members limits rest depth c') h in
        let (c', e', last) =
          then-answered (visit limits v (depth + 1) c) (λ c'. visit_members limits rest depth c')
            after_key in
        let (key, same, _) = visit_text-answered k (depth + 1) count c e in
        let (shaped, sum, _) = visit-answered v (depth + 1) c c' e' in
        let (others, sum') = visit_members-answered rest depth c' n last in
        ((key, shaped, others), omega (arith, same, sum, sum'))

  counted_within :
      (count : ℕ) → count ≤ limits.max_json_items → counted limits count ≡ answered count
  counted_within count h = ground (arith, h)

  visit_text-Shaped :
      (k depth count : ℕ)
      → (depth ≤ limits.max_json_depth) × (k ≤ limits.max_string_length)
      → count ≤ limits.max_json_items
      → visit_text limits k depth count ≡ answered count
  visit_text-Shaped k depth count h le = ground (arith, h, le)

  mutual
    unfolding visit items_of Shaped

    visit-Shaped :
        (v : Json) (depth count : ℕ)
        → Shaped depth v
        → count + items_of v ≤ limits.max_json_items
        → visit limits v depth count ≡ answered (count + items_of v)
    visit-Shaped (text k) depth count h le = ground (arith, h, le)
    visit-Shaped (number finite) depth count h le = ground (arith, h, le)
    visit-Shaped other depth count h le = ground (arith, h, le)
    visit-Shaped (array xs) depth count h le =
        let inner = visit_items-Shaped xs depth (count + items_length xs) h.1 (omega (arith, le)) in
        let end = counted_within (count + items_length xs + items_in xs) (omega (arith, le)) in
        ground (arith, h.0, inner, end)
    visit-Shaped (object ms) depth count h le =
        let inner =
          visit_members-Shaped ms depth (count + members_length ms) h.1 (omega (arith, le)) in
        let end = counted_within (count + members_length ms + members_in ms) (omega (arith, le)) in
        ground (arith, h.0, inner, end)

    visit_items-Shaped :
        (xs : Items) (depth count : ℕ)
        → ItemsShaped (depth + 1) xs
        → count + items_in xs ≤ limits.max_json_items
        → visit_items limits xs depth count ≡ answered (count + items_in xs)
    visit_items-Shaped no_items depth count h le = ground (arith, h, le)
    visit_items-Shaped (item v rest) depth count h le =
        let first = visit-Shaped v (depth + 1) count h.0 (omega (arith, le)) in
        let later = visit_items-Shaped rest depth (count + items_of v) h.1 (omega (arith, le)) in
        ground (arith, first, later)

    visit_members-Shaped :
        (ms : Members) (depth count : ℕ)
        → MembersShaped (depth + 1) ms
        → count + members_in ms ≤ limits.max_json_items
        → visit_members limits ms depth count ≡ answered (count + members_in ms)
    visit_members-Shaped no_members depth count h le = ground (arith, h, le)
    visit_members-Shaped (member k v rest) depth count (key, shaped, others) le =
        let named = visit_text-Shaped k (depth + 1) count key (omega (arith, le)) in
        let first = visit-Shaped v (depth + 1) count shaped (omega (arith, le)) in
        let later =
          visit_members-Shaped rest depth (count + items_of v) others (omega (arith, le)) in
        ground (arith, named, first, later)

  -- The walk lets a JSON value through, with the number of its items, exactly when nothing in it
  -- nests below the greatest depth, no text or key is too long, every number is finite and all its
  -- containers together have no more items than are allowed.
  pub validate_json_shape_exact :
      (v : Json)
      → (validate_json_shape limits v ≡ answered (items_of v))
        ↔ (Shaped 1 v × (items_of v ≤ limits.max_json_items))
  unfolding validate_json_shape
  validate_json_shape_exact v = (
    λ h. let (shaped, _, bounded) = visit-answered v 1 0 (items_of v) h in (shaped, bounded),
    λ (shaped, bounded).
        visit-Shaped v 1 0 shaped (omega (arith, bounded)) ∙ ap answered (omega arith),
  )
