-- ===== src/Relay/Json.antt =====
-- `_validate_json_shape` of services/relay/relay/main.py: how deep, how long and how large the JSON
-- of a message may be. One counter runs through the whole walk.
use enishi.Prelude.{ℕ, ◌+◌, Bool, not, ltb}
use enishi.Relay.Answers.{
  Answer, answered, ◌then◌, refuse_if, nested_too_deep, string_too_long, number_not_finite,
  too_many_items,
}

-- A text by its length, a number by whether it is finite. Members have a key and a value.
mutual
  pub data Json : Type 0 where
    text : ℕ → Json
    number : Bool → Json
    other : Json
    array : Items → Json
    object : Members → Json

  pub data Items : Type 0 where
    no_items : Items
    item : Json → Items → Items

  pub data Members : Type 0 where
    no_members : Members
    member : ℕ → Json → Members → Members

pub record JsonLimits : Type 0 where
  pub max_json_depth : ℕ
  pub max_string_length : ℕ
  pub max_json_items : ℕ

abbrev pub items_length : Items → ℕ
items_length no_items = 0
items_length (item v rest) = 1 + items_length rest

abbrev pub members_length : Members → ℕ
members_length no_members = 0
members_length (member k v rest) = 1 + members_length rest

module _ (limits : JsonLimits) where
  -- The last test of every visit.
  abbrev pub counted : ℕ → Answer ℕ
  counted count = refuse_if (ltb limits.max_json_items count) too_many_items (answered count)

  abbrev pub visit_text : ℕ → ℕ → ℕ → Answer ℕ
  visit_text n depth count =
      refuse_if (ltb limits.max_json_depth depth) nested_too_deep
        (refuse_if (ltb limits.max_string_length n) string_too_long (counted count))

  unfoldable mutual
    pub visit : Json → ℕ → ℕ → Answer ℕ
    visit (text n) depth count = visit_text n depth count
    visit (number finite) depth count =
        refuse_if (ltb limits.max_json_depth depth) nested_too_deep
          (refuse_if (not finite) number_not_finite (counted count))
    visit other depth count =
        refuse_if (ltb limits.max_json_depth depth) nested_too_deep (counted count)
    visit (array xs) depth count =
        refuse_if (ltb limits.max_json_depth depth) nested_too_deep
          (visit_items xs depth (count + items_length xs) then counted)
    visit (object ms) depth count =
        refuse_if (ltb limits.max_json_depth depth) nested_too_deep
          (visit_members ms depth (count + members_length ms) then counted)

    pub visit_items : Items → ℕ → ℕ → Answer ℕ
    visit_items no_items depth count = answered count
    visit_items (item v rest) depth count =
        visit v (depth + 1) count then λ c. visit_items rest depth c

    pub visit_members : Members → ℕ → ℕ → Answer ℕ
    visit_members no_members depth count = answered count
    visit_members (member k v rest) depth count = visit_text k (depth + 1) count then λ c.
        visit v (depth + 1) c then λ c'. visit_members rest depth c'

  unfoldable pub validate_json_shape : Json → Answer ℕ
  unfolding visit
  validate_json_shape value = visit value 1 0
