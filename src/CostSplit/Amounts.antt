-- ===== src/CostSplit/Amounts.antt =====
-- What the cost split uses of Python's floats: comparison, arithmetic and `round(x, 2)`. The laws
-- are those of finite floats: `<=` is a total preorder, `round(_, 2)` keeps the order and rounds a
-- rounded number to itself, and a product with a factor that is not negative keeps the order.
use enishi.Prelude.{ℕ, ◌≡◌, ◌⊎◌, Bool, true, not, arith, if◌then◌else◌}

pub record Amounts : Type 1 where
  pub Amount : Type 0
  pub le : Amount → Amount → Bool
  pub add : Amount → Amount → Amount
  pub sub : Amount → Amount → Amount
  pub mul : Amount → Amount → Amount
  -- `round(x, 2)`
  pub round2 : Amount → Amount
  -- The literal of so many digits and so many decimal places.
  pub decimal : ℕ → ℕ → Amount
  pub le_total : (a b : Amount) → (le a b ≡ true) ⊎ (le b a ≡ true)
  pub le_trans : (a b c : Amount) → le a b ≡ true → le b c ≡ true → le a c ≡ true
  pub round2_mono : (a b : Amount) → le a b ≡ true → le (round2 a) (round2 b) ≡ true
  pub round2_idem : (a : Amount) → round2 (round2 a) ≡ round2 a
  pub mul_mono :
      (t a b : Amount) → le (decimal 0 0) t ≡ true → le a b ≡ true → le (mul t a) (mul t b) ≡ true

module _ (num : Amounts) where
  open num use {Amount, le}

  -- `a > b`
  abbrev pub gt : Amount → Amount → Bool
  gt a b = not (le a b)

  -- Python's `min(a, b)` and `max(a, b)`: the first argument unless the second is better.
  abbrev pub min : Amount → Amount → Amount
  min a b = if le a b then a else b

  abbrev pub max : Amount → Amount → Amount
  max a b = if le b a then a else b

  pub le_refl : (a : Amount) → le a a ≡ true
  le_refl a = ground (arith, num.le_total a a)

  pub min-le_left : (a b : Amount) → le (min a b) a ≡ true
  min-le_left a b = ground (arith, num.le_total a b, le_refl a)

  pub min-le_right : (a b : Amount) → le (min a b) b ≡ true
  min-le_right a b = ground (arith, le_refl b)

  pub le-max_left : (a b : Amount) → le a (max a b) ≡ true
  le-max_left a b = ground (arith, num.le_total a b, le_refl a)

  pub le-min : (a b c : Amount) → le c a ≡ true → le c b ≡ true → le c (min a b) ≡ true
  le-min a b c p q = ground arith

  -- A bound that is rounded itself survives the rounding of what it bounds.
  pub round2-le : (a b : Amount) → num.round2 b ≡ b → le a b ≡ true → le (num.round2 a) b ≡ true
  round2-le a b e h = rw e at (num.round2_mono a b h)

  pub le-round2 : (a b : Amount) → num.round2 a ≡ a → le a b ≡ true → le a (num.round2 b) ≡ true
  le-round2 a b e h = rw e at (num.round2_mono a b h)
