-- ===== src/CostSplit/Cents.antt =====
-- Whole cents as the numbers of a cost split, and two clones, for tests.
use Prim.Native.Nat.{◌^◌}
use enishi.Prelude.{
  ℕ, ◌+◌, ◌-◌, ◌*◌, ◌/◌, ◌≤◌, ◌≡◌, refl, true, ◌⊎◌, Option, none, some, leb, arith,
}
use enishi.CostSplit.Amounts.{Amounts}
use enishi.CostSplit.Types.{CloneAgent}

pub le-mul : (t a b : ℕ) → a ≤ b → t * a ≤ t * b
le-mul t a b h = grind arith

pub le-div : (a b : ℕ) → a ≤ b → leb (a / 100) (b / 100) ≡ true
le-div a b h = ground arith

pub leb-le : (a b : ℕ) → leb a b ≡ true → a ≤ b
leb-le a b h = ground arith

pub leb-total : (a b : ℕ) → (leb a b ≡ true) ⊎ (leb b a ≡ true)
leb-total a b = ground arith

pub leb_trans : (a b c : ℕ) → leb a b ≡ true → leb b c ≡ true → leb a c ≡ true
leb_trans a b c p q = ground arith

-- Amounts in hundredths: a ratio is a number of hundredths too.
abbrev pub cents : Amounts
cents = record {
  Amount = ℕ;
  le = leb;
  add = ◌+◌;
  sub = ◌-◌;
  mul = λ a b. a * b / 100;
  round2 = λ a. a;
  decimal = λ d k. d * 100 / 10 ^ k;
  le_total = leb-total;
  le_trans = leb_trans;
  round2_mono = λ a b h. h;
  round2_idem = λ a. refl;
  mul_mono = λ t a b _ h. le-div (t * a) (t * b) (le-mul t a b (leb-le a b h));
}

abbrev pub clone : ℕ → Option ℕ → CloneAgent ℕ
clone id preferred = record {
  id = id;
  user_id = id + 100;
  version = 1;
  confidence_score = 80;
  cost_split_policy = some (record {
    max_auto_accept_amount = none;
    max_negotiable_amount = none;
    reservation_ratio = some 60;
    concession_ratio = none;
  });
  preferred_ratio = preferred;
  relationships = λ _. none;
}

abbrev pub asking : CloneAgent ℕ
asking = clone 1 none

abbrev pub paying : CloneAgent ℕ
paying = clone 2 (some 30)
