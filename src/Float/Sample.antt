-- ===== src/Float/Sample.antt =====
-- Whole numbers in place of floats: the laws that the components assume can hold.
use agent_roi.Base.{some, ℕ, ◌+◌, ◌-◌, ◌*◌, ◌/◌, ◌^◌, ◌≡◌, refl, true, false, arith, ltb, nat_eq}
use agent_roi.Float.{Float}

pub le_trans : (a b c : ℕ) → ltb b a ≡ false → ltb c b ≡ false → ltb c a ≡ false
le_trans a b c h k = ground arith

pub lt_asymm : (a b : ℕ) → ltb a b ≡ true → ltb b a ≡ false
lt_asymm a b h = ground arith

pub lt_irrefl : (a : ℕ) → ltb a a ≡ false
lt_irrefl a = ground arith

pub add_grows : (a b : ℕ) → ltb (a + b) a ≡ false
add_grows a b = ground arith

abbrev pub whole : Float
whole = record {
  F = ℕ;
  nought = 0;
  one = 1;
  add = λ a b. a + b;
  sub = λ a b. a - b;
  mul = λ a b. a * b;
  div = λ a b. a / b;
  pow = λ a n. some (a ^ n);
  lt = ltb;
  eq = nat_eq;
  is_finite = λ a. true;
  lt_irrefl = lt_irrefl;
  lt_asymm = lt_asymm;
  one_pos = refl;
  nought_finite = refl;
  le_trans = λ a b c f h k. le_trans a b c h k;
  add_grows = λ a b h. add_grows a b;
}
