-- ===== src/Float.antt =====
-- Python's floats, which the program computes with and does not implement: a parameter of the
-- components that handle money, delays and confidence, with the laws of IEEE 754 that they rest on.
pub mod Sample
use agent_roi.Base.{Option, ℕ, ◌≡◌, Bool, true, false, arith, if◌then◌else◌}

pub record Float : Type 1 where
  pub F : Type 0
  pub nought : F
  pub one : F
  pub add : F → F → F
  pub sub : F → F → F
  pub mul : F → F → F
  pub div : F → F → F
  -- `x ** n` for an integer `n` that is not negative; `none` where it overflows, which raises
  pub pow : F → ℕ → Option F
  -- `a < b`; false if either is not a number
  pub lt : F → F → Bool
  -- `a == b`
  pub eq : F → F → Bool
  pub is_finite : F → Bool
  pub lt_irrefl : (a : F) → lt a a ≡ false
  pub lt_asymm : (a b : F) → lt a b ≡ true → lt b a ≡ false
  pub one_pos : lt nought one ≡ true
  pub nought_finite : is_finite nought ≡ true
  -- Among finite numbers `not (b < a)` is an order.
  pub le_trans : (a b c : F) → is_finite b ≡ true → lt b a ≡ false → lt c b ≡ false → lt c a ≡ false
  -- Adding what is not negative does not make smaller, rounding and overflow included.
  pub add_grows : (a b : F) → lt b nought ≡ false → lt (add a b) a ≡ false

module _ (fl : Float) where
  open fl use {F, lt}

  -- `max(a, b)` keeps `a` unless `b` is greater; `min(a, b)` keeps `a` unless `b` is less.
  abbrev pub max : F → F → F
  max a b = if lt a b then b else a

  abbrev pub min : F → F → F
  min a b = if lt b a then b else a

  -- From the laws of the order alone, numbers that are not finite included.
  pub min-le_left : (a b : F) → lt a (min a b) ≡ false
  min-le_left a b = ground (arith, fl.lt_irrefl a, fl.lt_asymm b a)

  pub max-ge_left : (a b : F) → lt (max a b) a ≡ false
  max-ge_left a b = ground (arith, fl.lt_irrefl a, fl.lt_asymm a b)
