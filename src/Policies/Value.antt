-- ===== src/Policies/Value.antt =====
-- What a parsed policy document holds. Lists, tuples and sets are sequences, the keys of mappings are
-- texts, and whole numbers are within the range of floats.
use agent_roi.Base.{
  ℕ, String, Bool, false, Option, none, some, List, leb, not, ◌==◌, ◌||◌, any, if◌then◌else◌,
}

pub data ℤ : Type 0 where
  pos : ℕ → ℤ
  -- `negsuc n` is minus `n + 1`
  negsuc : ℕ → ℤ

-- `number >= n`
abbrev pub at_least : ℕ → ℤ → Bool
at_least n (pos m) = leb n m
at_least n (negsuc m) = false

mutual
  pub data Value (F : Type 0) : Type 0 where
    null : Value F
    flag : Bool → Value F
    whole : ℤ → Value F
    real : F → Value F
    text : String → Value F
    sequence : Values F → Value F
    mapping : Entries F → Value F
    -- a value of another type
    opaque : Value F

  pub data Values (F : Type 0) : Type 0 where
    no_values : Values F
    value : Value F → Values F → Values F

  pub data Entries (F : Type 0) : Type 0 where
    no_entries : Entries F
    entry : String → Value F → Entries F → Entries F

-- What the code does with numbers: `float(n)` of a whole number, `float(text)`, whether a float equals its
-- `int`, that `int`, `str` of a value, and
-- `str.lower`.
pub record Conversions (F : Type 0) : Type 0 where
  pub of_int : ℤ → F
  pub of_text : String → Option F
  pub is_whole : F → Bool
  pub to_int : F → ℤ
  pub printed : Value F → String
  pub lower : String → String

module _ {F : Type 0} where
  -- `mapping.get(key)`
  abbrev pub lookup : String → Entries F → Option (Value F)
  lookup key no_entries = none
  lookup key (entry k v rest) = if k == key then some v else lookup key rest

  -- whether a keyword that is not expected is given
  abbrev pub has_other : List String → Entries F → Bool
  has_other keys no_entries = false
  has_other keys (entry k v rest) = not (any (λ key. key == k) keys) || has_other keys rest

  -- `float(value)` where `_is_number` holds
  abbrev pub number_of : Conversions F → Value F → Option F
  number_of c (whole n) = some (c.of_int n)
  number_of c (real x) = some x
  number_of c _ = none

  -- `float(value)` of any value
  abbrev pub to_float : Conversions F → Value F → Option F
  to_float c (flag b) = some (c.of_int (pos (if b then 1 else 0)))
  to_float c (whole n) = some (c.of_int n)
  to_float c (real x) = some x
  to_float c (text t) = c.of_text t
  to_float c _ = none
