-- ===== src/Policies/Validate.antt =====
-- The checks of policies/validate.py. An error is the path of the entry and what is wrong with it; a check
-- returns the errors that it appends.
use agent_roi.Base.{
  ℕ, String, Bool, true, false, Option, none, some, List, [], ◌∷◌, ◌++◌, not, ◌&&◌, ◌||◌,
  if◌then◌else◌,
}
use agent_roi.Base.Text.{is_blank}
use agent_roi.Float.{Float}
use agent_roi.Policies.Value.{
  ℤ, at_least, Value, Values, Entries, Conversions, null, flag, whole, real, text, sequence,
  mapping, no_values, value, no_entries, lookup, number_of,
}

pub data Fault : Type 0 where
  no_mapping is_missing no_number not_finite too_small too_large no_integer no_flag : Fault
  no_list blank_name bad_item no_text no_outcome all_zero not_between : Fault

pub record PolicyError : Type 0 where
  pub path : List String
  pub fault : Fault

abbrev pub error_if : Bool → List String → Fault → List PolicyError
error_if true path fault = record { path = path; fault = fault } ∷ []
error_if false path fault = []

-- the errors of several checks, in their order
abbrev pub gathered : List (List PolicyError) → List PolicyError
gathered [] = []
gathered (errors ∷ rest) = errors ++ gathered rest

module _ {F : Type 0} where
  -- the entries of a mapping, none of any other value
  abbrev pub entries_of : Value F → Entries F
  entries_of (mapping o) = o
  entries_of _ = no_entries

  abbrev pub is_mapping : Value F → Bool
  is_mapping (mapping o) = true
  is_mapping _ = false

  -- `_require_mapping`
  abbrev pub require_mapping : Entries F → String → Bool → Entries F × List PolicyError
  require_mapping data_entries key required = elim (lookup key data_entries) [
    | none ↦ (no_entries, error_if required ("policy" ∷ key ∷ []) no_mapping)
    | some v ↦ (entries_of v, error_if (not (is_mapping v)) ("policy" ∷ key ∷ []) no_mapping)
  ]

  -- the test that a value is a boolean, and a text
  abbrev pub is_flag : Value F → Bool
  is_flag (flag b) = true
  is_flag _ = false

  abbrev pub is_null : Value F → Bool
  is_null null = true
  is_null _ = false

abbrev pub weight_keys : List String
weight_keys = "w_prob" ∷ "w_margin" ∷ "w_z" ∷ "w_entropy" ∷ "w_llm" ∷ []

abbrev pub weight_path : String → List String
weight_path key = "policy" ∷ "decision_policy" ∷ key ∷ []

module _ (fl : Float) (c : Conversions fl.F) where
  open fl use {F, nought, one, add, lt, eq, is_finite}

  -- `_is_finite_number`
  abbrev pub is_finite_number : Value F → Bool
  is_finite_number v = elim (number_of c v) [ none ↦ false | some x ↦ is_finite x ]

  -- the bounds of `_require_number`
  abbrev pub below : Option F → F → Bool
  below none x = false
  below (some low) x = lt x low

  abbrev pub above : Option F → F → Bool
  above none x = false
  above (some high) x = lt high x

  abbrev pub check_number : List String → Option F → Option F → Value F → List PolicyError
  check_number path low high v = elim (number_of c v) [
    | none ↦ error_if true path no_number
    | some x ↦
        if not (is_finite x)
        then error_if true path not_finite
        else error_if (below low x) path too_small ++ error_if (above high x) path too_large
  ]

  -- `_require_number` of a key that is required
  unfoldable pub require_number :
      Entries F → List String → String → Option F → Option F → List PolicyError
  require_number obj path key low high = elim (lookup key obj) [
    | none ↦ error_if true (path ++ key ∷ []) is_missing
    | some v ↦ check_number (path ++ key ∷ []) low high v
  ]

  -- `int(value)` of a finite number that equals it
  abbrev pub integer_of : Value F → Option ℤ
  integer_of (whole n) = if is_finite (c.of_int n) then some n else none
  integer_of (real x) = if is_finite x && c.is_whole x then some (c.to_int x) else none
  integer_of _ = none

  -- `_require_int_like` of a key that is required
  unfoldable pub require_int_like : Entries F → List String → String → ℕ → List PolicyError
  require_int_like obj path key low = elim (lookup key obj) [
    | none ↦ error_if true (path ++ key ∷ []) is_missing
    | some v ↦ elim (integer_of v) [
      | none ↦ error_if true (path ++ key ∷ []) no_integer
      | some n ↦ error_if (not (at_least low n)) (path ++ key ∷ []) too_small
    ]
  ]

  -- an entry of `allowed_tools` that is no text or a blank one
  abbrev pub any_unnamed : Values F → Bool
  any_unnamed no_values = false
  any_unnamed (value (text t) rest) = is_blank t || any_unnamed rest
  any_unnamed (value _ rest) = true

  -- `_validate_allowed_tools`
  unfoldable pub validate_allowed_tools : Entries F → List PolicyError
  validate_allowed_tools guardrails = elim (lookup "allowed_tools" guardrails) [
    | none ↦ []
    | some v ↦ elim v [
      | null ↦ []
      | sequence l ↦
          error_if (any_unnamed l) ("policy" ∷ "guardrails" ∷ "allowed_tools" ∷ []) blank_name
      | _ ↦ error_if true ("policy" ∷ "guardrails" ∷ "allowed_tools" ∷ []) no_list
    ]
  ]

  -- What the loop of `_validate_decision_weights` has found.
  pub record Weighing : Type 0 where
    pub total : F
    pub present : Bool
    pub errors : List PolicyError

  abbrev pub weigh_value : String → Value F → Weighing → Weighing
  weigh_value key v w = elim (number_of c v) [
    | none ↦ record w {
      present = true;
      errors = w.errors ++ error_if true (weight_path key) no_number;
    }
    | some x ↦
        if not (is_finite x)
        then record w {
          present = true;
          errors = w.errors ++ error_if true (weight_path key) not_finite;
        }
        else if lt x nought
        then record w {
          present = true;
          errors = w.errors ++ error_if true (weight_path key) too_small;
        }
        else record w { total = add w.total x; present = true }
  ]

  unfoldable pub weigh : Entries F → List String → Weighing → Weighing
  weigh policy [] w = w
  weigh policy (key ∷ keys) w = elim (lookup key policy) [
    | none ↦ weigh policy keys w
    | some v ↦ weigh policy keys (weigh_value key v w)
  ]

  -- `_validate_decision_weights`
  unfoldable pub validate_decision_weights : Entries F → List PolicyError
  unfolding weigh
  validate_decision_weights policy =
      let w = weigh policy weight_keys (record { total = nought; present = false; errors = [] }) in
      w.errors
      ++ error_if (w.present && eq w.total nought) ("policy" ∷ "decision_policy" ∷ []) all_zero
