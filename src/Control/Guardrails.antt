-- ===== src/Control/Guardrails.antt =====
-- `Guardrails` of control/guardrails.py. Counters are naturals, so the tests for negative counters
-- and for values of a wrong Python type have no counterpart.
pub mod Limits
mod Tests
use agent_roi.Base.{
  ℕ, String, Bool, true, false, Option, none, some, List, [], ◌∷◌, map, ◌==◌, ltb, not, any, ◌||◌,
  is_some, if◌then◌else◌,
}
use agent_roi.Base.Text.{strip, is_blank}
use agent_roi.Result.{Result, ok, err, ◌>>=◌, ◌>>◌, raise_if}
use agent_roi.Float.{Float}

pub record Guardrails (F : Type 0) : Type 0 where
  pub max_steps : ℕ
  pub max_tool_calls : ℕ
  pub max_cost : F
  pub deterministic : Bool
  pub allowed_tools : Option (List String)
  pub require_registered_tools : Bool
  pub require_bound_approval_grants : Bool

-- The `ValueError`s of `__post_init__`.
pub data GuardrailsError : Type 0 where
  bad_max_steps bad_max_cost blank_allowed_tool : GuardrailsError

-- `GuardrailViolation`, one constructor for each message of this module.
pub data Violation : Type 0 where
  cost_not_numeric cost_not_valid blank_tool_name not_allowlisted : Violation
  steps_exceeded tool_calls_exceeded cost_exceeded : Violation

abbrev pub names_blank : Option (List String) → Bool
names_blank none = false
names_blank (some names) = any is_blank names

abbrev stripped : Option (List String) → Option (List String)
stripped none = none
stripped (some names) = some (map strip names)

module _ (fl : Float) where
  open fl use {F, nought, lt, is_finite}

  -- `__post_init__`, which also normalises the names of the tools
  unfoldable pub check_guardrails : Guardrails F → Result GuardrailsError (Guardrails F)
  check_guardrails g = do
    raise_if (ltb g.max_steps 1) bad_max_steps
    raise_if (not (is_finite g.max_cost) || lt g.max_cost nought) bad_max_cost
    raise_if (names_blank g.allowed_tools) blank_allowed_tool
    ok (record g { allowed_tools = stripped g.allowed_tools })

  -- `float(amount_usd)` is `none` where it raises
  unfoldable pub validate_cost_amount : Option F → Result Violation F
  validate_cost_amount none = err cost_not_numeric
  validate_cost_amount (some amount) =
      if not (is_finite amount) || lt amount nought then err cost_not_valid else ok amount

  unfoldable pub validate_limits : Guardrails F → ℕ → ℕ → F → Result Violation (Unit {0})
  unfolding validate_cost_amount
  validate_limits g steps tool_calls cost = do
    amount ← validate_cost_amount (some cost)
    raise_if (ltb g.max_steps steps) steps_exceeded
    raise_if (ltb g.max_tool_calls tool_calls) tool_calls_exceeded
    raise_if (lt g.max_cost amount) cost_exceeded

-- `tool_name not in self.allowed_tools`
abbrev pub not_listed : Option (List String) → String → Bool
not_listed none name = false
not_listed (some names) name = not (any (λ n. n == name) names)

unfoldable pub validate_tool_allowed :
    {F : Type 0} → Guardrails F → String → Result Violation (Unit {0})
validate_tool_allowed g name = do
  raise_if (is_blank name) blank_tool_name
  raise_if (not_listed g.allowed_tools name) not_allowlisted
