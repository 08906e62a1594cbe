-- ===== src/Control/Guardrails/Tests.antt =====
-- The guardrails at concrete counters.
use agent_roi.Base.{ℕ, ◌≡◌, refl, true, none}
use agent_roi.Result.{err}
use agent_roi.Float.Sample.{whole}
use agent_roi.Control.Guardrails.{Guardrails, validate_cost_amount, validate_limits, cost_exceeded}

abbrev limits : Guardrails ℕ
limits = record {
  max_steps = 5;
  max_tool_calls = 2;
  max_cost = 10;
  deterministic = true;
  allowed_tools = none;
  require_registered_tools = true;
  require_bound_approval_grants = true;
}

over_test : validate_limits whole limits 1 1 11 ≡ err cost_exceeded
unfolding validate_limits validate_cost_amount
over_test = refl
