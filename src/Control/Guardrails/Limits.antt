-- ===== src/Control/Guardrails/Limits.antt =====
-- What `validate_limits` lets through, exactly.
use agent_roi.Base.{ℕ, ◌≤◌, ◌≡◌, ◌↔◌, true, false, arith}
use agent_roi.Result.{ok}
use agent_roi.Float.{Float}
use agent_roi.Control.Guardrails.{Guardrails, validate_limits}

module _ (fl : Float) where
  open fl use {F, nought, lt, is_finite}

  -- The counters are within the limits, and the cost is finite, not negative and not above its limit.
  pub record WithinLimits (g : Guardrails F) (steps tool_calls : ℕ) (cost : F) : Type 0 where
    pub steps_fit : steps ≤ g.max_steps
    pub calls_fit : tool_calls ≤ g.max_tool_calls
    pub cost_fits : lt g.max_cost cost ≡ false
    pub cost_finite : is_finite cost ≡ true
    pub cost_nonneg : lt cost nought ≡ false

  -- `validate_limits` accepts the counters and the cost exactly if they are within the limits.
  pub validate_limits_iff :
      (g : Guardrails F) (steps tool_calls : ℕ) (cost : F)
      → (validate_limits fl g steps tool_calls cost ≡ ok tt) ↔ WithinLimits g steps tool_calls cost
  unfolding validate_limits
  validate_limits_iff g steps tool_calls cost = (λ h. ground arith, λ w. ground arith)
