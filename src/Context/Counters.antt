-- ===== src/Context/Counters.antt =====
-- The counters of `SentinelContext`: each step is checked at its prospective value, and is not counted
-- if the check raises.
use agent_roi.Base.{ℕ, ◌+◌, Option, none, some}
use agent_roi.Result.{Result, ok, Exec}
use agent_roi.Float.{Float}
use agent_roi.Control.Guardrails.{Guardrails, Violation, validate_limits, validate_cost_amount}
use agent_roi.Exec.{modify, lift, ◌>>=◌, ◌>>◌}
use agent_roi.Context.Types.{Controls, Run, ToolError, violation}

module _ (fl : Float) where
  open fl use {F, add}

  -- `if self._guardrails is not None: self._guardrails.validate_limits(…)`
  unfoldable pub check_limits : Option (Guardrails F) → ℕ → ℕ → F → Result Violation (Unit {0})
  check_limits none steps tool_calls cost = ok tt
  check_limits (some g) steps tool_calls cost = validate_limits fl g steps tool_calls cost

  module _ {A V X W : Type 0} (c : Controls F A V X W) where
    unfoldable pub bump_step : Exec (ToolError F X) (Run F V W) (Unit {0})
    bump_step r =
        (do
          lift violation (check_limits c.guardrails (r.steps + 1) r.tool_calls r.cost)
          modify (λ s. record s { steps = r.steps + 1 }))
          r

    unfoldable pub bump_tool_call : Exec (ToolError F X) (Run F V W) (Unit {0})
    bump_tool_call r =
        (do
          lift violation (check_limits c.guardrails r.steps (r.tool_calls + 1) r.cost)
          modify (λ s. record s { tool_calls = r.tool_calls + 1 }))
          r

    unfoldable pub add_cost : Option F → Exec (ToolError F X) (Run F V W) (Unit {0})
    add_cost amount r =
        (do
          a ← lift violation (validate_cost_amount fl amount)
          lift violation (check_limits c.guardrails r.steps r.tool_calls (add r.cost a))
          modify (λ s. record s { cost = add r.cost a }))
          r
