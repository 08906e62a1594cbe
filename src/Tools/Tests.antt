-- ===== src/Tools/Tests.antt =====
-- The registry and the grants at concrete tools.
use agent_roi.Base.{ℕ, false, none, some, [], arith}
use agent_roi.Result.{ok}
use agent_roi.Float.Sample.{whole}
use agent_roi.Dict
use agent_roi.Tools.Grant.{ApprovalGrant}
use agent_roi.Tools.Spec.{Handler, ToolSpec}
use agent_roi.Tools.Registry.{ToolRegistry}
use agent_roi.Tools.Registry.Laws.{IsSound}

abbrev grant : ApprovalGrant
grant = record {
  action_digest = "d";
  approved_by = "ann";
  expires_at = 50;
  checkpoint_id = some "c";
  reason = "";
}

abbrev handler : Handler ℕ ℕ ℕ ℕ
handler = record { ref = 1; identity = "f"; is_async = false; run = λ args kwargs w. (ok w, w) }

abbrev lookup : ToolSpec ℕ ℕ ℕ ℕ ℕ
lookup = record {
  name = "lookup";
  handler = handler;
  description = "";
  risk = "low";
  requires_approval = false;
  default_cost = 3;
  version = "1.0.0";
  approval_ttl_seconds = 60;
  cost_estimator = none;
  timeout_seconds = none;
  retry_policy = none;
  circuit_breaker = false;
  idempotency_policy = none;
}

abbrev tools : ToolRegistry (ToolSpec ℕ ℕ ℕ ℕ ℕ)
tools = record { tools = record { entries = [] }; frozen = false }

tools-IsSound : IsSound whole tools
unfolding Dict.get
tools-IsSound = record { named = λ k s h. ground (arith, h); priced = λ k s h. ground (arith, h) }
