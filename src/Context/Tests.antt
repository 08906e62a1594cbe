-- ===== src/Context/Tests.antt =====
-- A context with two tools, and its theorems at concrete calls. Arguments, results, exceptions and
-- the world are numbers; a handler counts its runs in the world.
mod Passing
use agent_roi.Base.{ℕ, ◌+◌, ◌≡◌, refl, true, false, none, some, [], ◌∷◌, arith}
use agent_roi.Result.{ok, err, Result}
use agent_roi.Float.Sample.{whole}
use agent_roi.Dict
use agent_roi.Dict.{Dict}
use agent_roi.Base.Text
use agent_roi.Control.Guardrails.{
  Guardrails, tool_calls_exceeded, validate_limits, validate_cost_amount, validate_tool_allowed,
}
use agent_roi.Resilience.Breaker.{CircuitBreaker, closed}
use agent_roi.Tools.Spec.{ToolSpec, Handler}
use agent_roi.Context.Types.{recorded, Digests, Controls, Env, Run, ToolError, violation, missing}
use agent_roi.Context.Counters.{check_limits, bump_step, bump_tool_call, add_cost}
use agent_roi.Context.Resolve.{
  resolve_tool, authorize_access, registered_minimum, select_cost, estimated_cost,
}
use agent_roi.Context.Prepare.{
  authorize, reserve, select_tool, price_call, confirm_call, request_call, prepare_call,
}
use agent_roi.Context.Execute.{
  Values, raw_call, protected_call, retrying, attempts, guarded, with_policy, execute_sync,
}
use agent_roi.Context.Call.{conclude, execute_prepared, call_tool}
use agent_roi.Context.Reservation.{Reserves, prepare_call-Reserves}
use agent_roi.Context.Limits.{InLimits, call_tool-WithinLimits, counters-WithinLimits}

abbrev pub handler : Handler ℕ ℕ ℕ ℕ
handler = record {
  ref = 1;
  identity = "tools.lookup";
  is_async = false;
  run = λ args kwargs w. (ok (10 + w), w + 1);
}

abbrev pub lookup : ToolSpec ℕ ℕ ℕ ℕ ℕ
lookup = record {
  name = "lookup";
  handler = handler;
  description = "";
  risk = "low";
  requires_approval = false;
  default_cost = 3;
  version = "1.0.0";
  approval_ttl_seconds = 60;
  cost_estimator = none;
  timeout_seconds = none;
  retry_policy = none;
  circuit_breaker = false;
  idempotency_policy = none;
}

abbrev limits : Guardrails ℕ
limits = record {
  max_steps = 5;
  max_tool_calls = 1;
  max_cost = 10;
  deterministic = true;
  allowed_tools = some ("lookup" ∷ []);
  require_registered_tools = true;
  require_bound_approval_grants = true;
}

abbrev pub digests : Digests ℕ ℕ
digests = record {
  action = λ a. a.tool_name;
  checkpoint = λ correlation run action expires. action;
  arguments = λ args kwargs. "";
}

abbrev pub env : Env ℕ ℕ
env = record {
  monotonic = λ w. w;
  utc = λ w. w;
  epoch_ms = λ w. w;
  random = λ w. 0;
  sleep = λ n w. (true, w);
}

abbrev values : Values ℕ ℕ ℕ
values = record {
  is_awaitable = λ v. false;
  is_exception = λ x. true;
  describe = λ e. "";
  replay = λ v. 0;
  unreachable = 0;
  overflow = 34;
}

abbrev pub controls : Controls ℕ ℕ ℕ ℕ ℕ
controls = record {
  correlation_id = "c";
  run_id = "r";
  guardrails = some limits;
  registry = some (record { tools = record { entries = ("lookup", lookup) ∷ [] }; frozen = true });
  approval_callback = none;
  audit_emitter = some (λ e w. recorded);
  policy_digest = "";
  principal = some "alice";
  authorizer = some (λ subject name context. true);
  organization_id = "";
  environment = "";
  agent_id = "";
}

abbrev breaker : CircuitBreaker
breaker = record {
  failure_threshold = 2;
  recovery_timeout = 30;
  success_threshold = 1;
  state = closed;
  failures = 0;
  successes = 0;
  opened_at = 0;
  probe_in_flight = false;
}

abbrev pub idle : Run ℕ ℕ ℕ
idle = record {
  steps = 0;
  tool_calls = 0;
  cost = 0;
  events = [];
  breakers = λ name. breaker;
  records = [];
  world = 7;
}

-- the caller pays more than the default, and then the limit on calls is reached
abbrev called : Run ℕ ℕ ℕ → Result (ToolError ℕ ℕ) ℕ × Run ℕ ℕ ℕ
called = call_tool whole digests env values controls "lookup" missing [] [] (some (some 4))

called_test : ((called idle).0 ≡ ok 17) × ((called idle).1.cost ≡ 4)
unfolding call_tool prepare_call select_tool validate_tool_allowed Text.strip resolve_tool Dict.get
    authorize_access price_call estimated_cost validate_cost_amount request_call authorize
    confirm_call reserve check_limits validate_limits execute_sync conclude execute_prepared
    attempts guarded protected_call raw_call retrying with_policy registered_minimum select_cost
called_test = (refl, refl)

second_test : (called (called idle).1).0 ≡ err (violation tool_calls_exceeded)
unfolding call_tool prepare_call select_tool validate_tool_allowed Text.strip resolve_tool Dict.get
    authorize_access price_call estimated_cost validate_cost_amount request_call authorize
    confirm_call reserve check_limits validate_limits execute_sync conclude execute_prepared
    attempts guarded protected_call raw_call retrying with_policy registered_minimum select_cost
second_test = refl

idle-InLimits : InLimits whole limits idle
idle-InLimits = record {
  steps_fit = omega arith;
  calls_fit = omega arith;
  cost_fits = refl;
  cost_finite = refl;
  cost_nonneg = refl;
}

call_tool-WithinLimits_example : InLimits whole limits (called idle).1
call_tool-WithinLimits_example =
    call_tool-WithinLimits whole digests env values controls limits "lookup" missing [] []
      (some (some 4)) idle refl idle-InLimits

prepare_call-Reserves_example :
    Reserves whole digests env controls idle
      (prepare_call whole digests env controls "lookup" missing [] [] none false idle)
prepare_call-Reserves_example =
    prepare_call-Reserves whole digests env controls "lookup" missing [] [] none false idle
