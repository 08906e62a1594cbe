-- ===== src/Context/Tests/Passing.antt =====
-- The theorems on what a call has passed and what it costs, at concrete calls.
use agent_roi.Base.{ℕ, refl, true, false, none, some, []}
use agent_roi.Base.Text
use agent_roi.Result.{ok}
use agent_roi.Dict
use agent_roi.Float.Sample.{whole}
use agent_roi.Control.Guardrails.{validate_limits, validate_cost_amount, validate_tool_allowed}
use agent_roi.Tools.Grant.{ApprovalGrant, validate}
use agent_roi.Tools.Registry.Laws.{IsPriced}
use agent_roi.Tools.Spec.{ToolSpec}
use agent_roi.Context.Types.{Controls, Prepared, Checkpoint, ApprovalCallback, granted, missing}
use agent_roi.Context.Counters.{check_limits}
use agent_roi.Context.Resolve.{
  resolve_tool, authorize_access, registered_minimum, select_cost, estimated_cost,
}
use agent_roi.Context.Prepare.{
  seek_approval, authorize, reserve, select_tool, price_call, confirm_call, request_call,
  prepare_call,
}
use agent_roi.Context.Guards.{Admitted, IsApproved, authorize-IsApproved, prepare_call-Admitted}
use agent_roi.Context.Tests.{handler, lookup, digests, env, controls, idle}

abbrev prepared : Prepared ℕ ℕ ℕ ℕ ℕ
prepared = record {
  handler = handler;
  args = [];
  spec = some lookup;
  cost = 3;
  base = record {
    tool_name = "lookup";
    tool_version = "1.0.0";
    risk = "low";
    requires_approval = false;
    cost = 3;
    arguments_digest = "";
    action_digest = none;
    handler = "tools.lookup";
    principal_subject = "alice";
  };
}

prepare_call-Admitted_example : Admitted whole digests env controls "lookup" (some lookup)
unfolding prepare_call select_tool validate_tool_allowed Text.strip resolve_tool Dict.get
    authorize_access price_call estimated_cost validate_cost_amount request_call authorize
    confirm_call reserve check_limits validate_limits registered_minimum select_cost
prepare_call-Admitted_example =
    prepare_call-Admitted whole digests env controls "lookup" missing [] [] none false idle prepared
      refl

abbrev grant : ApprovalGrant
grant = record {
  action_digest = "d";
  approved_by = "ann";
  expires_at = 50;
  checkpoint_id = some "c";
  reason = "";
}

abbrev callback : ApprovalCallback ℕ ℕ ℕ ℕ ℕ
callback = record {
  takes_checkpoint = true;
  ask = λ spec args kwargs cp w. (ok (granted grant), w);
}

abbrev approving : Controls ℕ ℕ ℕ ℕ ℕ
approving = record controls { approval_callback = some callback }

abbrev checkpoint : Checkpoint ℕ
checkpoint = record {
  checkpoint_id = "c";
  correlation_id = "c";
  run_id = "r";
  tool_name = "lookup";
  tool_version = "1.0.0";
  risk = "low";
  estimated_cost = 3;
  action_digest = "d";
  policy_digest = "";
  arguments_digest = "";
  created_at = 7;
  expires_at = 60;
  principal_subject = "alice";
  organization_id = "";
  environment = "";
  agent_id = "";
}

abbrev asking : ToolSpec ℕ ℕ ℕ ℕ ℕ
asking = record lookup { requires_approval = true }

authorize-IsApproved_example :
    IsApproved whole digests env approving (some asking) [] [] (some checkpoint) 7
unfolding seek_approval authorize validate
authorize-IsApproved_example =
    authorize-IsApproved whole digests env approving (some asking) [] [] (some checkpoint) idle refl
      refl

lookup-IsPriced : IsPriced whole lookup
lookup-IsPriced = record { finite = refl; nonneg = refl }
