-- ===== src/Runtime/Tests.antt =====
-- A run of an agent that takes one step and answers 7, and the theorems at it. Floats are whole numbers.
use agent_roi.Base.{ℕ, ◌≡◌, refl, true, false, Option, none, some, [], ◌∷◌, count}
use agent_roi.Float.Sample.{whole}
use agent_roi.Result.{ok, Exec}
use agent_roi.Resilience.Breaker.{closed}
use agent_roi.Control.Decision.{abstain, DecisionPolicy, ConfidenceInputs, Numbers, score}
use agent_roi.Context.Types.{recorded, Controls, Run, ToolError}
use agent_roi.Context.Counters.{bump_step, check_limits}
use agent_roi.Runtime.Executor.{Session, Runner, log, start, call_agent, run}
use agent_roi.Runtime.Executor.Endings.{Ends, opening, is_completed, run-Ends}

abbrev numbers : Numbers ℕ
numbers = record { exp = λ x. 1; neg = λ x. 0; two_and_a_half = 2 }

abbrev policy : DecisionPolicy ℕ
policy = record {
  min_confidence = 1;
  abstain_action = abstain;
  w_prob = 1;
  w_margin = 0;
  w_z = 0;
  w_entropy = 0;
  w_llm = 0;
}

abbrev sure : ConfidenceInputs ℕ
sure = record {
  prob = some 5;
  margin = none;
  z_score = none;
  entropy = none;
  llm_self_score = none;
}

score_test : score whole numbers policy sure ≡ ok 1
unfolding score
score_test = refl

abbrev runner : Runner ℕ ℕ
runner = record {
  policy = policy;
  policy_digest = "d";
  sinks = (λ e. some "down") ∷ [];
  fail_on_event_sink_error = false;
  is_exception = λ x. true;
}

abbrev controls : Controls ℕ ℕ ℕ ℕ ℕ
controls = record {
  correlation_id = "c";
  run_id = "r";
  guardrails = none;
  registry = none;
  approval_callback = none;
  audit_emitter = some (λ e w. recorded);
  policy_digest = "d";
  principal = none;
  authorizer = none;
  organization_id = "";
  environment = "";
  agent_id = "";
}

abbrev session : Session ℕ ℕ ℕ ℕ
session = record {
  ctx = record {
    steps = 0;
    tool_calls = 0;
    cost = 0;
    events = [];
    breakers = λ name. record {
      failure_threshold = 1;
      recovery_timeout = 1;
      success_threshold = 1;
      state = closed;
      failures = 0;
      successes = 0;
      opened_at = 0;
      probe_in_flight = false;
    };
    records = [];
    world = 0;
  };
  logged = [];
  sink_errors = [];
}

abbrev agent : Exec (ToolError ℕ ℕ) (Run ℕ ℕ ℕ) (ℕ × Option (ConfidenceInputs ℕ))
agent r = (ok (7, some sure), r)

started : (start whole numbers runner controls session).0 ≡ ok tt
unfolding start log bump_step check_limits
started = refl

run-Ends_example :
    Ends whole numbers runner controls refl
      (run whole numbers runner controls agent none session).0
      (opening whole numbers runner controls refl
        (agent (start whole numbers runner controls session).1.ctx).1.events)
      (run whole numbers runner controls agent none session).1.logged
    × (count is_completed (run whole numbers runner controls agent none session).1.logged ≡ 1)
unfolding call_agent
run-Ends_example =
    run-Ends whole numbers runner controls refl agent none session refl started (λ x. refl)
      (λ x h. refl)
