-- ===== src/Approvals/Broker/Tests.antt =====
-- A broker with one pending request, and its theorems at it.
use agent_roi.Base.{ℕ, ◌≡◌, refl, String, true, none, some, [], ◌∷◌, arith}
use agent_roi.Base.Text
use agent_roi.Result.{ok}
use agent_roi.Dict
use agent_roi.Dict.{Dict}
use agent_roi.Tools.Grant
use agent_roi.Tools.Grant.{ApprovalGrant, Covers, check_grant, validate}
use agent_roi.Context.Types.{Checkpoint}
use agent_roi.Approvals.Broker.{
  pending, approved, denied, ApprovalRequest, ApprovalRecord, Desk, Broker, settled, granted, issue,
  settle, decide, current_grant, replay_action, ask,
}
use agent_roi.Approvals.Broker.Decisions.{Proper, decide-Proper}
use agent_roi.Approvals.Broker.Replays.{ask-Covers}

abbrev digest : String
digest = "0123456789abcdef0123456789abcdef0123456789abcdef0123456789abcdef"

abbrev desk : Desk ℕ
desk = record {
  submit = λ request. ok "ticket";
  update = λ r. ok tt;
  environment = "prod";
  requested_by = "bot";
  authorizer = some (λ principal tool environment. true);
}

abbrev request : ApprovalRequest
request = record {
  request_id = "r1";
  checkpoint_id = "c1";
  action_digest = digest;
  environment = "prod";
  tool_name = "pay";
  risk = "high";
  created_at = 10;
  expires_at = 5000;
  requested_by = "bot";
}

abbrev waiting : ApprovalRecord
waiting = record {
  request = request;
  status = pending;
  external_id = "ticket";
  decided_by = "";
  reason = "";
  decided_at = 0;
}

abbrev refused : ApprovalRecord
refused = settled waiting denied "ann" "no" 20

abbrev grant : ApprovalGrant
grant = granted waiting "c1" "ann" "fine" none 20

abbrev broker : ApprovalRecord → Broker
broker r = record {
  records = record { entries = ("c1", r) ∷ [] };
  grants = record { entries = [] };
  approved_actions = record { entries = (digest, grant) ∷ [] };
}

-- another checkpoint for the action that was approved
abbrev checkpoint : String → Checkpoint ℕ
checkpoint id = record {
  checkpoint_id = id;
  correlation_id = "k";
  run_id = "r";
  tool_name = "pay";
  tool_version = "1";
  risk = "high";
  estimated_cost = 5;
  action_digest = digest;
  policy_digest = "";
  arguments_digest = "";
  created_at = 30;
  expires_at = 900;
  principal_subject = "";
  organization_id = "";
  environment = "prod";
  agent_id = "";
}

abbrev replay : ApprovalGrant
replay = record grant { checkpoint_id = some "c2"; expires_at = 900 }

ask-Covers_example : Covers replay digest "c2" 30
unfolding ask current_grant replay_action check_grant Dict.get Dict.put Text.strip Grant.all_hex
ask-Covers_example =
    ask-Covers desk (checkpoint "c2") "f" 30 replay (broker waiting) (omega arith) refl

decide-Proper_example :
    Proper desk waiting "ann" 20
    × (settled waiting approved "ann" "fine" 20
        ≡ settled waiting approved (Text.strip "ann") "fine" 20)
    × (Dict.get (decide desk "c1" true "ann" "fine" none 20 (broker waiting)).1.records "c1"
        ≡ some (settled waiting approved "ann" "fine" 20))
unfolding decide settle issue check_grant Dict.get Dict.put Text.strip Grant.all_hex
decide-Proper_example =
    decide-Proper desk "c1" "ann" "fine" true none 20 waiting
      (settled waiting approved "ann" "fine" 20) (broker waiting) refl refl
