-- ===== src/Approvals/Broker.antt =====
-- `ApprovalBroker` of approvals/base.py, without a repository: what it knows is in its three
-- dictionaries. The provider, which may raise with an `X`, is an argument; a method reads the clock once.
pub mod Decisions
pub mod Replays
mod Tests
use agent_roi.Base.{
  ℕ, ◌+◌, ◌*◌, String, Bool, true, false, Option, none, some, ◌==◌, leb, ltb, min, is_some, nat_eq,
  not, ◌&&◌, ◌||◌, if◌then◌else◌,
}
use agent_roi.Base.Text.{strip, is_empty}
use agent_roi.Result.{Result, ok, err, Exec, is_ok}
use agent_roi.Exec.{pure, raise, raise_if, gets, modify, lift, ◌>>=◌, ◌>>◌}
use agent_roi.Dict
use agent_roi.Dict.{Dict}
use agent_roi.Tools.Grant.{ApprovalGrant, GrantError, check_grant, validate}
use agent_roi.Context.Types.{Checkpoint}

pub data ApprovalStatus : Type 0 where
  pending approved denied expired cancelled : ApprovalStatus

abbrev pub is_pending : ApprovalStatus → Bool
is_pending pending = true
is_pending _ = false

-- Only the fields that the broker reads or that bind the request are kept.
pub record ApprovalRequest : Type 0 where
  pub request_id : String
  pub checkpoint_id : String
  pub action_digest : String
  pub environment : String
  pub tool_name : String
  pub risk : String
  pub created_at : ℕ
  pub expires_at : ℕ
  pub requested_by : String

pub record ApprovalRecord : Type 0 where
  pub request : ApprovalRequest
  pub status : ApprovalStatus
  pub external_id : String
  pub decided_by : String
  pub reason : String
  pub decided_at : ℕ

pub data BrokerError (X : Type 0) : Type 0 where
  not_found already_decided request_expired access_denied no_approver own_action : BrokerError X
  bad_grant : GrantError → BrokerError X
  provider_raised : X → BrokerError X

-- What `__init__` sets for good.
pub record Desk (X : Type 0) : Type 0 where
  pub submit : ApprovalRequest → Result X String
  pub update : ApprovalRecord → Result X (Unit {0})
  pub environment : String
  pub requested_by : String
  -- `authorizer.require(principal, "approval.decide", tool_name, context)` returns
  pub authorizer : Option (String → String → String → Bool)

-- What changes.
pub record Broker : Type 0 where
  pub records : Dict ApprovalRecord
  pub grants : Dict ApprovalGrant
  pub approved_actions : Dict ApprovalGrant

abbrev pub Brokering : Type 0 → Type 0 → Type 0
Brokering X A = Exec (BrokerError X) Broker A

-- the grant for this checkpoint that an approval of the same action gives
abbrev pub replayed : {F : Type 0} → Checkpoint F → ApprovalGrant → ApprovalGrant
replayed cp g = record {
  action_digest = cp.action_digest;
  approved_by = g.approved_by;
  expires_at = min g.expires_at cp.expires_at;
  checkpoint_id = some cp.checkpoint_id;
  reason = g.reason;
}

abbrev pub submitted : ApprovalRequest → String → ApprovalRecord
submitted request external = record {
  request = request;
  status = pending;
  external_id = external;
  decided_by = "";
  reason = "";
  decided_at = 0;
}

abbrev pub settled : ApprovalRecord → ApprovalStatus → String → String → ℕ → ApprovalRecord
settled current status by reason now = record current {
  status = status;
  decided_by = by;
  reason = reason;
  decided_at = now;
}

-- `ttl_seconds or 900`
abbrev pub lifetime : Option ℕ → ℕ
lifetime none = 900
lifetime (some n) = if nat_eq n 0 then 900 else n

abbrev pub granted : ApprovalRecord → String → String → String → Option ℕ → ℕ → ApprovalGrant
granted current id by reason ttl now = record {
  action_digest = current.request.action_digest;
  approved_by = by;
  expires_at = min (now + lifetime ttl * 1000) current.request.expires_at;
  checkpoint_id = some id;
  reason = reason;
}

module _ {X F : Type 0} (desk : Desk X) where
  -- `ApprovalRequest.from_checkpoint`; `fresh` is drawn at random
  unfoldable pub from_checkpoint : Checkpoint F → String → ApprovalRequest
  from_checkpoint cp fresh = record {
    request_id = fresh;
    checkpoint_id = cp.checkpoint_id;
    action_digest = cp.action_digest;
    environment = desk.environment;
    tool_name = cp.tool_name;
    risk = cp.risk;
    created_at = cp.created_at;
    expires_at = cp.expires_at;
    requested_by = desk.requested_by;
  }

  -- the grant of this checkpoint, if it still holds; otherwise it is dropped
  unfoldable pub current_grant : Checkpoint F → ℕ → Brokering X (Option ApprovalGrant)
  current_grant cp now t = elim (Dict.get t.grants cp.checkpoint_id) [
    | none ↦ (ok none, t)
    | some g ↦
        if is_ok (validate g cp.action_digest cp.checkpoint_id now)
        then (ok (some g), t)
        else (ok none, record t { grants = Dict.remove t.grants cp.checkpoint_id })
  ]

  -- the approval of the same action, unless it has expired; then it is dropped
  unfoldable pub replay_action : Checkpoint F → ℕ → Brokering X (Option ApprovalGrant)
  replay_action cp now t = elim (Dict.get t.approved_actions cp.action_digest) [
    | none ↦ (ok none, t)
    | some g ↦
        if leb now g.expires_at
        then elim (check_grant (replayed cp g)) [
          | err e ↦ (err (bad_grant e), t)
          | ok r ↦ (ok (some r), record t { grants = Dict.put t.grants cp.checkpoint_id r })
        ]
        else (
          ok none,
          record t { approved_actions = Dict.remove t.approved_actions cp.action_digest },
        )
  ]

  -- one request for each checkpoint
  unfoldable pub submit_once : Checkpoint F → String → Brokering X (Unit {0})
  unfolding from_checkpoint
  submit_once cp fresh t =
      if Dict.contains t.records cp.checkpoint_id
      then (ok tt, t)
      else elim (desk.submit (from_checkpoint cp fresh)) [
        | err x ↦ (err (provider_raised x), t)
        | ok external ↦ (
          ok tt,
          record t {
            records =
                Dict.put t.records cp.checkpoint_id (submitted (from_checkpoint cp fresh) external);
          },
        )
      ]

  -- `__call__`: a grant, or `False` for `none`
  unfoldable pub ask : Checkpoint F → String → ℕ → Brokering X (Option ApprovalGrant)
  unfolding current_grant replay_action submit_once
  ask cp fresh now = do
    held ← current_grant cp now
    elim held [
      | some g ↦ pure (some g)
      | none ↦ (do
        replayed_grant ← replay_action cp now
        elim replayed_grant [
          | some g ↦ pure (some g)
          | none ↦ (do submit_once cp fresh; pure none)
        ])
    ]

module _ {X : Type 0} (desk : Desk X) where
  -- `self._records[checkpoint_id] = record`
  abbrev pub keep_record : String → ApprovalRecord → Brokering X (Unit {0})
  keep_record id r = modify (λ t. record t { records = Dict.put t.records id r })

  -- the grant of an approval, for the checkpoint and for the action
  unfoldable pub issue : String → ApprovalGrant → Brokering X (Unit {0})
  issue id grant = do
    g ← lift bad_grant (check_grant grant)
    modify (λ t. record t {
      grants = Dict.put t.grants id g;
      approved_actions = Dict.put t.approved_actions g.action_digest g;
    })

  -- a request whose time has passed
  unfoldable pub expire : String → ApprovalRecord → ℕ → Brokering X ApprovalRecord
  expire id current now = do
    keep_record id (settled current expired "" "" now)
    lift provider_raised (desk.update (settled current expired "" "" now))
    raise request_expired

  abbrev pub may_decide : ApprovalRecord → String → Bool
  may_decide current principal = elim desk.authorizer [
    | none ↦ true
    | some require ↦ require principal current.request.tool_name current.request.environment
  ]

  -- the decision of a request that is pending and in time
  unfoldable pub settle :
      String → ApprovalRecord → Bool → String → String → Option ℕ → ℕ → Brokering X ApprovalRecord
  unfolding issue
  settle id current approve principal reason ttl now =
      let by = strip principal in
      let r = settled current (if approve then approved else denied) by reason now in
      (do
        raise_if (not (may_decide current principal)) access_denied
        raise_if (is_empty by) no_approver
        raise_if (not (is_empty current.request.requested_by) && by == current.request.requested_by)
            own_action
        keep_record id r
        if approve then issue id (granted current id by reason ttl now) else pure tt
        lift provider_raised (desk.update r)
        pure r)

  -- `decide`; `principal` is the subject of the principal
  unfoldable pub decide :
      String → Bool → String → String → Option ℕ → ℕ → Brokering X ApprovalRecord
  unfolding settle expire
  decide id approve principal reason ttl now t = elim (Dict.get t.records id) [
    | none ↦ (err not_found, t)
    | some current ↦
        if not (is_pending current.status)
        then (err already_decided, t)
        else if ltb current.request.expires_at now
        then expire id current now t
        else settle id current approve principal reason ttl now t
  ]
