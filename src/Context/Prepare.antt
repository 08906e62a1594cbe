-- ===== src/Context/Prepare.antt =====
-- The approval of a tool call and `_prepare_call` of runtime/context.py, which reserves the call before
-- the handler runs.
use agent_roi.Base.{
  ℕ, ◌+◌, ◌*◌, String, Bool, false, Option, none, some, List, not, ◌&&◌, is_some, if◌then◌else◌,
}
use agent_roi.Result.{Result, ok, err}
use agent_roi.Float.{Float}
use agent_roi.Control.Guardrails.{Violation, validate_tool_allowed}
use agent_roi.Tools.Grant.{validate}
use agent_roi.Tools.Spec.{ToolSpec, Handler}
use agent_roi.Exec.{pure, raise, modify, gets, lift, raise_if, ◌>>=◌, ◌>>◌}
use agent_roi.Context.Types.{
  Digests, Checkpoint, Response, granted, approved, refused, Controls, Env, EventBase,
  approval_granted, approval_required, tool, requested, authorized, started, ToolError, violation,
  async_tool, sync_timeout, uncancellable, boolean_approval, bad_grant, human_approval_required,
  callback_raised, no_checkpoint, FirstArg, Prepared, Method, emit,
}
use agent_roi.Context.Counters.{check_limits}
use agent_roi.Context.Resolve.{
  text_or, subject_of, Resolved, resolve_tool, authorize_access, estimated_cost,
}

module _ (fl : Float) {A V X W : Type 0} (digests : Digests fl.F A) (env : Env fl.F W)
    (c : Controls fl.F A V X W) where
  open fl use {F, add}

  abbrev pub needs_approval : Option (ToolSpec F A V X W) → Bool
  needs_approval none = false
  needs_approval (some spec) = spec.requires_approval

  -- `_approval_checkpoint`; its readings of the clock are one
  unfoldable pub approval_checkpoint :
      String → ToolSpec F A V X W → List A → List (String × A) → F → String → ℕ → Checkpoint F
  approval_checkpoint name spec args kwargs cost identity now =
      let subject = subject_of c.principal in
      let action_digest = digests.action (record {
        tool_name = name;
        tool_version = spec.version;
        handler = identity;
        risk = spec.risk;
        cost = cost;
        args = args;
        kwargs = kwargs;
        policy_digest = c.policy_digest;
        principal_subject = subject;
        organization_id = c.organization_id;
        environment = c.environment;
        agent_id = c.agent_id;
      }) in
      let expires = now + spec.approval_ttl_seconds * 1000 in
      record {
        checkpoint_id = digests.checkpoint c.correlation_id c.run_id action_digest expires;
        correlation_id = c.correlation_id;
        run_id = c.run_id;
        tool_name = name;
        tool_version = spec.version;
        risk = spec.risk;
        estimated_cost = cost;
        action_digest = action_digest;
        policy_digest = c.policy_digest;
        arguments_digest = digests.arguments args kwargs;
        created_at = now;
        expires_at = expires;
        principal_subject = subject;
        organization_id = c.organization_id;
        environment = c.environment;
        agent_id = c.agent_id;
      }

  -- the callback's answer; with no callback it is `False`
  ask_callback :
      ToolSpec F A V X W
      → List A
      → List (String × A)
      → Option (Checkpoint F)
      → Method F X V W Response
  ask_callback spec args kwargs cp r = elim c.approval_callback [
    | none ↦ (ok refused, r)
    | some cb ↦
        let (answer, w) =
          cb.ask spec args kwargs (if cb.takes_checkpoint then cp else none) r.world in
        let r' = record r { world = w } in
        elim answer [ ok a ↦ (ok a, r') | err x ↦ (err (callback_raised x), r') ]
  ]

  abbrev pub bound_required : Bool
  bound_required = elim c.guardrails [ none ↦ false | some g ↦ g.require_bound_approval_grants ]

  -- what `_authorize` does with the answer
  judge : String → Checkpoint F → Response → Method F X V W (Unit {0})
  judge name cp (granted g) = do
    now ← gets (λ r. env.epoch_ms r.world)
    lift bad_grant (validate g cp.action_digest cp.checkpoint_id now)
    emit c (approval_granted name cp.action_digest g.approved_by)
  judge name cp approved = do
    raise_if bound_required boolean_approval
    emit c (approval_granted name cp.action_digest "synchronous_callback")
  judge name cp refused = do emit c (approval_required cp); raise (human_approval_required cp)

  -- the same without a checkpoint, where its assertions fail
  judge_unbound : Response → Method F X V W (Unit {0})
  judge_unbound (granted g) = raise no_checkpoint
  judge_unbound approved = do raise_if bound_required boolean_approval; raise no_checkpoint
  judge_unbound refused = raise no_checkpoint

  -- `_authorize` of a tool that requires an approval
  unfoldable pub seek_approval :
      ToolSpec F A V X W
      → List A
      → List (String × A)
      → Option (Checkpoint F)
      → Method F X V W (Unit {0})
  unfolding ask_callback judge judge_unbound
  seek_approval spec args kwargs cp = do
    answer ← ask_callback spec args kwargs cp
    elim cp [ none ↦ judge_unbound answer | some k ↦ judge spec.name k answer ]

  -- `_authorize`
  unfoldable pub authorize :
      Option (ToolSpec F A V X W)
      → List A
      → List (String × A)
      → Option (Checkpoint F)
      → Method F X V W (Unit {0})
  unfolding seek_approval
  authorize none args kwargs cp = pure tt
  authorize (some spec) args kwargs cp =
      if spec.requires_approval then seek_approval spec args kwargs cp else pure tt

  abbrev pub has_timeout : Option (ToolSpec F A V X W) → Bool
  has_timeout none = false
  has_timeout (some spec) = is_some spec.timeout_seconds

  -- the prospective counters are checked, and then become the counters
  unfoldable pub reserve : F → Method F X V W (Unit {0})
  reserve cost r =
      (do
        lift violation (check_limits fl c.guardrails r.steps (r.tool_calls + 1) (add r.cost cost))
        modify (λ s. record s { tool_calls = r.tool_calls + 1; cost = add r.cost cost }))
        r

  abbrev pub allowed : String → Result Violation (Unit {0})
  allowed name = elim c.guardrails [ none ↦ ok tt | some g ↦ validate_tool_allowed g name ]

  -- the checkpoint of a call that needs an approval
  abbrev pub checkpoint_of :
      String
      → Handler A V X W
      → List A
      → List (String × A)
      → F
      → ℕ
      → Option (ToolSpec F A V X W)
      → Option (Checkpoint F)
  checkpoint_of name h args kwargs cost now none = none
  checkpoint_of name h args kwargs cost now (some spec) =
      if spec.requires_approval
      then some (approval_checkpoint name spec args kwargs cost h.identity now)
      else none

  abbrev pub base_of :
      String
      → Handler A V X W
      → List A
      → List (String × A)
      → F
      → Option (ToolSpec F A V X W)
      → Option (Checkpoint F)
      → EventBase F
  base_of name h args kwargs cost spec cp = record {
    tool_name = name;
    tool_version = text_or (λ s. s.version) "legacy" spec;
    risk = text_or (λ s. s.risk) "unclassified" spec;
    requires_approval = needs_approval spec;
    cost = cost;
    arguments_digest = digests.arguments args kwargs;
    action_digest = elim cp [ none ↦ none | some k ↦ some k.action_digest ];
    handler = h.identity;
    principal_subject = subject_of c.principal;
  }

  -- the allowlist, and then the handler, the arguments and the specification
  unfoldable pub select_tool :
      String → FirstArg A V X W → List A → Result (ToolError F X) (Resolved fl c)
  select_tool name first rest = elim (allowed name) [
    | err v ↦ err (violation v)
    | ok _ ↦ resolve_tool fl c name first rest
  ]

  -- the refusals of the mode, and then the cost
  unfoldable pub price_call :
      Resolved fl c → List (String × A) → Option (Option F) → Bool → Result (ToolError F X) F
  price_call (h, args, spec) kwargs cost_usd async_mode =
      if not async_mode && h.is_async
      then err async_tool
      else if not async_mode && has_timeout spec
      then err sync_timeout
      else if async_mode && has_timeout spec && not h.is_async
      then err uncancellable
      else estimated_cost fl c spec args kwargs cost_usd

  -- the reservation, once the call is authorized
  unfoldable pub confirm_call : Prepared F A V X W → Method F X V W (Prepared F A V X W)
  confirm_call p = do
    reserve p.cost
    emit c (tool authorized p.base)
    emit c (tool started p.base)
    pure p

  -- the request is reported before it is authorized
  unfoldable pub request_call :
      String → Resolved fl c → List (String × A) → F → Method F X V W (Prepared F A V X W)
  request_call name (h, args, spec) kwargs cost r =
      let cp = checkpoint_of name h args kwargs cost (env.epoch_ms r.world) spec in
      let base = base_of name h args kwargs cost spec cp in
      (do
        emit c (tool requested base)
        authorize spec args kwargs cp
        confirm_call (record { handler = h; args = args; spec = spec; cost = cost; base = base }))
        r

  -- `_prepare_call`
  unfoldable pub prepare_call :
      String
      → FirstArg A V X W
      → List A
      → List (String × A)
      → Option (Option F)
      → Bool
      → Method F X V W (Prepared F A V X W)
  prepare_call name first rest kwargs cost_usd async_mode = do
    found ← lift (λ e. e) (select_tool name first rest)
    authorize_access fl c name found.2
    cost ← lift (λ e. e) (price_call found kwargs cost_usd async_mode)
    request_call name found kwargs cost
