-- ===== src/Context/Types.antt =====
-- The data of runtime/context.py: the controls that a runner owns, the counters and the audit trail of
-- a run, and the errors of a tool call. `A`, `V`, `X` and `W` are as in Tools/Spec.antt.
use agent_roi.Base.{ℕ, String, Bool, Option, none, some, List, [], ◌∷◌, ◌++◌}
use agent_roi.Result.{Result, ok, err, Exec}
use agent_roi.Control.Guardrails.{Guardrails, Violation}
use agent_roi.Resilience.Breaker.{CircuitBreaker, CallError}
use agent_roi.Resilience.Idempotency.{IdempotencyRecord, IdempotencyError}
use agent_roi.Tools.Grant.{ApprovalGrant, GrantError}
use agent_roi.Tools.Spec.{ToolSpec, Handler}
use agent_roi.Tools.Registry.{ToolRegistry}

-- What `digest_value` is applied to for an approval.
pub record Action (F A : Type 0) : Type 0 where
  pub tool_name : String
  pub tool_version : String
  pub handler : String
  pub risk : String
  pub cost : F
  pub args : List A
  pub kwargs : List (String × A)
  pub policy_digest : String
  pub principal_subject : String
  pub organization_id : String
  pub environment : String
  pub agent_id : String

-- SHA-256 over canonical JSON, of an action, of a checkpoint's four fields, and of arguments.
pub record Digests (F A : Type 0) : Type 0 where
  pub action : Action F A → String
  pub checkpoint : String → String → String → ℕ → String
  pub arguments : List A → List (String × A) → String

-- The dictionary that `_approval_checkpoint` returns.
pub record Checkpoint (F : Type 0) : Type 0 where
  pub checkpoint_id : String
  pub correlation_id : String
  pub run_id : String
  pub tool_name : String
  pub tool_version : String
  pub risk : String
  pub estimated_cost : F
  pub action_digest : String
  pub policy_digest : String
  pub arguments_digest : String
  pub created_at : ℕ
  pub expires_at : ℕ
  pub principal_subject : String
  pub organization_id : String
  pub environment : String
  pub agent_id : String

-- What an approval callback returns: a grant, `True`, or anything else.
pub data Response : Type 0 where
  granted : ApprovalGrant → Response
  approved refused : Response

-- A callback that takes no checkpoint is asked with `none` in its place.
pub record ApprovalCallback (F A V X W : Type 0) : Type 0 where
  pub takes_checkpoint : Bool
  pub ask :
      ToolSpec F A V X W → List A → List (String × A) → Option (Checkpoint F) → Exec X W Response

-- The context that an authorizer is given.
pub record AccessContext : Type 0 where
  pub organization_id : String
  pub environment : String
  pub agent_id : String
  pub risk : String
  pub tool_version : String

-- `event_base` of a tool call.
pub record EventBase (F : Type 0) : Type 0 where
  pub tool_name : String
  pub tool_version : String
  pub risk : String
  pub requires_approval : Bool
  pub cost : F
  pub arguments_digest : String
  pub action_digest : Option String
  pub handler : String
  pub principal_subject : String

pub data Phase : Type 0 where
  requested authorized started failed completed : Phase

-- What `_emit` hands to the audit emitter.
pub data Event (F : Type 0) : Type 0 where
  access_denied : String → Event F
  access_decision : String → Bool → Event F
  approval_granted : String → String → String → Event F
  approval_required : Checkpoint F → Event F
  tool : Phase → EventBase F → Event F

-- What the audit emitter does with an event: it records it, it raises before that (the store does), or
-- after that (a sink does).
pub data Emission (X : Type 0) : Type 0 where
  recorded : Emission X
  unrecorded unseen : X → Emission X

pub record Controls (F A V X W : Type 0) : Type 0 where
  pub correlation_id : String
  pub run_id : String
  pub guardrails : Option (Guardrails F)
  pub registry : Option (ToolRegistry (ToolSpec F A V X W))
  pub approval_callback : Option (ApprovalCallback F A V X W)
  pub audit_emitter : Option (Event F → W → Emission X)
  pub policy_digest : String
  -- the subject of the principal
  pub principal : Option String
  -- `authorize(principal, "tool.execute", tool_name, context=…)`
  pub authorizer : Option (String → String → AccessContext → Bool)
  pub organization_id : String
  pub environment : String
  pub agent_id : String

-- The clocks of the interpreter and its random numbers, as functions on the world, and `time.sleep`, where
-- `false` says that it raised.
pub record Env (F W : Type 0) : Type 0 where
  pub monotonic : W → ℕ
  pub utc : W → ℕ
  pub epoch_ms : W → ℕ
  pub random : W → F
  pub sleep : F → W → Bool × W

-- The mutable state of a run: the counters, the trail, and what tools share. A circuit breaker belongs
-- to the tool of its name; the idempotency policies share one store.
pub record Run (F V W : Type 0) : Type 0 where
  pub steps : ℕ
  pub tool_calls : ℕ
  pub cost : F
  pub events : List (Event F)
  pub breakers : String → CircuitBreaker
  pub records : List (IdempotencyRecord V)
  pub world : W

-- One constructor for each exception of a tool call. The first group are `GuardrailViolation`s, but
-- for `not_callable`, a `TypeError`.
pub data ToolError (F X : Type 0) : Type 0 where
  violation : Violation → ToolError F X
  no_principal not_authorized handler_mismatch not_registered not_callable : ToolError F X
  async_tool sync_timeout uncancellable cost_too_low boolean_approval no_checkpoint
        awaitable_result :
      ToolError F X
  bad_grant : GrantError → ToolError F X
  previous_failed : String → ToolError F X
  human_approval_required : Checkpoint F → ToolError F X
  callback_raised : X → ToolError F X
  emitter_raised : X → ToolError F X
  idempotency : IdempotencyError → ToolError F X
  call_failed : CallError X → ToolError F X

-- The second argument of `call_tool`: left out, a callable, or a value.
pub data FirstArg (A V X W : Type 0) : Type 0 where
  missing : FirstArg A V X W
  callable : Handler A V X W → FirstArg A V X W
  value : A → FirstArg A V X W

-- What `_prepare_call` returns.
pub record Prepared (F A V X W : Type 0) : Type 0 where
  pub handler : Handler A V X W
  pub args : List A
  pub spec : Option (ToolSpec F A V X W)
  pub cost : F
  pub base : EventBase F

-- A method of the context.
abbrev pub Method : Type 0 → Type 0 → Type 0 → Type 0 → Type 0 → Type 0
Method F X V W B = Exec (ToolError F X) (Run F V W) B

abbrev pub emitted :
    {F X V W : Type 0}
    → Event F
    → Run F V W
    → Emission X
    → Result (ToolError F X) (Unit {0}) × Run F V W
emitted e r recorded = (ok tt, record r { events = r.events ++ e ∷ [] })
emitted e r (unrecorded x) = (err (emitter_raised x), r)
emitted e r (unseen x) = (err (emitter_raised x), record r { events = r.events ++ e ∷ [] })

-- `_emit`: the emitter, if there is one, appends to the trail, or raises
abbrev pub emit : {F A V X W : Type 0} → Controls F A V X W → Event F → Method F X V W (Unit {0})
emit c e r = elim c.audit_emitter [
  | none ↦ (ok tt, r)
  | some emitter ↦ emitted e r (emitter e r.world)
]
