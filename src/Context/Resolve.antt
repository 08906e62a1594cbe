-- ===== src/Context/Resolve.antt =====
-- The first steps of a tool call: `_resolve_tool`, `_authorize_access` and `_estimated_cost` of
-- runtime/context.py.
use agent_roi.Base.{
  String, Bool, false, Option, none, some, List, ◌∷◌, nat_eq, ◌&&◌, is_some, if◌then◌else◌,
}
use agent_roi.Result.{Result, ok, err, Exec, raise_if, or_raise}
use agent_roi.Float
use agent_roi.Float.{Float}
use agent_roi.Control.Guardrails.{Violation, validate_cost_amount}
use agent_roi.Tools.Spec.{ToolSpec, Handler}
use agent_roi.Tools.Registry.{get_tool}
use agent_roi.Result
use agent_roi.Exec.{pure, raise, ◌>>◌}
use agent_roi.Context.Types.{
  AccessContext, Controls, access_denied, access_decision, ToolError, violation, no_principal,
  not_authorized, handler_mismatch, not_registered, not_callable, cost_too_low, FirstArg, missing,
  callable, value, Method, emit,
}

abbrev pub text_or : {S : Type 0} → (S → String) → String → Option S → String
text_or f other none = other
text_or f other (some s) = f s

-- `getattr(self._principal, "subject", "")`
abbrev pub subject_of : Option String → String
subject_of none = ""
subject_of (some s) = s

module _ (fl : Float) {A V X W : Type 0} (c : Controls fl.F A V X W) where
  open fl use {F, nought, add, lt}

  abbrev pub Resolved : Type 0
  Resolved = Handler A V X W × List A × Option (ToolSpec F A V X W)

  abbrev pub requires_registered : Bool
  requires_registered = elim c.guardrails [ none ↦ false | some g ↦ g.require_registered_tools ]

  abbrev pub registered : String → Option (ToolSpec F A V X W)
  registered name = elim c.registry [ none ↦ none | some r ↦ get_tool r name ]

  -- a registered tool
  resolve_spec : ToolSpec F A V X W → FirstArg A V X W → List A → Result (ToolError F X) Resolved
  resolve_spec spec missing rest = ok (spec.handler, rest, some spec)
  resolve_spec spec (callable h) rest =
      if nat_eq h.ref spec.handler.ref
      then ok (spec.handler, rest, some spec)
      else err handler_mismatch
  resolve_spec spec (value a) rest = ok (spec.handler, a ∷ rest, some spec)

  -- the legacy form, for a tool that is not registered
  resolve_legacy : FirstArg A V X W → List A → Result (ToolError F X) Resolved
  resolve_legacy missing rest = err not_callable
  resolve_legacy (callable h) rest = ok (h, rest, none)
  resolve_legacy (value a) rest = err not_callable

  unfoldable pub resolve_tool : String → FirstArg A V X W → List A → Result (ToolError F X) Resolved
  unfolding resolve_spec resolve_legacy
  resolve_tool name first rest = elim (registered name) [
    | some spec ↦ resolve_spec spec first rest
    | none ↦ if requires_registered then err not_registered else resolve_legacy first rest
  ]

  -- the registered minimum: the default cost, and the estimate if that is more
  unfoldable pub registered_minimum :
      Option (ToolSpec F A V X W) → List A → List (String × A) → Result Violation F
  registered_minimum none args kwargs = ok nought
  registered_minimum (some spec) args kwargs = elim spec.cost_estimator [
    | none ↦ ok spec.default_cost
    | some estimate ↦
        Result.◌>>=◌ (validate_cost_amount fl (estimate args kwargs))
          (λ estimated. ok (Float.max fl spec.default_cost estimated))
  ]

  -- the cost that the caller names, if any; `some none` is a cost that is not a number
  unfoldable pub select_cost :
      Option (ToolSpec F A V X W) → F → Option (Option F) → Result (ToolError F X) F
  select_cost spec minimum none = ok minimum
  select_cost spec minimum (some amount) = elim (validate_cost_amount fl amount) [
    | err v ↦ err (violation v)
    | ok asked ↦
        if is_some spec && lt asked minimum
        then err cost_too_low
        else ok (Float.max fl minimum asked)
  ]

  unfoldable pub estimated_cost :
      Option (ToolSpec F A V X W)
      → List A
      → List (String × A)
      → Option (Option F)
      → Result (ToolError F X) F
  unfolding registered_minimum select_cost
  estimated_cost spec args kwargs caller = elim (registered_minimum spec args kwargs) [
    | err v ↦ err (violation v)
    | ok minimum ↦ select_cost spec minimum caller
  ]

  abbrev pub access_context : Option (ToolSpec F A V X W) → AccessContext
  access_context spec = record {
    organization_id = c.organization_id;
    environment = c.environment;
    agent_id = c.agent_id;
    risk = text_or (λ s. s.risk) "unclassified" spec;
    tool_version = text_or (λ s. s.version) "legacy" spec;
  }

  unfoldable pub authorize_access : String → Option (ToolSpec F A V X W) → Method F X V W (Unit {0})
  authorize_access name spec = elim c.authorizer [
    | none ↦ pure tt
    | some authorize ↦ elim c.principal [
      | none ↦ (do emit c (access_denied name); raise no_principal)
      | some subject ↦
          let allowed = authorize subject name (access_context spec) in
          (do
            emit c (access_decision name allowed)
            if allowed then pure tt else (do emit c (access_denied name); raise not_authorized))
    ]
  ]
