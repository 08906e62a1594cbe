-- ===== src/Context/Limits.antt =====
-- The guardrails hold after every method of the context, whether it returns or raises.
use mathlib.Core.Path.{subst}
use agent_roi.Base.{inl, inr, ◌+◌, String, ◌≡◌, refl, false, Option, some, List, arith}
use agent_roi.Result.{Result, ok, err}
use agent_roi.Float.{Float}
use agent_roi.Exec.{lift, modify, ◌>>=◌, ◌>>◌}
use agent_roi.Control.Guardrails.{Guardrails, Violation, validate_limits, validate_cost_amount}
use agent_roi.Control.Guardrails.Limits.{WithinLimits, validate_limits_iff}
use agent_roi.Context.Types.{
  Digests, Controls, Env, EventBase, Run, ToolError, FirstArg, Prepared, Method, violation,
}
use agent_roi.Context.Counters.{check_limits, bump_step, bump_tool_call, add_cost}
use agent_roi.Context.Prepare.{prepare_call}
use agent_roi.Context.Execute.{Values, execute_sync}
use agent_roi.Context.Call.{conclude, execute_prepared, call_tool}
use agent_roi.Context.Frame.{SameCounters, execute_sync-SameFrame}
use agent_roi.Context.Reservation.{Counted, Reserves, prepare_call-Reserves}

module _ (fl : Float) {V W : Type 0} where
  -- the counters and the cost of a run are within the limits
  abbrev pub InLimits : Guardrails fl.F → Run fl.F V W → Type 0
  InLimits g r = WithinLimits fl g r.steps r.tool_calls r.cost

  InLimits-same :
      (g : Guardrails fl.F) (r s : Run fl.F V W) → SameCounters r s → InLimits g r → InLimits g s
  InLimits-same g r s same h = ground (arith, same, h)

module _ (fl : Float) {A V X W : Type 0} (digests : Digests fl.F A) (env : Env fl.F W)
    (values : Values fl.F V X) (c : Controls fl.F A V X W) where
  open fl use {F}

  Counted-InLimits :
      (g : Guardrails F) (r s : Run F V W) (cost : F)
      → c.guardrails ≡ some g
      → Counted fl digests env c r s cost
      → InLimits fl g s
  unfolding check_limits
  Counted-InLimits g r s cost e n =
      (validate_limits_iff fl g s.steps s.tool_calls s.cost).0
        (subst (λ o. check_limits fl o s.steps s.tool_calls s.cost ≡ ok tt) e n.allowed)

  conclude-SameCounters :
      (base : EventBase F) (x : Result (ToolError F X) V) (r : Run F V W)
      → SameCounters r (conclude fl digests env values c base x r).1
  unfolding conclude
  conclude-SameCounters base (ok v) r = ground arith
  conclude-SameCounters base (err e) r = ground arith

  -- what the counters are after the handler
  execute_prepared-SameCounters :
      (kwargs : List (String × A)) (p : Prepared F A V X W) (r : Run F V W)
      → SameCounters r (execute_prepared fl digests env values c kwargs p r).1
  unfolding execute_prepared
  execute_prepared-SameCounters kwargs p r =
      let (x, s) = execute_sync fl digests env values p kwargs r in
      ground (
        arith,
        execute_sync-SameFrame fl digests env values p kwargs r,
        conclude-SameCounters p.base x s,
      )

  -- a prepared call is executed, or the error is raised
  abbrev executed :
      List (String × A) → Result (ToolError F X) (Prepared F A V X W) → Method F X V W V
  executed kwargs x s = elim x [
    | err e ↦ (err e, s)
    | ok p ↦ execute_prepared fl digests env values c kwargs p s
  ]

  then_execute :
      (g : Guardrails F) (kwargs : List (String × A)) (r : Run F V W)
      (x : Result (ToolError F X) (Prepared F A V X W)) (s : Run F V W)
      → c.guardrails ≡ some g
      → InLimits fl g r
      → Reserves fl digests env c r (x, s)
      → InLimits fl g (executed kwargs x s).1
  then_execute g kwargs r (err e) s set h (inl same) = InLimits-same fl g r s same h
  then_execute g kwargs r (err e) s set h (inr (x, cost, raised, n)) =
      Counted-InLimits g r s cost set n
  then_execute g kwargs r (ok p) s set h n =
      InLimits-same fl g s _ (execute_prepared-SameCounters kwargs p s)
        (Counted-InLimits g r s p.cost set n)

  -- A run whose steps, tool calls and cost are within the guardrails is within them after `call_tool`,
  -- whether the call returns a value, is refused, or its handler raises.
  pub call_tool-WithinLimits :
      (g : Guardrails F) (name : String) (first : FirstArg A V X W) (rest : List A)
      (kwargs : List (String × A)) (cost_usd : Option (Option F)) (r : Run F V W)
      → c.guardrails ≡ some g
      → InLimits fl g r
      → InLimits fl g (call_tool fl digests env values c name first rest kwargs cost_usd r).1
  unfolding call_tool
  call_tool-WithinLimits g name first rest kwargs cost_usd r set h =
      let (x, s) = prepare_call fl digests env c name first rest kwargs cost_usd false r in
      then_execute g kwargs r x s set h
        (prepare_call-Reserves fl digests env c name first rest kwargs cost_usd false r)

module _ (fl : Float) {A V X W : Type 0} (c : Controls fl.F A V X W) where
  open fl use {F}

  abbrev assign_checked :
      Result Violation (Unit {0}) → (Run F V W → Run F V W) → Method F X V W (Unit {0})
  assign_checked x f = do lift violation x; modify f

  -- a check of the new counters, and then the assignment
  after_check :
      (g : Guardrails F) (r : Run F V W) (f : Run F V W → Run F V W)
      (x : Result Violation (Unit {0}))
      → validate_limits fl g (f r).steps (f r).tool_calls (f r).cost ≡ x
      → InLimits fl g r
      → InLimits fl g (assign_checked x f r).1
  after_check g r f (ok _) e h =
      (validate_limits_iff fl g (f r).steps (f r).tool_calls (f r).cost).0 e
  after_check g r f (err v) e h = h

  abbrev added : Guardrails F → Result Violation F → Method F X V W (Unit {0})
  added g x r =
      (do
        a ← lift violation x
        lift violation (validate_limits fl g r.steps r.tool_calls (fl.add r.cost a))
        modify (λ s. record s { cost = fl.add r.cost a }))
        r

  after_amount :
      (g : Guardrails F) (r : Run F V W) (x : Result Violation F)
      → InLimits fl g r
      → InLimits fl g (added g x r).1
  after_amount g r (ok a) h =
      after_check g r (λ s. record s { cost = fl.add r.cost a })
        (validate_limits fl g r.steps r.tool_calls (fl.add r.cost a)) refl h
  after_amount g r (err v) h = h

  -- The same holds of `bump_step`, `bump_tool_call` and `add_cost`.
  pub counters-WithinLimits :
      (g : Guardrails F) (amount : Option F) (r : Run F V W)
      → c.guardrails ≡ some g
      → InLimits fl g r
      → InLimits fl g (bump_step fl c r).1
        × InLimits fl g (bump_tool_call fl c r).1
        × InLimits fl g (add_cost fl c amount r).1
  unfolding bump_step bump_tool_call add_cost check_limits
  counters-WithinLimits g amount r set h = rw set (
    after_check g r (λ s. record s { steps = r.steps + 1 })
        (validate_limits fl g (r.steps + 1) r.tool_calls r.cost) refl h,
    after_check g r (λ s. record s { tool_calls = r.tool_calls + 1 })
        (validate_limits fl g r.steps (r.tool_calls + 1) r.cost) refl h,
    after_amount g r (validate_cost_amount fl amount) h,
  )
