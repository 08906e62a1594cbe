-- ===== src/Context/Price.antt =====
-- The price of a call: what it is counted with is never below what the registered tool asks for.
use agent_roi.Base.{String, ◌≡◌, true, false, Option, some, List, arith, inl, inr, Option-cases}
use agent_roi.Result.{ok, Result-cases}
use agent_roi.Float.{Float, max, max-ge_left}
use agent_roi.Control.Guardrails.{validate_cost_amount}
use agent_roi.Tools.Spec.{ToolSpec}
use agent_roi.Tools.Registry.Laws.{IsPriced}
use agent_roi.Context.Types.{Controls}
use agent_roi.Context.Resolve.{registered_minimum, select_cost, estimated_cost}

module _ (fl : Float) {A V X W : Type 0} (c : Controls fl.F A V X W) where
  open fl use {F, lt, is_finite}

  -- the registered minimum is a finite number that is not below the default
  record IsMinimum (spec : ToolSpec F A V X W) (minimum : F) : Type 0 where
    pub finite : is_finite minimum ≡ true
    pub covers : lt minimum spec.default_cost ≡ false

  registered_minimum-IsMinimum :
      (spec : ToolSpec F A V X W) (args : List A) (kwargs : List (String × A)) (minimum : F)
      → IsPriced fl spec
      → registered_minimum fl c (some spec) args kwargs ≡ ok minimum
      → IsMinimum spec minimum
  unfolding registered_minimum validate_cost_amount
  registered_minimum-IsMinimum spec args kwargs minimum p h =
      elim (Option-cases spec.cost_estimator) [
        | inl fixed ↦ (record {
          finite = ground (arith, fixed, h, p);
          covers = ground (arith, fixed, h, fl.lt_irrefl spec.default_cost);
        })
        | inr (estimate, set) ↦
            elim (Result-cases (validate_cost_amount fl (estimate args kwargs))) [
              | inr (v, bad) ↦ absurd (ground (arith, set, bad, h))
              | inl (e, good) ↦ (record {
                finite = ground (arith, set, good, h, p);
                covers = ground (arith, set, good, h, max-ge_left fl spec.default_cost e);
              })
            ]
      ]

  -- The cost of a call of a registered tool is not below the default cost of the tool, whatever its
  -- estimator says and whatever the caller names: a lower price is raised to it or refused.
  pub estimated_cost-covers :
      (spec : ToolSpec F A V X W) (args : List A) (kwargs : List (String × A))
      (caller : Option (Option F)) (cost : F)
      → IsPriced fl spec
      → estimated_cost fl c (some spec) args kwargs caller ≡ ok cost
      → lt cost spec.default_cost ≡ false
  unfolding estimated_cost select_cost
  estimated_cost-covers spec args kwargs caller cost p h =
      elim (Result-cases (registered_minimum fl c (some spec) args kwargs)) [
        | inr (v, bad) ↦ absurd (ground (arith, bad, h))
        | inl (minimum, found) ↦
            let m = registered_minimum-IsMinimum spec args kwargs minimum p found in
            elim (Option-cases caller) [
              | inl unnamed ↦ ground (arith, found, unnamed, h, m)
              | inr (amount, named) ↦ elim (Result-cases (validate_cost_amount fl amount)) [
                | inr (v, bad) ↦ absurd (ground (arith, found, named, bad, h))
                | inl (asked, good) ↦ ground (
                  arith,
                  found,
                  named,
                  good,
                  h,
                  m,
                  max-ge_left fl minimum asked,
                  fl.le_trans spec.default_cost minimum (max fl minimum asked),
                )
              ]
            ]
      ]
