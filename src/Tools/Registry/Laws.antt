-- ===== src/Tools/Registry/Laws.antt =====
-- What registering does, and what the specifications of a registry satisfy.
use agent_roi.Base.{
  String, ◌≡◌, Bool, true, false, some, arith, ◌==◌, eq_iff, not, ◌&&◌, if◌then◌else◌, inl, inr,
}
use agent_roi.Result.{ok, err, Result-cases}
use agent_roi.Float.{Float}
use agent_roi.Dict
use agent_roi.Dict.{get-put}
use agent_roi.Tools.Spec.{ToolSpec, check_spec, frozen_registry, duplicate_tool}
use agent_roi.Tools.Registry.{ToolRegistry, get_tool, register, add}

-- Registering in a frozen registry, or under a known name without `replace`, is refused with the
-- error for its case and changes nothing. Otherwise the name is bound to the specification, and no
-- other name changes.
pub register_outcome :
    {F A V X W : Type 0} (spec : ToolSpec F A V X W) (replace : Bool)
    (r : ToolRegistry (ToolSpec F A V X W))
    → (r.frozen ≡ true → register spec replace r ≡ (err frozen_registry, r))
      × (r.frozen ≡ false
          → Dict.contains r.tools spec.name && not replace ≡ true
          → register spec replace r ≡ (err duplicate_tool, r))
      × (r.frozen ≡ false
          → Dict.contains r.tools spec.name && not replace ≡ false
          → (register spec replace r).0 ≡ ok spec)
      × (r.frozen ≡ false
          → Dict.contains r.tools spec.name && not replace ≡ false
          → (name : String)
          → get_tool (register spec replace r).1 name
            ≡ (if spec.name == name then some spec else get_tool r name))
unfolding register
register_outcome spec replace r = (
  λ f. ground arith,
  λ f d. ground arith,
  λ f d. ground arith,
  λ f d name. ground (arith, get-put r.tools spec.name name spec),
)

module _ (fl : Float) {A V X W : Type 0} where
  open fl use {F, nought, lt, is_finite}

  -- A specification as `ToolSpec.__post_init__` leaves it: its price can be counted on.
  pub record IsPriced (s : ToolSpec F A V X W) : Type 0 where
    pub finite : is_finite s.default_cost ≡ true
    pub nonneg : lt s.default_cost nought ≡ false

  -- Each name is bound to a specification of that name that was checked.
  pub record IsSound (r : ToolRegistry (ToolSpec F A V X W)) : Type 0 where
    pub named : (k : String) (s : ToolSpec F A V X W) → get_tool r k ≡ some s → s.name ≡ k
    pub priced : (k : String) (s : ToolSpec F A V X W) → get_tool r k ≡ some s → IsPriced s

  check_spec-IsPriced :
      (lower : String → String) (s s' : ToolSpec F A V X W)
      → check_spec fl lower s ≡ ok s'
      → IsPriced s'
  unfolding check_spec
  check_spec-IsPriced lower s s' h = ground arith

  register-IsSound :
      (spec : ToolSpec F A V X W) (replace : Bool) (r : ToolRegistry (ToolSpec F A V X W))
      → IsPriced spec
      → IsSound r
      → IsSound (register spec replace r).1
  unfolding register
  register-IsSound spec replace r p v = record {
    named =
        λ k s h. ground (arith, get-put r.tools spec.name k spec, eq_iff spec.name k, v.named k s);
    priced =
        λ k s h. ground (arith, get-put r.tools spec.name k spec, eq_iff spec.name k, v.priced k s);
  }

  -- Adding a tool, refused or not, keeps every name bound to a checked specification of that name, whose
  -- default cost is finite and not negative.
  pub add-IsSound :
      (lower : String → String) (spec : ToolSpec F A V X W) (replace : Bool)
      (r : ToolRegistry (ToolSpec F A V X W))
      → IsSound r
      → IsSound (add fl lower spec replace r).1
  unfolding add
  add-IsSound lower spec replace r v = elim (Result-cases (check_spec fl lower spec)) [
    | inl (s, e) ↦ rw e (register-IsSound s replace r (check_spec-IsPriced lower spec s e) v)
    | inr (x, e) ↦ rw e v
  ]
