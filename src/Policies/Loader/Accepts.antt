-- ===== src/Policies/Loader/Accepts.antt =====
-- A document that passes `validate_policy` is loaded.
use agent_roi.Base.{
  ◌≡◌, refl, sym, ap, ◌∙◌, arith, String, Bool, true, false, some, List, [], ◌∷◌, inl, inr,
  Option-cases,
}
use agent_roi.Base.Text.{is_blank}
use agent_roi.Float.{Float}
use agent_roi.Result.{Result, ok, is_ok}
use agent_roi.Control.Guardrails.{Guardrails}
use agent_roi.Control.Decision.{DecisionPolicy, check_decision_policy}
use agent_roi.Policies.Value.{
  ℤ, Value, Entries, Conversions, null, flag, whole, real, text, sequence, mapping, opaque, lookup,
  has_other,
}
use agent_roi.Policies.Validate.{PolicyError, require_mapping}
use agent_roi.Policies.Sections.{
  raised, validate_guardrails, validate_decision, policy_checks, errors_of, validate_policy,
}
use agent_roi.Policies.Loader.{
  Policy, loaded, LoadError, guardrail_keys, decision_keys, new_guardrails, new_decision_policy,
  normalize_guardrails, normalize_policy, policy_from_mapping, replaced, section,
}
use agent_roi.Policies.Loader.Weights.{gathered-nil, Sums}
use agent_roi.Policies.Loader.Decision.{new_decision_policy-accepts}
use agent_roi.Policies.Loader.Normalize.{lookup-replaced, lookup-replaced_self}
use agent_roi.Policies.Loader.Limits.{new_guardrails-accepts}

-- every step of a load succeeds
loaded-ok :
    {F : Type 0} (blank : Bool) (valid : Result (List PolicyError) (Unit {0}))
    (guardrails : Result LoadError (Guardrails F)) (decision : Result LoadError (DecisionPolicy F))
    (p : Policy F)
    → blank ≡ false
    → valid ≡ ok tt
    → is_ok guardrails ≡ true
    → is_ok decision ≡ true
    → is_ok (loaded blank valid guardrails decision p) ≡ true
loaded-ok blank valid guardrails decision p a b d e = ground (arith, a, b, d, e)

module _ (fl : Float) (c : Conversions fl.F) (defaults : DecisionPolicy fl.F) where
  open fl use {F, nought, one, lt, is_finite}

  -- a section that is required is a mapping
  section-found :
      (o : Entries F) (key : String)
      → (require_mapping o key true).1 ≡ []
      → (g : Entries F) × (lookup key o ≡ some (mapping g))
  section-found o key clear = elim (Option-cases (lookup key o)) [
    | inl missing ↦ absurd (ground (arith, clear, missing))
    | inr (v, there) ↦ go v there
  ]
    where
      go :
          (v : Value F)
          → lookup key o ≡ some v
          → (g : Entries F) × (lookup key o ≡ some (mapping g))
      go (mapping g) there = (g, there)
      go null there = absurd (ground (arith, clear, there))
      go (text t) there = absurd (ground (arith, clear, there))
      go (flag b) there = absurd (ground (arith, clear, there))
      go (whole n) there = absurd (ground (arith, clear, there))
      go (real x) there = absurd (ground (arith, clear, there))
      go (sequence l) there = absurd (ground (arith, clear, there))
      go opaque there = absurd (ground (arith, clear, there))

  -- the sections of a document that is normalised
  section-normalize :
      (o g d : Entries F)
      → lookup "guardrails" o ≡ some (mapping g)
      → lookup "decision_policy" o ≡ some (mapping d)
      → (section "guardrails" (normalize_policy fl c defaults o)
          ≡ normalize_guardrails fl c defaults g)
        × (section "decision_policy" (normalize_policy fl c defaults o) ≡ d)
  unfolding normalize_policy
  section-normalize o g d g_there d_there =
      let g' = mapping (normalize_guardrails fl c defaults g) in
      let put = lookup-replaced_self "guardrails" g' (mapping g) o g_there in
      let kept = lookup-replaced "guardrails" "decision_policy" g' o refl in
      let same : normalize_policy fl c defaults o ≡ replaced "guardrails" g' o =
        ground (arith, g_there) in
      (
        ap (section "guardrails") same ∙ ground (arith, put),
        ap (section "decision_policy") same ∙ ground (arith, kept, d_there),
      )

  section-reads :
      (o g : Entries F) (key : String)
      → lookup key o ≡ some (mapping g)
      → (section key o ≡ g) × ((require_mapping o key true).0 ≡ g)
  section-reads o g key there = (ground (arith, there), ground (arith, there))

  -- no error, no exception
  no_errors : (l : List PolicyError) → raised l ≡ ok tt → l ≡ []
  no_errors [] h = refl
  no_errors (e ∷ l) h = absurd (ground (arith, h))

  -- A document that `validate_policy` accepts is loaded: `policy_from_mapping` returns a policy, so the
  -- constructors of the guardrails and of the decision policy raise nothing, if the name that it is given
  -- is not blank, both sections have no keys but theirs, the limits of steps and of tool calls are written as whole numbers, and the default
  -- decision policy is sound.
  pub validate_policy-loads :
      (laws : Sums fl) (name : String) (o : Entries F) (steps calls : ℤ)
      → is_blank name ≡ false
      → check_decision_policy fl defaults ≡ ok tt
      → has_other guardrail_keys (section "guardrails" o) ≡ false
      → has_other decision_keys (section "decision_policy" o) ≡ false
      → lookup "max_steps" (section "guardrails" o) ≡ some (whole steps)
      → lookup "max_tool_calls" (section "guardrails" o) ≡ some (whole calls)
      → validate_policy fl c (mapping o) ≡ ok tt
      → is_ok (policy_from_mapping fl c defaults name o) ≡ true
  unfolding policy_checks errors_of validate_policy policy_from_mapping
  validate_policy-loads laws name o steps calls named sound g_known d_known s t valid =
      let none_found = no_errors (errors_of fl c o) valid in
      let (_, (no_g, (g_clear, (no_d, (d_clear, _))))) =
        gathered-nil (policy_checks fl c o) none_found in
      let (g, g_there) = section-found o "guardrails" no_g in
      let (d, d_there) = section-found o "decision_policy" no_d in
      let (g_section, g_here) = section-reads o g "guardrails" g_there in
      let (d_section, d_here) = section-reads o d "decision_policy" d_there in
      let (g_left, d_left) = section-normalize o g d g_there d_there in
      let g_ok =
        new_guardrails-accepts fl c defaults g steps calls
          (ap (lookup "max_steps") (sym g_section) ∙ s)
          (ap (lookup "max_tool_calls") (sym g_section) ∙ t)
          (ap (has_other guardrail_keys) (sym g_section) ∙ g_known)
          (ap (validate_guardrails fl c) (sym g_here) ∙ g_clear) in
      let d_ok =
        new_decision_policy-accepts fl c laws defaults d sound
          (ap (has_other decision_keys) (sym d_section) ∙ d_known)
          (ap (validate_decision fl c) (sym d_here) ∙ d_clear) in
      loaded-ok (is_blank name) (validate_policy fl c (mapping o)) _ _ _ named valid
        (ap (λ x. is_ok (new_guardrails fl c defaults x)) g_left ∙ g_ok)
        (ap (λ x. is_ok (new_decision_policy fl c defaults x)) d_left ∙ d_ok)
