-- ===== src/Policies/Loader/Normalize.antt =====
-- What the normalisation of the guardrails leaves as it is.
use agent_roi.Base.{
  ◌≡◌, refl, ap, ◌∙◌, arith, String, false, Option, some, List, ◌==◌, ◌⊎◌, inl, inr, Option-cases,
  eq_iff,
}
use agent_roi.Float.{Float}
use agent_roi.Control.Decision.{DecisionPolicy}
use agent_roi.Policies.Value.{
  Value, Values, Entries, Conversions, null, flag, whole, real, text, sequence, mapping, opaque,
  no_entries, entry, lookup, has_other,
}
use agent_roi.Policies.Loader.{LoadError, keyword, normalize_guardrails, replaced, stripped_values}

module _ {F : Type 0} where
  pub lookup-replaced :
      (key j : String) (v : Value F) (o : Entries F)
      → (key == j) ≡ false
      → lookup j (replaced key v o) ≡ lookup j o
  lookup-replaced key j v no_entries apart = refl
  lookup-replaced key j v (entry k old rest) apart =
      ground
        (arith, apart, eq_iff k key, eq_iff k j, eq_iff key j, lookup-replaced key j v rest apart)

  pub lookup-replaced_self :
      (key : String) (v old : Value F) (o : Entries F)
      → lookup key o ≡ some old
      → lookup key (replaced key v o) ≡ some v
  lookup-replaced_self key v old no_entries there = absurd (ground (arith, there))
  lookup-replaced_self key v old (entry k w rest) there =
      ground (arith, there, lookup-replaced_self key v old rest)

  has_other-replaced :
      (keys : List String) (key : String) (v : Value F) (o : Entries F)
      → has_other keys (replaced key v o) ≡ has_other keys o
  has_other-replaced keys key v no_entries = refl
  has_other-replaced keys key v (entry k old rest) =
      ground (arith, has_other-replaced keys key v rest)

module _ (fl : Float) (c : Conversions fl.F) (defaults : DecisionPolicy fl.F) where
  open fl use {F, nought, one, lt, is_finite}

  -- the names of the tools are replaced, or nothing is
  normalize-cases :
      (o : Entries F)
      → (normalize_guardrails fl c defaults o ≡ o)
        ⊎ ((l : Values F) × (lookup "allowed_tools" o ≡ some (sequence l))
            × (normalize_guardrails fl c defaults o
                ≡ replaced "allowed_tools" (sequence (stripped_values fl c defaults l)) o))
  normalize-cases o = elim (Option-cases (lookup "allowed_tools" o)) [
    | inl missing ↦ inl (ground (arith, missing))
    | inr (v, there) ↦ go v there
  ]
    where
      go :
          (v : Value F)
          → lookup "allowed_tools" o ≡ some v
          → (normalize_guardrails fl c defaults o ≡ o)
            ⊎ ((l : Values F) × (lookup "allowed_tools" o ≡ some (sequence l))
                × (normalize_guardrails fl c defaults o
                    ≡ replaced "allowed_tools" (sequence (stripped_values fl c defaults l)) o))
      go (sequence l) there = inr (l, there, ground (arith, there))
      go null there = inl (ground (arith, there))
      go (text t) there = inl (ground (arith, there))
      go (flag b) there = inl (ground (arith, there))
      go (whole n) there = inl (ground (arith, there))
      go (real x) there = inl (ground (arith, there))
      go (mapping m) there = inl (ground (arith, there))
      go opaque there = inl (ground (arith, there))

  lookup-normalize :
      (j : String) (o : Entries F)
      → ("allowed_tools" == j) ≡ false
      → lookup j (normalize_guardrails fl c defaults o) ≡ lookup j o
  lookup-normalize j o apart = elim (normalize-cases o) [
    | inl same ↦ ap (lookup j) same
    | inr (l, _, put) ↦
        ap (lookup j) put
        ∙ lookup-replaced "allowed_tools" j (sequence (stripped_values fl c defaults l)) o apart
  ]

  pub has_other-normalize :
      (keys : List String) (o : Entries F)
      → has_other keys (normalize_guardrails fl c defaults o) ≡ has_other keys o
  has_other-normalize keys o = elim (normalize-cases o) [
    | inl same ↦ ap (has_other keys) same
    | inr (l, _, put) ↦
        ap (has_other keys) put
        ∙ has_other-replaced keys "allowed_tools" (sequence (stripped_values fl c defaults l)) o
  ]

  -- a number that is required, read from the normalised section
  pub keyword-normalize :
      {A : Type 0} (f : Value F → Option A) (key : String) (default : A) (o : Entries F)
      (e : LoadError)
      → ("allowed_tools" == key) ≡ false
      → keyword f key default (normalize_guardrails fl c defaults o) e ≡ keyword f key default o e
  keyword-normalize f key default o e apart = ground (arith, lookup-normalize key o apart)
