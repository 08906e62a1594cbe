-- ===== src/Policies/Loader/Limits.antt =====
-- The guardrails of a document that passes `validate_policy`.
use agent_roi.Base.{
  ℕ, ◌≡◌, refl, arith, String, Bool, true, false, Option, none, some, List, [], ◌∷◌, leb, any, inl,
  inr, Option-cases,
}
use agent_roi.Base.Text.{is_blank, strip, strip_idem}
use agent_roi.Float.{Float}
use agent_roi.Result.{ok, is_ok}
use agent_roi.Control.Guardrails.{check_guardrails, names_blank}
use agent_roi.Control.Decision.{DecisionPolicy}
use agent_roi.Policies.Value.{
  ℤ, pos, negsuc, Value, Values, Entries, Conversions, null, flag, whole, real, text, sequence,
  mapping, opaque, no_values, value, lookup, to_float, has_other,
}
use agent_roi.Policies.Validate.{require_int_like, validate_allowed_tools, any_unnamed, is_flag}
use agent_roi.Policies.Sections.{guardrail_checks, validate_guardrails, check_flag}
use agent_roi.Policies.Loader.{
  LoadError, bad_guardrails, keyword, guardrail_keys, new_guardrails, normalize_guardrails,
  count_of, flag_of, tools_of, texts_of, stripped_values,
}
use agent_roi.Policies.Loader.Weights.{gathered-nil}
use agent_roi.Policies.Loader.Decision.{require_number-reads}
use agent_roi.Policies.Loader.Normalize.{
  lookup-replaced_self, has_other-normalize, keyword-normalize,
}

module _ {F : Type 0} where
  flag-reads :
      (o : Entries F) (key : String) (default : Bool) (e : LoadError)
      → check_flag o key ≡ []
      → (b : Bool) × (keyword flag_of key default o e ≡ ok b)
  flag-reads o key default e clear = elim (Option-cases (lookup key o)) [
    | inl missing ↦ (default, ground (arith, missing))
    | inr (v, there) ↦ elim (Option-cases (flag_of v)) [
      | inr (b, known) ↦ (b, ground (arith, there, known))
      | inl other ↦ absurd (ground (arith, clear, there, no_flag v other))
    ]
  ]
    where
      no_flag : (v : Value F) → flag_of v ≡ none → is_flag v ≡ false
      no_flag (flag b) h = absurd (ground (arith, h))
      no_flag null h = refl
      no_flag (whole n) h = refl
      no_flag (real x) h = refl
      no_flag (text t) h = refl
      no_flag (sequence l) h = refl
      no_flag (mapping m) h = refl
      no_flag opaque h = refl

module _ (fl : Float) (c : Conversions fl.F) (defaults : DecisionPolicy fl.F) where
  open fl use {F, nought, one, lt, is_finite}

  -- the names that the normalisation leaves
  texts-named :
      (l : Values F)
      → any_unnamed fl c l ≡ false
      → (names : List String) × (texts_of (stripped_values fl c defaults l) ≡ some names)
        × (any is_blank names ≡ false)
  texts-named no_values named = ([], refl, refl)
  texts-named (value (text t) rest) named =
      let (names, read, full) = texts-named rest (ground (arith, named)) in
      (strip t ∷ names, ground (arith, read), ground (arith, named, full, strip_idem t))
  texts-named (value null rest) named = absurd (ground (arith, named))
  texts-named (value (flag b) rest) named = absurd (ground (arith, named))
  texts-named (value (whole n) rest) named = absurd (ground (arith, named))
  texts-named (value (real x) rest) named = absurd (ground (arith, named))
  texts-named (value (sequence l) rest) named = absurd (ground (arith, named))
  texts-named (value (mapping o) rest) named = absurd (ground (arith, named))
  texts-named (value opaque rest) named = absurd (ground (arith, named))

  tools-reads :
      (o : Entries F) (e : LoadError)
      → validate_allowed_tools fl c o ≡ []
      → (names : Option (List String)) × (keyword tools_of "allowed_tools" none
            (normalize_guardrails fl c defaults o)
            e
          ≡ ok names)
        × (names_blank names ≡ false)
  unfolding validate_allowed_tools
  tools-reads o e clear = elim (Option-cases (lookup "allowed_tools" o)) [
    | inl missing ↦ (none, ground (arith, missing), refl)
    | inr (v, there) ↦ go v there
  ]
    where
      go :
          (v : Value F)
          → lookup "allowed_tools" o ≡ some v
          → (names : Option (List String)) × (keyword tools_of "allowed_tools" none
                (normalize_guardrails fl c defaults o)
                e
              ≡ ok names)
            × (names_blank names ≡ false)
      go null there = (none, ground (arith, there), refl)
      go (sequence l) there =
          let (names, read, full) = texts-named l (ground (arith, clear, there)) in
          let put =
            lookup-replaced_self "allowed_tools" (sequence (stripped_values fl c defaults l))
              (sequence l) o there in
          (some names, ground (arith, there, put, read), full)
      go (text t) there = absurd (ground (arith, clear, there))
      go (flag b) there = absurd (ground (arith, clear, there))
      go (whole n) there = absurd (ground (arith, clear, there))
      go (real x) there = absurd (ground (arith, clear, there))
      go (mapping m) there = absurd (ground (arith, clear, there))
      go opaque there = absurd (ground (arith, clear, there))

  -- a count that is written as a whole number
  count-reads :
      (o : Entries F) (path : List String) (key : String) (low default : ℕ) (n : ℤ) (e : LoadError)
      → lookup key o ≡ some (whole n)
      → require_int_like fl c o path key low ≡ []
      → (k : ℕ) × (keyword count_of key default o e ≡ ok k) × (leb low k ≡ true)
  unfolding require_int_like
  count-reads o path key low default (pos k) e there clear =
      (k, ground (arith, there), ground (arith, there, clear))
  count-reads o path key low default (negsuc k) e there clear =
      absurd (ground (arith, there, clear))

  pub new_guardrails-accepts :
      (o : Entries F) (steps calls : ℤ)
      → lookup "max_steps" o ≡ some (whole steps)
      → lookup "max_tool_calls" o ≡ some (whole calls)
      → has_other guardrail_keys o ≡ false
      → validate_guardrails fl c o ≡ []
      → is_ok (new_guardrails fl c defaults (normalize_guardrails fl c defaults o)) ≡ true
  unfolding guardrail_checks validate_guardrails new_guardrails check_guardrails
  new_guardrails-accepts o steps calls s t known clear =
      let path = "policy" ∷ "guardrails" ∷ [] in
      let (no_steps, (no_calls, (no_cost, (no_d, (no_r, (no_b, (no_tools, _))))))) =
        gathered-nil (guardrail_checks fl c o) clear in
      let e = bad_guardrails in
      let (k, steps_read, at_least_one) = count-reads o path "max_steps" 1 10 steps e s no_steps in
      let (m, calls_read, _) = count-reads o path "max_tool_calls" 0 20 calls e t no_calls in
      let (x, cost_read, finite, low, _) =
        require_number-reads fl c o path "max_cost_usd" nought none one e no_cost in
      let (d, d_read) = flag-reads o "deterministic" true e no_d in
      let (r, r_read) = flag-reads o "require_registered_tools" false e no_r in
      let (b, b_read) = flag-reads o "require_bound_approval_grants" false e no_b in
      let (names, tools_read, named) = tools-reads o e no_tools in
      ground (
        arith,
        has_other-normalize fl c defaults guardrail_keys o,
        known,
        keyword-normalize fl c defaults count_of "max_steps" 10 o e refl,
        steps_read,
        at_least_one,
        keyword-normalize fl c defaults count_of "max_tool_calls" 20 o e refl,
        calls_read,
        keyword-normalize fl c defaults (to_float c) "max_cost_usd" one o e refl,
        cost_read,
        finite,
        low,
        keyword-normalize fl c defaults flag_of "deterministic" true o e refl,
        d_read,
        tools_read,
        named,
        keyword-normalize fl c defaults flag_of "require_registered_tools" false o e refl,
        r_read,
        keyword-normalize fl c defaults flag_of "require_bound_approval_grants" false o e refl,
        b_read,
      )
