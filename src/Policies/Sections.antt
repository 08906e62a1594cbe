-- ===== src/Policies/Sections.antt =====
-- `validate_policy` of policies/validate.py and the sections that it checks.
use agent_roi.Base.{
  String, Bool, true, false, Option, none, some, List, [], ◌∷◌, ◌++◌, not, ◌==◌, ◌||◌, any,
  if◌then◌else◌, is_some,
}
use agent_roi.Base.Text.{is_blank, strip}
use agent_roi.Float.{Float}
use agent_roi.Result.{Result, ok, err}
use agent_roi.Control.Decision.{DecisionOutcome, accept, abstain, human_review, retry}
use agent_roi.Policies.Value.{
  Value, Values, Entries, Conversions, text, sequence, mapping, no_values, value, no_entries, entry,
  lookup, number_of,
}
use agent_roi.Policies.Validate.{
  gathered, PolicyError, error_if, no_mapping, no_number, no_flag, no_list, blank_name, bad_item,
  no_text, no_outcome, too_small, not_between, require_mapping, is_flag, is_finite_number,
  require_number, require_int_like, validate_allowed_tools, validate_decision_weights,
}

-- `DecisionOutcome(action)`
unfoldable pub outcome_of : String → Option DecisionOutcome
outcome_of action =
    if action == "accept"
    then some accept
    else if action == "abstain"
    then some abstain
    else if action == "human_review"
    then some human_review
    else if action == "retry"
    then some retry
    else none

-- `if errors: raise`
abbrev pub raised : List PolicyError → Result (List PolicyError) (Unit {0})
raised [] = ok tt
raised (e ∷ l) = err (e ∷ l)

module _ {F : Type 0} where
  abbrev pub check_flag : Entries F → String → List PolicyError
  check_flag guardrails key = elim (lookup key guardrails) [
    | none ↦ []
    | some v ↦ error_if (not (is_flag v)) ("policy" ∷ "guardrails" ∷ key ∷ []) no_flag
  ]

  abbrev pub check_action : Entries F → List PolicyError
  check_action policy = elim (lookup "abstain_action" policy) [
    | none ↦ []
    | some v ↦ elim v [
      | text action ↦
          error_if (not (is_some (outcome_of action)))
            ("policy" ∷ "decision_policy" ∷ "abstain_action" ∷ []) no_outcome
      | _ ↦ error_if true ("policy" ∷ "decision_policy" ∷ "abstain_action" ∷ []) no_text
    ]
  ]

  abbrev pub check_name : Entries F → List PolicyError
  check_name policy = elim (lookup "policy_name" policy) [
    | none ↦ []
    | some v ↦ elim v [
      | text name ↦ error_if (is_blank name) ("policy" ∷ "policy_name" ∷ []) blank_name
      | _ ↦ error_if true ("policy" ∷ "policy_name" ∷ []) blank_name
    ]
  ]

module _ (fl : Float) (c : Conversions fl.F) where
  open fl use {F, nought, one, lt}

  -- an item of a section of the thresholds
  abbrev pub check_item : List String → String → Value F → List PolicyError
  check_item path key v =
      if key == "always_flag"
      then error_if (not (is_flag v)) path no_flag
      else elim (number_of c v) [
        | none ↦ error_if true path no_number
        | some x ↦
            if not (is_finite_number fl c v)
            then error_if true path no_number
            else error_if (lt x nought) path too_small
      ]

  abbrev pub check_items : List String → Entries F → List PolicyError
  check_items path no_entries = []
  check_items path (entry key v rest) = check_item (path ++ key ∷ []) key v ++ check_items path rest

  -- `_validate_nested_numeric_mapping`
  unfoldable pub validate_nested : List String → Entries F → List PolicyError
  validate_nested path no_entries = []
  validate_nested path (entry name v rest) =
      (elim v [
        | mapping section ↦ check_items (path ++ name ∷ []) section
        | _ ↦ error_if true (path ++ name ∷ []) no_mapping
      ])
      ++ validate_nested path rest

  -- the multipliers of savings
  abbrev pub check_multipliers : List String → Entries F → List PolicyError
  check_multipliers path no_entries = []
  check_multipliers path (entry name v rest) =
      (elim (number_of c v) [
        | none ↦ error_if true (path ++ name ∷ []) no_number
        | some x ↦
            if not (is_finite_number fl c v)
            then error_if true (path ++ name ∷ []) no_number
            else error_if (lt x nought || lt one x) (path ++ name ∷ []) not_between
      ])
      ++ check_multipliers path rest

  unfoldable pub validate_scoring : Entries F → List PolicyError
  validate_scoring scoring = elim (lookup "savings_multipliers" scoring) [
    | none ↦ []
    | some v ↦ elim v [
      | mapping multipliers ↦
          check_multipliers ("policy" ∷ "scoring" ∷ "savings_multipliers" ∷ []) multipliers
      | _ ↦ error_if true ("policy" ∷ "scoring" ∷ "savings_multipliers" ∷ []) no_mapping
    ]
  ]

  -- the risks that need an approval
  abbrev pub is_risk : Value F → Bool
  is_risk (text risk) =
      any (λ r. r == c.lower (strip risk)) ("low" ∷ "med" ∷ "medium" ∷ "high" ∷ [])
  is_risk _ = false

  abbrev pub check_risks : List String → Values F → List PolicyError
  check_risks path no_values = []
  check_risks path (value v rest) =
      error_if (not (is_risk v)) path bad_item ++ check_risks path rest

  abbrev pub validate_risks : Entries F → String → List PolicyError
  validate_risks routing key = elim (lookup key routing) [
    | none ↦ []
    | some v ↦ elim v [
      | sequence risks ↦ check_risks ("policy" ∷ "approval_routing" ∷ key ∷ []) risks
      | _ ↦ error_if true ("policy" ∷ "approval_routing" ∷ key ∷ []) no_list
    ]
  ]

  -- the checks of the guardrails and of the decision policy
  unfoldable pub guardrail_checks : Entries F → List (List PolicyError)
  unfolding require_int_like require_number validate_allowed_tools
  guardrail_checks guardrails =
      (require_int_like fl c guardrails ("policy" ∷ "guardrails" ∷ []) "max_steps" 1
        ∷ require_int_like fl c guardrails ("policy" ∷ "guardrails" ∷ []) "max_tool_calls" 0
        ∷ require_number fl c guardrails ("policy" ∷ "guardrails" ∷ []) "max_cost_usd" (some nought)
            none
        ∷ check_flag guardrails "deterministic"
        ∷ check_flag guardrails "require_registered_tools"
        ∷ check_flag guardrails "require_bound_approval_grants"
        ∷ validate_allowed_tools fl c guardrails
        ∷ [])

  unfoldable pub validate_guardrails : Entries F → List PolicyError
  unfolding guardrail_checks
  validate_guardrails guardrails = gathered (guardrail_checks guardrails)

  unfoldable pub decision_checks : Entries F → List (List PolicyError)
  unfolding require_number outcome_of validate_decision_weights
  decision_checks policy =
      (require_number fl c policy ("policy" ∷ "decision_policy" ∷ []) "min_confidence" (some nought)
          (some one)
        ∷ check_action policy
        ∷ validate_decision_weights fl c policy
        ∷ [])

  unfoldable pub validate_decision : Entries F → List PolicyError
  unfolding decision_checks
  validate_decision policy = gathered (decision_checks policy)

  -- the errors of `validate_policy` for a mapping
  unfoldable pub policy_checks : Entries F → List (List PolicyError)
  unfolding validate_guardrails validate_decision validate_nested validate_scoring
  policy_checks data_entries =
      let (guardrails, no_guardrails) = require_mapping data_entries "guardrails" true in
      let (policy, no_policy) = require_mapping data_entries "decision_policy" true in
      let (thresholds, no_thresholds) = require_mapping data_entries "thresholds" false in
      let (scoring, no_scoring) = require_mapping data_entries "scoring" false in
      let (routing, no_routing) = require_mapping data_entries "approval_routing" false in
      (check_name data_entries
        ∷ no_guardrails
        ∷ validate_guardrails guardrails
        ∷ no_policy
        ∷ validate_decision policy
        ∷ no_thresholds
        ∷ validate_nested ("policy" ∷ "thresholds" ∷ []) thresholds
        ∷ no_scoring
        ∷ validate_scoring scoring
        ∷ no_routing
        ∷ validate_risks routing "requires_approval_for_risk"
        ∷ validate_risks routing "production_requires_approval_for_risk"
        ∷ [])

  unfoldable pub errors_of : Entries F → List PolicyError
  unfolding policy_checks
  errors_of data_entries = gathered (policy_checks data_entries)

  -- `validate_policy`
  unfoldable pub validate_policy : Value F → Result (List PolicyError) (Unit {0})
  unfolding errors_of
  validate_policy (mapping o) = raised (errors_of o)
  validate_policy _ = err (error_if true ("policy" ∷ []) no_mapping)
