-- ===== src/Policies/Loader.antt =====
-- `Policy`, `policy_from_mapping` and the objects that it builds, of policies/loader.py. Freezing turns
-- lists into tuples and sets into frozen sets, which are one here. Which error a constructor raises is
-- left out.
pub mod Weights
pub mod Decision
pub mod Normalize
pub mod Limits
pub mod Accepts
use agent_roi.Base.{
  ℕ, String, Bool, true, false, Option, none, some, List, [], ◌∷◌, ◌++◌, not, ◌==◌, ◌&&◌, ◌||◌, any,
  if◌then◌else◌, is_some, map,
}
use agent_roi.Base.Text.{is_blank, strip}
use agent_roi.Float.{Float}
use agent_roi.Result.{Result, ok, err, ◌>>=◌, ◌>>◌, raise_if, or_raise}
use agent_roi.Control.Guardrails.{Guardrails, check_guardrails}
use agent_roi.Control.Decision.{DecisionOutcome, DecisionPolicy, check_decision_policy}
use agent_roi.Policies.Value.{
  ℤ, pos, negsuc, Value, Values, Entries, Conversions, null, flag, whole, real, text, sequence,
  mapping, opaque, no_values, value, no_entries, entry, lookup, has_other, to_float,
}
use agent_roi.Policies.Validate.{PolicyError, entries_of}
use agent_roi.Policies.Sections.{outcome_of, validate_policy}

pub data LoadError : Type 0 where
  blank_policy : LoadError
  invalid : List PolicyError → LoadError
  bad_guardrails bad_decision_policy : LoadError

pub record Policy (F : Type 0) : Type 0 where
  pub name : String
  pub content : Entries F

-- `mapping[key] = value` of a key that is there
abbrev pub replaced : {F : Type 0} → String → Value F → Entries F → Entries F
replaced key v no_entries = no_entries
replaced key v (entry k old rest) =
    let others = replaced key v rest in if k == key then entry k v rest else entry k old others

abbrev pub section : {F : Type 0} → String → Entries F → Entries F
section key o = elim (lookup key o) [ none ↦ no_entries | some v ↦ entries_of v ]

-- `Guardrails(**section)` and `DecisionPolicy(**section)` read their keywords, by their defaults where
-- they are not given.
abbrev pub guardrail_keys : List String
guardrail_keys =
    "max_steps" ∷ "max_tool_calls" ∷ "max_cost_usd" ∷ "deterministic" ∷ "allowed_tools"
    ∷ "require_registered_tools" ∷ "require_bound_approval_grants" ∷ []

abbrev pub decision_keys : List String
decision_keys =
    "min_confidence" ∷ "abstain_action" ∷ "w_prob" ∷ "w_margin" ∷ "w_z" ∷ "w_entropy" ∷ "w_llm" ∷ []

-- a keyword, read by `f`
abbrev pub keyword :
    {F A : Type 0} → (Value F → Option A) → String → A → Entries F → LoadError → Result LoadError A
keyword f key default o e = elim (lookup key o) [ none ↦ ok default | some v ↦ or_raise (f v) e ]

-- `isinstance(value, int)`, not negative and no boolean; `isinstance(value, bool)`
abbrev pub count_of : {F : Type 0} → Value F → Option ℕ
count_of (whole (pos n)) = some n
count_of _ = none

abbrev pub flag_of : {F : Type 0} → Value F → Option Bool
flag_of (flag b) = some b
flag_of _ = none

abbrev pub texts_of : {F : Type 0} → Values F → Option (List String)
texts_of no_values = some []
texts_of (value v rest) = elim (texts_of rest) [
  | none ↦ none
  | some l ↦ elim v [ text t ↦ some (t ∷ l) | _ ↦ none ]
]

abbrev pub keys_of : {F : Type 0} → Entries F → List String
keys_of no_entries = []
keys_of (entry k v rest) = k ∷ keys_of rest

-- `allowed_tools`: nothing, or an iterable of texts
abbrev pub tools_of : {F : Type 0} → Value F → Option (Option (List String))
tools_of null = some none
tools_of (sequence l) = elim (texts_of l) [ none ↦ none | some names ↦ some (some names) ]
tools_of (mapping o) = some (some (keys_of o))
tools_of _ = none

-- the steps of a load, each of which may raise
abbrev pub loaded :
    {F : Type 0}
    → Bool
    → Result (List PolicyError) (Unit {0})
    → Result LoadError (Guardrails F)
    → Result LoadError (DecisionPolicy F)
    → Policy F
    → Result LoadError (Policy F)
loaded true valid guardrails decision p = err blank_policy
loaded false (err errors) guardrails decision p = err (invalid errors)
loaded false (ok _) guardrails decision p = do _ ← guardrails; _ ← decision; ok p

module _ (fl : Float) (c : Conversions fl.F) (defaults : DecisionPolicy fl.F) where
  open fl use {F, one}

  unfoldable pub new_guardrails : Entries F → Result LoadError (Guardrails F)
  new_guardrails o = do
    raise_if (has_other guardrail_keys o) bad_guardrails
    max_steps ← keyword count_of "max_steps" 10 o bad_guardrails
    max_tool_calls ← keyword count_of "max_tool_calls" 20 o bad_guardrails
    max_cost ← keyword (to_float c) "max_cost_usd" one o bad_guardrails
    deterministic ← keyword flag_of "deterministic" true o bad_guardrails
    allowed_tools ← keyword tools_of "allowed_tools" none o bad_guardrails
    registered ← keyword flag_of "require_registered_tools" false o bad_guardrails
    bound ← keyword flag_of "require_bound_approval_grants" false o bad_guardrails
    elim (check_guardrails fl (record {
      max_steps = max_steps;
      max_tool_calls = max_tool_calls;
      max_cost = max_cost;
      deterministic = deterministic;
      allowed_tools = allowed_tools;
      require_registered_tools = registered;
      require_bound_approval_grants = bound;
    })) [ err x ↦ err bad_guardrails | ok g ↦ ok g ]

  -- `DecisionOutcome(str(value))`
  abbrev pub action_of : Value F → Option DecisionOutcome
  action_of (text t) = outcome_of t
  action_of v = outcome_of (c.printed v)

  unfoldable pub new_decision_policy : Entries F → Result LoadError (DecisionPolicy F)
  unfolding outcome_of check_decision_policy
  new_decision_policy o = do
    raise_if (has_other decision_keys o) bad_decision_policy
    min_confidence ←
        keyword (to_float c) "min_confidence" defaults.min_confidence o bad_decision_policy
    action ← keyword action_of "abstain_action" defaults.abstain_action o bad_decision_policy
    w_prob ← keyword (to_float c) "w_prob" defaults.w_prob o bad_decision_policy
    w_margin ← keyword (to_float c) "w_margin" defaults.w_margin o bad_decision_policy
    w_z ← keyword (to_float c) "w_z" defaults.w_z o bad_decision_policy
    w_entropy ← keyword (to_float c) "w_entropy" defaults.w_entropy o bad_decision_policy
    w_llm ← keyword (to_float c) "w_llm" defaults.w_llm o bad_decision_policy
    let p : DecisionPolicy F = record {
      min_confidence = min_confidence;
      abstain_action = action;
      w_prob = w_prob;
      w_margin = w_margin;
      w_z = w_z;
      w_entropy = w_entropy;
      w_llm = w_llm;
    }
    elim (check_decision_policy fl p) [ err x ↦ err bad_decision_policy | ok _ ↦ ok p ]

  -- `str(item).strip()` of each item
  abbrev pub stripped_values : Values F → Values F
  stripped_values no_values = no_values
  stripped_values (value (text t) rest) = value (text (strip t)) (stripped_values rest)
  stripped_values (value v rest) = value (text (strip (c.printed v))) (stripped_values rest)

  -- `_normalize_policy`, of the guardrails and of the whole
  abbrev pub normalize_guardrails : Entries F → Entries F
  normalize_guardrails guardrails = elim (lookup "allowed_tools" guardrails) [
    | none ↦ guardrails
    | some allowed ↦ elim allowed [
      | sequence l ↦ replaced "allowed_tools" (sequence (stripped_values l)) guardrails
      | _ ↦ guardrails
    ]
  ]

  unfoldable pub normalize_policy : Entries F → Entries F
  normalize_policy o = elim (lookup "guardrails" o) [
    | none ↦ o
    | some g ↦ elim g [
      | mapping guardrails ↦ replaced "guardrails" (mapping (normalize_guardrails guardrails)) o
      | _ ↦ o
    ]
  ]

  -- `policy_from_mapping`
  unfoldable pub policy_from_mapping : String → Entries F → Result LoadError (Policy F)
  unfolding validate_policy normalize_policy new_guardrails new_decision_policy
  policy_from_mapping name o =
      loaded (is_blank name) (validate_policy fl c (mapping o))
        (new_guardrails (section "guardrails" (normalize_policy o)))
        (new_decision_policy (section "decision_policy" (normalize_policy o)))
        (record { name = strip name; content = normalize_policy o })
