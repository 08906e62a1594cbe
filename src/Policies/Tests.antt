-- ===== src/Policies/Tests.antt =====
-- A document of a policy, the theorem at it, and two documents on which validation and constructors differ.
use agent_roi.Base.{ℕ, zero, suc, ◌≡◌, ◌⊎◌, inl, inr, refl, arith, true, none, [], ◌∷◌, nat_eq, ltb}
use agent_roi.Base.Text.{is_space, strip}
use agent_roi.Float.Sample.{whole}
use agent_roi.Result.{ok, err, is_ok}
use agent_roi.Control.Guardrails.{check_guardrails}
use agent_roi.Control.Decision.{DecisionPolicy, human_review, check_decision_policy}
use agent_roi.Policies.Value.{
  ℤ, pos, negsuc, Value, Entries, Conversions, real, text, sequence, mapping, value, no_values,
  entry, no_entries,
}
use agent_roi.Policies.Validate.{all_zero}
use agent_roi.Policies.Sections.{validate_policy}
use agent_roi.Policies.Loader.{bad_guardrails, section, new_decision_policy, policy_from_mapping}
use agent_roi.Policies.Loader.Weights.{Sums}
use agent_roi.Policies.Loader.Accepts.{validate_policy-loads}

abbrev natural : ℤ → ℕ
natural (pos n) = n
natural (negsuc n) = 0

abbrev conversions : Conversions ℕ
conversions = record {
  of_int = natural;
  of_text = λ t. none;
  is_whole = λ x. true;
  to_int = pos;
  printed = λ v. "";
  lower = λ t. t;
}

abbrev defaults : DecisionPolicy ℕ
defaults = record {
  min_confidence = 1;
  abstain_action = human_review;
  w_prob = 5;
  w_margin = 2;
  w_z = 1;
  w_entropy = 1;
  w_llm = 1;
}

-- the limit of steps, and the weight `w_llm`
abbrev document : Value ℕ → Value ℕ → Entries ℕ
document steps weight = entry "policy_name" (text "p") (
    entry "guardrails"
      (mapping (
        entry "max_steps" steps (
          entry "max_tool_calls" (Value.whole (pos 5)) (
            entry "max_cost_usd" (real 3)
              (entry "allowed_tools" (sequence (value (text " t ") no_values)) no_entries)))))
      (entry "decision_policy"
        (mapping (
          entry "min_confidence" (real 1)
            (entry "abstain_action" (text "retry") (entry "w_llm" weight no_entries))))
        no_entries))

abbrev sample : Entries ℕ
sample = document (Value.whole (pos 10)) (real 2)

sum_sign : (x : ℕ) → (nat_eq x 0 ≡ true) ⊎ (ltb 0 x ≡ true)
sum_sign zero = inl refl
sum_sign (suc x) = inr (ground arith)

sums : Sums whole
sums = record {
  eq_refl_nought = refl;
  sign = λ x f h. sum_sign x;
  both_nought = λ a b h k. ground (arith, h, k);
  left_positive = λ a b h f k. ground (arith, h);
  right_positive = λ a b h k. ground (arith, h, k);
}

sound : check_decision_policy whole defaults ≡ ok tt
unfolding check_decision_policy
sound = refl

valid : validate_policy whole conversions (mapping sample) ≡ ok tt
unfolding validate_policy is_space strip
valid = refl

validate_policy-loads_example :
    is_ok (policy_from_mapping whole conversions defaults "p" sample) ≡ true
unfolding strip
validate_policy-loads_example =
    validate_policy-loads whole conversions defaults sums "p" sample (pos 10) (pos 5) refl sound
      refl refl refl refl valid

-- A limit of steps that is written as the float 10.0 is valid, and then refused by the constructor.
float_limit_test :
    (validate_policy whole conversions (mapping (document (real 10) (real 2))) ≡ ok tt)
    × (policy_from_mapping whole conversions defaults "p" (document (real 10) (real 2))
        ≡ err bad_guardrails)
unfolding policy_from_mapping check_guardrails is_space strip
float_limit_test = (refl, refl)

-- One weight of nought is refused as if all weights were nought, where the constructor accepts the section
-- by the defaults of the other four.
zero_weight_test :
    (validate_policy whole conversions (mapping (document (Value.whole (pos 10)) (real 0)))
      ≡ err (record { path = "policy" ∷ "decision_policy" ∷ []; fault = all_zero } ∷ []))
    × (is_ok (
          new_decision_policy whole conversions defaults
            (section "decision_policy" (document (Value.whole (pos 10)) (real 0))))
        ≡ true)
unfolding validate_policy new_decision_policy is_space strip
zero_weight_test = (refl, refl)
