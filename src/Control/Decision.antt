-- ===== src/Control/Decision.antt =====
-- `ConfidenceInputs` and `DecisionPolicy` of control/decision.py, over abstract floats, the exponential of
-- the library, and the constant 2.5.
use agent_roi.Base.{false, Option, none, some, not, ◌||◌, ◌≡◌, arith, if◌then◌else◌}
use mathlib.Core.Path.{subst}
use agent_roi.Float.{Float, max, min, min-le_left, max-ge_left}
use agent_roi.Result.{Result, ok, err, ◌>>=◌, ◌>>◌, raise_if}

pub data DecisionOutcome : Type 0 where
  accept abstain human_review retry : DecisionOutcome

pub record ConfidenceInputs (F : Type 0) : Type 0 where
  pub prob : Option F
  pub margin : Option F
  pub z_score : Option F
  pub entropy : Option F
  pub llm_self_score : Option F

pub record DecisionPolicy (F : Type 0) : Type 0 where
  pub min_confidence : F
  pub abstain_action : DecisionOutcome
  pub w_prob : F
  pub w_margin : F
  pub w_z : F
  pub w_entropy : F
  pub w_llm : F

pub data DecisionError : Type 0 where
  not_finite not_between negative_weight no_weight : DecisionError

-- `ConfidenceInputs()`
abbrev pub no_inputs : {F : Type 0} → ConfidenceInputs F
no_inputs = record {
  prob = none;
  margin = none;
  z_score = none;
  entropy = none;
  llm_self_score = none;
}

-- `math.exp`, the change of sign, and `2.5`
pub record Numbers (F : Type 0) : Type 0 where
  pub exp : F → F
  pub neg : F → F
  pub two_and_a_half : F

module _ (fl : Float) where
  open fl use {F, nought, one, add, sub, mul, div, lt, is_finite}

  -- `_finite_number` of a float
  abbrev pub finite_number : F → Result DecisionError F
  finite_number x = if is_finite x then ok x else err not_finite

  -- `_clamp01`
  abbrev pub clamp01 : F → F
  clamp01 x = max fl nought (min fl one x)

  -- `_weight_denominator`
  abbrev pub weight_denominator : DecisionPolicy F → F
  weight_denominator p = add (add (add (add p.w_prob p.w_margin) p.w_z) p.w_entropy) p.w_llm

  abbrev check_weight : F → Result DecisionError (Unit {0})
  check_weight w = raise_if (not (is_finite w)) not_finite >> raise_if (lt w nought) negative_weight

  -- `__post_init__`
  unfoldable pub check_decision_policy : DecisionPolicy F → Result DecisionError (Unit {0})
  check_decision_policy p = do
    raise_if (not (is_finite p.min_confidence)) not_finite
    raise_if (lt p.min_confidence nought || lt one p.min_confidence) not_between
    check_weight p.w_prob
    check_weight p.w_margin
    check_weight p.w_z
    check_weight p.w_entropy
    check_weight p.w_llm
    raise_if (not (lt nought (weight_denominator p))) no_weight

  module _ (m : Numbers F) where
    -- `_stable_sigmoid`
    abbrev pub stable_sigmoid : F → F
    stable_sigmoid x =
        if lt x nought
        then div (m.exp x) (add one (m.exp x))
        else div one (add one (m.exp (m.neg x)))

    -- a signal that may be missing
    abbrev signal : Option F → (F → F) → F → Result DecisionError F
    signal none change total = ok total
    signal (some x) change total = finite_number x >>= λ y. ok (change y)

    -- the five terms of the sum
    abbrev with_prob : DecisionPolicy F → ConfidenceInputs F → Result DecisionError F
    with_prob p x = signal x.prob (λ y. add nought (mul p.w_prob (clamp01 y))) nought

    abbrev with_margin : DecisionPolicy F → ConfidenceInputs F → F → Result DecisionError F
    with_margin p x a = signal x.margin (λ y. add a (mul p.w_margin (clamp01 y))) a

    abbrev with_z : DecisionPolicy F → ConfidenceInputs F → F → Result DecisionError F
    with_z p x a = signal x.z_score (λ y. add a (mul p.w_z (stable_sigmoid y))) a

    abbrev with_entropy : DecisionPolicy F → ConfidenceInputs F → F → Result DecisionError F
    with_entropy p x a =
        signal x.entropy (λ y. sub a (mul p.w_entropy (clamp01 (div y m.two_and_a_half)))) a

    abbrev with_llm : DecisionPolicy F → ConfidenceInputs F → F → Result DecisionError F
    with_llm p x a = signal x.llm_self_score (λ y. add a (mul p.w_llm (clamp01 y))) a

    -- `score`
    unfoldable pub score : DecisionPolicy F → ConfidenceInputs F → Result DecisionError F
    score p x = do
      a ← with_prob p x
      b ← with_margin p x a
      c ← with_z p x b
      d ← with_entropy p x c
      e ← with_llm p x d
      ok (clamp01 (div e (weight_denominator p)))

    -- `decide`
    unfoldable pub decide :
        DecisionPolicy F → ConfidenceInputs F → Result DecisionError DecisionOutcome
    unfolding score
    decide p x = elim (score p x) [
      | err e ↦ err e
      | ok s ↦ ok (if lt s p.min_confidence then p.abstain_action else accept)
    ]

    clamp01_bounds : (x : F) → (lt (clamp01 x) nought ≡ false) × (lt one (clamp01 x) ≡ false)
    clamp01_bounds x = (
      max-ge_left fl nought (min fl one x),
      ground (arith, fl.lt_asymm nought one fl.one_pos, min-le_left fl one x),
    )

    abbrev InUnit : F → Type 0
    InUnit s = (lt s nought ≡ false) × (lt one s ≡ false)

    -- what holds after every rest of a computation holds after it
    bind-all :
        {A : Type 0} (r : Result DecisionError A) (f : A → Result DecisionError F) (s : F)
        → ((a : A) → f a ≡ ok s → InUnit s)
        → (r >>= f) ≡ ok s
        → InUnit s
    bind-all (ok a) f s rest h = rest a h
    bind-all (err x) f s rest h = absurd (ground (arith, h))

    last_step : (v s : F) → ◌≡◌ {A = Result DecisionError F} (ok (clamp01 v)) (ok s) → InUnit s
    last_step v s h =
        let same : clamp01 v ≡ s = ground (arith, h) in subst InUnit same (clamp01_bounds v)

    -- A score that is returned is between nought and one, whatever the signals and the weights are.
    pub score_bounds :
        (p : DecisionPolicy F) (x : ConfidenceInputs F) (s : F)
        → score p x ≡ ok s
        → (lt s nought ≡ false) × (lt one s ≡ false)
    unfolding score
    score_bounds p x s h =
        bind-all {A = F} (with_prob p x) _ s
          (λ a. bind-all {A = F} (with_margin p x a) _ s (λ b.
            bind-all {A = F} (with_z p x b) _ s (λ c.
              bind-all {A = F} (with_entropy p x c) _ s (λ d.
                bind-all {A = F} (with_llm p x d) _ s
                  (λ e. last_step (div e (weight_denominator p)) s)))))
          h
