-- ===== src/Resilience/Retry.antt =====
-- `RetryPolicy` and `retry_call` of runtime/resilience.py; `aretry_call` is the same loop around an
-- awaited call. What a call does to the world, and what a wait does, are functions on a state `W`; a wait
-- computes the delay and sleeps, and may raise, as a power of floats does that overflows.
pub mod Attempts
pub mod Delay
mod Tests
use agent_roi.Base.{
  ℕ, zero, suc, ◌+◌, ◌-◌, Bool, true, false, Option, none, some, not, ◌||◌, leb, ltb, if◌then◌else◌,
}
use agent_roi.Result.{Result, ok, err, Exec, ◌>>=◌, ◌>>◌, raise_if}
use agent_roi.Float
use agent_roi.Float.{Float}

pub data RetryError : Type 0 where
  bad_max_attempts bad_number bad_multiplier bad_jitter no_exceptions : RetryError

-- `X` stands for the exceptions; `retryable` is `isinstance(exc, self.retry_exceptions)`.
pub record RetryPolicy (F X : Type 0) : Type 0 where
  pub max_attempts : ℕ
  pub initial_backoff : F
  pub multiplier : F
  pub max_backoff : F
  pub jitter_ratio : F
  pub retryable : X → Bool
  pub has_exceptions : Bool

-- `not math.isfinite(value) or value < 0`
abbrev pub bad_number? : (fl : Float) → fl.F → Bool
bad_number? fl x = not (fl.is_finite x) || fl.lt x fl.nought

module _ (fl : Float) {X : Type 0} where
  open fl use {F, nought, one, add, sub, mul, pow, lt, eq}

  -- `__post_init__`
  pub check_policy : RetryPolicy F X → Result RetryError (RetryPolicy F X)
  check_policy p = do
    raise_if (ltb p.max_attempts 1) bad_max_attempts
    raise_if
        (bad_number? fl p.initial_backoff
          || bad_number? fl p.multiplier
          || bad_number? fl p.max_backoff
          || bad_number? fl p.jitter_ratio)
        bad_number
    raise_if (lt p.multiplier one) bad_multiplier
    raise_if (lt one p.jitter_ratio) bad_jitter
    raise_if (not p.has_exceptions) no_exceptions
    ok p

  -- `none` where the power overflows and raises
  unfoldable pub base_delay : RetryPolicy F X → ℕ → Option F
  base_delay p n = elim (pow p.multiplier (n - 1)) [
    | none ↦ none
    | some x ↦ some (Float.min fl p.max_backoff (mul p.initial_backoff x))
  ]

  abbrev pub jitter_factor : RetryPolicy F X → F → F
  jitter_factor p sample =
      add (sub one p.jitter_ratio) (mul (mul (add one one) p.jitter_ratio) sample)

  -- `delay`; `sample` is the value of `random.random()`
  unfoldable pub delay : RetryPolicy F X → ℕ → F → Option F
  delay p n sample = elim (base_delay p n) [
    | none ↦ none
    | some base ↦ some (
        if eq base nought || eq p.jitter_ratio nought
        then base
        else Float.max fl nought (mul base (jitter_factor p sample)))
  ]

-- `wait n` is `time.sleep(policy.delay(n))`
module _ {F X A W : Type 0} (unreachable : X) (wait : ℕ → Exec X W (Unit {0})) where
  retry_from : RetryPolicy F X → Exec X W A → ℕ → ℕ → Exec X W A
  retry_from policy fn zero attempt w = (err unreachable, w)
  retry_from policy fn (suc left) attempt w =
      let (r, w') = fn w in
      let (waited, w'') = wait attempt w' in
      let again = retry_from policy fn left (suc attempt) w'' in
      elim r [
        | ok a ↦ (ok a, w')
        | err e ↦
            if leb policy.max_attempts attempt || not (policy.retryable e)
            then (err e, w')
            else elim waited [ err x ↦ (err x, w'') | ok _ ↦ again ]
      ]

  -- `for attempt in range(1, policy.max_attempts + 1)`
  unfoldable pub retry_call : RetryPolicy F X → Exec X W A → Exec X W A
  unfolding retry_from
  retry_call policy fn = retry_from policy fn policy.max_attempts 1
