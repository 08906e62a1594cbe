-- ===== src/Resilience/Retry/Delay.antt =====
-- The bounds of `RetryPolicy.delay`.
use agent_roi.Base.{some, Option-cases, inl, inr, ℕ, ◌-◌, ◌≡◌, true, false, arith}
use agent_roi.Float
use agent_roi.Float.{Float}
use agent_roi.Resilience.Retry.{RetryPolicy, base_delay, jitter_factor, delay}

module _ (fl : Float) {X : Type 0} where
  open fl use {F, nought, lt, eq, mul, pow, lt_irrefl, lt_asymm}

  -- Without jitter a delay is at most `max_backoff_seconds`, whatever the attempt. With jitter, and
  -- a base delay that is not zero, it is not negative.
  pub delay_bounds :
      (p : RetryPolicy F X) (n : ℕ) (sample base d : F)
      → base_delay fl p n ≡ some base
      → delay fl p n sample ≡ some d
      → (eq p.jitter_ratio nought ≡ true → lt p.max_backoff d ≡ false)
        × (eq p.jitter_ratio nought ≡ false → eq base nought ≡ false → lt d nought ≡ false)
  unfolding delay base_delay
  delay_bounds p n sample base d computed given = elim (Option-cases (pow p.multiplier (n - 1))) [
    | inl overflow ↦ absurd (ground (arith, overflow, computed))
    | inr (x, power) ↦ (
      λ plain.
          ground
            (arith, power, given, Float.min-le_left fl p.max_backoff (mul p.initial_backoff x)),
      λ jitter positive. ground (
        arith,
        power,
        computed,
        given,
        Float.max-ge_left fl nought (mul base (jitter_factor fl p sample)),
      ),
    )
  ]
