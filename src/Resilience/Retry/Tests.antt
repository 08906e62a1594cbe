-- ===== src/Resilience/Retry/Tests.antt =====
-- Runs of `retry_call`, and its theorems at concrete policies.
use agent_roi.Base.{◌⊎◌, ℕ, ◌+◌, ◌<◌, ◌≡◌, refl, true, arith, nat_eq, ltb, if◌then◌else◌}
use agent_roi.Result.{ok, err, Exec}
use agent_roi.Float.Sample.{whole}
use agent_roi.Resilience.Retry.{RetryPolicy, check_policy, retry_from, retry_call}
use agent_roi.Resilience.Retry.Attempts.{IsReached, IsLast, IsCut, retry_call-IsLast}

-- Exception 1 is retried, three attempts at most.
abbrev policy : RetryPolicy ℕ ℕ
policy = record {
  max_attempts = 3;
  initial_backoff = 1;
  multiplier = 2;
  max_backoff = 10;
  jitter_ratio = 0;
  retryable = λ e. nat_eq e 1;
  has_exceptions = true;
}

-- The world counts the calls; the first two fail.
abbrev flaky : Exec ℕ ℕ ℕ
flaky n = (if ltb n 2 then err 1 else ok 9, n + 1)

abbrev no_wait : ℕ → Exec ℕ ℕ (Unit {0})
no_wait attempt n = (ok tt, n)

-- the wait behind the first attempt raises
abbrev long_wait : ℕ → Exec ℕ ℕ (Unit {0})
long_wait attempt n = (err 34, n)

flaky_test : retry_call 0 no_wait policy flaky 0 ≡ (ok 9, 3)
unfolding retry_call retry_from
flaky_test = refl

overflow_test : retry_call 0 long_wait policy flaky 0 ≡ (err 34, 1)
unfolding retry_call retry_from
overflow_test = refl

check_test : check_policy whole policy ≡ ok policy
unfolding check_policy
check_test = refl

retry_call-IsLast_example :
    (k : ℕ) × (k < 3)
    × IsReached 0 no_wait policy flaky 1 k 0
    × (IsLast 0 no_wait policy flaky 1 k 0 (retry_call 0 no_wait policy flaky 0)
        ⊎ IsCut 0 no_wait policy flaky 1 k 0 (retry_call 0 no_wait policy flaky 0))
retry_call-IsLast_example = retry_call-IsLast 0 no_wait policy flaky 0 (omega arith)
