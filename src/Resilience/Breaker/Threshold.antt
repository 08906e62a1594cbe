-- ===== src/Resilience/Breaker/Threshold.antt =====
-- When failures open a closed circuit.
use agent_roi.Base.{
  ℕ, ◌+◌, ◌≤◌, ◌<◌, ◌≡◌, List, [], ◌∷◌, arith, leb, length, if◌then◌else◌, Bool-cases, inl, inr,
}
use agent_roi.Resilience.Breaker.{closed, opened, CircuitBreaker, record_failure}

-- Failures recorded one after another, with the clock's readings.
abbrev pub fails : List ℕ → CircuitBreaker → CircuitBreaker
fails [] b = b
fails (now ∷ times) b = fails times (record_failure now b)

fails-opened :
    (times : List ℕ) (b : CircuitBreaker) → b.state ≡ opened → (fails times b).state ≡ opened
fails-opened [] b h = h
fails-opened (now ∷ times) b h =
    fails-opened times (record_failure now b) (unfold record_failure in ground arith)

failures-fails :
    (times : List ℕ) (b : CircuitBreaker) → (fails times b).failures ≡ b.failures + length times
unfolding record_failure
failures-fails [] b = omega arith
failures-fails (now ∷ times) b = ground (arith, failures-fails times (record_failure now b))

-- A failure of a closed circuit below its threshold.
record_failure-below :
    (now : ℕ) (b : CircuitBreaker)
    → b.state ≡ closed
    → b.failures + 1 < b.failure_threshold
    → ((record_failure now b).state ≡ closed)
      × ((record_failure now b).failures ≡ b.failures + 1)
      × ((record_failure now b).failure_threshold ≡ b.failure_threshold)
unfolding record_failure
record_failure-below now b h lt = ground arith

record_failure-trips :
    (now : ℕ) (b : CircuitBreaker)
    → b.failure_threshold ≤ b.failures + 1
    → (record_failure now b).state ≡ opened
unfolding record_failure
record_failure-trips now b h = ground arith

-- From a closed circuit with fewer failures than its threshold, a run of failures leaves it open
-- exactly if the failures reach the threshold, and closed otherwise, with all of them counted.
pub fails-state :
    (times : List ℕ) (b : CircuitBreaker)
    → b.state ≡ closed
    → b.failures < b.failure_threshold
    → ((fails times b).state
        ≡ (if leb b.failure_threshold (b.failures + length times) then opened else closed))
      × ((fails times b).failures ≡ b.failures + length times)
fails-state times b h lt = (go times b h lt, failures-fails times b)
  where
    go :
        (times : List ℕ) (b : CircuitBreaker)
        → b.state ≡ closed
        → b.failures < b.failure_threshold
        → (fails times b).state
          ≡ (if leb b.failure_threshold (b.failures + length times) then opened else closed)
    go [] b h lt = ground arith
    go (now ∷ times) b h lt = elim (Bool-cases (leb b.failure_threshold (b.failures + 1))) [
      | inl trip ↦ ground (
        arith,
        fails-opened times (record_failure now b) (record_failure-trips now b (ground arith)),
      )
      | inr more ↦
          ground
            (arith, record_failure-below now b h (ground arith), go times (record_failure now b))
    ]
