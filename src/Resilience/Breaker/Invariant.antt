-- ===== src/Resilience/Breaker/Invariant.antt =====
-- The invariant of the breaker, kept by every method on every path.
use agent_roi.Base.{ℕ, ◌≤◌, ◌<◌, ◌≡◌, ◌≢◌, true, arith, inl, inr}
use agent_roi.Result.{ok, Exec, Result-cases}
use agent_roi.Resilience.Breaker.{
  closed, half_open, CircuitBreaker, init, read_state, before_call, record_success, record_failure,
  call, settle,
}

-- A closed circuit has fewer failures than its threshold, successes are counted only while
-- half-open and below their threshold, and a probe is in flight only while half-open.
pub record IsValid (b : CircuitBreaker) : Type 0 where
  pub failure_positive : 1 ≤ b.failure_threshold
  pub timeout_positive : 1 ≤ b.recovery_timeout
  pub success_positive : 1 ≤ b.success_threshold
  pub below : b.state ≡ closed → b.failures < b.failure_threshold
  pub few : b.successes < b.success_threshold
  pub idle : b.state ≢ half_open → b.successes ≡ 0
  pub probing : b.probe_in_flight ≡ true → b.state ≡ half_open

pub init-IsValid : (f t s : ℕ) (b : CircuitBreaker) → init f t s ≡ ok b → IsValid b
unfolding init
init-IsValid f t s b h = ground arith

pub read_state-IsValid : (now : ℕ) {b : CircuitBreaker} → IsValid b → IsValid (read_state now b)
unfolding read_state
read_state-IsValid now v = ground arith

pub before_call-IsValid : (now : ℕ) {b : CircuitBreaker} → IsValid b → IsValid (before_call now b).1
unfolding before_call
before_call-IsValid now v = ground arith

pub record_success-IsValid : {b : CircuitBreaker} → IsValid b → IsValid (record_success b)
unfolding record_success
record_success-IsValid v = ground arith

pub record_failure-IsValid :
    (now : ℕ) {b : CircuitBreaker} → IsValid b → IsValid (record_failure now b)
unfolding record_failure
record_failure-IsValid now v = ground arith

-- Whether the call is refused, succeeds or fails, the breaker stays valid.
pub call-IsValid :
    {X A W : Type 0} (now later : ℕ) (fn : Exec X W A) (b : CircuitBreaker) (w : W)
    → IsValid b
    → IsValid (call now later fn (b, w)).1.0
unfolding call settle
call-IsValid now later fn b w v = elim (Result-cases (before_call now b).0) [
  | inl (_, admitted) ↦ elim (Result-cases (fn w).0) [
    | inl (a, e) ↦ ground (arith, record_success-IsValid (before_call-IsValid now v))
    | inr (x, e) ↦ ground (arith, record_failure-IsValid later (before_call-IsValid now v))
  ]
  | inr (e, refusal) ↦ ground (arith, before_call-IsValid now v)
]
