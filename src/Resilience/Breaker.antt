-- ===== src/Resilience/Breaker.antt =====
-- `CircuitBreaker` of runtime/resilience.py. The clock's readings are arguments, in ticks of any
-- length: `elapsed` is `clock() - opened_at`, which stops at 0 here, and the timeout is positive.
-- `acall` is `call` around an awaited function. Each method holds the lock, so threads interleave
-- between the methods: `before_call`, `record_success` and `record_failure` are the atomic steps.
pub mod Invariant
pub mod Threshold
pub mod Probes
mod Tests
use agent_roi.Base.{ℕ, suc, ◌+◌, ◌-◌, Bool, true, false, leb, ltb, if◌then◌else◌, ◌||◌, ◌&&◌}
use agent_roi.Result.{Result, ok, err, Exec, ◌>>=◌, ◌>>◌, raise_if}

pub data CircuitState : Type 0 where
  closed opened half_open : CircuitState

abbrev pub is_open : CircuitState → Bool
is_open opened = true
is_open _ = false

abbrev pub is_half_open : CircuitState → Bool
is_half_open half_open = true
is_half_open _ = false

pub record CircuitBreaker : Type 0 where
  pub failure_threshold : ℕ
  pub recovery_timeout : ℕ
  pub success_threshold : ℕ
  pub state : CircuitState
  pub failures : ℕ
  pub successes : ℕ
  pub opened_at : ℕ
  pub probe_in_flight : Bool

pub data CircuitError : Type 0 where
  bad_failure_threshold bad_timeout bad_success_threshold circuit_open probe_in_progress :
      CircuitError

-- `__init__`
pub init : ℕ → ℕ → ℕ → Result CircuitError CircuitBreaker
init failure_threshold recovery_timeout success_threshold = do
  raise_if (ltb failure_threshold 1) bad_failure_threshold
  raise_if (leb recovery_timeout 0) bad_timeout
  raise_if (ltb success_threshold 1) bad_success_threshold
  ok (record {
    failure_threshold = failure_threshold;
    recovery_timeout = recovery_timeout;
    success_threshold = success_threshold;
    state = closed;
    failures = 0;
    successes = 0;
    opened_at = 0;
    probe_in_flight = false;
  })

-- The property `state`: reading it moves an open circuit on once the timeout is over.
pub read_state : ℕ → CircuitBreaker → CircuitBreaker
read_state now b =
    if is_open b.state && leb b.recovery_timeout (now - b.opened_at)
    then record b { state = half_open; probe_in_flight = false }
    else b

admit : CircuitState → Exec CircuitError CircuitBreaker (Unit {0})
admit closed b = (ok tt, b)
admit opened b = (err circuit_open, b)
admit half_open b =
    if b.probe_in_flight
    then (err probe_in_progress, b)
    else (ok tt, record b { probe_in_flight = true })

pub before_call : ℕ → Exec CircuitError CircuitBreaker (Unit {0})
unfolding read_state admit
before_call now b = let b' = read_state now b in admit b'.state b'

pub record_success : CircuitBreaker → CircuitBreaker
record_success b =
    if is_half_open b.state
    then (if leb b.success_threshold (b.successes + 1)
        then record b { state = closed; failures = 0; successes = 0; probe_in_flight = false }
        else record b { successes = b.successes + 1; probe_in_flight = false })
    else record b { failures = 0 }

pub record_failure : ℕ → CircuitBreaker → CircuitBreaker
record_failure now b =
    if is_half_open b.state || leb b.failure_threshold (b.failures + 1)
    then record b {
      probe_in_flight = false;
      successes = 0;
      failures = b.failures + 1;
      state = opened;
      opened_at = now;
    }
    else record b { probe_in_flight = false; successes = 0; failures = b.failures + 1 }

-- What `call` raises: its own refusal, or the exception of the function.
pub data CallError (X : Type 0) : Type 0 where
  refused : CircuitError → CallError X
  raised : X → CallError X

module _ {X A : Type 0} where
  settle : Result X A → ℕ → CircuitBreaker → Result (CallError X) A × CircuitBreaker
  settle (ok a) later b = (ok a, record_success b)
  settle (err x) later b = (err (raised x), record_failure later b)

module _ {X A W : Type 0} where
  -- `call`; the clock reads `now` before the call and `later` after a failure
  pub call : ℕ → ℕ → Exec X W A → Exec (CallError X) (CircuitBreaker × W) A
  unfolding settle
  call now later fn (b, w) =
      let (admitted, b') = before_call now b in
      elim admitted [
        | err e ↦ (err (refused e), (b', w))
        | ok _ ↦ let (r, w') = fn w in let (r', b'') = settle r later b' in (r', (b'', w'))
      ]
