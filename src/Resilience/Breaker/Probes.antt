-- ===== src/Resilience/Breaker/Probes.antt =====
-- Which calls the breaker lets through.
use agent_roi.Base.{ℕ, ◌+◌, ◌-◌, ◌≤◌, ◌<◌, ◌≡◌, true, false, arith, leb, if◌then◌else◌}
use agent_roi.Result.{ok, err, Exec}
use agent_roi.Resilience.Breaker.{
  closed, opened, half_open, CircuitBreaker, circuit_open, probe_in_progress, refused, raised,
  before_call, record_success, record_failure, call, settle,
}

-- While the timeout of an open circuit runs, and while a half-open circuit has its probe in flight,
-- a call is refused with the error for its case, and neither the function nor the breaker moves.
pub call-refused :
    {X A W : Type 0} (now later : ℕ) (fn : Exec X W A) (b : CircuitBreaker) (w : W)
    → (b.state ≡ opened
        → now - b.opened_at < b.recovery_timeout
        → call now later fn (b, w) ≡ (err (refused circuit_open), (b, w)))
      × (b.state ≡ half_open
          → b.probe_in_flight ≡ true
          → call now later fn (b, w) ≡ (err (refused probe_in_progress), (b, w)))
unfolding call before_call
call-refused now later fn b w = (λ s t. ground arith, λ s p. ground arith)

-- Once the timeout of an open circuit is over, the next call runs as the probe: a failure opens the
-- circuit again from the time of the failure; a success closes it, with no failures on record, if it
-- is the last of the successes that are asked for, and otherwise leaves it half-open with no probe.
pub probe_outcome :
    {X A W : Type 0} (now later : ℕ) (fn : Exec X W A) (b : CircuitBreaker) (w : W)
    → b.state ≡ opened
    → b.recovery_timeout ≤ now - b.opened_at
    → ((x : X)
        → (fn w).0 ≡ err x
        → call now later fn (b, w) ≡ (
          err (raised x),
          (
            record b {
              state = opened;
              failures = b.failures + 1;
              successes = 0;
              opened_at = later;
              probe_in_flight = false;
            },
            (fn w).1,
          ),
        ))
      × ((a : A)
          → (fn w).0 ≡ ok a
          → call now later fn (b, w) ≡ (
            ok a,
            (
              if leb b.success_threshold (b.successes + 1)
                  then record b {
                    state = closed;
                    failures = 0;
                    successes = 0;
                    probe_in_flight = false;
                  }
                  else record b {
                    state = half_open;
                    successes = b.successes + 1;
                    probe_in_flight = false;
                  },
              (fn w).1,
            ),
          ))
unfolding call before_call settle record_success record_failure
probe_outcome now later fn b w s t = (λ x e. ground arith, λ a e. ground arith)

-- A success that is recorded while a probe is in flight, as a call does that was let through before
-- the circuit opened and ends late, frees the place of the probe: the next call is let through
-- whether the circuit is closed by it or stays half-open.
pub late_success_readmits :
    (now : ℕ) (b : CircuitBreaker)
    → b.state ≡ half_open
    → b.probe_in_flight ≡ true
    → ((before_call now b).0 ≡ err probe_in_progress)
      × ((before_call now (record_success b)).0 ≡ ok tt)
unfolding before_call record_success
late_success_readmits now b s p = (ground arith, ground arith)
