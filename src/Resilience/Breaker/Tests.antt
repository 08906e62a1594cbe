-- ===== src/Resilience/Breaker/Tests.antt =====
-- Runs of the breaker, and its theorems at concrete calls.
use agent_roi.Base.{ℕ, ◌+◌, ◌≡◌, refl, true, false, [], ◌∷◌, arith}
use agent_roi.Result.{ok, err, Exec}
use agent_roi.Resilience.Breaker.{
  CircuitBreaker, closed, opened, half_open, probe_in_progress, raised, init, before_call,
  record_success, record_failure, call,
}
use agent_roi.Resilience.Breaker.Invariant.{IsValid, init-IsValid, call-IsValid}
use agent_roi.Resilience.Breaker.Threshold.{fails}
use agent_roi.Resilience.Breaker.Probes.{probe_outcome, late_success_readmits}

abbrev fresh : CircuitBreaker
fresh = record {
  failure_threshold = 2;
  recovery_timeout = 30;
  success_threshold = 1;
  state = closed;
  failures = 0;
  successes = 0;
  opened_at = 0;
  probe_in_flight = false;
}

abbrev tripped : CircuitBreaker
tripped = record fresh { state = opened; failures = 2; opened_at = 100 }

abbrev probing : CircuitBreaker
probing = record tripped { state = half_open; probe_in_flight = true }

-- The world is the number of calls that were made.
abbrev failing : Exec ℕ ℕ ℕ
failing n = (err 7, n + 1)

abbrev working : Exec ℕ ℕ ℕ
working n = (ok 5, n + 1)

init_test : init 2 30 1 ≡ ok fresh
unfolding init
init_test = refl

trip_test : fails (90 ∷ 100 ∷ []) fresh ≡ tripped
unfolding record_failure
trip_test = refl

fresh-IsValid : IsValid fresh
fresh-IsValid = init-IsValid 2 30 1 fresh init_test

call-IsValid_example : IsValid (call 3 4 failing (fresh, 0)).1.0
call-IsValid_example = call-IsValid 3 4 failing fresh 0 fresh-IsValid

probe_outcome_example :
    call 130 131 failing (tripped, 0)
    ≡ (err (raised 7), (record tripped { failures = 3; opened_at = 131 }, 1))
probe_outcome_example = (probe_outcome 130 131 failing tripped 0 refl (omega arith)).0 7 refl

late_success_readmits_example :
    ((before_call 140 probing).0 ≡ err probe_in_progress)
    × ((before_call 140 (record_success probing)).0 ≡ ok tt)
late_success_readmits_example = late_success_readmits 140 probing refl refl
