-- ===== src/Outbox/Tests.antt =====
-- An outbox with two events, and the theorems at it. The world is the time.
use agent_roi.Base.{
  ℕ, ◌+◌, ◌≤◌, ◌≡◌, refl, true, false, none, some, [], ◌∷◌, arith, ◌==◌, eq_iff, max, min,
  if◌then◌else◌,
}
use agent_roi.Base.Text
use agent_roi.Float.Sample.{whole}
use agent_roi.Resilience.Breaker.{raised}
use agent_roi.Result.{ok, err, is_ok, Exec}
use agent_roi.Sort.{sort_by}
use agent_roi.Resilience.Retry.{delay, base_delay, RetryPolicy, retry_call}
use agent_roi.Outbox.Store.{
  OutboxEvent, Outbox, pending, leased, delivered, enqueue, claim, mark_delivered, reschedule, bury,
  select_due, lease_all,
}
use agent_roi.Outbox.Keys.{IsKeyed}
use agent_roi.Outbox.Phases.{Moves, view, waiting}
use agent_roi.Outbox.Claims.{outbox-Moves}
use agent_roi.Outbox.Leases.{Untouched, lease_exclusive}
use agent_roi.Outbox.Worker.{
  failed, DeliveryError, Station, Worker, new_worker, Counts, attempt, deliver, settle, run_events,
  run_once,
}
use agent_roi.Outbox.Rounds.{run_once-counts, settle-fate}

abbrev waits : OutboxEvent
waits = record {
  event_id = "e1";
  topic = "t";
  destination = "siem";
  payload = "{}";
  idempotency_key = "k1";
  status = pending;
  attempts = 0;
  available_at = 5;
  lease_owner = none;
  lease_expires_at = none;
  last_error = "";
  created_at = 5;
  delivered_at = none;
}

abbrev leased_row : OutboxEvent
leased_row = record waits {
  status = leased;
  attempts = 1;
  lease_owner = some "w1";
  lease_expires_at = some 50;
}

abbrev done_row : OutboxEvent
done_row = record waits { status = delivered; delivered_at = some 9; attempts = 1 }

abbrev other_row : OutboxEvent
other_row = record waits { event_id = "e2"; idempotency_key = "k2" }

abbrev box : OutboxEvent → Outbox
box e = record { events = e ∷ other_row ∷ []; dead_letters = [] }

apart_ids : ("e1" == "e2") ≡ false
apart_ids = refl

apart_keys : ("k1" == "k2") ≡ false
apart_keys = refl

box-IsKeyed :
    (e : OutboxEvent) → e.event_id ≡ "e1" → e.idempotency_key ≡ "k1" → IsKeyed (e ∷ other_row ∷ [])
box-IsKeyed e same_id same_key = record {
  ids = λ id.
      ground (arith, eq_iff e.event_id id, eq_iff "e2" id, eq_iff "e1" "e2", same_id, apart_ids);
  keys = λ d key. ground (
    arith,
    eq_iff e.idempotency_key key,
    eq_iff "k2" key,
    eq_iff "k1" "k2",
    same_key,
    apart_keys,
  );
}

outbox-Moves_example :
    Moves "w2" 7 (view "e1" (box waits).events) (view "e1" (enqueue other_row (box waits)).1.events)
    × Moves "w2" 7
        (view "e1" (box waits).events)
        (view "e1" (claim "w2" 10 60 "" 7 (box waits)).1.events)
    × Moves "w2" 7
        (view "e1" (box waits).events)
        (view "e1" (mark_delivered "e1" "w2" 7 (box waits)).1.events)
    × Moves "w2" 7
        (view "e1" (box waits).events)
        (view "e1" (reschedule "e1" "w2" "down" 3 7 (box waits)).1.events)
    × Moves "w2" 7
        (view "e1" (box waits).events)
        (view "e1" (bury "e1" "w2" "down" 7 (box waits)).1.events)
outbox-Moves_example =
    outbox-Moves "w2" 7 "e1" "e1" "down" "" 10 60 3 other_row (box waits)
      (box-IsKeyed waits refl refl) refl

lease_exclusive_example : Untouched "w2" 7 "e1" "e1" "down" "" 10 60 3 other_row (box leased_row)
lease_exclusive_example =
    lease_exclusive "w2" 7 "e1" "e1" "down" "" 10 60 3 other_row (box leased_row) "w1" 50
      (box-IsKeyed leased_row refl refl) refl refl (omega arith) refl

-- a handler that takes two microseconds
abbrev handler : OutboxEvent → Exec ℕ (Outbox × ℕ) (Unit {0})
handler e (t, now) = (if e.event_id == "e1" then ok tt else err 3, (t, now + 2))

abbrev policy : RetryPolicy ℕ (DeliveryError ℕ)
policy = record {
  max_attempts = 1;
  initial_backoff = 0;
  multiplier = 1;
  max_backoff = 0;
  jitter_ratio = 0;
  retryable = λ x. true;
  has_exceptions = true;
}

abbrev worker : Worker ℕ ℕ ℕ
worker = new_worker "w1" (record {
  worker_id = "";
  handlers = λ d. some handler;
  retry_policy = policy;
  max_delivery_attempts = 8;
  lease_seconds = 60;
  utc = λ now. now;
  monotonic = λ now. now;
  random = λ now. 0;
  sleep = λ n now. (true, now);
  timedelta = λ n now. some n;
  is_exception = λ x. true;
  describe = λ x. "";
  describe_typed = λ x. "";
  unreachable = DeliveryError.no_handler;
  overflow = failed (raised 34);
})

abbrev station : OutboxEvent → Station ℕ
station e = record { outbox = box e; breakers = λ d. none; world = 7 }

abbrev counts : Counts
counts = record { claimed = 2; delivered = 1; retried = 1; dead_lettered = 0 }

run_once_test : (run_once whole worker 10 "" (station waits)).0 ≡ ok counts
unfolding run_once claim select_due lease_all sort_by run_events attempt retry_call deliver settle
    mark_delivered reschedule Text.strip delay base_delay
run_once_test = refl

run_once-counts_example :
    (counts.claimed ≡ counts.delivered + counts.retried + counts.dead_lettered)
    × (counts.claimed ≤ max 1 (min 10 100))
run_once-counts_example = run_once-counts whole worker 10 "" counts (station waits) run_once_test

settle-fate_example :
    (is_ok
        (settle whole worker leased_row
          (err DeliveryError.no_handler)
          counts
          (station leased_row)).0
      ≡ true)
    × (view "e1"
          (settle whole worker leased_row
            (err DeliveryError.no_handler)
            counts
            (station leased_row)).1.outbox.events
        ≡ waiting)
unfolding delay base_delay
settle-fate_example =
    settle-fate whole worker leased_row leased_row (err DeliveryError.no_handler) counts
      (station leased_row) (box-IsKeyed leased_row refl refl) refl refl refl
