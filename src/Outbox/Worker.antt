-- ===== src/Outbox/Worker.antt =====
-- `OutboxWorker` of enterprise/outbox.py. While a handler runs, other workers use the outbox and time
-- passes, so a handler acts on the outbox and on the world `W`.
use agent_roi.Base.{
  ℕ, ◌+◌, String, Bool, Option, none, some, List, [], ◌∷◌, length, leb, max, if◌then◌else◌, ◌==◌,
}
use agent_roi.Base.Text.{is_empty}
use agent_roi.Result.{Result, ok, err, Exec}
use agent_roi.Float.{Float}
use agent_roi.Resilience.Retry.{RetryPolicy, delay, retry_call}
use agent_roi.Resilience.Breaker.{CircuitBreaker, CallError, raised, call}
use agent_roi.Outbox.Store.{
  OutboxEvent, Outbox, OutboxError, claim, mark_delivered, reschedule, bury,
}

-- What a delivery raises: a `KeyError` for a destination without handler, or what the call raises.
pub data DeliveryError (X : Type 0) : Type 0 where
  no_handler : DeliveryError X
  failed : CallError X → DeliveryError X

-- What `run_once` raises: an error of the store, an exception of a delivery that is no `Exception`, or
-- the `OverflowError` of the time at which the event is due again.
pub data WorkerError (X : Type 0) : Type 0 where
  from_store : OutboxError → WorkerError X
  escaped : DeliveryError X → WorkerError X
  bad_delay : WorkerError X

-- The outbox, the breakers of the destinations that have one, and the world.
pub record Station (W : Type 0) : Type 0 where
  pub outbox : Outbox
  pub breakers : String → Option CircuitBreaker
  pub world : W

-- The attributes of the worker that stay as they are, and the clocks.
pub record Worker (F X W : Type 0) : Type 0 where
  pub worker_id : String
  pub handlers : String → Option (OutboxEvent → Exec X (Outbox × W) (Unit {0}))
  pub retry_policy : RetryPolicy F (DeliveryError X)
  pub max_delivery_attempts : ℕ
  pub lease_seconds : ℕ
  pub utc : W → ℕ
  pub monotonic : W → ℕ
  pub random : W → F
  -- `time.sleep`; `false` where it raises
  pub sleep : F → W → Bool × W
  -- the microseconds of `timedelta(seconds=max(0.0, …))`; `none` where this, or the time after it,
  -- overflows
  pub timedelta : F → W → Option ℕ
  -- the exception is an `Exception`
  pub is_exception : DeliveryError X → Bool
  pub describe : DeliveryError X → String
  pub describe_typed : DeliveryError X → String
  -- the `AssertionError` behind the retry loop
  pub unreachable : DeliveryError X
  -- the `OverflowError` of a wait
  pub overflow : DeliveryError X

-- What `run_once` returns.
pub record Counts : Type 0 where
  pub claimed : ℕ
  pub delivered : ℕ
  pub retried : ℕ
  pub dead_lettered : ℕ

-- `__init__`; `fresh` is drawn at random
abbrev pub new_worker : {F X W : Type 0} → String → Worker F X W → Worker F X W
new_worker fresh c = record c {
  worker_id = if is_empty c.worker_id then fresh else c.worker_id;
  max_delivery_attempts = max 1 c.max_delivery_attempts;
  lease_seconds = max 1 c.lease_seconds;
}

module _ (fl : Float) {X W : Type 0} (c : Worker fl.F X W) where
  abbrev pub Working : Type 0 → Type 0
  Working A = Exec (WorkerError X) (Station W) A

  -- the handler alone
  abbrev run_handler :
      (OutboxEvent → Exec X (Outbox × W) (Unit {0}))
      → OutboxEvent
      → Exec (DeliveryError X) (Station W) (Unit {0})
  run_handler handler e st =
      let (r, (box, w)) = handler e (st.outbox, st.world) in
      (
        elim r [ ok _ ↦ ok tt | err x ↦ err (failed (raised x)) ],
        record st { outbox = box; world = w },
      )

  -- the handler through the breaker of the destination
  abbrev run_guarded :
      (OutboxEvent → Exec X (Outbox × W) (Unit {0}))
      → CircuitBreaker
      → OutboxEvent
      → Exec (DeliveryError X) (Station W) (Unit {0})
  run_guarded handler b e st =
      let later = c.monotonic (handler e (st.outbox, st.world)).1.1 in
      let (r, (b', (box, w))) =
        call (c.monotonic st.world) later (handler e) (b, (st.outbox, st.world)) in
      (
        elim r [ ok _ ↦ ok tt | err x ↦ err (failed x) ],
        record st {
          outbox = box;
          breakers = λ d. if e.destination == d then some b' else st.breakers d;
          world = w;
        },
      )

  -- `_deliver`
  unfoldable pub deliver : OutboxEvent → Exec (DeliveryError X) (Station W) (Unit {0})
  deliver e st = elim (c.handlers e.destination) [
    | none ↦ (err no_handler, st)
    | some handler ↦ elim (st.breakers e.destination) [
      | none ↦ run_handler handler e st
      | some b ↦ run_guarded handler b e st
    ]
  ]

  -- `time.sleep(policy.delay(n))`
  abbrev wait_for : ℕ → Exec (DeliveryError X) (Station W) (Unit {0})
  wait_for n st = elim (delay fl c.retry_policy n (c.random st.world)) [
    | none ↦ (err c.overflow, st)
    | some seconds ↦
        let (slept, w) = c.sleep seconds st.world in
        (if slept then ok tt else err c.overflow, record st { world = w })
  ]

  -- the delay until the next try of an event
  abbrev pub backoff : OutboxEvent → W → Option ℕ
  backoff e w = elim (delay fl c.retry_policy (max 1 e.attempts) (c.random w)) [
    | none ↦ none
    | some seconds ↦ c.timedelta seconds w
  ]

  -- `retry_call(…)`
  unfoldable pub attempt : OutboxEvent → Exec (DeliveryError X) (Station W) (Unit {0})
  unfolding deliver
  attempt e = retry_call c.unreachable wait_for c.retry_policy (deliver e)

  -- an operation of the store
  abbrev pub on_box : {A : Type 0} → Exec OutboxError Outbox A → Working A
  on_box m st =
      let (r, box) = m st.outbox in
      (elim r [ ok a ↦ ok a | err x ↦ err (from_store x) ], record st { outbox = box })

  -- count one more if the store did its part
  abbrev pub then_count : {A : Type 0} → Exec OutboxError Outbox A → Counts → Working Counts
  then_count m counts st =
      let (r, st') = on_box m st in (elim r [ ok a ↦ ok counts | err x ↦ err x ], st')

  -- what `run_once` does with the outcome of a delivery
  unfoldable pub settle :
      OutboxEvent → Result (DeliveryError X) (Unit {0}) → Counts → Working Counts
  settle e (ok _) n st =
      then_count (mark_delivered e.event_id c.worker_id (c.utc st.world))
        (record n { delivered = n.delivered + 1 }) st
  settle e (err x) n st =
      if c.is_exception x
      then (if leb c.max_delivery_attempts e.attempts
          then then_count (bury e.event_id c.worker_id (c.describe x) (c.utc st.world))
              (record n { dead_lettered = n.dead_lettered + 1 }) st
          else elim (backoff e st.world) [
            | none ↦ (err bad_delay, st)
            | some delay ↦
                then_count
                  (reschedule e.event_id c.worker_id (c.describe_typed x) delay (c.utc st.world))
                  (record n { retried = n.retried + 1 }) st
          ])
      else (err (escaped x), st)

  -- `for event in claimed`
  unfoldable pub run_events : List OutboxEvent → Counts → Working Counts
  unfolding attempt settle
  run_events [] n st = (ok n, st)
  run_events (e ∷ events) n st =
      let (x, st') = attempt e st in
      let (r, st'') = settle e x n st' in
      elim r [ ok n' ↦ run_events events n' st'' | err error ↦ (err error, st'') ]

  -- `run_once`
  unfoldable pub run_once : ℕ → String → Working Counts
  unfolding run_events
  run_once limit destination st =
      let (r, st') =
        on_box (claim c.worker_id limit c.lease_seconds destination (c.utc st.world)) st in
      elim r [
        | err error ↦ (err error, st')
        | ok events ↦
            run_events events
              (record { claimed = length events; delivered = 0; retried = 0; dead_lettered = 0 })
              st'
      ]
