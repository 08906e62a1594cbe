-- ===== src/Outbox/Rounds.antt =====
-- What a round of a worker does with the events that it claimed.
use agent_roi.Base.{
  none, Option, ℕ, ◌+◌, ◌*◌, ◌≤◌, ◌≡◌, String, Bool, true, some, List, [], ◌∷◌, arith, refl, count,
  length, leb, max, min, nat_eq, is_some, Bool-cases, Option-cases, inl, inr, if◌then◌else◌,
  length-take-le, ap, filter,
}
use agent_roi.Base.Text.{is_blank}
use agent_roi.Float.{Float}
use agent_roi.Result.{Result, ok, err, is_ok, Result-cases}
use agent_roi.Table.{select_one, update, find-update, is_some-find_of, count-some, find_hit}
use agent_roi.Sort.{sort_by}
use agent_roi.Outbox.Store.{
  OutboxEvent, Outbox, has_id, held_by, is_due, select_due, lease_all, read_back, claim, finished,
  mark_delivered, requeued, reschedule, buried, bury, clip,
}
use agent_roi.Outbox.Keys.{IsKeyed}
use agent_roi.Outbox.Phases.{Phase, waiting, completed, abandoned, view}
use agent_roi.Outbox.Worker.{
  backoff, WorkerError, bad_delay, DeliveryError, Station, Worker, Counts, attempt, settle,
  run_events, run_once,
}

-- the events that a round has dealt with
abbrev pub dealt : Counts → ℕ
dealt n = n.delivered + n.retried + n.dead_lettered

module _ (fl : Float) {X W : Type 0} (c : Worker fl.F X W) where
  settle-dealt :
      (e : OutboxEvent) (x : Result (DeliveryError X) (Unit {0})) (n n' : Counts) (st : Station W)
      → (settle fl c e x n st).0 ≡ ok n'
      → (n'.claimed ≡ n.claimed) × (dealt n' ≡ dealt n + 1)
  unfolding settle
  settle-dealt e (ok _) n n' st h = (ground (arith, h), ground (arith, h))
  settle-dealt e (err x) n n' st h = (ground (arith, h), ground (arith, h))

  run_events-dealt :
      (events : List OutboxEvent) (n n' : Counts) (st : Station W)
      → (run_events fl c events n st).0 ≡ ok n'
      → (n'.claimed ≡ n.claimed) × (dealt n' ≡ dealt n + length events)
  unfolding run_events
  run_events-dealt [] n n' st h = (ground (arith, h), ground (arith, h))
  run_events-dealt (e ∷ events) n n' st h =
      let delivery = attempt fl c e st in
      let settled = settle fl c e delivery.0 n delivery.1 in
      elim (Result-cases settled.0) [
        | inr (x, bad) ↦ absurd (ground (arith, bad, h))
        | inl (m, good) ↦
            let one = settle-dealt e delivery.0 n m delivery.1 good in
            let rest = run_events-dealt events m n' settled.1 (ground (arith, good, h)) in
            (omega (arith, one, rest), omega (arith, one, rest))
      ]

  length-read_back-le : (due l : List OutboxEvent) → length (read_back due l) ≤ length due
  length-read_back-le [] l = omega arith
  length-read_back-le (e ∷ due) l = ground (arith, length-read_back-le due l)

  claim-length :
      (limit now : ℕ) (destination : String) (events : List OutboxEvent) (t : Outbox)
      → (claim c.worker_id limit c.lease_seconds destination now t).0 ≡ ok events
      → length events ≤ max 1 (min limit 100)
  unfolding claim select_due
  claim-length limit now destination events t h =
      let due = select_due limit now destination t.events in
      let l = lease_all c.worker_id (now + max 1 c.lease_seconds * 1000000) due t.events in
      elim (Bool-cases (is_blank c.worker_id)) [
        | inl blank ↦ absurd (ground (arith, blank, h))
        | inr named ↦
            let same : read_back due l ≡ events = ground (arith, named, h) in
            omega (
              arith,
              ap length same,
              length-read_back-le due l,
              length-take-le (max 1 (min limit 100))
                  (sort_by (λ e. e.created_at) (filter (is_due now destination) t.events)),
            )
      ]

  -- A round that returns has dealt with every event that it claimed, each as delivered, as retried or as
  -- a dead letter; and it claims at most as many events as the limit says, where a limit of nought stands
  -- for one, and one of more than a hundred for a hundred.
  pub run_once-counts :
      (limit : ℕ) (destination : String) (n : Counts) (st : Station W)
      → (run_once fl c limit destination st).0 ≡ ok n
      → (n.claimed ≡ n.delivered + n.retried + n.dead_lettered)
        × (n.claimed ≤ max 1 (min limit 100))
  unfolding run_once
  run_once-counts limit destination n st h =
      let taken = claim c.worker_id limit c.lease_seconds destination (c.utc st.world) st.outbox in
      elim (Result-cases taken.0) [
        | inr (x, bad) ↦ absurd (ground (arith, bad, h))
        | inl (events, good) ↦
            let start : Counts = record {
              claimed = length events;
              delivered = 0;
              retried = 0;
              dead_lettered = 0;
            } in
            let done =
              run_events-dealt events start n (record st { outbox = taken.1 })
                (ground (arith, good, h)) in
            let few = claim-length limit (c.utc st.world) destination events st.outbox good in
            (omega (arith, done), omega (arith, done, few))
      ]

count_mono :
    (p q : OutboxEvent → Bool) (l : List OutboxEvent)
    → ((e : OutboxEvent) → q e ≡ true → p e ≡ true)
    → count q l ≤ count p l
count_mono p q [] narrow = omega arith
count_mono p q (e ∷ l) narrow = ground (arith, narrow e, count_mono p q l narrow)

-- the held row is counted once
held-one :
    (j worker : String) (l : List OutboxEvent) (r : OutboxEvent)
    → IsKeyed l
    → select_one (has_id j) l ≡ some r
    → held_by j worker r ≡ true
    → (is_some (select_one (held_by j worker) l) ≡ true)
      × (nat_eq (count (held_by j worker) l) 1 ≡ true)
held-one j worker l r k found mine =
    let hit = is_some-find_of (has_id j) (held_by j worker) l r found mine in
    let few = count_mono (has_id j) (held_by j worker) l (λ e h. ground (arith, h)) in
    elim (Option-cases (select_one (held_by j worker) l)) [
      | inl missing ↦ absurd (ground (arith, missing, hit))
      | inr (s, at) ↦
          let some_row = count-some (held_by j worker) l s at in
          (hit, ground (arith, k.ids j, few, some_row))
    ]

-- an UPDATE of the held row, seen at its event
updated-view :
    (j worker : String) (f : OutboxEvent → OutboxEvent) (l : List OutboxEvent) (r : OutboxEvent)
    → ((e : OutboxEvent) → has_id j (f e) ≡ has_id j e)
    → select_one (has_id j) l ≡ some r
    → held_by j worker r ≡ true
    → select_one (has_id j) (update (held_by j worker) f l) ≡ some (f r)
updated-view j worker f l r same found mine =
    ground (arith, found, mine, find-update (held_by j worker) (has_id j) f l (λ e h. same e))

buried-view :
    (j : String) (f : OutboxEvent → OutboxEvent) (l : List OutboxEvent) (r : OutboxEvent)
    → ((e : OutboxEvent) → has_id j (f e) ≡ has_id j e)
    → select_one (has_id j) l ≡ some r
    → select_one (has_id j) (update (has_id j) f l) ≡ some (f r)
buried-view j f l r same found = ground (
  arith,
  found,
  find_hit (has_id j) l r found,
  find-update (has_id j) (has_id j) f l (λ e h. same e),
)

module _ (fl : Float) {X W : Type 0} (c : Worker fl.F X W) where
  -- where a delivery that is settled leaves its event; `none` if the time of the next try overflows
  abbrev pub fate : OutboxEvent → Result (DeliveryError X) (Unit {0}) → W → Option Phase
  fate e (ok _) w = some completed
  fate e (err x) w =
      if leb c.max_delivery_attempts e.attempts
      then some abandoned
      else elim (backoff fl c e w) [ none ↦ none | some delay ↦ some waiting ]

  abbrev pub catches : Result (DeliveryError X) (Unit {0}) → Bool
  catches (ok _) = true
  catches (err x) = c.is_exception x

  -- The round goes on, with the event in this phase; with no phase it raises, and nothing has changed.
  abbrev pub Leaves :
      Option Phase → String → Station W → Result (WorkerError X) Counts × Station W → Type 0
  Leaves none i st out = out ≡ (err bad_delay, st)
  Leaves (some phase) i st out = (is_ok out.0 ≡ true) × (view i out.1.outbox.events ≡ phase)

  -- If the worker still holds an event when its delivery has ended, a delivery that returned completes
  -- the event, and one that raised an `Exception` abandons it if it was claimed `max_delivery_attempts`
  -- times, and gives it back otherwise; in these cases nothing is raised. Only if the time of the next
  -- try cannot be computed, as the delay overflows, is that error raised, and the event stays leased.
  pub settle-fate :
      (e r : OutboxEvent) (x : Result (DeliveryError X) (Unit {0})) (n : Counts) (st : Station W)
      → IsKeyed st.outbox.events
      → select_one (has_id e.event_id) st.outbox.events ≡ some r
      → held_by e.event_id c.worker_id r ≡ true
      → catches x ≡ true
      → Leaves (fate e x st.world) e.event_id st (settle fl c e x n st)
  unfolding settle mark_delivered reschedule bury
  settle-fate e r (ok _) n st k found mine caught =
      let one = held-one e.event_id c.worker_id st.outbox.events r k found mine in
      let after =
        updated-view e.event_id c.worker_id (finished (c.utc st.world)) st.outbox.events r
          (λ s. refl) found mine in
      (ground (arith, one), ground (arith, one, after))
  settle-fate e r (err x) n st k found mine caught =
      let one = held-one e.event_id c.worker_id st.outbox.events r k found mine in
      elim (Bool-cases (leb c.max_delivery_attempts e.attempts)) [
        | inl last ↦
            elim (Option-cases (select_one (held_by e.event_id c.worker_id) st.outbox.events)) [
              | inl missing ↦ absurd (ground (arith, missing, one))
              | inr (s, at) ↦
                  let after =
                    buried-view e.event_id (buried (clip 4000 (c.describe x))) st.outbox.events r
                      (λ s. refl) found in
                  rw last (ground (arith, caught, at), ground (arith, caught, at, after))
            ]
        | inr more ↦ elim (Option-cases (backoff fl c e st.world)) [
          | inl overflow ↦ rw more (rw overflow (ground (arith, caught)))
          | inr (delay, due) ↦
              let after =
                updated-view e.event_id c.worker_id
                  (requeued (c.utc st.world + delay) (clip 4000 (c.describe_typed x)))
                  st.outbox.events r (λ s. refl) found mine in
              rw more (rw due (ground (arith, caught, one), ground (arith, caught, one, after)))
        ]
      ]
