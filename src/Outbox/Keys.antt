-- ===== src/Outbox/Keys.antt =====
-- The keys of `enterprise_outbox`: identifiers, and the pairs of a destination and an idempotency key.
use agent_roi.Base.{
  ℕ, ◌+◌, ◌*◌, ◌≤◌, ◌≡◌, String, Bool, List, [], ◌∷◌, arith, count, eq_iff, max, nat_eq, refl, ◌∙◌,
  Bool-cases, Option-cases, inl, inr,
}
use agent_roi.Table.{count-insert, count-none, count-update, update, select_one}
use agent_roi.Outbox.Store.{
  OutboxEvent, Outbox, has_id, has_key, held_by, enqueue, lease, lease_all, claim, finished,
  mark_delivered, requeued, reschedule, buried, bury, clip, select_due,
}

-- At most one event for each identifier, and for each key of a destination.
pub record IsKeyed (l : List OutboxEvent) : Type 0 where
  pub ids : (id : String) → count (has_id id) l ≤ 1
  pub keys : (destination key : String) → count (has_key destination key) l ≤ 1

lease_all-count :
    (worker : String) (expiry : ℕ) (due l : List OutboxEvent) (q : OutboxEvent → Bool)
    → ((e : OutboxEvent) → q (lease worker expiry e) ≡ q e)
    → count q (lease_all worker expiry due l) ≡ count q l
unfolding lease_all
lease_all-count worker expiry [] l q keep = refl
lease_all-count worker expiry (e ∷ due) l q keep =
    lease_all-count worker expiry due (update (has_id e.event_id) (lease worker expiry) l) q keep
    ∙ count-update (has_id e.event_id) q (lease worker expiry) l (λ r h. keep r)

enqueue-IsKeyed : (e : OutboxEvent) (t : Outbox) → IsKeyed t.events → IsKeyed (enqueue e t).1.events
unfolding enqueue
enqueue-IsKeyed e t k = record {
  ids = λ id. ground (
    arith,
    k.ids id,
    count-insert (has_id id) e t.events,
    count-none (has_id e.event_id) t.events,
    eq_iff e.event_id id,
  );
  keys = λ destination key. ground (
    arith,
    k.keys destination key,
    count-insert (has_key destination key) e t.events,
    count-none (has_key e.destination e.idempotency_key) t.events,
    eq_iff e.destination destination,
    eq_iff e.idempotency_key key,
  );
}

claim-IsKeyed :
    (worker destination : String) (limit lease_seconds now : ℕ) (t : Outbox)
    → IsKeyed t.events
    → IsKeyed (claim worker limit lease_seconds destination now t).1.events
unfolding claim
claim-IsKeyed worker destination limit lease_seconds now t k =
    let due = select_due limit now destination t.events in
    let expiry : ℕ = now + max 1 lease_seconds * 1000000 in
    record {
      ids = λ id.
          ground
            (arith, k.ids id, lease_all-count worker expiry due t.events (has_id id) (λ e. refl));
      keys = λ d key. ground (
        arith,
        k.keys d key,
        lease_all-count worker expiry due t.events (has_key d key) (λ e. refl),
      );
    }

-- an UPDATE that leaves the keys alone
update-IsKeyed :
    (p : OutboxEvent → Bool) (f : OutboxEvent → OutboxEvent) (l : List OutboxEvent)
    → ((id : String) (e : OutboxEvent) → has_id id (f e) ≡ has_id id e)
    → ((d key : String) (e : OutboxEvent) → has_key d key (f e) ≡ has_key d key e)
    → IsKeyed l
    → IsKeyed (update p f l)
update-IsKeyed p f l same_id same_key k = record {
  ids = λ id. omega (arith, k.ids id, count-update p (has_id id) f l (λ r h. same_id id r));
  keys = λ d key.
      omega (arith, k.keys d key, count-update p (has_key d key) f l (λ r h. same_key d key r));
}

settle-IsKeyed :
    (id worker error : String) (delay now : ℕ) (t : Outbox)
    → IsKeyed t.events
    → IsKeyed (mark_delivered id worker now t).1.events
      × IsKeyed (reschedule id worker error delay now t).1.events
      × IsKeyed (bury id worker error now t).1.events
unfolding mark_delivered reschedule bury
settle-IsKeyed id worker error delay now t k = (
  elim (Bool-cases (nat_eq (count (held_by id worker) t.events) 1)) [
    | inl held ↦ rw held (
        update-IsKeyed (held_by id worker) (finished now) t.events (λ i e. refl) (λ d key e. refl)
          k)
    | inr other ↦ rw other k
  ],
  elim (Bool-cases (nat_eq (count (held_by id worker) t.events) 1)) [
    | inl held ↦ rw held (
        update-IsKeyed (held_by id worker) (requeued (now + delay) (clip 4000 error)) t.events
          (λ i e. refl) (λ d key e. refl) k)
    | inr other ↦ rw other k
  ],
  elim (Option-cases (select_one (held_by id worker) t.events)) [
    | inl missing ↦ rw (missing, bury) k
    | inr (e, found) ↦
        rw (found, bury)
          (update-IsKeyed (has_id id) (buried (clip 4000 error)) t.events (λ i e. refl)
            (λ d key e. refl) k)
  ],
)

-- Every operation of the outbox, whether it returns or raises, keeps at most one event for each
-- identifier and for each idempotency key of a destination.
pub outbox-IsKeyed :
    (e : OutboxEvent) (id worker error destination : String) (limit lease_seconds delay now : ℕ)
    (t : Outbox)
    → IsKeyed t.events
    → IsKeyed (enqueue e t).1.events
      × IsKeyed (claim worker limit lease_seconds destination now t).1.events
      × IsKeyed (mark_delivered id worker now t).1.events
      × IsKeyed (reschedule id worker error delay now t).1.events
      × IsKeyed (bury id worker error now t).1.events
outbox-IsKeyed e id worker error destination limit lease_seconds delay now t k =
    let (done, back, dead) = settle-IsKeyed id worker error delay now t k in
    (
      enqueue-IsKeyed e t k,
      claim-IsKeyed worker destination limit lease_seconds now t k,
      done,
      back,
      dead,
    )
