-- ===== src/Outbox/Phases.antt =====
-- The specification of the outbox: what may happen to one event, and when. The statements on one row.
use mathlib.Core.Option
use agent_roi.Base.{
  ℕ, ◌+◌, ◌≤◌, ◌<◌, ◌≡◌, String, true, Option, none, some, List, arith, refl, sym, count, nat_eq,
  is_some, eq_iff, Bool-cases, Option-cases, inl, inr, if◌then◌else◌, ◌||◌,
}
use mathlib.Core.Path.{subst}
use agent_roi.Table.{
  select_one, update, insert, find-update, find-insert_hit, find-insert_miss, find-insert_known,
  find-only, find_hit,
}
use agent_roi.Outbox.Store.{
  OutboxStatus, pending, leased, delivered, dead_letter, is_leased, OutboxEvent, Outbox, has_id,
  has_key, held_by, owned_by, expired, enqueue, finished, mark_delivered, requeued, reschedule,
  buried, bury, clip,
}

-- The life of an event: not there, waiting, held by a worker until a time, and two ends.
pub data Phase : Type 0 where
  absent waiting completed abandoned : Phase
  held : Option String → Option ℕ → Phase

abbrev pub phase : OutboxStatus → Option String → Option ℕ → Phase
phase pending owner until = waiting
phase leased owner until = held owner until
phase delivered owner until = completed
phase dead_letter owner until = abandoned

abbrev pub phase_of : OutboxEvent → Phase
phase_of e = phase e.status e.lease_owner e.lease_expires_at

abbrev pub view_row : Option OutboxEvent → Phase
view_row none = absent
view_row (some e) = phase_of e

-- what the table says of an event
abbrev pub view : String → List OutboxEvent → Phase
view id l = view_row (select_one (has_id id) l)

-- What a worker can do to an event at a time: only its holder ends a lease that has not expired.
pub data Moves (worker : String) (now : ℕ) : Phase → Phase → Type 0 where
  stay : {p : Phase} → Moves worker now p p
  enter : Moves worker now absent waiting
  take : {x : ℕ} → now < x → Moves worker now waiting (held (some worker) (some x))
  steal :
      {owner : Option String} {until : Option ℕ} {x : ℕ}
      → expired now until ≡ true
      → now < x
      → Moves worker now (held owner until) (held (some worker) (some x))
  finish :
      {owner : Option String} {until : Option ℕ}
      → owned_by worker owner ≡ true
      → Moves worker now (held owner until) completed
  give_back :
      {owner : Option String} {until : Option ℕ}
      → owned_by worker owner ≡ true
      → Moves worker now (held owner until) waiting
  abandon :
      {owner : Option String} {until : Option ℕ}
      → owned_by worker owner ≡ true
      → Moves worker now (held owner until) abandoned

-- a lease ends in `q`
phase-settled :
    (worker : String) (now : ℕ) (s : OutboxStatus) (owner : Option String) (until : Option ℕ)
    (q : Phase)
    → ((owner : Option String) (until : Option ℕ)
        → owned_by worker owner ≡ true
        → Moves worker now (held owner until) q)
    → is_leased s ≡ true
    → owned_by worker owner ≡ true
    → Moves worker now (phase s owner until) q
phase-settled worker now leased owner until q move h k = move owner until k
phase-settled worker now pending owner until q move h k = ground (arith, h)
phase-settled worker now delivered owner until q move h k = ground (arith, h)
phase-settled worker now dead_letter owner until q move h k = ground (arith, h)

-- an UPDATE of the rows that a worker holds, seen at one event
module _ (worker : String) (now : ℕ) (q : Phase)
    (move : (owner : Option String) (until : Option ℕ)
      → owned_by worker owner ≡ true
      → Moves worker now (held owner until) q) where
  row-Moves :
      (id : String) (f : OutboxEvent → OutboxEvent)
      → ((e : OutboxEvent) → phase_of (f e) ≡ q)
      → (e : OutboxEvent)
      → Moves worker now (phase_of e) (phase_of (if held_by id worker e then f e else e))
  row-Moves id f to e = elim (Bool-cases (held_by id worker e)) [
    | inr other ↦ rw other stay
    | inl mine ↦ rw mine (
        subst (Moves worker now (phase_of e)) (sym (to e)) (
          phase-settled worker now e.status e.lease_owner e.lease_expires_at q move
            (ground (arith, mine)) (ground (arith, mine))))
  ]

  -- the event `j` in the table after the UPDATE
  update-Moves :
      (id j : String) (f : OutboxEvent → OutboxEvent) (l : List OutboxEvent)
      → ((e : OutboxEvent) → phase_of (f e) ≡ q)
      → ((e : OutboxEvent) → has_id j (f e) ≡ has_id j e)
      → Moves worker now (view j l) (view j (update (held_by id worker) f l))
  update-Moves id j f l to same =
      let after = find-update (held_by id worker) (has_id j) f l (λ r h. same r) in
      elim (Option-cases (select_one (has_id j) l)) [
        | inl missing ↦
            let gone : select_one (has_id j) (update (held_by id worker) f l) ≡ none =
              ground (arith, missing, after) in
            rw missing (rw gone stay)
        | inr (e, found) ↦
            let new : select_one (has_id j) (update (held_by id worker) f l)
                ≡ some (if held_by id worker e then f e else e) =
              ground (arith, found, after) in
            rw found (rw new (row-Moves id f to e))
      ]

-- `enqueue` of a new event only lets it enter.
pub enqueue-Moves :
    (worker : String) (now : ℕ) (j : String) (e : OutboxEvent) (t : Outbox)
    → e.status ≡ pending
    → Moves worker now (view j t.events) (view j (enqueue e t).1.events)
unfolding enqueue
enqueue-Moves worker now j e t fresh =
    elim (Bool-cases (
      is_some (select_one (has_id e.event_id) t.events)
      || is_some (select_one (has_key e.destination e.idempotency_key) t.events))) [
        | inl known ↦
            let same : (enqueue e t).1.events ≡ t.events = ground (arith, known) in
            subst (λ l. Moves worker now (view j t.events) (view j l)) (sym same) stay
        | inr new ↦
            let grown : (enqueue e t).1.events ≡ insert e t.events = ground (arith, new) in
            subst (λ l. Moves worker now (view j t.events) (view j l)) (sym grown)
              (elim (Option-cases (select_one (has_id j) t.events)) [
                | inr (r, found) ↦
                    rw found (rw (find-insert_known (has_id j) e r t.events found) stay)
                | inl missing ↦ elim (Bool-cases (has_id j e)) [
                  | inl here ↦ rw missing (
                      rw (find-insert_hit (has_id j) e t.events missing here) (
                        subst
                          (λ s. Moves worker now absent (phase s e.lease_owner e.lease_expires_at))
                          (sym fresh) enter))
                  | inr there ↦
                      rw missing
                        (rw (find-insert_miss (has_id j) e t.events there) (rw missing stay))
                ]
              ])
      ]

pub mark_delivered-Moves :
    (worker : String) (now : ℕ) (id j : String) (t : Outbox)
    → Moves worker now (view j t.events) (view j (mark_delivered id worker now t).1.events)
unfolding mark_delivered
mark_delivered-Moves worker now id j t =
    elim (Bool-cases (nat_eq (count (held_by id worker) t.events) 1)) [
      | inr other ↦ rw other stay
      | inl one ↦ rw one (
          update-Moves worker now completed (λ owner until h. finish h) id j (finished now) t.events
            (λ e. refl) (λ e. refl))
    ]

pub reschedule-Moves :
    (worker : String) (now : ℕ) (id j error : String) (delay : ℕ) (t : Outbox)
    → Moves worker now (view j t.events) (view j (reschedule id worker error delay now t).1.events)
unfolding reschedule
reschedule-Moves worker now id j error delay t =
    elim (Bool-cases (nat_eq (count (held_by id worker) t.events) 1)) [
      | inr other ↦ rw other stay
      | inl one ↦ rw one (
          update-Moves worker now waiting (λ owner until h. give_back h) id j
            (requeued (now + delay) (clip 4000 error)) t.events (λ e. refl) (λ e. refl))
    ]

-- the only row with an identifier is the one that the worker holds
held-only :
    (id worker : String) (l : List OutboxEvent) (e r : OutboxEvent)
    → count (has_id id) l ≤ 1
    → select_one (held_by id worker) l ≡ some e
    → select_one (has_id id) l ≡ some r
    → held_by id worker r ≡ true
held-only id worker l e r key mine found = elim (Bool-cases (held_by id worker r)) [
  | inl yes_held ↦ yes_held
  | inr other ↦ absurd (
      ground (
        arith,
        mine,
        find-only (has_id id) (held_by id worker) l r (λ x h. ground (arith, h)) key found other,
      ))
]

pub bury-Moves :
    (worker : String) (now : ℕ) (id j error : String) (t : Outbox)
    → count (has_id id) t.events ≤ 1
    → Moves worker now (view j t.events) (view j (bury id worker error now t).1.events)
unfolding bury
bury-Moves worker now id j error t key =
    elim (Option-cases (select_one (held_by id worker) t.events)) [
      | inl missing ↦ rw (missing, bury) stay
      | inr (e, mine) ↦
          let f = buried (clip 4000 error) in
          let l : List OutboxEvent = update (has_id id) f t.events in
          let same : (bury id worker error now t).1.events ≡ l = ground (arith, mine) in
          let after : select_one (has_id j) l
              ≡ Option.map (λ r. if has_id id r then f r else r) (select_one (has_id j) t.events) =
            find-update (has_id id) (has_id j) f t.events (λ r h. refl) in
          subst (λ m. Moves worker now (view j t.events) (view j m)) (sym same)
            (elim (Option-cases (select_one (has_id j) t.events)) [
              | inl missing ↦
                  let gone : select_one (has_id j) l ≡ none = ground (arith, missing, after) in
                  rw missing (rw gone stay)
              | inr (r, found) ↦ elim (Bool-cases (has_id id r)) [
                | inr apart ↦
                    let kept : select_one (has_id j) l ≡ some r =
                      ground (arith, found, after, apart) in
                    rw found (rw kept stay)
                | inl here ↦
                    let dead : select_one (has_id j) l ≡ some (f r) =
                      ground (arith, found, after, here) in
                    let first : select_one (has_id id) t.events ≡ some r = ground (
                      arith,
                      found,
                      here,
                      eq_iff r.event_id id,
                      eq_iff r.event_id j,
                      find_hit (has_id j) t.events r found,
                    ) in
                    let h = held-only id worker t.events e r key mine first in
                    rw found (
                      rw dead (
                        phase-settled worker now r.status r.lease_owner r.lease_expires_at abandoned
                          (λ owner until k. abandon k) (ground (arith, h)) (ground (arith, h))))
              ]
            ])
    ]
