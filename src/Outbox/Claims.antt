-- ===== src/Outbox/Claims.antt =====
-- What `claim` does to one event, and the refinement: every operation is a move of the specification.
use mathlib.Core.Path.{subst}
use agent_roi.Base
use agent_roi.Base.Text.{is_blank}
use agent_roi.Base.{
  ℕ, suc, zero, ◌+◌, ◌*◌, ◌≤◌, ◌<◌, ◌≡◌, String, Bool, true, false, Option, none, some, List, [],
  ◌∷◌, arith, refl, sym, any, count, filter, is_some, eq_iff, Bool-cases, Option-cases, inl, inr,
  ◌⊎◌, if◌then◌else◌, max, min, leb, ltb, ◌&&◌, ◌||◌, ◌==◌,
}
use agent_roi.Sort.{sort_by, count-sort_by}
use agent_roi.Table.{select_one, update, find-update, find_hit}
use agent_roi.Outbox.Store.{
  OutboxStatus, pending, leased, delivered, dead_letter, is_pending, is_leased, OutboxEvent, Outbox,
  has_id, is_due, expired, select_due, lease, lease_all, claim, enqueue, mark_delivered, reschedule,
  bury,
}
use agent_roi.Outbox.Keys.{IsKeyed}
use agent_roi.Outbox.Phases.{
  held, phase, phase_of, view, Moves, stay, take, steal, enqueue-Moves, mark_delivered-Moves,
  reschedule-Moves, bury-Moves,
}

any-count : {A : Type 0} (p : A → Bool) (l : List A) → any p l ≡ true → 1 ≤ count p l
any-count p [] h = ground (arith, h)
any-count p (x ∷ l) h = ground (arith, any-count p l)

count-take-le :
    {A : Type 0} (p : A → Bool) (n : ℕ) (l : List A) → count p (Base.take n l) ≤ count p l
count-take-le p zero l = omega arith
count-take-le p (suc n) [] = omega arith
count-take-le p (suc n) (x ∷ l) = ground (arith, count-take-le p n l)

count-filter-le : {A : Type 0} (p d : A → Bool) (l : List A) → count p (filter d l) ≤ count p l
count-filter-le p d [] = omega arith
count-filter-le p d (x ∷ l) = ground (arith, count-filter-le p d l)

-- a key with one row: if the filtered list has it, the row passes the filter
filter-only :
    {A : Type 0} (p d : A → Bool) (l : List A) (r : A)
    → count p l ≤ 1
    → select_one p l ≡ some r
    → 1 ≤ count p (filter d l)
    → d r ≡ true
filter-only p d [] r one found more = ground (arith, found)
filter-only p d (x ∷ l) r one found more = elim (Bool-cases (p x)) [
  | inr apart ↦ ground (arith, apart, filter-only p d l r)
  | inl here ↦ ground (arith, here, count-filter-le p d l)
]

-- `claim` selects an event only if it is due.
select_due-is_due :
    (limit now : ℕ) (destination j : String) (l : List OutboxEvent) (r : OutboxEvent)
    → count (has_id j) l ≤ 1
    → select_one (has_id j) l ≡ some r
    → any (has_id j) (select_due limit now destination l) ≡ true
    → is_due now destination r ≡ true
unfolding select_due
select_due-is_due limit now destination j l r one found chosen =
    let due = filter (is_due now destination) l in
    let sorted = sort_by (λ e. e.created_at) due in
    filter-only (has_id j) (is_due now destination) l r one found (
      omega (
        arith,
        any-count (has_id j) (Base.take (max 1 (min limit 100)) sorted) chosen,
        count-take-le (has_id j) (max 1 (min limit 100)) sorted,
        count-sort_by (λ e. e.created_at) (has_id j) due,
      ))

module _ (worker : String) (expiry : ℕ) where
  -- A row after the leases: as it was, or leased once more.
  pub record Leased (r s : OutboxEvent) : Type 0 where
    pub now_held : phase_of s ≡ held (some worker) (some expiry)
    pub counted : r.attempts < s.attempts

  second_lease : (r s u : OutboxEvent) → Leased r s → (u ≡ s) ⊎ Leased s u → Leased r u
  second_lease r s u h (inl same) = subst (Leased r) (sym same) h
  second_lease r s u h (inr again) = record {
    now_held = again.now_held;
    counted = omega (arith, h.counted, again.counted);
  }

  -- the event `j` after the leases
  pub lease_all-row :
      (due l : List OutboxEvent) (j : String) (r : OutboxEvent)
      → select_one (has_id j) l ≡ some r
      → (s : OutboxEvent) × (select_one (has_id j) (lease_all worker expiry due l) ≡ some s)
        × (((any (has_id j) due ≡ false) × (s ≡ r)) ⊎ ((any (has_id j) due ≡ true) × Leased r s))
  unfolding lease_all
  lease_all-row [] l j r found = (r, found, inl (refl, refl))
  lease_all-row (e ∷ due) l j r found =
      let f = lease worker expiry in
      let after = find-update (has_id e.event_id) (has_id j) f l (λ x h. refl) in
      let name : r.event_id ≡ j = (eq_iff r.event_id j).0 (find_hit (has_id j) l r found) in
      elim (Bool-cases (has_id j e)) [
        | inr apart ↦
            let kept : select_one (has_id j) (update (has_id e.event_id) f l) ≡ some r = ground (
              arith,
              found,
              after,
              apart,
              name,
              eq_iff r.event_id e.event_id,
              eq_iff e.event_id j,
            ) in
            let (s, at, how) = lease_all-row due (update (has_id e.event_id) f l) j r kept in
            (
              s,
              at,
              elim how [
                | inl (no_other, same) ↦ inl (ground (arith, apart, no_other), same)
                | inr (other, h) ↦ inr (ground (arith, apart, other), h)
              ],
            )
        | inl here ↦
            let new : select_one (has_id j) (update (has_id e.event_id) f l) ≡ some (f r) = ground (
              arith,
              found,
              after,
              here,
              name,
              eq_iff r.event_id e.event_id,
              eq_iff e.event_id j,
            ) in
            let (s, at, how) = lease_all-row due (update (has_id e.event_id) f l) j (f r) new in
            let once : Leased r (f r) = record { now_held = refl; counted = omega arith } in
            (
              s,
              at,
              inr (
                ground (arith, here),
                second_lease r (f r) s once
                    (elim how [ inl (no_other, same) ↦ inl same | inr (other, h) ↦ inr h ]),
              ),
            )
      ]

  lease_all-none :
      (due l : List OutboxEvent) (j : String)
      → select_one (has_id j) l ≡ none
      → select_one (has_id j) (lease_all worker expiry due l) ≡ none
  unfolding lease_all
  lease_all-none [] l j missing = missing
  lease_all-none (e ∷ due) l j missing =
      lease_all-none due (update (has_id e.event_id) (lease worker expiry) l) j (
        ground (
          arith,
          missing,
          find-update (has_id e.event_id) (has_id j) (lease worker expiry) l (λ x h. refl),
        ))

-- an event that is due waits, or its lease has expired
due-Moves :
    (worker : String) (now x : ℕ) (s : OutboxStatus) (owner : Option String) (until : Option ℕ)
    → is_pending s || (is_leased s && expired now until) ≡ true
    → now < x
    → Moves worker now (phase s owner until) (held (some worker) (some x))
due-Moves worker now x pending owner until h later = take later
due-Moves worker now x leased owner until h later = steal h later
due-Moves worker now x delivered owner until h later = ground (arith, h)
due-Moves worker now x dead_letter owner until h later = ground (arith, h)

pub claim-Moves :
    (worker destination j : String) (limit lease_seconds now : ℕ) (t : Outbox)
    → IsKeyed t.events
    → Moves worker now
        (view j t.events)
        (view j (claim worker limit lease_seconds destination now t).1.events)
unfolding claim
claim-Moves worker destination j limit lease_seconds now t k =
    let due = select_due limit now destination t.events in
    let x : ℕ = now + max 1 lease_seconds * 1000000 in
    elim (Bool-cases (is_blank worker)) [
      | inl blank ↦ rw blank stay
      | inr named ↦ rw named (elim (Option-cases (select_one (has_id j) t.events)) [
        | inl missing ↦ rw missing (rw (lease_all-none worker x due t.events j missing) stay)
        | inr (r, found) ↦
            let (s, at, how) = lease_all-row worker x due t.events j r found in
            rw found (
              rw at (elim how [
                | inl (unchosen, same) ↦
                    subst (λ e. Moves worker now (phase_of r) (phase_of e)) (sym same) stay
                | inr (chosen, h) ↦
                    let ready =
                      select_due-is_due limit now destination j t.events r (k.ids j) found chosen in
                    subst (Moves worker now (phase_of r)) (sym h.now_held) (
                      due-Moves worker now x r.status r.lease_owner r.lease_expires_at
                        (ground (arith, ready)) (ground arith))
              ]))
      ])
    ]

-- The outbox implements its specification: whatever a worker calls, and whether the call returns or
-- raises, each event stays as it is or makes one of the moves that the worker has at that time. An
-- event enters as waiting; it is taken while it waits or once its lease has expired; and only the
-- worker that holds it marks it as completed, gives it back or abandons it.
pub outbox-Moves :
    (worker : String) (now : ℕ) (j id error destination : String) (limit lease_seconds delay : ℕ)
    (e : OutboxEvent) (t : Outbox)
    → IsKeyed t.events
    → e.status ≡ pending
    → Moves worker now (view j t.events) (view j (enqueue e t).1.events)
      × Moves worker now
          (view j t.events)
          (view j (claim worker limit lease_seconds destination now t).1.events)
      × Moves worker now (view j t.events) (view j (mark_delivered id worker now t).1.events)
      × Moves worker now
          (view j t.events)
          (view j (reschedule id worker error delay now t).1.events)
      × Moves worker now (view j t.events) (view j (bury id worker error now t).1.events)
outbox-Moves worker now j id error destination limit lease_seconds delay e t k fresh = (
  enqueue-Moves worker now j e t fresh,
  claim-Moves worker destination j limit lease_seconds now t k,
  mark_delivered-Moves worker now id j t,
  reschedule-Moves worker now id j error delay t,
  bury-Moves worker now id j error t (k.ids id),
)
