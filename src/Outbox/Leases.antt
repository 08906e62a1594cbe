-- ===== src/Outbox/Leases.antt =====
-- What follows from the moves for a sequence of workers: leases are exclusive and ends are final.
use agent_roi.Base.{ℕ, ◌≤◌, ◌≡◌, String, false, some, arith, refl, ◌==◌, sym}
use agent_roi.Outbox.Store.{
  pending, OutboxEvent, Outbox, enqueue, claim, mark_delivered, reschedule, bury,
}
use agent_roi.Outbox.Keys.{IsKeyed}
use agent_roi.Outbox.Claims.{outbox-Moves}
use agent_roi.Outbox.Phases.{
  Phase, view, completed, abandoned, held, Moves, stay, enter, take, steal, finish, give_back,
  abandon,
}

-- an event that has come to an end
pub data IsOver : Phase → Type 0 where
  was_completed : IsOver completed
  was_abandoned : IsOver abandoned

Moves-over : (worker : String) (now : ℕ) {p q : Phase} → IsOver p → Moves worker now p q → p ≡ q
Moves-over worker now was_completed stay = refl
Moves-over worker now was_abandoned stay = refl

Moves-others :
    {worker : String} {now : ℕ} {p q : Phase} (a : String) (x : ℕ)
    → Moves worker now p q
    → p ≡ held (some a) (some x)
    → now ≤ x
    → (a == worker) ≡ false
    → q ≡ p
Moves-others a x stay e alive other = refl
Moves-others a x enter e alive other = ground (arith, e)
Moves-others a x (take h) e alive other = ground (arith, e)
Moves-others a x (steal h l) e alive other = ground (arith, e, h)
Moves-others a x (finish h) e alive other = ground (arith, e, h)
Moves-others a x (give_back h) e alive other = ground (arith, e, h)
Moves-others a x (abandon h) e alive other = ground (arith, e, h)

module _ (worker : String) (now : ℕ) (j id error destination : String)
    (limit lease_seconds delay : ℕ) (e : OutboxEvent) (t : Outbox) where
  -- The event `j` is as it was, whichever operation the worker calls.
  pub record Untouched : Type 0 where
    pub enqueued : view j (enqueue e t).1.events ≡ view j t.events
    pub claimed :
        view j (claim worker limit lease_seconds destination now t).1.events ≡ view j t.events
    pub marked : view j (mark_delivered id worker now t).1.events ≡ view j t.events
    pub rescheduled : view j (reschedule id worker error delay now t).1.events ≡ view j t.events
    pub not_buried : view j (bury id worker error now t).1.events ≡ view j t.events

  -- While a lease has not expired, no operation of another worker changes the state of the event, its
  -- holder or its lease.
  pub lease_exclusive :
      (a : String) (x : ℕ)
      → IsKeyed t.events
      → e.status ≡ pending
      → view j t.events ≡ held (some a) (some x)
      → now ≤ x
      → (a == worker) ≡ false
      → Untouched
  lease_exclusive a x k fresh mine alive other =
      let (m₁, m₂, m₃, m₄, m₅) =
        outbox-Moves worker now j id error destination limit lease_seconds delay e t k fresh in
      record {
        enqueued = Moves-others a x m₁ mine alive other;
        claimed = Moves-others a x m₂ mine alive other;
        marked = Moves-others a x m₃ mine alive other;
        rescheduled = Moves-others a x m₄ mine alive other;
        not_buried = Moves-others a x m₅ mine alive other;
      }

  -- A delivered event and a dead letter stay so, whichever operation is called by whom and when.
  pub ends_final : IsKeyed t.events → e.status ≡ pending → IsOver (view j t.events) → Untouched
  ends_final k fresh over =
      let (m₁, m₂, m₃, m₄, m₅) =
        outbox-Moves worker now j id error destination limit lease_seconds delay e t k fresh in
      record {
        enqueued = sym (Moves-over worker now over m₁);
        claimed = sym (Moves-over worker now over m₂);
        marked = sym (Moves-over worker now over m₃);
        rescheduled = sym (Moves-over worker now over m₄);
        not_buried = sym (Moves-over worker now over m₅);
      }
