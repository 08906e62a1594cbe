-- ===== src/Outbox/Store.antt =====
-- `OutboxEvent` and `SqliteOutboxStore` of enterprise/outbox.py. Times are microseconds, payloads are the
-- texts of the column, and NULL is `none`. A method is one transaction, and reads the clock once.
use agent_roi.Base.{
  ℕ, zero, suc, ◌+◌, ◌*◌, String, Bool, true, false, Option, none, some, List, [], ◌∷◌, ◌==◌, count,
  filter, is_some, leb, ltb, min, max, nat_eq, take, ◌&&◌, ◌||◌, if◌then◌else◌,
}
use agent_roi.Base.Text.{strip, is_blank, is_empty}
use agent_roi.Result.{Result, ok, err, Exec}
use agent_roi.Sort.{sort_by}
use agent_roi.Table.{insert, update, delete, select_one}

pub data OutboxStatus : Type 0 where
  pending leased delivered dead_letter : OutboxStatus

abbrev pub is_pending : OutboxStatus → Bool
is_pending pending = true
is_pending _ = false

abbrev pub is_leased : OutboxStatus → Bool
is_leased leased = true
is_leased _ = false

pub record OutboxEvent : Type 0 where
  pub event_id : String
  pub topic : String
  pub destination : String
  pub payload : String
  pub idempotency_key : String
  pub status : OutboxStatus
  pub attempts : ℕ
  pub available_at : ℕ
  pub lease_owner : Option String
  pub lease_expires_at : Option ℕ
  pub last_error : String
  pub created_at : ℕ
  pub delivered_at : Option ℕ

-- A row of `enterprise_dead_letters`.
pub record DeadLetter : Type 0 where
  pub event_id : String
  pub topic : String
  pub destination : String
  pub payload : String
  pub idempotency_key : String
  pub attempts : ℕ
  pub last_error : String
  pub created_at : ℕ
  pub dead_lettered_at : ℕ

pub record Outbox : Type 0 where
  pub events : List OutboxEvent
  pub dead_letters : List DeadLetter

pub data OutboxError : Type 0 where
  blank_field blank_worker integrity_error not_leased : OutboxError

abbrev pub Boxing : Type 0 → Type 0
Boxing A = Exec OutboxError Outbox A

-- `OutboxEvent.create`; `fresh` is drawn at random, and both times are readings of one clock
unfoldable pub create :
    String → String → String → String → String → String → ℕ → Result OutboxError OutboxEvent
create topic destination payload key event_id fresh now =
    if is_blank topic || is_blank destination || is_blank key
    then err blank_field
    else ok (record {
      event_id = if is_empty event_id then fresh else event_id;
      topic = strip topic;
      destination = strip destination;
      payload = payload;
      idempotency_key = strip key;
      status = pending;
      attempts = 0;
      available_at = now;
      lease_owner = none;
      lease_expires_at = none;
      last_error = "";
      created_at = now;
      delivered_at = none;
    })

-- The conditions of the statements.
abbrev pub has_id : String → OutboxEvent → Bool
has_id id e = e.event_id == id

abbrev pub has_key : String → String → OutboxEvent → Bool
has_key destination key e = e.destination == destination && e.idempotency_key == key

-- `lease_owner=?`, which NULL never satisfies
abbrev pub owned_by : String → Option String → Bool
owned_by worker none = false
owned_by worker (some owner) = owner == worker

abbrev pub held_by : String → String → OutboxEvent → Bool
held_by id worker e = has_id id e && is_leased e.status && owned_by worker e.lease_owner

-- `lease_expires_at_utc < ?`
abbrev pub expired : ℕ → Option ℕ → Bool
expired now none = false
expired now (some expiry) = ltb expiry now

-- the clauses of `claim`
abbrev pub is_due : ℕ → String → OutboxEvent → Bool
is_due now destination e =
    leb e.available_at now
    && (is_pending e.status || (is_leased e.status && expired now e.lease_expires_at))
    && (is_empty destination || e.destination == destination)

-- `enqueue`: a destination has each key once, and a second event is answered by the first
unfoldable pub enqueue : OutboxEvent → Boxing OutboxEvent
enqueue e t =
    if is_some (select_one (has_id e.event_id) t.events)
      || is_some (select_one (has_key e.destination e.idempotency_key) t.events)
    then elim (select_one (has_key e.destination e.idempotency_key) t.events) [
      | none ↦ (err integrity_error, t)
      | some r ↦ (ok r, t)
    ]
    else (ok e, record t { events = insert e t.events })

-- the rows that `claim` selects
unfoldable pub select_due : ℕ → ℕ → String → List OutboxEvent → List OutboxEvent
select_due limit now destination l =
    take (max 1 (min limit 100)) (sort_by (λ e. e.created_at) (filter (is_due now destination) l))

abbrev pub lease : String → ℕ → OutboxEvent → OutboxEvent
lease worker expiry e = record e {
  status = leased;
  lease_owner = some worker;
  lease_expires_at = some expiry;
  attempts = e.attempts + 1;
}

-- the UPDATE for each selected row
unfoldable pub lease_all : String → ℕ → List OutboxEvent → List OutboxEvent → List OutboxEvent
lease_all worker expiry [] l = l
lease_all worker expiry (e ∷ due) l =
    lease_all worker expiry due (update (has_id e.event_id) (lease worker expiry) l)

-- the rows that are read back
abbrev pub read_back : List OutboxEvent → List OutboxEvent → List OutboxEvent
read_back [] l = []
read_back (e ∷ due) l =
    let rest = read_back due l in
    elim (select_one (has_id e.event_id) l) [ none ↦ rest | some r ↦ r ∷ rest ]

-- `claim`
unfoldable pub claim : String → ℕ → ℕ → String → ℕ → Boxing (List OutboxEvent)
unfolding select_due lease_all
claim worker limit lease_seconds destination now t =
    if is_blank worker
    then (err blank_worker, t)
    else (let due = select_due limit now destination t.events in
        let l = lease_all worker (now + max 1 lease_seconds * 1000000) due t.events in
        (ok (read_back due l), record t { events = l }))

abbrev pub finished : ℕ → OutboxEvent → OutboxEvent
finished now e = record e {
  status = delivered;
  delivered_at = some now;
  lease_owner = none;
  lease_expires_at = none;
  last_error = "";
}

-- `mark_delivered`
unfoldable pub mark_delivered : String → String → ℕ → Boxing (Unit {0})
mark_delivered id worker now t =
    if nat_eq (count (held_by id worker) t.events) 1
    then (ok tt, record t { events = update (held_by id worker) (finished now) t.events })
    else (err not_leased, t)

-- the first characters of a text
unfoldable pub clip : ℕ → String → String
clip zero s = String.[]
clip (suc n) String.[] = String.[]
clip (suc n) (String.◌∷◌ c s) = String.◌∷◌ c (clip n s)

abbrev pub requeued : ℕ → String → OutboxEvent → OutboxEvent
requeued available error e = record e {
  status = pending;
  available_at = available;
  lease_owner = none;
  lease_expires_at = none;
  last_error = error;
}

-- `reschedule`; the delay is in microseconds, and none if it is negative
unfoldable pub reschedule : String → String → String → ℕ → ℕ → Boxing (Unit {0})
unfolding clip
reschedule id worker error delay now t =
    if nat_eq (count (held_by id worker) t.events) 1
    then (
      ok tt,
      record t {
        events = update (held_by id worker) (requeued (now + delay) (clip 4000 error)) t.events;
      },
    )
    else (err not_leased, t)

abbrev pub buried : String → OutboxEvent → OutboxEvent
buried error e = record e {
  status = dead_letter;
  last_error = error;
  lease_owner = none;
  lease_expires_at = none;
}

abbrev pub letter : OutboxEvent → String → ℕ → DeadLetter
letter e error now = record {
  event_id = e.event_id;
  topic = e.topic;
  destination = e.destination;
  payload = e.payload;
  idempotency_key = e.idempotency_key;
  attempts = e.attempts;
  last_error = error;
  created_at = e.created_at;
  dead_lettered_at = now;
}

abbrev pub letter_id : String → DeadLetter → Bool
letter_id id d = d.event_id == id

-- `dead_letter`: the event is copied, replacing an older copy, and closed
unfoldable pub bury : String → String → String → ℕ → Boxing (Unit {0})
unfolding clip
bury id worker error now t = elim (select_one (held_by id worker) t.events) [
  | none ↦ (err not_leased, t)
  | some e ↦ (
    ok tt,
    record t {
      events = update (has_id id) (buried (clip 4000 error)) t.events;
      dead_letters =
          insert (letter e (clip 4000 error) now) (delete (letter_id e.event_id) t.dead_letters);
    },
  )
]

-- `stats`: how many events have a status
abbrev pub status_code : OutboxStatus → ℕ
status_code pending = 0
status_code leased = 1
status_code delivered = 2
status_code dead_letter = 3

abbrev pub stats : OutboxStatus → Outbox → ℕ
stats s t = count (λ e. nat_eq (status_code e.status) (status_code s)) t.events
