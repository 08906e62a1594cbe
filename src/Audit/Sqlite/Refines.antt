-- ===== src/Audit/Sqlite/Refines.antt =====
-- The store in SQLite does what the store in memory does, seen through the rows of its events.
use mathlib.Core.Option
use mathlib.Core.Path.{subst}
use agent_roi.Base.{
  ◌≡◌, String, Bool, true, false, Option, none, some, List, [], ◌∷◌, ◌++◌, arith, refl, ap, sym,
  ◌∙◌, ◌==◌, eq_refl, any, All, map, inl, inr, Bool-cases, Option-cases, if◌then◌else◌,
}
use agent_roi.Result.{ok}
use agent_roi.Dict
use agent_roi.Dict.{Dict, get-put, get-empty}
use agent_roi.Audit.Event.{Body, AuditEvent, Entry, body_of, create, remember, verify_from}
use agent_roi.Audit.Memory.{AuditStore, record_event, verify}
use agent_roi.Audit.Chain.{IsSound, lasts, same_hash_refl}
use agent_roi.Audit.Tamper.{verify_from-first, get-remember, same_hash-eq}
use agent_roi.Audit.Sqlite.{
  AuditRow, Codec, last_from, row_of, last_hash, insert_row, record_row, read_events, verify_rows,
}

abbrev newest : {P : Type 0} → Option (AuditEvent P) → Option String
newest none = none
newest (some e) = e.hash

abbrev last_event :
    {P : Type 0} → String → Option (AuditEvent P) → List (AuditEvent P) → Option (AuditEvent P)
last_event c found [] = found
last_event c found (e ∷ l) = last_event c (if e.correlation_id == c then some e else found) l

module _ {P : Type 0} (codec : Codec P) where
  -- The JSON of an event reads back as the event.
  abbrev pub ReadsBack : AuditEvent P → Type 0
  ReadsBack e = codec.of_json (codec.to_json e) ≡ some e

  last_event-All :
      (Q : AuditEvent P → Type 0) (c : String) (found : Option (AuditEvent P))
      (l : List (AuditEvent P)) (e : AuditEvent P)
      → ((f : AuditEvent P) → found ≡ some f → Q f)
      → All Q l
      → last_event c found l ≡ some e
      → Q e
  last_event-All Q c found [] e start all last = start e last
  last_event-All Q c found (g ∷ l) e start all last =
      let found' : Option (AuditEvent P) = if g.correlation_id == c then some g else found in
      last_event-All Q c found' l e
        (λ f picked. elim (Bool-cases (g.correlation_id == c)) [
          | inl mine ↦ let same : g ≡ f = ground (arith, mine, picked) in subst Q same all.0
          | inr other ↦ start f (ground (arith, other, picked))
        ])
        all.1 last

  pick-map :
      (b : Bool) (e : AuditEvent P) (found : Option (AuditEvent P))
      → Option.map (row_of codec) (if b then some e else found)
        ≡ (if b then some (row_of codec e) else Option.map (row_of codec) found)
  pick-map true e found = refl
  pick-map false e found = refl

  last_from-map :
      (c : String) (found : Option (AuditEvent P)) (l : List (AuditEvent P))
      → last_from c (Option.map (row_of codec) found) (map (row_of codec) l)
        ≡ Option.map (row_of codec) (last_event c found l)
  last_from-map c found [] = refl
  last_from-map c found (e ∷ l) =
      let found' : Option (AuditEvent P) = if e.correlation_id == c then some e else found in
      ap (λ o. last_from c o (map (row_of codec) l))
        (sym (pick-map (e.correlation_id == c) e found))
      ∙ last_from-map c found' l

  last_hash-map :
      (c : String) (l : List (AuditEvent P))
      → All ReadsBack l
      → last_hash codec c (map (row_of codec) l) ≡ ok (newest (last_event c none l))
  unfolding last_hash
  last_hash-map c l back = elim (Option-cases (last_event c none l)) [
    | inl nothing ↦ ground (arith, nothing, last_from-map c none l)
    | inr (e, last) ↦
        let back' = last_event-All ReadsBack c none l e (λ f h. ground (arith, h)) back last in
        ground (arith, last, last_from-map c none l, back')
  ]

  read_events-map :
      (sha256 : Body P → String) (hash_chain : Bool) (l : List (AuditEvent P))
      → All ReadsBack l
      → read_events codec sha256 hash_chain (map (row_of codec) l) ≡ ok l
  unfolding read_events
  read_events-map sha256 hash_chain [] back = refl
  read_events-map sha256 hash_chain (e ∷ l) back = ground (
    arith,
    read_events-map sha256 hash_chain l back.1,
    back.0,
    eq_refl e.event_id,
    eq_refl e.correlation_id,
    eq_refl e.run_id,
    eq_refl e.event_type,
    same_hash_refl e.hash,
  )

  pick-newest :
      (b : Bool) (e : AuditEvent P) (found : Option (AuditEvent P)) (old new : Option String)
      → newest found ≡ old
      → new ≡ (if b then e.hash else old)
      → newest (if b then some e else found) ≡ new
  pick-newest true e found old new h k = sym k
  pick-newest false e found old new h k = h ∙ sym k

  -- the last event of a verified trail has the last hash
  newest-lasts :
      (sha256 : Body P → String) (c : String) (last : Dict String) (found : Option (AuditEvent P))
      (l : List (AuditEvent P))
      → verify_from sha256 true last l ≡ ok tt
      → newest found ≡ Dict.get last c
      → newest (last_event c found l) ≡ Dict.get (lasts last l) c
  newest-lasts sha256 c last found [] h same = same
  newest-lasts sha256 c last found (e ∷ l) h same =
      let (prev, right, rest) = verify_from-first sha256 last e l h in
      let hashed : e.hash ≡ some (sha256 (body_of e)) =
        sym (same_hash-eq (some (sha256 (body_of e))) e.hash (ground (arith, right))) in
      let after = get-remember sha256 last e.correlation_id c e.hash (sha256 (body_of e)) hashed in
      let found' : Option (AuditEvent P) = if e.correlation_id == c then some e else found in
      let same' : newest found' ≡ Dict.get (remember last e.correlation_id e.hash) c =
        pick-newest (e.correlation_id == c) e found (Dict.get last c)
          (Dict.get (remember last e.correlation_id e.hash) c) same after in
      newest-lasts sha256 c (remember last e.correlation_id e.hash) found' l rest same'

  map-insert :
      (e : AuditEvent P) (l : List (AuditEvent P))
      → map (row_of codec) (l ++ e ∷ []) ≡ map (row_of codec) l ++ row_of codec e ∷ []
  map-insert e [] = refl
  map-insert e (f ∷ l) = ap (λ m. row_of codec f ∷ m) (map-insert e l)

  -- The store in SQLite implements the store in memory, with hashes: if its rows are the events of a sound
  -- store, whose JSON reads back, `last_hash` and `verify` answer alike, and `record` of an event with a new identifier
  -- returns the same event and leaves the rows of the events that the store in memory has then.
  pub record_row-record :
      (sha256 : Body P → String) (s : AuditStore P) (n : Entry P)
      → s.hash_chain ≡ true
      → IsSound sha256 s
      → All ReadsBack s.events
      → any (λ (r : AuditRow). r.event_id == n.event_id) (map (row_of codec) s.events) ≡ false
      → (last_hash codec n.correlation_id (map (row_of codec) s.events)
          ≡ ok (Dict.get s.last_hashes n.correlation_id))
        × (verify_rows codec sha256 true (map (row_of codec) s.events) ≡ verify sha256 s)
        × (record_row codec sha256 true n (map (row_of codec) s.events)
            ≡ ((record_event sha256 n s).0, map (row_of codec) (record_event sha256 n s).1.events))
  unfolding record_row record_event insert_row verify_rows verify create
  record_row-record sha256 s n chained v back fresh =
      let rows = map (row_of codec) s.events in
      let verified : verify_from sha256 true Dict.empty s.events ≡ ok tt =
        ground (arith, chained, v.verified) in
      let tail : last_hash codec n.correlation_id rows
          ≡ ok (Dict.get s.last_hashes n.correlation_id) =
        last_hash-map n.correlation_id s.events back
        ∙ ap ok (
            newest-lasts sha256 n.correlation_id Dict.empty none s.events verified
              (sym (get-empty n.correlation_id))
            ∙ sym (v.cached n.correlation_id)) in
      let e = create sha256 n (Dict.get s.last_hashes n.correlation_id) true in
      (
        tail,
        ground (arith, chained, v.verified, read_events-map sha256 true s.events back),
        ground (arith, chained, tail, fresh, map-insert e s.events),
      )
