-- ===== src/Audit/Lines/Refines.antt =====
-- The store in a file does what the store in memory does, seen through the lines of its events.
use agent_roi.Base.{
  suc, ◌≡◌, String, Bool, true, false, Option, none, some, List, [], ◌∷◌, ◌++◌, arith, refl, ap,
  sym, ◌∙◌, ◌==◌, All, map, length, if◌then◌else◌,
}
use agent_roi.Base.Text.{is_blank, is_empty}
use agent_roi.Result.{ok}
use agent_roi.Dict
use agent_roi.Dict.{Dict, get-empty}
use agent_roi.Audit.Event.{
  Body, AuditEvent, Entry, body_of, create, remember, verify_from, same_hash, check_hash,
}
use agent_roi.Audit.Memory.{AuditStore, record_event, verify}
use agent_roi.Audit.Chain.{IsSound, lasts}
use agent_roi.Audit.Tamper.{verify_from-first, get-remember, same_hash-eq}
use agent_roi.Audit.Lines.{
  true_text, field_is, check_object, Field, absent, text_field, LineObject, Format, last_hash_from,
  read_objects, record_line, last_hash_line, verify_objects, verify_lines,
}

abbrev pub field_of : Option String → Field
field_of none = absent
field_of (some h) = text_field h

length-map : {A B : Type 0} (f : A → B) (l : List A) → length (map f l) ≡ length l
length-map f [] = refl
length-map f (x ∷ l) = ap suc (length-map f l)

-- the hash that a turn of the loop leaves
picked :
    (b : Bool) (h found old new : Option String) (d : String)
    → h ≡ some d
    → is_empty d ≡ false
    → found ≡ old
    → new ≡ (if b then h else old)
    → (if b then (elim (true_text (field_of h)) [ none ↦ found | some k ↦ some k ]) else found)
      ≡ new
picked true none found old new d a full same step = absurd (ground (arith, a))
picked true (some h) found old new d a full same step = ground (arith, a, full, step)
picked false h found old new d a full same step = same ∙ sym step

field_is-same :
    (prev expected : Option String)
    → same_hash prev expected ≡ true
    → field_is (field_of prev) expected ≡ true
field_is-same none none h = refl
field_is-same none (some k) h = h
field_is-same (some h) none k = k
field_is-same (some h) (some k) e = e

module _ {P : Type 0} (f : Format P) where
  -- the hash of a body
  abbrev pub sha256 : Body P → String
  sha256 b = f.hash_text (f.body_json b)

  -- what the line of an event reads as
  abbrev pub object_of : AuditEvent P → LineObject
  object_of e = record {
    correlation_id = e.correlation_id;
    prev_hash = field_of e.prev_hash;
    hash = field_of e.hash;
    rest = f.body_json (body_of e);
  }

  -- The line of an event is not blank and reads back, and its correlation has a name.
  abbrev pub IsLine : AuditEvent P → Type 0
  IsLine e =
      (is_blank (f.to_line e) ≡ false)
      × (f.loads (f.to_line e) ≡ some (object_of e))
      × (is_empty e.correlation_id ≡ false)

  read_objects-map :
      (l : List (AuditEvent P))
      → All IsLine l
      → read_objects f (map f.to_line l) ≡ ok (map object_of l)
  unfolding read_objects
  read_objects-map [] back = refl
  read_objects-map (e ∷ l) back = ground (arith, read_objects-map l back.1, back.0.0, back.0.1)

  -- the hash of an event in a verified trail
  hashed :
      (last : Dict String) (e : AuditEvent P) (l : List (AuditEvent P))
      → verify_from sha256 true last (e ∷ l) ≡ ok tt
      → e.hash ≡ some (sha256 (body_of e))
  hashed last e l h =
      let (prev, right, rest) = verify_from-first sha256 last e l h in
      sym (same_hash-eq (some (sha256 (body_of e))) e.hash (ground (arith, right)))

  last_hash_from-lasts :
      (c : String) (last : Dict String) (found : Option String) (l : List (AuditEvent P))
      → ((b : Body P) → is_empty (sha256 b) ≡ false)
      → verify_from sha256 true last l ≡ ok tt
      → found ≡ Dict.get last c
      → last_hash_from c found (map object_of l) ≡ Dict.get (lasts last l) c
  last_hash_from-lasts c last found [] full h same = same
  last_hash_from-lasts c last found (e ∷ l) full h same =
      let (prev, right, rest) = verify_from-first sha256 last e l h in
      let has_hash = hashed last e l h in
      let after =
        get-remember sha256 last e.correlation_id c e.hash (sha256 (body_of e)) has_hash in
      let found' : Option String =
        if e.correlation_id == c
        then (elim (true_text (field_of e.hash)) [ none ↦ found | some k ↦ some k ])
        else found in
      let same' : found' ≡ Dict.get (remember last e.correlation_id e.hash) c =
        picked (e.correlation_id == c) e.hash found (Dict.get last c)
          (Dict.get (remember last e.correlation_id e.hash) c) (sha256 (body_of e)) has_hash
          (full (body_of e)) same after in
      last_hash_from-lasts c (remember last e.correlation_id e.hash) found' l full rest same'

  -- the checks of one line
  check_object-ok :
      (last : Dict String) (e : AuditEvent P) (k : String)
      → e.hash ≡ some k
      → is_empty k ≡ false
      → is_empty e.correlation_id ≡ false
      → same_hash e.prev_hash (Dict.get last e.correlation_id) ≡ true
      → check_hash sha256 true e ≡ ok tt
      → check_object f true last (object_of e) ≡ ok (remember last e.correlation_id e.hash)
  check_object-ok last e k has_hash full named prev right = ground (
    arith,
    has_hash,
    full,
    named,
    right,
    field_is-same e.prev_hash (Dict.get last e.correlation_id) prev,
  )

  verify_objects-ok :
      (last : Dict String) (l : List (AuditEvent P))
      → ((b : Body P) → is_empty (sha256 b) ≡ false)
      → All IsLine l
      → verify_from sha256 true last l ≡ ok tt
      → verify_objects f true last (map object_of l) ≡ ok tt
  unfolding verify_objects
  verify_objects-ok last [] full lines h = refl
  verify_objects-ok last (e ∷ l) full lines h =
      let (prev, right, rest) = verify_from-first sha256 last e l h in
      let checked =
        check_object-ok last e (sha256 (body_of e)) (hashed last e l h) (full (body_of e)) lines.0.2
          prev right in
      ground (
        arith,
        checked,
        verify_objects-ok (remember last e.correlation_id e.hash) l full lines.1 rest,
      )

  map-insert :
      (e : AuditEvent P) (l : List (AuditEvent P))
      → map f.to_line (l ++ e ∷ []) ≡ map f.to_line l ++ f.to_line e ∷ []
  map-insert e [] = refl
  map-insert e (g ∷ l) = ap (λ m. f.to_line g ∷ m) (map-insert e l)

  -- The store in a file implements the store in memory, with hashes that are not empty: if its lines are the
  -- events of a sound store, each with a line that reads back and a correlation that is not empty, then
  -- `last_hash` and `verify` answer alike, and `record` returns the same event and leaves the lines of the
  -- events that the store in memory has then.
  pub record_line-record :
      (s : AuditStore P) (n : Entry P)
      → s.hash_chain ≡ true
      → ((b : Body P) → is_empty (sha256 b) ≡ false)
      → IsSound sha256 s
      → All IsLine s.events
      → (last_hash_line f n.correlation_id (map f.to_line s.events)
          ≡ ok (Dict.get s.last_hashes n.correlation_id))
        × (verify_lines f true (map f.to_line s.events) ≡ verify sha256 s)
        × (record_line f true n (map f.to_line s.events)
            ≡ ((record_event sha256 n s).0, map f.to_line (record_event sha256 n s).1.events))
  unfolding record_line record_event last_hash_line verify_lines verify create
  record_line-record s n chained full v lines =
      let verified : verify_from sha256 true Dict.empty s.events ≡ ok tt =
        ground (arith, chained, v.verified) in
      let objects = read_objects-map s.events lines in
      let tail : last_hash_from n.correlation_id none (map object_of s.events)
          ≡ Dict.get s.last_hashes n.correlation_id =
        last_hash_from-lasts n.correlation_id Dict.empty none s.events full verified
          (sym (get-empty n.correlation_id))
        ∙ sym (v.cached n.correlation_id) in
      let e = create sha256 n (Dict.get s.last_hashes n.correlation_id) true in
      let all_checked = verify_objects-ok Dict.empty s.events full lines verified in
      (
        ground (arith, objects, tail),
        ground (arith, objects, all_checked, verified, chained, length-map object_of s.events),
        ground (arith, objects, chained, tail, map-insert e s.events),
      )
