-- ===== src/Audit/Chain.antt =====
-- What `record` writes, `verify` accepts.
use agent_roi.Base.{
  ◌+◌, ◌≡◌, String, Bool, true, false, Option, none, some, List, [], ◌∷◌, ◌++◌, arith, refl, ap,
  eq_iff, eq_refl, not, length, length-append, inl, inr, Option-cases, sym, ◌∙◌,
}
use agent_roi.Base.Text.{is_empty}
use agent_roi.Result.{ok}
use agent_roi.Dict
use agent_roi.Dict.{Dict, get-put, get-empty}
use agent_roi.Audit.Event.{
  Body, AuditEvent, Entry, entry_body, body_of, same_hash, create, check_hash, remember,
  verify_from,
}
use agent_roi.Audit.Memory.{AuditStore, new_store, cache, keep, record_event, verify}

pub same_hash_refl : (h : Option String) → same_hash h h ≡ true
same_hash_refl none = refl
same_hash_refl (some h) = eq_refl h

-- the last hashes after some events
abbrev pub lasts : {P : Type 0} → Dict String → List (AuditEvent P) → Dict String
lasts last [] = last
lasts last (e ∷ l) = lasts (remember last e.correlation_id e.hash) l

module _ {P : Type 0} (sha256 : Body P → String) where
  -- the events so far verify: the next one is checked against their last hashes
  pub verify_from-append :
      (hash_chain : Bool) (last : Dict String) (l : List (AuditEvent P)) (e : AuditEvent P)
      → verify_from sha256 hash_chain last l ≡ ok tt
      → verify_from sha256 hash_chain last (l ++ e ∷ [])
        ≡ verify_from sha256 hash_chain (lasts last l) (e ∷ [])
  unfolding verify_from
  verify_from-append hash_chain last [] e h = refl
  verify_from-append hash_chain last (f ∷ l) e h =
      ground (arith, h, verify_from-append hash_chain (remember last f.correlation_id f.hash) l e)

  lasts-append :
      (last : Dict String) (l : List (AuditEvent P)) (e : AuditEvent P)
      → lasts last (l ++ e ∷ []) ≡ remember (lasts last l) e.correlation_id e.hash
  lasts-append last [] e = refl
  lasts-append last (f ∷ l) e = lasts-append (remember last f.correlation_id f.hash) l e

  -- The events verify, and the cache has their last hashes.
  pub record IsSound (s : AuditStore P) : Type 0 where
    pub verified : verify_from sha256 s.hash_chain Dict.empty s.events ≡ ok tt
    pub cached :
        (correlation : String)
        → Dict.get s.last_hashes correlation ≡ Dict.get (lasts Dict.empty s.events) correlation

  pub new_store-IsSound : (hash_chain : Bool) → IsSound (new_store hash_chain)
  unfolding verify_from
  new_store-IsSound hash_chain = record { verified = refl; cached = λ correlation. refl }

  -- a hash that was checked is no empty text
  truthy : Option String → Bool
  truthy none = true
  truthy (some h) = not (is_empty h)

  checked-truthy :
      (hash_chain : Bool) (e : AuditEvent P)
      → ((b : Body P) → is_empty (sha256 b) ≡ false)
      → check_hash sha256 hash_chain e ≡ ok tt
      → truthy e.hash ≡ true
  unfolding truthy
  checked-truthy hash_chain e digest right = elim (Option-cases e.hash) [
    | inl no_hash ↦ ground (arith, no_hash)
    | inr (h, hashed) ↦
        ground (arith, hashed, right, eq_iff (sha256 (body_of e)) h, digest (body_of e))
  ]

  get-cache :
      (a b : Dict String) (correlation c : String) (h : Option String)
      → truthy h ≡ true
      → Dict.get a c ≡ Dict.get b c
      → Dict.get (cache a correlation h) c ≡ Dict.get (remember b correlation h) c
  unfolding truthy
  get-cache a b correlation c none full same = same
  get-cache a b correlation c (some h) full same =
      ground (arith, full, get-put a correlation c h, get-put b correlation c h)

  -- one more event whose predecessor and whose hash are right
  keep-IsSound :
      (s : AuditStore P) (e : AuditEvent P)
      → ((b : Body P) → is_empty (sha256 b) ≡ false)
      → IsSound s
      → same_hash e.prev_hash (Dict.get s.last_hashes e.correlation_id) ≡ true
      → check_hash sha256 s.hash_chain e ≡ ok tt
      → IsSound (keep e s)
  unfolding verify_from
  keep-IsSound s e digest v prev right = record {
    verified = ground (
      arith,
      verify_from-append s.hash_chain Dict.empty s.events e v.verified,
      v.cached e.correlation_id,
      prev,
      right,
    );
    cached = λ c.
        get-cache s.last_hashes (lasts Dict.empty s.events) e.correlation_id c e.hash
          (checked-truthy s.hash_chain e digest right) (v.cached c)
        ∙ ap (λ d. Dict.get d c) (sym (lasts-append Dict.empty s.events e));
  }

  record-IsSound :
      (s : AuditStore P) (n : Entry P)
      → ((b : Body P) → is_empty (sha256 b) ≡ false)
      → IsSound s
      → IsSound (record_event sha256 n s).1
  unfolding record_event create
  record-IsSound s n digest v =
      let prev = Dict.get s.last_hashes n.correlation_id in
      keep-IsSound s (create sha256 n prev s.hash_chain) digest v (same_hash_refl prev)
        (ground (arith, eq_refl (sha256 (entry_body n prev))))

  -- the store after some calls of `record`
  abbrev pub records : List (Entry P) → AuditStore P → AuditStore P
  records [] s = s
  records (n ∷ l) s = records l (record_event sha256 n s).1

  pub records-IsSound :
      (l : List (Entry P)) (s : AuditStore P)
      → ((b : Body P) → is_empty (sha256 b) ≡ false)
      → IsSound s
      → IsSound (records l s)
  records-IsSound [] s digest v = v
  records-IsSound (n ∷ l) s digest v =
      records-IsSound l (record_event sha256 n s).1 digest (record-IsSound s n digest v)

  length-record :
      (s : AuditStore P) (n : Entry P)
      → length (record_event sha256 n s).1.events ≡ length s.events + 1
  unfolding record_event
  length-record s n = length-append s.events _

  length-records :
      (l : List (Entry P)) (s : AuditStore P)
      → length (records l s).events ≡ length s.events + length l
  length-records [] s = omega arith
  length-records (n ∷ l) s =
      omega (arith, length-records l (record_event sha256 n s).1, length-record s n)

  -- Whatever is recorded in a new store, with or without hashes, in any mixture of correlations, `verify`
  -- accepts it and counts every event, if no digest is the empty text.
  pub records-verify :
      (hash_chain : Bool) (l : List (Entry P))
      → ((b : Body P) → is_empty (sha256 b) ≡ false)
      → verify sha256 (records l (new_store hash_chain)) ≡ ok (length l)
  unfolding verify
  records-verify hash_chain l digest =
      let v = records-IsSound l (new_store hash_chain) digest (new_store-IsSound hash_chain) in
      ground (arith, v.verified, length-records l (new_store hash_chain))
