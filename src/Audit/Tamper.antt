-- ===== src/Audit/Tamper.antt =====
-- What `verify` proves about a trail: under a hash without collisions, the last hash of a correlation
-- stands for all of its events.
use mathlib.Core.List.{append-nil}
use agent_roi.Base.{
  ℕ, ◌≡◌, String, Bool, true, Option, none, some, List, [], ◌∷◌, ◌++◌, arith, refl, ap, sym, ◌∙◌,
  ◌==◌, eq_iff, filter, inl, inr, Bool-cases, All, All-imp, if◌then◌else◌,
}
use agent_roi.Result.{ok}
use agent_roi.Dict
use agent_roi.Dict.{Dict, get-put, get-empty}
use agent_roi.Audit.Event.{Body, AuditEvent, body_of, same_hash, check_hash, remember, verify_from}
use agent_roi.Audit.Memory.{AuditStore, verify}
use agent_roi.Audit.Chain.{lasts}

pub same_hash-eq : (h k : Option String) → same_hash h k ≡ true → h ≡ k
same_hash-eq none none e = refl
same_hash-eq none (some k) e = ground (arith, e)
same_hash-eq (some h) none e = ground (arith, e)
same_hash-eq (some h) (some k) e = ap some ((eq_iff h k).0 e)

-- `reverse l ++ acc`
rev_onto : {A : Type 0} → List A → List A → List A
rev_onto [] acc = acc
rev_onto (x ∷ l) acc = rev_onto l (x ∷ acc)

rev_onto_twice : {A : Type 0} (l a b : List A) → rev_onto (rev_onto l a) b ≡ rev_onto a (l ++ b)
unfolding rev_onto
rev_onto_twice [] a b = refl
rev_onto_twice (x ∷ l) a b = rev_onto_twice l (x ∷ a) b

rev_onto_inj : {A : Type 0} (l k : List A) → rev_onto l [] ≡ rev_onto k [] → l ≡ k
unfolding rev_onto
rev_onto_inj l k e =
    sym (append-nil l)
    ∙ sym (rev_onto_twice l [] [])
    ∙ ap (λ m. rev_onto m []) e
    ∙ rev_onto_twice k [] []
    ∙ append-nil k

All-rev_onto :
    {A : Type 0} (P : A → Type 0) (l acc : List A) → All P l → All P acc → All P (rev_onto l acc)
unfolding rev_onto
All-rev_onto P [] acc h g = g
All-rev_onto P (x ∷ l) acc h g = All-rev_onto P l (x ∷ acc) h.1 (h.0, g)

All-filter :
    {A : Type 0} (P : A → Type 0) (p : A → Bool) (l : List A) → All P l → All P (filter p l)
All-filter P p [] h = tt
All-filter P p (x ∷ l) h = elim (Bool-cases (p x)) [
  | inl keeps ↦ rw keeps (h.0, All-filter P p l h.1)
  | inr drops ↦ rw drops (All-filter P p l h.1)
]

abbrev pub of_correlation : {P : Type 0} → String → AuditEvent P → Bool
of_correlation c e = e.correlation_id == c

module _ {P : Type 0} (sha256 : Body P → String) where
  -- the hash of the newest event
  abbrev newest : List (AuditEvent P) → Option String
  newest [] = none
  newest (e ∷ older) = e.hash

  -- a chain, the newest event first
  abbrev Linked : List (AuditEvent P) → Type 0
  Linked [] = Unit
  Linked (e ∷ older) =
      (e.prev_hash ≡ newest older) × (e.hash ≡ some (sha256 (body_of e))) × Linked older

  -- an event is its body and its hash
  event_ext : (e f : AuditEvent P) → body_of e ≡ body_of f → e.hash ≡ f.hash → e ≡ f
  event_ext e f same_body same_digest = ground (arith, same_body, same_digest)

  -- No event of the first list has the digest of an event of the second with another body.
  abbrev pub NoCollision : List (AuditEvent P) → List (AuditEvent P) → Type 0
  NoCollision l k =
      All (λ e. All (λ f. sha256 (body_of e) ≡ sha256 (body_of f) → body_of e ≡ body_of f) k) l

  -- of the events of a correlation, in reverse
  NoCollision-rev :
      (c : String) (l k : List (AuditEvent P))
      → NoCollision l k
      → NoCollision
          (rev_onto (filter (of_correlation c) l) [])
          (rev_onto (filter (of_correlation c) k) [])
  NoCollision-rev c l k h =
      let Apart =
        λ (e f : AuditEvent P). sha256 (body_of e) ≡ sha256 (body_of f) → body_of e ≡ body_of f in
      let part = λ (Q : AuditEvent P → Type 0) (m : List (AuditEvent P)) (g : All Q m).
        All-rev_onto Q (filter (of_correlation c) m) [] (All-filter Q (of_correlation c) m g) tt in
      part (λ e. All (Apart e) (rev_onto (filter (of_correlation c) k) [])) l
        (All-imp (λ e. All (Apart e) k)
          (λ e. All (Apart e) (rev_onto (filter (of_correlation c) k) [])) l (λ e. part (Apart e) k)
          h)

  Linked-unique :
      (l k : List (AuditEvent P))
      → NoCollision l k
      → Linked l
      → Linked k
      → newest l ≡ newest k
      → l ≡ k
  Linked-unique [] [] apart hl hk same = refl
  Linked-unique [] (f ∷ k) apart hl hk same = ground (arith, hk, same)
  Linked-unique (e ∷ l) [] apart hl hk same = ground (arith, hl, same)
  Linked-unique (e ∷ l) (f ∷ k) apart hl hk same =
      let digests : sha256 (body_of e) ≡ sha256 (body_of f) = ground (arith, hl, hk, same) in
      let bodies = apart.0.0 digests in
      let rest =
        Linked-unique l k (All-imp _ _ l (λ x. λ h. h.1) apart.1) hl.2 hk.2
          (ground (arith, hl, hk, bodies)) in
      let here = event_ext e f bodies same in cc (here, rest)

  -- the step of `verify` for one event, in a chain of its correlation
  link :
      (last : Dict String) (e : AuditEvent P) (acc : List (AuditEvent P))
      → same_hash e.prev_hash (Dict.get last e.correlation_id) ≡ true
      → check_hash sha256 true e ≡ ok tt
      → Dict.get last e.correlation_id ≡ newest acc
      → Linked acc
      → Linked (e ∷ acc)
  link last e acc prev right same linked = (
    same_hash-eq e.prev_hash (Dict.get last e.correlation_id) prev ∙ same,
    sym (same_hash-eq (some (sha256 (body_of e))) e.hash (ground (arith, right))),
    linked,
  )

  -- what `verify_from` has seen before it goes on
  pub verify_from-first :
      (last : Dict String) (e : AuditEvent P) (l : List (AuditEvent P))
      → verify_from sha256 true last (e ∷ l) ≡ ok tt
      → (same_hash e.prev_hash (Dict.get last e.correlation_id) ≡ true)
        × (check_hash sha256 true e ≡ ok tt)
        × (verify_from sha256 true (remember last e.correlation_id e.hash) l ≡ ok tt)
  unfolding verify_from
  verify_from-first last e l h = (ground (arith, h), ground (arith, h), ground (arith, h))

  pub get-remember :
      (last : Dict String) (correlation c : String) (h : Option String) (d : String)
      → h ≡ some d
      → Dict.get (remember last correlation h) c ≡ (if correlation == c then h else Dict.get last c)
  get-remember last correlation c none d e = ground (arith, e)
  get-remember last correlation c (some h) d e = get-put last correlation c h

  verified-Linked :
      (c : String) (last : Dict String) (l acc : List (AuditEvent P))
      → verify_from sha256 true last l ≡ ok tt
      → Dict.get last c ≡ newest acc
      → Linked acc
      → Linked (rev_onto (filter (of_correlation c) l) acc)
        × (Dict.get (lasts last l) c ≡ newest (rev_onto (filter (of_correlation c) l) acc))
  unfolding rev_onto
  verified-Linked c last [] acc h same linked = (linked, same)
  verified-Linked c last (e ∷ l) acc h same linked =
      let (prev, right, rest) = verify_from-first last e l h in
      let hashed : e.hash ≡ some (sha256 (body_of e)) =
        sym (same_hash-eq (some (sha256 (body_of e))) e.hash (ground (arith, right))) in
      let after = get-remember last e.correlation_id c e.hash (sha256 (body_of e)) hashed in
      elim (Bool-cases (of_correlation c e)) [
        | inl mine ↦
            let name : e.correlation_id ≡ c = (eq_iff e.correlation_id c).0 mine in
            let before : Dict.get last e.correlation_id ≡ newest acc =
              ap (Dict.get last) name ∙ same in
            rw mine (
              verified-Linked c (remember last e.correlation_id e.hash) l (e ∷ acc) rest
                (ground (arith, after, mine)) (link last e acc prev right before linked))
        | inr other ↦ rw other (
            verified-Linked c (remember last e.correlation_id e.hash) l acc rest
              (ground (arith, after, other, same)) linked)
      ]

  -- If two stores with hashes verify, and the hash of the last event of a correlation is the same in both,
  -- then both have the same events of that correlation in the same order, unless an event of the one
  -- and an event of the other have one digest for two bodies: no event can be changed, added, dropped or moved under a last hash that is known.
  pub verify-tamper_evident :
      (c : String) (s t : AuditStore P) (n m : ℕ)
      → NoCollision s.events t.events
      → s.hash_chain ≡ true
      → t.hash_chain ≡ true
      → verify sha256 s ≡ ok n
      → verify sha256 t ≡ ok m
      → Dict.get (lasts Dict.empty s.events) c ≡ Dict.get (lasts Dict.empty t.events) c
      → filter (of_correlation c) s.events ≡ filter (of_correlation c) t.events
  unfolding verify
  verify-tamper_evident c s t n m apart cs ct vs vt same =
      let fs : verify_from sha256 true Dict.empty s.events ≡ ok tt = ground (arith, cs, vs) in
      let ft : verify_from sha256 true Dict.empty t.events ≡ ok tt = ground (arith, ct, vt) in
      let (ls, es) = verified-Linked c Dict.empty s.events [] fs (get-empty c) tt in
      let (lt, et) = verified-Linked c Dict.empty t.events [] ft (get-empty c) tt in
      rev_onto_inj (filter (of_correlation c) s.events) (filter (of_correlation c) t.events) (
        Linked-unique (rev_onto (filter (of_correlation c) s.events) [])
          (rev_onto (filter (of_correlation c) t.events) [])
          (NoCollision-rev c s.events t.events apart) ls lt (sym es ∙ same ∙ et))
