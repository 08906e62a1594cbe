-- ===== src/Resilience/Idempotency/Laws.antt =====
-- What a caller of the idempotency store sees: a request runs once, and its outcome is replayed.
use agent_roi.Base.{
  ℕ, ◌+◌, ◌≤◌, String, ◌≡◌, ◌≢◌, false, none, some, List, arith, eq_iff, eq_refl, ltb, max, find,
  ◌||◌, ◌∙◌, ap, ◌⊎◌, refl,
}
use agent_roi.Base.Text.{is_blank}
use agent_roi.Result.{ok, err}
use agent_roi.Table.{
  update, insert, find-none_of, find-delete_keep, find-update, find_hit, find-insert_hit,
}
use agent_roi.Resilience.Idempotency.{
  IdempotencyRecord, pending, completed, failed, started, was_completed, was_failed, conflict,
  in_progress, has_key, has_pending, purge, begin, complete, fail, set_completed, set_failed,
}

module _ {V : Type 0} (ns k : String) where
  -- While the record of the key lives, an attempt with another digest is a conflict, whatever the
  -- status, and leaves the table alone; one with the same digest is refused while the record is pending
  -- and gets the stored response or error once it is settled, and the only change is the purge.
  pub begin-known :
      (t : List (IdempotencyRecord V)) (r : IdempotencyRecord V) (digest : String) (ttl now : ℕ)
      → is_blank ns || is_blank k ≡ false
      → find (has_key ns k) (purge now t) ≡ some r
      → (r.request_digest ≢ digest → begin ns k digest ttl now t ≡ (err conflict, t))
        × (r.request_digest ≡ digest
            → r.status ≡ pending
            → begin ns k digest ttl now t ≡ (err in_progress, t))
        × (r.request_digest ≡ digest
            → r.status ≡ completed
            → begin ns k digest ttl now t ≡ (ok (was_completed r.response), purge now t))
        × (r.request_digest ≡ digest
            → r.status ≡ failed
            → begin ns k digest ttl now t ≡ (ok (was_failed r.error_text), purge now t))
  unfolding begin
  begin-known t r digest ttl now h e = (
    λ ne. ground (arith, eq_iff r.request_digest digest),
    λ d s. ground (arith, eq_iff r.request_digest digest),
    λ d s. ground (arith, eq_iff r.request_digest digest),
    λ d s. ground (arith, eq_iff r.request_digest digest),
  )

  abbrev pub row : String → ℕ → ℕ → IdempotencyRecord V
  row digest ttl now = record {
    namespace = ns;
    key = k;
    request_digest = digest;
    status = pending;
    response = none;
    error_text = "";
    expires_at = now + max 1 ttl;
  }

  begin-new :
      (t : List (IdempotencyRecord V)) (digest : String) (ttl now : ℕ)
      → is_blank ns || is_blank k ≡ false
      → find (has_key ns k) (purge now t) ≡ none
      → begin ns k digest ttl now t ≡ (ok started, insert (row digest ttl now) (purge now t))
  unfolding begin
  begin-new t digest ttl now h e = ground arith

  -- What an attempt can do to the table.
  pub begin_table :
      (t : List (IdempotencyRecord V)) (digest : String) (ttl now : ℕ)
      → ((begin ns k digest ttl now t).1 ≡ t)
        ⊎ ((begin ns k digest ttl now t).1 ≡ purge now t)
        ⊎ ((find (has_key ns k) (purge now t) ≡ none)
            × ((begin ns k digest ttl now t).1 ≡ insert (row digest ttl now) (purge now t)))
  unfolding begin
  begin_table t digest ttl now = ground arith

  find-row :
      (t : List (IdempotencyRecord V)) (digest : String) (ttl now : ℕ)
      → find (has_key ns k) t ≡ none
      → (find (has_key ns k) (insert (row digest ttl now) t) ≡ some (row digest ttl now))
        × (find (has_pending ns k) (insert (row digest ttl now) t) ≡ some (row digest ttl now))
  find-row t digest ttl now e = (
    find-insert_hit (has_key ns k) (row digest ttl now) t e (ground (arith, eq_refl ns, eq_refl k)),
    find-insert_hit (has_pending ns k) (row digest ttl now) t
        (find-none_of (has_pending ns k) (has_key ns k) t (λ r h. ground arith) e)
        (ground (arith, eq_refl ns, eq_refl k)),
  )

  find_settled :
      (f : IdempotencyRecord V → IdempotencyRecord V)
      → ((r : IdempotencyRecord V) → has_key ns k (f r) ≡ has_key ns k r)
      → (t : List (IdempotencyRecord V)) (r : IdempotencyRecord V) → find (has_key ns k) t ≡ some r
      → r.status ≡ pending
      → find (has_key ns k) (update (has_pending ns k) f t) ≡ some (f r)
  find_settled f keep t r e s =
      find-update (has_pending ns k) (has_key ns k) f t (λ x h. keep x)
      ∙ ground (arith, e, find_hit (has_key ns k) t r e)

  find_live :
      (t : List (IdempotencyRecord V)) (r : IdempotencyRecord V) (later : ℕ)
      → find (has_key ns k) t ≡ some r
      → later ≤ r.expires_at
      → find (has_key ns k) (purge later t) ≡ some r
  find_live t r later e alive =
      find-delete_keep (λ x. ltb x.expires_at later) (has_key ns k) t r e (ground arith)

  complete_pending :
      (t : List (IdempotencyRecord V)) (r : IdempotencyRecord V) (v : V)
      → find (has_pending ns k) t ≡ some r
      → complete ns k v t ≡ (ok tt, update (has_pending ns k) (set_completed v) t)
  unfolding complete
  complete_pending t r v e = rw e

  fail_pending :
      (t : List (IdempotencyRecord V)) (r : IdempotencyRecord V) (m : String)
      → find (has_pending ns k) t ≡ some r
      → fail ns k m t ≡ (ok tt, update (has_pending ns k) (set_failed m) t)
  unfolding fail
  fail_pending t r m e = rw e

  -- One request, from start to replay. Where no record of the key lives, the first attempt starts and a
  -- second one meanwhile is refused. After `complete` or `fail`, an attempt with the same digest gets
  -- the response or the error, until the record expires.
  pub begin_replay :
      (t : List (IdempotencyRecord V)) (digest e : String) (v : V) (ttl ttl' now later : ℕ)
      → is_blank ns || is_blank k ≡ false
      → find (has_key ns k) (purge now t) ≡ none
      → later ≤ now + max 1 ttl
      → let (r, t₁) = begin ns k digest ttl now t in
        (r ≡ ok started)
        × ((begin ns k digest ttl' later t₁).0 ≡ err in_progress)
        × ((complete ns k v t₁).0 ≡ ok tt)
        × ((begin ns k digest ttl' later (complete ns k v t₁).1).0 ≡ ok (was_completed (some v)))
        × ((fail ns k e t₁).0 ≡ ok tt)
        × ((begin ns k digest ttl' later (fail ns k e t₁).1).0 ≡ ok (was_failed e))
  unfolding set_completed set_failed
  begin_replay t digest e v ttl ttl' now later h miss alive =
      let r : IdempotencyRecord V = row digest ttl now in
      let t₁ : List (IdempotencyRecord V) = insert r (purge now t) in
      let (found, waiting) = find-row (purge now t) digest ttl now miss in
      let done : List (IdempotencyRecord V) = update (has_pending ns k) (set_completed v) t₁ in
      let lost : List (IdempotencyRecord V) = update (has_pending ns k) (set_failed e) t₁ in
      let found_done = find_settled (set_completed v) (λ x. refl) t₁ r found refl in
      let found_lost = find_settled (set_failed e) (λ x. refl) t₁ r found refl in
      rw (begin-new t digest ttl now h miss) (
        rw (complete_pending t₁ r v waiting, fail_pending t₁ r e waiting)
          (
            refl,
            ap (λ x. x.0)
                ((begin-known t₁ r digest ttl' later h (find_live t₁ r later found alive)).1 refl
                  refl),
            refl,
            ap (λ x. x.0)
                ((begin-known done (set_completed v r) digest ttl' later h
                    (find_live done (set_completed v r) later found_done alive)).2
                  refl refl),
            refl,
            ap (λ x. x.0)
                ((begin-known lost (set_failed e r) digest ttl' later h
                    (find_live lost (set_failed e r) later found_lost alive)).3
                  refl refl),
          ))
