-- ===== src/Resilience/Idempotency/Invariant.antt =====
-- The primary key of `idempotency_records`: what the store writes never breaks it.
use agent_roi.Base.{
  ℕ, ◌≤◌, String, ◌≡◌, none, List, arith, eq_iff, count, find, refl, inl, inr, ltb,
}
use agent_roi.Table.{count-insert, count-update, count-delete-le, count-none, insert}
use agent_roi.Resilience.Idempotency.{
  IdempotencyRecord, has_key, has_pending, purge, begin, complete, fail, set_completed, set_failed,
}
use agent_roi.Resilience.Idempotency.Laws.{row, begin_table}

module _ {V : Type 0} where
  -- at most one record for each namespace and key
  abbrev pub IsKeyed : List (IdempotencyRecord V) → Type 0
  IsKeyed t = (ns k : String) → count (has_key ns k) t ≤ 1

  purge-IsKeyed : (now : ℕ) (t : List (IdempotencyRecord V)) → IsKeyed t → IsKeyed (purge now t)
  purge-IsKeyed now t h ns k =
      omega (arith, count-delete-le (λ r. ltb r.expires_at now) (has_key ns k) t, h ns k)

  insert-IsKeyed :
      (ns k digest : String) (ttl now : ℕ) (t : List (IdempotencyRecord V))
      → IsKeyed t
      → find (has_key ns k) t ≡ none
      → IsKeyed (insert (row ns k digest ttl now) t)
  insert-IsKeyed ns k digest ttl now t h miss ns' k' = ground (
    arith,
    count-insert (has_key ns' k') (row ns k digest ttl now) t,
    h ns' k',
    count-none (has_key ns k) t miss,
    eq_iff ns ns',
    eq_iff k k',
  )

  begin-IsKeyed :
      (ns k digest : String) (ttl now : ℕ) (t : List (IdempotencyRecord V))
      → IsKeyed t
      → IsKeyed (begin ns k digest ttl now t).1
  begin-IsKeyed ns k digest ttl now t h = elim (begin_table ns k t digest ttl now) [
    | inl same ↦ rw same h
    | inr (inl purged) ↦ rw purged (purge-IsKeyed now t h)
    | inr (inr (miss, inserted)) ↦
        rw inserted (insert-IsKeyed ns k digest ttl now (purge now t) (purge-IsKeyed now t h) miss)
  ]

  complete-IsKeyed :
      (ns k : String) (v : V) (t : List (IdempotencyRecord V))
      → IsKeyed t
      → IsKeyed (complete ns k v t).1
  unfolding complete
  complete-IsKeyed ns k v t h ns' k' = ground (
    arith,
    count-update (has_pending ns k) (has_key ns' k') (set_completed v) t (λ r p. refl),
    h ns' k',
  )

  fail-IsKeyed :
      (ns k e : String) (t : List (IdempotencyRecord V)) → IsKeyed t → IsKeyed (fail ns k e t).1
  unfolding fail
  fail-IsKeyed ns k e t h ns' k' = ground (
    arith,
    count-update (has_pending ns k) (has_key ns' k') (set_failed e) t (λ r p. refl),
    h ns' k',
  )

  -- Every operation of the store, whether it returns or raises, keeps at most one record for each
  -- namespace and key.
  pub store-IsKeyed :
      (ns k digest e : String) (v : V) (ttl now : ℕ) (t : List (IdempotencyRecord V))
      → IsKeyed t
      → IsKeyed (begin ns k digest ttl now t).1
        × IsKeyed (complete ns k v t).1
        × IsKeyed (fail ns k e t).1
  store-IsKeyed ns k digest e v ttl now t h =
      (begin-IsKeyed ns k digest ttl now t h, complete-IsKeyed ns k v t h, fail-IsKeyed ns k e t h)
