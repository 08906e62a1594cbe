-- ===== src/Resilience/Retry/Attempts.antt =====
-- Which attempt of `retry_call` gives its outcome, and how many there are.
use agent_roi.Base.{
  ℕ, zero, suc, ◌+◌, ◌-◌, sym, ◌∙◌, ◌≤◌, ◌<◌, ◌≡◌, true, false, not, ◌||◌, arith, inl, inr,
  Bool-cases, leb, ◌⊎◌,
}
use mathlib.Core.Path.{subst}
use agent_roi.Result.{Result, ok, err, is_ok, Exec, Result-cases}
use agent_roi.Resilience.Retry.{RetryPolicy, retry_from, retry_call}

-- An outcome after which the loop goes on, if attempts are left.
abbrev pub IsRetryable : {F X A : Type 0} → RetryPolicy F X → Result X A → Type 0
IsRetryable p (ok a) = ⊥
IsRetryable p (err e) = p.retryable e ≡ true

module _ {X A W : Type 0} (wait : ℕ → Exec X W (Unit {0})) (fn : Exec X W A) where
  -- The world as attempt `attempt + k` finds it, when attempt number `attempt` finds `w`.
  abbrev pub before : ℕ → ℕ → W → W
  before attempt zero w = w
  before attempt (suc k) w = before (suc attempt) k (wait attempt (fn w).1).1

  -- what the wait behind that attempt does
  abbrev pub pause : ℕ → ℕ → W → Result X (Unit {0}) × W
  pause attempt zero w = wait attempt (fn w).1
  pause attempt (suc k) w = pause (suc attempt) k (wait attempt (fn w).1).1

module _ {F X A W : Type 0} (unreachable : X) (wait : ℕ → Exec X W (Unit {0})) (p : RetryPolicy F X)
    (fn : Exec X W A) where
  -- All attempts before attempt `k` failed in a way that is retried, and no wait behind them raised.
  pub IsReached : ℕ → ℕ → W → Type 0
  IsReached attempt k w =
      (j : ℕ)
      → j < k
      → IsRetryable p (fn (before wait fn attempt j w)).0
        × (is_ok (pause wait fn attempt j w).0 ≡ true)

  -- Attempt `k` gives the outcome; it is the last one that the policy allows, if it is to be retried.
  pub record IsLast (attempt k : ℕ) (w : W) (outcome : Result X A × W) : Type 0 where
    pub same : outcome ≡ fn (before wait fn attempt k w)
    pub done : IsRetryable p (fn (before wait fn attempt k w)).0 → attempt + k ≡ p.max_attempts

  -- Attempt `k` is to be retried and not the last one, and the wait behind it raises.
  pub record IsCut (attempt k : ℕ) (w : W) (outcome : Result X A × W) : Type 0 where
    pub failed : IsRetryable p (fn (before wait fn attempt k w)).0
    pub more : attempt + k < p.max_attempts
    pub error : X
    pub raises : (pause wait fn attempt k w).0 ≡ err error
    pub same : outcome ≡ (err error, (pause wait fn attempt k w).1)

  IsReached-here : (attempt : ℕ) (w : W) → IsReached attempt 0 w
  unfolding IsReached
  IsReached-here attempt w j lt = absurd (omega (arith, lt))

  IsReached-later :
      (attempt k : ℕ) (w : W)
      → IsRetryable p (fn w).0
      → is_ok (wait attempt (fn w).1).0 ≡ true
      → IsReached (suc attempt) k (wait attempt (fn w).1).1
      → IsReached attempt (suc k) w
  unfolding IsReached
  IsReached-later attempt k w r q l zero lt = (r, q)
  IsReached-later attempt k w r q l (suc j) lt = l j (omega (arith, lt))

  -- What the loop does from attempt `attempt` on.
  abbrev Ends : ℕ → ℕ → W → Type 0
  Ends left attempt w =
      (k : ℕ) × (k < left)
      × IsReached attempt k w
      × (IsLast attempt k w (retry_from unreachable wait p fn left attempt w)
          ⊎ IsCut attempt k w (retry_from unreachable wait p fn left attempt w))

  retry_from-ok :
      (left attempt : ℕ) (w : W) (a : A)
      → (fn w).0 ≡ ok a
      → retry_from unreachable wait p fn (suc left) attempt w ≡ fn w
  unfolding retry_from
  retry_from-ok left attempt w a e = ground arith

  retry_from-stop :
      (left attempt : ℕ) (w : W) (x : X)
      → (fn w).0 ≡ err x
      → leb p.max_attempts attempt || not (p.retryable x) ≡ true
      → retry_from unreachable wait p fn (suc left) attempt w ≡ fn w
  unfolding retry_from
  retry_from-stop left attempt w x e stop = ground arith

  retry_from-cut :
      (left attempt : ℕ) (w : W) (x y : X)
      → (fn w).0 ≡ err x
      → leb p.max_attempts attempt || not (p.retryable x) ≡ false
      → (wait attempt (fn w).1).0 ≡ err y
      → retry_from unreachable wait p fn (suc left) attempt w ≡ (err y, (wait attempt (fn w).1).1)
  unfolding retry_from
  retry_from-cut left attempt w x y e more raises = ground arith

  retry_from-again :
      (left attempt : ℕ) (w : W) (x : X) (u : Unit {0})
      → (fn w).0 ≡ err x
      → leb p.max_attempts attempt || not (p.retryable x) ≡ false
      → (wait attempt (fn w).1).0 ≡ ok u
      → retry_from unreachable wait p fn (suc left) attempt w
        ≡ retry_from unreachable wait p fn left (suc attempt) (wait attempt (fn w).1).1
  unfolding retry_from
  retry_from-again left attempt w x u e more waited = ground arith

  not-IsRetryable_ok : (r : Result X A) (a : A) → r ≡ ok a → ¬ IsRetryable p r
  not-IsRetryable_ok (ok b) a e = λ h. h
  not-IsRetryable_ok (err x) a e = cc

  retryable_of : (r : Result X A) (x : X) → r ≡ err x → IsRetryable p r → p.retryable x ≡ true
  retryable_of (ok b) x e h = absurd h
  retryable_of (err y) x e h = ground arith

  IsRetryable-of : (r : Result X A) (x : X) → r ≡ err x → p.retryable x ≡ true → IsRetryable p r
  IsRetryable-of (ok b) x e h = cc
  IsRetryable-of (err y) x e h = ground arith

  Ends-ok : (left attempt : ℕ) (w : W) (a : A) → (fn w).0 ≡ ok a → Ends (suc left) attempt w
  Ends-ok left attempt w a e = (
    0,
    omega arith,
    IsReached-here attempt w,
    inl (record {
      same = retry_from-ok left attempt w a e;
      done = λ r. absurd (not-IsRetryable_ok (fn w).0 a e r);
    }),
  )

  Ends-stop :
      (left attempt : ℕ) (w : W) (x : X)
      → attempt + left ≡ p.max_attempts
      → (fn w).0 ≡ err x
      → leb p.max_attempts attempt || not (p.retryable x) ≡ true
      → Ends (suc left) attempt w
  Ends-stop left attempt w x h e stop = (
    0,
    omega arith,
    IsReached-here attempt w,
    inl (record {
      same = retry_from-stop left attempt w x e stop;
      done = λ r. ground (arith, retryable_of (fn w).0 x e r);
    }),
  )

  Ends-cut :
      (left attempt : ℕ) (w : W) (x y : X)
      → (fn w).0 ≡ err x
      → leb p.max_attempts attempt || not (p.retryable x) ≡ false
      → (wait attempt (fn w).1).0 ≡ err y
      → Ends (suc left) attempt w
  Ends-cut left attempt w x y e go raises = (
    0,
    omega arith,
    IsReached-here attempt w,
    inr (record {
      failed = IsRetryable-of (fn w).0 x e (ground arith);
      more = ground arith;
      error = y;
      raises = raises;
      same = retry_from-cut left attempt w x y e go raises;
    }),
  )

  Ends-again :
      (left attempt : ℕ) (w : W) (x : X) (u : Unit {0})
      → (fn w).0 ≡ err x
      → leb p.max_attempts attempt || not (p.retryable x) ≡ false
      → (wait attempt (fn w).1).0 ≡ ok u
      → Ends left (suc attempt) (wait attempt (fn w).1).1
      → Ends (suc left) attempt w
  Ends-again left attempt w x u e go waited (k, lt, reached, outcome) =
      let step = retry_from-again left attempt w x u e go waited in
      let quiet : is_ok (wait attempt (fn w).1).0 ≡ true = ground (arith, waited) in
      (
        suc k,
        omega (arith, lt),
        IsReached-later attempt k w (IsRetryable-of (fn w).0 x e (ground arith)) quiet reached,
        elim outcome [
          | inl l ↦ inl (record { same = step ∙ l.same; done = λ q. omega (arith, l.done q) })
          | inr c ↦ inr (record {
            failed = c.failed;
            more = omega (arith, c.more);
            error = c.error;
            raises = c.raises;
            same = step ∙ c.same;
          })
        ],
      )

  ends : (left attempt : ℕ) (w : W) → attempt + left ≡ p.max_attempts → Ends (suc left) attempt w
  ends zero attempt w h = elim (Result-cases (fn w).0) [
    | inl (a, e) ↦ Ends-ok 0 attempt w a e
    | inr (x, e) ↦ Ends-stop 0 attempt w x h e (ground arith)
  ]
  ends (suc left) attempt w h =
      let rest = ends left (suc attempt) (wait attempt (fn w).1).1 (omega arith) in
      elim (Result-cases (fn w).0) [
        | inl (a, e) ↦ Ends-ok (suc left) attempt w a e
        | inr (x, e) ↦ elim (Bool-cases (leb p.max_attempts attempt || not (p.retryable x))) [
          | inl stop ↦ Ends-stop (suc left) attempt w x h e stop
          | inr go ↦ elim (Result-cases (wait attempt (fn w).1).0) [
            | inl (u, waited) ↦ Ends-again (suc left) attempt w x u e go waited rest
            | inr (y, raises) ↦ Ends-cut (suc left) attempt w x y e go raises
          ]
        ]
      ]

  -- A policy of at least one attempt makes at most `max_attempts` calls, and `retry_call` never falls
  -- through its loop: there is an attempt before which all attempts failed with exceptions that the
  -- policy retries, and all waits went well, such that `retry_call` does what this attempt does, and
  -- if it is to be retried too it was attempt number `max_attempts`; or it is to be retried, attempts
  -- are left, the wait behind it raises (an overflow in the delay, say) and `retry_call` raises that.
  pub retry_call-IsLast :
      (w : W)
      → 1 ≤ p.max_attempts
      → (k : ℕ) × (k < p.max_attempts)
        × IsReached 1 k w
        × (IsLast 1 k w (retry_call unreachable wait p fn w)
            ⊎ IsCut 1 k w (retry_call unreachable wait p fn w))
  unfolding retry_call
  retry_call-IsLast w h =
      let e : p.max_attempts ≡ suc (p.max_attempts - 1) = omega arith in
      let (k, lt, reached, outcome) = ends (p.max_attempts - 1) 1 w (omega arith) in
      (
        k,
        omega (arith, lt),
        reached,
        subst
            (λ n.
              IsLast 1 k w (retry_from unreachable wait p fn n 1 w)
              ⊎ IsCut 1 k w (retry_from unreachable wait p fn n 1 w))
            (sym e) outcome,
      )

module _ {F X A W : Type 0} (P : W → Type 0) (wait : ℕ → Exec X W (Unit {0})) (p : RetryPolicy F X)
    (fn : Exec X W A) (call_keeps : (w : W) → P w → P (fn w).1)
    (wait_keeps : (n : ℕ) (w : W) → P w → P (wait n w).1) where
  retry_from_keeps :
      (unreachable : X) (left attempt : ℕ) (w : W)
      → P w
      → P (retry_from unreachable wait p fn left attempt w).1
  retry_from_keeps unreachable zero attempt w h = unfold retry_from in h
  retry_from_keeps unreachable (suc left) attempt w h =
      let paused = wait_keeps attempt (fn w).1 (call_keeps w h) in
      let rest = retry_from_keeps unreachable left (suc attempt) (wait attempt (fn w).1).1 paused in
      elim (Result-cases (fn w).0) [
        | inl (a, e) ↦ rw (retry_from-ok unreachable wait p fn left attempt w a e) (call_keeps w h)
        | inr (x, e) ↦ elim (Bool-cases (leb p.max_attempts attempt || not (p.retryable x))) [
          | inl stop ↦
              rw (retry_from-stop unreachable wait p fn left attempt w x e stop) (call_keeps w h)
          | inr more ↦ elim (Result-cases (wait attempt (fn w).1).0) [
            | inl (u, waited) ↦
                rw (retry_from-again unreachable wait p fn left attempt w x u e more waited) rest
            | inr (y, raises) ↦
                rw (retry_from-cut unreachable wait p fn left attempt w x y e more raises) paused
          ]
        ]
      ]

  -- What each attempt and each wait keep, the whole loop keeps.
  pub retry_call_keeps : (unreachable : X) (w : W) → P w → P (retry_call unreachable wait p fn w).1
  unfolding retry_call
  retry_call_keeps unreachable w h = retry_from_keeps unreachable p.max_attempts 1 w h
