-- ===== src/Context/Execute.antt =====
-- `_execute_sync` of runtime/context.py: idempotency, retries, the circuit breaker and the handler.
use agent_roi.Base.{ℕ, String, Bool, true, Option, none, some, List, ◌==◌, if◌then◌else◌}
use agent_roi.Base.Text.{strip}
use agent_roi.Result.{Result, ok, err, Exec}
use agent_roi.Float.{Float}
use agent_roi.Exec.{pure, raise, ◌>>◌}
use agent_roi.Resilience.Retry.{RetryPolicy, delay, retry_call}
use agent_roi.Resilience.Breaker.{CallError, raised, call}
use agent_roi.Resilience.Idempotency.{
  IdempotencyRecord, IdempotencyError, IdempotencyResult, started, was_completed, was_failed,
  prepare, complete, fail,
}
use agent_roi.Tools.Spec.{IdempotencyPolicy}
use agent_roi.Context.Types.{
  emitter_raised, callback_raised, Digests, Env, Run, ToolError, previous_failed, awaitable_result,
  idempotency, call_failed, Prepared, Method,
}

-- `breakers[name] = b`
abbrev pub assign : {B : Type 0} → (String → B) → String → B → String → B
assign f name b other = if name == other then b else f other

-- What the interpreter tells about values and exceptions: `inspect.isawaitable`, an instance of
-- `Exception`, the text that is stored for a failure, and the value that a completed record gives back.
pub record Values (F V X : Type 0) : Type 1 where
  pub is_awaitable : V → Bool
  pub is_exception : X → Bool
  pub describe : ToolError F X → String
  pub replay : Option V → V
  -- the `AssertionError` behind the retry loop
  pub unreachable : X
  -- the `OverflowError` of a wait
  pub overflow : X

-- an instance of `Exception`: all errors of this package are
abbrev pub is_exception : {F V X : Type 0} → Values F V X → ToolError F X → Bool
is_exception values (call_failed (raised x)) = values.is_exception x
is_exception values (emitter_raised x) = values.is_exception x
is_exception values (callback_raised x) = values.is_exception x
is_exception values _ = true

module _ (fl : Float) {A V X W : Type 0} (digests : Digests fl.F A) (env : Env fl.F W)
    (values : Values fl.F V X) where
  open fl use {F}

  -- `raw_call`: the handler alone
  unfoldable pub raw_call : Prepared F A V X W → List (String × A) → Exec X W V
  raw_call p kwargs = p.handler.run p.args kwargs

  -- `protected_call`: through the circuit breaker of the tool, if it has one
  unfoldable pub protected_call :
      Prepared F A V X W → List (String × A) → Exec (CallError X) (Run F V W) V
  unfolding raw_call
  protected_call p kwargs r =
      let plain : Result (CallError X) V × Run F V W =
        (let (result, w) = raw_call p kwargs r.world in
          (elim result [ ok v ↦ ok v | err x ↦ err (raised x) ], record r { world = w })) in
      elim p.spec [
        | none ↦ plain
        | some spec ↦
            if spec.circuit_breaker
            then (let later = env.monotonic (raw_call p kwargs r.world).1 in
                let (result, (b, w)) =
                  call (env.monotonic r.world) later (raw_call p kwargs)
                    (r.breakers spec.name, r.world) in
                (result, record r { breakers = assign r.breakers spec.name b; world = w }))
            else plain
      ]

  -- `time.sleep(policy.delay(attempt))`
  abbrev pub sleeping : RetryPolicy F (CallError X) → ℕ → Exec (CallError X) (Run F V W) (Unit {0})
  sleeping policy attempt r = elim (delay fl policy attempt (env.random r.world)) [
    | none ↦ (err (raised values.overflow), r)
    | some seconds ↦
        let (slept, w) = env.sleep seconds r.world in
        (if slept then ok tt else err (raised values.overflow), record r { world = w })
  ]

  -- through the retry loop, if the tool has a policy
  unfoldable pub retrying :
      Option (RetryPolicy F (CallError X))
      → Exec (CallError X) (Run F V W) V
      → Exec (CallError X) (Run F V W) V
  retrying none fn = fn
  retrying (some policy) fn = retry_call (raised values.unreachable) (sleeping policy) policy fn

  unfoldable pub attempts :
      Prepared F A V X W → List (String × A) → Exec (CallError X) (Run F V W) V
  attempts p kwargs =
      retrying (elim p.spec [ none ↦ none | some spec ↦ spec.retry_policy ])
        (protected_call p kwargs)

  -- the body of the `try`: an awaitable result is refused
  unfoldable pub guarded : Prepared F A V X W → List (String × A) → Method F X V W V
  guarded p kwargs r =
      let (result, r') = attempts p kwargs r in
      elim result [
        | err x ↦ (err (call_failed x), r')
        | ok v ↦ if values.is_awaitable v then (err awaitable_result, r') else (ok v, r')
      ]

  -- an operation of the idempotency store on the shared table
  abbrev on_records :
      {B : Type 0} → Exec IdempotencyError (List (IdempotencyRecord V)) B → Method F X V W B
  on_records m r =
      let (result, t) = m r.records in
      let r' = record r { records = t } in
      elim result [ ok b ↦ (ok b, r') | err e ↦ (err (idempotency e), r') ]

  -- what happens to the record of a call that was started
  unfoldable pub settle_record :
      IdempotencyPolicy A → String → Result (ToolError F X) V → Method F X V W V
  settle_record policy key (ok v) = do on_records (complete policy.namespace key v); pure v
  settle_record policy key (err e) =
      if is_exception values e
      then (do on_records (fail policy.namespace key (values.describe e)); raise e)
      else raise e

  -- a finished record answers in place of the handler
  unfoldable pub on_begin :
      IdempotencyPolicy A
      → String
      → Prepared F A V X W
      → List (String × A)
      → IdempotencyResult V
      → Method F X V W V
  on_begin policy key p kwargs (was_completed v) = pure (values.replay v)
  on_begin policy key p kwargs (was_failed e) = raise (previous_failed e)
  on_begin policy key p kwargs started =
      λ s. let (result, s') = guarded p kwargs s in settle_record policy key result s'

  unfoldable pub after_prepare :
      IdempotencyPolicy A
      → String
      → Prepared F A V X W
      → List (String × A)
      → Result IdempotencyError (IdempotencyResult V)
      → Method F X V W V
  after_prepare policy key p kwargs (ok found) = on_begin policy key p kwargs found
  after_prepare policy key p kwargs (err e) = raise (idempotency e)

  unfoldable pub idempotent_call :
      IdempotencyPolicy A → Prepared F A V X W → List (String × A) → Method F X V W V
  idempotent_call policy p kwargs r =
      let key = policy.key_factory p.args kwargs in
      let digest = digests.arguments p.args kwargs in
      let (found, t) =
        prepare policy.namespace policy.ttl_seconds key digest (env.utc r.world) r.records in
      after_prepare policy (strip key) p kwargs found (record r { records = t })

  unfoldable pub with_policy :
      Option (IdempotencyPolicy A) → Prepared F A V X W → List (String × A) → Method F X V W V
  with_policy none = guarded
  with_policy (some policy) = idempotent_call policy

  -- `_execute_sync`
  unfoldable pub execute_sync : Prepared F A V X W → List (String × A) → Method F X V W V
  execute_sync p kwargs =
      with_policy (elim p.spec [ none ↦ none | some spec ↦ spec.idempotency_policy ]) p kwargs
