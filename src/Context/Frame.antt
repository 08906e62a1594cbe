-- ===== src/Context/Frame.antt =====
-- What the parts of a tool call leave alone.
use agent_roi.Base.{String, ◌≡◌, Option, none, some, List, arith}
use agent_roi.Base.Text.{strip}
use agent_roi.Result.{Result, ok, err}
use agent_roi.Float.{Float}
use agent_roi.Resilience.Retry.Attempts.{retry_call_keeps}
use agent_roi.Resilience.Retry.{RetryPolicy}
use agent_roi.Resilience.Idempotency.{
  IdempotencyResult, IdempotencyError, prepare, was_completed, was_failed, started,
}
use agent_roi.Resilience.Breaker.{CallError, raised}
use agent_roi.Tools.Spec.{ToolSpec, IdempotencyPolicy}
use agent_roi.Context.Types.{Digests, Controls, Env, Run, ToolError, Prepared, Checkpoint}
use agent_roi.Context.Resolve.{authorize_access}
use agent_roi.Context.Prepare.{authorize, seek_approval}
use agent_roi.Context.Execute.{after_prepare}
use agent_roi.Context.Execute.{
  Values, sleeping, protected_call, retrying, attempts, guarded, settle_record, on_begin,
  idempotent_call, with_policy, execute_sync,
}

-- The counters and the trail of `s` are those of `r`.
pub record SameFrame {F V W : Type 0} (r s : Run F V W) : Type 0 where
  pub steps : s.steps ≡ r.steps
  pub tool_calls : s.tool_calls ≡ r.tool_calls
  pub cost : s.cost ≡ r.cost
  pub events : s.events ≡ r.events

-- The counters of `s` are those of `r`; the trail may have grown.
pub record SameCounters {F V W : Type 0} (r s : Run F V W) : Type 0 where
  pub steps : s.steps ≡ r.steps
  pub tool_calls : s.tool_calls ≡ r.tool_calls
  pub cost : s.cost ≡ r.cost

module _ (fl : Float) {A V X W : Type 0} (c : Controls fl.F A V X W) where
  pub authorize_access-SameCounters :
      (name : String) (spec : Option (ToolSpec fl.F A V X W)) (r : Run fl.F V W)
      → SameCounters r (authorize_access fl c name spec r).1
  unfolding authorize_access
  authorize_access-SameCounters name spec r = ground arith

module _ (fl : Float) {A V X W : Type 0} (digests : Digests fl.F A) (env : Env fl.F W)
    (c : Controls fl.F A V X W) where
  pub authorize-SameCounters :
      (spec : Option (ToolSpec fl.F A V X W)) (args : List A) (kwargs : List (String × A))
      (cp : Option (Checkpoint fl.F)) (r : Run fl.F V W)
      → SameCounters r (authorize fl digests env c spec args kwargs cp r).1
  unfolding authorize seek_approval
  authorize-SameCounters spec args kwargs cp r = ground arith

module _ (fl : Float) {A V X W : Type 0} (digests : Digests fl.F A) (env : Env fl.F W)
    (values : Values fl.F V X) (p : Prepared fl.F A V X W) (kwargs : List (String × A)) where
  protected_call-SameFrame :
      (r₀ r : Run fl.F V W)
      → SameFrame r₀ r
      → SameFrame r₀ (protected_call fl digests env values p kwargs r).1
  unfolding protected_call
  protected_call-SameFrame r₀ r h = ground arith

  retrying-SameFrame :
      (policy : Option (RetryPolicy fl.F (CallError X))) (r : Run fl.F V W)
      → SameFrame r
          (retrying fl digests env values policy
            (protected_call fl digests env values p kwargs)
            r).1
  unfolding retrying
  retrying-SameFrame none r = protected_call-SameFrame r r (ground arith)
  retrying-SameFrame (some policy) r =
      retry_call_keeps (SameFrame r) (sleeping fl digests env values policy) policy
        (protected_call fl digests env values p kwargs) (protected_call-SameFrame r)
        (λ n s h. ground arith) (raised values.unreachable) r (ground arith)

  guarded-SameFrame : (r : Run fl.F V W) → SameFrame r (guarded fl digests env values p kwargs r).1
  unfolding guarded attempts
  guarded-SameFrame r =
      ground
        (arith, retrying-SameFrame (elim p.spec [ none ↦ none | some spec ↦ spec.retry_policy ]) r)

  settle_record-SameFrame :
      (policy : IdempotencyPolicy A) (key : String) (result : Result (ToolError fl.F X) V)
      (r : Run fl.F V W)
      → SameFrame r (settle_record fl digests env values policy key result r).1
  unfolding settle_record
  settle_record-SameFrame policy key (ok v) r = ground arith
  settle_record-SameFrame policy key (err e) r = ground arith

  on_begin-SameFrame :
      (policy : IdempotencyPolicy A) (key : String) (found : IdempotencyResult V) (r : Run fl.F V W)
      → SameFrame r (on_begin fl digests env values policy key p kwargs found r).1
  unfolding on_begin
  on_begin-SameFrame policy key (was_completed v) r = ground arith
  on_begin-SameFrame policy key (was_failed e) r = ground arith
  on_begin-SameFrame policy key started r =
      let (result, s) = guarded fl digests env values p kwargs r in
      ground (arith, guarded-SameFrame r, settle_record-SameFrame policy key result s)

  after_prepare-SameFrame :
      (policy : IdempotencyPolicy A) (key : String)
      (found : Result IdempotencyError (IdempotencyResult V)) (r : Run fl.F V W)
      → SameFrame r (after_prepare fl digests env values policy key p kwargs found r).1
  unfolding after_prepare
  after_prepare-SameFrame policy key (ok found) r = on_begin-SameFrame policy key found r
  after_prepare-SameFrame policy key (err e) r = ground arith

  idempotent_call-SameFrame :
      (policy : IdempotencyPolicy A) (r : Run fl.F V W)
      → SameFrame r (idempotent_call fl digests env values policy p kwargs r).1
  unfolding idempotent_call
  idempotent_call-SameFrame policy r =
      let key : String = policy.key_factory p.args kwargs in
      let (found, t) =
        prepare policy.namespace policy.ttl_seconds key (digests.arguments p.args kwargs)
          (env.utc r.world) r.records in
      ground (arith, after_prepare-SameFrame policy (strip key) found (record r { records = t }))

  with_policy-SameFrame :
      (policy : Option (IdempotencyPolicy A)) (r : Run fl.F V W)
      → SameFrame r (with_policy fl digests env values policy p kwargs r).1
  unfolding with_policy
  with_policy-SameFrame none r = guarded-SameFrame r
  with_policy-SameFrame (some policy) r = idempotent_call-SameFrame policy r

  -- Retries, the breaker, the idempotency store and the handler leave the counters and the trail alone.
  pub execute_sync-SameFrame :
      (r : Run fl.F V W) → SameFrame r (execute_sync fl digests env values p kwargs r).1
  unfolding execute_sync
  execute_sync-SameFrame r =
      with_policy-SameFrame (elim p.spec [ none ↦ none | some spec ↦ spec.idempotency_policy ]) r
