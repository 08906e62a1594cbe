-- ===== src/Approvals/Broker/Decisions.antt =====
-- What a decision that was recorded has passed, and what it leaves behind.
use agent_roi.Base.{
  ℕ, ◌≤◌, ◌≡◌, String, Bool, true, false, Option, some, arith, ◌==◌, eq_refl, if◌then◌else◌, inl,
  inr,
}
use agent_roi.Base.Text.{strip, is_empty}
use agent_roi.Result.{ok, err, Result-cases}
use agent_roi.Dict
use agent_roi.Dict.{Dict, get-put}
use agent_roi.Tools.Grant.{ApprovalGrant, check_grant}
use agent_roi.Approvals.Broker.{
  approved, denied, is_pending, ApprovalRecord, already_decided, Desk, Broker, settled, granted,
  issue, expire, may_decide, settle, decide,
}
use agent_roi.Approvals.Broker.Replays.{check_grant-keeps}

module _ {X : Type 0} (desk : Desk X) where
  -- A decision that returned was made in time on a pending request, by somebody whom the authorizer
  -- allows and who is not the requester.
  pub record Proper (current : ApprovalRecord) (principal : String) (now : ℕ) : Type 0 where
    pub was_pending : is_pending current.status ≡ true
    pub in_time : now ≤ current.request.expires_at
    pub allowed : may_decide desk current principal ≡ true
    pub named : is_empty (strip principal) ≡ false
    pub separate :
        is_empty current.request.requested_by ≡ false
        → (strip principal == current.request.requested_by) ≡ false

  -- A decision that returns was made in time on a pending request, by a named principal whom the
  -- authorizer allows and who is not the requester, and it is the record that the call returns.
  pub decide-Proper :
      (id principal reason : String) (approve : Bool) (ttl : Option ℕ) (now : ℕ)
      (current r : ApprovalRecord) (t : Broker)
      → Dict.get t.records id ≡ some current
      → (decide desk id approve principal reason ttl now t).0 ≡ ok r
      → Proper current principal now
        × (r ≡ settled current (if approve then approved else denied) (strip principal) reason now)
        × (Dict.get (decide desk id approve principal reason ttl now t).1.records id ≡ some r)
  unfolding decide settle expire issue
  decide-Proper id principal reason approve ttl now current r t found h = (
    record {
      was_pending = ground (arith, found, h);
      in_time = ground (arith, found, h);
      allowed = ground (arith, found, h);
      named = ground (arith, found, h);
      separate = λ asked. ground (arith, found, h, asked);
    },
    ground (arith, found, h),
    ground (
      arith,
      found,
      h,
      get-put t.records id id
          (settled current (if approve then approved else denied) (strip principal) reason now),
      eq_refl id,
    ),
  )

  -- A request that was decided is not decided again: the second decision raises and changes nothing.
  pub decide_once :
      (id principal reason : String) (approve : Bool) (ttl : Option ℕ) (now : ℕ)
      (current : ApprovalRecord) (t : Broker)
      → Dict.get t.records id ≡ some current
      → is_pending current.status ≡ false
      → decide desk id approve principal reason ttl now t ≡ (err already_decided, t)
  unfolding decide
  decide_once id principal reason approve ttl now current t found over = ground (arith, found, over)

  -- An approval that returns leaves a grant for the checkpoint, of the action of the request, that
  -- expires no later than the request.
  pub decide_grants :
      (id principal reason : String) (ttl : Option ℕ) (now : ℕ) (current r : ApprovalRecord)
      (t : Broker)
      → Dict.get t.records id ≡ some current
      → (decide desk id true principal reason ttl now t).0 ≡ ok r
      → (g : ApprovalGrant) × (Dict.get (decide desk id true principal reason ttl now t).1.grants id
          ≡ some g)
        × (g.action_digest ≡ current.request.action_digest)
        × (g.expires_at ≤ current.request.expires_at)
        × (g.checkpoint_id ≡ some id)
  unfolding decide settle expire issue
  decide_grants id principal reason ttl now current r t found h =
      let grant = granted current id (strip principal) reason ttl now in
      elim (Result-cases (check_grant grant)) [
        | inr (e, bad) ↦ absurd (ground (arith, found, bad, h))
        | inl (g, good) ↦
            let kept = check_grant-keeps grant g good in
            (
              g,
              ground (arith, found, good, h, get-put t.grants id id g, eq_refl id),
              kept.0,
              ground (arith, kept),
              kept.2,
            )
      ]
