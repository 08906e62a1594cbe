-- ===== src/Context/Reservation.antt =====
-- `_prepare_call` reserves the call: it counts the call and its cost, or it raises and counts nothing,
-- unless it is the audit emitter that raises behind the reservation.
use mathlib.Core.Path.{subst}
use agent_roi.Base.{
  ◌⊎◌, Option-cases, sym, inl, inr, ◌+◌, String, ◌≡◌, refl, Bool, Option, List, arith, ap,
}
use agent_roi.Result.{Result, ok, err, Result-cases}
use agent_roi.Float.{Float}
use agent_roi.Exec.{pure, lift, ◌>>◌, ◌>>=◌}
use agent_roi.Control.Guardrails.{Violation}
use agent_roi.Context.Types.{
  emitter_raised, Event, Emission, recorded, unrecorded, unseen, emitted, emit, Method, Checkpoint,
  Digests, Controls, Env, Run, ToolError, FirstArg, Prepared, tool, requested, authorized, started,
  violation,
}
use agent_roi.Tools.Spec.{ToolSpec}
use agent_roi.Context.Counters.{check_limits}
use agent_roi.Context.Resolve.{Resolved, authorize_access}
use agent_roi.Context.Prepare.{
  select_tool, price_call, confirm_call, request_call, checkpoint_of, base_of, authorize, reserve,
  prepare_call,
}
use agent_roi.Context.Frame.{SameCounters, authorize_access-SameCounters, authorize-SameCounters}

module _ (fl : Float) {A V X W : Type 0} (digests : Digests fl.F A) (env : Env fl.F W)
    (c : Controls fl.F A V X W) where
  open fl use {F, add}

  -- A call of cost `cost` is counted between `r` and `s`, and the limits allow it.
  pub record Counted (r s : Run F V W) (cost : F) : Type 0 where
    pub same_steps : s.steps ≡ r.steps
    pub one_call : s.tool_calls ≡ r.tool_calls + 1
    pub cost_added : s.cost ≡ add r.cost cost
    pub allowed : check_limits fl c.guardrails s.steps s.tool_calls s.cost ≡ ok tt

  -- A call either is prepared and counted, or raises with the counters as they were, or is counted and
  -- raises what the audit emitter raised when it was told.
  abbrev pub Reserves : Run F V W → Result (ToolError F X) (Prepared F A V X W) × Run F V W → Type 0
  Reserves r (err e, s) =
      SameCounters r s ⊎ ((x : X) × (cost : F) × (e ≡ emitter_raised x) × Counted r s cost)
  Reserves r (ok p, s) = Counted r s p.cost

  same_refl : (t : Run F V W) → SameCounters t t
  same_refl t = record { steps = refl; tool_calls = refl; cost = refl }

  emission :
      (e : Event F) (u : Run F V W) (told : Emission X)
      → SameCounters u (emitted e u told).1
        × (((emitted e u told).0 ≡ ok tt)
            ⊎ ((x : X) × ((emitted e u told).0 ≡ err (emitter_raised x))))
  emission e u recorded = (record { steps = refl; tool_calls = refl; cost = refl }, inl refl)
  emission e u (unrecorded x) = (same_refl u, inr (x, refl))
  emission e u (unseen x) = (record { steps = refl; tool_calls = refl; cost = refl }, inr (x, refl))

  -- the counters after a call of cost `cost`
  abbrev counted : Run F V W → F → Run F V W
  counted t cost = record t { tool_calls = t.tool_calls + 1; cost = add t.cost cost }

  abbrev checked : Run F V W → F → Result Violation (Unit {0})
  checked t cost = check_limits fl c.guardrails t.steps (t.tool_calls + 1) (add t.cost cost)

  pub reserve-ok :
      (cost : F) (t : Run F V W)
      → checked t cost ≡ ok tt
      → reserve fl digests env c cost t ≡ (ok tt, counted t cost)
  unfolding reserve
  reserve-ok cost t e = rw e

  pub reserve-err :
      (cost : F) (t : Run F V W) (v : Violation)
      → checked t cost ≡ err v
      → reserve fl digests env c cost t ≡ (err (violation v), t)
  unfolding reserve
  reserve-err cost t v e = rw e

  -- the reservation is reported
  abbrev announce : Prepared F A V X W → Method F X V W (Prepared F A V X W)
  announce p = do emit c (tool authorized p.base); emit c (tool started p.base); pure p

  abbrev IsAnnounced :
      Prepared F A V X W
      → Run F V W
      → Result (ToolError F X) (Prepared F A V X W) × Run F V W
      → Type 0
  IsAnnounced p u out =
      SameCounters u out.1 × ((out.0 ≡ ok p) ⊎ ((x : X) × (out.0 ≡ err (emitter_raised x))))

  emit-cases :
      (e : Event F) (u : Run F V W)
      → SameCounters u (emit c e u).1
        × (((emit c e u).0 ≡ ok tt) ⊎ ((x : X) × ((emit c e u).0 ≡ err (emitter_raised x))))
  emit-cases e u = elim (Option-cases c.audit_emitter) [
    | inl silent ↦ rw silent (same_refl u, inl refl)
    | inr (emitter, set) ↦ rw set (emission e u (emitter e u.world))
  ]

  last :
      (p : Prepared F A V X W) (u : Run F V W) (out : Result (ToolError F X) (Unit {0}) × Run F V W)
      → SameCounters u out.1
      → (out.0 ≡ ok tt) ⊎ ((y : X) × (out.0 ≡ err (emitter_raised y)))
      → IsAnnounced p u (elim out.0 [ err e ↦ (err e, out.1) | ok _ ↦ (ok p, out.1) ])
  last p u (x, s) same (inl done) = rw done (same, inl refl)
  last p u (x, s) same (inr (y, raised)) = rw raised (same, inr (y, refl))

  -- the second event, after the first
  then_started :
      (p : Prepared F A V X W) (u v : Run F V W) (x : Result (ToolError F X) (Unit {0}))
      → SameCounters u v
      → (x ≡ ok tt) ⊎ ((y : X) × (x ≡ err (emitter_raised y)))
      → IsAnnounced p u
          (elim x [ err e ↦ (err e, v) | ok _ ↦ (do emit c (tool started p.base); pure p) v ])
  then_started p u v x same (inr (y, raised)) = rw raised (same, inr (y, refl))
  then_started p u v x same (inl told) =
      let (then_same, second) = emit-cases (tool started p.base) v in
      let both : SameCounters u (emit c (tool started p.base) v).1 =
        ground (arith, same, then_same) in
      rw told (last p u (emit c (tool started p.base) v) both second)

  announce-IsAnnounced : (p : Prepared F A V X W) (u : Run F V W) → IsAnnounced p u (announce p u)
  announce-IsAnnounced p u =
      let (same, first) = emit-cases (tool authorized p.base) u in
      let (x, v) = emit c (tool authorized p.base) u in then_started p u v x same first

  pub confirm_call-ok :
      (p : Prepared F A V X W) (t : Run F V W)
      → checked t p.cost ≡ ok tt
      → confirm_call fl digests env c p t ≡ announce p (counted t p.cost)
  unfolding confirm_call
  confirm_call-ok p t fits =
      ap (λ out. elim out.0 [ err e ↦ (err e, out.1) | ok _ ↦ announce p out.1 ])
        (reserve-ok p.cost t fits)

  pub confirm_call-err :
      (p : Prepared F A V X W) (t : Run F V W) (v : Violation)
      → checked t p.cost ≡ err v
      → confirm_call fl digests env c p t ≡ (err (violation v), t)
  unfolding confirm_call
  confirm_call-err p t v over =
      ap (λ out. elim out.0 [ err e ↦ (err e, out.1) | ok _ ↦ announce p out.1 ])
        (reserve-err p.cost t v over)

  -- what is reported after the reservation leaves it as it is
  announced-Reserves :
      (p : Prepared F A V X W) (r u : Run F V W)
      (out : Result (ToolError F X) (Prepared F A V X W) × Run F V W)
      → Counted r u p.cost
      → IsAnnounced p u out
      → Reserves r out
  announced-Reserves p r u (ok q, s) n (same, inl e) = ground (arith, n, same, e)
  announced-Reserves p r u (ok q, s) n (same, inr (x, e)) = absurd (ground (arith, e))
  announced-Reserves p r u (err y, s) n (same, inl e) = absurd (ground (arith, e))
  announced-Reserves p r u (err y, s) n (same, inr (x, e)) =
      inr (x, p.cost, ground (arith, e), ground (arith, n, same))

  confirm_call-Reserves :
      (p : Prepared F A V X W) (r t : Run F V W)
      → SameCounters r t
      → Reserves r (confirm_call fl digests env c p t)
  confirm_call-Reserves p r t same = elim (Result-cases (checked t p.cost)) [
    | inl (_, fits) ↦ subst (Reserves r) (sym (confirm_call-ok p t fits)) (
        announced-Reserves p r (counted t p.cost) (announce p (counted t p.cost))
          (record {
            same_steps = same.steps;
            one_call = ground (arith, same);
            cost_added = ap (λ x. add x p.cost) same.cost;
            allowed = fits;
          })
          (announce-IsAnnounced p (counted t p.cost)))
    | inr (v, over) ↦ subst (Reserves r) (sym (confirm_call-err p t v over)) (inl same)
  ]

  -- an authorization that leaves the counters alone, and then the reservation
  then_confirm :
      (p : Prepared F A V X W) (r t : Run F V W) (x : Result (ToolError F X) (Unit {0}))
      → SameCounters r t
      → Reserves r (elim x [ err e ↦ (err e, t) | ok _ ↦ confirm_call fl digests env c p t ])
  then_confirm p r t (ok _) same = confirm_call-Reserves p r t same
  then_confirm p r t (err e) same = inl same

  then_authorize :
      (spec : Option (ToolSpec F A V X W)) (args : List A) (kwargs : List (String × A))
      (cp : Option (Checkpoint F)) (p : Prepared F A V X W) (r u : Run F V W)
      (x : Result (ToolError F X) (Unit {0}))
      → SameCounters r u
      → Reserves r (elim x [
        | err e ↦ (err e, u)
        | ok _ ↦
            (do authorize fl digests env c spec args kwargs cp; confirm_call fl digests env c p) u
      ])
  then_authorize spec args kwargs cp p r u (err e) same = inl same
  then_authorize spec args kwargs cp p r u (ok _) same =
      let (x, v) = authorize fl digests env c spec args kwargs cp u in
      then_confirm p r v x
        (ground (arith, same, authorize-SameCounters fl digests env c spec args kwargs cp u))

  request_call-Reserves :
      (name : String) (found : Resolved fl c) (kwargs : List (String × A)) (cost : F)
      (r t : Run F V W)
      → SameCounters r t
      → Reserves r (request_call fl digests env c name found kwargs cost t)
  unfolding request_call
  request_call-Reserves name (h, args, spec) kwargs cost r t same =
      let cp = checkpoint_of fl digests env c name h args kwargs cost (env.epoch_ms t.world) spec in
      let base = base_of fl digests env c name h args kwargs cost spec cp in
      let (x, u) = emit c (tool requested base) t in
      then_authorize spec args kwargs cp
        (record { handler = h; args = args; spec = spec; cost = cost; base = base }) r u x
        (ground (arith, same, emit-cases (tool requested base) t))

  then_request :
      (name : String) (found : Resolved fl c) (kwargs : List (String × A))
      (x : Result (ToolError F X) F) (r t : Run F V W)
      → SameCounters r t
      → Reserves r
          ((do cost ← lift (λ e. e) x; request_call fl digests env c name found kwargs cost) t)
  then_request name found kwargs (ok cost) r t same =
      request_call-Reserves name found kwargs cost r t same
  then_request name found kwargs (err e) r t same = inl same

  then_access :
      (name : String) (found : Resolved fl c) (kwargs : List (String × A))
      (priced : Result (ToolError F X) F) (x : Result (ToolError F X) (Unit {0})) (r t : Run F V W)
      → SameCounters r t
      → Reserves r (elim x [
        | err e ↦ (err e, t)
        | ok _ ↦
            (do cost ← lift (λ e. e) priced; request_call fl digests env c name found kwargs cost) t
      ])
  then_access name found kwargs priced (ok _) r t same =
      then_request name found kwargs priced r t same
  then_access name found kwargs priced (err e) r t same = inl same

  -- `_prepare_call` either returns, and then it has counted one more tool call and added the cost that it
  -- returns, and the guardrails allow the new counters and cost; or it raises and leaves the counters as
  -- they were; or it has counted an allowed call, but the audit emitter raised when it was told, and
  -- `_prepare_call` raises that.
  pub prepare_call-Reserves :
      (name : String) (first : FirstArg A V X W) (rest : List A) (kwargs : List (String × A))
      (cost_usd : Option (Option F)) (async_mode : Bool) (r : Run F V W)
      → Reserves r (prepare_call fl digests env c name first rest kwargs cost_usd async_mode r)
  unfolding prepare_call
  prepare_call-Reserves name first rest kwargs cost_usd async_mode r =
      elim (Result-cases (select_tool fl digests env c name first rest)) [
        | inr (e, no_tool) ↦ rw no_tool (inl (same_refl r))
        | inl (found, e) ↦
            let (x, t) = authorize_access fl c name found.2 r in
            rw e (
              then_access name found kwargs
                (price_call fl digests env c found kwargs cost_usd async_mode) x r t
                (authorize_access-SameCounters fl c name found.2 r))
      ]
