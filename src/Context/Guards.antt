-- ===== src/Context/Guards.antt =====
-- What a call has passed when `_prepare_call` lets it through.
use mathlib.Core.Path.{subst}
use agent_roi.Base.{
  refl, any, ◌==◌, String, ◌≡◌, Bool, true, false, Option, none, some, List, arith, ap, sym, ◌∙◌,
  inl, inr, ◌⊎◌, Option-cases, if◌then◌else◌,
}
use agent_roi.Base.Text.{is_blank}
use agent_roi.Result.{Result, ok, Result-cases}
use agent_roi.Float.{Float}
use agent_roi.Control.Guardrails.{Guardrails, validate_tool_allowed}
use agent_roi.Tools.Grant.{ApprovalGrant, Covers, validate_iff}
use agent_roi.Tools.Spec.{ToolSpec}
use agent_roi.Context.Types.{
  Digests, Controls, Env, Run, FirstArg, Prepared, Checkpoint, ApprovalCallback, Response, granted,
  approved, refused, AccessContext,
}
use agent_roi.Context.Resolve.{Resolved, access_context, authorize_access}
use agent_roi.Context.Prepare.{
  needs_approval, seek_approval, authorize, bound_required, select_tool, price_call, request_call,
  confirm_call, prepare_call,
}

module _ (fl : Float) {A V X W : Type 0} (digests : Digests fl.F A) (env : Env fl.F W)
    (c : Controls fl.F A V X W) where
  open fl use {F}

  -- The callback's answer lets the call through: a grant that covers the checkpoint at the time of the
  -- answer, or `True` where bound grants are not required.
  abbrev pub Approves : Checkpoint F → Result X Response × W → Type 0
  Approves cp (answer, w) =
      ((answer ≡ ok approved) × (bound_required fl digests env c ≡ false))
      ⊎ ((g : ApprovalGrant) × (answer ≡ ok (granted g))
          × Covers g cp.action_digest cp.checkpoint_id (env.epoch_ms w))

  abbrev pub asked :
      ApprovalCallback F A V X W
      → ToolSpec F A V X W
      → List A
      → List (String × A)
      → Checkpoint F
      → W
      → Result X Response × W
  asked cb spec args kwargs cp w =
      cb.ask spec args kwargs (if cb.takes_checkpoint then some cp else none) w

  -- What lets a call through that needs an approval: its specification and its checkpoint, and a callback
  -- that approves it.
  pub record IsApproved (found : Option (ToolSpec F A V X W)) (args : List A)
      (kwargs : List (String × A)) (checkpoint : Option (Checkpoint F)) (w : W) : Type 0 where
    pub spec : ToolSpec F A V X W
    pub cp : Checkpoint F
    pub callback : ApprovalCallback F A V X W
    pub is_spec : found ≡ some spec
    pub is_checkpoint : checkpoint ≡ some cp
    pub is_callback : c.approval_callback ≡ some callback
    pub approves : Approves cp (asked callback spec args kwargs cp w)

  seek_approval-Approves :
      (spec : ToolSpec F A V X W) (args : List A) (kwargs : List (String × A)) (cp : Checkpoint F)
      (r : Run F V W)
      → (seek_approval fl digests env c spec args kwargs (some cp) r).0 ≡ ok tt
      → (cb : ApprovalCallback F A V X W) × (c.approval_callback ≡ some cb)
        × Approves cp (asked cb spec args kwargs cp r.world)
  unfolding seek_approval
  seek_approval-Approves spec args kwargs cp r h = elim (Option-cases c.approval_callback) [
    | inl missing ↦ absurd (ground (arith, missing, h))
    | inr (cb, set) ↦
        let out = asked cb spec args kwargs cp r.world in
        (
          cb,
          set,
          elim (Result-cases out.0) [
            | inl (granted g, e) ↦ inr (
              g,
              e,
              (validate_iff g cp.action_digest cp.checkpoint_id (env.epoch_ms out.1)).0
                  (ground (arith, set, e, h)),
            )
            | inl (approved, e) ↦ inl (e, ground (arith, set, e, h))
            | inl (refused, e) ↦ absurd (ground (arith, set, e, h))
            | inr (x, e) ↦ absurd (ground (arith, set, e, h))
          ],
        )
  ]

  no-checkpoint :
      (spec : ToolSpec F A V X W) (args : List A) (kwargs : List (String × A)) (r : Run F V W)
      → ¬ ((seek_approval fl digests env c spec args kwargs none r).0 ≡ ok tt)
  unfolding seek_approval
  no-checkpoint spec args kwargs r h = elim (Option-cases c.approval_callback) [
    | inl missing ↦ ground (arith, missing, h)
    | inr (cb, set) ↦ elim (Result-cases (cb.ask spec args kwargs none r.world).0) [
      | inl (a, e) ↦ ground (arith, set, e, h)
      | inr (x, e) ↦ ground (arith, set, e, h)
    ]
  ]

  -- `_authorize` lets a call of a tool that requires an approval through only if there is an approval
  -- callback and it answers with a grant that covers the checkpoint when it is checked, or with `True`
  -- where bound grants are not required.
  pub authorize-IsApproved :
      (found : Option (ToolSpec F A V X W)) (args : List A) (kwargs : List (String × A))
      (checkpoint : Option (Checkpoint F)) (r : Run F V W)
      → needs_approval fl digests env c found ≡ true
      → (authorize fl digests env c found args kwargs checkpoint r).0 ≡ ok tt
      → IsApproved found args kwargs checkpoint r.world
  unfolding authorize
  authorize-IsApproved none args kwargs checkpoint r needed h = absurd (ground (arith, needed))
  authorize-IsApproved (some spec) args kwargs none r needed h =
      absurd (no-checkpoint spec args kwargs r (ground (arith, needed, h)))
  authorize-IsApproved (some spec) args kwargs (some cp) r needed h =
      let (cb, set, approves) =
        seek_approval-Approves spec args kwargs cp r (ground (arith, needed, h)) in
      record {
        spec = spec;
        cp = cp;
        callback = cb;
        is_spec = refl;
        is_checkpoint = refl;
        is_callback = set;
        approves = approves;
      }

  -- The guardrails, if there are any, take the name, which is on their list, if they have one; and the
  -- authorizer, if there is one, allows the principal to use the tool.
  pub record Admitted (name : String) (spec : Option (ToolSpec F A V X W)) : Type 0 where
    pub named : (g : Guardrails F) → c.guardrails ≡ some g → is_blank name ≡ false
    pub listed :
        (g : Guardrails F) (names : List String)
        → c.guardrails ≡ some g
        → g.allowed_tools ≡ some names
        → any (λ n. n == name) names ≡ true
    pub has_access :
        (authorizer : String → String → AccessContext → Bool)
        → c.authorizer ≡ some authorizer
        → (subject : String) × (c.principal ≡ some subject)
          × (authorizer subject name (access_context fl c spec) ≡ true)

  access_lem :
      (name : String) (spec : Option (ToolSpec F A V X W)) (r : Run F V W)
      → (authorize_access fl c name spec r).0 ≡ ok tt
      → (authorizer : String → String → AccessContext → Bool) → c.authorizer ≡ some authorizer
      → (subject : String) × (c.principal ≡ some subject)
        × (authorizer subject name (access_context fl c spec) ≡ true)
  unfolding authorize_access
  access_lem name spec r h authorizer set = elim (Option-cases c.principal) [
    | inl nobody ↦ absurd (ground (arith, set, nobody, h))
    | inr (subject, who) ↦ (subject, who, ground (arith, set, who, h))
  ]

  request_call-same_spec :
      (name : String) (found : Resolved fl c) (kwargs : List (String × A)) (cost : F)
      (r : Run F V W) (p : Prepared F A V X W)
      → (request_call fl digests env c name found kwargs cost r).0 ≡ ok p
      → (p.spec ≡ found.2) × (p.cost ≡ cost)
  unfolding request_call confirm_call
  request_call-same_spec name (h, args, spec) kwargs cost r p e =
      (ground (arith, e), ground (arith, e))

  -- the stages of a call that was prepared
  record Stages (name : String) (first : FirstArg A V X W) (rest : List A)
      (kwargs : List (String × A)) (cost_usd : Option (Option F)) (async_mode : Bool)
      (r : Run F V W) (p : Prepared F A V X W) : Type 0 where
    pub found : Resolved fl c
    pub selected : select_tool fl digests env c name first rest ≡ ok found
    pub permitted : (authorize_access fl c name found.2 r).0 ≡ ok tt
    pub priced : price_call fl digests env c found kwargs cost_usd async_mode ≡ ok p.cost
    pub same_spec : p.spec ≡ found.2

  prepare_call-Stages :
      (name : String) (first : FirstArg A V X W) (rest : List A) (kwargs : List (String × A))
      (cost_usd : Option (Option F)) (async_mode : Bool) (r : Run F V W) (p : Prepared F A V X W)
      → (prepare_call fl digests env c name first rest kwargs cost_usd async_mode r).0 ≡ ok p
      → Stages name first rest kwargs cost_usd async_mode r p
  unfolding prepare_call
  prepare_call-Stages name first rest kwargs cost_usd async_mode r p h =
      elim (Result-cases (select_tool fl digests env c name first rest)) [
        | inr (e, none_found) ↦ absurd (ground (arith, none_found, h))
        | inl (found, e) ↦
            let access = authorize_access fl c name found.2 r in
            elim (Result-cases access.0) [
              | inr (x, denied) ↦ absurd (ground (arith, e, denied, h))
              | inl (_, may) ↦
                  elim (Result-cases
                    (price_call fl digests env c found kwargs cost_usd async_mode)) [
                      | inr (x, no_price) ↦ absurd (ground (arith, e, may, no_price, h))
                      | inl (cost, price) ↦
                          let q : (request_call fl digests env c name found kwargs cost access.1).0
                              ≡ ok p =
                            ground (arith, e, may, price, h) in
                          let same = request_call-same_spec name found kwargs cost access.1 p q in
                          (record {
                            found = found;
                            selected = e;
                            permitted = may;
                            priced = price ∙ ap ok (sym same.1);
                            same_spec = same.0;
                          })
                    ]
            ]
      ]

  -- A call is prepared only if its name is not blank and is on the list of allowed tools, where the context
  -- has guardrails, and these have a list; and if the authorizer, where there is one, allows the
  -- principal to use the tool.
  pub prepare_call-Admitted :
      (name : String) (first : FirstArg A V X W) (rest : List A) (kwargs : List (String × A))
      (cost_usd : Option (Option F)) (async_mode : Bool) (r : Run F V W) (p : Prepared F A V X W)
      → (prepare_call fl digests env c name first rest kwargs cost_usd async_mode r).0 ≡ ok p
      → Admitted name p.spec
  unfolding select_tool validate_tool_allowed
  prepare_call-Admitted name first rest kwargs cost_usd async_mode r p h =
      let s = prepare_call-Stages name first rest kwargs cost_usd async_mode r p h in
      record {
        named = λ g set. ground (arith, set, s.selected);
        listed = λ g names set list. ground (arith, set, list, s.selected);
        has_access =
            subst
              (λ spec.
                (authorizer : String → String → AccessContext → Bool)
                → c.authorizer ≡ some authorizer
                → (subject : String) × (c.principal ≡ some subject)
                  × (authorizer subject name (access_context fl c spec) ≡ true))
              (sym s.same_spec) (access_lem name s.found.2 r s.permitted);
      }
