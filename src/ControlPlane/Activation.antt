-- ===== src/ControlPlane/Activation.antt =====
-- What is in force after an activation, and which bundles the service serves.
use mathlib.Core.Option
use agent_roi.Base.{
  ap, ◌∙◌, ltb, ◌%◌, eq_iff, ℕ, ◌≡◌, refl, String, true, none, some, List, arith, eq_refl,
  Option-cases, inl, inr, if◌then◌else◌,
}
use agent_roi.Base.Text.{is_empty}
use agent_roi.Result.{ok, err, Result-cases}
use agent_roi.Table.{select_one, find-insert_hit, find-update, find-delete_self, find_hit}
use agent_roi.ControlPlane.Rows.{
  PolicyBundle, ActivePolicy, Store, Slot, StoreError, bundle_at, active_at, upsert, activated,
  new_active, active_as, rollout_at, active_conflict,
}
use agent_roi.ControlPlane.Store.{
  get_bundle, write_active, cancel_rollout, activate, get_active, resolve_active,
}
use agent_roi.ControlPlane.Service.{
  Settings, Envelope, PolicySigner, Plane, envelope_of, create, verify, verify_bundle, sign_policy,
  check_bundle, policy_for_agent, active_policy, activate_policy,
}

-- the row of a slot after an upsert
upserted :
    (s : Slot) (version by : String) (now : ℕ) (l : List ActivePolicy)
    → Option.map
        (λ a. a.version)
        (select_one
          (active_at s)
          (upsert (active_at s) (new_active s version now by) (activated version now by) l))
      ≡ some version
upserted s version by now l = elim (Option-cases (select_one (active_at s) l)) [
  | inl new ↦ ground (
    arith,
    new,
    eq_refl s.organization_id,
    eq_refl s.name,
    eq_refl s.environment,
    find-insert_hit (active_at s) (new_active s version now by) l,
  )
  | inr (a, known) ↦ ground (
    arith,
    known,
    find_hit (active_at s) l a known,
    find-update (active_at s) (active_at s) (activated version now by) l (λ r p. refl),
  )
]

module _ {P : Type 0} where
  -- `activate` of a stored bundle, without an expected revision, returns the bundle. After it the bundle is
  -- the active one, and is what `resolve_active` gives to every agent: no rollout is left.
  pub activate_serves :
      (hash : String → String → String → String → ℕ) (s : Slot) (version by agent : String)
      (now : ℕ) (b : PolicyBundle P) (t : Store P)
      → select_one (bundle_at s version) t.bundles ≡ some b
      → ((activate s version by none now t).0 ≡ ok b)
        × ((get_active s (activate s version by none now t).1).0 ≡ ok b)
        × ((resolve_active hash s agent (activate s version by none now t).1).0 ≡ ok b)
  unfolding activate get_bundle write_active cancel_rollout get_active resolve_active
  activate_serves hash s version by agent now b t stored = (
    ground (arith, stored),
    ground (arith, stored, upserted s version by now t.active),
    ground (
      arith,
      stored,
      upserted s version by now t.active,
      find-delete_self (rollout_at s) t.rollouts,
    ),
  )

  -- `activate` at a revision that is not the present one is refused and changes nothing.
  pub activate_conflict :
      (s : Slot) (version by : String) (expected now : ℕ) (b : PolicyBundle P) (t : Store P)
      → select_one (bundle_at s version) t.bundles ≡ some b
      → select_one (active_as s expected) t.active ≡ none
      → activate s version by (some expected) now t ≡ (err active_conflict, t)
  unfolding activate get_bundle write_active cancel_rollout
  activate_conflict s version by expected now b t stored stale = ground (arith, stored, stale)

module _ {P : Type 0} where
  -- reading leaves the store alone
  get_active-store : (s : Slot) (t : Store P) → (get_active s t).1 ≡ t
  unfolding get_active get_bundle
  get_active-store s t = ground arith

module _ {P : Type 0} (c : Settings P) where
  -- The signers are listed under their own keys and accept what they signed.
  pub record HasSigners : Type 0 where
    pub keyed :
        (k : String) (signer : PolicySigner P) → c.signers k ≡ some signer → signer.key_id ≡ k
    pub accepts :
        (k : String) (signer : PolicySigner P) (e : Envelope P)
        → c.signers k ≡ some signer
        → signer.verify e (signer.sign e) ≡ true

  -- A bundle that the service signs for a slot and a version is for that slot, that version and that
  -- policy, and `verify_bundle` accepts it.
  pub sign-verify :
      (s : Slot) (version : String) (policy : P) (by key_id : String) (now : ℕ) (b : PolicyBundle P)
      → HasSigners
      → sign_policy c s version policy by key_id now ≡ ok b
      → (envelope_of b ≡ record { slot = s; version = version; policy = policy })
        × (verify_bundle c b ≡ ok tt)
  unfolding sign_policy verify_bundle create verify
  sign-verify s version policy by key_id now b signers signed =
      let k = if is_empty key_id then c.default_signer_key_id else key_id in
      elim (Option-cases (c.signers k)) [
        | inl missing ↦ ground (arith, missing, signed)
        | inr (signer, found) ↦
            let e : Envelope P = record { slot = s; version = version; policy = policy } in
            (
              ground (arith, found, signed),
              ground (
                arith,
                found,
                signed,
                signers.keyed k signer found,
                signers.accepts k signer e found,
                eq_refl (c.sha256 e),
                eq_refl signer.key_id,
              ),
            )
      ]

  -- What a signature vouches for: the bundle is for the slot, its digest is the hash of its slot, version
  -- and policy, the signer that is listed under its key accepts its signature, and its policy is valid.
  pub record IsVouched (s : Slot) (b : PolicyBundle P) : Type 0 where
    pub slot : (envelope_of b).slot ≡ s
    pub digest : c.sha256 (envelope_of b) ≡ b.digest
    pub signed :
        (signer : PolicySigner P) × (c.signers b.signer_key_id ≡ some signer)
        × (signer.key_id ≡ b.signer_key_id)
        × (signer.verify (envelope_of b) b.signature ≡ true)
    pub valid : c.is_policy b.policy ≡ true

  verify_bundle-IsVouched :
      (s : Slot) (b : PolicyBundle P)
      → (envelope_of b).slot ≡ s
      → verify_bundle c b ≡ ok tt
      → IsVouched s b
  unfolding verify_bundle verify
  verify_bundle-IsVouched s b here passed = elim (Option-cases (c.signers b.signer_key_id)) [
    | inl missing ↦ absurd (ground (arith, missing, passed))
    | inr (signer, found) ↦ record {
      slot = here;
      digest = ground (arith, found, passed, eq_iff (c.sha256 (envelope_of b)) b.digest);
      signed = (
        signer,
        found,
        ground (arith, found, passed, eq_iff signer.key_id b.signer_key_id),
        ground (arith, found, passed),
      );
      valid = ground (arith, found, passed);
    }
  ]

  -- a bundle that a statement selects is for the slot of the statement
  selected-slot :
      (s : Slot) (version : String) (b : PolicyBundle P) (l : List (PolicyBundle P))
      → select_one (bundle_at s version) l ≡ some b
      → (envelope_of b).slot ≡ s
  selected-slot s version b l found =
      let hit = find_hit (bundle_at s version) l b found in
      ground (
        arith,
        hit,
        eq_iff b.organization_id s.organization_id,
        eq_iff b.name s.name,
        eq_iff b.environment s.environment,
      )

  get_bundle-slot :
      (s : Slot) (version : String) (b : PolicyBundle P) (t : Store P)
      → (get_bundle s version t).0 ≡ ok b
      → (envelope_of b).slot ≡ s
  unfolding get_bundle
  get_bundle-slot s version b t h =
      elim (Option-cases (select_one (bundle_at s version) t.bundles)) [
        | inl missing ↦ absurd (ground (arith, missing, h))
        | inr (d, found) ↦
            let same : d ≡ b = ground (arith, found, h) in
            selected-slot s version b t.bundles (found ∙ ap some same)
      ]

  get_active-slot :
      (s : Slot) (b : PolicyBundle P) (t : Store P)
      → (get_active s t).0 ≡ ok b
      → (envelope_of b).slot ≡ s
  unfolding get_active
  get_active-slot s b t h = elim (Option-cases (select_one (active_at s) t.active)) [
    | inl idle ↦ absurd (ground (arith, idle, h))
    | inr (a, found) ↦ get_bundle-slot s a.version b t (ground (arith, found, h))
  ]

  resolve_active-slot :
      (s : Slot) (agent : String) (b : PolicyBundle P) (t : Store P)
      → (resolve_active c.bucket_hash s agent t).0 ≡ ok b
      → (envelope_of b).slot ≡ s
  unfolding resolve_active
  resolve_active-slot s agent b t h = elim (Result-cases (get_active s t).0) [
    | inr (x, idle) ↦ absurd (ground (arith, idle, h))
    | inl (primary, active) ↦
        let same : (get_active s t).1 ≡ t = get_active-store s t in
        elim (Option-cases (select_one (rollout_at s) t.rollouts)) [
          | inl none_there ↦ get_active-slot s b t (ground (arith, active, same, none_there, h))
          | inr (r, there) ↦
              get_bundle-slot s
                (if ltb (c.bucket_hash r.seed s.organization_id s.environment agent % 100)
                    r.candidate_percentage
                  then r.candidate_version
                  else r.primary_version)
                b t (ground (arith, active, same, there, h))
        ]
  ]

  -- If signatures are required, a policy that `policy_for_agent` or `active_policy` returns is for the slot
  -- that was asked for, during a rollout too; its digest is the hash of its slot, version and policy; the
  -- signer that is listed under its key accepts its signature; and its document is valid.
  pub served-IsVouched :
      (s : Slot) (agent : String) (b : PolicyBundle P) (p : Plane P)
      → c.require_signed_bundles ≡ true
      → ((policy_for_agent c s agent p).0 ≡ ok b → IsVouched s b)
        × ((active_policy c s p).0 ≡ ok b → IsVouched s b)
  unfolding policy_for_agent active_policy check_bundle
  served-IsVouched s agent b p required = (
    λ h. elim (Result-cases (resolve_active c.bucket_hash s agent p.store).0) [
      | inr (x, idle) ↦ absurd (ground (arith, idle, h))
      | inl (d, found) ↦
          let same : d ≡ b = ground (arith, required, found, h) in
          verify_bundle-IsVouched s b (resolve_active-slot s agent b p.store (found ∙ ap ok same))
            (ground (arith, required, found, h))
    ],
    λ h. elim (Result-cases (get_active s p.store).0) [
      | inr (x, idle) ↦ absurd (ground (arith, idle, h))
      | inl (d, found) ↦
          let same : d ≡ b = ground (arith, required, found, h) in
          verify_bundle-IsVouched s b (get_active-slot s b p.store (found ∙ ap ok same))
            (ground (arith, required, found, h))
    ],
  )

  -- `activate_policy` of a stored bundle that does not verify, without an expected revision, raises, and all
  -- the same leaves the bundle active: `get_active` of the store gives it, and where signatures are
  -- required, the `active_policy` that follows raises the same error.
  pub activate_unverified :
      (s : Slot) (version by : String) (now : ℕ) (b : PolicyBundle P) (e : StoreError) (p : Plane P)
      → select_one (bundle_at s version) p.store.bundles ≡ some b
      → verify_bundle c b ≡ err e
      → ((activate_policy c s version by none now p).0 ≡ err e)
        × ((get_active s (activate_policy c s version by none now p).1.store).0 ≡ ok b)
        × (c.require_signed_bundles ≡ true
            → (active_policy c s (activate_policy c s version by none now p).1).0 ≡ err e)
  unfolding activate_policy active_policy check_bundle activate get_bundle write_active
      cancel_rollout get_active
  activate_unverified s version by now b e p stored bad = (
    ground (arith, stored, bad),
    ground (arith, stored, bad, upserted s version by now p.store.active),
    λ required. ground (arith, stored, bad, required, upserted s version by now p.store.active),
  )
