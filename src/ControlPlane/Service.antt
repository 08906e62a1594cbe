-- ===== src/ControlPlane/Service.antt =====
-- `PolicyBundle.create`, `PolicyBundle.verify` and `ControlPlaneService` of enterprise/control_plane.py.
-- The service emits an event after each change; its `heartbeat` and `register_agent` are the store's.
use agent_roi.Base.{
  ℕ, String, Bool, Option, none, some, List, [], ◌∷◌, ◌++◌, ◌==◌, not, ◌||◌, if◌then◌else◌,
}
use agent_roi.Base.Text.{is_empty}
use agent_roi.Result.{Result, ok, err, Exec}
use agent_roi.Result
use agent_roi.Exec.{pure, modify, lift, ◌>>=◌, ◌>>◌}
use agent_roi.ControlPlane.Rows.{
  PolicyBundle, PolicyRollout, Store, Slot, StoreError, Storing, unknown_signer, digest_mismatch,
  bad_signature, invalid_policy,
}
use agent_roi.ControlPlane.Store.{
  save_bundle, get_bundle, activate, get_active, start_rollout, cancel_rollout, resolve_active,
}

-- What is hashed and signed: the canonical JSON of these fields.
pub record Envelope (P : Type 0) : Type 0 where
  pub slot : Slot
  pub version : String
  pub policy : P

-- `PolicySigner`
pub record PolicySigner (P : Type 0) : Type 0 where
  pub key_id : String
  pub sign : Envelope P → String
  pub verify : Envelope P → String → Bool

-- `HMACPolicySigner`, over the HMAC of its secret
abbrev pub hmac_signer :
    {P : Type 0} → (String → Envelope P → String) → String → String → PolicySigner P
hmac_signer hmac key_id secret = record {
  key_id = key_id;
  sign = hmac secret;
  verify = λ e signature. hmac secret e == signature;
}

-- The configuration of the service. `sha256` hashes an envelope; `is_policy` says whether
-- `policy_from_mapping` takes the document.
pub record Settings (P : Type 0) : Type 0 where
  pub signers : String → Option (PolicySigner P)
  pub default_signer_key_id : String
  pub require_signed_bundles : Bool
  pub sha256 : Envelope P → String
  pub is_policy : P → Bool
  -- the hash of `resolve_active`
  pub bucket_hash : String → String → String → String → ℕ
  pub seed_digest : Slot → String → String

-- The events of the service.
pub data PolicyEvent (P : Type 0) : Type 0 where
  published activated : PolicyBundle P → PolicyEvent P
  promoted : PolicyBundle P → String → String → PolicyEvent P
  rolled_back : PolicyBundle P → String → PolicyEvent P
  rollout_started : PolicyRollout → PolicyEvent P
  rollout_cancelled : Slot → PolicyEvent P

pub record Plane (P : Type 0) : Type 0 where
  pub store : Store P
  pub events : List (PolicyEvent P)

abbrev pub Serving : Type 0 → Type 0 → Type 0
Serving P A = Exec StoreError (Plane P) A

abbrev pub envelope_of : {P : Type 0} → PolicyBundle P → Envelope P
envelope_of b = record {
  slot = record { organization_id = b.organization_id; name = b.name; environment = b.environment };
  version = b.version;
  policy = b.policy;
}

-- an operation of the store
abbrev pub on_store : {P A : Type 0} → Storing P A → Serving P A
on_store m p = let (x, t) = m p.store in (x, record p { store = t })

abbrev pub announce : {P : Type 0} → PolicyEvent P → Serving P (Unit {0})
announce e = modify (λ p. record p { events = p.events ++ e ∷ [] })

module _ {P : Type 0} (c : Settings P) where
  -- `PolicyBundle.create`
  unfoldable pub create :
      Slot → String → P → PolicySigner P → String → ℕ → Result StoreError (PolicyBundle P)
  create s version policy signer by now =
      let e : Envelope P = record { slot = s; version = version; policy = policy } in
      if not (c.is_policy policy)
      then err invalid_policy
      else ok (record {
        organization_id = s.organization_id;
        name = s.name;
        environment = s.environment;
        version = version;
        policy = policy;
        digest = c.sha256 e;
        signature = signer.sign e;
        signer_key_id = signer.key_id;
        created_at = now;
        created_by = by;
      })

  -- `PolicyBundle.verify`
  unfoldable pub verify : PolicyBundle P → PolicySigner P → Result StoreError (Unit {0})
  verify b signer =
      Result.◌>>◌ (Result.raise_if (not (c.sha256 (envelope_of b) == b.digest)) digest_mismatch) (
        Result.◌>>◌
          (Result.raise_if
            (not (signer.key_id == b.signer_key_id)
              || not (signer.verify (envelope_of b) b.signature))
            bad_signature)
          (Result.raise_if (not (c.is_policy b.policy)) invalid_policy))

  -- `verify_bundle`
  unfoldable pub verify_bundle : PolicyBundle P → Result StoreError (Unit {0})
  unfolding verify
  verify_bundle b = elim (c.signers b.signer_key_id) [
    | none ↦ err unknown_signer
    | some signer ↦ verify b signer
  ]

  -- the bundle that `publish_policy` saves; an unknown key is a `KeyError`
  unfoldable pub sign_policy :
      Slot → String → P → String → String → ℕ → Result StoreError (PolicyBundle P)
  unfolding create
  sign_policy s version policy by key_id now =
      elim (c.signers (if is_empty key_id then c.default_signer_key_id else key_id)) [
        | none ↦ err unknown_signer
        | some signer ↦ create s version policy signer by now
      ]

  unfoldable pub publish_policy :
      Slot → String → P → String → String → ℕ → Serving P (PolicyBundle P)
  unfolding sign_policy
  publish_policy s version policy by key_id now = do
    b ← lift (λ e. e) (sign_policy s version policy by key_id now)
    on_store (save_bundle b)
    announce (published b)
    pure b

  -- `activate_policy` verifies the bundle after the store has activated it
  unfoldable pub activate_policy :
      Slot → String → String → Option ℕ → ℕ → Serving P (PolicyBundle P)
  unfolding verify_bundle
  activate_policy s version by expected now = do
    b ← on_store (activate s version by expected now)
    lift (λ e. e) (verify_bundle b)
    announce (activated b)
    pure b

  unfoldable pub start_rollout_event :
      Slot → String → ℕ → String → String → Option ℕ → ℕ → Serving P PolicyRollout
  start_rollout_event s candidate percentage by seed expected now = do
    r ← on_store (start_rollout c.seed_digest s candidate percentage by seed expected now)
    announce (rollout_started r)
    pure r

  unfoldable pub cancel_rollout_event : Slot → Serving P (Unit {0})
  cancel_rollout_event s = do on_store (cancel_rollout s); announce (rollout_cancelled s)

  -- `if self.require_signed_bundles: self.verify_bundle(bundle)`
  unfoldable pub check_bundle : PolicyBundle P → Result StoreError (Unit {0})
  unfolding verify_bundle
  check_bundle b = if c.require_signed_bundles then verify_bundle b else ok tt

  unfoldable pub policy_for_agent : Slot → String → Serving P (PolicyBundle P)
  unfolding check_bundle
  policy_for_agent s agent = do
    b ← on_store (resolve_active c.bucket_hash s agent)
    lift (λ e. e) (check_bundle b)
    pure b

  unfoldable pub active_policy : Slot → Serving P (PolicyBundle P)
  unfolding check_bundle
  active_policy s = do b ← on_store (get_active s); lift (λ e. e) (check_bundle b); pure b

  unfoldable pub promote_policy :
      Slot → String → String → String → String → Bool → String → ℕ → Serving P (PolicyBundle P)
  unfolding check_bundle publish_policy activate_policy
  promote_policy source target source_version target_version by activated? key_id now = do
    b ← on_store (get_bundle source source_version)
    lift (λ e. e) (check_bundle b)
    let slot = record source { environment = target }
    q ←
        publish_policy slot (if is_empty target_version then b.version else target_version) b.policy
          by key_id now
    announce (promoted q source.environment source_version)
    if activated? then activate_policy slot q.version by none now else pure q

  unfoldable pub rollback_policy : Slot → String → String → ℕ → Serving P (PolicyBundle P)
  unfolding activate_policy cancel_rollout_event
  rollback_policy s version by now = do
    b ← activate_policy s version by none now
    cancel_rollout_event s
    announce (rolled_back b by)
    pure b
