-- ===== src/ControlPlane/Tests.antt =====
-- A store with two versions of a policy, and the theorems of the control plane at it. Policies and
-- hashes are numbers and texts.
use agent_roi.Base.{
  ℕ, ◌≤◌, ◌%◌, false, ltb, ◌≡◌, refl, String, true, Option, none, some, [], ◌∷◌, arith,
  if◌then◌else◌, ◌==◌, eq_iff, eq_refl,
}
use agent_roi.Result.{ok, err}
use agent_roi.ControlPlane.Rows.{
  new_rollout, PolicyBundle, PolicyRollout, ActivePolicy, Store, Slot, digest_mismatch,
}
use agent_roi.ControlPlane.Store.{
  activate, get_active, get_bundle, resolve_active, start_rollout, write_rollout, get_rollout,
}
use agent_roi.ControlPlane.Service.{
  Settings, Plane, PolicySigner, hmac_signer, verify, verify_bundle, policy_for_agent,
  active_policy, activate_policy,
}
use agent_roi.ControlPlane.Activation.{
  activate_serves, HasSigners, IsVouched, served-IsVouched, activate_unverified,
}
use agent_roi.ControlPlane.Rollout.{rollout_splits}

abbrev slot : Slot
slot = record { organization_id = "acme"; name = "spend"; environment = "prod" }

abbrev signer : PolicySigner ℕ
signer = hmac_signer (λ secret e. e.version) "k1" "s"

abbrev one_key : String → Option (PolicySigner ℕ)
one_key k = if "k1" == k then some signer else none

abbrev settings : Settings ℕ
settings = record {
  signers = one_key;
  default_signer_key_id = "k1";
  require_signed_bundles = true;
  sha256 = λ e. e.version;
  is_policy = λ p. true;
  bucket_hash = λ seed org environment agent. 120;
  seed_digest = λ s candidate. candidate;
}

abbrev bundle : String → String → PolicyBundle ℕ
bundle version digest = record {
  organization_id = "acme";
  name = "spend";
  environment = "prod";
  version = version;
  policy = 5;
  digest = digest;
  signature = version;
  signer_key_id = "k1";
  created_at = 1;
  created_by = "ann";
}

abbrev one : ActivePolicy
one = record {
  organization_id = "acme";
  name = "spend";
  environment = "prod";
  version = "1";
  activated_at = 2;
  activated_by = "ann";
  revision = 1;
}

abbrev store : Store ℕ
store = record {
  bundles = bundle "1" "1" ∷ bundle "2" "2" ∷ bundle "3" "other" ∷ [];
  active = one ∷ [];
  rollouts = [];
  agents = [];
}

abbrev plane : Plane ℕ
plane = record { store = store; events = [] }

activate_serves_example :
    ((activate slot "2" "bob" none 9 store).0 ≡ ok (bundle "2" "2"))
    × ((get_active slot (activate slot "2" "bob" none 9 store).1).0 ≡ ok (bundle "2" "2"))
    × ((resolve_active settings.bucket_hash slot "agent" (activate slot "2" "bob" none 9 store).1).0
        ≡ ok (bundle "2" "2"))
activate_serves_example =
    activate_serves settings.bucket_hash slot "2" "bob" "agent" 9 (bundle "2" "2") store refl

has_signers : HasSigners settings
has_signers = record {
  keyed = λ k s e. ground (arith, eq_iff "k1" k, e);
  accepts = λ k s e f. ground (arith, f, eq_refl e.version);
}

served-IsVouched_example :
    ((policy_for_agent settings slot "agent" plane).0 ≡ ok (bundle "1" "1")
      → IsVouched settings slot (bundle "1" "1"))
    × ((active_policy settings slot plane).0 ≡ ok (bundle "1" "1")
        → IsVouched settings slot (bundle "1" "1"))
served-IsVouched_example = served-IsVouched settings slot "agent" (bundle "1" "1") plane refl

activate_unverified_example :
    ((activate_policy settings slot "3" "bob" none 9 plane).0 ≡ err digest_mismatch)
    × ((get_active slot (activate_policy settings slot "3" "bob" none 9 plane).1.store).0
        ≡ ok (bundle "3" "other"))
    × (settings.require_signed_bundles ≡ true
        → (active_policy settings slot (activate_policy settings slot "3" "bob" none 9 plane).1).0
          ≡ err digest_mismatch)
unfolding verify_bundle verify
activate_unverified_example =
    activate_unverified settings slot "3" "bob" 9 (bundle "3" "other") digest_mismatch plane refl
      refl

abbrev started : PolicyRollout
started = new_rollout slot "1" "2" 25 "seed" 9 "bob"

rollout_started :
    (start_rollout settings.seed_digest slot "2" 25 "bob" "seed" none 9 store).0 ≡ ok started
unfolding start_rollout get_active get_bundle write_rollout get_rollout
rollout_started = refl

rollout_splits_example :
    (1 ≤ 25)
    × (25 ≤ 99)
    × ((b : PolicyBundle ℕ) × (d : PolicyBundle ℕ) × ((get_active slot store).0 ≡ ok b)
        × ((get_bundle slot "2" store).0 ≡ ok d)
        × ((b.version == "2") ≡ false)
        × ((resolve_active settings.bucket_hash slot "agent"
              (start_rollout settings.seed_digest slot "2" 25 "bob" "seed" none 9 store).1).0
            ≡ ok (
                if ltb (settings.bucket_hash "seed" "acme" "prod" "agent" % 100) 25 then d else b)))
rollout_splits_example =
    rollout_splits settings.bucket_hash settings.seed_digest slot "2" "bob" "seed" "agent" 25 9
      started store refl rollout_started
