-- ===== src/ControlPlane/Store.antt =====
-- `PolicyBundle` and `SqliteControlPlaneStore` of enterprise/control_plane.py, over a type `P` of policy
-- documents. Readings of the clock are arguments; the listings and the metadata of agents are left out.
use agent_roi.Base.{
  ℕ, ◌%◌, String, Option, none, some, ◌==◌, is_some, leb, ltb, not, ◌&&◌, if◌then◌else◌,
}
use agent_roi.Base.Text.{is_empty}
use agent_roi.Result.{ok, err}
use agent_roi.Exec.{pure, raise_if, gets, modify, ◌>>=◌, ◌>>◌}
use agent_roi.Table.{insert, update, delete, select_one}
use agent_roi.ControlPlane.Rows.{
  PolicyBundle, PolicyRollout, Storing, Slot, bundle_at, active_at, rollout_at, upsert, activated,
  new_active, restarted, new_rollout, active_as, rollout_as, version_exists, bundle_not_found,
  no_active_policy, no_rollout, active_conflict, rollout_conflict, bad_percentage, same_version,
}

module _ {P : Type 0} where
  -- `save_bundle`
  unfoldable pub save_bundle : PolicyBundle P → Storing P (Unit {0})
  save_bundle b t =
      let slot : Slot = record {
        organization_id = b.organization_id;
        name = b.name;
        environment = b.environment;
      } in
      if is_some (select_one (bundle_at slot b.version) t.bundles)
      then (err version_exists, t)
      else (ok tt, record t { bundles = insert b t.bundles })

  -- `get_bundle`
  unfoldable pub get_bundle : Slot → String → Storing P (PolicyBundle P)
  get_bundle s version t = elim (select_one (bundle_at s version) t.bundles) [
    | none ↦ (err bundle_not_found, t)
    | some b ↦ (ok b, t)
  ]

  -- the writes to `active_policies` in `activate`
  unfoldable pub write_active : Slot → String → String → Option ℕ → ℕ → Storing P (Unit {0})
  write_active s version by none now t = (
    ok tt,
    record t {
      active =
          upsert (active_at s) (new_active s version now by) (activated version now by) t.active;
    },
  )
  write_active s version by (some expected) now t =
      let matches = active_as s expected in
      if is_some (select_one matches t.active)
      then (ok tt, record t { active = update matches (activated version now by) t.active })
      else (err active_conflict, t)

  -- `cancel_rollout`
  unfoldable pub cancel_rollout : Slot → Storing P (Unit {0})
  cancel_rollout s = modify (λ t. record t { rollouts = delete (rollout_at s) t.rollouts })

  -- `activate`, which also ends the rollout
  unfoldable pub activate : Slot → String → String → Option ℕ → ℕ → Storing P (PolicyBundle P)
  unfolding get_bundle write_active cancel_rollout
  activate s version by expected now = do
    b ← get_bundle s version
    write_active s version by expected now
    cancel_rollout s
    pure b

  -- `get_active`
  unfoldable pub get_active : Slot → Storing P (PolicyBundle P)
  unfolding get_bundle
  get_active s t = elim (select_one (active_at s) t.active) [
    | none ↦ (err no_active_policy, t)
    | some a ↦ get_bundle s a.version t
  ]

  -- `get_active_revision`
  unfoldable pub get_active_revision : Slot → Storing P ℕ
  get_active_revision s t = elim (select_one (active_at s) t.active) [
    | none ↦ (err no_active_policy, t)
    | some a ↦ (ok a.revision, t)
  ]

  -- `get_rollout`
  unfoldable pub get_rollout : Slot → Storing P PolicyRollout
  get_rollout s t = elim (select_one (rollout_at s) t.rollouts) [
    | none ↦ (err no_rollout, t)
    | some r ↦ (ok r, t)
  ]

  -- the writes to `policy_rollouts` in `start_rollout`
  unfoldable pub write_rollout :
      Slot → String → String → ℕ → String → String → Option ℕ → ℕ → Storing P (Unit {0})
  write_rollout s primary candidate percentage seed by none now t = (
    ok tt,
    record t {
      rollouts =
          upsert (rollout_at s) (new_rollout s primary candidate percentage seed now by)
            (restarted primary candidate percentage seed now by) t.rollouts;
    },
  )
  write_rollout s primary candidate percentage seed by (some expected) now t =
      let matches = rollout_as s expected in
      if is_some (select_one matches t.rollouts)
      then (
        ok tt,
        record t {
          rollouts = update matches (restarted primary candidate percentage seed now by) t.rollouts;
        },
      )
      else (err rollout_conflict, t)

  -- `start_rollout`; `digest` is the first 16 digits of `digest_value`
  unfoldable pub start_rollout :
      (Slot → String → String)
      → Slot
      → String
      → ℕ
      → String
      → String
      → Option ℕ
      → ℕ
      → Storing P PolicyRollout
  unfolding get_active get_bundle write_rollout get_rollout
  start_rollout digest s candidate percentage by seed expected now = do
    raise_if (not (leb 1 percentage && leb percentage 99)) bad_percentage
    primary ← get_active s
    get_bundle s candidate >>= λ b. pure tt
    raise_if (primary.version == candidate) same_version
    write_rollout s primary.version candidate percentage
        (if is_empty seed then digest s candidate else seed) by expected now
    get_rollout s

  -- `resolve_active`; `hash` is the first 8 digits of the SHA-256 of the seed, the organization, the
  -- environment and the agent
  unfoldable pub resolve_active :
      (String → String → String → String → ℕ) → Slot → String → Storing P (PolicyBundle P)
  unfolding get_active get_bundle
  resolve_active hash s agent t =
      (do
        primary ← get_active s
        rollout ← gets (λ u. select_one (rollout_at s) u.rollouts)
        elim rollout [
          | none ↦ pure primary
          | some r ↦
              let bucket = hash r.seed s.organization_id s.environment agent % 100 in
              get_bundle s (
                if ltb bucket r.candidate_percentage
                then r.candidate_version
                else r.primary_version)
        ])
        t
