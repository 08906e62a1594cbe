-- ===== src/ControlPlane/Rollout.antt =====
-- Which policy each agent gets during a rollout.
use mathlib.Core.Option
use agent_roi.Base.{
  ℕ, ◌%◌, ◌≤◌, ◌≡◌, refl, String, false, none, some, List, arith, ◌==◌, eq_refl, eq_iff,
  Option-cases, Bool-cases, leb, ◌&&◌, inl, inr, ltb, if◌then◌else◌,
}
use agent_roi.Base.Text.{is_empty}
use agent_roi.Result.{ok}
use agent_roi.Table.{select_one, find-insert_hit, find-update, find-delete_self, find_hit}
use agent_roi.ControlPlane.Rows.{
  PolicyBundle, PolicyRollout, ActivePolicy, Store, Slot, bundle_at, active_at, rollout_at, upsert,
  restarted, new_rollout,
}
use agent_roi.ControlPlane.Store.{
  get_bundle, get_active, write_rollout, get_rollout, start_rollout, resolve_active, cancel_rollout,
}

-- what `resolve_active` reads of the row of a rollout
abbrev shares : PolicyRollout → String × String × ℕ × String
shares r = (r.primary_version, r.candidate_version, r.candidate_percentage, r.seed)

upserted :
    (s : Slot) (primary candidate seed by : String) (percentage now : ℕ) (l : List PolicyRollout)
    → Option.map shares (
        select_one (rollout_at s) (
          upsert
            (rollout_at s)
            (new_rollout s primary candidate percentage seed now by)
            (restarted primary candidate percentage seed now by)
            l))
      ≡ some (primary, candidate, percentage, seed)
upserted s primary candidate seed by percentage now l =
    elim (Option-cases (select_one (rollout_at s) l)) [
      | inl new ↦ ground (
        arith,
        new,
        eq_refl s.organization_id,
        eq_refl s.name,
        eq_refl s.environment,
        find-insert_hit (rollout_at s) (new_rollout s primary candidate percentage seed now by) l,
      )
      | inr (r, known) ↦ ground (
        arith,
        known,
        find_hit (rollout_at s) l r known,
        find-update (rollout_at s) (rollout_at s)
            (restarted primary candidate percentage seed now by) l (λ q p. refl),
      )
    ]

module _ {P : Type 0} (hash : String → String → String → String → ℕ)
    (digest : Slot → String → String) where
  -- what an agent gets, once the rollout has passed its checks
  checked_splits :
      (s : Slot) (candidate by seed agent : String) (percentage now : ℕ) (a : ActivePolicy)
      (b d : PolicyBundle P) (t : Store P)
      → is_empty seed ≡ false
      → 1 ≤ percentage
      → percentage ≤ 99
      → select_one (active_at s) t.active ≡ some a
      → select_one (bundle_at s a.version) t.bundles ≡ some b
      → select_one (bundle_at s candidate) t.bundles ≡ some d
      → (b.version == candidate) ≡ false
      → (resolve_active hash s agent
          (start_rollout digest s candidate percentage by seed none now t).1).0
        ≡ ok (
            if ltb (hash seed s.organization_id s.environment agent % 100) percentage then d else b)
  unfolding start_rollout resolve_active get_active get_bundle write_rollout get_rollout
  checked_splits s candidate by seed agent percentage now a b d t given low high active stored other
        apart =
      ground (
        arith,
        given,
        low,
        high,
        active,
        stored,
        other,
        apart,
        find_hit (bundle_at s a.version) t.bundles b stored,
        eq_iff b.version a.version,
        upserted s b.version candidate seed by percentage now t.rollouts,
      )

  -- `start_rollout` with a given seed, and without an expected revision, returns only if the percentage is
  -- from 1 to 99 and the candidate is a stored version other than the active one. Then an agent gets the
  -- candidate if its bucket, a hash of the seed, the organization, the environment and the agent modulo
  -- 100, is below the percentage, and the bundle that was active otherwise.
  pub rollout_splits :
      (s : Slot) (candidate by seed agent : String) (percentage now : ℕ) (r : PolicyRollout)
      (t : Store P)
      → is_empty seed ≡ false
      → (start_rollout digest s candidate percentage by seed none now t).0 ≡ ok r
      → (1 ≤ percentage)
        × (percentage ≤ 99)
        × ((b : PolicyBundle P) × (d : PolicyBundle P) × ((get_active s t).0 ≡ ok b)
            × ((get_bundle s candidate t).0 ≡ ok d)
            × ((b.version == candidate) ≡ false)
            × ((resolve_active hash s agent
                  (start_rollout digest s candidate percentage by seed none now t).1).0
                ≡ ok (
                    if ltb (hash seed s.organization_id s.environment agent % 100) percentage
                    then d
                    else b)))
  unfolding start_rollout get_active get_bundle write_rollout get_rollout
  rollout_splits s candidate by seed agent percentage now r t given started =
      elim (Bool-cases (leb 1 percentage && leb percentage 99)) [
        | inr out ↦ absurd (ground (arith, out, started))
        | inl within ↦
            let low : 1 ≤ percentage = ground (arith, within) in
            let high : percentage ≤ 99 = ground (arith, within) in
            elim (Option-cases (select_one (active_at s) t.active)) [
              | inl idle ↦ absurd (ground (arith, within, idle, started))
              | inr (a, active) ↦
                  elim (Option-cases (select_one (bundle_at s a.version) t.bundles)) [
                    | inl lost ↦ absurd (ground (arith, within, active, lost, started))
                    | inr (b, stored) ↦
                        elim (Option-cases (select_one (bundle_at s candidate) t.bundles)) [
                          | inl unknown ↦
                              absurd (ground (arith, within, active, stored, unknown, started))
                          | inr (d, other) ↦ elim (Bool-cases (b.version == candidate)) [
                            | inl same ↦
                                absurd
                                  (ground (arith, within, active, stored, other, same, started))
                            | inr apart ↦ (
                              low,
                              high,
                              (
                                b,
                                d,
                                ground (arith, active, stored),
                                ground (arith, other),
                                apart,
                                checked_splits s candidate by seed agent percentage now a b d t
                                    given low high active stored other apart,
                              ),
                            )
                          ]
                        ]
                  ]
            ]
      ]

  -- After `cancel_rollout` every agent gets the active bundle.
  pub cancel_restores :
      (s : Slot) (agent : String) (t : Store P)
      → (resolve_active hash s agent (cancel_rollout s t).1).0 ≡ (get_active s t).0
  unfolding resolve_active cancel_rollout get_active get_bundle
  cancel_restores s agent t = ground (arith, find-delete_self (rollout_at s) t.rollouts)
