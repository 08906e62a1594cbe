-- ===== src/Approvals/Broker/Replays.antt =====
-- The grants that the broker answers with.
use agent_roi.Base.{ℕ, ◌≤◌, ◌≡◌, String, true, none, some, arith, eq_refl, inl, inr, Option-cases}
use agent_roi.Result.{ok, Result-cases}
use agent_roi.Dict
use agent_roi.Dict.{Dict, get-put, get-remove}
use agent_roi.Tools.Grant.{ApprovalGrant, check_grant, validate, Covers, validate_iff}
use agent_roi.Context.Types.{Checkpoint}
use agent_roi.Approvals.Broker.{
  Desk, Broker, current_grant, replayed, replay_action, submit_once, ask,
}

-- what a checked grant keeps
pub check_grant-keeps :
    (g h : ApprovalGrant)
    → check_grant g ≡ ok h
    → (h.action_digest ≡ g.action_digest)
      × (h.expires_at ≡ g.expires_at)
      × (h.checkpoint_id ≡ g.checkpoint_id)
unfolding check_grant
check_grant-keeps g h e = (ground arith, ground arith, ground arith)

module _ {X F : Type 0} (desk : Desk X) where
  -- a grant that still holds
  current-Covers :
      (cp : Checkpoint F) (now : ℕ) (g : ApprovalGrant) (t : Broker)
      → (current_grant desk cp now t).0 ≡ ok (some g)
      → Covers g cp.action_digest cp.checkpoint_id now
  unfolding current_grant
  current-Covers cp now g t h = elim (Option-cases (Dict.get t.grants cp.checkpoint_id)) [
    | inl missing ↦ ground (arith, missing, h)
    | inr (held, found) ↦
        elim (Result-cases (validate held cp.action_digest cp.checkpoint_id now)) [
          | inl (_, valid) ↦
              (validate_iff g cp.action_digest cp.checkpoint_id now).0
                (ground (arith, found, valid, h))
          | inr (e, invalid) ↦ ground (arith, found, invalid, h)
        ]
  ]

  -- a replayed grant
  replay-Covers :
      (cp : Checkpoint F) (now : ℕ) (g : ApprovalGrant) (t : Broker)
      → now ≤ cp.expires_at
      → (replay_action desk cp now t).0 ≡ ok (some g)
      → Covers g cp.action_digest cp.checkpoint_id now
  unfolding replay_action
  replay-Covers cp now g t alive h =
      elim (Option-cases (Dict.get t.approved_actions cp.action_digest)) [
        | inl missing ↦ ground (arith, missing, h)
        | inr (held, found) ↦ elim (Result-cases (check_grant (replayed cp held))) [
          | inl (r, good) ↦
              let kept = check_grant-keeps (replayed cp held) r good in
              (record {
                same_action = ground (arith, found, good, h, kept);
                same_checkpoint = ground (arith, found, good, h, kept, eq_refl cp.checkpoint_id);
                alive = ground (arith, found, good, h, kept);
              })
          | inr (e, bad) ↦ ground (arith, found, bad, h)
        ]
      ]

  -- A grant that the broker answers with is for the action and the checkpoint of the call and has not
  -- expired, so `validate` accepts it, if the checkpoint has not expired itself.
  pub ask-Covers :
      (cp : Checkpoint F) (fresh : String) (now : ℕ) (g : ApprovalGrant) (t : Broker)
      → now ≤ cp.expires_at
      → (ask desk cp fresh now t).0 ≡ ok (some g)
      → Covers g cp.action_digest cp.checkpoint_id now
  unfolding ask
  ask-Covers cp fresh now g t alive h =
      let held = current_grant desk cp now t in
      let again = replay_action desk cp now held.1 in
      elim (Result-cases held.0) [
        | inr (e, raised) ↦ ground (arith, raised, h)
        | inl (some g', same) ↦ current-Covers cp now g t (ground (arith, same, h))
        | inl (none, none_held) ↦ elim (Result-cases again.0) [
          | inr (e, raised) ↦ ground (arith, none_held, raised, h)
          | inl (some g', same) ↦
              replay-Covers cp now g held.1 alive (ground (arith, none_held, same, h))
          | inl (none, nothing) ↦ absurd (ground (arith, none_held, nothing, h))
        ]
      ]

  -- The broker submits a checkpoint once: while a request for it is on record, a further call changes no
  -- record, whatever the provider would do.
  pub ask_keeps :
      (cp : Checkpoint F) (fresh : String) (now : ℕ) (t : Broker)
      → Dict.contains t.records cp.checkpoint_id ≡ true
      → (ask desk cp fresh now t).1.records ≡ t.records
  unfolding ask current_grant replay_action submit_once
  ask_keeps cp fresh now t known = ground (arith, known)
