-- ===== src/Tools/Grant.antt =====
-- `ApprovalGrant` of runtime/tools.py. Times are milliseconds of the epoch.
use Prim.Native.Char.{code}
use agent_roi.Base.{
  ℕ, String, ◌≡◌, ◌≤◌, ◌↔◌, Bool, true, false, Option, none, some, arith, ◌==◌, eq_iff, leb, ltb,
  nat_eq, not, ◌&&◌, ◌||◌,
}
use agent_roi.Base.Text.{strip, is_blank, is_empty, text_length}
use agent_roi.Result.{Result, ok, ◌>>◌, raise_if}

pub record ApprovalGrant : Type 0 where
  pub action_digest : String
  pub approved_by : String
  pub expires_at : ℕ
  pub checkpoint_id : Option String
  pub reason : String

-- The `ValueError`s of `ApprovalGrant`.
pub data GrantError : Type 0 where
  bad_digest blank_approver wrong_action wrong_checkpoint grant_expired : GrantError

-- all characters among 0 to 9, a to f and A to F
unfoldable pub all_hex : String → Bool
all_hex String.[] = true
all_hex (String.◌∷◌ c s) =
    ((leb 48 (code c) && leb (code c) 57)
      || (leb 97 (code c) && leb (code c) 102)
      || (leb 65 (code c) && leb (code c) 70))
    && all_hex s

-- `__post_init__`
unfoldable pub check_grant : ApprovalGrant → Result GrantError ApprovalGrant
unfolding all_hex
check_grant g = do
  raise_if (not (nat_eq (text_length g.action_digest) 64) || not (all_hex g.action_digest))
      bad_digest
  raise_if (is_blank g.approved_by) blank_approver
  ok (record g { approved_by = strip g.approved_by })

-- `self.checkpoint_id and self.checkpoint_id != checkpoint_id`
abbrev pub other_checkpoint : Option String → String → Bool
other_checkpoint none id = false
other_checkpoint (some own) id = not (is_empty own) && not (own == id)

-- `validate`, for a checkpoint with the given digest and id
unfoldable pub validate : ApprovalGrant → String → String → ℕ → Result GrantError (Unit {0})
validate g action_digest checkpoint_id now = do
  raise_if (not (g.action_digest == action_digest)) wrong_action
  raise_if (other_checkpoint g.checkpoint_id checkpoint_id) wrong_checkpoint
  raise_if (ltb g.expires_at now) grant_expired

-- What a valid grant says: this action, this checkpoint if it names one, and not yet expired.
pub record Covers (g : ApprovalGrant) (action_digest checkpoint_id : String) (now : ℕ)
    : Type 0 where
  pub same_action : g.action_digest ≡ action_digest
  pub same_checkpoint : other_checkpoint g.checkpoint_id checkpoint_id ≡ false
  pub alive : now ≤ g.expires_at

-- `validate` accepts a grant exactly if it is for this action, for this checkpoint if it names one, and has
-- not expired.
pub validate_iff :
    (g : ApprovalGrant) (action_digest checkpoint_id : String) (now : ℕ)
    → (validate g action_digest checkpoint_id now ≡ ok tt)
      ↔ Covers g action_digest checkpoint_id now
unfolding validate
validate_iff g d c now =
    (λ h. ground (arith, eq_iff g.action_digest d), λ h. ground (arith, eq_iff g.action_digest d))
