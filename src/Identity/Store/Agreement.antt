-- ===== src/Identity/Store/Agreement.antt =====
-- The store in SQLite beside the directory in memory.
use agent_roi.Base.{◌≡◌, refl, arith, String, Bool, true, false, List, [], ◌∷◌, any, is_some}
use agent_roi.Base.Text.{is_empty}
use agent_roi.Result.{err}
use agent_roi.Table.{select_one}
use agent_roi.Identity.Principal.{name_taken}
use agent_roi.Identity.Scim.{UserPayload, Directory, user_id, user_of}
use agent_roi.Identity.Directory
use agent_roi.Identity.Tables.{IdentityTables}
use agent_roi.Identity.Store.{create_user}

no-any :
    {R : Type 0} (q : R → Bool) (t : List R) → any q t ≡ false → is_some (select_one q t) ≡ false
no-any q [] h = refl
no-any q (x ∷ t) h = ground (arith, h, no-any q t)

-- `create_user` of the store does what that of the directory does on the same users, while no user has the
-- identifier of the new one; where one has it, the store refuses and changes nothing.
pub create_user-agrees :
    {V : Type 0} (fresh : String) (payload : UserPayload V) (t : IdentityTables V) (d : Directory V)
    → d.users ≡ t.users
    → (any (user_id (user_of fresh payload).id) t.users ≡ false
        → ((create_user fresh payload t).0 ≡ (Directory.create_user fresh payload d).0)
          × ((create_user fresh payload t).1.users
              ≡ (Directory.create_user fresh payload d).1.users))
      × (any (user_id (user_of fresh payload).id) t.users ≡ true
          → is_empty (user_of fresh payload).user_name ≡ false
          → create_user fresh payload t ≡ (err name_taken, t))
unfolding create_user Directory.create_user
create_user-agrees fresh payload t d same = (
  (λ new.
      let absent = no-any (user_id (user_of fresh payload).id) t.users new in
      (ground (arith, new, absent, same), ground (arith, new, absent, same))),
  (λ known named. ground (arith, known, named)),
)
