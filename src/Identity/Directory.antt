-- ===== src/Identity/Directory.antt =====
-- `SCIMDirectory` of enterprise/identity.py. A dictionary is the list of its
-- values, whose keys are their identifiers. Its lock makes each method atomic.
pub mod Keys
pub mod Groups
pub mod Replacement
use agent_roi.Base.{
  ℕ, String, Bool, true, false, Option, none, some, List, [], ◌∷◌, ◌==◌, any, filter, is_some,
  length, map, not, if◌then◌else◌,
}
use agent_roi.Base.Text.{strip, is_blank, is_empty}
use agent_roi.Result.{Result, ok, err, Exec}
use agent_roi.Table.{update, delete, put, select_one}
use agent_roi.Identity.Principal.{
  IdentityError, blank_name, name_taken, unknown_members, unknown_user, unknown_group,
  inactive_user, adjoin, union, member, Principal, new_principal, text_of, flag_of,
}
use agent_roi.Identity.Scim.{
  UserPayload, GroupPayload, ScimUser, ScimGroup, Directory, Directing, user_id, user_name_is,
  user_of, group_id, group_name, group_of, groups_of, mapped_roles, without,
}

module _ {V : Type 0} where
  -- `create_user`
  unfoldable pub create_user : String → UserPayload V → Directing V (ScimUser V)
  create_user fresh payload d =
      let u = user_of fresh payload in
      if is_empty u.user_name
      then (err blank_name, d)
      else if any (user_name_is u.user_name) d.users
      then (err name_taken, d)
      else (ok u, record d { users = put (user_id u.id) u d.users })

  -- `replace_user`: what was removed is put back if the new user is refused
  unfoldable pub replace_user : String → String → UserPayload V → Directing V (ScimUser V)
  unfolding create_user
  replace_user fresh id payload d = elim (select_one (user_id id) d.users) [
    | none ↦ (err unknown_user, d)
    | some previous ↦
        let (r, d') =
          create_user fresh (record payload { id = some id })
            (record d { users = delete (user_id id) d.users }) in
        (r, elim r [ ok u ↦ d' | err x ↦ record d' { users = put (user_id id) previous d'.users } ])
  ]

  -- `get_user`
  abbrev pub get_user : String → Directory V → Result IdentityError (ScimUser V)
  get_user id d = elim (select_one (user_id id) d.users) [ none ↦ err unknown_user | some u ↦ ok u ]

  -- `delete_user`: the user leaves its groups
  unfoldable pub delete_user : String → Directing V (Unit {0})
  delete_user id d =
      if is_some (select_one (user_id id) d.users)
      then (
        ok tt,
        record {
          users = delete (user_id id) d.users;
          groups = update (λ g. member id g.members) (without id) d.groups;
        },
      )
      else (err unknown_user, d)

  -- `create_group`
  unfoldable pub create_group : String → GroupPayload → Directing V ScimGroup
  create_group fresh payload d =
      let g = group_of fresh payload in
      if is_empty g.display_name
      then (err blank_name, d)
      else if any (λ m. not (any (user_id m) d.users)) g.members
      then (err unknown_members, d)
      else if any (group_name g.display_name) d.groups
      then (err name_taken, d)
      else (ok g, record d { groups = put (group_id g.id) g d.groups })

  -- `replace_group`
  unfoldable pub replace_group : String → String → GroupPayload → Directing V ScimGroup
  unfolding create_group
  replace_group fresh id payload d = elim (select_one (group_id id) d.groups) [
    | none ↦ (err unknown_group, d)
    | some previous ↦
        let (r, d') =
          create_group fresh (record payload { id = some id })
            (record d { groups = delete (group_id id) d.groups }) in
        (
          r,
          elim r [
            | ok g ↦ d'
            | err x ↦ record d' { groups = put (group_id id) previous d'.groups }
          ],
        )
  ]

  -- `get_group`
  abbrev pub get_group : String → Directory V → Result IdentityError ScimGroup
  get_group id d = elim (select_one (group_id id) d.groups) [
    | none ↦ err unknown_group
    | some g ↦ ok g
  ]

  -- `delete_group`
  unfoldable pub delete_group : String → Directing V (Unit {0})
  delete_group id d =
      if is_some (select_one (group_id id) d.groups)
      then (ok tt, record d { groups = delete (group_id id) d.groups })
      else (err unknown_group, d)

  -- `principal_for`
  unfoldable pub principal_for :
      String → String → (String → List String) → Directory V → Result IdentityError Principal
  unfolding new_principal
  principal_for id organization role_mapping d = elim (select_one (user_id id) d.users) [
    | none ↦ err unknown_user
    | some u ↦
        let groups = groups_of id d.groups in
        if not u.active
        then err inactive_user
        else new_principal (record {
          subject = u.id;
          organization_id = organization;
          display_name = u.display_name;
          email = elim u.emails [ [] ↦ "" | e ∷ l ↦ e ];
          roles = mapped_roles role_mapping groups;
          groups = groups;
          attributes = ("user_name", text_of u.user_name) ∷ ("active", flag_of u.active) ∷ [];
          token_id = "";
        })
  ]
