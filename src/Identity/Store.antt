-- ===== src/Identity/Store.antt =====
-- The users and groups of `SqliteIdentityStore` of enterprise/identity.py. A foreign key is checked by
-- the statement that writes, and a DELETE removes the rows that refer to it. Lists of permissions,
-- addresses and attributes stand for their JSON.
pub mod Agreement
pub mod Links
pub mod GroupLinks
pub mod Principals
mod Tests
use agent_roi.Base.{
  ℕ, String, Bool, true, false, Option, none, some, List, [], ◌∷◌, ◌++◌, ◌==◌, any, count, drop,
  filter, is_some, length, map, min, nat_eq, not, take, ◌&&◌, ◌||◌, if◌then◌else◌,
}
use agent_roi.Base.Text.{strip, is_blank, is_empty}
use agent_roi.Result.{Result, ok, err, Exec}
use agent_roi.Sort.{sort_with, text_le}
use agent_roi.Table.{update, delete, insert, select_one}
use agent_roi.Identity.Principal.{
  IdentityError, blank_name, name_taken, unknown_members, unknown_user, unknown_group, unknown_role,
  unknown_role_name, unknown_binding, inactive_user, integrity_error, member, Principal,
  RoleDefinition, RoleBinding, new_principal, text_of, flag_of,
}
use agent_roi.Identity.Rbac.{RbacAuthorizer, new_authorizer, authorize, require}
use agent_roi.Identity.Scim.{
  Item, plain, valued, other, UserPayload, GroupPayload, ScimUser, ScimGroup, user_id, user_name_is,
  user_of, or_empty, or_true, id_or, set_of, groups_of, mapped_roles,
}
use agent_roi.Identity.Tables.{
  GroupRow, Membership, BindingRow, IdentityTables, row_id, row_name, of_group, of_user, role_name,
  of_role, has_binding, printed_texts, page, member_ids, memberships, group_of_row, Storing,
}

module _ {V : Type 0} where
  -- `create_user`: the identifier and the name are unique
  unfoldable pub create_user : String → UserPayload V → Storing V (ScimUser V)
  create_user fresh payload t =
      let u = user_of fresh payload in
      if is_empty u.user_name
      then (err blank_name, t)
      else if any (user_id u.id) t.users || any (user_name_is u.user_name) t.users
      then (err name_taken, t)
      else (ok u, record t { users = insert u t.users })

  -- `get_user`
  abbrev pub get_user : String → IdentityTables V → Result IdentityError (ScimUser V)
  get_user id t = elim (select_one (user_id id) t.users) [ none ↦ err unknown_user | some u ↦ ok u ]

  -- `list_users`
  unfoldable pub list_users :
      Option ℕ → ℕ → IdentityTables V → Result IdentityError (List (ScimUser V))
  unfolding sort_with
  list_users limit offset t =
      page limit offset (sort_with (λ a b. text_le a.user_name b.user_name) t.users)

  -- `count_users`
  abbrev pub count_users : IdentityTables V → ℕ
  count_users t = length t.users

  -- the user that `replace_user` writes
  abbrev pub replacement : String → UserPayload V → ScimUser V
  replacement id payload = record {
    id = id;
    user_name = strip (or_empty payload.user_name);
    active = or_true payload.active;
    display_name = or_empty payload.display_name;
    emails = printed_texts payload.emails;
    external_id = or_empty payload.external_id;
    attributes = payload.attributes;
  }

  -- the UPDATE of `replace_user`, which no other user with the name may stop
  unfoldable pub write_user : ScimUser V → Storing V (ScimUser V)
  write_user u t =
      if any (λ x. user_name_is u.user_name x && not (user_id u.id x)) t.users
        && is_some (select_one (user_id u.id) t.users)
      then (err integrity_error, t)
      else (ok u, record t { users = update (user_id u.id) (λ _. u) t.users })

  -- `replace_user`
  unfoldable pub replace_user : String → UserPayload V → Storing V (ScimUser V)
  unfolding write_user
  replace_user id payload t =
      let u = replacement id payload in
      if not (is_some (select_one (user_id id) t.users))
      then (err unknown_user, t)
      else if is_empty u.user_name
      then (err blank_name, t)
      else write_user u t

  -- `delete_user`: its memberships go with it
  unfoldable pub delete_user : String → Storing V (Unit {0})
  delete_user id t =
      if nat_eq (count (user_id id) t.users) 1
      then (
        ok tt,
        record t { users = delete (user_id id) t.users; members = delete (of_user id) t.members },
      )
      else (err unknown_user, t)

  -- the transaction of `create_group`: the keys of the group, and the users of the members
  unfoldable pub insert_group : GroupRow → List String → Storing V (Unit {0})
  insert_group g members t =
      if any (row_id g.id) t.groups
        || any (row_name g.display_name) t.groups
        || any (λ m. not (any (user_id m) t.users)) members
      then (err name_taken, t)
      else (
        ok tt,
        record t { groups = insert g t.groups; members = t.members ++ memberships g.id members },
      )

  -- `create_group`
  unfoldable pub create_group : String → GroupPayload → Storing V ScimGroup
  unfolding insert_group
  create_group fresh payload t =
      let g : GroupRow = record {
        id = id_or fresh payload.id;
        display_name = strip (or_empty payload.display_name);
        external_id = or_empty payload.external_id;
      } in
      let members = member_ids payload in
      if is_empty g.display_name
      then (err blank_name, t)
      else if any (λ m. not (any (user_id m) t.users)) members
      then (err unknown_members, t)
      else (let (r, t') = insert_group g members t in
          (elim r [ err x ↦ err x | ok _ ↦ ok (group_of_row g members) ], t'))

  -- `get_group`
  abbrev pub get_group : String → IdentityTables V → Result IdentityError ScimGroup
  get_group id t = elim (select_one (row_id id) t.groups) [
    | none ↦ err unknown_group
    | some g ↦ ok (group_of_row g (map (λ m. m.user_id) (filter (of_group id) t.members)))
  ]

  -- the transaction of `replace_group`
  unfoldable pub write_group : GroupRow → List String → Storing V (Unit {0})
  write_group g members t =
      if (any (row_id g.id) t.groups
          && any (λ x. row_name g.display_name x && not (row_id g.id x)) t.groups)
        || any (λ m. not (any (row_id g.id) t.groups) || not (any (user_id m) t.users)) members
      then (err integrity_error, t)
      else (
        ok tt,
        record t {
          groups = update (row_id g.id) (λ _. g) t.groups;
          members = delete (of_group g.id) t.members ++ memberships g.id members;
        },
      )

  -- `replace_group`
  unfoldable pub replace_group : String → GroupPayload → Storing V ScimGroup
  unfolding write_group
  replace_group id payload t =
      let g : GroupRow = record {
        id = id;
        display_name = strip (or_empty payload.display_name);
        external_id = or_empty payload.external_id;
      } in
      let members = member_ids payload in
      if not (is_some (select_one (row_id id) t.groups))
      then (err unknown_group, t)
      else if is_empty g.display_name
      then (err blank_name, t)
      else if any (λ m. not (any (user_id m) t.users)) members
      then (err unknown_members, t)
      else (let (r, t') = write_group g members t in
          (elim r [ err x ↦ err x | ok _ ↦ get_group id t' ], t'))

  -- `delete_group`: its memberships go with it
  unfoldable pub delete_group : String → Storing V (Unit {0})
  delete_group id t =
      if nat_eq (count (row_id id) t.groups) 1
      then (
        ok tt,
        record t { groups = delete (row_id id) t.groups; members = delete (of_group id) t.members },
      )
      else (err unknown_group, t)
