-- ===== src/Identity/Roles.antt =====
-- The roles and bindings of `SqliteIdentityStore`, and `DynamicRBACAuthorizer`, of enterprise/identity.py.
pub mod Decisions
use agent_roi.Base.{
  ℕ, String, Bool, true, false, Option, none, some, List, [], ◌∷◌, ◌++◌, ◌==◌, any, count, drop,
  filter, is_some, length, map, min, nat_eq, not, take, ◌&&◌, ◌||◌, if◌then◌else◌,
}
use agent_roi.Base.Text.{strip, is_blank, is_empty}
use agent_roi.Result.{Result, ok, err, Exec}
use agent_roi.Sort.{sort_with, text_le}
use agent_roi.Table.{update, delete, insert, select_one}
use agent_roi.Identity.Principal.{
  IdentityError, blank_name, name_taken, unknown_members, unknown_user, unknown_group, unknown_role,
  unknown_role_name, unknown_binding, inactive_user, integrity_error, member, Principal,
  RoleDefinition, RoleBinding, new_principal, text_of, flag_of,
}
use agent_roi.Identity.Rbac.{RbacAuthorizer, new_authorizer, authorize, require}
use agent_roi.Identity.Scim.{
  Item, plain, valued, other, UserPayload, GroupPayload, ScimUser, ScimGroup, user_id, user_name_is,
  user_of, or_empty, or_true, id_or, set_of, groups_of, mapped_roles,
}
use agent_roi.Identity.Tables.{
  GroupRow, Membership, BindingRow, IdentityTables, row_id, row_name, of_group, of_user, role_name,
  of_role, has_binding, printed_texts, page, member_ids, memberships, Storing,
}

module _ {V : Type 0} where
  -- `save_role`: a role of the same name is overwritten
  unfoldable pub save_role : RoleDefinition → IdentityTables V → IdentityTables V
  save_role r t =
      if any (role_name r.name) t.roles
      then record t { roles = update (role_name r.name) (λ _. r) t.roles }
      else record t { roles = insert r t.roles }

  -- `save_binding`; `fresh` is drawn at random
  unfoldable pub save_binding : String → RoleBinding → Storing V String
  save_binding fresh b t =
      if any (has_binding fresh) t.bindings || not (any (role_name b.role) t.roles)
      then (err unknown_role, t)
      else (
        ok fresh,
        record t { bindings = insert (record { binding_id = fresh; binding = b }) t.bindings },
      )

  -- `delete_role`: its bindings go with it
  unfoldable pub delete_role : String → Storing V (Unit {0})
  delete_role name t =
      if nat_eq (count (role_name name) t.roles) 1
      then (
        ok tt,
        record t {
          roles = delete (role_name name) t.roles;
          bindings = delete (of_role name) t.bindings;
        },
      )
      else (err unknown_role_name, t)

  -- `delete_binding`
  unfoldable pub delete_binding : String → Storing V (Unit {0})
  delete_binding id t =
      if nat_eq (count (has_binding id) t.bindings) 1
      then (ok tt, record t { bindings = delete (has_binding id) t.bindings })
      else (err unknown_binding, t)

  -- `list_roles` and `list_bindings`
  unfoldable pub list_roles : IdentityTables V → List RoleDefinition
  unfolding sort_with
  list_roles t = sort_with (λ a b. text_le a.name b.name) t.roles

  unfoldable pub list_bindings : IdentityTables V → List BindingRow
  unfolding sort_with
  list_bindings t = sort_with (λ a b. text_le a.binding_id b.binding_id) t.bindings

  -- `authorizer`; the rows were saved from roles and bindings that had passed their checks
  unfoldable pub authorizer : IdentityTables V → Result IdentityError RbacAuthorizer
  unfolding list_roles list_bindings new_authorizer
  authorizer t = new_authorizer (list_roles t) (map (λ b. b.binding) (list_bindings t)) true

  -- `DynamicRBACAuthorizer.require`
  unfoldable pub require_now :
      (String → String → Bool)
      → IdentityTables V
      → Principal
      → String
      → String
      → Option String
      → Result IdentityError (Unit {0})
  unfolding authorizer require
  require_now fnmatchcase t p action resource environment = elim (authorizer t) [
    | err x ↦ err x
    | ok a ↦ require fnmatchcase a p action resource environment
  ]
