-- ===== src/Identity/Rbac.antt =====
-- `RBACAuthorizer` of enterprise/identity.py, over `fnmatchcase` of a library.
pub mod Grants
use agent_roi.Base.{
  String, Bool, true, false, Option, none, some, List, [], ◌∷◌, ◌==◌, any, not, is_some, ◌&&◌, ◌||◌,
  if◌then◌else◌,
}
use agent_roi.Base.Text.{is_empty, join}
use agent_roi.Result.{Result, ok, err}
use agent_roi.Dict
use agent_roi.Dict.{Dict}
use agent_roi.Identity.Principal.{
  IdentityError, unknown_role, not_authorized, member, adjoin, union, Principal, RoleDefinition,
  RoleBinding,
}

pub record RbacAuthorizer : Type 0 where
  pub roles : Dict RoleDefinition
  pub bindings : List RoleBinding
  pub default_deny : Bool

-- `{role.name: role for role in roles}`
abbrev pub by_name : List RoleDefinition → Dict RoleDefinition → Dict RoleDefinition
by_name [] d = d
by_name (r ∷ l) d = by_name l (Dict.put d r.name r)

-- `__init__`
unfoldable pub new_authorizer :
    List RoleDefinition → List RoleBinding → Bool → Result IdentityError RbacAuthorizer
new_authorizer roles bindings default_deny =
    let known = by_name roles Dict.empty in
    if any (λ b. not (Dict.contains known b.role)) bindings
    then err unknown_role
    else ok (record { roles = known; bindings = bindings; default_deny = default_deny })

-- `with_bindings`
unfoldable pub with_bindings :
    RbacAuthorizer → List RoleBinding → Result IdentityError RbacAuthorizer
unfolding new_authorizer
with_bindings a bindings = new_authorizer (Dict.values a.roles) bindings a.default_deny

-- the tests of the loop of `effective_roles`
abbrev pub in_scope : Principal → String → RoleBinding → Bool
in_scope p environment b =
    b.organization_id == p.organization_id && (b.environment == "*" || b.environment == environment)

abbrev pub names : Principal → RoleBinding → Bool
names p b =
    (not (is_empty b.subject) && b.subject == p.subject)
    || (not (is_empty b.group) && member b.group p.groups)

abbrev pub bound_roles : Principal → String → List RoleBinding → List String
bound_roles p environment [] = p.roles
bound_roles p environment (b ∷ l) =
    let rest = bound_roles p environment l in
    if in_scope p environment b && names p b then adjoin b.role rest else rest

-- `effective_roles`
unfoldable pub effective_roles : RbacAuthorizer → Principal → String → List String
effective_roles a p environment = bound_roles p environment a.bindings

abbrev pub permissions_of : Dict RoleDefinition → List String → List String
permissions_of roles [] = []
permissions_of roles (name ∷ l) =
    let rest = permissions_of roles l in
    elim (Dict.get roles name) [ none ↦ rest | some r ↦ union r.permissions rest ]

-- `permissions_for`
unfoldable pub permissions_for : RbacAuthorizer → Principal → String → List String
unfolding effective_roles
permissions_for a p environment = permissions_of a.roles (effective_roles a p environment)

-- `(context or {}).get("environment", "*")`
abbrev pub environment_of : Option String → String
environment_of none = "*"
environment_of (some e) = e

abbrev pub requested : String → String → String
requested action resource = if is_empty resource then action else join action (join ":" resource)

module _ (fnmatchcase : String → String → Bool) where
  -- what a permission allows
  abbrev pub allows : String → String → String → Bool
  allows action resource permission =
      permission == "*"
      || fnmatchcase action permission
      || fnmatchcase (requested action resource) permission

  -- `authorize`
  unfoldable pub authorize : RbacAuthorizer → Principal → String → String → Option String → Bool
  unfolding permissions_for
  authorize a p action resource environment =
      any (allows action resource) (permissions_for a p (environment_of environment))
      || not a.default_deny

  -- `require`
  unfoldable pub require :
      RbacAuthorizer → Principal → String → String → Option String → Result IdentityError (Unit {0})
  unfolding authorize
  require a p action resource environment =
      if authorize a p action resource environment then ok tt else err not_authorized
