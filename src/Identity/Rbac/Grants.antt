-- ===== src/Identity/Rbac/Grants.antt =====
-- Who is authorized: the roles and permissions behind a decision of `authorize`.
use agent_roi.Base.{
  String, ◌≡◌, ◌↔◌, inl, inr, refl, arith, Bool, true, false, Option, none, some, List, [], ◌∷◌,
  ◌==◌, any, not, ◌&&◌, ◌||◌, eq_iff, eq_refl, Bool-cases, Option-cases, filter, ap, sym, ◌∙◌,
}
use agent_roi.Dict
use agent_roi.Dict.{Dict}
use agent_roi.Result.{ok}
use agent_roi.Identity.Principal.{member, adjoin, union, Principal, RoleDefinition, RoleBinding}
use agent_roi.Identity.Rbac.{
  RbacAuthorizer, in_scope, names, bound_roles, effective_roles, permissions_of, permissions_for,
  environment_of, allows, authorize, require,
}

any-member :
    (q : String → Bool) (x : String) (s : List String)
    → member x s ≡ true
    → q x ≡ true
    → any q s ≡ true
any-member q x [] h e = ground (arith, h)
any-member q x (y ∷ s) h e = ground (arith, h, e, eq_iff y x, any-member q x s)

any-adjoin :
    (q : String → Bool) (x : String) (s : List String) → any q (adjoin x s) ≡ (q x || any q s)
any-adjoin q x s = ground (arith, any-member q x s)

any-union : (q : String → Bool) (s t : List String) → any q (union s t) ≡ (any q s || any q t)
any-union q [] t = refl
any-union q (x ∷ s) t = ground (arith, any-adjoin q x (union s t), any-union q s t)

-- a role that is held gives what it permits
any-permissions :
    (q : String → Bool) (roles : Dict RoleDefinition) (s : List String)
    → any q (permissions_of roles s)
      ≡ any (λ name. elim (Dict.get roles name) [ none ↦ false | some r ↦ any q r.permissions ]) s
any-permissions q roles [] = refl
any-permissions q roles (name ∷ s) = elim (Option-cases (Dict.get roles name)) [
  | inl unknown ↦ ground (arith, unknown, any-permissions q roles s)
  | inr (r, known) ↦
      ground (
        arith,
        known,
        any-permissions q roles s,
        any-union q r.permissions (permissions_of roles s),
      )
]

-- `binds b name`: a binding gives a role
abbrev pub binds : Principal → String → String → RoleBinding → Bool
binds p environment name b = (in_scope p environment b && names p b) && b.role == name

member-bound_roles :
    (p : Principal) (environment name : String) (l : List RoleBinding)
    → member name (bound_roles p environment l)
      ≡ (any (binds p environment name) l || member name p.roles)
member-bound_roles p environment name [] = refl
member-bound_roles p environment name (b ∷ l) = ground (
  arith,
  any-adjoin (λ y. y == name) b.role (bound_roles p environment l),
  member-bound_roles p environment name l,
)

-- Why an action is authorized: a role, held by the principal or bound to it, is defined and has a
-- permission that allows the action.
pub record Granted (fnmatchcase : String → String → Bool) (a : RbacAuthorizer) (p : Principal)
    (action resource environment : String) : Type 0 where
  pub role : String
  pub held : (any (binds p environment role) a.bindings || member role p.roles) ≡ true
  pub definition : RoleDefinition
  pub defined : Dict.get a.roles role ≡ some definition
  pub permitted : any (allows fnmatchcase action resource) definition.permissions ≡ true

any-found :
    (q : String → Bool) (s : List String)
    → any q s ≡ true
    → (x : String) × (q x ≡ true) × (member x s ≡ true)
any-found q [] h = ground (arith, h)
any-found q (x ∷ s) h = elim (Bool-cases (q x)) [
  | inl here ↦ (x, here, ground (arith, eq_refl x))
  | inr there ↦
      let (y, hit, inside) = any-found q s (ground (arith, h, there)) in
      (y, hit, ground (arith, inside))
]

module _ (fnmatchcase : String → String → Bool) (a : RbacAuthorizer) (p : Principal)
    (action resource : String) (environment : Option String) where
  -- the test of `any-permissions` for this call
  abbrev gives : String → Bool
  gives name = elim (Dict.get a.roles name) [
    | none ↦ false
    | some r ↦ any (allows fnmatchcase action resource) r.permissions
  ]

  authorize-gives :
      a.default_deny ≡ true
      → authorize fnmatchcase a p action resource environment
        ≡ any gives (effective_roles a p (environment_of environment))
  unfolding authorize permissions_for
  authorize-gives deny = ground (
    arith,
    deny,
    any-permissions (allows fnmatchcase action resource) a.roles
        (effective_roles a p (environment_of environment)),
  )

  gives-Granted :
      (name : String)
      → gives name ≡ true
      → member name (effective_roles a p (environment_of environment)) ≡ true
      → Granted fnmatchcase a p action resource (environment_of environment)
  unfolding effective_roles
  gives-Granted name hit inside = elim (Option-cases (Dict.get a.roles name)) [
    | inl unknown ↦ ground (arith, unknown, hit)
    | inr (r, known) ↦ record {
      role = name;
      held = sym (member-bound_roles p (environment_of environment) name a.bindings) ∙ inside;
      definition = r;
      defined = known;
      permitted = ground (arith, known, hit);
    }
  ]

  Granted-gives :
      Granted fnmatchcase a p action resource (environment_of environment)
      → any gives (effective_roles a p (environment_of environment)) ≡ true
  unfolding effective_roles
  Granted-gives g =
      any-member gives g.role (bound_roles p (environment_of environment) a.bindings)
        (member-bound_roles p (environment_of environment) g.role a.bindings ∙ g.held)
        (ground (arith, g.defined, g.permitted))

  -- An authorizer that denies by default lets an action pass exactly if some role that the principal
  -- holds, or that a binding of its organization and environment gives to it or to one of its groups, is
  -- defined and has a permission that is the star or matches the action, alone or with its resource.
  pub require-Granted :
      a.default_deny ≡ true
      → (require fnmatchcase a p action resource environment ≡ ok tt)
        ↔ Granted fnmatchcase a p action resource (environment_of environment)
  unfolding require
  require-Granted deny = (
    λ passed.
        let (name, hit, inside) =
          any-found gives (effective_roles a p (environment_of environment))
            (ground (arith, passed, authorize-gives deny)) in
        gives-Granted name hit inside,
    λ g. ground (arith, authorize-gives deny, Granted-gives g),
  )

abbrev pub own : Principal → RoleBinding → Bool
own p b = b.organization_id == p.organization_id

own-bound_roles :
    (p : Principal) (environment : String) (l : List RoleBinding)
    → bound_roles p environment (filter (own p) l) ≡ bound_roles p environment l
own-bound_roles p environment [] = refl
own-bound_roles p environment (b ∷ l) = ground (arith, own-bound_roles p environment l)

-- The bindings of other organizations give a principal nothing: without them `authorize` decides alike.
pub authorize-own :
    (fnmatchcase : String → String → Bool) (a : RbacAuthorizer) (p : Principal)
    (action resource : String) (environment : Option String)
    → authorize fnmatchcase
        (record a { bindings = filter (own p) a.bindings })
        p
        action
        resource
        environment
      ≡ authorize fnmatchcase a p action resource environment
unfolding authorize permissions_for effective_roles
authorize-own fnmatchcase a p action resource environment =
    ap
      (λ s.
        any (allows fnmatchcase action resource) (permissions_of a.roles s) || not a.default_deny)
      (own-bound_roles p (environment_of environment) a.bindings)
