-- ===== src/Identity/Roles/Decisions.antt =====
-- What the authorizer of the store decides, and that a role that was deleted gives nothing more.
use agent_roi.Base.{
  some, ◌&&◌, ◌≡◌, ◌↔◌, refl, sym, ap, ◌∙◌, arith, String, Bool, true, false, Option, none, List,
  [], ◌∷◌, All, All-imp, any, count, map, nat_eq, not, ◌||◌, ◌==◌, eq_iff, inl, inr, Bool-cases,
  is_some,
}
use agent_roi.Result.{ok, is_ok}
use agent_roi.Dict
use agent_roi.Dict.{Dict, get-put, get-empty}
use agent_roi.Sort.{any-sort_with, text_le}
use agent_roi.Table.{update, delete, insert}
use agent_roi.Table.Put.{All-insert, All-delete, any-delete_keep}
use agent_roi.Identity.Store.Links.{any-insert_keep, any-update_same, All-delete_not}
use agent_roi.Identity.Principal.{RoleDefinition, RoleBinding, Principal}
use agent_roi.Identity.Rbac.{RbacAuthorizer, by_name, new_authorizer, environment_of}
use agent_roi.Identity.Rbac.Grants.{Granted, require-Granted}
use agent_roi.Identity.Tables.{BindingRow, IdentityTables, role_name, of_role, has_binding}
use agent_roi.Identity.Roles.{
  save_role, save_binding, delete_role, delete_binding, list_roles, list_bindings, authorizer,
  require_now,
}

-- a role is known exactly if a definition has its name
get-by_name :
    (l : List RoleDefinition) (d : Dict RoleDefinition) (name : String)
    → is_some (Dict.get (by_name l d) name) ≡ (any (role_name name) l || is_some (Dict.get d name))
get-by_name [] d name = refl
get-by_name (r ∷ l) d name =
    ground (arith, get-by_name l (Dict.put d r.name r) name, get-put d r.name name r)

-- a definition in the dictionary is one of the list, or was there before
by_name-stored :
    (l : List RoleDefinition) (d : Dict RoleDefinition) (name : String) (r : RoleDefinition)
    (q : RoleDefinition → Bool)
    → ¬ (Dict.get d name ≡ some r)
    → Dict.get (by_name l d) name ≡ some r
    → q r ≡ true
    → any (λ x. role_name name x && q x) l ≡ true
by_name-stored [] d name r q fresh there holds = absurd (fresh there)
by_name-stored (x ∷ l) d name r q fresh there holds = elim (Bool-cases (role_name name x && q x)) [
  | inl hit ↦ ground (arith, hit)
  | inr miss ↦
      let missed : ¬ (Dict.get (Dict.put d x.name x) name ≡ some r) = λ k.
        elim (Bool-cases (x.name == name)) [
          | inl same ↦
              let e : x ≡ r = ground (arith, k, same, get-put d x.name name x) in
              ground (arith, miss, same, ap q e, holds)
          | inr other ↦ fresh (ground (arith, k, other, get-put d x.name name x))
        ] in
      let rest = by_name-stored l (Dict.put d x.name x) name r q missed there holds in
      ground (arith, rest)
]

any-map :
    {A B : Type 0} (q : B → Bool) (f : A → B) (l : List A) → any q (map f l) ≡ any (λ x. q (f x)) l
any-map q f [] = refl
any-map q f (x ∷ l) = ap (λ b. q (f x) || b) (any-map q f l)

any-same : {A : Type 0} (p q : A → Bool) (l : List A) → ((x : A) → p x ≡ q x) → any p l ≡ any q l
any-same p q [] same = refl
any-same p q (x ∷ l) same = ground (arith, same x, any-same p q l same)

all-no :
    {A : Type 0} (q : A → Bool) (l : List A)
    → All (λ x. q x ≡ true) l
    → any (λ x. not (q x)) l ≡ false
all-no q [] h = refl
all-no q (x ∷ l) h = ground (arith, h.0, all-no q l h.1)

any-delete_self : {R : Type 0} (p : R → Bool) (t : List R) → any p (delete p t) ≡ false
any-delete_self p [] = refl
any-delete_self p (x ∷ t) = ground (arith, any-delete_self p t)

-- the roles that there were are still there
rebind :
    (old new : List RoleDefinition) (l : List BindingRow)
    → ((name : String) → any (role_name name) old ≡ true → any (role_name name) new ≡ true)
    → All (λ (b : BindingRow). any (role_name b.binding.role) old ≡ true) l
    → All (λ (b : BindingRow). any (role_name b.binding.role) new ≡ true) l
rebind old new l keep h = All-imp _ _ l (λ b k. keep b.binding.role k) h

module _ {V : Type 0} where
  -- The role of every binding exists.
  abbrev pub IsBound : IdentityTables V → Type 0
  IsBound t = All (λ (b : BindingRow). any (role_name b.binding.role) t.roles ≡ true) t.bindings

  save_role-IsBound :
      (r : RoleDefinition) (t : IdentityTables V) → IsBound t → IsBound (save_role r t)
  unfolding save_role
  save_role-IsBound r t v = elim (Bool-cases (any (role_name r.name) t.roles)) [
    | inl known ↦
        rw (known, save_role)
          (rebind t.roles (update (role_name r.name) (λ _. r) t.roles) t.bindings
            (λ name h.
              any-update_same (role_name r.name) (role_name name) r t.roles
                (λ x k. ap (λ i. i == name) (sym ((eq_iff x.name r.name).0 k)))
              ∙ h)
            v)
    | inr new ↦
        rw (new, save_role)
          (rebind t.roles (insert r t.roles) t.bindings
            (λ name h. any-insert_keep (role_name name) r t.roles h) v)
  ]

  save_binding-IsBound :
      (fresh : String) (b : RoleBinding) (t : IdentityTables V)
      → IsBound t
      → IsBound (save_binding fresh b t).1
  unfolding save_binding
  save_binding-IsBound fresh b t v =
      elim (Bool-cases
        (any (has_binding fresh) t.bindings || not (any (role_name b.role) t.roles))) [
          | inl refused ↦ rw (refused, save_binding) v
          | inr free ↦
              rw (free, save_binding)
                (All-insert (λ (b : BindingRow). any (role_name b.binding.role) t.roles ≡ true)
                  (record { binding_id = fresh; binding = b }) t.bindings (ground (arith, free)) v)
        ]

  delete_role-IsBound :
      (name : String) (t : IdentityTables V) → IsBound t → IsBound (delete_role name t).1
  unfolding delete_role
  delete_role-IsBound name t v = elim (Bool-cases (nat_eq (count (role_name name) t.roles) 1)) [
    | inl here ↦
        rw (here, delete_role)
          (All-delete_not (λ (b : BindingRow). any (role_name b.binding.role) t.roles ≡ true)
            (λ (b : BindingRow).
              any (role_name b.binding.role) (delete (role_name name) t.roles) ≡ true)
            (of_role name) t.bindings
            (λ b other h.
              any-delete_keep (role_name name) (role_name b.binding.role) t.roles h (λ x hit.
                ground (
                  arith,
                  hit,
                  other,
                  eq_iff x.name b.binding.role,
                  eq_iff x.name name,
                  eq_iff b.binding.role name,
                )))
            v)
    | inr missing ↦ rw (missing, delete_role) v
  ]

  delete_binding-IsBound :
      (id : String) (t : IdentityTables V) → IsBound t → IsBound (delete_binding id t).1
  unfolding delete_binding
  delete_binding-IsBound id t v = elim (Bool-cases (nat_eq (count (has_binding id) t.bindings) 1)) [
    | inl here ↦
        rw (here, delete_binding)
          (All-delete (λ (b : BindingRow). any (role_name b.binding.role) t.roles ≡ true)
            (has_binding id) t.bindings v)
    | inr missing ↦ rw (missing, delete_binding) v
  ]

  -- the authorizer that is made
  abbrev made : IdentityTables V → RbacAuthorizer
  made t = record {
    roles = by_name (list_roles t) Dict.empty;
    bindings = map (λ b. b.binding) (list_bindings t);
    default_deny = true;
  }

  known-role :
      (t : IdentityTables V) (name : String)
      → Dict.contains (by_name (list_roles t) Dict.empty) name ≡ any (role_name name) t.roles
  unfolding list_roles
  known-role t name = ground (
    arith,
    get-by_name (list_roles t) Dict.empty name,
    get-empty {V = RoleDefinition} name,
    any-sort_with (λ a b. text_le a.name b.name) (role_name name) t.roles,
  )

  authorizer-made : (t : IdentityTables V) → IsBound t → authorizer t ≡ ok (made t)
  unfolding authorizer new_authorizer list_bindings
  authorizer-made t v =
      let unknown =
        λ (b : RoleBinding). not (Dict.contains (by_name (list_roles t) Dict.empty) b.role) in
      let none_unknown : any unknown (map (λ b. b.binding) (list_bindings t)) ≡ false =
        any-map unknown (λ (b : BindingRow). b.binding) (list_bindings t)
        ∙ any-sort_with (λ a b. text_le a.binding_id b.binding_id) (λ b. unknown b.binding)
            t.bindings
        ∙ any-same (λ (b : BindingRow). unknown b.binding)
            (λ b. not (any (role_name b.binding.role) t.roles)) t.bindings
            (λ b. ap not (known-role t b.binding.role))
        ∙ all-no (λ (b : BindingRow). any (role_name b.binding.role) t.roles) t.bindings v in
      ground (arith, none_unknown)

  -- What an authorizer is to know: of each name, whether a role is stored under it; for a role, one that is
  -- stored under its name; and the bindings that are stored, no others.
  pub record IsCurrent (t : IdentityTables V) (a : RbacAuthorizer) : Type 0 where
    pub known : (name : String) → Dict.contains a.roles name ≡ any (role_name name) t.roles
    pub roles :
        (name : String) (r : RoleDefinition) (q : RoleDefinition → Bool)
        → Dict.get a.roles name ≡ some r
        → q r ≡ true
        → any (λ x. role_name name x && q x) t.roles ≡ true
    pub bindings :
        (q : RoleBinding → Bool)
        → any q a.bindings ≡ any (λ (b : BindingRow). q b.binding) t.bindings
    pub denies : a.default_deny ≡ true

  made-IsCurrent : (t : IdentityTables V) → IsCurrent t (made t)
  unfolding list_roles list_bindings
  made-IsCurrent t = record {
    known = known-role t;
    roles = λ name r q there holds.
        sym (any-sort_with (λ a b. text_le a.name b.name) (λ x. role_name name x && q x) t.roles)
        ∙ by_name-stored (list_roles t) Dict.empty name r q
            (λ k. absurd (ground (arith, k, get-empty {V = RoleDefinition} name))) there holds;
    bindings = λ q.
        any-map q (λ (b : BindingRow). b.binding) (list_bindings t)
        ∙ any-sort_with (λ a b. text_le a.binding_id b.binding_id) (λ b. q b.binding) t.bindings;
    denies = refl;
  }

  -- Every operation on roles and bindings, whether it returns or raises, keeps the role of every binding
  -- among the roles. While that holds, `authorizer` does not raise: it returns an authorizer that denies by
  -- default and has just the names of the roles that are stored now, each with a definition that is stored
  -- under it, and just the bindings that are stored now; and the dynamic authorizer lets an action pass
  -- exactly if this one grants it.
  pub roles-IsBound :
      (fnmatchcase : String → String → Bool) (fresh id name : String) (r : RoleDefinition)
      (b : RoleBinding) (t : IdentityTables V) (p : Principal) (action resource : String)
      (environment : Option String)
      → IsBound t
      → IsBound (save_role r t)
        × IsBound (save_binding fresh b t).1
        × IsBound (delete_role name t).1
        × IsBound (delete_binding id t).1
        × ((a : RbacAuthorizer) × (authorizer t ≡ ok a)
            × IsCurrent t a
            × ((require_now fnmatchcase t p action resource environment ≡ ok tt)
                ↔ Granted fnmatchcase a p action resource (environment_of environment)))
  unfolding require_now
  roles-IsBound fnmatchcase fresh id name r b t p action resource environment v =
      let granted = require-Granted fnmatchcase (made t) p action resource environment refl in
      let ready = authorizer-made t v in
      (
        save_role-IsBound r t v,
        save_binding-IsBound fresh b t v,
        delete_role-IsBound name t v,
        delete_binding-IsBound id t v,
        (
          made t,
          ready,
          made-IsCurrent t,
          (
            (λ passed. granted.0 (ground (arith, passed, ready))),
            (λ g. ground (arith, ready, granted.1 g)),
          ),
        ),
      )

  -- After `delete_role` returns, the authorizer that the next decision loads has no definition of the role
  -- and no binding to it.
  pub delete_role_revokes :
      (name : String) (t : IdentityTables V)
      → IsBound t
      → is_ok (delete_role name t).0 ≡ true
      → (a : RbacAuthorizer) × (authorizer (delete_role name t).1 ≡ ok a)
        × (Dict.get a.roles name ≡ none)
        × (any (λ b. b.role == name) a.bindings ≡ false)
  unfolding delete_role list_bindings
  delete_role_revokes name t v done =
      let t' = (delete_role name t).1 in
      elim (Bool-cases (nat_eq (count (role_name name) t.roles) 1)) [
        | inr missing ↦ absurd (ground (arith, missing, done))
        | inl here ↦
            let roles : t'.roles ≡ delete (role_name name) t.roles = ground (arith, here) in
            let bindings : t'.bindings ≡ delete (of_role name) t.bindings = ground (arith, here) in
            let no_role : Dict.contains (by_name (list_roles t') Dict.empty) name ≡ false =
              known-role t' name
              ∙ ap (any (role_name name)) roles
              ∙ any-delete_self (role_name name) t.roles in
            let no_binding : any (λ (b : RoleBinding). b.role == name)
                  (map (λ b. b.binding) (list_bindings t'))
                ≡ false =
              any-map (λ (b : RoleBinding). b.role == name) (λ (b : BindingRow). b.binding)
                (list_bindings t')
              ∙ any-sort_with (λ a b. text_le a.binding_id b.binding_id) (of_role name) t'.bindings
              ∙ ap (any (of_role name)) bindings
              ∙ any-delete_self (of_role name) t.bindings in
            (
              made t',
              authorizer-made t' (delete_role-IsBound name t v),
              ground (arith, no_role),
              no_binding,
            )
      ]
