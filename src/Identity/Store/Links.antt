-- ===== src/Identity/Store/Links.antt =====
-- The tables of users, groups and memberships under every operation.
use mathlib.Core.Path.{subst}
use agent_roi.Base.{
  ◌≡◌, refl, sym, ap, ◌∙◌, arith, String, Bool, true, false, none, List, [], ◌∷◌, All, All-imp, any,
  count, is_some, nat_eq, not, ◌&&◌, ◌||◌, ◌==◌, eq_iff, inl, inr, Bool-cases, Option-cases,
}
use agent_roi.Base.Text.{is_empty}
use agent_roi.Table.{update, delete, insert, select_one}
use agent_roi.Table.Put.{IsIndexed, delete-IsIndexed, any-delete_keep}
use agent_roi.Table.Replace.{insert-IsIndexed, update-IsIndexed}
use agent_roi.Identity.Scim.{UserPayload, ScimUser, user_id, user_name_is, user_of}
use agent_roi.Identity.Directory.Keys.{id_or-full}
use agent_roi.Identity.Tables.{GroupRow, Membership, IdentityTables, row_id, of_user, memberships}
use agent_roi.Identity.Store.{create_user, write_user, replace_user, replacement, delete_user}

module _ {V : Type 0} where
  -- A membership refers to a group and to a user.
  abbrev pub Linked : IdentityTables V → Membership → Type 0
  Linked t m = (any (row_id m.group_id) t.groups ≡ true) × (any (user_id m.user_id) t.users ≡ true)

  pub record IsLinked (t : IdentityTables V) : Type 0 where
    pub users : IsIndexed (λ (u : ScimUser V). u.id) (λ u. u.user_name) t.users
    pub groups : IsIndexed (λ (g : GroupRow). g.id) (λ g. g.display_name) t.groups
    pub linked : All (Linked t) t.members

pub any-insert_keep :
    {R : Type 0} (q : R → Bool) (r : R) (t : List R) → any q t ≡ true → any q (insert r t) ≡ true
any-insert_keep q r [] h = ground (arith, h)
any-insert_keep q r (x ∷ t) h = ground (arith, h, any-insert_keep q r t)

pub any-insert_new :
    {R : Type 0} (q : R → Bool) (r : R) (t : List R) → q r ≡ true → any q (insert r t) ≡ true
any-insert_new q r [] h = ground (arith, h)
any-insert_new q r (x ∷ t) h = ground (arith, h, any-insert_new q r t h)

-- an UPDATE that leaves a key alone
pub any-update_same :
    {R : Type 0} (p q : R → Bool) (r : R) (t : List R)
    → ((x : R) → p x ≡ true → q r ≡ q x)
    → any q (update p (λ _. r) t) ≡ any q t
any-update_same p q r [] same = refl
any-update_same p q r (x ∷ t) same = ground (arith, same x, any-update_same p q r t same)

-- the rows that a DELETE leaves do not satisfy its condition
pub All-delete_not :
    {R : Type 0} (P Q : R → Type 0) (p : R → Bool) (t : List R)
    → ((x : R) → p x ≡ false → P x → Q x)
    → All P t
    → All Q (delete p t)
All-delete_not P Q p [] f h = tt
All-delete_not P Q p (x ∷ t) f h = elim (Bool-cases (p x)) [
  | inl gone ↦ rw gone (All-delete_not P Q p t f h.1)
  | inr left ↦ rw left (f x left h.0, All-delete_not P Q p t f h.1)
]

pub update_missing :
    {R : Type 0} (p : R → Bool) (r : R) (t : List R)
    → select_one p t ≡ none
    → update p (λ _. r) t ≡ t
update_missing p r [] h = refl
update_missing p r (x ∷ t) h = ground (arith, h, update_missing p r t)

pub memberships-All :
    (P : Membership → Type 0) (id : String) (members : List String)
    → All (λ m. P (record { group_id = id; user_id = m })) members
    → All P (memberships id members)
memberships-All P id [] h = tt
memberships-All P id (m ∷ members) h = (h.0, memberships-All P id members h.1)

pub not-any-All :
    {A : Type 0} (q : A → Bool) (l : List A)
    → any (λ x. not (q x)) l ≡ false
    → All (λ x. q x ≡ true) l
not-any-All q [] h = tt
not-any-All q (x ∷ l) h = (ground (arith, h), not-any-All q l (ground (arith, h)))

module _ {V : Type 0} where
  -- the links, when the users and the groups that there were are still there
  pub relink :
      (t t' : IdentityTables V) (l : List Membership)
      → ((id : String) → any (row_id id) t.groups ≡ true → any (row_id id) t'.groups ≡ true)
      → ((id : String) → any (user_id id) t.users ≡ true → any (user_id id) t'.users ≡ true)
      → All (Linked t) l
      → All (Linked t') l
  relink t t' l groups users h =
      All-imp (Linked t) (Linked t') l (λ m k. (groups m.group_id k.0, users m.user_id k.1)) h

  pub create_user-IsLinked :
      (fresh : String) (payload : UserPayload V) (t : IdentityTables V)
      → is_empty fresh ≡ false
      → IsLinked t
      → IsLinked (create_user fresh payload t).1
  unfolding create_user
  create_user-IsLinked fresh payload t full v =
      let u = user_of fresh payload in
      elim (Bool-cases (is_empty u.user_name)) [
        | inl blank ↦ rw (blank, create_user) v
        | inr named ↦
            elim (Bool-cases
              (any (user_id u.id) t.users || any (user_name_is u.user_name) t.users)) [
                | inl taken ↦ rw (named, create_user) (rw taken v)
                | inr free ↦
                    rw (named, create_user)
                      (rw free (record {
                        users =
                            insert-IsIndexed (λ (u : ScimUser V). u.id) (λ u. u.user_name) u t.users
                              (id_or-full fresh payload.id full) (ground (arith, free))
                              (ground (arith, free)) v.users;
                        groups = v.groups;
                        linked =
                            relink t (record t { users = insert u t.users }) t.members (λ id h. h)
                              (λ id h. any-insert_keep (user_id id) u t.users h) v.linked;
                      }))
              ]
      ]

  write_user-IsLinked :
      (u : ScimUser V) (t : IdentityTables V) → IsLinked t → IsLinked (write_user u t).1
  unfolding write_user
  write_user-IsLinked u t v =
      let p = user_id u.id in
      elim (Option-cases (select_one p t.users)) [
        | inl missing ↦
            let same : (write_user u t).1 ≡ t =
              ground (arith, missing, update_missing p u t.users missing) in
            subst IsLinked (sym same) v
        | inr (old, found) ↦
            elim (Bool-cases (any (λ x. user_name_is u.user_name x && not (p x)) t.users)) [
              | inl taken ↦
                  let same : (write_user u t).1 ≡ t = ground (arith, found, taken) in
                  subst IsLinked (sym same) v
              | inr free ↦
                  let t' : IdentityTables V = record t { users = update p (λ _. u) t.users } in
                  let same : (write_user u t).1 ≡ t' = ground (arith, found, free) in
                  subst IsLinked (sym same) (record {
                    users =
                        update-IsIndexed (λ (u : ScimUser V). u.id) (λ u. u.user_name) u.id u
                          t.users refl free v.users;
                    groups = v.groups;
                    linked =
                        relink t t' t.members (λ id h. h)
                          (λ id h.
                            any-update_same p (user_id id) u t.users
                              (λ x k. ap (λ i. i == id) (sym ((eq_iff x.id u.id).0 k)))
                            ∙ h)
                          v.linked;
                  })
            ]
      ]

  pub replace_user-IsLinked :
      (id : String) (payload : UserPayload V) (t : IdentityTables V)
      → IsLinked t
      → IsLinked (replace_user id payload t).1
  unfolding replace_user
  replace_user-IsLinked id payload t v =
      let u = replacement id payload in
      elim (Bool-cases (is_some (select_one (user_id id) t.users))) [
        | inl here ↦ elim (Bool-cases (is_empty u.user_name)) [
          | inl blank ↦
              let same : (replace_user id payload t).1 ≡ t = ground (arith, here, blank) in
              subst IsLinked (sym same) v
          | inr named ↦
              let same : (replace_user id payload t).1 ≡ (write_user u t).1 =
                ground (arith, here, named) in
              subst IsLinked (sym same) (write_user-IsLinked u t v)
        ]
        | inr missing ↦
            let same : (replace_user id payload t).1 ≡ t = ground (arith, missing) in
            subst IsLinked (sym same) v
      ]

  pub delete_user-IsLinked :
      (id : String) (t : IdentityTables V) → IsLinked t → IsLinked (delete_user id t).1
  unfolding delete_user
  delete_user-IsLinked id t v = elim (Bool-cases (nat_eq (count (user_id id) t.users) 1)) [
    | inl here ↦
        let t' : IdentityTables V = record t {
          users = delete (user_id id) t.users;
          members = delete (of_user id) t.members;
        } in
        rw (here, delete_user)
          (record {
            users =
                delete-IsIndexed (λ (u : ScimUser V). u.id) (λ u. u.user_name) (user_id id) t.users
                  v.users;
            groups = v.groups;
            linked =
                All-delete_not (Linked t) (Linked t') (of_user id) t.members
                  (λ m other h. (
                    h.0,
                    any-delete_keep (user_id id) (user_id m.user_id) t.users h.1 (λ x hit. ground (
                      arith,
                      hit,
                      other,
                      eq_iff x.id m.user_id,
                      eq_iff x.id id,
                      eq_iff m.user_id id,
                    )),
                  ))
                  v.linked;
          })
    | inr missing ↦ rw (missing, delete_user) v
  ]
