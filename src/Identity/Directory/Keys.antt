-- ===== src/Identity/Directory/Keys.antt =====
-- The keys of the directory: identifiers, names, and the members of the groups.
use agent_roi.Base.{
  ◌≡◌, sym, ap, ◌∙◌, count, String, true, false, Option, none, some, List, All, arith, any, eq_iff,
  ◌==◌, ◌⊎◌, All-imp, refl, Bool-cases, Option-cases, inl, inr,
}
use mathlib.Core.Path.{subst}
use agent_roi.Base.Text.{is_empty}
use agent_roi.Result.{ok, err}
use agent_roi.Table.{delete, put, select_one, find_hit, count-some}
use agent_roi.Table.Put.{
  IsIndexed, put-IsIndexed, delete-IsIndexed, restore-IsIndexed, any-put_hit, any-put_keep,
  any-delete_keep,
}
use agent_roi.Identity.Principal.{IdentityError, blank_name, name_taken}
use agent_roi.Identity.Scim.{
  UserPayload, ScimUser, ScimGroup, Directory, user_id, user_name_is, user_of, id_or,
}
use agent_roi.Identity.Directory.{create_user, replace_user}

pub id_or-full :
    (fresh : String) (id : Option String)
    → is_empty fresh ≡ false
    → is_empty (id_or fresh id) ≡ false
id_or-full fresh none full = full
id_or-full fresh (some t) full = ground (arith, full)

empty_text : (t : String) → is_empty t ≡ true → t ≡ ""
empty_text String.[] h = refl
empty_text (String.◌∷◌ c t) h = ground (arith, h)

-- an identifier that a row has is not the empty text
pub found-full :
    {R : Type 0} (key name : R → String) (id : String) (t : List R) (r : R)
    → IsIndexed key name t
    → select_one (λ x. key x == id) t ≡ some r
    → is_empty id ≡ false
found-full key name id t r k found = elim (Bool-cases (is_empty id)) [
  | inl empty ↦
      let none_here : count (λ x. key x == id) t ≡ 0 =
        ap (λ i. count (λ x. key x == i) t) (empty_text id empty) ∙ k.full in
      absurd (omega (arith, none_here, count-some (λ x. key x == id) t r found))
  | inr full ↦ full
]

module _ {V : Type 0} where
  -- The members of a group are users.
  abbrev pub Known : List (ScimUser V) → ScimGroup → Type 0
  Known users g = All (λ m. any (user_id m) users ≡ true) g.members

  pub record IsSound (d : Directory V) : Type 0 where
    pub users : IsIndexed (λ (u : ScimUser V). u.id) (λ u. u.user_name) d.users
    pub groups : IsIndexed (λ (g : ScimGroup). g.id) (λ g. g.display_name) d.groups
    pub known : All (Known d.users) d.groups

  -- `create_user` refuses and changes nothing, or it stores the user, whose name is new.
  pub create_user-outcome :
      (fresh : String) (payload : UserPayload V) (d : Directory V)
      → let u = user_of fresh payload in
        ((x : IdentityError) × (create_user fresh payload d ≡ (err x, d)))
        ⊎ ((create_user fresh payload d ≡ (ok u, record d { users = put (user_id u.id) u d.users }))
            × (any (user_name_is u.user_name) d.users ≡ false))
  unfolding create_user
  create_user-outcome fresh payload d =
      let u = user_of fresh payload in
      elim (Bool-cases (is_empty u.user_name)) [
        | inl blank ↦ inl (blank_name, ground (arith, blank))
        | inr named ↦ elim (Bool-cases (any (user_name_is u.user_name) d.users)) [
          | inl taken ↦ inl (name_taken, ground (arith, named, taken))
          | inr new ↦ inr (ground (arith, named, new), new)
        ]
      ]

  -- `replace_user` of a user that exists refuses and puts the user back, or it stores the new one.
  pub replace_user-outcome :
      (fresh id : String) (payload : UserPayload V) (d : Directory V) (previous : ScimUser V)
      → select_one (user_id id) d.users ≡ some previous
      → let u = user_of fresh (record payload { id = some id }) in
        let rest = delete (user_id id) d.users in
        ((x : IdentityError) × (replace_user fresh id payload d
            ≡ (err x, record d { users = put (user_id id) previous rest })))
        ⊎ ((replace_user fresh id payload d
              ≡ (ok u, record d { users = put (user_id u.id) u rest }))
            × (any (user_name_is u.user_name) rest ≡ false))
  unfolding replace_user
  replace_user-outcome fresh id payload d previous found =
      let rest = delete (user_id id) d.users in
      elim (create_user-outcome fresh (record payload { id = some id })
        (record d { users = rest })) [
          | inl (x, refused) ↦ inl (x, ground (arith, found, refused))
          | inr (stored, new) ↦ inr (ground (arith, found, stored), new)
        ]

  known-imp :
      (old new : List (ScimUser V)) (groups : List ScimGroup)
      → ((m : String) → any (user_id m) old ≡ true → any (user_id m) new ≡ true)
      → All (Known old) groups
      → All (Known new) groups
  known-imp old new groups f h =
      All-imp (Known old) (Known new) groups
        (λ g k.
          All-imp (λ m. any (user_id m) old ≡ true) (λ m. any (user_id m) new ≡ true) g.members f k)
        h

  pub create_user-IsSound :
      (fresh : String) (payload : UserPayload V) (d : Directory V)
      → is_empty fresh ≡ false
      → IsSound d
      → IsSound (create_user fresh payload d).1
  create_user-IsSound fresh payload d full v =
      let u = user_of fresh payload in
      elim (create_user-outcome fresh payload d) [
        | inl (x, refused) ↦ subst (λ r. IsSound r.1) (sym refused) v
        | inr (stored, new) ↦
            subst (λ r. IsSound r.1) (sym stored)
              (record {
                users =
                    put-IsIndexed (λ (u : ScimUser V). u.id) (λ u. u.user_name) u d.users
                      (id_or-full fresh payload.id full) new v.users;
                groups = v.groups;
                known =
                    known-imp d.users (put (user_id u.id) u d.users) d.groups
                      (λ m h.
                        any-put_keep (user_id u.id) (user_id m) u d.users h
                          (λ x same. ap (λ i. i == m) ((eq_iff x.id u.id).0 same)))
                      v.known;
              })
      ]

  -- the user at `id` was taken out, and a user with that identifier was put in
  known-back :
      (id m : String) (u : ScimUser V) (users : List (ScimUser V))
      → u.id ≡ id
      → any (user_id m) users ≡ true
      → any (user_id m) (put (user_id id) u (delete (user_id id) users)) ≡ true
  known-back id m u users same h = elim (Bool-cases (id == m)) [
    | inl mine ↦
        any-put_hit (user_id id) (user_id m) u (delete (user_id id) users)
          (ap (λ i. i == m) same ∙ mine)
    | inr other ↦
        any-put_keep (user_id id) (user_id m) u (delete (user_id id) users)
          (any-delete_keep (user_id id) (user_id m) users h
            (λ x hit. ground (arith, hit, other, eq_iff x.id m, eq_iff x.id id, eq_iff id m)))
          (λ x hit. ap (λ i. i == m) ((eq_iff x.id id).0 hit ∙ sym same))
  ]

  pub replace_user-IsSound :
      (fresh id : String) (payload : UserPayload V) (d : Directory V)
      → is_empty fresh ≡ false
      → IsSound d
      → IsSound (replace_user fresh id payload d).1
  unfolding replace_user
  replace_user-IsSound fresh id payload d full v =
      elim (Option-cases (select_one (user_id id) d.users)) [
        | inl missing ↦ rw (missing, replace_user) v
        | inr (previous, found) ↦
            let rest = delete (user_id id) d.users in
            let u = user_of fresh (record payload { id = some id }) in
            let nonempty =
              found-full (λ (u : ScimUser V). u.id) (λ u. u.user_name) id d.users previous v.users
                found in
            let same : u.id ≡ id = ground (arith, nonempty) in
            elim (replace_user-outcome fresh id payload d previous found) [
              | inl (x, refused) ↦
                  subst (λ r. IsSound r.1) (sym refused)
                    (record {
                      users =
                          restore-IsIndexed (λ (u : ScimUser V). u.id) (λ u. u.user_name) id
                            previous d.users found v.users;
                      groups = v.groups;
                      known =
                          known-imp d.users (put (user_id id) previous rest) d.groups
                            (λ m. known-back id m previous d.users (
                              (eq_iff previous.id id).0
                                (find_hit (user_id id) d.users previous found)))
                            v.known;
                    })
              | inr (stored, new) ↦
                  subst (λ r. IsSound r.1) (sym stored)
                    (record {
                      users =
                          put-IsIndexed (λ (u : ScimUser V). u.id) (λ u. u.user_name) u rest
                            (id_or-full fresh (some id) full) new
                            (delete-IsIndexed (λ (u : ScimUser V). u.id) (λ u. u.user_name)
                              (user_id id) d.users v.users);
                      groups = v.groups;
                      known =
                          known-imp d.users (put (user_id u.id) u rest) d.groups
                            (λ m h.
                              subst (λ i. any (user_id m) (put (user_id i) u rest) ≡ true)
                                (sym same) (known-back id m u d.users same h))
                            v.known;
                    })
            ]
      ]
