-- ===== src/Identity/Directory/Groups.antt =====
-- Groups, and the invariant of the directory.
use mathlib.Core.Path.{subst}
use agent_roi.Base.{
  ◌≡◌, sym, String, true, false, some, List, [], ◌∷◌, All, arith, any, not, eq_iff, filter, ◌==◌,
  ◌⊎◌, is_some, refl, Bool-cases, Option-cases, inl, inr,
}
use agent_roi.Base.Text.{is_empty}
use agent_roi.Result.{ok, err}
use agent_roi.Table.{update, delete, put, select_one, count-update}
use agent_roi.Table.Put.{
  IsIndexed, put-IsIndexed, delete-IsIndexed, restore-IsIndexed, any-delete_keep, All-put,
  All-delete, All-find,
}
use agent_roi.Identity.Principal.{IdentityError, blank_name, name_taken, unknown_members, member}
use agent_roi.Identity.Scim.{
  UserPayload, GroupPayload, ScimUser, ScimGroup, Directory, user_id, group_id, group_of,
  group_name, without,
}
use agent_roi.Identity.Directory.{
  create_user, replace_user, delete_user, create_group, replace_group, delete_group,
}
use agent_roi.Identity.Directory.Keys.{
  Known, IsSound, id_or-full, create_user-IsSound, replace_user-IsSound,
}

-- if no member goes, all stay
stay_all :
    (id : String) (members : List String)
    → member id members ≡ false
    → filter (λ m. not (m == id)) members ≡ members
stay_all id [] h = refl
stay_all id (m ∷ members) h = ground (arith, h, stay_all id members)

leave-IsIndexed :
    (id : String) (groups : List ScimGroup)
    → IsIndexed (λ (g : ScimGroup). g.id) (λ g. g.display_name) groups
    → IsIndexed
        (λ (g : ScimGroup). g.id)
        (λ g. g.display_name)
        (update (λ g. member id g.members) (without id) groups)
leave-IsIndexed id groups k = record {
  ids = λ i. omega (
    arith,
    k.ids i,
    count-update (λ g. member id g.members) (group_id i) (without id) groups (λ g h. refl),
  );
  names = λ n. omega (
    arith,
    k.names n,
    count-update (λ g. member id g.members) (group_name n) (without id) groups (λ g h. refl),
  );
  full = omega (
    arith,
    k.full,
    count-update (λ g. member id g.members) (group_id "") (without id) groups (λ g h. refl),
  );
}

module _ {V : Type 0} where
  -- members who stay
  stay :
      (id : String) (users : List (ScimUser V)) (members : List String)
      → All (λ m. any (user_id m) users ≡ true) members
      → All
          (λ m. any (user_id m) (delete (user_id id) users) ≡ true)
          (filter (λ m. not (m == id)) members)
  stay id users [] h = tt
  stay id users (m ∷ members) h = elim (Bool-cases (m == id)) [
    | inl gone ↦ rw gone (stay id users members h.1)
    | inr here ↦ rw here (
      any-delete_keep (user_id id) (user_id m) users h.0
          (λ x hit. ground (arith, hit, here, eq_iff x.id m, eq_iff x.id id, eq_iff m id)),
      stay id users members h.1,
    )
  ]

  leave-Known :
      (id : String) (users : List (ScimUser V)) (groups : List ScimGroup)
      → All (Known users) groups
      → All
          (Known (delete (user_id id) users))
          (update (λ g. member id g.members) (without id) groups)
  leave-Known id users [] h = tt
  leave-Known id users (g ∷ groups) h = elim (Bool-cases (member id g.members)) [
    | inl leaves ↦ rw leaves (stay id users g.members h.0, leave-Known id users groups h.1)
    | inr stays ↦ rw stays (
      subst (All (λ m. any (user_id m) (delete (user_id id) users) ≡ true))
          (stay_all id g.members stays) (stay id users g.members h.0),
      leave-Known id users groups h.1,
    )
  ]

  delete_user-IsSound : (id : String) (d : Directory V) → IsSound d → IsSound (delete_user id d).1
  unfolding delete_user
  delete_user-IsSound id d v = elim (Bool-cases (is_some (select_one (user_id id) d.users))) [
    | inl here ↦
        rw (here, delete_user)
          (record {
            users =
                delete-IsIndexed (λ (u : ScimUser V). u.id) (λ u. u.user_name) (user_id id) d.users
                  v.users;
            groups = leave-IsIndexed id d.groups v.groups;
            known = leave-Known id d.users d.groups v.known;
          })
    | inr missing ↦ rw (missing, delete_user) v
  ]

  all_known :
      (users : List (ScimUser V)) (members : List String)
      → any (λ m. not (any (user_id m) users)) members ≡ false
      → All (λ m. any (user_id m) users ≡ true) members
  all_known users [] h = tt
  all_known users (m ∷ members) h = (ground (arith, h), all_known users members (ground (arith, h)))

  -- `create_group` refuses and changes nothing, or it stores the group, whose members are users.
  create_group-outcome :
      (fresh : String) (payload : GroupPayload) (d : Directory V)
      → let g = group_of fresh payload in
        ((x : IdentityError) × (create_group fresh payload d ≡ (err x, d)))
        ⊎ ((create_group fresh payload d
              ≡ (ok g, record d { groups = put (group_id g.id) g d.groups }))
            × (any (group_name g.display_name) d.groups ≡ false)
            × Known d.users g)
  unfolding create_group
  create_group-outcome fresh payload d =
      let g = group_of fresh payload in
      elim (Bool-cases (is_empty g.display_name)) [
        | inl blank ↦ inl (blank_name, ground (arith, blank))
        | inr named ↦ elim (Bool-cases (any (λ m. not (any (user_id m) d.users)) g.members)) [
          | inl strange ↦ inl (unknown_members, ground (arith, named, strange))
          | inr members ↦ elim (Bool-cases (any (group_name g.display_name) d.groups)) [
            | inl taken ↦ inl (name_taken, ground (arith, named, members, taken))
            | inr new ↦
                inr (ground (arith, named, members, new), new, all_known d.users g.members members)
          ]
        ]
      ]

  create_group-IsSound :
      (fresh : String) (payload : GroupPayload) (d : Directory V)
      → is_empty fresh ≡ false
      → IsSound d
      → IsSound (create_group fresh payload d).1
  create_group-IsSound fresh payload d full v =
      let g = group_of fresh payload in
      elim (create_group-outcome fresh payload d) [
        | inl (x, refused) ↦ subst (λ r. IsSound r.1) (sym refused) v
        | inr (stored, new, members) ↦
            subst (λ r. IsSound r.1) (sym stored)
              (record {
                users = v.users;
                groups =
                    put-IsIndexed (λ (g : ScimGroup). g.id) (λ g. g.display_name) g d.groups
                      (id_or-full fresh payload.id full) new v.groups;
                known = All-put (Known d.users) (group_id g.id) g d.groups members v.known;
              })
      ]

  delete_group-IsSound : (id : String) (d : Directory V) → IsSound d → IsSound (delete_group id d).1
  unfolding delete_group
  delete_group-IsSound id d v = elim (Bool-cases (is_some (select_one (group_id id) d.groups))) [
    | inl here ↦
        rw (here, delete_group)
          (record {
            users = v.users;
            groups =
                delete-IsIndexed (λ (g : ScimGroup). g.id) (λ g. g.display_name) (group_id id)
                  d.groups v.groups;
            known = All-delete (Known d.users) (group_id id) d.groups v.known;
          })
    | inr missing ↦ rw (missing, delete_group) v
  ]

  replace_group-IsSound :
      (fresh id : String) (payload : GroupPayload) (d : Directory V)
      → is_empty fresh ≡ false
      → IsSound d
      → IsSound (replace_group fresh id payload d).1
  unfolding replace_group
  replace_group-IsSound fresh id payload d full v =
      elim (Option-cases (select_one (group_id id) d.groups)) [
        | inl missing ↦ rw (missing, replace_group) v
        | inr (previous, found) ↦
            let rest : Directory V = record d { groups = delete (group_id id) d.groups } in
            let old = All-delete (Known d.users) (group_id id) d.groups v.known in
            let sound : IsSound rest = record {
              users = v.users;
              groups =
                  delete-IsIndexed (λ (g : ScimGroup). g.id) (λ g. g.display_name) (group_id id)
                    d.groups v.groups;
              known = old;
            } in
            elim (create_group-outcome fresh (record payload { id = some id }) rest) [
              | inl (x, refused) ↦
                  let back : Directory V = record d {
                    groups = put (group_id id) previous (delete (group_id id) d.groups);
                  } in
                  let result : replace_group fresh id payload d ≡ (err x, back) =
                    ground (arith, found, refused) in
                  subst (λ r. IsSound r.1) (sym result)
                    (record {
                      users = v.users;
                      groups =
                          restore-IsIndexed (λ (g : ScimGroup). g.id) (λ g. g.display_name) id
                            previous d.groups found v.groups;
                      known =
                          All-put (Known d.users) (group_id id) previous
                            (delete (group_id id) d.groups)
                            (All-find (Known d.users) (group_id id) previous d.groups found v.known)
                            old;
                    })
              | inr (stored, new, members) ↦
                  let payload' : GroupPayload = record payload { id = some id } in
                  let result : replace_group fresh id payload d ≡ create_group fresh payload' rest =
                    ground (arith, found, stored) in
                  subst (λ r. IsSound r.1) (sym result)
                    (create_group-IsSound fresh payload' rest full sound)
            ]
      ]

  -- Every operation of the directory, whether it returns or raises, keeps identifiers and names of users
  -- and of groups unique and every member of a group a user, if no identifier that is drawn is empty.
  pub directory-IsSound :
      (fresh id : String) (user : UserPayload V) (group : GroupPayload) (d : Directory V)
      → is_empty fresh ≡ false
      → IsSound d
      → IsSound (create_user fresh user d).1
        × IsSound (replace_user fresh id user d).1
        × IsSound (delete_user id d).1
        × IsSound (create_group fresh group d).1
        × IsSound (replace_group fresh id group d).1
        × IsSound (delete_group id d).1
  directory-IsSound fresh id user group d full v = (
    create_user-IsSound fresh user d full v,
    replace_user-IsSound fresh id user d full v,
    delete_user-IsSound id d v,
    create_group-IsSound fresh group d full v,
    replace_group-IsSound fresh id group d full v,
    delete_group-IsSound id d v,
  )
