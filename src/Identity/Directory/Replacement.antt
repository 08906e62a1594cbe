-- ===== src/Identity/Directory/Replacement.antt =====
-- What is found in the directory after a user was created, replaced or deleted.
use agent_roi.Base.{
  ◌≡◌, sym, ap, ◌∙◌, String, true, false, none, some, List, [], ◌∷◌, arith, any, not, eq_iff,
  eq_refl, filter, find, ◌==◌, is_some, refl, Bool-cases, Option-cases, inl, inr, if◌then◌else◌,
}
use agent_roi.Base.Text.{is_empty}
use agent_roi.Result.{ok, err, is_ok}
use agent_roi.Table.{
  update, delete, put, select_one, find_hit, find-update, find-delete, find-delete_self,
  find-insert_hit, find-insert_miss,
}
use agent_roi.Identity.Principal.{unknown_user, member}
use agent_roi.Identity.Scim.{
  UserPayload, ScimUser, ScimGroup, Directory, user_id, user_name_is, user_of, groups_of, without,
}
use agent_roi.Identity.Directory.{create_user, replace_user, delete_user, get_user, principal_for}
use agent_roi.Identity.Directory.Keys.{replace_user-outcome}

groups_of-without :
    (id : String) (groups : List ScimGroup)
    → groups_of id (update (λ g. member id g.members) (without id) groups) ≡ []
groups_of-without id [] = refl
groups_of-without id (g ∷ groups) = elim (Bool-cases (member id g.members)) [
  | inl leaves ↦ rw leaves (rw (gone g.members) (groups_of-without id groups))
  | inr stays ↦ rw stays (rw stays (groups_of-without id groups))
]
  where
    gone : (members : List String) → member id (filter (λ m. not (m == id)) members) ≡ false
    gone [] = refl
    gone (m ∷ members) = ground (arith, gone members)

module _ {V : Type 0} where
  -- a user that was taken out and put back
  find-restore :
      (id j : String) (u : ScimUser V) (users : List (ScimUser V))
      → u.id ≡ id
      → find (user_id j) (put (user_id id) u (delete (user_id id) users))
        ≡ (if id == j then some u else find (user_id j) users)
  find-restore id j u users same =
      let rest = delete (user_id id) users in
      rw (find-delete_self (user_id id) users) (elim (Bool-cases (id == j)) [
        | inl mine ↦
            let here : user_id j u ≡ true = ap (λ i. i == j) same ∙ mine in
            let new : find (user_id j) rest ≡ none =
              ap (λ i. find (user_id i) rest) (sym ((eq_iff id j).0 mine))
              ∙ find-delete_self (user_id id) users in
            ground (arith, mine, find-insert_hit (user_id j) u rest new here)
        | inr other ↦
            let away : user_id j u ≡ false = ap (λ i. i == j) same ∙ other in
            ground (
              arith,
              other,
              find-insert_miss (user_id j) u rest away,
              find-delete (user_id id) (user_id j) users
                  (λ x hit. ground (arith, hit, other, eq_iff x.id j, eq_iff x.id id, eq_iff id j)),
            )
      ])

  -- `replace_user` is all or nothing: if it raises, every identifier finds the user that it found before,
  -- and no group has changed.
  pub replace_user_refused :
      (fresh id j : String) (payload : UserPayload V) (d : Directory V)
      → is_ok (replace_user fresh id payload d).0 ≡ false
      → (select_one (user_id j) (replace_user fresh id payload d).1.users
          ≡ select_one (user_id j) d.users)
        × ((replace_user fresh id payload d).1.groups ≡ d.groups)
  unfolding replace_user
  replace_user_refused fresh id j payload d h =
      elim (Option-cases (select_one (user_id id) d.users)) [
        | inl missing ↦ (ground (arith, missing), ground (arith, missing))
        | inr (previous, found) ↦ elim (replace_user-outcome fresh id payload d previous found) [
          | inl (x, refused) ↦
              let named : previous.id ≡ id =
                (eq_iff previous.id id).0 (find_hit (user_id id) d.users previous found) in
              let back : (if id == j then some previous else select_one (user_id j) d.users)
                  ≡ select_one (user_id j) d.users =
                elim (Bool-cases (id == j)) [
                  | inl mine ↦
                      rw mine (
                        sym found ∙ ap (λ i. select_one (user_id i) d.users) ((eq_iff id j).0 mine))
                  | inr other ↦ rw other refl
                ] in
              (
                ap (λ r. select_one (user_id j) r.1.users) refused
                    ∙ find-restore id j previous d.users named
                    ∙ back,
                ap (λ r. r.1.groups) refused,
              )
          | inr (stored, new) ↦ absurd (ground (arith, h, stored))
        ]
      ]

  -- `create_user` with the identifier of an existing user, and with a free name, overwrites that user and
  -- leaves the groups alone: the new user has the memberships of the old one.
  pub create_user_inherits :
      (fresh id : String) (payload : UserPayload V) (d : Directory V) (previous : ScimUser V)
      → select_one (user_id id) d.users ≡ some previous
      → is_empty id ≡ false
      → payload.id ≡ some id
      → is_empty (user_of fresh payload).user_name ≡ false
      → any (user_name_is (user_of fresh payload).user_name) d.users ≡ false
      → ((create_user fresh payload d).0 ≡ ok (user_of fresh payload))
        × (get_user id (create_user fresh payload d).1 ≡ ok (user_of fresh payload))
        × (groups_of id (create_user fresh payload d).1.groups ≡ groups_of id d.groups)
  unfolding create_user
  create_user_inherits fresh id payload d previous found full given named new =
      let u = user_of fresh payload in
      let same : u.id ≡ id = ground (arith, given, full) in
      let known : find (user_id u.id) d.users ≡ some previous =
        ap (λ i. find (user_id i) d.users) same ∙ found in
      let hit : find (user_id id) (update (user_id u.id) (λ _. u) d.users) ≡ some u = ground (
        arith,
        found,
        same,
        find-update (user_id u.id) (user_id id) (λ _. u) d.users
            (λ x h. ground (arith, h, same, eq_refl id, eq_iff x.id u.id)),
        find_hit (user_id id) d.users previous found,
      ) in
      (
        ground (arith, named, new),
        ground (arith, named, new, known, hit),
        ground (arith, named, new),
      )

  -- After `delete_user` no principal is made for the user, and no group has it as a member.
  pub delete_user_revokes :
      (id organization : String) (role_mapping : String → List String) (d : Directory V)
      → is_ok (delete_user id d).0 ≡ true
      → (principal_for id organization role_mapping (delete_user id d).1 ≡ err unknown_user)
        × (groups_of id (delete_user id d).1.groups ≡ [])
  unfolding delete_user principal_for
  delete_user_revokes id organization role_mapping d h =
      elim (Bool-cases (is_some (select_one (user_id id) d.users))) [
        | inl here ↦ (
          ground (arith, here, find-delete_self (user_id id) d.users),
          ground (arith, here, groups_of-without id d.groups),
        )
        | inr missing ↦ absurd (ground (arith, missing, h))
      ]
