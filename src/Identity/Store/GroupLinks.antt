-- ===== src/Identity/Store/GroupLinks.antt =====
-- The same for the operations on groups, and the invariant of all operations.
use mathlib.Core.Path.{subst}
use agent_roi.Base.{
  ◌≡◌, refl, sym, ap, ◌∙◌, arith, String, Bool, true, false, List, [], ◌∷◌, ◌++◌, All, All-imp,
  All-append, any, count, is_some, nat_eq, not, ◌&&◌, ◌||◌, ◌==◌, eq_iff, eq_refl, inl, inr,
  Bool-cases,
}
use agent_roi.Base.Text.{is_empty, strip}
use agent_roi.Table.{update, delete, insert, select_one}
use agent_roi.Table.Put.{delete-IsIndexed, All-delete, any-delete_keep}
use agent_roi.Table.Replace.{insert-IsIndexed, update-IsIndexed}
use agent_roi.Identity.Scim.{UserPayload, GroupPayload, user_id, id_or, or_empty}
use agent_roi.Identity.Directory.Keys.{id_or-full}
use agent_roi.Identity.Tables.{
  GroupRow, IdentityTables, row_id, row_name, of_group, member_ids, memberships,
}
use agent_roi.Identity.Store.{
  create_user, replace_user, delete_user, insert_group, create_group, write_group, replace_group,
  delete_group,
}
use agent_roi.Identity.Store.Links.{
  Linked, IsLinked, any-insert_keep, any-insert_new, any-update_same, All-delete_not,
  memberships-All, not-any-All, relink, create_user-IsLinked, replace_user-IsLinked,
  delete_user-IsLinked,
}

any-some :
    {R : Type 0} (q : R → Bool) (l : List R) → is_some (select_one q l) ≡ true → any q l ≡ true
any-some q [] h = ground (arith, h)
any-some q (x ∷ l) h = ground (arith, h, any-some q l)

module _ {V : Type 0} where
  insert_group-IsLinked :
      (g : GroupRow) (members : List String) (t : IdentityTables V)
      → is_empty g.id ≡ false
      → IsLinked t
      → IsLinked (insert_group g members t).1
  unfolding insert_group
  insert_group-IsLinked g members t full v =
      let taken = any (row_id g.id) t.groups || any (row_name g.display_name) t.groups in
      let strange = any (λ m. not (any (user_id m) t.users)) members in
      elim (Bool-cases (taken || strange)) [
        | inl refused ↦
            let same : (insert_group g members t).1 ≡ t = ground (arith, refused) in
            subst IsLinked (sym same) v
        | inr free ↦
            let t' : IdentityTables V = record t {
              groups = insert g t.groups;
              members = t.members ++ memberships g.id members;
            } in
            let same : (insert_group g members t).1 ≡ t' = ground (arith, free) in
            let kept =
              relink t t' t.members (λ id h. any-insert_keep (row_id id) g t.groups h) (λ id h. h)
                v.linked in
            let known = not-any-All (λ m. any (user_id m) t.users) members (ground (arith, free)) in
            let here = any-insert_new (row_id g.id) g t.groups (eq_refl g.id) in
            subst IsLinked (sym same) (record {
              users = v.users;
              groups =
                  insert-IsIndexed (λ (g : GroupRow). g.id) (λ g. g.display_name) g t.groups full
                    (ground (arith, free)) (ground (arith, free)) v.groups;
              linked = All-append (Linked t') t.members (memberships g.id members) kept (
                  memberships-All (Linked t') g.id members (
                    All-imp _ (λ m. Linked t' (record { group_id = g.id; user_id = m })) members
                      (λ m k. (here, k)) known));
            })
      ]

  create_group-IsLinked :
      (fresh : String) (payload : GroupPayload) (t : IdentityTables V)
      → is_empty fresh ≡ false
      → IsLinked t
      → IsLinked (create_group fresh payload t).1
  unfolding create_group
  create_group-IsLinked fresh payload t full v =
      let g : GroupRow = record {
        id = id_or fresh payload.id;
        display_name = strip (or_empty payload.display_name);
        external_id = or_empty payload.external_id;
      } in
      let members = member_ids payload in
      elim (Bool-cases
        (is_empty g.display_name || any (λ m. not (any (user_id m) t.users)) members)) [
          | inl refused ↦
              let same : (create_group fresh payload t).1 ≡ t = ground (arith, refused) in
              subst IsLinked (sym same) v
          | inr checked ↦
              let same : (create_group fresh payload t).1 ≡ (insert_group g members t).1 =
                ground (arith, checked) in
              subst IsLinked (sym same)
                (insert_group-IsLinked g members t (id_or-full fresh payload.id full) v)
        ]

  -- the row of a group is there, and its name is free
  write_group_here :
      (g : GroupRow) (members : List String) (t : IdentityTables V)
      → any (row_id g.id) t.groups ≡ true
      → any (λ x. row_name g.display_name x && not (row_id g.id x)) t.groups ≡ false
      → All (λ m. any (user_id m) t.users ≡ true) members
      → IsLinked t
      → IsLinked (record t {
        groups = update (row_id g.id) (λ _. g) t.groups;
        members = delete (of_group g.id) t.members ++ memberships g.id members;
      })
  write_group_here g members t here free known v =
      let t' : IdentityTables V = record t {
        groups = update (row_id g.id) (λ _. g) t.groups;
        members = delete (of_group g.id) t.members ++ memberships g.id members;
      } in
      let same = λ (id : String).
        any-update_same (row_id g.id) (row_id id) g t.groups
          (λ x k. ap (λ i. i == id) (sym ((eq_iff x.id g.id).0 k))) in
      let kept =
        relink t t' (delete (of_group g.id) t.members) (λ id h. same id ∙ h) (λ id h. h)
          (All-delete (Linked t) (of_group g.id) t.members v.linked) in
      record {
        users = v.users;
        groups =
            update-IsIndexed (λ (g : GroupRow). g.id) (λ g. g.display_name) g.id g t.groups refl
              free v.groups;
        linked =
            All-append (Linked t') (delete (of_group g.id) t.members) (memberships g.id members)
              kept
              (memberships-All (Linked t') g.id members (
                All-imp _ (λ m. Linked t' (record { group_id = g.id; user_id = m })) members
                  (λ m k. (same g.id ∙ here, k)) known));
      }

  replace_group-IsLinked :
      (id : String) (payload : GroupPayload) (t : IdentityTables V)
      → IsLinked t
      → IsLinked (replace_group id payload t).1
  unfolding replace_group write_group
  replace_group-IsLinked id payload t v =
      let g : GroupRow = record {
        id = id;
        display_name = strip (or_empty payload.display_name);
        external_id = or_empty payload.external_id;
      } in
      let members = member_ids payload in
      let strange = any (λ m. not (any (user_id m) t.users)) members in
      elim (Bool-cases (is_some (select_one (row_id id) t.groups))) [
        | inr missing ↦
            let same : (replace_group id payload t).1 ≡ t = ground (arith, missing) in
            subst IsLinked (sym same) v
        | inl found ↦
            let here = any-some (row_id id) t.groups found in
            elim (Bool-cases (
              is_empty g.display_name
              || strange
              || any (λ x. row_name g.display_name x && not (row_id id x)) t.groups)) [
                | inl refused ↦
                    let same : (replace_group id payload t).1 ≡ t =
                      ground (arith, found, here, refused) in
                    subst IsLinked (sym same) v
                | inr free ↦
                    let unknown : any
                          (λ m. not (any (row_id id) t.groups) || not (any (user_id m) t.users))
                          members
                        ≡ false =
                      ap (λ b. any (λ m. not b || not (any (user_id m) t.users)) members) here
                      ∙ ground (arith, free) in
                    let same : (replace_group id payload t).1 ≡ record t {
                      groups = update (row_id id) (λ _. g) t.groups;
                      members = delete (of_group id) t.members ++ memberships id members;
                    } =
                      ground (arith, found, here, free, unknown) in
                    subst IsLinked (sym same) (
                      write_group_here g members t here (ground (arith, free))
                        (not-any-All (λ m. any (user_id m) t.users) members (ground (arith, free)))
                        v)
              ]
      ]

  delete_group-IsLinked :
      (id : String) (t : IdentityTables V) → IsLinked t → IsLinked (delete_group id t).1
  unfolding delete_group
  delete_group-IsLinked id t v = elim (Bool-cases (nat_eq (count (row_id id) t.groups) 1)) [
    | inl here ↦
        let t' : IdentityTables V = record t {
          groups = delete (row_id id) t.groups;
          members = delete (of_group id) t.members;
        } in
        rw (here, delete_group)
          (record {
            users = v.users;
            groups =
                delete-IsIndexed (λ (g : GroupRow). g.id) (λ g. g.display_name) (row_id id) t.groups
                  v.groups;
            linked =
                All-delete_not (Linked t) (Linked t') (of_group id) t.members
                  (λ m other h. (
                    any-delete_keep (row_id id) (row_id m.group_id) t.groups h.0 (λ x hit. ground (
                      arith,
                      hit,
                      other,
                      eq_iff x.id m.group_id,
                      eq_iff x.id id,
                      eq_iff m.group_id id,
                    )),
                    h.1,
                  ))
                  v.linked;
          })
    | inr missing ↦ rw (missing, delete_group) v
  ]

  -- Every operation on users and groups of the store, whether it returns or raises, keeps identifiers and
  -- names unique and every membership between a group and a user that exist, if no identifier that is
  -- drawn is empty: deleting a user or a group leaves no membership behind.
  pub store-IsLinked :
      (fresh id : String) (user : UserPayload V) (group : GroupPayload) (t : IdentityTables V)
      → is_empty fresh ≡ false
      → IsLinked t
      → IsLinked (create_user fresh user t).1
        × IsLinked (replace_user id user t).1
        × IsLinked (delete_user id t).1
        × IsLinked (create_group fresh group t).1
        × IsLinked (replace_group id group t).1
        × IsLinked (delete_group id t).1
  store-IsLinked fresh id user group t full v = (
    create_user-IsLinked fresh user t full v,
    replace_user-IsLinked id user t v,
    delete_user-IsLinked id t v,
    create_group-IsLinked fresh group t full v,
    replace_group-IsLinked id group t v,
    delete_group-IsLinked id t v,
  )
