-- ===== src/Identity/Store/Principals.antt =====
-- The listing of groups and `principal_for` of `SqliteIdentityStore` of enterprise/identity.py.
use agent_roi.Base.{
  filter, ℕ, ◌≡◌, refl, ◌∙◌, arith, String, Bool, true, false, Option, none, List, [], ◌∷◌, any,
  is_some, length, not, eq_refl, inl, inr, Option-cases, map,
}
use agent_roi.Result.{Result, ok, ◌>>=◌, ◌>>◌, raise_if}
use agent_roi.Sort.{sort_with, any-sort_with, text_le}
use agent_roi.Table.{select_one}
use agent_roi.Identity.Principal.{
  IdentityError, inactive_user, Principal, new_principal, text_of, flag_of,
}
use agent_roi.Identity.Scim.{ScimGroup, user_id, groups_of, mapped_roles}
use agent_roi.Identity.Directory
use agent_roi.Identity.Tables.{GroupRow, IdentityTables, row_id, of_group, page, group_of_row}
use agent_roi.Identity.Store.{get_user, get_group}

module _ {V : Type 0} where
  -- `tuple(self.get_group(group_id) for group_id in ids)`
  abbrev pub get_groups : List GroupRow → IdentityTables V → Result IdentityError (List ScimGroup)
  get_groups [] t = ok []
  get_groups (g ∷ l) t = do group ← get_group g.id t; rest ← get_groups l t; ok (group ∷ rest)

  -- `list_groups`
  unfoldable pub list_groups :
      Option ℕ → ℕ → IdentityTables V → Result IdentityError (List ScimGroup)
  unfolding sort_with
  list_groups limit offset t = do
    rows ← page limit offset (sort_with (λ a b. text_le a.display_name b.display_name) t.groups)
    get_groups rows t

  -- `count_groups`
  abbrev pub count_groups : IdentityTables V → ℕ
  count_groups t = length t.groups

  -- `principal_for`
  unfoldable pub principal_for :
      String → String → (String → List String) → IdentityTables V → Result IdentityError Principal
  unfolding list_groups new_principal
  principal_for id organization role_mapping t = do
    u ← get_user id t
    raise_if (not u.active) inactive_user
    groups ← list_groups none 0 t
    new_principal (record {
      subject = u.id;
      organization_id = organization;
      display_name = u.display_name;
      email = elim u.emails [ [] ↦ "" | e ∷ l ↦ e ];
      roles = mapped_roles role_mapping (groups_of id groups);
      groups = groups_of id groups;
      attributes = ("user_name", text_of u.user_name) ∷ ("active", flag_of u.active) ∷ [];
      token_id = "";
    })

any-found :
    {R : Type 0} (q : R → Bool) (l : List R) → any q l ≡ true → is_some (select_one q l) ≡ true
any-found q [] h = absurd (ground (arith, h))
any-found q (x ∷ l) h = ground (arith, h, any-found q l)

-- the rows of a part of a table are found in it
rows-found :
    (l t : List GroupRow)
    → ((id : String) → any (row_id id) l ≡ true → any (row_id id) t ≡ true)
    → any (λ g. not (is_some (select_one (row_id g.id) t))) l ≡ false
rows-found [] t part = refl
rows-found (g ∷ l) t part =
    let found = any-found (row_id g.id) t (part g.id (ground (arith, eq_refl g.id))) in
    let rest = rows-found l t (λ id h. part id (ground (arith, h))) in ground (arith, found, rest)

module _ {V : Type 0} where
  get_groups-ok :
      (t : IdentityTables V) (l : List GroupRow)
      → any (λ g. not (is_some (select_one (row_id g.id) t.groups))) l ≡ false
      → (groups : List ScimGroup) × (get_groups l t ≡ ok groups)
  get_groups-ok t [] h = ([], refl)
  get_groups-ok t (g ∷ l) h =
      let (rest, listed) = get_groups-ok t l (ground (arith, h)) in
      elim (Option-cases (select_one (row_id g.id) t.groups)) [
        | inl missing ↦ absurd (ground (arith, h, missing))
        | inr (row, found) ↦
            let group =
              group_of_row row (map (λ m. m.user_id) (filter (of_group g.id) t.members)) in
            (group ∷ rest, ground (arith, found, listed))
      ]

  -- The groups are listed without an error, and `principal_for` of the store makes the principal, or raises
  -- the error, that `principal_for` of the directory makes from the same users and the listed groups.
  pub principal_for_agrees :
      (id organization : String) (role_mapping : String → List String) (t : IdentityTables V)
      → (groups : List ScimGroup) × (list_groups none 0 t ≡ ok groups)
        × (principal_for id organization role_mapping t
            ≡ Directory.principal_for id organization role_mapping
                (record { users = t.users; groups = groups }))
  unfolding list_groups principal_for Directory.principal_for
  principal_for_agrees id organization role_mapping t =
      let rows = sort_with (λ a b. text_le a.display_name b.display_name) t.groups in
      let all_found : any (λ (g : GroupRow). not (is_some (select_one (row_id g.id) t.groups))) rows
          ≡ false =
        any-sort_with (λ a b. text_le a.display_name b.display_name)
          (λ g. not (is_some (select_one (row_id g.id) t.groups))) t.groups
        ∙ rows-found t.groups t.groups (λ i h. h) in
      let (groups, listed) = get_groups-ok t rows all_found in
      (
        groups,
        ground (arith, listed),
        elim (Option-cases (select_one (user_id id) t.users)) [
          | inl missing ↦ ground (arith, missing)
          | inr (u, found) ↦ ground (arith, found, listed)
        ],
      )
