-- ===== src/Database/Migrate/Again.antt =====
-- What a migration records, and that a second one finds nothing to do.
use mathlib.Core.List.{append_assoc, append-nil}
use mathlib.Core.Path.{subst}
use agent_roi.Base.{
  ℕ, ◌≡◌, refl, ap, ◌∙◌, arith, Bool, true, false, Option, none, some, List, [], ◌∷◌, ◌++◌, All,
  any, filter, map, nat_eq_iff, is_some, not, ◌==◌, eq_refl, inl, inr, Bool-cases, Option-cases,
}
use agent_roi.Result.{ok, Result-cases}
use agent_roi.Table.{insert, select_one, find-insert_known, find-insert_hit}
use agent_roi.Database.Split.{Codes, split_sql_statements}
use agent_roi.Database.Migrate.{
  Migration, Applied, Schema, has_version, row_of, selects, execute_all, apply, apply_all, migrate,
}

abbrev pub is_new : List Applied → Migration → Bool
is_new existing m = not (is_some (select_one (has_version m.version) existing))

any-find : (q : Applied → Bool) (l : List Applied) → any q l ≡ false → select_one q l ≡ none
any-find q [] h = refl
any-find q (a ∷ l) h = ground (arith, h, any-find q l)

module _ {W : Type 0} (execute : Codes → W → Option W) where
  -- a migration that was applied is the new row
  apply-row :
      (m : Migration) (s s' : Schema W)
      → apply execute m s ≡ ok s'
      → (s'.applied ≡ insert (row_of m) s.applied)
        × (select_one (has_version m.version) s.applied ≡ none)
  unfolding apply
  apply-row m s s' h = elim (Result-cases (split_sql_statements m.sql)) [
    | inr (x, unsplit) ↦ absurd (ground (arith, unsplit, h))
    | inl (statements, split) ↦ elim (Result-cases (execute_all execute statements s.rest)) [
      | inr (x, refused) ↦ absurd (ground (arith, split, refused, h))
      | inl (w, done) ↦ elim (Bool-cases (any (has_version m.version) s.applied)) [
        | inl known ↦ absurd (ground (arith, split, done, known, h))
        | inr new ↦
            (ground (arith, split, done, new, h), any-find (has_version m.version) s.applied new)
      ]
    ]
  ]

  -- Every row that was found is found, under the same name.
  abbrev Grows : List Applied → List Applied → Type 0
  Grows old new =
      (v : ℕ) (a : Applied)
      → select_one (has_version v) old ≡ some a
      → select_one (has_version v) new ≡ some a

  abbrev Recorded : List Applied → Migration → Type 0
  Recorded rows m =
      (a : Applied) × (select_one (has_version m.version) rows ≡ some a)
      × ((a.name == m.name) ≡ true)

  -- What the loop leaves, if it returns the versions `done`.
  record Done (existing : List Applied) (l : List Migration) (s s' : Schema W) (done : List ℕ)
      : Type 0 where
    rows : s'.applied ≡ s.applied ++ map row_of (filter (is_new existing) l)
    versions : done ≡ map (λ (m : Migration). m.version) (filter (is_new existing) l)
    grows : Grows s.applied s'.applied
    recorded : All (Recorded s'.applied) l

  known-Done :
      (existing : List Applied) (m : Migration) (l : List Migration) (s s' : Schema W)
      (done : List ℕ) (prior : Applied)
      → Grows existing s.applied
      → select_one (has_version m.version) existing ≡ some prior
      → (prior.name == m.name) ≡ true
      → Done existing l s s' done
      → Done existing (m ∷ l) s s' done
  known-Done existing m l s s' done prior old found named d = record {
    rows = ground (arith, found, d.rows);
    versions = ground (arith, found, d.versions);
    grows = d.grows;
    recorded = ((prior, d.grows m.version prior (old m.version prior found), named), d.recorded);
  }

  new-Done :
      (existing : List Applied) (m : Migration) (l : List Migration) (s s1 s' : Schema W)
      (done : List ℕ)
      → select_one (has_version m.version) existing ≡ none
      → s1.applied ≡ insert (row_of m) s.applied
      → select_one (has_version m.version) s.applied ≡ none
      → Done existing l s1 s' done
      → Done existing (m ∷ l) s s' (m.version ∷ done)
  new-Done existing m l s s1 s' done missing row fresh d =
      let here : select_one (has_version m.version) s1.applied ≡ some (row_of m) =
        ap (select_one (has_version m.version)) row
        ∙ find-insert_hit (has_version m.version) (row_of m) s.applied fresh
            ((nat_eq_iff m.version m.version).1 refl) in
      record {
        rows = ground (
          arith,
          missing,
          d.rows,
          row,
          append_assoc s.applied (row_of m ∷ []) (map row_of (filter (is_new existing) l)),
        );
        versions = ground (arith, missing, d.versions);
        grows = λ v a found. d.grows v a (
            ap (select_one (has_version v)) row
            ∙ find-insert_known (has_version v) (row_of m) a s.applied found);
        recorded = ((row_of m, d.grows m.version (row_of m) here, eq_refl m.name), d.recorded);
      }

  Grows-insert :
      (m : Migration) (s s1 : Schema W) (existing : List Applied)
      → Grows existing s.applied
      → s1.applied ≡ insert (row_of m) s.applied
      → Grows existing s1.applied
  Grows-insert m s s1 existing old row v a found =
      ap (select_one (has_version v)) row
      ∙ find-insert_known (has_version v) (row_of m) a s.applied (old v a found)

  apply_all-Done :
      (existing : List Applied) (l : List Migration) (s s' : Schema W) (done : List ℕ)
      → Grows existing s.applied
      → apply_all execute existing l s ≡ ok (done, s')
      → Done existing l s s' done
  unfolding apply_all
  apply_all-Done existing [] s s' done old h = record {
    rows = ground (arith, h, append-nil s.applied);
    versions = ground (arith, h);
    grows = λ v a found. ground (arith, h, found);
    recorded = tt;
  }
  apply_all-Done existing (m ∷ l) s s' done old h =
      elim (Option-cases (select_one (has_version m.version) existing)) [
        | inr (prior, found) ↦ elim (Bool-cases (prior.name == m.name)) [
          | inl named ↦
              known-Done existing m l s s' done prior old found named
                (apply_all-Done existing l s s' done old (ground (arith, h, found, named)))
          | inr renamed ↦ absurd (ground (arith, h, found, renamed))
        ]
        | inl missing ↦ elim (Result-cases (apply execute m s)) [
          | inr (x, refused) ↦ absurd (ground (arith, h, missing, refused))
          | inl (s1, applied) ↦ elim (Result-cases (apply_all execute existing l s1)) [
            | inr (x, refused) ↦ absurd (ground (arith, h, missing, applied, refused))
            | inl ((done1, s2), later) ↦
                let (row, fresh) = apply-row m s s1 applied in
                let d =
                  apply_all-Done existing l s1 s2 done1 (Grows-insert m s s1 existing old row)
                    later in
                let same : s2 ≡ s' = ground (arith, h, missing, applied, later) in
                let all : m.version ∷ done1 ≡ done = ground (arith, h, missing, applied, later) in
                subst (λ t. Done existing (m ∷ l) s t done) same
                  (subst (λ n. Done existing (m ∷ l) s s2 n) all
                    (new-Done existing m l s s1 s2 done1 missing row fresh d))
          ]
        ]
      ]

  -- with every migration on record, the loop does nothing
  apply_all_again :
      (l : List Migration) (s : Schema W)
      → All (Recorded s.applied) l
      → apply_all execute s.applied l s ≡ ok ([], s)
  unfolding apply_all
  apply_all_again [] s h = refl
  apply_all_again (m ∷ l) s ((a, found, named), h) =
      ground (arith, found, named, apply_all_again l s h)

  -- If `migrate` returns, then it returns the versions of the selected migrations that were not on record,
  -- in their order, the table has their rows behind the old ones, and a second call with the same
  -- migrations returns no version and changes nothing.
  pub migrate_again :
      (migrations : List Migration) (target : Option ℕ) (s : Schema W) (done : List ℕ)
      → (migrate execute migrations target s).0 ≡ ok done
      → let new = filter (is_new s.applied) (filter (selects target) migrations) in
        let s' = (migrate execute migrations target s).1 in
        (done ≡ map (λ (m : Migration). m.version) new)
        × (s'.applied ≡ s.applied ++ map row_of new)
        × (migrate execute migrations target s' ≡ (ok [], s'))
  unfolding migrate
  migrate_again migrations target s done h =
      let l = filter (selects target) migrations in
      elim (Result-cases (apply_all execute s.applied l s)) [
        | inr (x, refused) ↦ absurd (ground (arith, h, refused))
        | inl ((done1, s1), applied) ↦
            let d = apply_all-Done s.applied l s s1 done1 (λ v a found. found) applied in
            (
              ground (arith, h, applied, d.versions),
              ground (arith, applied, d.rows),
              ground (arith, applied, apply_all_again l s1 d.recorded),
            )
      ]
