-- ===== src/Table.antt =====
-- Tables of SQLite as lists of rows in the order of insertion: the statements that the stores use,
-- over a Boolean condition for each WHERE clause.
pub mod Put
pub mod Replace
use mathlib.Core.Option
use agent_roi.Base.{
  ◌+◌, ◌≤◌, ◌≡◌, refl, Bool, true, false, Option, none, some, List, [], ◌∷◌, ◌++◌, arith,
  if◌then◌else◌, find, count, is_some, Bool-cases, inl, inr,
}

module _ {R : Type 0} where
  -- `UPDATE … SET f WHERE p`; its `rowcount` is `count p` of the table before it
  abbrev pub update : (R → Bool) → (R → R) → List R → List R
  update p f [] = []
  update p f (r ∷ t) = (if p r then f r else r) ∷ update p f t

  -- `DELETE … WHERE p`
  abbrev pub delete : (R → Bool) → List R → List R
  delete p [] = []
  delete p (r ∷ t) = let rest = delete p t in if p r then rest else r ∷ rest

  -- `INSERT …`
  abbrev pub insert : R → List R → List R
  insert r t = t ++ r ∷ []

  -- `d[k] = r` of a dictionary whose keys are in the rows: `p` is the test of the key
  abbrev pub put : (R → Bool) → R → List R → List R
  put p r t = if is_some (find p t) then update p (λ _. r) t else insert r t

  -- `SELECT … WHERE p` followed by `fetchone`
  abbrev pub select_one : (R → Bool) → List R → Option R
  select_one = find

  -- The first row for `q` after an update that leaves `q` alone.
  pub find-update :
      (p q : R → Bool) (f : R → R) (t : List R)
      → ((r : R) → p r ≡ true → q (f r) ≡ q r)
      → find q (update p f t) ≡ Option.map (λ r. if p r then f r else r) (find q t)
  find-update p q f [] keep = refl
  find-update p q f (r ∷ t) keep = ground (arith, keep r, find-update p q f t keep)

  pub count-update :
      (p q : R → Bool) (f : R → R) (t : List R)
      → ((r : R) → p r ≡ true → q (f r) ≡ q r)
      → count q (update p f t) ≡ count q t
  count-update p q f [] keep = refl
  count-update p q f (r ∷ t) keep = ground (arith, keep r, count-update p q f t keep)

  pub count-insert :
      (q : R → Bool) (r : R) (t : List R)
      → count q (insert r t) ≡ count q t + (if q r then 1 else 0)
  count-insert q r [] = ground arith
  count-insert q r (s ∷ t) = ground (arith, count-insert q r t)

  pub find-insert_hit :
      (q : R → Bool) (r : R) (t : List R)
      → find q t ≡ none
      → q r ≡ true
      → find q (insert r t) ≡ some r
  find-insert_hit q r [] miss hit = rw hit
  find-insert_hit q r (s ∷ t) miss hit = ground (arith, find-insert_hit q r t)

  pub find-insert_miss :
      (q : R → Bool) (r : R) (t : List R) → q r ≡ false → find q (insert r t) ≡ find q t
  find-insert_miss q r [] miss = rw miss
  find-insert_miss q r (s ∷ t) miss = ground (arith, find-insert_miss q r t miss)

  pub find-delete :
      (p q : R → Bool) (t : List R)
      → ((r : R) → q r ≡ true → p r ≡ false)
      → find q (delete p t) ≡ find q t
  find-delete p q [] apart = refl
  find-delete p q (r ∷ t) apart = ground (arith, apart r, find-delete p q t apart)

  pub find-delete_self : (p : R → Bool) (t : List R) → find p (delete p t) ≡ none
  find-delete_self p [] = refl
  find-delete_self p (r ∷ t) = ground (arith, find-delete_self p t)

  pub find_hit : (q : R → Bool) (t : List R) (r : R) → find q t ≡ some r → q r ≡ true
  find_hit q [] r h = ground arith
  find_hit q (s ∷ t) r h = ground (arith, find_hit q t r)

  pub count-none : (q : R → Bool) (t : List R) → find q t ≡ none → count q t ≡ 0
  count-none q [] h = refl
  count-none q (s ∷ t) h = ground (arith, count-none q t)

  pub count-some : (q : R → Bool) (t : List R) (r : R) → find q t ≡ some r → 1 ≤ count q t
  count-some q [] r h = ground arith
  count-some q (s ∷ t) r h = ground (arith, count-some q t r)

  pub find-delete_keep :
      (p q : R → Bool) (t : List R) (r : R)
      → find q t ≡ some r
      → p r ≡ false
      → find q (delete p t) ≡ some r
  find-delete_keep p q [] r h keep = ground arith
  find-delete_keep p q (s ∷ t) r h keep = ground (arith, find-delete_keep p q t r)

  -- A narrower condition finds nothing either.
  pub find-none_of :
      (p q : R → Bool) (t : List R)
      → ((r : R) → p r ≡ true → q r ≡ true)
      → find q t ≡ none
      → find p t ≡ none
  find-none_of p q [] narrow h = refl
  find-none_of p q (s ∷ t) narrow h = ground (arith, narrow s, find-none_of p q t narrow)

  pub count-delete-le : (p q : R → Bool) (t : List R) → count q (delete p t) ≤ count q t
  count-delete-le p q [] = omega arith
  count-delete-le p q (s ∷ t) = ground (arith, count-delete-le p q t)

  pub find-none_of_count : (q : R → Bool) (t : List R) → count q t ≡ 0 → find q t ≡ none
  find-none_of_count q [] h = refl
  find-none_of_count q (s ∷ t) h = ground (arith, find-none_of_count q t)

  -- A row that is found is also found by another test that it passes.
  pub is_some-find_of :
      (p q : R → Bool) (t : List R) (r : R)
      → find p t ≡ some r
      → q r ≡ true
      → is_some (find q t) ≡ true
  is_some-find_of p q [] r h hit = ground arith
  is_some-find_of p q (s ∷ t) r h hit = ground (arith, is_some-find_of p q t r)

  -- If a key has one row, a narrower test that fails on it finds nothing.
  pub find-only :
      (p q : R → Bool) (t : List R) (r : R)
      → ((x : R) → q x ≡ true → p x ≡ true)
      → count p t ≤ 1
      → find p t ≡ some r
      → q r ≡ false
      → find q t ≡ none
  find-only p q [] r narrow one h miss = refl
  find-only p q (s ∷ t) r narrow one h miss = elim (Bool-cases (p s)) [
    | inl here ↦
        ground
          (arith, here, find-none_of q p t narrow (find-none_of_count p t (ground (arith, here))))
    | inr there ↦ ground (arith, there, narrow s, find-only p q t r narrow)
  ]

  pub find-insert_known :
      (q : R → Bool) (r s : R) (t : List R) → find q t ≡ some s → find q (insert r t) ≡ some s
  find-insert_known q r s [] h = ground arith
  find-insert_known q r s (x ∷ t) h = ground (arith, find-insert_known q r s t)
