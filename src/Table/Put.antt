-- ===== src/Table/Put.antt =====
-- Rows with an identifier and a name, under the assignment, the removal and the restoration of a key.
use mathlib.Core.Path.{subst}
use agent_roi.Base.{
  All, ◌+◌, ◌≤◌, ◌≡◌, refl, String, Bool, true, false, some, List, [], ◌∷◌, arith, any, count, find,
  ◌==◌, eq_iff, ap, ◌||◌, inl, inr, Bool-cases, Option-cases, if◌then◌else◌,
}
use agent_roi.Base.Text.{is_empty}
use agent_roi.Table.{
  update, delete, insert, put, count-update, count-insert, count-none, count-delete-le,
  find-delete_self,
}

module _ {R : Type 0} where
  pub count-any : (q : R → Bool) (t : List R) → any q t ≡ false → count q t ≡ 0
  count-any q [] h = refl
  count-any q (s ∷ t) h = ground (arith, h, count-any q t)

  -- an UPDATE to a row without the property, and to a row with it
  pub count-update-le :
      (p q : R → Bool) (r : R) (t : List R)
      → q r ≡ false
      → count q (update p (λ _. r) t) ≤ count q t
  count-update-le p q r [] miss = omega arith
  count-update-le p q r (s ∷ t) miss = ground (arith, miss, count-update-le p q r t)

  count-update_new :
      (p q : R → Bool) (r : R) (t : List R)
      → count q t ≡ 0
      → count q (update p (λ _. r) t) ≤ count p t
  count-update_new p q r [] new = omega arith
  count-update_new p q r (s ∷ t) new = ground (arith, new, count-update_new p q r t)

  -- a row that is taken out and put back
  count-restore :
      (p q : R → Bool) (r : R) (t : List R)
      → find p t ≡ some r
      → count q (delete p t) + (if q r then 1 else 0) ≤ count q t
  count-restore p q r [] h = ground (arith, h)
  count-restore p q r (s ∷ t) h = ground (arith, h, count-restore p q r t, count-delete-le p q t)

  any-insert : (q : R → Bool) (r : R) (t : List R) → any q (insert r t) ≡ (any q t || q r)
  any-insert q r [] = ground arith
  any-insert q r (s ∷ t) = ground (arith, any-insert q r t)

  any-update_hit :
      (p q : R → Bool) (r s : R) (t : List R)
      → find p t ≡ some s
      → q r ≡ true
      → any q (update p (λ _. r) t) ≡ true
  any-update_hit p q r s [] h hit = ground (arith, h)
  any-update_hit p q r s (x ∷ t) h hit = ground (arith, h, hit, any-update_hit p q r s t)

  any-update_keep :
      (p q : R → Bool) (r : R) (t : List R)
      → any q t ≡ true
      → ((x : R) → p x ≡ true → q x ≡ q r)
      → any q (update p (λ _. r) t) ≡ true
  any-update_keep p q r [] h same = h
  any-update_keep p q r (x ∷ t) h same = ground (arith, h, same x, any-update_keep p q r t)

  pub any-put_hit : (p q : R → Bool) (r : R) (t : List R) → q r ≡ true → any q (put p r t) ≡ true
  any-put_hit p q r t hit = elim (Option-cases (find p t)) [
    | inl new ↦ ground (arith, new, hit, any-insert q r t)
    | inr (s, known) ↦ ground (arith, known, any-update_hit p q r s t known hit)
  ]

  pub any-put_keep :
      (p q : R → Bool) (r : R) (t : List R)
      → any q t ≡ true
      → ((x : R) → p x ≡ true → q x ≡ q r)
      → any q (put p r t) ≡ true
  any-put_keep p q r t h same = elim (Option-cases (find p t)) [
    | inl new ↦ ground (arith, new, h, any-insert q r t)
    | inr (s, known) ↦ ground (arith, known, any-update_keep p q r t h same)
  ]

  pub any-delete_keep :
      (p q : R → Bool) (t : List R)
      → any q t ≡ true
      → ((x : R) → q x ≡ true → p x ≡ false)
      → any q (delete p t) ≡ true
  any-delete_keep p q [] h apart = h
  any-delete_keep p q (x ∷ t) h apart = ground (arith, h, apart x, any-delete_keep p q t)

pub not_blank : (s : String) → is_empty s ≡ false → (s == "") ≡ false
not_blank s full = elim (Bool-cases (s == "")) [
  | inl same ↦ ground (arith, full, ap is_empty ((eq_iff s "").0 same))
  | inr other ↦ other
]

module _ {R : Type 0} (id name : R → String) where
  abbrev pub has_id : String → R → Bool
  has_id i r = id r == i

  abbrev pub has_name : String → R → Bool
  has_name n r = name r == n

  -- Identifiers and names are unique, and no identifier is the empty text.
  pub record IsIndexed (t : List R) : Type 0 where
    pub ids : (i : String) → count (has_id i) t ≤ 1
    pub names : (n : String) → count (has_name n) t ≤ 1
    pub full : count (has_id "") t ≡ 0

  pub delete-IsIndexed : (p : R → Bool) (t : List R) → IsIndexed t → IsIndexed (delete p t)
  delete-IsIndexed p t k = record {
    ids = λ i. omega (arith, k.ids i, count-delete-le p (has_id i) t);
    names = λ n. omega (arith, k.names n, count-delete-le p (has_name n) t);
    full = omega (arith, k.full, count-delete-le p (has_id "") t);
  }

  -- a row with a new name, at a key that is new or known
  pub put-IsIndexed :
      (r : R) (t : List R)
      → is_empty (id r) ≡ false
      → any (has_name (name r)) t ≡ false
      → IsIndexed t
      → IsIndexed (put (has_id (id r)) r t)
  put-IsIndexed r t full new k = elim (Option-cases (find (has_id (id r)) t)) [
    | inl absent ↦ rw absent (record {
      ids = λ i. ground (
        arith,
        k.ids i,
        count-insert (has_id i) r t,
        count-none (has_id (id r)) t absent,
        eq_iff (id r) i,
      );
      names = λ n. ground (
        arith,
        k.names n,
        count-insert (has_name n) r t,
        count-any (has_name (name r)) t new,
        eq_iff (name r) n,
      );
      full = ground (arith, k.full, count-insert (has_id "") r t, not_blank (id r) full);
    })
    | inr (s, known) ↦ rw known (record {
      ids = λ i. ground (
        arith,
        k.ids i,
        count-update (has_id (id r)) (has_id i) (λ _. r) t
            (λ x h. ground (arith, h, eq_iff (id x) (id r), eq_iff (id x) i, eq_iff (id r) i)),
      );
      names = λ n. ground (
        arith,
        k.names n,
        k.ids (id r),
        count-any (has_name (name r)) t new,
        count-update-le (has_id (id r)) (has_name n) r t,
        count-update_new (has_id (id r)) (has_name n) r t,
        eq_iff (name r) n,
      );
      full = ground (
        arith,
        k.full,
        full,
        not_blank (id r) full,
        count-update-le (has_id (id r)) (has_id "") r t,
      );
    })
  ]

  -- a row that is taken out and put back
  pub restore-IsIndexed :
      (i : String) (r : R) (t : List R)
      → find (has_id i) t ≡ some r
      → IsIndexed t
      → IsIndexed (put (has_id i) r (delete (has_id i) t))
  restore-IsIndexed i r t found k =
      let rest = delete (has_id i) t in
      rw (find-delete_self (has_id i) t) (record {
        ids = λ j. omega (
          arith,
          k.ids j,
          count-insert (has_id j) r rest,
          count-restore (has_id i) (has_id j) r t found,
        );
        names = λ n. omega (
          arith,
          k.names n,
          count-insert (has_name n) r rest,
          count-restore (has_id i) (has_name n) r t found,
        );
        full = omega (
          arith,
          k.full,
          count-insert (has_id "") r rest,
          count-restore (has_id i) (has_id "") r t found,
        );
      })

-- A predicate of all rows.
module _ {R : Type 0} (P : R → Type 0) where
  pub All-insert : (r : R) (t : List R) → P r → All P t → All P (insert r t)
  All-insert r [] h g = (h, tt)
  All-insert r (x ∷ t) h g = (g.0, All-insert r t h g.1)

  All-update_to : (p : R → Bool) (r : R) (t : List R) → P r → All P t → All P (update p (λ _. r) t)
  All-update_to p r [] h g = tt
  All-update_to p r (x ∷ t) h g = elim (Bool-cases (p x)) [
    | inl hit ↦ rw hit (h, All-update_to p r t h g.1)
    | inr miss ↦ rw miss (g.0, All-update_to p r t h g.1)
  ]

  pub All-put : (p : R → Bool) (r : R) (t : List R) → P r → All P t → All P (put p r t)
  All-put p r t h g = elim (Option-cases (find p t)) [
    | inl new ↦ rw new (All-insert r t h g)
    | inr (s, known) ↦ rw known (All-update_to p r t h g)
  ]

  pub All-delete : (p : R → Bool) (t : List R) → All P t → All P (delete p t)
  All-delete p [] g = tt
  All-delete p (x ∷ t) g = elim (Bool-cases (p x)) [
    | inl hit ↦ rw hit (All-delete p t g.1)
    | inr miss ↦ rw miss (g.0, All-delete p t g.1)
  ]

  pub All-find : (p : R → Bool) (r : R) (t : List R) → find p t ≡ some r → All P t → P r
  All-find p r [] h g = ground (arith, h)
  All-find p r (x ∷ t) h g = elim (Bool-cases (p x)) [
    | inl hit ↦ let same : x ≡ r = ground (arith, hit, h) in subst P same g.0
    | inr miss ↦ All-find p r t (ground (arith, miss, h)) g.1
  ]
