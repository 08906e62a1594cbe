-- ===== src/Sort.antt =====
-- `ORDER BY` and `sorted`: a stable insertion sort by a number.
use Prim.Native.Nat.{Ordering}
use Prim.Native.String.{compare}
use agent_roi.Base.{
  ℕ, String, false, any, suc, ◌≡◌, refl, Bool, true, List, [], ◌∷◌, arith, ap, count, length, leb,
  if◌then◌else◌,
}

module _ {R : Type 0} (key : R → ℕ) where
  -- a row goes before the rows that are not older
  abbrev pub insert_by : R → List R → List R
  insert_by r [] = r ∷ []
  insert_by r (s ∷ l) =
      let rest = insert_by r l in if leb (key r) (key s) then r ∷ s ∷ l else s ∷ rest

  unfoldable pub sort_by : List R → List R
  sort_by [] = []
  sort_by (r ∷ l) = insert_by r (sort_by l)

  count-insert_by : (p : R → Bool) (r : R) (l : List R) → count p (insert_by r l) ≡ count p (r ∷ l)
  count-insert_by p r [] = refl
  count-insert_by p r (s ∷ l) = ground (arith, count-insert_by p r l)

  -- Sorting keeps every row as often as it was there.
  pub count-sort_by : (p : R → Bool) (l : List R) → count p (sort_by l) ≡ count p l
  unfolding sort_by
  count-sort_by p [] = refl
  count-sort_by p (r ∷ l) = ground (arith, count-insert_by p r (sort_by l), count-sort_by p l)

length-count : {A : Type 0} (l : List A) → count (λ x. true) l ≡ length l
length-count [] = refl
length-count (x ∷ l) = ap suc (length-count l)

pub length-sort_by : {R : Type 0} (key : R → ℕ) (l : List R) → length (sort_by key l) ≡ length l
length-sort_by key l =
    omega (arith, length-count (sort_by key l), count-sort_by key (λ x. true) l, length-count l)

-- The same with any test for the order, as for texts.
module _ {R : Type 0} (before : R → R → Bool) where
  abbrev pub insert_with : R → List R → List R
  insert_with r [] = r ∷ []
  insert_with r (s ∷ l) = let rest = insert_with r l in if before r s then r ∷ s ∷ l else s ∷ rest

  unfoldable pub sort_with : List R → List R
  sort_with [] = []
  sort_with (r ∷ l) = insert_with r (sort_with l)

  any-insert_with : (p : R → Bool) (r : R) (l : List R) → any p (insert_with r l) ≡ any p (r ∷ l)
  any-insert_with p r [] = refl
  any-insert_with p r (s ∷ l) = ground (arith, any-insert_with p r l)

  pub any-sort_with : (p : R → Bool) (l : List R) → any p (sort_with l) ≡ any p l
  unfolding sort_with
  any-sort_with p [] = refl
  any-sort_with p (r ∷ l) = ground (arith, any-insert_with p r (sort_with l), any-sort_with p l)

-- `a <= b` of texts
abbrev pub text_le : String → String → Bool
text_le a b = elim (compare a b) [ Ordering.gt ↦ false | _ ↦ true ]
