-- ===== src/Table/Replace.antt =====
-- Rows with an identifier and a name, under INSERT and under an UPDATE of one row.
use agent_roi.Base.{
  ◌≡◌, ◌≤◌, String, Bool, false, List, [], ◌∷◌, arith, any, count, not, ◌&&◌, eq_iff,
}
use agent_roi.Base.Text.{is_empty}
use agent_roi.Table.{update, insert, count-update, count-insert}
use agent_roi.Table.Put.{has_id, has_name, IsIndexed, count-any, count-update-le, not_blank}

module _ {R : Type 0} where
  -- an UPDATE to a row with the property, which only rows that it changes may have
  count-update_own :
      (p q : R → Bool) (r : R) (t : List R)
      → any (λ x. q x && not (p x)) t ≡ false
      → count q (update p (λ _. r) t) ≤ count p t
  count-update_own p q r [] h = omega arith
  count-update_own p q r (x ∷ t) h = ground (arith, h, count-update_own p q r t)

module _ {R : Type 0} (id name : R → String) where
  pub insert-IsIndexed :
      (r : R) (t : List R)
      → is_empty (id r) ≡ false
      → any (has_id id name (id r)) t ≡ false
      → any (has_name id name (name r)) t ≡ false
      → IsIndexed id name t
      → IsIndexed id name (insert r t)
  insert-IsIndexed r t full new free k = record {
    ids = λ i. ground (
      arith,
      k.ids i,
      count-insert (has_id id name i) r t,
      count-any (has_id id name (id r)) t new,
      eq_iff (id r) i,
    );
    names = λ n. ground (
      arith,
      k.names n,
      count-insert (has_name id name n) r t,
      count-any (has_name id name (name r)) t free,
      eq_iff (name r) n,
    );
    full = ground (arith, k.full, count-insert (has_id id name "") r t, not_blank (id r) full);
  }

  pub update-IsIndexed :
      (i : String) (r : R) (t : List R)
      → id r ≡ i
      → any (λ x. has_name id name (name r) x && not (has_id id name i x)) t ≡ false
      → IsIndexed id name t
      → IsIndexed id name (update (has_id id name i) (λ _. r) t)
  update-IsIndexed i r t same free k =
      let keep = λ (j : String).
        count-update (has_id id name i) (has_id id name j) (λ _. r) t
          (λ x h. ground (arith, h, same, eq_iff (id x) i, eq_iff (id x) j, eq_iff i j)) in
      record {
        ids = λ j. ground (arith, k.ids j, keep j);
        names = λ n. ground (
          arith,
          k.names n,
          k.ids i,
          count-update_own (has_id id name i) (has_name id name n) r t,
          count-update-le (has_id id name i) (has_name id name n) r t,
          free,
          eq_iff (name r) n,
        );
        full = ground (arith, k.full, keep "");
      }
