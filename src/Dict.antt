-- ===== src/Dict.antt =====
-- Python's `dict` with text keys, over the statements of `Table`: the entries in the order in which
-- their keys were first assigned.
use mathlib.Core.Option
use agent_roi.Base.{
  String, ◌≡◌, refl, Bool, Option, none, some, List, [], map, arith, ◌==◌, eq_iff, eq_refl,
  if◌then◌else◌, is_some, find, Option-cases, Bool-cases, ◌∷◌, inl, inr,
}
use agent_roi.Table.{
  update, delete, insert, find-insert_hit, find-insert_miss, find-delete, find-delete_self,
}

pub record Dict (V : Type 0) : Type 0 where
  pub entries : List (String × V)

module _ {V : Type 0} where
  abbrev keyed : String → String × V → Bool
  keyed k e = e.0 == k

  -- the value at `j` after new values were written at `k`
  value_update :
      (k j : String) (v : V) (l : List (String × V))
      → Option.map (λ e. e.1) (find (keyed j) (update (keyed k) (λ e. (e.0, v)) l))
        ≡ Option.map (λ e. if k == j then v else e.1) (find (keyed j) l)
  value_update k j v [] = refl
  value_update k j v (e ∷ l) =
      ground (arith, eq_iff e.0 k, eq_iff e.0 j, eq_iff k j, value_update k j v l)

  unfoldable pub empty : Dict V
  empty = record { entries = [] }

  -- `d.get(k)`
  unfoldable pub get : Dict V → String → Option V
  get d k = Option.map (λ e. e.1) (find (keyed k) d.entries)

  -- `k in d`
  abbrev pub contains : Dict V → String → Bool
  contains d k = is_some (get d k)

  -- `d[k] = v`: a known key keeps its place, a new one goes last
  unfoldable pub put : Dict V → String → V → Dict V
  put d k v =
      if is_some (find (keyed k) d.entries)
      then record { entries = update (keyed k) (λ e. (e.0, v)) d.entries }
      else record { entries = insert (k, v) d.entries }

  -- `d.pop(k, None)`, `del d[k]`
  unfoldable pub remove : Dict V → String → Dict V
  remove d k = record { entries = delete (keyed k) d.entries }

  -- `d.values()`
  abbrev pub values : Dict V → List V
  values d = map (λ e. e.1) d.entries

  pub get-empty : (k : String) → get empty k ≡ none
  unfolding get empty
  get-empty k = refl

  pub get-put :
      (d : Dict V) (k j : String) (v : V) → get (put d k v) j ≡ (if k == j then some v else get d j)
  unfolding get put
  get-put d k j v = elim (Option-cases (find (keyed k) d.entries)) [
    | inl new ↦ ground (
      arith,
      find-insert_hit (keyed k) (k, v) d.entries new,
      find-insert_miss (keyed j) (k, v) d.entries,
      eq_iff k j,
      eq_refl k,
    )
    | inr (e, known) ↦ ground (arith, known, value_update k j v d.entries, eq_iff k j)
  ]

  pub get-remove :
      (d : Dict V) (k j : String) → get (remove d k) j ≡ (if k == j then none else get d j)
  unfolding get remove
  get-remove d k j = elim (Bool-cases (k == j)) [
    | inl same ↦ ground (arith, same, (eq_iff k j).0 same, find-delete_self (keyed k) d.entries)
    | inr other ↦ ground (
      arith,
      other,
      find-delete (keyed k) (keyed j) d.entries
          (λ e h. ground (arith, eq_iff e.0 j, eq_iff e.0 k, eq_iff k j)),
    )
  ]

pub ruleset dict_laws = (get-put, get-remove)
