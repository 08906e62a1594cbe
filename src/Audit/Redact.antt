-- ===== src/Audit/Redact.antt =====
-- `redact` of audit/redact.py, over values whose scalars are of a type `S`. How Python orders two values
-- by their `repr` is a parameter.
use mathlib.Core.Path.{subst}
use agent_roi.Base.{
  String, ◌≡◌, refl, Bool, true, List, map, any, arith, ap, ◌==◌, inl, inr, Bool-cases, ◌∙◌, ◌↔◌,
  if◌then◌else◌,
}

mutual
  pub data Json (S : Type 0) : Type 0 where
    scalar : S → Json S
    text : String → Json S
    list : Items S → Json S
    tuple : Items S → Json S
    set : Items S → Json S
    object : Fields S → Json S

  pub data Items (S : Type 0) : Type 0 where
    no_items : Items S
    item : Json S → Items S → Items S

  pub data Fields (S : Type 0) : Type 0 where
    no_fields : Fields S
    field : String → Json S → Fields S → Fields S

-- `{key.casefold() for key in blocked_keys}`, and the test of a key
abbrev pub is_blocked : (String → String) → List String → String → Bool
is_blocked casefold blocked key = any (λ b. b == casefold key) (map casefold blocked)

module _ {S : Type 0} (repr_le : Json S → Json S → Bool) where
  abbrev insert_item : Json S → Items S → Items S
  insert_item j no_items = item j no_items
  insert_item j (item k l) =
      let rest = insert_item j l in if repr_le j k then item j (item k l) else item k rest

  -- `sorted(…, key=repr)`
  abbrev pub sort_items : Items S → Items S
  sort_items no_items = no_items
  sort_items (item j l) = insert_item j (sort_items l)

module _ {S : Type 0} (repr_le : Json S → Json S → Bool) (hides : String → Bool) where
  unfoldable mutual
    pub walk : Json S → Json S
    walk (scalar s) = scalar s
    walk (text t) = text t
    walk (list l) = list (walk_items l)
    walk (tuple l) = tuple (walk_items l)
    walk (set l) = list (sort_items repr_le (walk_items l))
    walk (object o) = object (walk_fields o)

    pub walk_items : Items S → Items S
    walk_items no_items = no_items
    walk_items (item j l) = item (walk j) (walk_items l)

    pub walk_fields : Fields S → Fields S
    walk_fields no_fields = no_fields
    walk_fields (field k j o) =
        let rest = walk_fields o in
        let child = walk j in field k (if hides k then text "[REDACTED]" else child) rest

  -- There is no set, and the value of every hidden key, at any depth outside such a value, is the mark.
  abbrev mutual
    pub IsClean : Json S → Type 0
    IsClean (scalar s) = Unit
    IsClean (text t) = Unit
    IsClean (list l) = IsCleanItems l
    IsClean (tuple l) = IsCleanItems l
    IsClean (set l) = ⊥
    IsClean (object o) = IsCleanFields o

    pub IsCleanItems : Items S → Type 0
    IsCleanItems no_items = Unit
    IsCleanItems (item j l) = IsClean j × IsCleanItems l

    pub IsCleanFields : Fields S → Type 0
    IsCleanFields no_fields = Unit
    IsCleanFields (field k j o) =
        (hides k ≡ true → j ≡ text "[REDACTED]") × IsClean j × IsCleanFields o

  insert_item-IsCleanItems :
      (j : Json S) (l : Items S)
      → IsClean j
      → IsCleanItems l
      → IsCleanItems (insert_item repr_le j l)
  insert_item-IsCleanItems j no_items clean cleans = (clean, tt)
  insert_item-IsCleanItems j (item k l) clean (first, others) =
      let rest = insert_item-IsCleanItems j l clean others in
      elim (Bool-cases (repr_le j k)) [
        | inl less ↦ rw less (clean, (first, others))
        | inr more ↦ rw more (first, rest)
      ]

  sort_items-IsCleanItems : (l : Items S) → IsCleanItems l → IsCleanItems (sort_items repr_le l)
  sort_items-IsCleanItems no_items cleans = tt
  sort_items-IsCleanItems (item j l) (clean, cleans) =
      insert_item-IsCleanItems j (sort_items repr_le l) clean (sort_items-IsCleanItems l cleans)

  -- the value of a field after the walk
  hidden-IsClean :
      (k : String) (j child : Json S)
      → IsClean child
      → (hides k ≡ true → (if hides k then text "[REDACTED]" else child) ≡ text "[REDACTED]")
        × IsClean (if hides k then text "[REDACTED]" else child)
  hidden-IsClean k j child clean = elim (Bool-cases (hides k)) [
    | inl hidden ↦ rw hidden ((λ h. refl), tt)
    | inr shown ↦ rw shown ((λ h. ground (arith, h)), clean)
  ]

  kept :
      (k : String) (j child : Json S)
      → (hides k ≡ true → j ≡ text "[REDACTED]")
      → child ≡ j
      → (if hides k then text "[REDACTED]" else child) ≡ j
  kept k j child mark same = elim (Bool-cases (hides k)) [
    | inl hidden ↦ ground (arith, hidden, mark hidden)
    | inr shown ↦ ground (arith, shown, same)
  ]

  mutual
    unfolding walk walk_items walk_fields

    pub walk-IsClean : (j : Json S) → IsClean (walk j)
    walk-IsClean (scalar s) = tt
    walk-IsClean (text t) = tt
    walk-IsClean (list l) = walk_items-IsClean l
    walk-IsClean (tuple l) = walk_items-IsClean l
    walk-IsClean (set l) = sort_items-IsCleanItems (walk_items l) (walk_items-IsClean l)
    walk-IsClean (object o) = walk_fields-IsClean o

    walk_items-IsClean : (l : Items S) → IsCleanItems (walk_items l)
    walk_items-IsClean no_items = tt
    walk_items-IsClean (item j l) = (walk-IsClean j, walk_items-IsClean l)

    walk_fields-IsClean : (o : Fields S) → IsCleanFields (walk_fields o)
    walk_fields-IsClean no_fields = tt
    walk_fields-IsClean (field k j o) =
        let (mark, clean) = hidden-IsClean k j (walk j) (walk-IsClean j) in
        (mark, clean, walk_fields-IsClean o)

  mutual
    unfolding walk walk_items walk_fields

    pub walk_clean : (j : Json S) → IsClean j → walk j ≡ j
    walk_clean (scalar s) clean = refl
    walk_clean (text t) clean = refl
    walk_clean (list l) clean = ap list (walk_items_clean l clean)
    walk_clean (tuple l) clean = ap tuple (walk_items_clean l clean)
    walk_clean (set l) clean = absurd clean
    walk_clean (object o) clean = ap object (walk_fields_clean o clean)

    walk_items_clean : (l : Items S) → IsCleanItems l → walk_items l ≡ l
    walk_items_clean no_items clean = refl
    walk_items_clean (item j l) (clean, cleans) =
        ap (λ h. item h (walk_items l)) (walk_clean j clean)
        ∙ ap (item j) (walk_items_clean l cleans)

    walk_fields_clean : (o : Fields S) → IsCleanFields o → walk_fields o ≡ o
    walk_fields_clean no_fields clean = refl
    walk_fields_clean (field k j o) (mark, clean, cleans) =
        ap (λ h. field k h (walk_fields o)) (kept k j (walk j) mark (walk_clean j clean))
        ∙ ap (field k j) (walk_fields_clean o cleans)

-- `redact`
unfoldable pub redact :
    {S : Type 0} → (Json S → Json S → Bool) → (String → String) → List String → Json S → Json S
redact repr_le casefold blocked = walk repr_le (is_blocked casefold blocked)

-- In what `redact` returns there is no set, as sets become lists, and the value of every blocked key, at
-- any depth, is the mark. It leaves a value unchanged exactly if that holds already; so it can be applied
-- again without harm.
pub redact-IsClean :
    {S : Type 0} (repr_le : Json S → Json S → Bool) (casefold : String → String)
    (blocked : List String) (j : Json S)
    → IsClean repr_le (is_blocked casefold blocked) (redact repr_le casefold blocked j)
      × (IsClean repr_le (is_blocked casefold blocked) j ↔ (redact repr_le casefold blocked j ≡ j))
      × (redact repr_le casefold blocked (redact repr_le casefold blocked j)
          ≡ redact repr_le casefold blocked j)
unfolding redact
redact-IsClean repr_le casefold blocked j =
    let hides = is_blocked casefold blocked in
    let clean = walk-IsClean repr_le hides j in
    (
      clean,
      (walk_clean repr_le hides j, λ same. subst (IsClean repr_le hides) same clean),
      walk_clean repr_le hides (walk repr_le hides j) clean,
    )
