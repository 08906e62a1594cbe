-- ===== src/Policies/Loader/Weights.antt =====
-- The weights of a decision policy that passes its check.
use agent_roi.Base.{
  ◌≡◌, refl, sym, ap, ◌∙◌, arith, String, Bool, true, false, none, some, List, [], ◌∷◌, ◌++◌, ◌||◌,
  any, All, is_some, inl, inr, Bool-cases, Option-cases, ◌⊎◌,
}
use mathlib.Core.Path.{subst}
use agent_roi.Float.{Float}
use agent_roi.Policies.Value.{
  Value, Entries, Conversions, null, flag, whole, real, text, sequence, mapping, opaque, lookup,
  number_of, to_float,
}
use agent_roi.Policies.Validate.{
  gathered, Fault, weight_path, no_number, not_finite, too_small, PolicyError, error_if, Weighing,
  weigh, weigh_value,
}

pub append-nil : {A : Type 0} (xs ys : List A) → xs ++ ys ≡ [] → (xs ≡ []) × (ys ≡ [])
append-nil [] ys h = (refl, h)
append-nil (x ∷ xs) ys h = absurd (ground (arith, h))

-- no check has an error
pub gathered-nil :
    (l : List (List PolicyError)) → gathered l ≡ [] → All (λ (e : List PolicyError). e ≡ []) l
gathered-nil [] h = tt
gathered-nil (e ∷ l) h =
    let (here, rest) = append-nil e (gathered l) h in (here, gathered-nil l rest)

-- Adding two floats that are not negative, the second one finite: the laws that the sum of the weights
-- rests on.
pub record Sums (fl : Float) : Type 0 where
  pub eq_refl_nought : fl.eq fl.nought fl.nought ≡ true
  pub sign :
      (x : fl.F)
      → fl.is_finite x ≡ true
      → fl.lt x fl.nought ≡ false
      → (fl.eq x fl.nought ≡ true) ⊎ (fl.lt fl.nought x ≡ true)
  pub both_nought :
      (a b : fl.F)
      → fl.eq a fl.nought ≡ true
      → fl.eq b fl.nought ≡ true
      → fl.eq (fl.add a b) fl.nought ≡ true
  pub left_positive :
      (a b : fl.F)
      → fl.lt fl.nought a ≡ true
      → fl.is_finite b ≡ true
      → fl.lt b fl.nought ≡ false
      → fl.lt fl.nought (fl.add a b) ≡ true
  pub right_positive :
      (a b : fl.F)
      → fl.eq a fl.nought ≡ true
      → fl.lt fl.nought b ≡ true
      → fl.lt fl.nought (fl.add a b) ≡ true

pub to_float-number :
    {F : Type 0} (c : Conversions F) (v : Value F) (x : F)
    → number_of c v ≡ some x
    → to_float c v ≡ some x
to_float-number c (whole n) x h = h
to_float-number c (real y) x h = h
to_float-number c null x h = absurd (ground (arith, h))
to_float-number c (flag b) x h = absurd (ground (arith, h))
to_float-number c (text t) x h = absurd (ground (arith, h))
to_float-number c (sequence l) x h = absurd (ground (arith, h))
to_float-number c (mapping o) x h = absurd (ground (arith, h))
to_float-number c opaque x h = absurd (ground (arith, h))

module _ (fl : Float) (c : Conversions fl.F) where
  open fl use {F, nought, one, add, lt, eq, is_finite}

  -- a number is nought, or it is positive
  abbrev pub Signed : F → Bool → Type 0
  Signed a true = lt nought a ≡ true
  Signed a false = eq a nought ≡ true

  -- a weight that passes the check
  abbrev pub IsWeight : F → Type 0
  IsWeight x = (is_finite x ≡ true) × (lt x nought ≡ false)

  pub add-Signed :
      (laws : Sums fl) (a b : F) (s : Bool)
      → Signed a s
      → IsWeight b
      → (t : Bool) × Signed b t × Signed (add a b) (s || t)
  add-Signed laws a b true h w = elim (laws.sign b w.0 w.1) [
    | inl z ↦ (false, z, laws.left_positive a b h w.0 w.1)
    | inr p ↦ (true, p, laws.left_positive a b h w.0 w.1)
  ]
  add-Signed laws a b false h w = elim (laws.sign b w.0 w.1) [
    | inl z ↦ (false, z, laws.both_nought a b h z)
    | inr p ↦ (true, p, laws.right_positive a b h p)
  ]

  -- the number that a keyword is read as: the one that is given, or the default
  abbrev pub read : String → F → Entries F → F
  read key default policy = elim (lookup key policy) [
    | none ↦ default
    | some v ↦ elim (to_float c v) [ none ↦ default | some x ↦ x ]
  ]

  -- a value that is weighed without an error is a weight
  weigh_value-errors :
      (key : String) (v : Value F) (w : Weighing fl c)
      → (weigh_value fl c key v w).errors ≡ []
      → (x : F) × (number_of c v ≡ some x)
        × IsWeight x
        × (w.errors ≡ [])
        × (weigh_value fl c key v w ≡ record w { total = add w.total x; present = true })
  weigh_value-errors key v w h =
      let result = weigh_value fl c key v w in
      let clear = λ (f : Fault) (e : result.errors ≡ w.errors ++ error_if true (weight_path key) f).
        append-nil w.errors (error_if true (weight_path key) f) (sym e ∙ h) in
      elim (Option-cases (number_of c v)) [
        | inl none_there ↦ absurd (ground (arith, (clear no_number (ground (arith, none_there))).1))
        | inr (x, number) ↦ elim (Bool-cases (is_finite x)) [
          | inr infinite ↦
              absurd (ground (arith, (clear not_finite (ground (arith, number, infinite))).1))
          | inl finite ↦ elim (Bool-cases (lt x nought)) [
            | inl negative ↦
                absurd
                  (ground (arith, (clear too_small (ground (arith, number, finite, negative))).1))
            | inr fine ↦ (
              x,
              number,
              (finite, fine),
              ground (arith, h, number, finite, fine),
              ground (arith, number, finite, fine),
            )
          ]
        ]
      ]

  -- a key that is not given, or given with a weight
  abbrev pub Given : Entries F → String → Type 0
  Given policy key =
      (lookup key policy ≡ none)
      ⊎ ((v : Value F) × (x : F) × (lookup key policy ≡ some v)
          × (number_of c v ≡ some x)
          × IsWeight x)

  -- whether a key is given with a weight that is positive
  abbrev pub positive : Entries F → String → Bool
  positive policy key = elim (lookup key policy) [
    | none ↦ false
    | some v ↦ elim (number_of c v) [ none ↦ false | some x ↦ lt nought x ]
  ]

  -- a loop that ends without errors began without them
  weigh-clear :
      (policy : Entries F) (keys : List String) (w : Weighing fl c)
      → (weigh fl c policy keys w).errors ≡ []
      → w.errors ≡ []
  unfolding weigh
  weigh-clear policy [] w clear = clear
  weigh-clear policy (key ∷ keys) w clear = elim (Option-cases (lookup key policy)) [
    | inl missing ↦ weigh-clear policy keys w (ground (arith, missing, clear))
    | inr (v, there) ↦
        let w' = weigh_value fl c key v w in
        let same : weigh fl c policy (key ∷ keys) w ≡ weigh fl c policy keys w' =
          ground (arith, there) in
        let clear' = weigh-clear policy keys w' (ap (λ r. r.errors) (sym same) ∙ clear) in
        (weigh_value-errors key v w clear').3
  ]

  -- what a loop without errors has found
  pub weigh-errors :
      (laws : Sums fl) (policy : Entries F) (keys : List String) (w : Weighing fl c) (s : Bool)
      → Signed w.total s
      → (weigh fl c policy keys w).errors ≡ []
      → (w.errors ≡ [])
        × All (Given policy) keys
        × ((weigh fl c policy keys w).present
            ≡ (w.present || any (λ key. is_some (lookup key policy)) keys))
        × ((t : Bool) × Signed (weigh fl c policy keys w).total t
            × (t ≡ true → (s || any (positive policy) keys) ≡ true))
  unfolding weigh
  weigh-errors laws policy [] w s h clear =
      (clear, tt, ground arith, (s, h, (λ e. ground (arith, e))))
  weigh-errors laws policy (key ∷ keys) w s h clear = elim (Option-cases (lookup key policy)) [
    | inl missing ↦
        let (errors, given, present, (t, signed, some_positive)) =
          weigh-errors laws policy keys w s h (ground (arith, missing, clear)) in
        let same : weigh fl c policy (key ∷ keys) w ≡ weigh fl c policy keys w =
          ground (arith, missing) in
        (
          errors,
          (inl missing, given),
          ground (arith, missing, present),
          (
            t,
            subst (λ (r : Weighing fl c). Signed r.total t) (sym same) signed,
            (λ e. ground (arith, some_positive e)),
          ),
        )
    | inr (v, there) ↦
        let w' = weigh_value fl c key v w in
        let same : weigh fl c policy (key ∷ keys) w ≡ weigh fl c policy keys w' =
          ground (arith, there) in
        let clear' = ap (λ r. r.errors) (sym same) ∙ clear in
        let (x, number, weight, errors, added) =
          weigh_value-errors key v w (weigh-clear policy keys w' clear') in
        let (tx, sign_x, summed) = add-Signed laws w.total x s h weight in
        let total' : Signed w'.total (s || tx) =
          subst (λ (r : Weighing fl c). Signed r.total (s || tx)) (sym added) summed in
        let (_, given, present, (t, signed, some_positive)) =
          weigh-errors laws policy keys w' (s || tx) total' clear' in
        let marked : w'.present ≡ true = ap (λ r. r.present) added in
        (
          errors,
          (inr (v, x, there, number, weight), given),
          ground (arith, same, there, present, marked),
          (
            t,
            subst (λ (r : Weighing fl c). Signed r.total t) (sym same) signed,
            (λ e. elim (Bool-cases tx) [
              | inl p ↦
                  let px : lt nought x ≡ true = subst (Signed x) p sign_x in
                  ground (arith, px, there, number)
              | inr z ↦ ground (arith, some_positive e, z)
            ]),
          ),
        )
  ]
