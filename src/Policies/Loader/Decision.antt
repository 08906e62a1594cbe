-- ===== src/Policies/Loader/Decision.antt =====
-- The decision policy of a document that passes `validate_policy`.
use mathlib.Core.Path.{subst}
use agent_roi.Base.{
  ◌≡◌, sym, ◌∙◌, arith, String, Bool, true, false, Option, none, some, List, [], ◌∷◌, ◌||◌, any,
  All, is_some, inl, inr, Bool-cases, Option-cases, ◌⊎◌,
}
use agent_roi.Float.{Float}
use agent_roi.Result.{ok, is_ok}
use agent_roi.Control.Decision.{
  DecisionOutcome, DecisionPolicy, check_decision_policy, weight_denominator,
}
use agent_roi.Policies.Value.{
  Value, Entries, Conversions, null, flag, whole, real, text, sequence, mapping, opaque, lookup,
  number_of, to_float, has_other,
}
use agent_roi.Policies.Validate.{
  Weighing, weigh, require_number, above, validate_decision_weights, weight_keys,
}
use agent_roi.Policies.Sections.{check_action, decision_checks, validate_decision, outcome_of}
use agent_roi.Policies.Loader.{
  LoadError, keyword, decision_keys, new_decision_policy, action_of, bad_decision_policy,
}
use agent_roi.Policies.Loader.Weights.{
  append-nil, gathered-nil, Sums, to_float-number, Signed, IsWeight, add-Signed, read, Given,
  positive, weigh-errors,
}

module _ (fl : Float) (c : Conversions fl.F) where
  open fl use {F, nought, one, add, lt, eq, is_finite}

  -- a sum so far, positive if `p`
  abbrev Summed : F → Bool → Type 0
  Summed a p = ((s : Bool) × Signed fl c a s) × (p ≡ true → lt nought a ≡ true)

  add-Summed :
      (laws : Sums fl) (a b : F) (p : Bool)
      → Summed a p
      → IsWeight fl c b
      → Summed (add a b) (p || lt nought b)
  add-Summed laws a b p ((s, signed), pos) w =
      let (t, _, signed') = add-Signed fl c laws a b s signed w in
      (
        (s || t, signed'),
        (λ e. elim (Bool-cases p) [
          | inl there ↦ laws.left_positive a b (pos there) w.0 w.1
          | inr other ↦ elim (Bool-cases s) [
            | inl more ↦ laws.left_positive a b (subst (Signed fl c a) more signed) w.0 w.1
            | inr zero_so_far ↦
                laws.right_positive a b (subst (Signed fl c a) zero_so_far signed)
                  (ground (arith, e, other))
          ]
        ]),
      )

  -- the weights are summed up
  denominator_positive :
      (laws : Sums fl) (p : DecisionPolicy F)
      → IsWeight fl c p.w_prob
      → IsWeight fl c p.w_margin
      → IsWeight fl c p.w_z
      → IsWeight fl c p.w_entropy
      → IsWeight fl c p.w_llm
      → (lt nought p.w_prob
          || (lt nought p.w_margin
              || (lt nought p.w_z || (lt nought p.w_entropy || lt nought p.w_llm))))
        ≡ true
      → lt nought (weight_denominator fl p) ≡ true
  denominator_positive laws p a b d e f some_positive =
      let first : Summed p.w_prob (lt nought p.w_prob) = (
        (elim (laws.sign p.w_prob a.0 a.1) [ inl z ↦ (false, z) | inr q ↦ (true, q) ]),
        (λ h. h),
      ) in
      let second = add-Summed laws _ p.w_margin _ first b in
      let third = add-Summed laws _ p.w_z _ second d in
      let fourth = add-Summed laws _ p.w_entropy _ third e in
      let fifth = add-Summed laws _ p.w_llm _ fourth f in fifth.1 (ground (arith, some_positive))

  -- a weight as the constructor reads it
  reads :
      (policy : Entries F) (key : String) (default : F) (x : LoadError)
      → Given fl c policy key
      → IsWeight fl c default
      → (keyword (to_float c) key default policy x ≡ ok (read fl c key default policy))
        × IsWeight fl c (read fl c key default policy)
        × (positive fl c policy key ≡ true → lt nought (read fl c key default policy) ≡ true)
        × (lookup key policy ≡ none → read fl c key default policy ≡ default)
  reads policy key default x (inl missing) weight = (
    ground (arith, missing),
    (ground (arith, missing, weight.0), ground (arith, missing, weight.1)),
    (λ h. absurd (ground (arith, h, missing))),
    (λ _. ground (arith, missing)),
  )
  reads policy key default x (inr (v, y, there, number, given)) weight =
      let converted = to_float-number c v y number in
      (
        ground (arith, there, converted),
        (ground (arith, there, converted, given.0), ground (arith, there, converted, given.1)),
        (λ h. ground (arith, h, there, number, converted)),
        (λ missing. absurd (ground (arith, there, missing))),
      )

  -- a number that is required
  pub require_number-reads :
      (o : Entries F) (path : List String) (key : String) (low : F) (high : Option F) (default : F)
      (e : LoadError)
      → require_number fl c o path key (some low) high ≡ []
      → (x : F) × (keyword (to_float c) key default o e ≡ ok x)
        × (is_finite x ≡ true)
        × (lt x low ≡ false)
        × (above fl c high x ≡ false)
  unfolding require_number
  require_number-reads o path key low high default e clear = elim (Option-cases (lookup key o)) [
    | inl missing ↦ absurd (ground (arith, clear, missing))
    | inr (v, there) ↦ elim (Option-cases (number_of c v)) [
      | inl other ↦ absurd (ground (arith, clear, there, other))
      | inr (x, number) ↦ elim (Bool-cases (is_finite x)) [
        | inr infinite ↦ absurd (ground (arith, clear, there, number, infinite))
        | inl finite ↦
            let converted = to_float-number c v x number in
            (
              x,
              ground (arith, there, converted),
              finite,
              ground (arith, clear, there, number, finite),
              ground (arith, clear, there, number, finite),
            )
      ]
    ]
  ]

  action-reads :
      (defaults : DecisionPolicy F) (o : Entries F) (e : LoadError)
      → check_action o ≡ []
      → (a : DecisionOutcome) × (keyword
            (action_of fl c defaults)
            "abstain_action"
            defaults.abstain_action
            o
            e
          ≡ ok a)
  action-reads defaults o e clear = elim (Option-cases (lookup "abstain_action" o)) [
    | inl missing ↦ (defaults.abstain_action, ground (arith, missing))
    | inr (v, there) ↦ go v there
  ]
    where
      go :
          (v : Value F)
          → lookup "abstain_action" o ≡ some v
          → (a : DecisionOutcome) × (keyword
                (action_of fl c defaults)
                "abstain_action"
                defaults.abstain_action
                o
                e
              ≡ ok a)
      go (text t) there = elim (Option-cases (outcome_of t)) [
        | inl unknown ↦ absurd (ground (arith, clear, there, unknown))
        | inr (a, known) ↦ (a, ground (arith, there, known))
      ]
      go null there = absurd (ground (arith, clear, there))
      go (flag b) there = absurd (ground (arith, clear, there))
      go (whole n) there = absurd (ground (arith, clear, there))
      go (real x) there = absurd (ground (arith, clear, there))
      go (sequence l) there = absurd (ground (arith, clear, there))
      go (mapping m) there = absurd (ground (arith, clear, there))
      go opaque there = absurd (ground (arith, clear, there))

  -- the defaults are sound
  defaults_lem :
      (p : DecisionPolicy F)
      → check_decision_policy fl p ≡ ok tt
      → IsWeight fl c p.w_prob
        × IsWeight fl c p.w_margin
        × IsWeight fl c p.w_z
        × IsWeight fl c p.w_entropy
        × IsWeight fl c p.w_llm
        × (lt nought (weight_denominator fl p) ≡ true)
  unfolding check_decision_policy
  defaults_lem p h = (
    (ground (arith, h), ground (arith, h)),
    (ground (arith, h), ground (arith, h)),
    (ground (arith, h), ground (arith, h)),
    (ground (arith, h), ground (arith, h)),
    (ground (arith, h), ground (arith, h)),
    ground (arith, h),
  )

  -- the weights of a section that passes its check
  weights-Given :
      (laws : Sums fl) (o : Entries F)
      → validate_decision_weights fl c o ≡ []
      → All (Given fl c o) weight_keys
        × ((any (λ key. is_some (lookup key o)) weight_keys ≡ false)
            ⊎ (any (positive fl c o) weight_keys ≡ true))
  unfolding validate_decision_weights
  weights-Given laws o clear =
      let start : Weighing fl c = record { total = nought; present = false; errors = [] } in
      let found = weigh fl c o weight_keys start in
      let (errors, refused) = append-nil found.errors _ clear in
      let (_, given, present, (t, signed, some_positive)) =
        weigh-errors fl c laws o weight_keys start false laws.eq_refl_nought errors in
      (
        given,
        elim (Bool-cases found.present) [
          | inr missing ↦ inl (sym present ∙ missing)
          | inl there ↦ elim (Bool-cases t) [
            | inl more ↦ inr (some_positive more)
            | inr zero_total ↦
                let z : eq found.total nought ≡ true =
                  subst (Signed fl c found.total) zero_total signed in
                absurd (ground (arith, refused, there, z))
          ]
        ],
      )

  -- the constructor accepts the section
  pub new_decision_policy-accepts :
      (laws : Sums fl) (defaults : DecisionPolicy F) (o : Entries F)
      → check_decision_policy fl defaults ≡ ok tt
      → has_other decision_keys o ≡ false
      → validate_decision fl c o ≡ []
      → is_ok (new_decision_policy fl c defaults o) ≡ true
  unfolding decision_checks validate_decision validate_decision_weights require_number
      new_decision_policy check_decision_policy
  new_decision_policy-accepts laws defaults o sound known clear =
      let (d1, d2, d3, d4, d5, d_sum) = defaults_lem defaults sound in
      let (number, (action, (weights, _))) = gathered-nil (decision_checks fl c o) clear in
      let (x, min_read, finite, low, high) =
        require_number-reads o ("policy" ∷ "decision_policy" ∷ []) "min_confidence" nought
          (some one) defaults.min_confidence bad_decision_policy number in
      let (a, action_read) = action-reads defaults o bad_decision_policy action in
      let ((g1, (g2, (g3, (g4, (g5, _))))), some_positive) = weights-Given laws o weights in
      let (r1, w1, p1, m1) = reads o "w_prob" defaults.w_prob bad_decision_policy g1 d1 in
      let (r2, w2, p2, m2) = reads o "w_margin" defaults.w_margin bad_decision_policy g2 d2 in
      let (r3, w3, p3, m3) = reads o "w_z" defaults.w_z bad_decision_policy g3 d3 in
      let (r4, w4, p4, m4) = reads o "w_entropy" defaults.w_entropy bad_decision_policy g4 d4 in
      let (r5, w5, p5, m5) = reads o "w_llm" defaults.w_llm bad_decision_policy g5 d5 in
      let p : DecisionPolicy F = record {
        min_confidence = x;
        abstain_action = a;
        w_prob = read fl c "w_prob" defaults.w_prob o;
        w_margin = read fl c "w_margin" defaults.w_margin o;
        w_z = read fl c "w_z" defaults.w_z o;
        w_entropy = read fl c "w_entropy" defaults.w_entropy o;
        w_llm = read fl c "w_llm" defaults.w_llm o;
      } in
      let positive_sum : lt nought (weight_denominator fl p) ≡ true = elim some_positive [
        | inl none_given ↦
            let same : weight_denominator fl p ≡ weight_denominator fl defaults =
              ground (arith, none_given, m1, m2, m3, m4, m5) in
            ground (arith, same, d_sum)
        | inr more ↦
            denominator_positive laws p w1 w2 w3 w4 w5 (ground (arith, more, p1, p2, p3, p4, p5))
      ] in
      let checked : check_decision_policy fl p ≡ ok tt = ground (
        arith, finite, low, high, w1.0, w1.1, w2.0, w2.1, w3.0, w3.1, w4.0, w4.1, w5.0, w5.1,
        positive_sum,
      ) in
      ground (arith, known, min_read, action_read, r1, r2, r3, r4, r5, checked)
