-- ===== src/Exec.antt =====
-- `do` blocks of methods: a call gives its outcome and the object as it leaves it, also if it raises.
use agent_roi.Base.{Bool, if◌then◌else◌}
use agent_roi.Result.{Result, ok, err, Exec}

module _ {E S : Type 0} where
  abbrev pub pure : {A : Type 0} → A → Exec E S A
  pure a s = (ok a, s)

  abbrev pub raise : {A : Type 0} → E → Exec E S A
  raise e s = (err e, s)

  abbrev pub modify : (S → S) → Exec E S (Unit {0})
  modify f s = (ok tt, f s)

  abbrev pub gets : {A : Type 0} → (S → A) → Exec E S A
  gets f s = (ok (f s), s)

  infixl 5 ◌>>=◌ ◌>>◌
  abbrev pub ◌>>=◌ : {A B : Type 0} → Exec E S A → (A → Exec E S B) → Exec E S B
  ◌>>=◌ m f s = let (r, t) = m s in elim r [ err e ↦ (err e, t) | ok a ↦ f a t ]

  abbrev pub ◌>>◌ : {A B : Type 0} → Exec E S A → Exec E S B → Exec E S B
  m >> n = m >>= λ _. n

  abbrev pub raise_if : Bool → E → Exec E S (Unit {0})
  raise_if c e s = (if c then err e else ok tt, s)

-- `raise … from exc`: a pure computation whose exception is turned into the method's
abbrev pub lift : {E E' S A : Type 0} → (E → E') → Result E A → Exec E' S A
lift f (ok a) s = (ok a, s)
lift f (err e) s = (err (f e), s)
