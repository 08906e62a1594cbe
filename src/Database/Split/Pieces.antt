-- ===== src/Database/Split/Pieces.antt =====
-- What the statements of a script are: its pieces between separators.
use mathlib.Core.List.{append_assoc, append-nil}
use agent_roi.Base.{
  ℕ, zero, suc, ◌≡◌, ◌⊎◌, refl, sym, ap, ◌∙◌, arith, inl, inr, List, [], ◌∷◌, ◌++◌,
}
use agent_roi.Result.{ok}
use agent_roi.Database.Split.{
  Codes, Mode, plain, line_comment, block_comment, dollar, quoted, Splitter, keep, push, step_plain,
  step_quoted, step_in, step, finish, run, initial, split_sql_statements,
}

-- `";".join(…)` of a first piece and others
abbrev pub join : Codes → List Codes → Codes
join q [] = q
join q (r ∷ rs) = q ++ b';' ∷ join r rs

-- the pieces without the blanks around them, and without those that are blank
abbrev pub kept : List Codes → List Codes
kept [] = []
kept (q ∷ rs) = keep q ++ kept rs

-- A character is appended, or it is a semicolon that ends a statement.
abbrev Takes : Splitter → ℕ → Splitter → Type 0
Takes p c q =
    ((q.statements ≡ p.statements) × (q.buffer ≡ p.buffer ++ c ∷ []))
    ⊎ ((c ≡ b';') × (q.statements ≡ p.statements ++ keep p.buffer) × (q.buffer ≡ []))

step_plain-Takes : (p : Splitter) (c : ℕ) (rest : Codes) → Takes p c (step_plain p c rest)
unfolding step_plain
step_plain-Takes p c rest = ground arith

step_in-Takes : (m : Mode) (p : Splitter) (c : ℕ) (rest : Codes) → Takes p c (step_in m p c rest)
unfolding step_in step_quoted
step_in-Takes plain p c rest = step_plain-Takes p c rest
step_in-Takes line_comment p c rest = inl (refl, refl)
step_in-Takes block_comment p c rest = ground arith
step_in-Takes (dollar tag) p c rest = ground arith
step_in-Takes (quoted quote) p c rest = ground arith

turn-Takes :
    (n : ℕ) (p : Splitter) (c : ℕ) (rest : Codes)
    → Takes p c (elim n [ zero ↦ step_in p.mode p c rest | suc k ↦ push p c k p.mode ])
turn-Takes zero p c rest = step_in-Takes p.mode p c rest
turn-Takes (suc n) p c rest = inl (refl, refl)

-- The script from some place on, in pieces, and the statements that it leads to.
record Cut (p : Splitter) (sql : Codes) (l : List Codes) : Type 0 where
  first : Codes
  others : List Codes
  joined : sql ≡ join first others
  found : l ≡ p.statements ++ (keep (p.buffer ++ first) ++ kept others)

finish-Cut : (m : Mode) (p : Splitter) (l : List Codes) → finish p m ≡ ok l → Cut p [] l
finish-Cut m p l h = record {
  first = [];
  others = [];
  joined = refl;
  found =
      finish-flush m p l h
      ∙ ap (λ q. p.statements ++ q)
          (ap keep (sym (append-nil p.buffer)) ∙ sym (append-nil (keep (p.buffer ++ []))));
}
  where
    finish-flush :
        (m : Mode) (p : Splitter) (l : List Codes)
        → finish p m ≡ ok l
        → l ≡ p.statements ++ keep p.buffer
    finish-flush plain p l h = ground (arith, h)
    finish-flush line_comment p l h = ground (arith, h)
    finish-flush block_comment p l h = ground (arith, h)
    finish-flush (dollar tag) p l h = ground (arith, h)
    finish-flush (quoted quote) p l h = ground (arith, h)

cons-Cut :
    (p q : Splitter) (c : ℕ) (sql : Codes) (l : List Codes)
    → Takes p c q
    → Cut q sql l
    → Cut p (c ∷ sql) l
cons-Cut p q c sql l (inl (same, more)) cut = record {
  first = c ∷ cut.first;
  others = cut.others;
  joined = ap (λ s. c ∷ s) cut.joined ∙ join-cons c cut.first cut.others;
  found =
      cut.found
      ∙ ap (λ s. s ++ (keep (q.buffer ++ cut.first) ++ kept cut.others)) same
      ∙ ap (λ b. p.statements ++ (keep b ++ kept cut.others))
          (ap (λ b. b ++ cut.first) more ∙ append_assoc p.buffer (c ∷ []) cut.first);
}
  where
    join-cons : (c : ℕ) (q : Codes) (rs : List Codes) → c ∷ join q rs ≡ join (c ∷ q) rs
    join-cons c q [] = refl
    join-cons c q (r ∷ rs) = refl
cons-Cut p q c sql l (inr (semicolon, more, empty)) cut = record {
  first = [];
  others = cut.first ∷ cut.others;
  joined = ap (λ s. c ∷ s) cut.joined ∙ ap (λ d. d ∷ join cut.first cut.others) semicolon;
  found =
      cut.found
      ∙ ap (λ s. s ++ (keep (q.buffer ++ cut.first) ++ kept cut.others)) more
      ∙ append_assoc p.statements (keep p.buffer) (keep (q.buffer ++ cut.first) ++ kept cut.others)
      ∙ ap (λ b. p.statements ++ (keep p.buffer ++ (keep (b ++ cut.first) ++ kept cut.others)))
          empty
      ∙ ap (λ b. p.statements ++ (keep b ++ (keep cut.first ++ kept cut.others)))
          (sym (append-nil p.buffer));
}

run-Cut : (sql : Codes) (p : Splitter) (l : List Codes) → run p sql ≡ ok l → Cut p sql l
unfolding run
run-Cut [] p l h = finish-Cut p.mode p l h
run-Cut (c ∷ sql) p l h =
    let q = step p c sql in cons-Cut p q c sql l (turn-Takes p.skip p c sql) (run-Cut sql q l h)

-- If a script is split, then it is some pieces joined by semicolons, and the statements are these pieces
-- in order, each without the blanks around it, but for the pieces that are blank: nothing else is lost.
pub split-pieces :
    (sql : Codes) (l : List Codes)
    → split_sql_statements sql ≡ ok l
    → (first : Codes) × (others : List Codes) × (sql ≡ join first others)
      × (l ≡ kept (first ∷ others))
unfolding split_sql_statements
split-pieces sql l h =
    let cut = run-Cut sql initial l h in (cut.first, cut.others, cut.joined, cut.found)
