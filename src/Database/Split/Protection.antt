-- ===== src/Database/Split/Protection.antt =====
-- Scripts of statements with quoted texts, whose semicolons do not separate.
use mathlib.Core.List.{append_assoc, append-nil}
use agent_roi.Base.{
  ℕ, zero, suc, ◌≡◌, refl, sym, ap, ◌∙◌, arith, Bool, true, false, List, [], ◌∷◌, ◌++◌, All, any,
  nat_eq, ◌||◌,
}
use agent_roi.Result.{ok, err}
use agent_roi.Database.Split.{
  Codes, Mode, plain, quoted, Splitter, unterminated, is_nil, strip, next_is, step_plain,
  step_quoted, step_in, run, split_sql_statements,
}
use agent_roi.Database.Split.Pieces.{join}

-- characters that the splitter looks at: the semicolon, the dash, the slash, the quotes, the dollar
abbrev pub is_special : ℕ → Bool
is_special c =
    nat_eq c b';'
    || nat_eq c b'-'
    || nat_eq c b'/'
    || nat_eq c b'\''
    || nat_eq c b'"'
    || nat_eq c b'$'

abbrev pub is_quote : ℕ → Bool
is_quote c = nat_eq c b'\'' || nat_eq c b'"'

-- Other characters, and quoted texts that may hold any character but the quote and the backslash.
pub data Guarded : Codes → Type 0 where
  nothing : Guarded []
  other : {c : ℕ} {s : Codes} → is_special c ≡ false → Guarded s → Guarded (c ∷ s)
  literal :
      (quote : ℕ) (body : Codes) {s : Codes}
      → is_quote quote ≡ true
      → any (λ c. nat_eq c quote || nat_eq c b'\\') body ≡ false
      → next_is quote s ≡ false
      → Guarded s
      → Guarded (quote ∷ (body ++ quote ∷ s))

abbrev at_mode : Mode → Codes → List Codes → Splitter
at_mode m buffer statements = record {
  mode = m;
  skip = 0;
  buffer = buffer;
  statements = statements;
}

run-body :
    (quote : ℕ) (body rest b : Codes) (o : List Codes)
    → any (λ c. nat_eq c quote || nat_eq c b'\\') body ≡ false
    → next_is quote rest ≡ false
    → run (at_mode (quoted quote) b o) (body ++ quote ∷ rest)
      ≡ run (at_mode plain (b ++ (body ++ quote ∷ [])) o) rest
unfolding run step_in step_quoted
run-body quote [] rest b o clean free = ground (arith, free)
run-body quote (c ∷ body) rest b o clean free = ground (
  arith,
  clean,
  free,
  run-body quote body rest (b ++ c ∷ []) o,
  append_assoc b (c ∷ []) (body ++ quote ∷ []),
)

next_is-append :
    (q : ℕ) (s rest : Codes)
    → next_is q s ≡ false
    → next_is q rest ≡ false
    → next_is q (s ++ rest) ≡ false
next_is-append q [] rest h k = k
next_is-append q (c ∷ s) rest h k = h

-- what may follow a statement
abbrev Follows : Codes → Type 0
Follows rest = (q : ℕ) → is_quote q ≡ true → next_is q rest ≡ false

run-Guarded :
    (s rest b : Codes) (o : List Codes)
    → Guarded s
    → Follows rest
    → run (at_mode plain b o) (s ++ rest) ≡ run (at_mode plain (b ++ s) o) rest
unfolding run step_in step_plain
run-Guarded _ rest b o nothing f = ap (λ c. run (at_mode plain c o) rest) (sym (append-nil b))
run-Guarded _ rest b o (other {c = c} {s = t} h g) f =
    ground (arith, h, run-Guarded t rest (b ++ c ∷ []) o g f, append_assoc b (c ∷ []) t)
run-Guarded _ rest b o (literal quote body {s = t} q clean free g) f =
    let b1 : Codes = b ++ quote ∷ [] in
    let b2 : Codes = b1 ++ (body ++ quote ∷ []) in
    let opened : run (at_mode plain b o) (quote ∷ ((body ++ quote ∷ t) ++ rest))
        ≡ run (at_mode (quoted quote) b1 o) ((body ++ quote ∷ t) ++ rest) =
      ground (arith, q) in
    let regroup : (body ++ quote ∷ t) ++ rest ≡ body ++ quote ∷ (t ++ rest) =
      append_assoc body (quote ∷ t) rest in
    let closed =
      run-body quote body (t ++ rest) b1 o clean (next_is-append quote t rest free (f quote q)) in
    let later = run-Guarded t rest b2 o g f in
    let all : b2 ++ t ≡ b ++ (quote ∷ (body ++ quote ∷ t)) =
      ap (λ x. x ++ t) (append_assoc b (quote ∷ []) (body ++ quote ∷ []))
      ∙ append_assoc b (quote ∷ (body ++ quote ∷ [])) t
      ∙ ap (λ x. b ++ (quote ∷ x)) (append_assoc body (quote ∷ []) t) in
    opened
    ∙ ap (run (at_mode (quoted quote) b1 o)) regroup
    ∙ closed
    ∙ later
    ∙ ap (λ x. run (at_mode plain x o) rest) all

-- A statement that the splitter returns as it is.
pub record IsStatement (s : Codes) : Type 0 where
  pub guarded : Guarded s
  pub stripped : strip s ≡ s
  pub present : is_nil s ≡ false

run-join :
    (s : Codes) (ss o : List Codes)
    → IsStatement s
    → All IsStatement ss
    → run (at_mode plain [] o) (join s ss) ≡ ok (o ++ s ∷ ss)
unfolding run step_in step_plain
run-join s [] o h hs =
    ap (run (at_mode plain [] o)) (sym (append-nil s))
    ∙ run-Guarded s [] [] o h.guarded (λ q k. refl)
    ∙ ground (arith, h.stripped, h.present)
run-join s (t ∷ ss) o h hs =
    run-Guarded s (b';' ∷ join t ss) [] o h.guarded (λ q k. ground (arith, k))
    ∙ ground (
      arith,
      h.stripped,
      h.present,
      run-join t ss (o ++ s ∷ []) hs.0 hs.1,
      append_assoc o (s ∷ []) (t ∷ ss),
    )

-- Statements that are joined by semicolons are split again into the same statements, if each is stripped and
-- not empty, and is made of texts in quotes and of other characters: a text in quotes may hold semicolons,
-- comment marks and dollars, but no backslash and no quote of its own, and is not followed by the same
-- quote; outside of such texts stands no semicolon, dash, slash, quote or dollar.
pub split-join :
    (s : Codes) (ss : List Codes)
    → IsStatement s
    → All IsStatement ss
    → split_sql_statements (join s ss) ≡ ok (s ∷ ss)
unfolding split_sql_statements
split-join s ss h hs = run-join s ss [] h hs

run-open :
    (tail b : Codes) (o : List Codes)
    → any (λ c. nat_eq c b'\'') tail ≡ false
    → (n : ℕ)
    → run (record { mode = quoted b'\''; skip = n; buffer = b; statements = o }) tail
      ≡ err unterminated
unfolding run step_in step_quoted
run-open [] b o clean n = refl
run-open (c ∷ tail) b o clean zero = ground (
  arith,
  clean,
  run-open tail (b ++ c ∷ []) o (ground (arith, clean)) 0,
  run-open tail (b ++ c ∷ []) o (ground (arith, clean)) 1,
)
run-open (c ∷ tail) b o clean (suc n) = run-open tail (b ++ c ∷ []) o (ground (arith, clean)) n

-- the text before the backslash
run-text :
    (body rest b : Codes) (o : List Codes)
    → any (λ c. nat_eq c b'\'' || nat_eq c b'\\') body ≡ false
    → run (at_mode (quoted b'\'') b o) (body ++ b'\\' ∷ b'\'' ∷ rest)
      ≡ run (at_mode (quoted b'\'') (((b ++ body) ++ b'\\' ∷ []) ++ b'\'' ∷ []) o) rest
unfolding run step_in step_quoted
run-text [] rest b o clean = ground (arith, append-nil b)
run-text (c ∷ body) rest b o clean =
    ground (arith, clean, run-text body rest (b ++ c ∷ []) o, append_assoc b (c ∷ []) body)

-- what stands before the text
run-before :
    (before rest b : Codes) (o : List Codes)
    → any is_special before ≡ false
    → run (at_mode plain b o) (before ++ rest) ≡ run (at_mode plain (b ++ before) o) rest
unfolding run step_in step_plain
run-before [] rest b o clean = ap (λ c. run (at_mode plain c o) rest) (sym (append-nil b))
run-before (c ∷ before) rest b o clean =
    ground (arith, clean, run-before before rest (b ++ c ∷ []) o, append_assoc b (c ∷ []) before)

run-opened :
    (rest b : Codes) (o : List Codes)
    → run (at_mode plain b o) (b'\'' ∷ rest) ≡ run (at_mode (quoted b'\'') (b ++ b'\'' ∷ []) o) rest
unfolding run step_in step_plain
run-opened rest b o = ground arith

-- A backslash at the end of a text in single quotes is taken for an escape: if the first such text of a
-- script ends with a backslash, has no other one, and no single quote follows it, the script is refused
-- as unterminated. Before the text stands no semicolon, dash, slash, quote or dollar.
pub split_backslash :
    (before body tail : Codes)
    → any is_special before ≡ false
    → any (λ c. nat_eq c b'\'' || nat_eq c b'\\') body ≡ false
    → any (λ c. nat_eq c b'\'') tail ≡ false
    → split_sql_statements (before ++ b'\'' ∷ (body ++ b'\\' ∷ b'\'' ∷ tail)) ≡ err unterminated
unfolding split_sql_statements
split_backslash before body tail outside inside clean =
    let b : Codes = before ++ b'\'' ∷ [] in
    run-before before (b'\'' ∷ (body ++ b'\\' ∷ b'\'' ∷ tail)) [] [] outside
    ∙ run-opened (body ++ b'\\' ∷ b'\'' ∷ tail) before []
    ∙ run-text body tail b [] inside
    ∙ run-open tail (((b ++ body) ++ b'\\' ∷ []) ++ b'\'' ∷ []) [] clean 0
