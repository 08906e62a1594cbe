-- ===== src/Database/Split.antt =====
-- `split_sql_statements` of db/core.py. A script is the list of its characters' codes. Where the source
-- appends several characters and moves its index behind them, `skip` counts those that are still to be
-- appended.
pub mod Pieces
pub mod Protection
use agent_roi.Base.{
  ℕ, zero, suc, Bool, true, false, Option, none, some, List, [], ◌∷◌, ◌++◌, length, nat_eq, leb,
  not, ◌&&◌, ◌||◌, if◌then◌else◌,
}
use agent_roi.Base.Text.{is_space}
use agent_roi.Result.{Result, ok, err}

abbrev pub Codes : Type 0
Codes = List ℕ

pub data Mode : Type 0 where
  plain line_comment block_comment : Mode
  -- the tag that opened the body, and the quote that opened the text
  dollar : Codes → Mode
  quoted : ℕ → Mode

pub record Splitter : Type 0 where
  pub mode : Mode
  pub skip : ℕ
  pub buffer : Codes
  pub statements : List Codes

-- `MigrationError`
pub data SplitError : Type 0 where
  unterminated : SplitError

-- `str.strip` of a list of codes
abbrev pub lstrip : Codes → Codes
lstrip [] = []
lstrip (c ∷ l) = let rest = lstrip l in if is_space c then rest else c ∷ l

abbrev pub is_nil : Codes → Bool
is_nil [] = true
is_nil (c ∷ l) = false

abbrev pub rstrip : Codes → Codes
rstrip [] = []
rstrip (c ∷ l) = let rest = rstrip l in if is_nil rest && is_space c then [] else c ∷ rest

unfoldable pub strip : Codes → Codes
unfolding is_space
strip l = rstrip (lstrip l)

-- `sql.startswith(tag, index)`, and `char == c` where there may be no next character
abbrev pub starts_with : Codes → Codes → Bool
starts_with [] l = true
starts_with (t ∷ tag) [] = false
starts_with (t ∷ tag) (c ∷ l) = nat_eq c t && starts_with tag l

abbrev pub next_is : ℕ → Codes → Bool
next_is d [] = false
next_is d (c ∷ l) = nat_eq c d

-- `[A-Za-z_]` and `[A-Za-z0-9_]`
abbrev pub is_word_start : ℕ → Bool
is_word_start c = (leb b'A' c && leb c b'Z') || (leb b'a' c && leb c b'z') || nat_eq c b'_'

abbrev pub is_word : ℕ → Bool
is_word c = is_word_start c || (leb b'0' c && leb c b'9')

-- the rest of a tag, up to the dollar that ends it
abbrev pub tag_end : Codes → Option Codes
tag_end [] = none
tag_end (c ∷ l) =
    let rest = tag_end l in
    if nat_eq c b'$'
    then some (c ∷ [])
    else if is_word c
    then elim rest [ none ↦ none | some tag ↦ some (c ∷ tag) ]
    else none

-- `re.match` of a tag, behind its first dollar
unfoldable pub match_tag : Codes → Option Codes
match_tag [] = none
match_tag (c ∷ l) =
    if nat_eq c b'$'
    then some (b'$' ∷ c ∷ [])
    else if is_word_start c
    then elim (tag_end l) [ none ↦ none | some tag ↦ some (b'$' ∷ c ∷ tag) ]
    else none

-- append a character, and more that follow it, and go on in a mode
abbrev pub push : Splitter → ℕ → ℕ → Mode → Splitter
push p c more mode = record p { mode = mode; skip = more; buffer = p.buffer ++ c ∷ [] }

abbrev pub behind_first : Codes → ℕ
behind_first [] = 0
behind_first (c ∷ l) = length l

-- `statement = "".join(buffer).strip()`
abbrev pub keep : Codes → List Codes
keep buffer = let statement = strip buffer in if is_nil statement then [] else statement ∷ []

abbrev pub flush : Splitter → Splitter
flush p = record p { buffer = []; statements = p.statements ++ keep p.buffer }

-- outside of quotes and comments
unfoldable pub step_plain : Splitter → ℕ → Codes → Splitter
unfolding match_tag
step_plain p c rest =
    if nat_eq c b'-' && next_is b'-' rest
    then push p c 1 line_comment
    else if nat_eq c b'/' && next_is b'*' rest
    then push p c 1 block_comment
    else if nat_eq c b'\'' || nat_eq c b'"'
    then push p c 0 (quoted c)
    else if nat_eq c b'$'
    then elim (match_tag rest) [
      | none ↦ push p c 0 plain
      | some tag ↦ push p c (behind_first tag) (dollar tag)
    ]
    else if nat_eq c b';'
    then flush p
    else push p c 0 plain

unfoldable pub step_quoted : ℕ → Splitter → ℕ → Codes → Splitter
step_quoted quote p c rest =
    if nat_eq c quote
    then (if next_is quote rest then push p c 1 (quoted quote) else push p c 0 plain)
    else if nat_eq c b'\\' && nat_eq quote b'\'' && not (is_nil rest)
    then push p c 1 (quoted quote)
    else push p c 0 (quoted quote)

-- one turn of the loop at a character, `rest` behind it
unfoldable pub step_in : Mode → Splitter → ℕ → Codes → Splitter
unfolding step_plain step_quoted
step_in plain p c rest = step_plain p c rest
step_in line_comment p c rest = push p c 0 (if nat_eq c b'\n' then plain else line_comment)
step_in block_comment p c rest =
    if nat_eq c b'*' && next_is b'/' rest then push p c 1 plain else push p c 0 block_comment
step_in (dollar tag) p c rest =
    if starts_with tag (c ∷ rest)
    then push p c (behind_first tag) plain
    else push p c 0 (dollar tag)
step_in (quoted quote) p c rest = step_quoted quote p c rest

abbrev pub step : Splitter → ℕ → Codes → Splitter
step p c rest = elim p.skip [ zero ↦ step_in p.mode p c rest | suc n ↦ push p c n p.mode ]

-- behind the loop
abbrev pub finish : Splitter → Mode → Result SplitError (List Codes)
finish p plain = ok (flush p).statements
finish p line_comment = ok (flush p).statements
finish p _ = err unterminated

unfoldable pub run : Splitter → Codes → Result SplitError (List Codes)
unfolding step_in strip
run p [] = finish p p.mode
run p (c ∷ rest) = run (step p c rest) rest

abbrev pub initial : Splitter
initial = record { mode = plain; skip = 0; buffer = []; statements = [] }

-- `split_sql_statements`
unfoldable pub split_sql_statements : Codes → Result SplitError (List Codes)
unfolding run
split_sql_statements sql = run initial sql
