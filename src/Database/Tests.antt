-- ===== src/Database/Tests.antt =====
-- Small scripts and two migrations, and the theorems of this folder at them. The rest of the database
-- counts the statements that were executed.
use agent_roi.Base.{ℕ, suc, ◌≡◌, refl, Option, none, some, List, [], ◌∷◌, ◌++◌, map, filter}
use agent_roi.Base.Text.{is_space}
use agent_roi.Result.{ok, err}
use agent_roi.Database.Split.{
  Codes, unterminated, split_sql_statements, run, step_in, step_plain, step_quoted, strip,
  match_tag,
}
use agent_roi.Database.Split.Pieces.{join, kept, split-pieces}
use agent_roi.Database.Split.Protection.{
  nothing, other, literal, IsStatement, split-join, split_backslash,
}
use agent_roi.Database.Migrate.{Migration, Schema, row_of, selects, migrate, apply_all, apply}
use agent_roi.Database.Migrate.Again.{is_new, migrate_again}

-- `a;';'`
abbrev script : Codes
script = b'a' ∷ b';' ∷ b'\'' ∷ b';' ∷ b'\'' ∷ []

abbrev first : Codes
first = b'a' ∷ []

abbrev second : Codes
second = b'\'' ∷ b';' ∷ b'\'' ∷ []

split_test : split_sql_statements script ≡ ok (first ∷ second ∷ [])
unfolding split_sql_statements run step_in step_plain step_quoted strip is_space
split_test = refl

-- a body between dollars, and comments
bodies_test :
    split_sql_statements
      (b'$' ∷ b'x' ∷ b'$' ∷ b';' ∷ b'$' ∷ b'x' ∷ b'$' ∷ b';' ∷ b'-' ∷ b'-' ∷ b';' ∷ [])
    ≡ ok ((b'$' ∷ b'x' ∷ b'$' ∷ b';' ∷ b'$' ∷ b'x' ∷ b'$' ∷ []) ∷ (b'-' ∷ b'-' ∷ b';' ∷ []) ∷ [])
unfolding split_sql_statements run step_in step_plain step_quoted strip is_space match_tag
bodies_test = refl

split-pieces_example :
    (head : Codes) × (others : List Codes) × (script ≡ join head others)
    × (first ∷ second ∷ [] ≡ kept (head ∷ others))
split-pieces_example = split-pieces script (first ∷ second ∷ []) split_test

first-IsStatement : IsStatement first
unfolding strip is_space
first-IsStatement = record { guarded = other refl nothing; stripped = refl; present = refl }

second-IsStatement : IsStatement second
unfolding strip is_space
second-IsStatement = record {
  guarded = literal b'\'' (b';' ∷ []) refl refl refl nothing;
  stripped = refl;
  present = refl;
}

split-join_example : split_sql_statements (join first (second ∷ [])) ≡ ok (first ∷ second ∷ [])
split-join_example = split-join first (second ∷ []) first-IsStatement (second-IsStatement, tt)

split_backslash_example :
    split_sql_statements (b'a' ∷ b'\'' ∷ b'b' ∷ b'\\' ∷ b'\'' ∷ b';' ∷ b'a' ∷ []) ≡ err unterminated
split_backslash_example = split_backslash (b'a' ∷ []) (b'b' ∷ []) (b';' ∷ b'a' ∷ []) refl refl refl

abbrev migrations : List Migration
migrations =
    record { version = 1; name = "initial"; sql = first }
    ∷ record { version = 2; name = "more"; sql = script }
    ∷ []

abbrev count_statement : Codes → ℕ → Option ℕ
count_statement s n = some (suc n)

abbrev schema : Schema ℕ
schema = record { applied = record { version = 1; name = "initial" } ∷ []; rest = 0 }

migrate_test : (migrate count_statement migrations none schema).0 ≡ ok (2 ∷ [])
unfolding migrate apply_all apply split_sql_statements run step_in step_plain step_quoted strip
    is_space
migrate_test = refl

migrate_again_example :
    (2 ∷ []
      ≡ map
          (λ (m : Migration). m.version)
          (filter (is_new schema.applied) (filter (selects none) migrations)))
    × ((migrate count_statement migrations none schema).1.applied
        ≡ schema.applied
          ++ map row_of (filter (is_new schema.applied) (filter (selects none) migrations)))
    × (migrate count_statement migrations none (migrate count_statement migrations none schema).1
        ≡ (ok [], (migrate count_statement migrations none schema).1))
migrate_again_example = migrate_again count_statement migrations none schema (2 ∷ []) migrate_test
