-- ===== src/Database/Migrate.antt =====
-- `Migration` and `PostgresMigrationManager` of db/core.py. The statements of a script act on the rest of
-- the database, `W`; what a run raises, its transaction rolls back.
pub mod Again
use agent_roi.Base.{
  ℕ, String, Bool, true, false, Option, none, some, List, [], ◌∷◌, any, filter, leb, ltb, map, max,
  nat_eq, is_some, not, ◌&&◌, ◌==◌, if◌then◌else◌,
}
use agent_roi.Base.Text.{is_blank}
use agent_roi.Result.{Result, ok, err, ◌>>=◌, ◌>>◌, raise_if}
use agent_roi.Table.{insert, select_one}
use agent_roi.Database.Split.{Codes, is_nil, strip, split_sql_statements}

pub record Migration : Type 0 where
  pub version : ℕ
  pub name : String
  pub sql : Codes

pub data MigrationError : Type 0 where
  bad_version blank_name blank_sql : MigrationError
  unordered renamed unsplit failed : MigrationError

-- `Migration.__post_init__`
unfoldable pub check_migration : Migration → Result MigrationError (Unit {0})
unfolding strip
check_migration m = do
  raise_if (ltb m.version 1) bad_version
  raise_if (is_blank m.name) blank_name
  raise_if (is_nil (strip m.sql)) blank_sql

-- `versions == sorted(set(versions))`
abbrev pub is_ordered : List Migration → Bool
is_ordered [] = true
is_ordered (m ∷ l) = above m.version l && is_ordered l
  where
    above : ℕ → List Migration → Bool
    above v [] = true
    above v (n ∷ l) = ltb v n.version

-- A row of `agent_roi_schema_migrations`.
pub record Applied : Type 0 where
  pub version : ℕ
  pub name : String

pub record Schema (W : Type 0) : Type 0 where
  pub applied : List Applied
  pub rest : W

abbrev pub has_version : ℕ → Applied → Bool
has_version v a = nat_eq a.version v

abbrev pub row_of : Migration → Applied
row_of m = record { version = m.version; name = m.name }

-- `SELECT COALESCE(MAX(version), 0)`
abbrev pub current_version : List Applied → ℕ
current_version [] = 0
current_version (a ∷ l) = max a.version (current_version l)

-- `target_version is None or migration.version <= int(target_version)`
abbrev pub selects : Option ℕ → Migration → Bool
selects none m = true
selects (some target) m = leb m.version target

-- `cursor.execute` of a statement, `none` where it raises
module _ {W : Type 0} (execute : Codes → W → Option W) where
  abbrev pub execute_all : List Codes → W → Result MigrationError W
  execute_all [] w = ok w
  execute_all (s ∷ l) w = elim (execute s w) [ none ↦ err failed | some w' ↦ execute_all l w' ]

  -- `INSERT INTO agent_roi_schema_migrations`, whose versions are unique
  abbrev pub insert_applied : Applied → List Applied → Result MigrationError (List Applied)
  insert_applied a l = if any (has_version a.version) l then err failed else ok (insert a l)

  -- the body of the loop for a migration that was not applied
  unfoldable pub apply : Migration → Schema W → Result MigrationError (Schema W)
  unfolding split_sql_statements
  apply m s = elim (split_sql_statements m.sql) [
    | err x ↦ err unsplit
    | ok statements ↦ do
      w ← execute_all statements s.rest
      rows ← insert_applied (row_of m) s.applied
      ok (record { applied = rows; rest = w })
  ]

  -- the loop: `existing` is what was applied before it
  unfoldable pub apply_all :
      List Applied → List Migration → Schema W → Result MigrationError (List ℕ × Schema W)
  unfolding apply
  apply_all existing [] s = ok ([], s)
  apply_all existing (m ∷ l) s = elim (select_one (has_version m.version) existing) [
    | some prior ↦ if prior.name == m.name then apply_all existing l s else err renamed
    | none ↦ do s' ← apply m s; done ← apply_all existing l s'; ok (m.version ∷ done.0, done.1)
  ]

  -- `migrate`
  unfoldable pub migrate :
      List Migration → Option ℕ → Schema W → Result MigrationError (List ℕ) × Schema W
  unfolding apply_all
  migrate migrations target s = elim (apply_all s.applied (filter (selects target) migrations) s) [
    | err x ↦ (err x, s)
    | ok done ↦ (ok done.0, done.1)
  ]
