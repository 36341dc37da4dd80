-- ===== src/Migrate.antt =====
-- store/migrate.go: the migrations of the database. A name is the list of its bytes, a script of type B
-- is what its SQL text is, and `run_sql` is what SQLite makes of a script; a script that fails midway may
-- have changed anything.
pub mod Load
pub mod Step
pub mod Resume
use ynab_auto_categorizer.Prelude.{
  ℕ, zero, suc, ◌^◌, Bool, true, false, not, ◌&&◌, Option, none, some, List, [], ◌∷◌, ◌++◌, map,
  any, nat_beq, ltb, leb, if◌then◌else◌, Result, ok, err, Error, constraint, bad_migration,
  duplicate_migration, sort_by,
}
use ynab_auto_categorizer.Scan.Redaction.{Text}
use ynab_auto_categorizer.Mirror.Rows.{Time}
use ynab_auto_categorizer.Mcp.Money.{read_digits}
use ynab_auto_categorizer.Sql.{Session, Sql, pure, raise, exec_checked, query, run, ◌>>=◌, write_tx}

-- A file of migrations/, by its base name.
pub record File (B : Type 0) : Type 0 where
  pub name : Text
  pub body : Result B

pub record Migration (B : Type 0) : Type 0 where
  pub version : ℕ
  pub name : Text
  pub sql : B

-- strings.Cut at the first "_", if there is one.
abbrev pub before_underscore : Text → Option Text
before_underscore [] = none
before_underscore (c ∷ cs) =
    let rest = before_underscore cs in
    if nat_beq c 95 then some [] else elim rest [ none ↦ none | some ds ↦ some (c ∷ ds) ]

abbrev pub without_plus : Text → Text
without_plus [] = []
without_plus (c ∷ cs) = if nat_beq c 43 then cs else c ∷ cs

-- strconv.Atoi of a number above 0: of a 64-bit int.
abbrev pub positive : Option ℕ → Option ℕ
positive none = none
positive (some v) = if leb 1 v && ltb v (2 ^ 63) then some v else none

unfoldable pub version_of : Text → Option ℕ
unfolding read_digits
version_of base = elim (before_underscore base) [
  | none ↦ none
  | some num ↦ positive (read_digits 0 (without_plus num))
]

module _ {B : Type 0} where
  abbrev pub earlier : Migration B → Migration B → Bool
  earlier m n = ltb m.version n.version

  abbrev pub put_first :
      ℕ → Text → Result B → Result (List (Migration B)) → Result (List (Migration B))
  put_first v name (err e) ms = err e
  put_first v name (ok b) (err e) = err e
  put_first v name (ok b) (ok ms) = ok (record { version = v; name = name; sql = b } ∷ ms)

  abbrev pub numbered :
      Option ℕ → List ℕ → File B → (ℕ → Result (List (Migration B))) → Result (List (Migration B))
  numbered none seen f rest = err bad_migration
  numbered (some v) seen f rest =
      if any (nat_beq v) seen then err duplicate_migration else put_first v f.name f.body (rest v)

  -- `seen` holds the versions of the files before.
  unfoldable pub load_files : List ℕ → List (File B) → Result (List (Migration B))
  unfolding version_of
  load_files seen [] = ok []
  load_files seen (f ∷ fs) = numbered (version_of f.name) seen f (λ v. load_files (v ∷ seen) fs)

  abbrev pub in_order : Result (List (Migration B)) → Result (List (Migration B))
  in_order (err e) = err e
  in_order (ok ms) = ok (sort_by earlier ms)

  unfoldable pub load_migrations : List (File B) → Result (List (Migration B))
  unfolding sort_by load_files
  load_migrations files = in_order (load_files [] files)

-- A row of schema_migrations.
pub record AppliedRow : Type 0 where
  pub version : ℕ
  pub name : Text
  pub applied_at : Time

-- The table schema_migrations and all else. A table that is absent is empty.
pub record Database (D : Type 0) : Type 0 where
  pub schema : D
  pub applied : List AppliedRow

-- `holds` is what COMMIT checks, and `now` the clock's reading for a migration.
module _ {D B : Type 0} (run_sql : B → D → Result (Unit {0}) × D) (holds : Database D → Bool)
    (now : ℕ → Time) where
  abbrev pub run_script : Migration B → Database D → Result (Unit {0}) × Database D
  run_script m d = let (r, s) = run_sql m.sql d.schema in (r, record d { schema = s })

  abbrev pub applied_versions : Database D → List ℕ
  applied_versions d = map (λ r. r.version) d.applied

  abbrev pub applied_row : Migration B → AppliedRow
  applied_row m = record { version = m.version; name = m.name; applied_at = now m.version }

  abbrev pub insert_row : Migration B → Database D → Result (Unit {0}) × Database D
  insert_row m d =
      if any (nat_beq m.version) (applied_versions d)
      then (err constraint, d)
      else (ok tt, record d { applied = d.applied ++ applied_row m ∷ [] })

  unfoldable pub apply_migration : Migration B → Sql (Database D) (Unit {0})
  unfolding write_tx exec_checked
  apply_migration m =
      write_tx holds (exec_checked (run_script m) >>= λ _. exec_checked (insert_row m))

  unfoldable pub apply_each : List ℕ → List (Migration B) → Sql (Database D) (Unit {0})
  unfolding apply_migration pure
  apply_each versions [] = pure tt
  apply_each versions (m ∷ ms) =
      let rest = apply_each versions ms in
      if any (nat_beq m.version) versions then rest else (apply_migration m >>= λ _. rest)

  abbrev pub with_migrations : Result (List (Migration B)) → Sql (Database D) (Unit {0})
  with_migrations (err e) = raise e
  with_migrations (ok ms) =
      run (λ d. d) >>= λ _. query applied_versions >>= λ versions. apply_each versions ms

  unfoldable pub migrate_fs : List (File B) → Sql (Database D) (Unit {0})
  unfolding load_migrations apply_each run query
  migrate_fs files = with_migrations (load_migrations files)
