-- ===== src/Tests/Migrations.antt =====
-- store/migrate.go: a start that the driver interrupts, and the next one.
use ynab_auto_categorizer.Prelude.{
  ℕ, ◌+◌, true, ◌≡◌, refl, List, [], ◌∷◌, ◌++◌, nat_beq, Result, ok, err, driver, bad_migration,
  duplicate_migration, sort_by, insert_by,
}
use ynab_auto_categorizer.Scan.Redaction.{Text}
use ynab_auto_categorizer.Mirror.Rows.{Time}
use ynab_auto_categorizer.Mcp.Money.{read_digits}
use ynab_auto_categorizer.Sql.{
  Session, pure, exec, exec_checked, query, run, ◌>>=◌, write_tx, end_tx, next,
}
use ynab_auto_categorizer.Migrate.{
  File, Migration, version_of, load_files, load_migrations, Database, apply_migration, apply_each,
  migrate_fs,
}
use ynab_auto_categorizer.Migrate.Resume.{Ends, Ends-migrate_fs}

-- A script adds its number to the schema.
abbrev run_sql : ℕ → List ℕ → Result (Unit {0}) × List ℕ
run_sql b d = (ok tt, d ++ b ∷ [])

abbrev file_of : Text → ℕ → File ℕ
file_of name b = record { name = name; body = ok b }

-- "0001_a", "0002_b", "0010_c" and "1_d"
abbrev first_name : Text
first_name = 48 ∷ 48 ∷ 48 ∷ 49 ∷ 95 ∷ 97 ∷ []

abbrev second_name : Text
second_name = 48 ∷ 48 ∷ 48 ∷ 50 ∷ 95 ∷ 98 ∷ []

abbrev tenth_name : Text
tenth_name = 48 ∷ 48 ∷ 49 ∷ 48 ∷ 95 ∷ 99 ∷ []

abbrev again_name : Text
again_name = 49 ∷ 95 ∷ 100 ∷ []

abbrev files : List (File ℕ)
files = file_of tenth_name 30 ∷ file_of first_name 10 ∷ file_of second_name 20 ∷ []

abbrev migration_of : ℕ → Text → ℕ → Migration ℕ
migration_of v name b = record { version = v; name = name; sql = b }

abbrev later : List (Migration ℕ)
later = migration_of 2 second_name 20 ∷ migration_of 10 tenth_name 30 ∷ []

loads : load_migrations files ≡ ok (migration_of 1 first_name 10 ∷ later)
unfolding migrate_fs load_migrations load_files version_of read_digits sort_by insert_by
    apply_migration apply_each write_tx end_tx exec_checked exec query run pure next ◌>>=◌
loads = refl

refuses_again :
    load_migrations (file_of first_name 10 ∷ file_of again_name 11 ∷ []) ≡ err duplicate_migration
unfolding migrate_fs load_migrations load_files version_of read_digits sort_by insert_by
    apply_migration apply_each write_tx end_tx exec_checked exec query run pure next ◌>>=◌
refuses_again = refl

refuses_bad : load_migrations (file_of (97 ∷ 95 ∷ []) 10 ∷ []) ≡ err bad_migration
unfolding migrate_fs load_migrations load_files version_of read_digits sort_by insert_by
    apply_migration apply_each write_tx end_tx exec_checked exec query run pure next ◌>>=◌
refuses_bad = refl

-- Its tenth statement fails: the script of the second migration.
abbrev fresh : Session (Database (List ℕ))
fresh = record { db = record { schema = []; applied = [] }; stmt = 0; fault = λ n. nat_beq n 9 }

abbrev clock : ℕ → Time
clock v = 1000 + v

abbrev interrupted : Result (Unit {0}) × Session (Database (List ℕ))
interrupted = migrate_fs run_sql (λ d. true) clock files fresh

stops : (interrupted.0 ≡ err driver) × (interrupted.1.db.schema ≡ 10 ∷ [])
unfolding migrate_fs load_migrations load_files version_of read_digits sort_by insert_by
    apply_migration apply_each write_tx end_tx exec_checked exec query run pure next ◌>>=◌
stops = (refl, refl)

abbrev second_start : Result (Unit {0}) × Session (Database (List ℕ))
second_start = migrate_fs run_sql (λ d. true) clock files interrupted.1

goes_on : (second_start.0 ≡ ok tt) × (second_start.1.db.schema ≡ 10 ∷ 20 ∷ 30 ∷ [])
unfolding migrate_fs load_migrations load_files version_of read_digits sort_by insert_by
    apply_migration apply_each write_tx end_tx exec_checked exec query run pure next ◌>>=◌
goes_on = (refl, refl)

Ends-migrate_fs_example :
    Ends run_sql (λ d. true) clock [] (migration_of 1 first_name 10 ∷ []) later second_start
unfolding migrate_fs load_migrations load_files version_of read_digits sort_by insert_by
    apply_migration apply_each write_tx end_tx exec_checked exec query run pure next ◌>>=◌
Ends-migrate_fs_example =
    Ends-migrate_fs run_sql (λ d. true) clock [] files (migration_of 1 first_name 10 ∷ []) later
      interrupted.1 loads (record { schema = (10 ∷ [], refl, refl); versions = refl })
