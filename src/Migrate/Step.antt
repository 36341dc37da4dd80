-- ===== src/Migrate/Step.antt =====
-- store/migrate.go, applyMigration: a migration is applied and recorded, or nothing has happened.
use mathlib.Core.Path.{subst}
use ynab_auto_categorizer.Prelude.{
  ℕ, Bool, ◌≡◌, refl, ap, sym, ◌∙◌, ◌⊎◌, inl, inr, List, [], ◌∷◌, ◌++◌, map, any, nat_beq, Result,
  ok, err, driver, arith, Bool-cases,
}
use ynab_auto_categorizer.Mirror.Rows.{Time}
use ynab_auto_categorizer.Sql.{Session, exec_checked, ◌>>=◌}
use ynab_auto_categorizer.Sql.Atomic.{write_tx_settles, Settled}
use ynab_auto_categorizer.Sql.Refines.{
  Refines, Agrees, Refines-bind, Refines-exec_checked, Refines-write_tx, bind, settle,
}
use ynab_auto_categorizer.Migrate.{
  Migration, AppliedRow, Database, run_script, applied_versions, applied_row, insert_row,
  apply_migration,
}

map-append :
    {A C : Type 0} (f : A → C) (xs : List A) (y : A) → map f (xs ++ y ∷ []) ≡ map f xs ++ f y ∷ []
map-append f [] y = refl
map-append f (x ∷ xs) y = ap (λ ys. f x ∷ ys) (map-append f xs y)

module _ {D B : Type 0} (run_sql : B → D → Result (Unit {0}) × D) (holds : Database D → Bool)
    (now : ℕ → Time) where
  -- The scripts, run in order, each without an error.
  abbrev pub Runs : List (Migration B) → D → D → Type 0
  Runs [] d e = d ≡ e
  Runs (m ∷ ms) d e = (mid : D) × (run_sql m.sql d ≡ (ok tt, mid)) × Runs ms mid e

  pub Runs-append :
      (ms : List (Migration B)) (m : Migration B) (d e f : D)
      → Runs ms d e
      → run_sql m.sql e ≡ (ok tt, f)
      → Runs (ms ++ m ∷ []) d f
  Runs-append [] m d e f h k = (f, subst (λ d. run_sql m.sql d ≡ (ok tt, f)) (sym h) k, refl)
  Runs-append (n ∷ ms) m d e f h k = (h.0, h.1, Runs-append ms m h.0 e f h.2 k)

  -- Exactly the migrations `ms` have been applied to `start`, in order.
  pub record Migrated (ms : List (Migration B)) (start : D) (d : Database D) : Type 0 where
    pub schema : Runs ms start d.schema
    pub versions : applied_versions run_sql holds now d ≡ map (λ m. m.version) ms

  -- What one migration does.
  abbrev pub Applied : Migration B → Database D → Result (Unit {0}) × Database D → Type 0
  Applied m d (ok u, e) =
      (run_sql m.sql d.schema ≡ (ok tt, e.schema))
      × (e.applied ≡ d.applied ++ applied_row run_sql holds now m ∷ [])
  Applied m d (err x, e) = e ≡ d

  plain : Migration B → Database D → Result (Unit {0}) × Database D
  plain m d =
      settle holds d (bind (run_script run_sql holds now m) (λ _. insert_row run_sql holds now m) d)

  Refines-apply_migration :
      (m : Migration B) → Refines (apply_migration run_sql holds now m) (plain m)
  unfolding apply_migration plain
  Refines-apply_migration m = Refines-write_tx holds _ _ (
      Refines-bind _ _ _ (λ _. insert_row run_sql holds now m)
        (Refines-exec_checked (run_script run_sql holds now m))
        (λ _. Refines-exec_checked (insert_row run_sql holds now m)))

  Applied-plain : (m : Migration B) (d : Database D) → Applied m d (plain m d)
  unfolding plain
  Applied-plain m d = by_script (run_sql m.sql d.schema) refl
    where
      by_script :
          (q : Result (Unit {0}) × D)
          → run_sql m.sql d.schema ≡ q
          → Applied m d (
              settle holds d (
                bind
                  (λ e. (q.0, record e { schema = q.1 }))
                  (λ _. insert_row run_sql holds now m)
                  d))
      by_script (err x, s) e = refl
      by_script (ok u, s) e =
          elim (Bool-cases (any (nat_beq m.version) (applied_versions run_sql holds now d))) [
            | inl again ↦ rw again refl
            | inr new ↦
                rw new
                  (elim (Bool-cases (
                    holds (record {
                      schema = s;
                      applied = d.applied ++ applied_row run_sql holds now m ∷ [];
                    }))) [ inl held ↦ rw held (e, refl) | inr broken ↦ rw broken refl ])
          ]

  pub Applied-apply_migration :
      (m : Migration B) (s : Session (Database D))
      → Applied m s.db
          ((apply_migration run_sql holds now m s).0, (apply_migration run_sql holds now m s).1.db)
  unfolding apply_migration
  Applied-apply_migration m s =
      by_result (apply_migration run_sql holds now m s).0 (apply_migration run_sql holds now m s).1
        ((Refines-apply_migration m).exact s)
        (write_tx_settles holds
          (exec_checked (run_script run_sql holds now m) >>= λ _.
            exec_checked (insert_row run_sql holds now m))
          s)
    where
      by_result :
          (r : Result (Unit {0})) (t : Session (Database D))
          → (r ≡ err driver) ⊎ Agrees (r, t) (plain m s.db)
          → Settled holds s.db (r, t)
          → Applied m s.db (r, t.db)
      by_result r t (inr h) k =
          subst (λ x. Applied m s.db (x, t.db)) (sym h.0)
            (subst (λ d. Applied m s.db ((plain m s.db).0, d)) (sym h.1) (Applied-plain m s.db))
      by_result (ok u) t (inl h) k = absurd (ground arith)
      by_result (err e) t (inl h) k = k

  pub Migrated-one :
      (start : D) (done : List (Migration B)) (m : Migration B) (d e : Database D)
      → Migrated done start d
      → Applied m d (ok tt, e)
      → Migrated (done ++ m ∷ []) start e
  Migrated-one start done m d e h a = record {
    schema = Runs-append done m start d.schema e.schema h.schema a.0;
    versions =
        ap (map (λ r. r.version)) a.1
        ∙ map-append (λ (r : AppliedRow). r.version) d.applied (applied_row run_sql holds now m)
        ∙ ap (λ vs. vs ++ m.version ∷ []) h.versions
        ∙ sym (map-append (λ (n : Migration B). n.version) done m);
  }
