-- ===== src/Migrate/Resume.antt =====
-- store/migrate.go: a start of the program that fails leaves the first migrations applied, and the next
-- one goes on from there.
use mathlib.Core.Path.{subst}
use ynab_auto_categorizer.Prelude.{
  ℕ, suc, Bool, true, false, ◌≡◌, refl, ap, sym, ◌∙◌, inl, inr, List, [], ◌∷◌, ◌++◌, map, any, all,
  append_none, append_one, and_left, and_right, nat_beq, Result, ok, err, arith, Bool-cases,
}
use ynab_auto_categorizer.Mirror.Rows.{Time}
use ynab_auto_categorizer.Sql.{Session, pure, exec, query, run, continue, ◌>>=◌, next}
use ynab_auto_categorizer.Migrate.{
  File, Migration, load_migrations, Database, applied_versions, apply_migration, apply_each,
  with_migrations, migrate_fs,
}
use ynab_auto_categorizer.Migrate.Load.{
  are_new, own_versions, later_are_new, ascends-load_migrations,
}
use ynab_auto_categorizer.Migrate.Step.{Migrated, Applied, Applied-apply_migration, Migrated-one}

module _ {D B : Type 0} (run_sql : B → D → Result (Unit {0}) × D) (holds : Database D → Bool)
    (now : ℕ → Time) where
  module _ (start : D) where
    -- After a start with `done` applied and `rest` to do: all of it, or a part from the front.
    abbrev pub Ends :
        List (Migration B) → List (Migration B) → Result (Unit {0}) × Session (Database D) → Type 0
    Ends done rest (ok u, s) = Migrated run_sql holds now (done ++ rest) start s.db
    Ends done rest (err e, s) =
        (more later : List (Migration B)) × (more ++ later ≡ rest)
        × Migrated run_sql holds now (done ++ more) start s.db

    apply_each_none :
        (versions : List ℕ) (s : Session (Database D))
        → apply_each run_sql holds now versions [] s ≡ (ok tt, s)
    unfolding apply_each pure
    apply_each_none versions s = refl

    apply_each_old :
        (versions : List ℕ) (m : Migration B) (ms : List (Migration B)) (s : Session (Database D))
        → any (nat_beq m.version) versions ≡ true
        → apply_each run_sql holds now versions (m ∷ ms) s
          ≡ apply_each run_sql holds now versions ms s
    unfolding apply_each
    apply_each_old versions m ms s e = rw e refl

    apply_each_new :
        (versions : List ℕ) (m : Migration B) (ms : List (Migration B)) (s : Session (Database D))
        → any (nat_beq m.version) versions ≡ false
        → apply_each run_sql holds now versions (m ∷ ms) s
          ≡ continue
              (apply_migration run_sql holds now m s).0
              (λ _. apply_each run_sql holds now versions ms)
              (apply_migration run_sql holds now m s).1
    unfolding apply_each ◌>>=◌
    apply_each_new versions m ms s e = rw e refl

    Ends-apply_each :
        (versions : List ℕ) (done rest : List (Migration B)) (s : Session (Database D))
        → are_new versions rest ≡ true
        → Migrated run_sql holds now done start s.db
        → Ends done rest (apply_each run_sql holds now versions rest s)
    Ends-apply_each versions done [] s n h =
        subst (Ends done []) (sym (apply_each_none versions s))
          (subst (λ ms. Migrated run_sql holds now ms start s.db) (sym (append_none done)) h)
    Ends-apply_each versions done (m ∷ rest) s n h =
        subst (Ends done (m ∷ rest)) (sym (apply_each_new versions m rest s (ground arith))) (
          by_one (apply_migration run_sql holds now m s)
            (Applied-apply_migration run_sql holds now m s)
            (λ t k. Ends-apply_each versions (done ++ m ∷ []) rest t (ground arith) k))
      where
        by_one :
            (z : Result (Unit {0}) × Session (Database D))
            → Applied run_sql holds now m s.db (z.0, z.1.db)
            → ((t : Session (Database D))
                → Migrated run_sql holds now (done ++ m ∷ []) start t.db
                → Ends (done ++ m ∷ []) rest (apply_each run_sql holds now versions rest t))
            → Ends done
                (m ∷ rest)
                (continue z.0 (λ _. apply_each run_sql holds now versions rest) z.1)
        by_one (err e, t) a ih = (
          [],
          m ∷ rest,
          refl,
          subst (λ ms. Migrated run_sql holds now ms start t.db) (sym (append_none done))
              (subst (Migrated run_sql holds now done start) (sym a) h),
        )
        by_one (ok u, t) a ih =
            widen (apply_each run_sql holds now versions rest t)
              (ih t (Migrated-one run_sql holds now start done m s.db t.db h a))
          where
            widen :
                (y : Result (Unit {0}) × Session (Database D))
                → Ends (done ++ m ∷ []) rest y
                → Ends done (m ∷ rest) y
            widen (ok u, v) k =
                subst (λ ms. Migrated run_sql holds now ms start v.db) (append_one done m rest) k
            widen (err e, v) k = (
              m ∷ k.0,
              k.1,
              ap (λ ms. m ∷ ms) k.2,
              subst (λ ms. Migrated run_sql holds now ms start v.db) (append_one done m k.0) k.3,
            )

    apply_each_skips :
        (versions : List ℕ) (done rest : List (Migration B)) (s : Session (Database D))
        → all (λ m. any (nat_beq m.version) versions) done ≡ true
        → apply_each run_sql holds now versions (done ++ rest) s
          ≡ apply_each run_sql holds now versions rest s
    apply_each_skips versions [] rest s h = refl
    apply_each_skips versions (m ∷ done) rest s h =
        apply_each_old versions m (done ++ rest) s (and_left _ h)
        ∙ apply_each_skips versions done rest s (and_right _ h)

    -- Whatever statements fail, on a database to which the first migrations `done` of the files have been
    -- applied: a start that succeeds has applied exactly the others, in the order of their versions and
    -- each once; one that fails has applied some of the next ones, so that the next start goes on from there.
    pub Ends-migrate_fs :
        (files : List (File B)) (done rest : List (Migration B)) (s : Session (Database D))
        → load_migrations files ≡ ok (done ++ rest)
        → Migrated run_sql holds now done start s.db
        → Ends done rest (migrate_fs run_sql holds now files s)
    unfolding migrate_fs run query exec next ◌>>=◌
    Ends-migrate_fs files done rest s e h =
        subst (λ r. Ends done rest (with_migrations run_sql holds now r s)) (sym e)
          (elim (Bool-cases (s.fault s.stmt)) [
            | inl bad ↦ rw bad (stopped s h)
            | inr good ↦ elim (Bool-cases (s.fault (suc s.stmt))) [
              | inl bad ↦ rw (good, bad) (stopped s h)
              | inr fine ↦ rw (good, fine) (goes_on _ h)
            ]
          ])
      where
        stopped :
            (t : Session (Database D))
            → Migrated run_sql holds now done start t.db
            → (more later : List (Migration B)) × (more ++ later ≡ rest)
              × Migrated run_sql holds now (done ++ more) start t.db
        stopped t k = (
          [],
          rest,
          refl,
          subst (λ ms. Migrated run_sql holds now ms start t.db) (sym (append_none done)) k,
        )

        goes_on :
            (t : Session (Database D))
            → Migrated run_sql holds now done start t.db
            → Ends done rest (
                apply_each run_sql holds now
                  (applied_versions run_sql holds now t.db)
                  (done ++ rest)
                  t)
        goes_on t k =
            let read = k.versions in
            subst (λ vs. Ends done rest (apply_each run_sql holds now vs (done ++ rest) t))
              (sym read)
              (subst (Ends done rest)
                (sym (apply_each_skips (map (λ m. m.version) done) done rest t (own_versions done)))
                (Ends-apply_each (map (λ m. m.version) done) done rest t
                  (later_are_new done rest (ascends-load_migrations files (done ++ rest) e)) k))
