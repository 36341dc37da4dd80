-- ===== src/Migrate/Load.antt =====
-- store/migrate.go, loadMigrations: the versions that load differ, so those still to be applied are new.
use mathlib.Core.Path.{subst}
use ynab_auto_categorizer.Prelude.{
  ℕ, Bool, Option, some, none, true, false, not, ◌≡◌, refl, List, [], ◌∷◌, ◌++◌, map, any, all,
  all_imp, all_of, and_intro, and_left, and_right, nat_beq, Result, ok, err, sort_by, ascends,
  apart, all_apart, ascends-sort_by, arith, if_intro,
}
use ynab_auto_categorizer.Migrate.{
  File, Migration, earlier, load_files, load_migrations, in_order, version_of, numbered, put_first,
}

module _ {A : Type 0} where
  all_both :
      (p q r : A → Bool) (xs : List A)
      → ((x : A) → p x ≡ true → q x ≡ true → r x ≡ true)
      → all p xs ≡ true
      → all q xs ≡ true
      → all r xs ≡ true
  all_both p q r [] f h k = refl
  all_both p q r (x ∷ xs) f h k =
      and_intro (f x (and_left _ h) (and_left _ k))
        (all_both p q r xs f (and_right _ h) (and_right _ k))

  all-append_right : (p : A → Bool) (xs ys : List A) → all p (xs ++ ys) ≡ true → all p ys ≡ true
  all-append_right p [] ys h = h
  all-append_right p (x ∷ xs) ys h = all-append_right p xs ys (and_right _ h)

module _ {B : Type 0} where
  -- None of these has been applied.
  abbrev pub are_new : List ℕ → List (Migration B) → Bool
  are_new versions ms = all (λ m. not (any (nat_beq m.version) versions)) ms

  -- A list of versions has its own.
  pub own_versions :
      (ms : List (Migration B))
      → all (λ m. any (nat_beq m.version) (map (λ m. m.version) ms)) ms ≡ true
  own_versions [] = refl
  own_versions (m ∷ ms) = and_intro (ground arith) (
      all_imp _ (λ n. any (nat_beq n.version) (m.version ∷ map (λ m. m.version) ms)) ms
        (λ n e. ground arith) (own_versions ms))

  pub later_are_new :
      (done rest : List (Migration B))
      → ascends earlier (done ++ rest) ≡ true
      → are_new (map (λ m. m.version) done) rest ≡ true
  later_are_new [] rest h = all_of _ rest (λ m. refl)
  later_are_new (m ∷ done) rest h =
      all_both (earlier m) _ _ rest (λ n e k. ground arith)
        (all-append_right (earlier m) done rest (and_left _ h))
        (later_are_new done rest (and_right _ h))

  -- Different files that load have different versions, none of which was seen.
  abbrev Loaded : List ℕ → Result (List (Migration B)) → Type 0
  Loaded seen (err e) = Unit {0}
  Loaded seen (ok ms) = (are_new seen ms ≡ true) × (all_apart earlier ms ≡ true)

  Loaded-load_files : (seen : List ℕ) (files : List (File B)) → Loaded seen (load_files seen files)
  unfolding load_files
  Loaded-load_files seen [] = (refl, refl)
  Loaded-load_files seen (f ∷ fs) =
      by_version (version_of f.name) (λ v. Loaded-load_files (v ∷ seen) fs)
    where
      by_body :
          (v : ℕ) (b : Result B) (r : Result (List (Migration B)))
          → any (nat_beq v) seen ≡ false
          → Loaded (v ∷ seen) r
          → Loaded seen (put_first v f.name b r)
      by_body v (err e) r new h = tt
      by_body v (ok b) (err e) new h = tt
      by_body v (ok b) (ok ms) new h = (
        and_intro (ground arith)
            (all_imp _ (λ m. not (any (nat_beq m.version) seen)) ms (λ m k. ground arith) h.0),
        and_intro
            (all_imp _ (apart earlier (record { version = v; name = f.name; sql = b })) ms
              (λ m k. ground arith) h.0)
            h.1,
      )

      by_version :
          (v : Option ℕ)
          → ((v : ℕ) → Loaded (v ∷ seen) (load_files (v ∷ seen) fs))
          → Loaded seen (numbered v seen f (λ v. load_files (v ∷ seen) fs))
      by_version none ih = tt
      by_version (some v) ih =
          if_intro (Loaded seen) (any (nat_beq v) seen) (λ again. tt)
            (λ new. by_body v f.body (load_files (v ∷ seen) fs) new (ih v))

  pub ascends-load_migrations :
      (files : List (File B)) (ms : List (Migration B))
      → load_migrations files ≡ ok ms
      → ascends earlier ms ≡ true
  unfolding load_migrations
  ascends-load_migrations files ms e = by_load (load_files [] files) (Loaded-load_files [] files) e
    where
      by_load :
          (r : Result (List (Migration B)))
          → Loaded [] r
          → in_order r ≡ ok ms
          → ascends earlier ms ≡ true
      by_load (err x) h k = absurd (ground arith)
      by_load (ok ns) h k =
          let sorted : sort_by earlier ns ≡ ms = cc in
          subst (λ ms. ascends earlier ms ≡ true) sorted
            (ascends-sort_by earlier (λ x y z p q. ground arith) ns h.1)
