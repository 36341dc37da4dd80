-- ===== src/Prelude/Sort.antt =====
-- ORDER BY and sort.SliceStable: a stable sort by a strict order, and what it keeps.
use mathlib.Core.Path.{◌≡◌, refl}
use mathlib.Core.Logic.{inl, inr}
use mathlib.Core.Bool.{Bool, true, ◌&&◌, ◌||◌}
use mathlib.Core.List.{List, [], ◌∷◌}
use native.Mathlib.Omega.{arith}
use ynab_auto_categorizer.Prelude.Tests.{if◌then◌else◌, Bool-cases, and_intro, and_left, and_right}
use ynab_auto_categorizer.Prelude.Lists.{Among, all, all_imp}

module _ {A : Type 0} (before : A → A → Bool) where
  unfoldable pub insert_by : A → List A → List A
  insert_by x [] = x ∷ []
  insert_by x (y ∷ ys) = let rest = insert_by x ys in if before y x then y ∷ rest else x ∷ y ∷ ys

  unfoldable pub sort_by : List A → List A
  unfolding insert_by
  sort_by [] = []
  sort_by (x ∷ xs) = insert_by x (sort_by xs)

  -- Every element comes before all later ones.
  abbrev pub ascends : List A → Bool
  ascends [] = true
  ascends (x ∷ xs) = all (before x) xs && ascends xs

  pub Among-insert_by : (a x : A) (ys : List A) → Among a (insert_by x ys) → Among a (x ∷ ys)
  unfolding insert_by
  Among-insert_by a x [] h = h
  Among-insert_by a x (y ∷ ys) h = ground (arith, Among-insert_by a x ys)

  pub Among-sort_by : (a : A) (xs : List A) → Among a (sort_by xs) → Among a xs
  unfolding sort_by
  Among-sort_by a [] h = h
  Among-sort_by a (x ∷ xs) h =
      ground (arith, Among-insert_by a x (sort_by xs) h, Among-sort_by a xs)

  -- What every element of a list meets, the sorted list meets.
  pub all-insert_by :
      (p : A → Bool) (x : A) (ys : List A)
      → p x ≡ true
      → all p ys ≡ true
      → all p (insert_by x ys) ≡ true
  unfolding insert_by
  all-insert_by p x [] h k = and_intro h refl
  all-insert_by p x (y ∷ ys) h k = ground (arith, all-insert_by p x ys)

  pub all-sort_by : (p : A → Bool) (xs : List A) → all p xs ≡ true → all p (sort_by xs) ≡ true
  unfolding sort_by
  all-sort_by p [] h = refl
  all-sort_by p (x ∷ xs) h =
      all-insert_by p x (sort_by xs) (and_left _ h) (all-sort_by p xs (and_right _ h))

  -- Either way round: two elements of different keys.
  abbrev pub apart : A → A → Bool
  apart x y = before x y || before y x

  abbrev pub all_apart : List A → Bool
  all_apart [] = true
  all_apart (x ∷ xs) = all (apart x) xs && all_apart xs

  -- The order is transitive.
  module _ (trans : (x y z : A) → before x y ≡ true → before y z ≡ true → before x z ≡ true) where
    ascends-insert_by :
        (x : A) (ys : List A)
        → all (apart x) ys ≡ true
        → ascends ys ≡ true
        → ascends (insert_by x ys) ≡ true
    unfolding insert_by
    ascends-insert_by x [] h k = refl
    ascends-insert_by x (y ∷ ys) h k = elim (Bool-cases (before y x)) [
      | inl later ↦ rw later (
          and_intro (all-insert_by (before y) x ys later (and_left _ k))
            (ascends-insert_by x ys (and_right _ h) (and_right _ k)))
      | inr first ↦ rw first (
          let le : before x y ≡ true = ground arith in
          and_intro
            (and_intro le
              (all_imp (before y) (before x) ys (λ z yz. trans x y z le yz) (and_left _ k)))
            k)
    ]

    -- Sorting a list of elements with different keys gives an ascending list.
    pub ascends-sort_by : (xs : List A) → all_apart xs ≡ true → ascends (sort_by xs) ≡ true
    unfolding sort_by
    ascends-sort_by [] h = refl
    ascends-sort_by (x ∷ xs) h =
        ascends-insert_by x (sort_by xs) (all-sort_by (apart x) xs (and_left _ h))
          (ascends-sort_by xs (and_right _ h))
