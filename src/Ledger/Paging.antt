-- ===== src/Ledger/Paging.antt =====
-- store/transactions_read.go and mcp/tools_transactions.go: keyset paging over a sorted list, apart
-- from what the elements are.
pub mod Walk
use ynab_auto_categorizer.Prelude.{
  ℕ, zero, suc, ◌+◌, ◌-◌, ◌≤◌, ◌<◌, Bool, true, false, not, ◌&&◌, ◌||◌, ◌≡◌, refl, ap, sym, ◌∙◌,
  Option, none, some, List, [], ◌∷◌, ◌++◌, keep, all, all_imp, all-append, take, length, ltb, arith,
  if◌then◌else◌, Bool-cases, inl, inr, and_intro, and_left, and_right, insert_by, sort_by, ascends,
  apart, all_apart, ascends-sort_by, all-sort_by, length-append,
}

module _ {A : Type 0} (before : A → A → Bool) where
  abbrev pub Transitive : Type 0
  Transitive = (x y z : A) → before x y ≡ true → before y z ≡ true → before x z ≡ true

  abbrev pub Irreflexive : Type 0
  Irreflexive = (x : A) → before x x ≡ false

module _ {A : Type 0} (before : A → A → Bool) (trans : Transitive before)
    (irrefl : Irreflexive before) where
  pub asym : (x y : A) → before x y ≡ true → before y x ≡ false
  asym x y h = elim (Bool-cases (before y x)) [
    | inl back ↦ absurd (ground (arith, trans x y x h back, irrefl x))
    | inr not_back ↦ not_back
  ]

  insert-front : (x : A) (ys : List A) → all (before x) ys ≡ true → insert_by before x ys ≡ x ∷ ys
  unfolding insert_by
  insert-front x [] h = refl
  insert-front x (y ∷ ys) h =
      let front : before x y ≡ true = ground arith in rw (asym x y front) refl

  all-keep_lem : (p q : A → Bool) (xs : List A) → all q xs ≡ true → all q (keep p xs) ≡ true
  all-keep_lem p q [] h = refl
  all-keep_lem p q (x ∷ xs) h = ground (arith, all-keep_lem p q xs)

  insert-later :
      (x y : A) (ys : List A)
      → before y x ≡ true
      → insert_by before x (y ∷ ys) ≡ y ∷ insert_by before x ys
  unfolding insert_by
  insert-later x y ys h = rw h refl

  insert-first :
      (x y : A) (ys : List A) → before y x ≡ false → insert_by before x (y ∷ ys) ≡ x ∷ y ∷ ys
  unfolding insert_by
  insert-first x y ys h = rw h refl

  keep-insert_by :
      (p : A → Bool) (x : A) (ys : List A)
      → all (apart before x) ys ≡ true
      → ascends before ys ≡ true
      → keep p (insert_by before x ys) ≡ (if p x then insert_by before x (keep p ys) else keep p ys)
  keep-insert_by p x [] h k = rw (insert-front x [] refl) refl
  keep-insert_by p x (y ∷ ys) h k =
      let apart_ys : all (apart before x) ys ≡ true = and_right (apart before x y) h in
      let ascends_ys : ascends before ys ≡ true = and_right (all (before y) ys) k in
      let y_first : all (before y) ys ≡ true = and_left (ascends before ys) k in
      elim (Bool-cases (before y x)) [
        | inl later ↦
            rw (insert-later x y ys later)
              (by_later (p x) (p y) later y_first (keep-insert_by p x ys apart_ys ascends_ys))
        | inr first ↦
            let le : before x y ≡ true = ground arith in
            let le_all : all (before x) ys ≡ true =
              all_imp (before y) (before x) ys (λ z yz. trans x y z le yz) y_first in
            let kept : all (before x) (keep p (y ∷ ys)) ≡ true =
              all-keep_lem p (before x) (y ∷ ys) (and_intro le le_all) in
            rw (insert-first x y ys first, insert-front x (keep p (y ∷ ys)) kept) refl
      ]
    where
      by_later :
          (a b : Bool)
          → before y x ≡ true
          → all (before y) ys ≡ true
          → keep p (insert_by before x ys)
            ≡ (if a then insert_by before x (keep p ys) else keep p ys)
          → (if b then y ∷ keep p (insert_by before x ys) else keep p (insert_by before x ys)) ≡ (
              if a
              then insert_by before x (if b then y ∷ keep p ys else keep p ys)
              else (if b then y ∷ keep p ys else keep p ys))
      by_later a false later yf ih = ih
      by_later true true later yf ih = ap (λ t. y ∷ t) ih ∙ sym (insert-later x y (keep p ys) later)
      by_later false true later yf ih = ap (λ t. y ∷ t) ih

  -- Filtering and sorting commute.
  pub keep-sort_by :
      (p : A → Bool) (xs : List A)
      → all_apart before xs ≡ true
      → sort_by before (keep p xs) ≡ keep p (sort_by before xs)
  unfolding sort_by
  keep-sort_by p [] h = refl
  keep-sort_by p (x ∷ xs) h =
      let rest : all_apart before xs ≡ true = and_right (all (apart before x) xs) h in
      by_head (p x) (keep-sort_by p xs rest) (
        keep-insert_by p x (sort_by before xs)
          (all-sort_by before (apart before x) xs (and_left (all_apart before xs) h))
          (ascends-sort_by before trans xs rest))
    where
      by_head :
          (b : Bool)
          → sort_by before (keep p xs) ≡ keep p (sort_by before xs)
          → keep p (insert_by before x (sort_by before xs)) ≡ (
              if b
              then insert_by before x (keep p (sort_by before xs))
              else keep p (sort_by before xs))
          → sort_by before (if b then x ∷ keep p xs else keep p xs)
            ≡ keep p (insert_by before x (sort_by before xs))
      by_head true ih step = ap (insert_by before x) ih ∙ sym step
      by_head false ih step = ih ∙ sym step
