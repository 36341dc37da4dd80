-- ===== src/Table/Batches.antt =====
-- The rows of one upsert, written into one table in order.
use ynab_auto_categorizer.Prelude.{
  Bool, true, false, ◌≡◌, refl, ◌∙◌, ap, Option, some, List, [], ◌∷◌, Eq, ◌==◌, if◌then◌else◌,
  is_some, ◌||◌, arith, all, any, Among, Bool-cases, ◌⊎◌, inl, inr, ==-refl, sym, or_left, or_right,
}
use ynab_auto_categorizer.Table.{Table, find, merge}
use ynab_auto_categorizer.Table.Laws.{find-merge, Unique, Unique-merge}
use ynab_auto_categorizer.Table.Checks.{all-merge}

-- Whether one of the rows has the key.
abbrev pub mentions : {A K : Type 0} ⦃e : Eq K⦄ → (A → K) → K → List A → Bool
mentions key j xs = any (λ x. key x == j) xs

module _ {A K R : Type 0} ⦃e : Eq K⦄ (key : A → K) (make : A → Option R → R) where
  unfoldable pub merge_all : List A → Table K R → Table K R
  merge_all [] t = t
  merge_all (x ∷ xs) t = merge_all xs (merge (key x) (make x) t)

  -- What a key holds after the rows, from what it held before.
  unfoldable pub newest : K → List A → Option R → Option R
  newest j [] o = o
  newest j (x ∷ xs) o = newest j xs (if key x == j then some (make x o) else o)

  pub find-merge_all :
      (j : K) (xs : List A) (t : Table K R) → find j (merge_all xs t) ≡ newest j xs (find j t)
  unfolding merge_all newest
  find-merge_all j [] t = refl
  find-merge_all j (x ∷ xs) t =
      find-merge_all j xs (merge (key x) (make x) t)
      ∙ ap (newest j xs) (ground (arith, e.beq_iff (key x) j, find-merge j (key x) (make x) t))

  is_some-newest :
      (j : K) (xs : List A) (o : Option R)
      → is_some (newest j xs o) ≡ (mentions key j xs || is_some o)
  unfolding newest
  is_some-newest j [] o = refl
  is_some-newest j (x ∷ xs) o =
      ground (arith, is_some-newest j xs (if key x == j then some (make x o) else o))

  pub is_some-merge_all :
      (j : K) (xs : List A) (t : Table K R)
      → is_some (find j (merge_all xs t)) ≡ (mentions key j xs || is_some (find j t))
  is_some-merge_all j xs t = ap is_some (find-merge_all j xs t) ∙ is_some-newest j xs (find j t)

  -- A key that no row has keeps what it held.
  pub newest_unmentioned :
      (j : K) (xs : List A) (o : Option R) → mentions key j xs ≡ false → newest j xs o ≡ o
  unfolding newest
  newest_unmentioned j [] o h = refl
  newest_unmentioned j (x ∷ xs) o h = ground (arith, newest_unmentioned j xs o)

  pub Unique-merge_all : (xs : List A) (t : Table K R) → Unique t → Unique (merge_all xs t)
  unfolding merge_all
  Unique-merge_all [] t u = u
  Unique-merge_all (x ∷ xs) t u = Unique-merge_all xs _ (Unique-merge (key x) (make x) t u)

  pub all-merge_all :
      (p : K × R → Bool) (q : A → Bool) (xs : List A) (t : Table K R)
      → ((x : A) (o : Option R) → q x ≡ true → p (key x, make x o) ≡ true)
      → all q xs ≡ true
      → all p t ≡ true
      → all p (merge_all xs t) ≡ true
  unfolding merge_all
  all-merge_all p q [] t h a b = b
  all-merge_all p q (x ∷ xs) t h a b =
      all-merge_all p q xs (merge (key x) (make x) t) h (ground arith)
        (all-merge p (key x) (make x) t b (h x (find (key x) t) (ground arith)))

-- Where a row replaces the one in conflict whole, a key holds one of the rows or what it held before.
module _ {K R : Type 0} ⦃e : Eq K⦄ (key : R → K) where
  pub newest_cases :
      (j : K) (xs : List R) (o : Option R) (r : R)
      → newest key (λ x _. x) j xs o ≡ some r
      → Among r xs ⊎ ((mentions key j xs ≡ false) × (o ≡ some r))
  unfolding newest
  newest_cases j [] o r h = inr (refl, h)
  newest_cases j (x ∷ xs) o r h = elim (Bool-cases (key x == j)) [
    | inl same ↦ elim (newest_cases j xs (some x) r (ground arith)) [
      | inl m ↦ inl (inr m)
      | inr (u, f) ↦ inl (inl (ground arith))
    ]
    | inr other ↦ elim (newest_cases j xs o r (ground arith)) [
      | inl m ↦ inl (inr m)
      | inr (u, f) ↦ inr (ground arith, f)
    ]
  ]

abbrev pub Distinct : {A K : Type 0} ⦃e : Eq K⦄ → (A → K) → List A → Type 0
Distinct key [] = Unit
Distinct key (x ∷ xs) = (mentions key (key x) xs ≡ false) × Distinct key xs

module _ {A K : Type 0} ⦃e : Eq K⦄ (key : A → K) where
  mentions-Among : (a : A) (xs : List A) → Among a xs → mentions key (key a) xs ≡ true
  mentions-Among a [] m = elim m [ ]
  mentions-Among a (x ∷ xs) (inl same) =
      or_left _ (ap (λ y. key y == key a) (sym same) ∙ ==-refl (key a))
  mentions-Among a (x ∷ xs) (inr m) = or_right _ (mentions-Among a xs m)

  distinct_clash :
      (a x : A) (xs : List A)
      → mentions key (key x) xs ≡ false
      → Among a xs
      → (key x == key a) ≡ true
      → ⊥
  distinct_clash a x xs d m clash = ground (arith, e.beq_iff (key x) (key a), mentions-Among a xs m)

-- Rows with distinct keys: each is stored as made from what its key held before.
module _ {A K R : Type 0} ⦃e : Eq K⦄ (key : A → K) (make : A → Option R → R) where
  pub newest-Distinct :
      (a : A) (xs : List A) (o : Option R)
      → Distinct key xs
      → Among a xs
      → newest key make (key a) xs o ≡ some (make a o)
  unfolding newest
  newest-Distinct a [] o d m = elim m [ ]
  newest-Distinct a (x ∷ xs) o d (inl same) =
      newest_unmentioned key make (key a) xs _ (ap (λ y. mentions key (key y) xs) same ∙ d.0)
      ∙ ap (λ b. if b then some (make x o) else o)
          (ap (λ y. key y == key a) (sym same) ∙ ==-refl (key a))
      ∙ ap (λ y. some (make y o)) (sym same)
  newest-Distinct a (x ∷ xs) o d (inr m) = elim (Bool-cases (key x == key a)) [
    | inl clash ↦ absurd (distinct_clash key a x xs d.0 m clash)
    | inr apart ↦ rw apart (newest-Distinct a xs o d.1 m)
  ]
