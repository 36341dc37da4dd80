-- ===== src/Table/Laws.antt =====
-- What a key finds after each statement.
use mathlib.Core.Option
use ynab_auto_categorizer.Prelude.{
  Bool, true, ◌≡◌, refl, Option, none, some, [], ◌∷◌, Eq, ◌==◌, if◌then◌else◌, arith, is_some,
}
use ynab_auto_categorizer.Table.{Table, find, merge, replace, modify, update, delete}

module _ {K R : Type 0} ⦃e : Eq K⦄ where
  pub find-merge :
      (j k : K) (f : Option R → R) (t : Table K R)
      → find j (merge k f t) ≡ (if k == j then some (f (find k t)) else find j t)
  unfolding find merge
  find-merge j k f [] = refl
  find-merge j k f ((i, r) ∷ t) =
      ground (arith, e.beq_iff k j, e.beq_iff i k, e.beq_iff i j, find-merge j k f t)

  pub find-replace :
      (j k : K) (r : R) (t : Table K R)
      → find j (replace k r t) ≡ (if k == j then some r else find j t)
  unfolding replace
  find-replace j k r t = find-merge j k (λ _. r) t

  -- A row is never lost.
  pub is_some-find-merge :
      (j k : K) (f : Option R → R) (t : Table K R)
      → is_some (find j t) ≡ true
      → is_some (find j (merge k f t)) ≡ true
  is_some-find-merge j k f t h = ground (arith, find-merge j k f t)

  pub find-modify :
      (j k : K) (f : R → R) (t : Table K R)
      → find j (modify k f t).1 ≡ (if k == j then Option.map f (find k t) else find j t)
  unfolding find modify
  find-modify j k f [] = ground arith
  find-modify j k f ((i, r) ∷ t) =
      ground (arith, e.beq_iff k j, e.beq_iff i k, e.beq_iff i j, find-modify j k f t)

  pub modify_changed : (k : K) (f : R → R) (t : Table K R) → (modify k f t).0 ≡ is_some (find k t)
  unfolding find modify
  modify_changed k f [] = refl
  modify_changed k f ((i, r) ∷ t) = ground (arith, modify_changed k f t)

  pub find-update :
      (j : K) (p : R → Bool) (f : R → R) (t : Table K R)
      → find j (update p f t) ≡ Option.map (λ r. if p r then f r else r) (find j t)
  unfolding find update
  find-update j p f [] = refl
  find-update j p f ((i, r) ∷ t) = ground (arith, find-update j p f t)

  -- A key stands in one row at most.
  abbrev pub Unique : Table K R → Type 0
  Unique [] = Unit
  Unique ((k, r) ∷ t) = (find k t ≡ none) × Unique t

  abbrev pub unless : (K → R → Bool) → K → Option R → Option R
  unless p k none = none
  unless p k (some r) = if p k r then none else some r

  pub find-delete :
      (j : K) (p : K → R → Bool) (t : Table K R)
      → Unique t
      → find j (delete p t) ≡ unless p j (find j t)
  unfolding find delete
  find-delete j p [] u = refl
  find-delete j p ((i, r) ∷ t) u = ground (arith, e.beq_iff i j, find-delete j p t u.1)

  pub find-delete-none :
      (j : K) (p : K → R → Bool) (t : Table K R) → find j t ≡ none → find j (delete p t) ≡ none
  unfolding find delete
  find-delete-none j p [] h = refl
  find-delete-none j p ((i, r) ∷ t) h = ground (arith, find-delete-none j p t)

  pub Unique-delete : (p : K → R → Bool) (t : Table K R) → Unique t → Unique (delete p t)
  unfolding delete
  Unique-delete p [] u = tt
  Unique-delete p ((i, r) ∷ t) u = ground (arith, Unique-delete p t u.1, find-delete-none i p t u.0)

  pub Unique-merge : (k : K) (f : Option R → R) (t : Table K R) → Unique t → Unique (merge k f t)
  unfolding merge find
  Unique-merge k f [] u = (refl, tt)
  Unique-merge k f ((i, r) ∷ t) u =
      ground (arith, e.beq_iff i k, e.beq_iff k i, Unique-merge k f t u.1, find-merge i k f t)

  pub Unique-update : (p : R → Bool) (f : R → R) (t : Table K R) → Unique t → Unique (update p f t)
  unfolding update
  Unique-update p f [] u = tt
  Unique-update p f ((i, r) ∷ t) u = ground (arith, Unique-update p f t u.1, find-update i p f t)
