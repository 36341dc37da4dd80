-- ===== src/Table/Checks.antt =====
-- Conditions that every row of a table meets, such as a foreign key.
use ynab_auto_categorizer.Prelude.{Bool, true, ◌≡◌, Option, some, [], ◌∷◌, Eq, all, arith}
use ynab_auto_categorizer.Table.{Table, find, merge}

module _ {K R : Type 0} where
  pub all_mono :
      (p q : K × R → Bool) (t : Table K R)
      → ((x : K × R) → p x ≡ true → q x ≡ true)
      → all p t ≡ true
      → all q t ≡ true
  all_mono p q [] h a = a
  all_mono p q (x ∷ t) h a = ground (arith, h x, all_mono p q t h)

module _ {K R : Type 0} ⦃e : Eq K⦄ where
  pub all-merge :
      (p : K × R → Bool) (k : K) (f : Option R → R) (t : Table K R)
      → all p t ≡ true
      → p (k, f (find k t)) ≡ true
      → all p (merge k f t) ≡ true
  unfolding merge find
  all-merge p k f [] a h = ground arith
  all-merge p k f ((i, r) ∷ t) a h = ground (arith, all-merge p k f t)

  pub all-find :
      (p : K × R → Bool) (k : K) {r : R} (t : Table K R)
      → all p t ≡ true
      → find k t ≡ some r
      → p (k, r) ≡ true
  unfolding find
  all-find p k {r} [] a h = ground arith
  all-find p k {r} ((i, s) ∷ t) a h = ground (arith, e.beq_iff i k, all-find p k {r = r} t)
