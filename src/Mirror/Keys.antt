-- ===== src/Mirror/Keys.antt =====
-- store/migrations/0001_mirror.sql: when a batch keeps the deferred foreign keys.
use ynab_auto_categorizer.Prelude.{
  Bool, true, ◌||◌, ◌≡◌, ◌∙◌, ap, Option, List, all, is_some, arith, pair_eq, string_eq, Eq,
}
use ynab_auto_categorizer.Table.{Table, find}
use ynab_auto_categorizer.Table.Checks.{all_mono}
use ynab_auto_categorizer.Table.Batches.{merge_all, mentions, is_some-merge_all, all-merge_all}

module _ {A B K J P R : Type 0} ⦃e : Eq K⦄ ⦃d : Eq J⦄ (pkey : A → K) (pmake : A → Option P → P)
    (ckey : B → J) (cmake : B → Option R → R) (parent : J × R → K) where
  -- The foreign key of a child table: every child's parent is a row.
  abbrev pub refers : Table K P → Table J R → Bool
  refers parents children = all (λ x. is_some (find (parent x) parents)) children

  grows :
      (ps : List A) (parents : Table K P) (k : K)
      → is_some (find k parents) ≡ true
      → is_some (find k (merge_all pkey pmake ps parents)) ≡ true
  grows ps parents k h = ground (arith, is_some-merge_all pkey pmake k ps parents)

  -- Parents and children may be written together if each child's parent is among the parents written
  -- or was there before.
  pub refers-merge_all :
      (place : B → K) (ps : List A) (cs : List B) (parents : Table K P) (children : Table J R)
      → ((c : B) (o : Option R) → parent (ckey c, cmake c o) ≡ place c)
      → all (λ c. mentions pkey (place c) ps || is_some (find (place c) parents)) cs ≡ true
      → refers parents children ≡ true
      → refers (merge_all pkey pmake ps parents) (merge_all ckey cmake cs children) ≡ true
  refers-merge_all place ps cs parents children placed known h =
      all-merge_all ckey cmake (λ x. is_some (find (parent x) (merge_all pkey pmake ps parents)))
        (λ c. mentions pkey (place c) ps || is_some (find (place c) parents)) cs children
        (λ c o q.
          ap (λ k. is_some (find k (merge_all pkey pmake ps parents))) (placed c o)
          ∙ is_some-merge_all pkey pmake (place c) ps parents
          ∙ q)
        known (all_mono _ _ children (λ x. grows ps parents (parent x)) h)
