-- ===== src/Table.antt =====
-- SQLite tables with a primary key, as the statements of store/ and auth/ read and write them: a
-- row is stored under its key columns. No statement of the program depends on the order of rows
-- unless it says ORDER BY, so where SQL leaves the order open the order of insertion stands for it.
pub mod Laws
pub mod Checks
pub mod Batches
use ynab_auto_categorizer.Prelude.{
  Bool, true, false, not, Option, none, some, List, [], ◌∷◌, Eq, ◌==◌, if◌then◌else◌, keep,
}

abbrev pub Table : Type 0 → Type 0 → Type 0
Table K R = List (K × R)

-- Row data, whatever the key.
abbrev pub rows : {K R : Type 0} → Table K R → List R
rows [] = []
rows ((k, r) ∷ t) = r ∷ rows t

module _ {K R : Type 0} ⦃e : Eq K⦄ where
  -- SELECT … WHERE key = k
  unfoldable pub find : K → Table K R → Option R
  find k [] = none
  find k ((j, r) ∷ t) = if j == k then some r else find k t

  -- INSERT … ON CONFLICT (key) DO UPDATE SET …: `f` makes the row from the one in conflict.
  unfoldable pub merge : K → (Option R → R) → Table K R → Table K R
  merge k f [] = (k, f none) ∷ []
  merge k f ((j, r) ∷ t) = if j == k then (k, f (some r)) ∷ t else (j, r) ∷ merge k f t

  -- DO UPDATE SET every column = excluded.column
  unfoldable pub replace : K → R → Table K R → Table K R
  unfolding merge
  replace k r t = merge k (λ _. r) t

  -- UPDATE … SET … WHERE key = k, and how many rows it changed.
  unfoldable pub modify : K → (R → R) → Table K R → Bool × Table K R
  modify k f [] = (false, [])
  modify k f ((j, r) ∷ t) =
      let rest = modify k f t in if j == k then (true, (j, f r) ∷ t) else (rest.0, (j, r) ∷ rest.1)

-- UPDATE … SET … WHERE p
unfoldable pub update : {K R : Type 0} → (R → Bool) → (R → R) → Table K R → Table K R
update p f [] = []
update p f ((k, r) ∷ t) = (k, if p r then f r else r) ∷ update p f t

-- DELETE … WHERE p
unfoldable pub delete : {K R : Type 0} → (K → R → Bool) → Table K R → Table K R
delete p t = keep (λ x. not (p x.0 x.1)) t
