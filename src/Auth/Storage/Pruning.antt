-- ===== src/Auth/Storage/Pruning.antt =====
-- auth/storage.go, Prune: which rows it deletes, and the count it reports.
use ynab_auto_categorizer.Prelude.{
  ℕ, ◌+◌, String, true, false, ◌≡◌, refl, ◌⊎◌, inl, inr, List, [], ◌∷◌, Result, ok, err, driver,
  arith, ltb, keep, length,
}
use ynab_auto_categorizer.Sql.{Session}
use ynab_auto_categorizer.Sql.Refines.{
  Refines, Refines-pure, Refines-exec, Refines-bind, Refines-write_tx,
}
use ynab_auto_categorizer.Sql.Atomic.{Undone, IsAtomic-write_tx}
use ynab_auto_categorizer.Table.{Table, delete}
use ynab_auto_categorizer.Mirror.Rows.{Time}
use ynab_auto_categorizer.Auth.Rows.{Auth, Grant, Kind, table, with_table}
use ynab_auto_categorizer.Auth.Storage.{prune, prune_body, prune_table, all_kinds, expired, in_tx}

abbrev Grants : Type 0
Grants = Table String Grant

-- The rows that have not expired.
abbrev pub current : Time → Table String Grant → Table String Grant
current now t = keep (λ x. ltb now x.1.expires_at) t

abbrev pub row_count : Auth → ℕ
row_count d = length d.codes + (length d.access + (length d.refresh + length d.pkce))

abbrev swept : Time → List Kind → Auth → ℕ × Auth
swept now [] d = (0, d)
swept now (k ∷ ks) d =
    let (n, d') = prune_table now k d in let (total, d'') = swept now ks d' in (n + total, d'')

Refines-prune_body :
    (now : Time) (ks : List Kind)
    → Refines (prune_body now ks) (λ d. (ok (swept now ks d).0, (swept now ks d).1))
unfolding prune_body
Refines-prune_body now [] = Refines-pure 0
Refines-prune_body now (k ∷ ks) =
    Refines-bind _ _ _ (λ n d. (ok (n + (swept now ks d).0), (swept now ks d).1))
      (Refines-exec (prune_table now k))
      (λ n.
        Refines-bind _ _ _ (λ total d. (ok (n + total), d)) (Refines-prune_body now ks)
          (λ total. Refines-pure (n + total)))

delete-expired : (now : Time) (t : Grants) → delete (expired now) t ≡ current now t
unfolding delete
delete-expired now [] = refl
delete-expired now ((k, g) ∷ t) = ground (arith, delete-expired now t)

count_expired :
    (now : Time) (t : Grants)
    → length (keep (λ x. expired now x.0 x.1) t) + length (current now t) ≡ length t
count_expired now [] = refl
count_expired now ((k, g) ∷ t) = ground (arith, count_expired now t)

-- What Prune has done: in every table the rows that have not expired are left, as many rows are gone
-- as it reports, and the clients and the generations are as before; or it has failed and nothing has
-- changed.
abbrev pub Pruned : Time → Auth → Result ℕ × Session Auth → Type 0
Pruned now old (ok n, s) =
    ((kind : Kind) → table kind s.db ≡ current now (table kind old))
    × (n + row_count s.db ≡ row_count old)
    × (s.db.clients ≡ old.clients)
    × (s.db.generations ≡ old.generations)
Pruned now old (err e, s) = s.db ≡ old

module _ (now : Time) (d : Auth) where
  abbrev after : Auth
  after = (swept now all_kinds d).1

  swept_tables : (kind : Kind) → table kind after ≡ current now (table kind d)
  unfolding prune_table table with_table
  swept_tables Kind.codes = delete-expired now d.codes
  swept_tables Kind.access = delete-expired now d.access
  swept_tables Kind.refresh = delete-expired now d.refresh
  swept_tables Kind.pkce = delete-expired now d.pkce

  swept_count : (swept now all_kinds d).0 + row_count after ≡ row_count d
  unfolding prune_table table with_table
  swept_count =
      rw
        (
          delete-expired now d.codes,
          delete-expired now d.access,
          delete-expired now d.refresh,
          delete-expired now d.pkce,
        )
        (omega (
          arith,
          count_expired now d.codes,
          count_expired now d.access,
          count_expired now d.refresh,
          count_expired now d.pkce,
        ))

ok_injective : (n m : ℕ) → ok n ≡ ok m → n ≡ m
ok_injective n m h = ground arith

-- Prune outside a caller's transaction, under any faults: if it succeeds, each of the four token
-- tables keeps exactly the rows that expire after `now`, the reported count is the number of rows
-- gone, and clients and generations are as before; if it fails, nothing has changed.
pub prune_exact : (now : Time) (σ : Session Auth) → Pruned now σ.db (prune false now σ)
unfolding prune in_tx prune_table with_table
prune_exact now σ =
    by_result (prune false now σ).0 (prune false now σ).1 ((IsAtomic-write_tx _ _).undone σ)
      ((Refines-write_tx (λ _. true) _ _ (Refines-prune_body now all_kinds)).exact σ)
  where
    by_result :
        (r : Result ℕ) (s : Session Auth)
        → Undone σ.db (r, s)
        → (r ≡ err driver)
          ⊎ ((r ≡ ok (swept now all_kinds σ.db).0) × (s.db ≡ (swept now all_kinds σ.db).1))
        → Pruned now σ.db (r, s)
    by_result (err e) s u x = u
    by_result (ok n) s u (inl x) = ground arith
    by_result (ok n) s u (inr (x, y)) = (
      λ kind. rw y (swept_tables now σ.db kind),
      rw (ok_injective n _ x, y) (swept_count now σ.db),
      rw y refl,
      rw y refl,
    )
