-- ===== src/Sync/Freshness/Exact.antt =====
-- sync/mirror.go, Freshness: what is said of each account.
use mathlib.Core.Path.{subst}
use ynab_auto_categorizer.Prelude.{
  ◌≤◌, max, ltb, String, true, false, ◌≡◌, refl, ap, sym, Bool-cases, Option, none, some, List, [],
  ◌∷◌, map, keep, Among, inl, inr, arith, string_eq, pair_eq,
}
use ynab_auto_categorizer.Mirror.{Mirror, Key, AccountRow, TransactionRow}
use ynab_auto_categorizer.Mirror.Rows.{Time}
use ynab_auto_categorizer.Sync.Freshness.{
  AccountFreshness, is_import, later, newest_seen, fresh, is_live, insert_fresh, sort_fresh,
  fresh_rows,
}

-- A live transaction of the account that came from the bank.
pub record Imported (plan account : String) (x : Key × TransactionRow) : Type 0 where
  pub own : x.0.0 ≡ plan
  pub charged : x.1.transaction.account_id ≡ account
  pub import_id : String
  pub came : x.1.transaction.import_id ≡ some import_id
  pub live : x.1.transaction.deleted ≡ false

module _ (plan account : String) where
  -- The latest first sight of an imported transaction, or nothing if there is none.
  abbrev pub Latest : List (Key × TransactionRow) → Option Time → Type 0
  Latest xs none = (x : Key × TransactionRow) → Among x xs → ¬ (Imported plan account x)
  Latest xs (some t) =
      ((x : Key × TransactionRow) × Among x xs × Imported plan account x × (x.1.first_seen_at ≡ t))
      × ((x : Key × TransactionRow) → Among x xs → Imported plan account x → x.1.first_seen_at ≤ t)

  is_import-Imported :
      (x : Key × TransactionRow) → is_import plan account x ≡ true → Imported plan account x
  is_import-Imported x h = by_id x.1.transaction.import_id refl
    where
      by_id : (o : Option String) → x.1.transaction.import_id ≡ o → Imported plan account x
      by_id none e = absurd (ground arith)
      by_id (some i) e = record {
        own = ground (arith, string_eq.beq_iff x.0.0 plan);
        charged = ground (arith, string_eq.beq_iff x.1.transaction.account_id account);
        import_id = i;
        came = e;
        live = ground arith;
      }

  Imported-is_import :
      (x : Key × TransactionRow) → Imported plan account x → is_import plan account x ≡ true
  Imported-is_import x i = ground (
    arith,
    i.own,
    i.charged,
    i.came,
    i.live,
    string_eq.beq_iff x.0.0 plan,
    string_eq.beq_iff x.1.transaction.account_id account,
  )

  Latest-skip :
      (y : Key × TransactionRow) (ys : List (Key × TransactionRow)) (o : Option Time)
      → is_import plan account y ≡ false
      → Latest ys o
      → Latest (y ∷ ys) o
  Latest-skip y ys none no_ h = none_here
    where
      none_here : (z : Key × TransactionRow) → Among z (y ∷ ys) → ¬ (Imported plan account z)
      none_here z (inl e) i = ground (arith, Imported-is_import z i, ap (is_import plan account) e)
      none_here z (inr m) i = h z m i
  Latest-skip y ys (some t) no_ ((x, m, i, e), bound) = ((x, inr m, i, e), within)
    where
      within :
          (z : Key × TransactionRow)
          → Among z (y ∷ ys)
          → Imported plan account z
          → z.1.first_seen_at ≤ t
      within z (inl e) i =
          absurd (ground (arith, Imported-is_import z i, ap (is_import plan account) e))
      within z (inr m) i = bound z m i

  Latest-later :
      (y : Key × TransactionRow) (ys : List (Key × TransactionRow)) (o : Option Time)
      → Imported plan account y
      → Latest ys o
      → Latest (y ∷ ys) (later y.1.first_seen_at o)
  Latest-later y ys none i h = ((y, inl refl, i, refl), within)
    where
      within :
          (z : Key × TransactionRow)
          → Among z (y ∷ ys)
          → Imported plan account z
          → z.1.first_seen_at ≤ y.1.first_seen_at
      within z (inl e) j = omega (arith, ap (λ (w : Key × TransactionRow). w.1.first_seen_at) e)
      within z (inr m) j = absurd (h z m j)
  Latest-later y ys (some t) i ((x, m, j, e), bound) = elim (Bool-cases (ltb y.1.first_seen_at t)) [
    | inl less ↦ ((x, inr m, j, ground arith), within)
    | inr more ↦ ((y, inl refl, i, ground arith), within)
  ]
    where
      within :
          (z : Key × TransactionRow)
          → Among z (y ∷ ys)
          → Imported plan account z
          → z.1.first_seen_at ≤ max y.1.first_seen_at t
      within z (inl e) k = omega (arith, ap (λ (w : Key × TransactionRow). w.1.first_seen_at) e)
      within z (inr n) k = omega (arith, bound z n k)

  Latest-newest_seen :
      (xs : List (Key × TransactionRow))
      → Latest xs (newest_seen (keep (is_import plan account) xs))
  unfolding newest_seen
  Latest-newest_seen [] = λ x m i. m
  Latest-newest_seen (y ∷ ys) = elim (Bool-cases (is_import plan account y)) [
    | inl kept ↦ rw kept (
        Latest-later y ys (newest_seen (keep (is_import plan account) ys))
          (is_import-Imported y kept) (Latest-newest_seen ys))
    | inr dropped ↦ rw dropped (
        Latest-skip y ys (newest_seen (keep (is_import plan account) ys)) dropped
          (Latest-newest_seen ys))
  ]

Among-insert_fresh :
    (x f : AccountFreshness) (gs : List AccountFreshness)
    → Among x (insert_fresh f gs)
    → Among x (f ∷ gs)
unfolding insert_fresh
Among-insert_fresh x f [] h = h
Among-insert_fresh x f (g ∷ gs) h = ground (arith, Among-insert_fresh x f gs)

Among-sort_fresh :
    (x : AccountFreshness) (fs : List AccountFreshness) → Among x (sort_fresh fs) → Among x fs
unfolding sort_fresh
Among-sort_fresh x [] h = h
Among-sort_fresh x (f ∷ fs) h =
    ground (arith, Among-insert_fresh x f (sort_fresh fs) h, Among-sort_fresh x fs)

module _ (plan : String) (at : Time) (m : Mirror) where
  -- What Freshness says of an account: the account is a live one of the plan.
  pub record Shown (f : AccountFreshness) : Type 0 where
    pub account : Key × AccountRow
    pub stored : Among account m.accounts
    pub own : account.0 ≡ (plan, f.account_id)
    pub live : account.1.account.deleted ≡ false
    pub linked : f.linked ≡ account.1.account.direct_import_linked
    pub in_error : f.in_error ≡ account.1.account.direct_import_in_error
    pub seen : Latest plan f.account_id m.transactions f.last_import_seen_at
    pub as_of : f.synced_at ≡ at

  Shown-fresh :
      (y : Key × AccountRow)
      → Among y m.accounts
      → is_live plan y ≡ true
      → Shown (fresh plan at m y)
  Shown-fresh y a h = record {
    account = y;
    stored = a;
    own = ground (arith, string_eq.beq_iff y.0.0 plan);
    live = ground arith;
    linked = refl;
    in_error = refl;
    seen = Latest-newest_seen plan y.0.1 m.transactions;
    as_of = refl;
  }

  Shown-map :
      (ys : List (Key × AccountRow)) (f : AccountFreshness)
      → ((y : Key × AccountRow) → Among y ys → Among y m.accounts)
      → Among f (map (fresh plan at m) (keep (is_live plan) ys))
      → Shown f
  Shown-map [] f sub = λ a. absurd a
  Shown-map (y ∷ ys) f sub = by_live (Shown-map ys f (λ z k. sub z (inr k)))
    where
      first_or_later :
          is_live plan y ≡ true
          → (Among f (map (fresh plan at m) (keep (is_live plan) ys)) → Shown f)
          → Among f (fresh plan at m y ∷ map (fresh plan at m) (keep (is_live plan) ys))
          → Shown f
      first_or_later live rest (inl e) = subst Shown (sym e) (Shown-fresh y (sub y (inl refl)) live)
      first_or_later live rest (inr k) = rest k

      by_live :
          (Among f (map (fresh plan at m) (keep (is_live plan) ys)) → Shown f)
          → Among f (map (fresh plan at m) (keep (is_live plan) (y ∷ ys)))
          → Shown f
      by_live rest = elim (Bool-cases (is_live plan y)) [
        | inl live ↦ rw live (first_or_later live rest)
        | inr dead ↦ rw dead rest
      ]

  -- Whatever rows the mirror holds: each account that Freshness lists is a live account of the plan with
  -- its link flags, and its LastImportSeenAt is the latest time at which the mirror first saw a live
  -- transaction of the account that has an import id, and is missing exactly if there is none.
  pub Shown-fresh_rows : (f : AccountFreshness) → Among f (fresh_rows plan at m) → Shown f
  unfolding fresh_rows
  Shown-fresh_rows f a =
      Shown-map m.accounts f (λ y k. k)
        (Among-sort_fresh f (map (fresh plan at m) (keep (is_live plan) m.accounts)) a)
