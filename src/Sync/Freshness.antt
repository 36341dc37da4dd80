-- ===== src/Sync/Freshness.antt =====
-- sync/mirror.go, Freshness: how current the bank import of each account is.
pub mod Exact
use mathlib.Core.Path.{subst}
use ynab_auto_categorizer.Prelude.{
  ◌≤◌, max, String, Bool, true, not, ◌&&◌, ◌||◌, ◌≡◌, refl, ap, sym, ◌∙◌, Bool-cases, Option, none,
  some, List, [], ◌∷◌, map, is_some, keep, Among, inl, inr, arith, if◌then◌else◌, ◌==◌, string_eq,
  pair_eq, text_before,
}
use ynab_auto_categorizer.Sql.{Sql, query, ◌>>=◌}
use ynab_auto_categorizer.Mirror.{Mirror, Key, AccountRow, TransactionRow}
use ynab_auto_categorizer.Mirror.Rows.{Time, SyncState}
use ynab_auto_categorizer.Mirror.Writes.{get_sync_state}

pub record AccountFreshness : Type 0 where
  pub account_id : String
  pub name : String
  pub closed : Bool
  pub linked : Bool
  pub in_error : Bool
  pub newest_import_date : String
  pub last_import_seen_at : Option Time
  pub synced_at : Time

-- The join: a live transaction of the account that has an import id.
abbrev pub is_import : String → String → Key × TransactionRow → Bool
is_import plan account ((p, i), r) =
    p == plan
    && r.transaction.account_id == account
    && is_some r.transaction.import_id
    && not r.transaction.deleted

-- MAX(t.first_seen_at), which is NULL where there is no row.
abbrev pub later : Time → Option Time → Option Time
later t none = some t
later t (some u) = some (max t u)

unfoldable pub newest_seen : List (Key × TransactionRow) → Option Time
newest_seen [] = none
newest_seen (x ∷ xs) = later x.1.first_seen_at (newest_seen xs)

-- MAX(t.date), read as "" where it is NULL.
unfoldable pub newest_date : List (Key × TransactionRow) → String
newest_date [] = ""
newest_date (x ∷ xs) =
    let rest = newest_date xs in
    if text_before rest x.1.transaction.date then x.1.transaction.date else rest

abbrev pub imports : String → String → Mirror → List (Key × TransactionRow)
imports plan account m = keep (is_import plan account) m.transactions

abbrev pub fresh : String → Time → Mirror → Key × AccountRow → AccountFreshness
fresh plan at m ((p, i), r) = record {
  account_id = i;
  name = r.account.name;
  closed = r.account.closed;
  linked = r.account.direct_import_linked;
  in_error = r.account.direct_import_in_error;
  newest_import_date = newest_date (imports plan i m);
  last_import_seen_at = newest_seen (imports plan i m);
  synced_at = at;
}

abbrev pub is_live : String → Key × AccountRow → Bool
is_live plan ((p, i), r) = p == plan && not r.account.deleted

abbrev comes_before : AccountFreshness → AccountFreshness → Bool
comes_before f g =
    text_before f.name g.name || (f.name == g.name && text_before f.account_id g.account_id)

unfoldable pub insert_fresh : AccountFreshness → List AccountFreshness → List AccountFreshness
insert_fresh f [] = f ∷ []
insert_fresh f (g ∷ gs) =
    let rest = insert_fresh f gs in if comes_before f g then f ∷ g ∷ gs else g ∷ rest

-- ORDER BY a.name, a.id
unfoldable pub sort_fresh : List AccountFreshness → List AccountFreshness
unfolding insert_fresh
sort_fresh [] = []
sort_fresh (f ∷ fs) = insert_fresh f (sort_fresh fs)

unfoldable pub fresh_rows : String → Time → Mirror → List AccountFreshness
unfolding sort_fresh newest_seen newest_date
fresh_rows plan at m = sort_fresh (map (fresh plan at m) (keep (is_live plan) m.accounts))

-- A plan that has never synced has the zero time.
abbrev pub synced_at_of : Option SyncState → Time
synced_at_of none = 0
synced_at_of (some st) = st.synced_at

unfoldable pub freshness : String → Sql Mirror (List AccountFreshness)
unfolding fresh_rows
freshness plan = get_sync_state plan >>= λ st. query (fresh_rows plan (synced_at_of st))
