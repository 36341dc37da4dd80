-- ===== src/Mirror.antt =====
-- store/mirror.go and store/migrations/0001_mirror.sql: the mirror tables, their upserts and the
-- delta cursor. Every table is keyed by the plan.
pub mod Rows
pub mod Writes
pub mod Keys
pub mod Find
use ynab_auto_categorizer.Prelude.{
  String, Bool, not, ◌&&◌, Option, none, some, [], all, is_some, if◌then◌else◌, pair_eq, string_eq,
}
use ynab_auto_categorizer.Table.{Table, find, merge, replace}
use Rows.{
  Time, Account, CategoryGroup, Category, Payee, Transaction, Subtransaction, Month, MonthCategory,
  ScheduledTransaction, ScheduledSubtransaction, SyncState,
}

-- (plan_id, id), or (plan_id, month)
abbrev pub Key : Type 0
Key = String × String

-- An accounts row: the tax_bucket column is local.
pub record AccountRow : Type 0 where
  pub account : Account
  pub tax_bucket : Option String

pub record TransactionRow : Type 0 where
  pub transaction : Transaction
  pub first_seen_at : Time

pub record Mirror : Type 0 where
  pub accounts : Table Key AccountRow
  pub category_groups : Table Key CategoryGroup
  pub categories : Table Key Category
  pub payees : Table Key Payee
  pub transactions : Table Key TransactionRow
  pub subtransactions : Table Key Subtransaction
  pub months : Table Key Month
  pub month_categories : Table (Key × String) MonthCategory
  pub scheduled_transactions : Table Key ScheduledTransaction
  pub scheduled_subtransactions : Table Key ScheduledSubtransaction
  pub sync_state : Table String SyncState

abbrev pub empty : Mirror
empty = record {
  accounts = [];
  category_groups = [];
  categories = [];
  payees = [];
  transactions = [];
  subtransactions = [];
  months = [];
  month_categories = [];
  scheduled_transactions = [];
  scheduled_subtransactions = [];
  sync_state = [];
}

-- The deferred foreign keys: a row's parent is in the table of the same plan.
abbrev pub has_transaction : Mirror → Key × Subtransaction → Bool
has_transaction m ((plan, i), s) = is_some (find (plan, s.transaction_id) m.transactions)

abbrev pub has_month : Mirror → (Key × String) × MonthCategory → Bool
has_month m ((key, c), r) = is_some (find key m.months)

abbrev pub has_scheduled : Mirror → Key × ScheduledSubtransaction → Bool
has_scheduled m ((plan, i), s) =
    is_some (find (plan, s.scheduled_transaction_id) m.scheduled_transactions)

unfoldable pub keys_hold : Mirror → Bool
keys_hold m =
    all (has_transaction m) m.subtransactions
    && all (has_month m) m.month_categories
    && all (has_scheduled m) m.scheduled_subtransactions

-- What an upsert leaves of the row in conflict.
abbrev pub bucket_of : Option AccountRow → Option String
bucket_of none = none
bucket_of (some old) = old.tax_bucket

-- CASE WHEN transactions.import_id IS NULL AND excluded.import_id IS NOT NULL
unfoldable pub seen_at : Time → Transaction → Option TransactionRow → Time
seen_at now x none = now
seen_at now x (some old) =
    if not (is_some old.transaction.import_id) && is_some x.import_id
    then now
    else old.first_seen_at

-- One row of each upsert.
module _ (plan : String) where
  unfoldable pub put_account : Account → Mirror → Mirror
  put_account a m = record m {
    accounts =
        merge (plan, a.id) (λ old. record { account = a; tax_bucket = bucket_of old }) m.accounts;
  }

  unfoldable pub put_category_group : CategoryGroup → Mirror → Mirror
  put_category_group g m = record m { category_groups = replace (plan, g.id) g m.category_groups }

  unfoldable pub put_category : Category → Mirror → Mirror
  put_category c m = record m { categories = replace (plan, c.id) c m.categories }

  unfoldable pub put_payee : Payee → Mirror → Mirror
  put_payee p m = record m { payees = replace (plan, p.id) p m.payees }

  unfoldable pub put_transaction : Time → Transaction → Mirror → Mirror
  put_transaction now x m = record m {
    transactions =
        merge (plan, x.id) (λ old. record { transaction = x; first_seen_at = seen_at now x old })
          m.transactions;
  }

  unfoldable pub put_subtransaction : Subtransaction → Mirror → Mirror
  put_subtransaction s m = record m { subtransactions = replace (plan, s.id) s m.subtransactions }

  unfoldable pub put_month : Month → Mirror → Mirror
  put_month r m = record m { months = replace (plan, r.month) r m.months }

  unfoldable pub put_month_category : MonthCategory → Mirror → Mirror
  put_month_category c m = record m {
    month_categories = replace ((plan, c.month), c.category_id) c m.month_categories;
  }

  unfoldable pub put_scheduled : ScheduledTransaction → Mirror → Mirror
  put_scheduled s m = record m {
    scheduled_transactions = replace (plan, s.id) s m.scheduled_transactions;
  }

  unfoldable pub put_scheduled_sub : ScheduledSubtransaction → Mirror → Mirror
  put_scheduled_sub s m = record m {
    scheduled_subtransactions = replace (plan, s.id) s m.scheduled_subtransactions;
  }

unfoldable pub put_sync_state : SyncState → Mirror → Mirror
put_sync_state s m = record m { sync_state = replace s.plan_id s m.sync_state }
