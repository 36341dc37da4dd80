-- ===== src/Sync/Tick/Tables.antt =====
-- The mirror after a batch, table by table.
use ynab_auto_categorizer.Prelude.{String, ◌≡◌, pair_eq, string_eq}
use ynab_auto_categorizer.Table.Batches.{merge_all}
use ynab_auto_categorizer.Mirror.{Mirror}
use ynab_auto_categorizer.Mirror.Rows.{Time}
use ynab_auto_categorizer.Mirror.Find.{
  account_row, transaction_row, whole_row, account_key, category_group_key, category_key, payee_key,
  transaction_key, subtransaction_key, month_key, month_category_key, scheduled_key,
  scheduled_sub_key, write_each-put_account, write_each-put_category_group, write_each-put_category,
  write_each-put_payee, write_each-put_transaction, write_each-put_subtransaction,
  write_each-put_month, write_each-put_month_category, write_each-put_scheduled,
  write_each-put_scheduled_sub,
}
use ynab_auto_categorizer.Sync.Mapping.{Batch}
use ynab_auto_categorizer.Sync.Tick.Plain.{written}

ruleset table_writes = (
  write_each-put_account, write_each-put_category_group, write_each-put_category,
  write_each-put_payee, write_each-put_transaction, write_each-put_subtransaction,
  write_each-put_month, write_each-put_month_category, write_each-put_scheduled,
  write_each-put_scheduled_sub,
)

module _ (plan : String) (b : Batch) (now : Time) where
  unfoldable pub merged : Mirror → Mirror
  merged m = record {
    accounts = merge_all (account_key plan) account_row b.accounts m.accounts;
    category_groups =
        merge_all (category_group_key plan) whole_row b.category_groups m.category_groups;
    categories = merge_all (category_key plan) whole_row b.categories m.categories;
    payees = merge_all (payee_key plan) whole_row b.payees m.payees;
    transactions =
        merge_all (transaction_key plan) (transaction_row now) b.transactions m.transactions;
    subtransactions = merge_all (subtransaction_key plan) whole_row b.subs m.subtransactions;
    months = merge_all (month_key plan) whole_row b.months m.months;
    month_categories =
        merge_all (month_category_key plan) whole_row b.month_cats m.month_categories;
    scheduled_transactions =
        merge_all (scheduled_key plan) whole_row b.scheduled m.scheduled_transactions;
    scheduled_subtransactions =
        merge_all (scheduled_sub_key plan) whole_row b.scheduled_subs m.scheduled_subtransactions;
    sync_state = m.sync_state;
  }

  pub written-merged : (m : Mirror) → written plan b now m ≡ merged m
  unfolding written merged
  written-merged m = simp table_writes
