-- ===== src/Mirror/Writes.antt =====
-- store/mirror.go: the statements of a write transaction and the reads beside it.
use ynab_auto_categorizer.Prelude.{
  String, Bool, true, false, Option, List, ok, err, account_not_found, pair_eq, string_eq,
}
use ynab_auto_categorizer.Sql.{Sql, exec, query, run, lift, upsert, write_tx, ◌>>=◌}
use ynab_auto_categorizer.Table.{find, modify}
use ynab_auto_categorizer.Mirror.Rows.{
  Time, Account, CategoryGroup, Category, Payee, Transaction, Subtransaction, Month, MonthCategory,
  ScheduledTransaction, ScheduledSubtransaction, SyncState,
}
use ynab_auto_categorizer.Mirror.{
  Mirror, keys_hold, put_account, put_category_group, put_category, put_payee, put_transaction,
  put_subtransaction, put_month, put_month_category, put_scheduled, put_scheduled_sub,
  put_sync_state,
}

abbrev pub Tx : Type 0
Tx = Sql Mirror (Unit {0})

module _ (plan : String) where
  unfoldable pub upsert_accounts : List Account → Tx
  upsert_accounts = upsert (put_account plan)

  unfoldable pub upsert_category_groups : List CategoryGroup → Tx
  upsert_category_groups = upsert (put_category_group plan)

  unfoldable pub upsert_categories : List Category → Tx
  upsert_categories = upsert (put_category plan)

  unfoldable pub upsert_payees : List Payee → Tx
  upsert_payees = upsert (put_payee plan)

  unfoldable pub upsert_transactions : List Transaction → Time → Tx
  upsert_transactions rows synced_at = upsert (put_transaction plan synced_at) rows

  unfoldable pub upsert_subtransactions : List Subtransaction → Tx
  upsert_subtransactions = upsert (put_subtransaction plan)

  unfoldable pub upsert_months : List Month → Tx
  upsert_months = upsert (put_month plan)

  unfoldable pub upsert_month_categories : List MonthCategory → Tx
  upsert_month_categories = upsert (put_month_category plan)

  unfoldable pub upsert_scheduled_transactions : List ScheduledTransaction → Tx
  upsert_scheduled_transactions = upsert (put_scheduled plan)

  unfoldable pub upsert_scheduled_subtransactions : List ScheduledSubtransaction → Tx
  upsert_scheduled_subtransactions = upsert (put_scheduled_sub plan)

  found_or_error : Bool → Tx
  found_or_error true = lift (ok tt)
  found_or_error false = lift (err account_not_found)

  set_tax_bucket : String → Option String → Mirror → Bool × Mirror
  set_tax_bucket account bucket m =
      let (changed, t) =
        modify (plan, account) (λ r. record r { tax_bucket = bucket }) m.accounts in
      (changed, record m { accounts = t })

  unfoldable pub set_account_tax_bucket : String → Option String → Tx
  unfolding set_tax_bucket found_or_error
  set_account_tax_bucket account bucket = exec (set_tax_bucket account bucket) >>= found_or_error

  unfoldable pub get_sync_state : Sql Mirror (Option SyncState)
  get_sync_state = query (λ m. find plan m.sync_state)

unfoldable pub set_sync_state : SyncState → Tx
set_sync_state s = run (put_sync_state s)

-- DB.Update
unfoldable pub update : Tx → Tx
update = write_tx keys_hold

-- DB.SetSyncState
unfoldable pub set_sync_state_alone : SyncState → Tx
unfolding set_sync_state update
set_sync_state_alone s = update (set_sync_state s)
