-- ===== src/Mirror/Find.antt =====
-- store/mirror.go: each upsert writes its rows into its own table and leaves the others.
use ynab_auto_categorizer.Prelude.{String, ◌≡◌, refl, Option, List, [], ◌∷◌, pair_eq, string_eq}
use ynab_auto_categorizer.Sql.Refines.{write_each}
use ynab_auto_categorizer.Table.{replace}
use ynab_auto_categorizer.Table.Batches.{merge_all}
use ynab_auto_categorizer.Mirror.{
  Key, Mirror, AccountRow, TransactionRow, bucket_of, seen_at, put_account, put_category_group,
  put_category, put_payee, put_transaction, put_subtransaction, put_month, put_month_category,
  put_scheduled, put_scheduled_sub,
}
use ynab_auto_categorizer.Mirror.Rows.{
  Time, Account, CategoryGroup, Category, Payee, Transaction, Subtransaction, Month, MonthCategory,
  ScheduledTransaction, ScheduledSubtransaction,
}

-- The row made of a new row and the one in conflict.
abbrev pub account_row : Account → Option AccountRow → AccountRow
account_row a old = record { account = a; tax_bucket = bucket_of old }

abbrev pub transaction_row : Time → Transaction → Option TransactionRow → TransactionRow
transaction_row now x old = record { transaction = x; first_seen_at = seen_at now x old }

abbrev pub whole_row : {R : Type 0} → R → Option R → R
whole_row r old = r

module _ (plan : String) where
  abbrev pub account_key : Account → Key
  account_key r = (plan, r.id)

  abbrev pub category_group_key : CategoryGroup → Key
  category_group_key r = (plan, r.id)

  abbrev pub category_key : Category → Key
  category_key r = (plan, r.id)

  abbrev pub payee_key : Payee → Key
  payee_key r = (plan, r.id)

  abbrev pub transaction_key : Transaction → Key
  transaction_key r = (plan, r.id)

  abbrev pub subtransaction_key : Subtransaction → Key
  subtransaction_key r = (plan, r.id)

  abbrev pub month_key : Month → Key
  month_key r = (plan, r.month)

  abbrev pub month_category_key : MonthCategory → Key × String
  month_category_key r = ((plan, r.month), r.category_id)

  abbrev pub scheduled_key : ScheduledTransaction → Key
  scheduled_key r = (plan, r.id)

  abbrev pub scheduled_sub_key : ScheduledSubtransaction → Key
  scheduled_sub_key r = (plan, r.id)

  pub write_each-put_account :
      (rs : List Account) (m : Mirror)
      → write_each (put_account plan) rs m
        ≡ record m { accounts = merge_all account_key account_row rs m.accounts }
  unfolding put_account merge_all
  write_each-put_account [] m = refl
  write_each-put_account (r ∷ rs) m = write_each-put_account rs (put_account plan r m)

  pub write_each-put_category_group :
      (rs : List CategoryGroup) (m : Mirror)
      → write_each (put_category_group plan) rs m
        ≡ record m { category_groups = merge_all category_group_key whole_row rs m.category_groups }
  unfolding put_category_group merge_all replace
  write_each-put_category_group [] m = refl
  write_each-put_category_group (r ∷ rs) m =
      write_each-put_category_group rs (put_category_group plan r m)

  pub write_each-put_category :
      (rs : List Category) (m : Mirror)
      → write_each (put_category plan) rs m
        ≡ record m { categories = merge_all category_key whole_row rs m.categories }
  unfolding put_category merge_all replace
  write_each-put_category [] m = refl
  write_each-put_category (r ∷ rs) m = write_each-put_category rs (put_category plan r m)

  pub write_each-put_payee :
      (rs : List Payee) (m : Mirror)
      → write_each (put_payee plan) rs m
        ≡ record m { payees = merge_all payee_key whole_row rs m.payees }
  unfolding put_payee merge_all replace
  write_each-put_payee [] m = refl
  write_each-put_payee (r ∷ rs) m = write_each-put_payee rs (put_payee plan r m)

  pub write_each-put_transaction :
      (now : Time) (rs : List Transaction) (m : Mirror)
      → write_each (put_transaction plan now) rs m ≡ record m {
        transactions = merge_all transaction_key (transaction_row now) rs m.transactions;
      }
  unfolding put_transaction merge_all
  write_each-put_transaction now [] m = refl
  write_each-put_transaction now (r ∷ rs) m =
      write_each-put_transaction now rs (put_transaction plan now r m)

  pub write_each-put_subtransaction :
      (rs : List Subtransaction) (m : Mirror)
      → write_each (put_subtransaction plan) rs m
        ≡ record m { subtransactions = merge_all subtransaction_key whole_row rs m.subtransactions }
  unfolding put_subtransaction merge_all replace
  write_each-put_subtransaction [] m = refl
  write_each-put_subtransaction (r ∷ rs) m =
      write_each-put_subtransaction rs (put_subtransaction plan r m)

  pub write_each-put_month :
      (rs : List Month) (m : Mirror)
      → write_each (put_month plan) rs m
        ≡ record m { months = merge_all month_key whole_row rs m.months }
  unfolding put_month merge_all replace
  write_each-put_month [] m = refl
  write_each-put_month (r ∷ rs) m = write_each-put_month rs (put_month plan r m)

  pub write_each-put_month_category :
      (rs : List MonthCategory) (m : Mirror)
      → write_each (put_month_category plan) rs m ≡ record m {
        month_categories = merge_all month_category_key whole_row rs m.month_categories;
      }
  unfolding put_month_category merge_all replace
  write_each-put_month_category [] m = refl
  write_each-put_month_category (r ∷ rs) m =
      write_each-put_month_category rs (put_month_category plan r m)

  pub write_each-put_scheduled :
      (rs : List ScheduledTransaction) (m : Mirror)
      → write_each (put_scheduled plan) rs m ≡ record m {
        scheduled_transactions = merge_all scheduled_key whole_row rs m.scheduled_transactions;
      }
  unfolding put_scheduled merge_all replace
  write_each-put_scheduled [] m = refl
  write_each-put_scheduled (r ∷ rs) m = write_each-put_scheduled rs (put_scheduled plan r m)

  pub write_each-put_scheduled_sub :
      (rs : List ScheduledSubtransaction) (m : Mirror)
      → write_each (put_scheduled_sub plan) rs m ≡ record m {
        scheduled_subtransactions =
            merge_all scheduled_sub_key whole_row rs m.scheduled_subtransactions;
      }
  unfolding put_scheduled_sub merge_all replace
  write_each-put_scheduled_sub [] m = refl
  write_each-put_scheduled_sub (r ∷ rs) m =
      write_each-put_scheduled_sub rs (put_scheduled_sub plan r m)
