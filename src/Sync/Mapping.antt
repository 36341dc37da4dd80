-- ===== src/Sync/Mapping.antt =====
-- sync/mapping.go: an export or a delta, mapped onto mirror rows.
pub mod Months
use ynab_auto_categorizer.Prelude.{ℤ, String, Option, none, some, List, [], ◌∷◌, ◌++◌, map}
use ynab_auto_categorizer.Mirror.Rows.{
  Periodic, Account, CategoryGroup, Category, Payee, Transaction, Subtransaction, Month,
  MonthCategory, ScheduledTransaction, ScheduledSubtransaction,
}
use ynab_auto_categorizer.Ynab.Api

pub record Batch : Type 0 where
  pub accounts : List Account
  pub category_groups : List CategoryGroup
  pub categories : List Category
  pub payees : List Payee
  pub transactions : List Transaction
  pub subs : List Subtransaction
  pub months : List Month
  pub month_cats : List MonthCategory
  pub scheduled : List ScheduledTransaction
  pub scheduled_subs : List ScheduledSubtransaction

-- A nil pointer stays nil, any other is copied with its type converted.
abbrev milli_ptr : Option ℤ → Option ℤ
milli_ptr none = none
milli_ptr (some m) = let v = m in some v

abbrev int_ptr : Option ℤ → Option ℤ
int_ptr none = none
int_ptr (some i) = let v = i in some v

abbrev str_ptr : Option String → Option String
str_ptr none = none
str_ptr (some s) = let v = s in some v

abbrev date_ptr : Option String → Option String
date_ptr none = none
date_ptr (some d) = let v = d in some v

-- An empty map is nil.
abbrev periodic : Periodic → Periodic
periodic [] = []
periodic ((k, v) ∷ p) = (k, v) ∷ periodic p

unfoldable pub map_account : Api.Account → Account
map_account a = record {
  id = a.id;
  name = a.name;
  type = a.type;
  on_budget = a.on_budget;
  closed = a.closed;
  note = a.note;
  balance = a.balance;
  cleared_balance = a.cleared_balance;
  uncleared_balance = a.uncleared_balance;
  transfer_payee_id = a.transfer_payee_id;
  direct_import_linked = a.direct_import_linked;
  direct_import_in_error = a.direct_import_in_error;
  last_reconciled_at = a.last_reconciled_at;
  debt_original_balance = milli_ptr a.debt_original_balance;
  debt_interest_rates = periodic a.debt_interest_rates;
  debt_minimum_payments = periodic a.debt_minimum_payments;
  debt_escrow_amounts = periodic a.debt_escrow_amounts;
  deleted = a.deleted;
}

unfoldable pub map_group : Api.CategoryGroup → CategoryGroup
map_group g = record {
  id = g.id;
  name = g.name;
  hidden = g.hidden;
  internal = g.internal;
  deleted = g.deleted;
}

unfoldable pub map_category : Api.CategoryBase → Category
map_category c = record {
  id = c.id;
  category_group_id = c.category_group_id;
  name = c.name;
  hidden = c.hidden;
  internal = c.internal;
  original_category_group_id = c.original_category_group_id;
  note = c.note;
  budgeted = c.budgeted;
  activity = c.activity;
  balance = c.balance;
  goal_type = str_ptr c.goal_type;
  goal_needs_whole_amount = c.goal_needs_whole_amount;
  goal_day = int_ptr c.goal_day;
  goal_cadence = int_ptr c.goal_cadence;
  goal_cadence_frequency = int_ptr c.goal_cadence_frequency;
  goal_creation_month = date_ptr c.goal_creation_month;
  goal_target = milli_ptr c.goal_target;
  goal_target_month = date_ptr c.goal_target_month;
  goal_target_date = date_ptr c.goal_target_date;
  goal_percentage_complete = int_ptr c.goal_percentage_complete;
  goal_months_to_budget = int_ptr c.goal_months_to_budget;
  goal_under_funded = milli_ptr c.goal_under_funded;
  goal_overall_funded = milli_ptr c.goal_overall_funded;
  goal_overall_left = milli_ptr c.goal_overall_left;
  goal_snoozed_at = c.goal_snoozed_at;
  deleted = c.deleted;
}

unfoldable pub map_payee : Api.Payee → Payee
map_payee x = record {
  id = x.id;
  name = x.name;
  transfer_account_id = x.transfer_account_id;
  deleted = x.deleted;
}

unfoldable pub map_transaction : Api.Transaction → Transaction
map_transaction t = record {
  id = t.id;
  date = t.date;
  amount = t.amount;
  memo = t.memo;
  cleared = t.cleared;
  approved = t.approved;
  flag_color = str_ptr t.flag_color;
  flag_name = t.flag_name;
  account_id = t.account_id;
  payee_id = t.payee_id;
  category_id = t.category_id;
  transfer_account_id = t.transfer_account_id;
  transfer_transaction_id = t.transfer_transaction_id;
  matched_transaction_id = t.matched_transaction_id;
  import_id = t.import_id;
  import_payee_name = t.import_payee_name;
  import_payee_name_original = t.import_payee_name_original;
  debt_transaction_type = str_ptr t.debt_transaction_type;
  deleted = t.deleted;
}

unfoldable pub map_sub : Api.Subtransaction → Subtransaction
map_sub s = record {
  id = s.id;
  transaction_id = s.transaction_id;
  amount = s.amount;
  memo = s.memo;
  payee_id = s.payee_id;
  category_id = s.category_id;
  transfer_account_id = s.transfer_account_id;
  transfer_transaction_id = s.transfer_transaction_id;
  deleted = s.deleted;
}

unfoldable pub map_month : Api.Month → Month
map_month m = record {
  month = m.month;
  note = m.note;
  income = m.income;
  budgeted = m.budgeted;
  activity = m.activity;
  to_be_budgeted = m.to_be_budgeted;
  age_of_money = int_ptr m.age_of_money;
  deleted = m.deleted;
}

unfoldable pub map_scheduled : Api.ScheduledTransaction → ScheduledTransaction
map_scheduled s = record {
  id = s.id;
  date_first = s.date_first;
  date_next = s.date_next;
  frequency = s.frequency;
  amount = s.amount;
  memo = s.memo;
  flag_color = str_ptr s.flag_color;
  flag_name = s.flag_name;
  account_id = s.account_id;
  payee_id = s.payee_id;
  category_id = s.category_id;
  transfer_account_id = s.transfer_account_id;
  deleted = s.deleted;
}

unfoldable pub map_scheduled_sub : Api.ScheduledSubtransaction → ScheduledSubtransaction
map_scheduled_sub s = record {
  id = s.id;
  scheduled_transaction_id = s.scheduled_transaction_id;
  amount = s.amount;
  memo = s.memo;
  payee_id = s.payee_id;
  category_id = s.category_id;
  transfer_account_id = s.transfer_account_id;
  deleted = s.deleted;
}

unfoldable pub map_month_category : String → Api.CategoryBase → MonthCategory
map_month_category month c = record {
  month = month;
  category_id = c.id;
  budgeted = c.budgeted;
  activity = c.activity;
  balance = c.balance;
  goal_target = milli_ptr c.goal_target;
  goal_under_funded = milli_ptr c.goal_under_funded;
  goal_overall_funded = milli_ptr c.goal_overall_funded;
  goal_overall_left = milli_ptr c.goal_overall_left;
  goal_percentage_complete = int_ptr c.goal_percentage_complete;
  deleted = c.deleted;
}

-- The two loops over the months: each month's categories carry its date.
unfoldable pub map_month_cats : List Api.Month → List MonthCategory
map_month_cats [] = []
map_month_cats (m ∷ ms) = map (map_month_category m.month) m.categories ++ map_month_cats ms

abbrev pub empty_batch : Batch
empty_batch = record {
  accounts = [];
  category_groups = [];
  categories = [];
  payees = [];
  transactions = [];
  subs = [];
  months = [];
  month_cats = [];
  scheduled = [];
  scheduled_subs = [];
}

-- `none` is a nil plan.
unfoldable pub map_plan : Option Api.PlanDetail → Batch
unfolding map_month_cats
map_plan none = empty_batch
map_plan (some p) = record {
  accounts = map map_account p.accounts;
  category_groups = map map_group p.category_groups;
  categories = map map_category p.categories;
  payees = map map_payee p.payees;
  transactions = map map_transaction p.transactions;
  subs = map map_sub p.subtransactions;
  months = map map_month p.months;
  month_cats = map_month_cats p.months;
  scheduled = map map_scheduled p.scheduled_transactions;
  scheduled_subs = map map_scheduled_sub p.scheduled_subtransactions;
}
