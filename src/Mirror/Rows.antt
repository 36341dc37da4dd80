-- ===== src/Mirror/Rows.antt =====
-- store/mirror.go: the mirror's row types. Money is milliunits, a date is its text "YYYY-MM-DD" and a
-- nil pointer is `none`.
use ynab_auto_categorizer.Prelude.{ℕ, ℤ, Bool, String, Option, List}

-- A time.Time in UTC, as nanoseconds from Go's zero time. `formatTime` writes it with a fixed width,
-- so that the stored texts are ordered as the times are: the number stands for the text too.
abbrev pub Time : Type 0
Time = ℕ

-- A map from an effective date to milliunits, as encoding/json writes it: sorted by key.
abbrev pub Periodic : Type 0
Periodic = List (String × ℤ)

pub record Account : Type 0 where
  pub id : String
  pub name : String
  pub type : String
  pub on_budget : Bool
  pub closed : Bool
  pub note : Option String
  pub balance : ℤ
  pub cleared_balance : ℤ
  pub uncleared_balance : ℤ
  pub transfer_payee_id : Option String
  pub direct_import_linked : Bool
  pub direct_import_in_error : Bool
  pub last_reconciled_at : Option Time
  pub debt_original_balance : Option ℤ
  pub debt_interest_rates : Periodic
  pub debt_minimum_payments : Periodic
  pub debt_escrow_amounts : Periodic
  pub deleted : Bool

pub record CategoryGroup : Type 0 where
  pub id : String
  pub name : String
  pub hidden : Bool
  pub internal : Bool
  pub deleted : Bool

pub record Category : Type 0 where
  pub id : String
  pub category_group_id : String
  pub name : String
  pub hidden : Bool
  pub internal : Bool
  pub original_category_group_id : Option String
  pub note : Option String
  pub budgeted : ℤ
  pub activity : ℤ
  pub balance : ℤ
  pub goal_type : Option String
  pub goal_needs_whole_amount : Option Bool
  pub goal_day : Option ℤ
  pub goal_cadence : Option ℤ
  pub goal_cadence_frequency : Option ℤ
  pub goal_creation_month : Option String
  pub goal_target : Option ℤ
  pub goal_target_month : Option String
  pub goal_target_date : Option String
  pub goal_percentage_complete : Option ℤ
  pub goal_months_to_budget : Option ℤ
  pub goal_under_funded : Option ℤ
  pub goal_overall_funded : Option ℤ
  pub goal_overall_left : Option ℤ
  pub goal_snoozed_at : Option Time
  pub deleted : Bool

pub record Payee : Type 0 where
  pub id : String
  pub name : String
  pub transfer_account_id : Option String
  pub deleted : Bool

pub record Transaction : Type 0 where
  pub id : String
  pub date : String
  pub amount : ℤ
  pub memo : Option String
  pub cleared : String
  pub approved : Bool
  pub flag_color : Option String
  pub flag_name : Option String
  pub account_id : String
  pub payee_id : Option String
  pub category_id : Option String
  pub transfer_account_id : Option String
  pub transfer_transaction_id : Option String
  pub matched_transaction_id : Option String
  pub import_id : Option String
  pub import_payee_name : Option String
  pub import_payee_name_original : Option String
  pub debt_transaction_type : Option String
  pub deleted : Bool

pub record Subtransaction : Type 0 where
  pub id : String
  pub transaction_id : String
  pub amount : ℤ
  pub memo : Option String
  pub payee_id : Option String
  pub category_id : Option String
  pub transfer_account_id : Option String
  pub transfer_transaction_id : Option String
  pub deleted : Bool

pub record Month : Type 0 where
  pub month : String
  pub note : Option String
  pub income : ℤ
  pub budgeted : ℤ
  pub activity : ℤ
  pub to_be_budgeted : ℤ
  pub age_of_money : Option ℤ
  pub deleted : Bool

pub record MonthCategory : Type 0 where
  pub month : String
  pub category_id : String
  pub budgeted : ℤ
  pub activity : ℤ
  pub balance : ℤ
  pub goal_target : Option ℤ
  pub goal_under_funded : Option ℤ
  pub goal_overall_funded : Option ℤ
  pub goal_overall_left : Option ℤ
  pub goal_percentage_complete : Option ℤ
  pub deleted : Bool

pub record ScheduledTransaction : Type 0 where
  pub id : String
  pub date_first : String
  pub date_next : String
  pub frequency : String
  pub amount : ℤ
  pub memo : Option String
  pub flag_color : Option String
  pub flag_name : Option String
  pub account_id : String
  pub payee_id : Option String
  pub category_id : Option String
  pub transfer_account_id : Option String
  pub deleted : Bool

pub record ScheduledSubtransaction : Type 0 where
  pub id : String
  pub scheduled_transaction_id : String
  pub amount : ℤ
  pub memo : Option String
  pub payee_id : Option String
  pub category_id : Option String
  pub transfer_account_id : Option String
  pub deleted : Bool

pub record SyncState : Type 0 where
  pub plan_id : String
  pub server_knowledge : ℤ
  pub synced_at : Time
