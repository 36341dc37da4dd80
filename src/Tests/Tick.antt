-- ===== src/Tests/Tick.antt =====
-- sync/sync.go: a delta tick of one plan. The answer puts a linked account into error, deletes a split
-- transaction whose child is still live in the mirror, sends a new child with it and an orphan.
use ynab_auto_categorizer.Sync.Mapping.{map_plan, map_transaction, map_sub, map_account}
use ynab_auto_categorizer.Sync.Stitch.{
  stitch, keep_known, has, tombstones, live_subs, keep_or_count, bury, select_live,
}
use ynab_auto_categorizer.Mirror.Writes.{
  get_sync_state, update, upsert_accounts, upsert_category_groups, upsert_categories, upsert_payees,
  upsert_transactions, upsert_subtransactions, upsert_months, upsert_month_categories,
  upsert_scheduled_transactions, upsert_scheduled_subtransactions, set_sync_state,
}
use ynab_auto_categorizer.Prelude.{
  pos, String, Bool, true, false, ◌≡◌, refl, sym, none, some, [], ◌∷◌, ok, err, driver, pair_eq,
  string_eq, inl, ◌↔◌, Among, nat_beq, arith,
}
use ynab_auto_categorizer.Sql.{
  Session, ◌>>=◌, query, pure, write_tx, upsert, end_tx, exec, exec_each, next, run,
}
use ynab_auto_categorizer.Table.{find, replace, merge}
use ynab_auto_categorizer.Mirror
use ynab_auto_categorizer.Mirror.{
  Mirror, keys_hold, put_sync_state, put_subtransaction, put_transaction, put_account,
}
use ynab_auto_categorizer.Mirror.Rows
use ynab_auto_categorizer.Ynab.Api
use ynab_auto_categorizer.Ynab.Api.{PlanDetail}
use ynab_auto_categorizer.Sync.Tick.{
  Syncer, Tick, sync_plan, after_fetch, fetch, apply_plan, events_unless, write_tick, upsert_batch,
  run_hook, counts,
}
use ynab_auto_categorizer.Sync.Tick.Plain
use ynab_auto_categorizer.Sync.Tick.Plain.{new_events, synced, Refines-sync_plan}
use ynab_auto_categorizer.Sync.Tick.Success.{
  answer, Ended, reported_tick_ends, answered_tick_commits,
}
use ynab_auto_categorizer.Sync.Tick.Applied.{after_tick}
use ynab_auto_categorizer.Sync.Tick.Atomic.{failed_tick_unchanged}
use ynab_auto_categorizer.Sync.Tick.Buckets.{tag, tax_buckets_kept}
use ynab_auto_categorizer.Sync.Tick.Cursor.{next_tick_asks}
use mathlib.Core.Path.{subst}
use ynab_auto_categorizer.Sync.Freshness.{AccountFreshness, fresh_rows}
use ynab_auto_categorizer.Sync.Freshness.Exact.{Shown, Shown-fresh_rows}
use ynab_auto_categorizer.Mirror.{Key, TransactionRow}
use ynab_auto_categorizer.Sync.Tick.Isolation.{SamePlan, other_plans_unchanged}
use ynab_auto_categorizer.Sync.Tick.Deletions.{deleted_parent_keeps_no_old_child}
use ynab_auto_categorizer.Sync.Tick.Events.{link_events_are_changes, events_fire_once}
use ynab_auto_categorizer.Sync.Stitch.Plain.{stitched}
use ynab_auto_categorizer.Sync.Links.{LinkEvent, link_events, events_for, prior}
use ynab_auto_categorizer.Sync.Links.Events.{IsChange, event_of}
use ynab_auto_categorizer.Sql.Refines.{Refines}

-- A row of the mirror and what the library sends for it.
abbrev account : Bool → Api.Account
account in_error = record {
  id = "a1";
  name = "Checking";
  type = "checking";
  on_budget = true;
  closed = false;
  note = none;
  balance = pos 5000;
  cleared_balance = pos 5000;
  uncleared_balance = pos 0;
  transfer_payee_id = none;
  direct_import_linked = true;
  direct_import_in_error = in_error;
  last_reconciled_at = none;
  debt_original_balance = none;
  debt_interest_rates = [];
  debt_minimum_payments = [];
  debt_escrow_amounts = [];
  deleted = false;
}

abbrev old_account : Rows.Account
old_account = record {
  id = "a1";
  name = "Checking";
  type = "checking";
  on_budget = true;
  closed = false;
  note = none;
  balance = pos 5000;
  cleared_balance = pos 5000;
  uncleared_balance = pos 0;
  transfer_payee_id = none;
  direct_import_linked = true;
  direct_import_in_error = false;
  last_reconciled_at = none;
  debt_original_balance = none;
  debt_interest_rates = [];
  debt_minimum_payments = [];
  debt_escrow_amounts = [];
  deleted = false;
}

abbrev deleted_transaction : Api.Transaction
deleted_transaction = record {
  id = "t1";
  date = "2025-08-28";
  amount = pos 300;
  memo = none;
  cleared = "cleared";
  approved = true;
  flag_color = none;
  flag_name = none;
  account_id = "a1";
  payee_id = none;
  category_id = none;
  transfer_account_id = none;
  transfer_transaction_id = none;
  matched_transaction_id = none;
  import_id = none;
  import_payee_name = none;
  import_payee_name_original = none;
  debt_transaction_type = none;
  deleted = true;
}

abbrev old_transaction : Rows.Transaction
old_transaction = record {
  id = "t1";
  date = "2025-08-28";
  amount = pos 300;
  memo = none;
  cleared = "cleared";
  approved = true;
  flag_color = none;
  flag_name = none;
  account_id = "a1";
  payee_id = none;
  category_id = none;
  transfer_account_id = none;
  transfer_transaction_id = none;
  matched_transaction_id = none;
  import_id = none;
  import_payee_name = none;
  import_payee_name_original = none;
  debt_transaction_type = none;
  deleted = false;
}

abbrev child : String → String → Api.Subtransaction
child i parent = record {
  id = i;
  transaction_id = parent;
  amount = pos 100;
  memo = none;
  payee_id = none;
  category_id = none;
  transfer_account_id = none;
  transfer_transaction_id = none;
  deleted = false;
}

abbrev child_row : String → String → Rows.Subtransaction
child_row i parent = record {
  id = i;
  transaction_id = parent;
  amount = pos 100;
  memo = none;
  payee_id = none;
  category_id = none;
  transfer_account_id = none;
  transfer_transaction_id = none;
  deleted = false;
}

abbrev delta : PlanDetail
delta = record {
  accounts = account true ∷ [];
  category_groups = [];
  categories = [];
  payees = [];
  transactions = deleted_transaction ∷ [];
  subtransactions = child "s2" "t1" ∷ child "s9" "t9" ∷ [];
  months = [];
  scheduled_transactions = [];
  scheduled_subtransactions = [];
}

abbrev syncer : Syncer
syncer = record {
  client = λ plan. record {
    export = err driver;
    delta = λ k. ok (some delta, pos 8);
    import_transactions = err driver;
  };
  now = 70;
  before_cursor = none;
}

abbrev mirror : Mirror
mirror = record Mirror.empty {
  accounts = (("p", "a1"), record { account = old_account; tax_bucket = some "roth" }) ∷ [];
  transactions = (("p", "t1"), record { transaction = old_transaction; first_seen_at = 5 }) ∷ [];
  subtransactions = (("p", "s1"), child_row "s1" "t1") ∷ [];
  sync_state = ("p", record { plan_id = "p"; server_knowledge = pos 7; synced_at = 60 }) ∷ [];
}

abbrev session : Session Mirror
session = record { db = mirror; stmt = 0; fault = λ n. false }

abbrev report : Tick
report = record {
  initial = false;
  skipped = false;
  server_knowledge = pos 8;
  rows =
      ("accounts", 1)
      ∷ ("category_groups", 0)
      ∷ ("categories", 0)
      ∷ ("payees", 0)
      ∷ ("transactions", 1)
      ∷ ("subtransactions", 2)
      ∷ ("months", 0)
      ∷ ("month_categories", 0)
      ∷ ("scheduled_transactions", 0)
      ∷ ("scheduled_subtransactions", 0)
      ∷ [];
  orphans = 1;
  link_events = record { account_id = "a1"; account_name = "Checking"; in_error = true } ∷ [];
}

runs : (sync_plan syncer "p" session).0 ≡ ok report
unfolding sync_plan ◌>>=◌ get_sync_state query after_fetch fetch find apply_plan stitch keep_known
    map_plan has map_transaction map_sub pure tombstones live_subs events_unless link_events update
    write_tx write_tick upsert_batch upsert_accounts upsert upsert_category_groups upsert_categories
    upsert_payees upsert_transactions upsert_subtransactions keep_or_count bury select_live
    upsert_months upsert_month_categories upsert_scheduled_transactions
    upsert_scheduled_subtransactions run_hook set_sync_state keys_hold put_sync_state
    put_subtransaction replace put_transaction put_account counts events_for map_account prior
runs = refl

reported_tick_ends_example : Ended syncer "p" mirror report (sync_plan syncer "p" session).1.db
reported_tick_ends_example = reported_tick_ends syncer "p" session report runs

answered_tick_commits_example :
    let st = stitched "p" (map_plan (some delta)) mirror in
    ((sync_plan syncer "p" session).0
      ≡ ok (Plain.report false "p" (pos 8) st (new_events false "p" st.1 mirror)))
    × ((sync_plan syncer "p" session).1.db ≡ after_tick syncer "p" mirror (some delta) (pos 8))
    × (keys_hold (sync_plan syncer "p" session).1.db ≡ true)
unfolding find fetch keys_hold
answered_tick_commits_example =
    answered_tick_commits syncer "p" session (some delta) (pos 8) (λ n. refl) refl refl refl

-- A statement inside the write transaction fails.
abbrev failing : Session Mirror
failing = record { db = mirror; stmt = 0; fault = λ n. nat_beq n 12 }

fails : (sync_plan syncer "p" failing).0 ≡ err driver
unfolding sync_plan ◌>>=◌ get_sync_state query after_fetch fetch find apply_plan stitch keep_known
    map_plan has map_transaction map_sub pure tombstones live_subs events_unless link_events update
    write_tx write_tick upsert_batch upsert_accounts upsert upsert_category_groups upsert_categories
    upsert_payees upsert_transactions upsert_subtransactions keep_or_count bury select_live
    upsert_months upsert_month_categories upsert_scheduled_transactions
    upsert_scheduled_subtransactions run_hook set_sync_state keys_hold put_sync_state
    put_subtransaction replace put_transaction put_account counts events_for map_account prior
    end_tx exec exec_each next run merge
fails = refl

failed_tick_unchanged_example : (sync_plan syncer "p" failing).1.db ≡ mirror
failed_tick_unchanged_example = failed_tick_unchanged syncer "p" failing driver fails

other_plans_unchanged_example : SamePlan "q" mirror (sync_plan syncer "p" session).1.db
other_plans_unchanged_example =
    other_plans_unchanged syncer "p" "q" session (λ e. ground (arith, string_eq.beq_iff "q" "p"))

abbrev deleted_row : Rows.Transaction
deleted_row = record old_transaction { deleted = true }

stored_child :
    find ("p", "s2") (sync_plan syncer "p" session).1.db.subtransactions
    ≡ some (child_row "s2" "t1")
unfolding sync_plan ◌>>=◌ get_sync_state query after_fetch fetch find apply_plan stitch keep_known
    map_plan has map_transaction map_sub pure tombstones live_subs events_unless link_events update
    write_tx write_tick upsert_batch upsert_accounts upsert upsert_category_groups upsert_categories
    upsert_payees upsert_transactions upsert_subtransactions keep_or_count bury select_live
    upsert_months upsert_month_categories upsert_scheduled_transactions
    upsert_scheduled_subtransactions run_hook set_sync_state keys_hold put_sync_state
    put_subtransaction replace put_transaction put_account counts events_for map_account prior
    end_tx exec exec_each next run merge
stored_child = refl

deleted_parent_keeps_no_old_child_example : Among (child_row "s2" "t1") (map_plan (some delta)).subs
unfolding fetch find map_plan map_transaction
deleted_parent_keeps_no_old_child_example =
    deleted_parent_keeps_no_old_child syncer "p" session report (some delta) (pos 8) deleted_row
      "s2" (child_row "s2" "t1") refl runs (inl refl) refl stored_child refl refl

abbrev event : LinkEvent
event = record { account_id = "a1"; account_name = "Checking"; in_error = true }

link_events_are_changes_example : Among event report.link_events ↔ (
    (a : Rows.Account) × Among a (map_plan (some delta)).accounts
    × IsChange (prior "p" mirror) a
    × (event ≡ event_of a))
unfolding fetch find
link_events_are_changes_example =
    link_events_are_changes syncer "p" session report (some delta) (pos 8) refl runs event refl

events_fire_once_example :
    events_for (prior "p" (sync_plan syncer "p" session).1.db) (map_plan (some delta)).accounts ≡ []
unfolding fetch find map_plan
events_fire_once_example =
    events_fire_once syncer "p" session report (some delta) (pos 8) refl runs (refl, tt)

Refines-sync_plan_example : Refines (sync_plan syncer "p") (synced syncer "p")
Refines-sync_plan_example = Refines-sync_plan syncer "p"

tax_buckets_kept_example :
    tag ("p", "a1") (sync_plan syncer "p" session).1.db ≡ tag ("p", "a1") mirror
tax_buckets_kept_example = tax_buckets_kept syncer "p" session ("p", "a1")

next_tick_asks_example :
    answer syncer "p" (sync_plan syncer "p" session).1.db ≡ (syncer.client "p").delta (pos 8)
unfolding fetch find
next_tick_asks_example =
    next_tick_asks syncer syncer "p" session report (some delta) (pos 8) refl runs

-- The account of the mirror with one imported transaction.
abbrev imported : Key × TransactionRow
imported = (
  ("p", "t1"),
  record { transaction = record old_transaction { import_id = some "i1" }; first_seen_at = 5 },
)

abbrev with_import : Mirror
with_import = record mirror { transactions = imported ∷ [] }

abbrev listed_account : AccountFreshness
listed_account = record {
  account_id = "a1";
  name = "Checking";
  closed = false;
  linked = true;
  in_error = false;
  newest_import_date = "2025-08-28";
  last_import_seen_at = some 5;
  synced_at = 60;
}

lists_account : fresh_rows "p" 60 with_import ≡ listed_account ∷ []
unfolding fresh_rows
lists_account = refl

Shown-fresh_rows_example : Shown "p" 60 with_import listed_account
Shown-fresh_rows_example =
    Shown-fresh_rows "p" 60 with_import listed_account
      (subst (Among listed_account) (sym lists_account) (inl refl))
