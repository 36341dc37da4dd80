-- ===== src/Tests/Archived.antt =====
-- cmd/app.go, syncArchived: the scan finds one plan of two, and the tick of it is the first.
use ynab_auto_categorizer.Prelude.{
  ℕ, ◌+◌, pos, String, Bool, true, false, ◌≡◌, refl, none, some, List, [], ◌∷◌, ok, err, driver,
  rate_limited, string_eq, ◌==◌,
}
use ynab_auto_categorizer.Sql.{
  Session, ◌>>=◌, lift, pure, query, exec, next, write_tx, end_tx, run, upsert, exec_each,
}
use ynab_auto_categorizer.Table.{find, merge, delete, replace}
use ynab_auto_categorizer.Mirror.{empty, keys_hold, put_sync_state}
use ynab_auto_categorizer.Mirror.Writes.{
  get_sync_state, update, upsert_accounts, upsert_category_groups, upsert_categories, upsert_payees,
  upsert_transactions, upsert_subtransactions, upsert_months, upsert_month_categories,
  upsert_scheduled_transactions, upsert_scheduled_subtransactions, set_sync_state,
}
use ynab_auto_categorizer.Scan.Category.{has_discretionary}
use ynab_auto_categorizer.Scan.Stored.{replace_plan_scans}
use ynab_auto_categorizer.Scan.Run.{
  Scanner, add_plan, PlanSummary, Fetched, scan_discretionary, scan_plans, store_scan,
}
use ynab_auto_categorizer.Sync.Mapping.{map_plan}
use ynab_auto_categorizer.Sync.Stitch.{stitch, keep_known, tombstones}
use ynab_auto_categorizer.Sync.Tick.{
  Syncer, sync_plan, after_fetch, fetch, apply_plan, events_unless, write_tick, upsert_batch,
  run_hook,
}
use ynab_auto_categorizer.Cmd.Archived.{Store, succeeds, sync_each, scanned_count, sync_archived}
use ynab_auto_categorizer.Cmd.Archived.Exact.{Runs, Runs-sync_archived}

-- "Discretionary"
abbrev spelled : List ℕ
spelled = 68 ∷ 105 ∷ 115 ∷ 99 ∷ 114 ∷ 101 ∷ 116 ∷ 105 ∷ 111 ∷ 110 ∷ 97 ∷ 114 ∷ 121 ∷ []

abbrev plan : String → PlanSummary
plan i = record { id = i; name = 65 ∷ [] }

abbrev answer : Bool → Fetched
answer true =
    Fetched.groups (
      record { deleted = false; categories = record { name = spelled; deleted = false } ∷ [] } ∷ [])
answer false = Fetched.failed (120 ∷ []) rate_limited

abbrev scanner : Scanner
scanner = record {
  plans = ok (plan "a" ∷ plan "b" ∷ []);
  client = λ i. answer (i == "a");
  ended = λ n. false;
  clock = λ n. 90;
}

abbrev syncer_at : ℕ → Syncer
syncer_at n = record {
  client = λ i. record {
    export = ok (none, pos 7);
    delta = λ sk. err driver;
    import_transactions = ok [];
  };
  now = 90 + n;
  before_cursor = none;
}

abbrev database : Session Store
database = record { db = record { mirror = empty; scans = [] }; stmt = 0; fault = λ n. false }

Runs-sync_archived_example :
    Runs scanner syncer_at database.db (sync_archived syncer_at scanner database)
Runs-sync_archived_example = Runs-sync_archived scanner syncer_at database

-- The failed scan of "b" makes the command fail, and "a" has its cursor.
reports_failure : succeeds (sync_archived syncer_at scanner database).0 ≡ false
unfolding sync_archived scan_discretionary scan_plans store_scan ◌>>=◌ lift pure query exec next
    replace_plan_scans write_tx end_tx run upsert exec_each add_plan has_discretionary merge delete
    scanned_count
reports_failure = refl

stores_cursor :
    find "a" (sync_archived syncer_at scanner database).1.db.mirror.sync_state
    ≡ some (record { plan_id = "a"; server_knowledge = pos 7; synced_at = 90 })
unfolding sync_archived scan_discretionary scan_plans store_scan ◌>>=◌ lift pure query exec next
    replace_plan_scans write_tx end_tx run upsert exec_each add_plan has_discretionary merge delete
    scanned_count sync_each sync_plan get_sync_state after_fetch fetch find apply_plan stitch
    keep_known map_plan tombstones events_unless update write_tick upsert_batch upsert_accounts
    upsert_category_groups upsert_categories upsert_payees upsert_transactions
    upsert_subtransactions upsert_months upsert_month_categories upsert_scheduled_transactions
    upsert_scheduled_subtransactions run_hook set_sync_state keys_hold put_sync_state replace
stores_cursor = refl
