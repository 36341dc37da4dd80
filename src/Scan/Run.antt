-- ===== src/Scan/Run.antt =====
-- sync/mirror.go, ScanDiscretionary.
use ynab_auto_categorizer.Prelude.{
  ℕ, suc, String, Bool, false, Option, none, some, List, [], ◌∷◌, Error, Result, ok, err, cancelled,
  length, if◌then◌else◌, string_eq,
}
use ynab_auto_categorizer.Sql.{Sql, pure, lift, ◌>>=◌}
use ynab_auto_categorizer.Mirror.Rows.{Time}
use ynab_auto_categorizer.Scan.Redaction.{Text, redact}
use ynab_auto_categorizer.Scan.Category.{Group, has_discretionary}
use ynab_auto_categorizer.Scan.Stored.{PlanScan, Scans, replace_plan_scans}

-- ynab.PlanSummary, the fields that are read.
pub record PlanSummary : Type 0 where
  pub id : String
  pub name : Text

-- What GetCategories gives: the groups, or an error and its text.
pub data Fetched : Type 0 where
  groups : List Group → Fetched
  failed : Text → Error → Fetched

-- What the scan meets: the plan list, the answer for each plan, whether ctx has ended before the
-- n-th plan, and the clock after it was asked for.
pub record Scanner : Type 0 where
  pub plans : Result (List PlanSummary)
  pub client : String → Fetched
  pub ended : ℕ → Bool
  pub clock : ℕ → Time

pub record PlanScanFailure : Type 0 where
  pub name : Text
  pub text : Text
  pub cause : Error

pub record ScanError : Type 0 where
  pub scanned : ℕ
  pub failures : List PlanScanFailure

-- The plans found, the rows to store and the failures.
pub record Scanned : Type 0 where
  pub out : List PlanSummary
  pub rows : List PlanScan
  pub failures : List PlanScanFailure

abbrev row_of : PlanSummary → Time → Bool → Text → PlanScan
row_of p at has text = record {
  plan_id = p.id;
  name = p.name;
  has_discretionary = has;
  scan_error = text;
  scanned_at = at;
}

-- One turn of the loop, before the later ones.
unfoldable pub add_plan : PlanSummary → Time → Fetched → Scanned → Scanned
add_plan p at (groups gs) later = record {
  out = if has_discretionary gs then p ∷ later.out else later.out;
  rows = row_of p at (has_discretionary gs) [] ∷ later.rows;
  failures = later.failures;
}
add_plan p at (failed text e) later = record {
  out = later.out;
  rows = row_of p at false (redact text) ∷ later.rows;
  failures = record { name = p.name; text = redact text; cause = e } ∷ later.failures;
}

abbrev pub add_result : PlanSummary → Time → Fetched → Result Scanned → Result Scanned
add_result p at answer (ok later) = ok (add_plan p at answer later)
add_result p at answer (err e) = err e

unfoldable pub scan_plans : Scanner → ℕ → List PlanSummary → Result Scanned
scan_plans s n [] = ok (record { out = []; rows = []; failures = [] })
scan_plans s n (p ∷ ps) =
    let later = scan_plans s (suc n) ps in
    if s.ended n then err cancelled else add_result p (s.clock n) (s.client p.id) later

abbrev pub report : ℕ → List PlanScanFailure → Option ScanError
report n [] = none
report n (f ∷ fs) = some (record { scanned = n; failures = f ∷ fs })

abbrev pub finish : ℕ → Scanned → Unit {0} → Sql Scans (List PlanSummary × Option ScanError)
finish n r u = pure (r.out, report n r.failures)

unfoldable pub store_scan : ℕ → Scanned → Sql Scans (List PlanSummary × Option ScanError)
store_scan n r = replace_plan_scans r.rows >>= finish n r

unfoldable pub scan_discretionary : Scanner → Sql Scans (List PlanSummary × Option ScanError)
unfolding store_scan scan_plans
scan_discretionary s =
    lift s.plans >>= λ plans. lift (scan_plans s 0 plans) >>= store_scan (length plans)
