-- ===== src/Tests/Scan.antt =====
-- sync/mirror.go, ScanDiscretionary: one plan has the category, the other cannot be fetched, and the
-- text of its error names an id.
use ynab_auto_categorizer.Prelude.{
  Bool, true, false, ◌≡◌, refl, none, some, List, [], ◌∷◌, ◌++◌, ok, rate_limited, string_eq, ◌==◌,
}
use ynab_auto_categorizer.Sql.{Session, ◌>>=◌, lift, write_tx, run, upsert}
use ynab_auto_categorizer.Table.{find, merge, delete}
use ynab_auto_categorizer.Scan.Redaction.{Text, redact, placeholder, fits}
use ynab_auto_categorizer.Scan.Redaction.Exact.{Redacted, HasId, Redacted-redact}
use ynab_auto_categorizer.Scan.Category.{has_discretionary}
use ynab_auto_categorizer.Scan.Stored.{PlanScan, Scans, replace_plan_scans, put_scan, scan_row}
use ynab_auto_categorizer.Scan.Replacement.{Replaced, replace_plan_scans-Replaced}
use ynab_auto_categorizer.Scan.Run.{
  Scanner, add_plan, PlanSummary, Fetched, ScanError, scan_discretionary,
}
use ynab_auto_categorizer.Scan.Ends.{HasScanned, scan_ends}

-- "{" and an id "01234567-89ab-cdef-0123-456789abcdef" and "}"
abbrev quoted_id : Text
quoted_id =
    123 ∷ 48 ∷ 49 ∷ 50 ∷ 51 ∷ 52 ∷ 53 ∷ 54 ∷ 55 ∷ 45 ∷ 56 ∷ 57 ∷ 97 ∷ 98 ∷ 45 ∷ 99 ∷ 100 ∷ 101 ∷ 102
    ∷ 45 ∷ 48 ∷ 49 ∷ 50 ∷ 51 ∷ 45 ∷ 52 ∷ 53 ∷ 54 ∷ 55 ∷ 56 ∷ 57 ∷ 97 ∷ 98 ∷ 99 ∷ 100 ∷ 101 ∷ 102
    ∷ 125 ∷ []

redacts : redact quoted_id ≡ 123 ∷ (placeholder ++ 125 ∷ [])
unfolding redact fits
redacts = refl

Redacted-redact_example : Redacted quoted_id (redact quoted_id) × (¬ (HasId (redact quoted_id)))
Redacted-redact_example = Redacted-redact quoted_id

-- " Discretionary"
abbrev spelled : Text
spelled = 32 ∷ 68 ∷ 105 ∷ 115 ∷ 99 ∷ 114 ∷ 101 ∷ 116 ∷ 105 ∷ 111 ∷ 110 ∷ 97 ∷ 114 ∷ 121 ∷ []

abbrev archive : PlanSummary
archive = record { id = "a"; name = 65 ∷ [] }

abbrev broken : PlanSummary
broken = record { id = "b"; name = 66 ∷ [] }

abbrev answer : Bool → Fetched
answer true =
    Fetched.groups (
      record { deleted = false; categories = record { name = spelled; deleted = false } ∷ [] } ∷ [])
answer false = Fetched.failed quoted_id rate_limited

abbrev scanner : Scanner
scanner = record {
  plans = ok (archive ∷ broken ∷ []);
  client = λ i. answer (i == "a");
  ended = λ n. false;
  clock = λ n. 90;
}

abbrev stored : Scans
stored =
    (
      "b",
      record { name = 66 ∷ []; has_discretionary = some true; scan_error = none; scanned_at = 10 },
    )
    ∷ (
      "c",
      record { name = 67 ∷ []; has_discretionary = some false; scan_error = none; scanned_at = 10 },
    )
    ∷ []

abbrev session : Session Scans
session = record { db = stored; stmt = 0; fault = λ n. false }

abbrev failures : ScanError
failures = record {
  scanned = 2;
  failures = record { name = 66 ∷ []; text = redact quoted_id; cause = rate_limited } ∷ [];
}

scans : (scan_discretionary scanner session).0 ≡ ok (archive ∷ [], some failures)
unfolding scan_discretionary ◌>>=◌ lift replace_plan_scans write_tx run upsert add_plan
    has_discretionary
scans = refl

scan_ends_example :
    HasScanned scanner
      (archive ∷ broken ∷ [])
      stored
      (scan_discretionary scanner session).1.db
      (archive ∷ [])
      (some failures)
scan_ends_example =
    scan_ends scanner session (archive ∷ []) (some failures) (archive ∷ broken ∷ []) refl scans

-- The plan that failed keeps the verdict of its last good scan.
keeps_verdict :
    find "b" (scan_discretionary scanner session).1.db
    ≡ some (record {
      name = 66 ∷ [];
      has_discretionary = some true;
      scan_error = some (redact quoted_id);
      scanned_at = 10;
    })
unfolding find scan_discretionary ◌>>=◌ lift replace_plan_scans write_tx run upsert add_plan
    put_scan merge delete scan_row redact fits
keeps_verdict = refl

abbrev scan_rows : List PlanScan
scan_rows =
    record {
      plan_id = "b";
      name = 66 ∷ [];
      has_discretionary = false;
      scan_error = 120 ∷ [];
      scanned_at = 95;
    }
    ∷ []

replace_plan_scans-Replaced_example :
    Replaced scan_rows stored (replace_plan_scans scan_rows session)
replace_plan_scans-Replaced_example = replace_plan_scans-Replaced scan_rows session (refl, tt)
