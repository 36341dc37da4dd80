-- ===== src/Scan/Stored.antt =====
-- store/planscan.go: the stored result of the scan.
use Prim.Native.String.{compare}
use Prim.Native.Nat.{Ordering}
use ynab_auto_categorizer.Prelude.{
  ◌&&◌, ltb, nat_beq, String, Bool, true, false, not, Option, none, some, List, [], ◌∷◌, map,
  contains, string_eq, if◌then◌else◌, ◌||◌,
}
use ynab_auto_categorizer.Sql.{Sql, run, upsert, write_tx, query, ◌>>◌}
use ynab_auto_categorizer.Table.{Table, merge, delete}
use ynab_auto_categorizer.Mirror.Rows.{Time}
use ynab_auto_categorizer.Scan.Redaction.{Text}

-- An empty `scan_error` means that the latest scan succeeded.
pub record PlanScan : Type 0 where
  pub plan_id : String
  pub name : Text
  pub has_discretionary : Bool
  pub scan_error : Text
  pub scanned_at : Time

-- A row of plan_scan, under its plan_id.
pub record ScanRow : Type 0 where
  pub name : Text
  pub has_discretionary : Option Bool
  pub scan_error : Option Text
  pub scanned_at : Time

abbrev pub Scans : Type 0
Scans = Table String ScanRow

-- ON CONFLICT (plan_id) DO UPDATE: a failed scan keeps the verdict and the time.
abbrev failed_row : PlanScan → Option ScanRow → ScanRow
failed_row p none = record {
  name = p.name;
  has_discretionary = none;
  scan_error = some p.scan_error;
  scanned_at = p.scanned_at;
}
failed_row p (some old) = record {
  name = p.name;
  has_discretionary = old.has_discretionary;
  scan_error = some p.scan_error;
  scanned_at = old.scanned_at;
}

abbrev empty : Text → Bool
empty [] = true
empty (c ∷ cs) = false

unfoldable pub scan_row : PlanScan → Option ScanRow → ScanRow
scan_row p old =
    if empty p.scan_error
    then record {
      name = p.name;
      has_discretionary = some p.has_discretionary;
      scan_error = none;
      scanned_at = p.scanned_at;
    }
    else failed_row p old

unfoldable pub put_scan : PlanScan → Scans → Scans
put_scan p t = merge p.plan_id (scan_row p) t

abbrev pub unlisted : List String → String → ScanRow → Bool
unlisted ids k r = not (contains k ids)

unfoldable pub replace_plan_scans : List PlanScan → Sql Scans (Unit {0})
replace_plan_scans rows =
    write_tx (λ _. true)
      (run (delete (unlisted (map (λ p. p.plan_id) rows))) >> upsert put_scan rows)

-- A NULL reads as false, and as no error.
abbrev verdict : Option Bool → Bool
verdict none = false
verdict (some b) = b

abbrev error_text : Option Text → Text
error_text none = []
error_text (some t) = t

abbrev shown : String × ScanRow → PlanScan
shown (i, r) = record {
  plan_id = i;
  name = r.name;
  has_discretionary = verdict r.has_discretionary;
  scan_error = error_text r.scan_error;
  scanned_at = r.scanned_at;
}

-- SQLite compares texts byte by byte, which in UTF-8 is the order of the code points.
unfoldable pub text_before : Text → Text → Bool
text_before xs [] = false
text_before [] (d ∷ ds) = true
text_before (c ∷ cs) (d ∷ ds) = ltb c d || (nat_beq c d && text_before cs ds)

abbrev id_before : String → String → Bool
id_before a b = elim (compare a b) [ Ordering.lt ↦ true | _ ↦ false ]

abbrev pub scan_before : PlanScan → PlanScan → Bool
scan_before p q =
    text_before p.name q.name || (not (text_before q.name p.name) && id_before p.plan_id q.plan_id)

unfoldable pub insert_scan : PlanScan → List PlanScan → List PlanScan
unfolding text_before
insert_scan p [] = p ∷ []
insert_scan p (q ∷ qs) =
    let later = insert_scan p qs in if scan_before p q then p ∷ q ∷ qs else q ∷ later

unfoldable pub sort_scans : List PlanScan → List PlanScan
unfolding insert_scan
sort_scans [] = []
sort_scans (p ∷ ps) = insert_scan p (sort_scans ps)

-- ORDER BY name, plan_id
unfoldable pub plan_scans : Sql Scans (List PlanScan)
unfolding sort_scans
plan_scans = query (λ t. sort_scans (map shown t))
