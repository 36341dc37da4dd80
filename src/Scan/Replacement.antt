-- ===== src/Scan/Replacement.antt =====
-- store/planscan.go, ReplacePlanScans: what it leaves in the table.
use mathlib.Core.Path.{subst}
use ynab_auto_categorizer.Scan.Redaction.{Text}
use ynab_auto_categorizer.Prelude.{
  String, true, false, ◌≡◌, refl, ◌∙◌, ap, sym, Option, none, some, List, [], ◌∷◌, map, Result, ok,
  err, contains, Among, arith, ◌==◌, string_eq, if◌then◌else◌, driver, ◌⊎◌, inl, inr, ◌||◌,
  all-Among, contains_own,
}
use ynab_auto_categorizer.Sql.{Session, Sql}
use ynab_auto_categorizer.Sql.Refines.{
  Refines, Refines-run, Refines-upsert, Refines-bind, Refines-write_tx, write_each,
}
use ynab_auto_categorizer.Sql.Atomic.{Undone, IsAtomic, IsAtomic-write_tx}
use ynab_auto_categorizer.Table.{find, delete}
use ynab_auto_categorizer.Table.Batches.{
  merge_all, find-merge_all, newest, newest-Distinct, newest_unmentioned, mentions, Distinct,
}
use ynab_auto_categorizer.Scan.Stored.{
  PlanScan, ScanRow, Scans, scan_row, put_scan, unlisted, replace_plan_scans,
}

-- What the statements of a replacement do to the table.
unfoldable pub replaced : List PlanScan → Scans → Scans
replaced rows t = write_each put_scan rows (delete (unlisted (map (λ p. p.plan_id) rows)) t)

write_each-put_scan :
    (rows : List PlanScan) (t : Scans)
    → write_each put_scan rows t ≡ merge_all (λ p. p.plan_id) scan_row rows t
unfolding put_scan merge_all
write_each-put_scan [] t = refl
write_each-put_scan (p ∷ ps) t = write_each-put_scan ps _

find-delete-unlisted :
    (j : String) (ids : List String) (t : Scans)
    → find j (delete (unlisted ids) t) ≡ (if contains j ids then find j t else none)
unfolding find delete
find-delete-unlisted j ids [] = ground arith
find-delete-unlisted j ids ((k, r) ∷ t) =
    ground (arith, find-delete-unlisted j ids t, string_eq.beq_iff k j)

-- What is stored of a scan with this error text, after the row that was there: a good scan sets the
-- verdict and the time and clears the error. A failed one sets the error, and keeps the verdict and the
-- time; in a new row there is no verdict, and the time is its own.
abbrev LeftBy : Text → PlanScan → Option ScanRow → ScanRow → Type 0
LeftBy [] p old r =
    (r.has_discretionary ≡ some p.has_discretionary)
    × (r.scan_error ≡ none)
    × (r.scanned_at ≡ p.scanned_at)
LeftBy (c ∷ cs) p none r =
    (r.has_discretionary ≡ none) × (r.scan_error ≡ some (c ∷ cs)) × (r.scanned_at ≡ p.scanned_at)
LeftBy (c ∷ cs) p (some old) r =
    (r.has_discretionary ≡ old.has_discretionary)
    × (r.scan_error ≡ some (c ∷ cs))
    × (r.scanned_at ≡ old.scanned_at)

abbrev HasRow : PlanScan → Option ScanRow → Option ScanRow → Type 0
HasRow p old none = ⊥
HasRow p old (some r) = (r.name ≡ p.name) × LeftBy p.scan_error p old r

HasRow-scan_row : (p : PlanScan) (old : Option ScanRow) → HasRow p old (some (scan_row p old))
unfolding scan_row
HasRow-scan_row p old = by_error p.scan_error refl old
  where
    by_error :
        (t : Text)
        → p.scan_error ≡ t
        → (old : Option ScanRow) → HasRow p old (some (scan_row p old))
    by_error [] e old = rw e (refl, (refl, refl, refl))
    by_error (c ∷ cs) e none = rw e (refl, (refl, refl, refl))
    by_error (c ∷ cs) e (some r) = rw e (refl, (refl, refl, refl))

-- How a replacement ends: each listed plan has a row as above, a plan that is not listed has none, and a
-- replacement that fails has changed nothing.
abbrev pub Replaced : {A : Type 0} → List PlanScan → Scans → Result A × Session Scans → Type 0
Replaced rows old (ok u, s) =
    ((p : PlanScan) → Among p rows → HasRow p (find p.plan_id old) (find p.plan_id s.db))
    × ((k : String) → contains k (map (λ p. p.plan_id) rows) ≡ false → find k s.db ≡ none)
Replaced rows old (err e, s) = s.db ≡ old

mentions-contains :
    (k : String) (rows : List PlanScan)
    → mentions (λ p. p.plan_id) k rows ≡ contains k (map (λ p. p.plan_id) rows)
mentions-contains k [] = refl
mentions-contains k (p ∷ ps) = ap (λ b. p.plan_id == k || b) (mentions-contains k ps)

module _ (rows : List PlanScan) (t : Scans) where
  find-replaced :
      (k : String)
      → find k (replaced rows t)
        ≡ newest
            (λ p. p.plan_id)
            scan_row
            k
            rows
            (if contains k (map (λ p. p.plan_id) rows) then find k t else none)
  unfolding replaced
  find-replaced k =
      ap (find k) (write_each-put_scan rows _)
      ∙ find-merge_all (λ p. p.plan_id) scan_row k rows _
      ∙ ap (newest (λ p. p.plan_id) scan_row k rows) (find-delete-unlisted k _ t)

  listed_found :
      (p : PlanScan)
      → Distinct (λ p. p.plan_id) rows
      → Among p rows
      → find p.plan_id (replaced rows t) ≡ some (scan_row p (find p.plan_id t))
  listed_found p d m =
      find-replaced p.plan_id
      ∙ newest-Distinct (λ p. p.plan_id) scan_row p rows _ d m
      ∙ ap (λ b. some (scan_row p (if b then find p.plan_id t else none)))
          (all-Among (λ q. contains q.plan_id (map (λ p. p.plan_id) rows)) p rows
            (contains_own (λ p. p.plan_id) rows) m)

  unlisted_gone :
      (k : String)
      → contains k (map (λ p. p.plan_id) rows) ≡ false
      → find k (replaced rows t) ≡ none
  unlisted_gone k h =
      find-replaced k
      ∙ newest_unmentioned (λ p. p.plan_id) scan_row k rows _ (mentions-contains k rows ∙ h)
      ∙ ap (λ b. if b then find k t else none) h

pub Refines-replace_plan_scans :
    (rows : List PlanScan) → Refines (replace_plan_scans rows) (λ t. (ok tt, replaced rows t))
unfolding replace_plan_scans replaced
Refines-replace_plan_scans rows =
    Refines-write_tx (λ _. true) _ (λ t. (ok tt, replaced rows t))
      (Refines-bind _ _ _ (λ _ t. (ok tt, write_each put_scan rows t)) (Refines-run _)
        (λ _. Refines-upsert put_scan rows))

IsAtomic-replace_plan_scans : (rows : List PlanScan) → IsAtomic (replace_plan_scans rows)
unfolding replace_plan_scans
IsAtomic-replace_plan_scans rows = IsAtomic-write_tx _ _

-- ReplacePlanScans, under any faults and if the plans are listed once each: when it succeeds, every
-- listed plan has a row with its name, in which a good scan has set the verdict and the time and cleared
-- the error, and a failed scan has set the error and kept the stored verdict and time (a plan that is
-- new has no verdict then); a plan that is not listed has no row. When it fails, nothing has changed.
pub replace_plan_scans-Replaced :
    (rows : List PlanScan) (σ : Session Scans)
    → Distinct (λ p. p.plan_id) rows
    → Replaced rows σ.db (replace_plan_scans rows σ)
replace_plan_scans-Replaced rows σ d =
    by_result (tx σ).0 (tx σ).1 ((IsAtomic-replace_plan_scans rows).undone σ)
      ((Refines-replace_plan_scans rows).exact σ)
  where
    tx : Sql Scans (Unit {0})
    tx = replace_plan_scans rows

    by_result :
        (r : Result (Unit {0})) (s : Session Scans)
        → Undone σ.db (r, s)
        → (r ≡ err driver) ⊎ ((r ≡ ok tt) × (s.db ≡ replaced rows σ.db))
        → Replaced rows σ.db (r, s)
    by_result (err e) s u x = u
    by_result (ok u) s v (inl x) = absurd (ground arith)
    by_result (ok u) s v (inr (x, y)) = (
      λ p m.
          subst (HasRow p (find p.plan_id σ.db))
            (sym (listed_found rows σ.db p d m) ∙ ap (find p.plan_id) (sym y))
            (HasRow-scan_row p (find p.plan_id σ.db)),
      λ k h. rw y (unlisted_gone rows σ.db k h),
    )
