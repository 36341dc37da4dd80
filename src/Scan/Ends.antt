-- ===== src/Scan/Ends.antt =====
-- sync/mirror.go, ScanDiscretionary: what a scan that returns has found, reported and stored.
use mathlib.Core.Path.{subst}
use ynab_auto_categorizer.Prelude.{
  ℕ, suc, Bool, true, false, ◌≡◌, refl, ◌∙◌, ap, sym, Option, List, [], ◌∷◌, map, Result, ok, err,
  cancelled, driver, ◌⊎◌, inl, inr, length, keep, all, arith, and_intro, if◌then◌else◌, string_eq,
}
use ynab_auto_categorizer.Sql.{Session, pure, lift, continue, ◌>>=◌}
use ynab_auto_categorizer.Mirror.Rows.{Time}
use ynab_auto_categorizer.Scan.Redaction.{has_no_id, has_no_id-redact}
use ynab_auto_categorizer.Scan.Category.{has_discretionary}
use ynab_auto_categorizer.Scan.Stored.{Scans, replace_plan_scans}
use ynab_auto_categorizer.Scan.Replacement.{replaced, Refines-replace_plan_scans}
use ynab_auto_categorizer.Scan.Run.{
  PlanSummary, Fetched, groups, failed, Scanner, ScanError, Scanned, add_plan, add_result,
  scan_plans, report, finish, store_scan, scan_discretionary,
}

abbrev found_in : Fetched → Bool
found_in (groups gs) = has_discretionary gs
found_in (failed text e) = false

abbrev failed_in : Fetched → Bool
failed_in (groups gs) = false
failed_in (failed text e) = true

-- A plan whose categories were fetched and hold the name.
abbrev pub is_found : Scanner → PlanSummary → Bool
is_found s p = found_in (s.client p.id)

abbrev pub is_failed : Scanner → PlanSummary → Bool
is_failed s p = failed_in (s.client p.id)

-- What a scan has gathered from a list of plans.
pub record Gathers (s : Scanner) (ps : List PlanSummary) (r : Scanned) : Type 0 where
  pub found : r.out ≡ keep (is_found s) ps
  pub failed : map (λ f. f.name) r.failures ≡ map (λ p. p.name) (keep (is_failed s) ps)
  pub stored : map (λ p. p.plan_id) r.rows ≡ map (λ p. p.id) ps
  pub redacted : all (λ f. has_no_id f.text) r.failures ≡ true

Gathers-add_plan :
    (s : Scanner) (p : PlanSummary) (ps : List PlanSummary) (at : Time) (later : Scanned)
    → Gathers s ps later
    → Gathers s (p ∷ ps) (add_plan p at (s.client p.id) later)
unfolding add_plan
Gathers-add_plan s p ps at later h = by_answer (s.client p.id) refl
  where
    found_with :
        (a : Fetched)
        → s.client p.id ≡ a
        → keep (is_found s) (p ∷ ps)
          ≡ (if found_in a then p ∷ keep (is_found s) ps else keep (is_found s) ps)
    found_with a e =
        ap (λ x. if found_in x then p ∷ keep (is_found s) ps else keep (is_found s) ps) e

    failed_with :
        (a : Fetched)
        → s.client p.id ≡ a
        → keep (is_failed s) (p ∷ ps)
          ≡ (if failed_in a then p ∷ keep (is_failed s) ps else keep (is_failed s) ps)
    failed_with a e =
        ap (λ x. if failed_in x then p ∷ keep (is_failed s) ps else keep (is_failed s) ps) e

    by_answer : (a : Fetched) → s.client p.id ≡ a → Gathers s (p ∷ ps) (add_plan p at a later)
    by_answer (groups gs) e = record {
      found =
          ap (λ l. if has_discretionary gs then p ∷ l else l) h.found
          ∙ sym (found_with (groups gs) e);
      failed = h.failed ∙ sym (ap (λ l. map (λ q. q.name) l) (failed_with (groups gs) e));
      stored = ap (λ l. p.id ∷ l) h.stored;
      redacted = h.redacted;
    }
    by_answer (failed text x) e = record {
      found = h.found ∙ sym (found_with (failed text x) e);
      failed =
          ap (λ l. p.name ∷ l) h.failed
          ∙ sym (ap (λ l. map (λ q. q.name) l) (failed_with (failed text x) e));
      stored = ap (λ l. p.id ∷ l) h.stored;
      redacted = and_intro (has_no_id-redact text) h.redacted;
    }

ok_eq : (q r : Scanned) → ok q ≡ ok r → q ≡ r
ok_eq q r h = ground arith

-- A scan of the plans that ends gathers, for every plan in order, its row, the plan itself if a live
-- category of it bears the name, and its failure if its categories could not be fetched: a plan that
-- failed is never among those found. No failure's text holds an id.
pub Gathers-scan_plans :
    (s : Scanner) (n : ℕ) (ps : List PlanSummary) (r : Scanned)
    → scan_plans s n ps ≡ ok r
    → Gathers s ps r
unfolding scan_plans
Gathers-scan_plans s n [] r h = subst (Gathers s []) (ok_eq _ r h) none_gathered
  where
    none_gathered : Gathers s [] (record { out = []; rows = []; failures = [] })
    none_gathered = record { found = refl; failed = refl; stored = refl; redacted = refl }
Gathers-scan_plans s n (p ∷ ps) r h =
    by_rest (s.ended n) (scan_plans s (suc n) ps) h (Gathers-scan_plans s (suc n) ps)
  where
    by_rest :
        (b : Bool) (later : Result Scanned)
        → (if b then err cancelled else add_result p (s.clock n) (s.client p.id) later) ≡ ok r
        → ((q : Scanned) → later ≡ ok q → Gathers s ps q)
        → Gathers s (p ∷ ps) r
    by_rest true later h k = absurd (ground arith)
    by_rest false (err e) h k = absurd (ground arith)
    by_rest false (ok q) h k =
        subst (Gathers s (p ∷ ps)) (ok_eq _ r h) (Gathers-add_plan s p ps (s.clock n) q (k q refl))

-- What a scan that returns has done: the plans it found, the failures it reports, and the rows it
-- stored.
pub record HasScanned (s : Scanner) (ps : List PlanSummary) (old new : Scans)
    (out : List PlanSummary) (e : Option ScanError) : Type 0 where
  pub result : Scanned
  pub gathers : Gathers s ps result
  pub returned : out ≡ result.out
  pub reported : e ≡ report (length ps) result.failures
  pub stored : new ≡ replaced result.rows old

module _ (s : Scanner) (σ : Session Scans) (out : List PlanSummary) (e : Option ScanError) where
  stored_ends :
      (ps : List PlanSummary) (r : Scanned)
      → Gathers s ps r
      → (store_scan (length ps) r σ).0 ≡ ok (out, e)
      → HasScanned s ps σ.db (store_scan (length ps) r σ).1.db out e
  unfolding store_scan ◌>>=◌ pure
  stored_ends ps r g h =
      by_store (replace_plan_scans r.rows σ).0 (replace_plan_scans r.rows σ).1
        ((Refines-replace_plan_scans r.rows).exact σ) h
    where
      by_store :
          (q : Result (Unit {0})) (σ' : Session Scans)
          → (q ≡ err driver) ⊎ ((q ≡ ok tt) × (σ'.db ≡ replaced r.rows σ.db))
          → (continue q (finish (length ps) r) σ').0 ≡ ok (out, e)
          → HasScanned s ps σ.db (continue q (finish (length ps) r) σ').1.db out e
      by_store (err x) σ' k h = absurd (ground arith)
      by_store (ok u) σ' (inl k) h = absurd (ground arith)
      by_store (ok u) σ' (inr k) h = record {
        result = r;
        gathers = g;
        returned = ground arith;
        reported = ground arith;
        stored = k.1;
      }

  pub scan_ends :
      (ps : List PlanSummary)
      → s.plans ≡ ok ps
      → (scan_discretionary s σ).0 ≡ ok (out, e)
      → HasScanned s ps σ.db (scan_discretionary s σ).1.db out e
  unfolding scan_discretionary ◌>>=◌ lift
  scan_ends ps listed = by_list s.plans listed
    where
      by_scan :
          (q : Result Scanned)
          → scan_plans s 0 ps ≡ q
          → (continue q (store_scan (length ps)) σ).0 ≡ ok (out, e)
          → HasScanned s ps σ.db (continue q (store_scan (length ps)) σ).1.db out e
      by_scan (ok r) h k = stored_ends ps r (Gathers-scan_plans s 0 ps r h) k
      by_scan (err x) h k = absurd (ground arith)

      by_list :
          (l : Result (List PlanSummary))
          → l ≡ ok ps
          → (continue l (λ qs. lift (scan_plans s 0 qs) >>= store_scan (length qs)) σ).0
            ≡ ok (out, e)
          → HasScanned s ps σ.db
              (continue l (λ qs. lift (scan_plans s 0 qs) >>= store_scan (length qs)) σ).1.db
              out
              e
      by_list l k = rw k (by_scan (scan_plans s 0 ps) refl)
