-- ===== src/Cmd/Archived/Exact.antt =====
-- cmd/app.go, syncArchived: which plans it syncs, how each of them ends, and what stays.
use mathlib.Core.Path.{subst}
use ynab_auto_categorizer.Prelude.{
  ℕ, suc, String, true, ◌≡◌, refl, ap, sym, ◌∙◌, ◌⊎◌, inl, inr, Option, none, some, List, [], ◌∷◌,
  map, contains, Error, Result, ok, err, Bool-cases, arith, ◌==◌, string_eq,
}
use ynab_auto_categorizer.Sql.{Session, Sql, lift, ◌>>=◌}
use ynab_auto_categorizer.Sql.Atomic.{ReadsOnly, ReadsOnly-pure, ReadsOnly-query, ReadsOnly-bind}
use ynab_auto_categorizer.Mirror.{Mirror}
use ynab_auto_categorizer.Scan.Stored.{Scans, plan_scans}
use ynab_auto_categorizer.Scan.Run.{PlanSummary, ScanError, Scanner, scan_discretionary}
use ynab_auto_categorizer.Scan.Ends.{HasScanned, scan_ends}
use ynab_auto_categorizer.Sync.Tick.{Syncer, Tick, sync_plan}
use ynab_auto_categorizer.Sync.Tick.Success.{Ended, reported_tick_ends}
use ynab_auto_categorizer.Sync.Tick.Atomic.{failed_tick_unchanged}
use ynab_auto_categorizer.Sync.Tick.Isolation.{
  SamePlan, SamePlan-refl, SamePlan-trans, other_plans_unchanged,
}
use ynab_auto_categorizer.Cmd.Archived.{
  Store, in_mirror, in_scans, ArchivedReply, stopped, finished, sync_each, synced_all,
  scanned_count, after_scan, sync_archived,
}

ReadsOnly-in_scans : {A : Type 0} (m : Sql Scans A) → ReadsOnly m → ReadsOnly (in_scans m)
ReadsOnly-in_scans m h = record { same = λ s. ap (λ t. record s.db { scans = t }) (h.same _) }

ReadsOnly-scanned_count : (e : Option ScanError) → ReadsOnly (scanned_count e)
unfolding scanned_count plan_scans
ReadsOnly-scanned_count (some se) = ReadsOnly-pure se.scanned
ReadsOnly-scanned_count none =
    ReadsOnly-bind _ _ (ReadsOnly-in_scans _ (ReadsOnly-query _)) (λ rows. ReadsOnly-pure _)

module _ (at : ℕ → Syncer) where
  -- The ticks of a list of plans, one after the other: each one that reports has ended as SyncPlan
  -- promises, and each one that fails leaves the mirror to the next.
  pub data Ticks
      : ℕ → List PlanSummary → Mirror → List (PlanSummary × Result Tick) → Mirror → Type 0 where
    last : (n : ℕ) (m : Mirror) → Ticks n [] m [] m
    reported :
        (n : ℕ) (p : PlanSummary) (ps : List PlanSummary) (t : Tick) (m m' m'' : Mirror)
        (rs : List (PlanSummary × Result Tick))
        → Ended (at n) p.id m t m'
        → Ticks (suc n) ps m' rs m''
        → Ticks n (p ∷ ps) m ((p, ok t) ∷ rs) m''
    failed :
        (n : ℕ) (p : PlanSummary) (ps : List PlanSummary) (e : Error) (m m' : Mirror)
        (rs : List (PlanSummary × Result Tick))
        → Ticks (suc n) ps m rs m'
        → Ticks n (p ∷ ps) m ((p, err e) ∷ rs) m'

  abbrev tables : Session Store → Session Mirror
  tables s = record { db = s.db.mirror; stmt = s.stmt; fault = s.fault }

  Ticks-sync_each :
      (n : ℕ) (ps : List PlanSummary) (s : Session Store)
      → Ticks n ps s.db.mirror (sync_each at n ps s).0 (sync_each at n ps s).1.db.mirror
  unfolding sync_each
  Ticks-sync_each n [] s = last n s.db.mirror
  Ticks-sync_each n (p ∷ ps) s =
      by_tick (sync_plan (at n) p.id (tables s)).0 refl
        (Ticks-sync_each (suc n) ps (in_mirror (sync_plan (at n) p.id) s).1)
    where
      s' : Session Store
      s' = (in_mirror (sync_plan (at n) p.id) s).1

      by_tick :
          (r : Result Tick)
          → (sync_plan (at n) p.id (tables s)).0 ≡ r
          → Ticks
              (suc n)
              ps
              s'.db.mirror
              (sync_each at (suc n) ps s').0
              (sync_each at (suc n) ps s').1.db.mirror
          → Ticks n
              (p ∷ ps)
              s.db.mirror
              ((p, r) ∷ (sync_each at (suc n) ps s').0)
              (sync_each at (suc n) ps s').1.db.mirror
      by_tick (ok t) h later =
          reported n p ps t _ _ _ _ (reported_tick_ends (at n) p.id (tables s) t h) later
      by_tick (err e) h later = failed n p ps e _ _ _ (
          subst
            (λ m.
              Ticks (suc n) ps m (sync_each at (suc n) ps s').0
                (sync_each at (suc n) ps s').1.db.mirror)
            (failed_tick_unchanged (at n) p.id (tables s) e h) later)

  -- A plan is one of those listed, or its rows stay.
  abbrev ListedOrSame : String → List PlanSummary → Mirror → Mirror → Type 0
  ListedOrSame q ps m m' = (contains q (map (λ p. p.id) ps) ≡ true) ⊎ SamePlan q m m'

  ListedOrSame-sync_each :
      (q : String) (n : ℕ) (ps : List PlanSummary) (s : Session Store)
      → ListedOrSame q ps s.db.mirror (sync_each at n ps s).1.db.mirror
  unfolding sync_each
  ListedOrSame-sync_each q n [] s = inr (SamePlan-refl q s.db.mirror)
  ListedOrSame-sync_each q n (p ∷ ps) s = elim (Bool-cases (p.id == q)) [
    | inl own ↦ inl (ground arith)
    | inr other ↦
        elim (ListedOrSame-sync_each q (suc n) ps (in_mirror (sync_plan (at n) p.id) s).1) [
          | inl later ↦ inl (ground arith)
          | inr same ↦ inr (
              SamePlan-trans q _ _ _
                (other_plans_unchanged (at n) p.id q (tables s)
                  (λ e. ground (arith, string_eq.beq_iff p.id q)))
                same)
        ]
  ]

  scans-sync_each :
      (n : ℕ) (ps : List PlanSummary) (s : Session Store)
      → (sync_each at n ps s).1.db.scans ≡ s.db.scans
  unfolding sync_each
  scans-sync_each n [] s = refl
  scans-sync_each n (p ∷ ps) s = scans-sync_each (suc n) ps (in_mirror (sync_plan (at n) p.id) s).1

-- A command that went through its plans, between two states of the database.
pub record HasRun (scanner : Scanner) (at : ℕ → Syncer) (d : Store) (e : Option ScanError)
    (rs : List (PlanSummary × Result Tick)) (d' : Store) : Type 0 where
  pub list : List PlanSummary
  pub found : List PlanSummary
  pub listed : scanner.plans ≡ ok list
  pub scanned : HasScanned scanner list d.scans d'.scans found e
  pub ticks : Ticks at 0 found d.mirror rs d'.mirror
  pub others : (q : String) → ListedOrSame at q found d.mirror d'.mirror

abbrev pub Runs : Scanner → (ℕ → Syncer) → Store → ArchivedReply × Session Store → Type 0
Runs scanner at d (stopped e, s) = s.db.mirror ≡ d.mirror
Runs scanner at d (finished n e rs, s) = HasRun scanner at d e rs s.db

module _ (scanner : Scanner) (at : ℕ → Syncer) (s : Session Store) where
  abbrev scan : Result (List PlanSummary × Option ScanError) × Session Store
  scan = in_scans (scan_discretionary scanner) s

  -- A scan that returned has read the list of plans.
  HasScanned-scan :
      (l : Result (List PlanSummary))
      → scanner.plans ≡ l
      → (found : List PlanSummary) (e : Option ScanError) → scan.0 ≡ ok (found, e)
      → (list : List PlanSummary) × (scanner.plans ≡ ok list)
        × HasScanned scanner list s.db.scans scan.1.db.scans found e
  HasScanned-scan (ok list) listed found e h =
      (list, listed, scan_ends scanner _ found e list listed h)
  HasScanned-scan (err x) listed found e h =
      unfold scan_discretionary ◌>>=◌ lift in absurd (ground arith)

  by_count :
      (found : List PlanSummary) (e : Option ScanError)
      → scan.0 ≡ ok (found, e)
      → (c : Result ℕ) (t : Session Store) → t.db ≡ scan.1.db
      → Runs scanner at s.db (synced_all at found e (c, t))
  by_count found e h (err x) t same = ap (λ d. d.mirror) same
  by_count found e h (ok n) t same =
      let (list, listed, scanned) = HasScanned-scan scanner.plans refl found e h in
      let swept : Session Store = (sync_each at 0 found t).1 in
      record {
        list = list;
        found = found;
        listed = listed;
        scanned =
            subst (λ d. HasScanned scanner list s.db.scans d found e)
              (sym (scans-sync_each at 0 found t ∙ ap (λ d. d.scans) same)) scanned;
        ticks =
            subst (λ m. Ticks at 0 found m (sync_each at 0 found t).0 swept.db.mirror)
              (ap (λ d. d.mirror) same) (Ticks-sync_each at 0 found t);
        others = λ q.
            subst (λ m. ListedOrSame at q found m swept.db.mirror) (ap (λ d. d.mirror) same)
              (ListedOrSame-sync_each at q 0 found t);
      }

  by_scan :
      (r : Result (List PlanSummary × Option ScanError))
      → scan.0 ≡ r
      → Runs scanner at s.db (after_scan at (r, scan.1))
  by_scan (err x) h = refl
  by_scan (ok (found, e)) h =
      by_count found e h (scanned_count e scan.1).0 (scanned_count e scan.1).1
        ((ReadsOnly-scanned_count e).same scan.1)

  -- Whatever statements fail, and whatever the network answers: a command that went through its plans
  -- has scanned as ScanDiscretionary promises, and ticked exactly the plans that the scan found, in
  -- their order; each tick that reports has committed the whole answer or was skipped, each one that
  -- fails changed nothing, and the rows of every other plan are the same. A command that stops at the
  -- scan leaves the mirror as it was.
  pub Runs-sync_archived : Runs scanner at s.db (sync_archived at scanner s)
  unfolding sync_archived
  Runs-sync_archived = by_scan scan.0 refl
