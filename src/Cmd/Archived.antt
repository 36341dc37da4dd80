-- ===== src/Cmd/Archived.antt =====
-- cmd/app.go: `finbot sync --archived`, a scan of all plans and a tick of each plan that it finds.
pub mod Exact
use ynab_auto_categorizer.Prelude.{
  ℕ, suc, Bool, true, false, not, ◌&&◌, Option, none, some, List, [], ◌∷◌, length, all, is_some,
  Error, Result, ok, err,
}
use ynab_auto_categorizer.Sql.{Session, Sql, pure, ◌>>=◌}
use ynab_auto_categorizer.Mirror.{Mirror}
use ynab_auto_categorizer.Scan.Stored.{Scans, plan_scans}
use ynab_auto_categorizer.Scan.Run.{PlanSummary, ScanError, Scanner, scan_discretionary}
use ynab_auto_categorizer.Sync.Tick.{Syncer, Tick, sync_plan}

-- The tables of the database that the command touches.
pub record Store : Type 0 where
  pub mirror : Mirror
  pub scans : Scans

module _ {A : Type 0} where
  abbrev pub in_mirror : Sql Mirror A → Sql Store A
  in_mirror m s =
      let (r, t) = m (record { db = s.db.mirror; stmt = s.stmt; fault = s.fault }) in
      (r, record { db = record s.db { mirror = t.db }; stmt = t.stmt; fault = t.fault })

  abbrev pub in_scans : Sql Scans A → Sql Store A
  in_scans m s =
      let (r, t) = m (record { db = s.db.scans; stmt = s.stmt; fault = s.fault }) in
      (r, record { db = record s.db { scans = t.db }; stmt = t.stmt; fault = t.fault })

-- The number of plans that the report of the scan names, the scan's failures, and how the tick of each
-- plan ended. A skipped tick is no failure.
pub data ArchivedReply : Type 0 where
  stopped : Error → ArchivedReply
  finished : ℕ → Option ScanError → List (PlanSummary × Result Tick) → ArchivedReply

abbrev pub is_synced : Result Tick → Bool
is_synced (ok t) = true
is_synced (err e) = false

-- Whether the command returns no error.
abbrev pub succeeds : ArchivedReply → Bool
succeeds (stopped e) = false
succeeds (finished n e rs) = not (is_some e) && all (λ r. is_synced r.1) rs

unfoldable pub scanned_count : Option ScanError → Sql Store ℕ
scanned_count (some se) = pure se.scanned
scanned_count none = in_scans plan_scans >>= λ rows. pure (length rows)

-- `at n` is what the n-th tick meets: the answers of the network and the clock.
module _ (at : ℕ → Syncer) where
  unfoldable pub sync_each :
      ℕ → List PlanSummary → Session Store → List (PlanSummary × Result Tick) × Session Store
  sync_each n [] s = ([], s)
  sync_each n (p ∷ ps) s =
      let (r, s') = in_mirror (sync_plan (at n) p.id) s in
      let (rs, s'') = sync_each (suc n) ps s' in ((p, r) ∷ rs, s'')

  abbrev pub synced_all :
      List PlanSummary → Option ScanError → Result ℕ × Session Store → ArchivedReply × Session Store
  synced_all plans e (err x, s) = (stopped x, s)
  synced_all plans e (ok n, s) = let (rs, s') = sync_each 0 plans s in (finished n e rs, s')

  abbrev pub after_scan :
      Result (List PlanSummary × Option ScanError) × Session Store → ArchivedReply × Session Store
  after_scan (err x, s) = (stopped x, s)
  after_scan (ok (plans, e), s) = synced_all plans e (scanned_count e s)

  unfoldable pub sync_archived : Scanner → Session Store → ArchivedReply × Session Store
  sync_archived scanner s = after_scan (in_scans (scan_discretionary scanner) s)
