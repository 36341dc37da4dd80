-- ===== src/Sync/Tick/Events.antt =====
-- sync/sync.go, SyncPlan: the link events of a tick.
use mathlib.Core.Path.{subst}
use ynab_auto_categorizer.Prelude.{
  ℤ, String, false, ◌≡◌, ◌↔◌, ◌∙◌, ap, sym, Option, List, [], ok, Among, string_eq, pair_eq,
}
use ynab_auto_categorizer.Sql.{Session}
use ynab_auto_categorizer.Table.{find}
use ynab_auto_categorizer.Table.Batches.{find-merge_all, newest-Distinct, Distinct}
use ynab_auto_categorizer.Mirror.{Mirror, put_sync_state}
use ynab_auto_categorizer.Mirror.Find.{account_row, account_key}
use ynab_auto_categorizer.Mirror.Rows.{Account}
use ynab_auto_categorizer.Ynab.Api.{PlanDetail}
use ynab_auto_categorizer.Sync.Mapping.{map_plan}
use ynab_auto_categorizer.Sync.Stitch.Plain.{stitched}
use ynab_auto_categorizer.Sync.Links.{LinkEvent, flag_of, prior, events_for}
use ynab_auto_categorizer.Sync.Links.Events.{
  IsChange, event_of, change_emitted, emitted-IsChange, no_change_no_event,
}
use ynab_auto_categorizer.Sync.Tick.{Syncer, Tick, sync_plan}
use ynab_auto_categorizer.Sync.Tick.Plain.{new_events}
use ynab_auto_categorizer.Sync.Tick.Tables.{merged, written-merged}
use ynab_auto_categorizer.Sync.Tick.Success.{
  answer, first_tick, reported_tick_ends, committed_db, committed_report,
}
use ynab_auto_categorizer.Sync.Tick.Applied.{after_tick}

module _ (s : Syncer) (plan : String) (σ : Session Mirror) (t : Tick) (detail : Option PlanDetail)
    (sk : ℤ) (answered : answer s plan σ.db ≡ ok (detail, sk))
    (done : (sync_plan s plan σ).0 ≡ ok t) where
  -- The accounts that the network sent.
  abbrev sent : List Account
  sent = (map_plan detail).accounts

  events-eq : first_tick plan σ.db ≡ false → t.link_events ≡ events_for (prior plan σ.db) sent
  unfolding stitched
  events-eq delta =
      ap (λ (x : Tick). x.link_events)
        (committed_report s plan σ.db _ t detail sk answered (reported_tick_ends s plan σ t done))
      ∙ ap (λ b. new_events b plan (stitched plan (map_plan detail) σ.db).1 σ.db) delta

  -- The events of a delta tick are exactly the changes: one for each account that was sent live with
  -- a link flag other than the mirror's, where an account new to the mirror counts as healthy.
  pub link_events_are_changes :
      (ev : LinkEvent)
      → first_tick plan σ.db ≡ false
      → (Among ev t.link_events ↔ (
          (a : Account) × Among a (map_plan detail).accounts
          × IsChange (prior plan σ.db) a
          × (ev ≡ event_of a)))
  link_events_are_changes ev delta = (
    λ m. emitted-IsChange (prior plan σ.db) ev sent (subst (Among ev) (events-eq delta) m),
    λ c.
        subst (λ e. Among e t.link_events) (sym c.3)
          (subst (Among (event_of c.0)) (sym (events-eq delta))
            (change_emitted (prior plan σ.db) c.0 sent c.1 c.2)),
  )

  account-merged :
      (a : Account)
      → Distinct (account_key plan) sent
      → Among a sent
      → flag_of (
          find
            (plan, a.id)
            (merged plan (stitched plan (map_plan detail) σ.db).1 s.now σ.db).accounts)
        ≡ a.direct_import_in_error
  unfolding merged stitched
  account-merged a d m = ap flag_of (
      find-merge_all (account_key plan) account_row (plan, a.id) sent σ.db.accounts
      ∙ newest-Distinct (account_key plan) account_row a sent _ d m)

  account-after_tick :
      (a : Account)
      → Distinct (account_key plan) sent
      → Among a sent
      → prior plan (after_tick s plan σ.db detail sk) a.id ≡ a.direct_import_in_error
  unfolding after_tick put_sync_state prior
  account-after_tick a d m =
      ap (λ (w : Mirror). flag_of (find (plan, a.id) w.accounts))
        (written-merged plan (stitched plan (map_plan detail) σ.db).1 s.now σ.db)
      ∙ account-merged a d m

  -- An event fires once: if the accounts that were sent have different ids, then the same accounts
  -- compared with the mirror after the tick emit nothing.
  pub events_fire_once :
      Distinct (account_key plan) (map_plan detail).accounts
      → events_for (prior plan (sync_plan s plan σ).1.db) (map_plan detail).accounts ≡ []
  events_fire_once d = no_change_no_event (prior plan (sync_plan s plan σ).1.db) sent (λ a m.
      ap (λ w. prior plan w a.id)
        (committed_db s plan σ.db (sync_plan s plan σ).1.db t detail sk answered
          (reported_tick_ends s plan σ t done))
      ∙ account-after_tick a d m)
