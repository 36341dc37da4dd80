-- ===== src/Sync/Tick/Cursor.antt =====
-- sync/sync.go, SyncPlan: the cursor that a tick leaves for the next one.
use ynab_auto_categorizer.Prelude.{
  ℤ, String, ◌≡◌, ◌∙◌, ap, Option, some, ok, string_eq, if◌then◌else◌, ==-refl,
}
use ynab_auto_categorizer.Sql.{Session}
use ynab_auto_categorizer.Table.{Table, find, replace}
use ynab_auto_categorizer.Table.Laws.{find-replace}
use ynab_auto_categorizer.Mirror.{Mirror, put_sync_state}
use ynab_auto_categorizer.Mirror.Rows.{SyncState}
use ynab_auto_categorizer.Ynab.Api.{PlanDetail}
use ynab_auto_categorizer.Sync.Tick.{Syncer, Tick, sync_plan, fetch}
use ynab_auto_categorizer.Sync.Tick.Plain.{cursor}
use ynab_auto_categorizer.Sync.Tick.Applied.{after_tick}
use ynab_auto_categorizer.Sync.Tick.Success.{answer, reported_tick_ends, committed_db}

find-replace_own :
    (plan : String) (c : SyncState) (t : Table String SyncState)
    → find plan (replace plan c t) ≡ some c
find-replace_own plan c t =
    find-replace plan plan c t ∙ ap (λ b. if b then some c else find plan t) (==-refl plan)

cursor-after_tick :
    (s : Syncer) (plan : String) (m : Mirror) (detail : Option PlanDetail) (sk : ℤ)
    → find plan (after_tick s plan m detail sk).sync_state ≡ some (cursor s plan sk)
unfolding after_tick put_sync_state
cursor-after_tick s plan m detail sk = find-replace_own plan (cursor s plan sk) _

-- After a tick that was answered with some server knowledge and reports success, the next tick of the
-- plan, by any Syncer, asks for a delta from exactly that server knowledge.
pub next_tick_asks :
    (s later : Syncer) (plan : String) (σ : Session Mirror) (t : Tick) (detail : Option PlanDetail)
    (sk : ℤ)
    → answer s plan σ.db ≡ ok (detail, sk)
    → (sync_plan s plan σ).0 ≡ ok t
    → answer later plan (sync_plan s plan σ).1.db ≡ (later.client plan).delta sk
unfolding fetch
next_tick_asks s later plan σ t detail sk answered reported =
    ap (answer later plan) (
      committed_db s plan σ.db (sync_plan s plan σ).1.db t detail sk answered
        (reported_tick_ends s plan σ t reported))
    ∙ ap (fetch (later.client plan)) (cursor-after_tick s plan σ.db detail sk)
