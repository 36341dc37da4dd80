-- ===== src/Sync/Tick/Deletions.antt =====
-- sync/sync.go, SyncPlan: what a committed tick leaves under a deleted transaction.
use ynab_auto_categorizer.Prelude.{
  ℤ, String, true, false, ◌≡◌, ◌∙◌, ap, sym, Option, some, ok, Among, string_eq, pair_eq,
}
use ynab_auto_categorizer.Sql.{Session}
use ynab_auto_categorizer.Table.{find}
use ynab_auto_categorizer.Table.Batches.{find-merge_all, newest}
use ynab_auto_categorizer.Mirror.{Mirror, put_sync_state}
use ynab_auto_categorizer.Mirror.Find.{whole_row, subtransaction_key}
use ynab_auto_categorizer.Mirror.Rows.{Transaction, Subtransaction}
use ynab_auto_categorizer.Ynab.Api.{PlanDetail}
use ynab_auto_categorizer.Sync.Mapping.{map_plan}
use ynab_auto_categorizer.Sync.Stitch.Plain.{stitched}
use ynab_auto_categorizer.Sync.Stitch.Tombstones.{live_child_of_deleted}
use ynab_auto_categorizer.Sync.Tick.{Syncer, Tick, sync_plan}
use ynab_auto_categorizer.Sync.Tick.Tables.{merged, written-merged}
use ynab_auto_categorizer.Sync.Tick.Success.{answer, reported_tick_ends, committed_db}
use ynab_auto_categorizer.Sync.Tick.Applied.{after_tick}

subtransactions-after_tick :
    (s : Syncer) (plan : String) (m : Mirror) (detail : Option PlanDetail) (sk : ℤ) (i : String)
    → find (plan, i) (after_tick s plan m detail sk).subtransactions
      ≡ newest
          (subtransaction_key plan)
          (λ x _. x)
          (plan, i)
          (stitched plan (map_plan detail) m).1.subs
          (find (plan, i) m.subtransactions)
unfolding after_tick put_sync_state
subtransactions-after_tick s plan m detail sk i =
    ap (λ (w : Mirror). find (plan, i) w.subtransactions)
      (written-merged plan (stitched plan (map_plan detail) m).1 s.now m)
    ∙ unfold merged in
      find-merge_all (subtransaction_key plan) whole_row (plan, i)
        (stitched plan (map_plan detail) m).1.subs m.subtransactions

-- When a tick that was answered reports success, a live subtransaction stored under a transaction
-- that the answer deletes is one that the answer itself sent: every other child of the transaction
-- was deleted with it.
pub deleted_parent_keeps_no_old_child :
    (s : Syncer) (plan : String) (σ : Session Mirror) (t : Tick) (detail : Option PlanDetail)
    (sk : ℤ) (x : Transaction) (i : String) (c : Subtransaction)
    → answer s plan σ.db ≡ ok (detail, sk)
    → (sync_plan s plan σ).0 ≡ ok t
    → Among x (map_plan detail).transactions
    → x.deleted ≡ true
    → find (plan, i) (sync_plan s plan σ).1.db.subtransactions ≡ some c
    → c.transaction_id ≡ x.id
    → c.deleted ≡ false
    → Among c (map_plan detail).subs
deleted_parent_keeps_no_old_child s plan σ t detail sk x i c a h among gone f p l =
    live_child_of_deleted plan (map_plan detail) σ.db x i c among gone p l (
      sym (subtransactions-after_tick s plan σ.db detail sk i)
      ∙ ap (λ (m : Mirror). find (plan, i) m.subtransactions)
          (sym (
            committed_db s plan σ.db (sync_plan s plan σ).1.db t detail sk a
              (reported_tick_ends s plan σ t h)))
      ∙ f)
