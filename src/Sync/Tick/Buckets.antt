-- ===== src/Sync/Tick/Buckets.antt =====
-- sync/sync.go, SyncPlan: the local tax_bucket tag of an account.
use ynab_auto_categorizer.Prelude.{
  ℤ, String, Bool, true, false, ◌≡◌, refl, ◌∙◌, ap, Option, some, List, [], ◌∷◌, Result, ok, err,
  ◌==◌, string_eq, pair_eq, if◌then◌else◌,
}
use ynab_auto_categorizer.Sql.{Session}
use ynab_auto_categorizer.Table.{find}
use ynab_auto_categorizer.Table.Batches.{find-merge_all, newest}
use ynab_auto_categorizer.Mirror.{Mirror, Key, AccountRow, bucket_of, put_sync_state}
use ynab_auto_categorizer.Mirror.Rows.{Account}
use ynab_auto_categorizer.Mirror.Find.{account_row, account_key}
use ynab_auto_categorizer.Ynab.Api.{PlanDetail}
use ynab_auto_categorizer.Sync.Mapping.{map_plan}
use ynab_auto_categorizer.Sync.Stitch.Plain.{stitched}
use ynab_auto_categorizer.Sync.Tick.{Syncer, Tick, sync_plan}
use ynab_auto_categorizer.Sync.Tick.Tables.{merged, written-merged}
use ynab_auto_categorizer.Sync.Tick.Applied.{after_tick}
use ynab_auto_categorizer.Sync.Tick.Success.{Ended, reported_tick_ends}
use ynab_auto_categorizer.Sync.Tick.Atomic.{failed_tick_unchanged}

-- However often an account is sent, its row keeps its tag.
bucket_of-newest :
    (plan : String) (k : Key) (xs : List Account) (o : Option AccountRow)
    → bucket_of (newest (account_key plan) account_row k xs o) ≡ bucket_of o
unfolding newest
bucket_of-newest plan k [] o = refl
bucket_of-newest plan k (x ∷ xs) o = bucket_of-newest plan k xs _ ∙ by_key (account_key plan x == k)
  where
    by_key : (b : Bool) → bucket_of (if b then some (account_row x o) else o) ≡ bucket_of o
    by_key true = refl
    by_key false = refl

abbrev pub tag : Key → Mirror → Option String
tag k m = bucket_of (find k m.accounts)

tag-after_tick :
    (s : Syncer) (plan : String) (m : Mirror) (detail : Option PlanDetail) (sk : ℤ) (k : Key)
    → tag k (after_tick s plan m detail sk) ≡ tag k m
unfolding after_tick put_sync_state
tag-after_tick s plan m detail sk k =
    ap (tag k) (written-merged plan (stitched plan (map_plan detail) m).1 s.now m)
    ∙ unfold merged in
      ap bucket_of (
        find-merge_all (account_key plan) account_row k
          (stitched plan (map_plan detail) m).1.accounts m.accounts)
      ∙ bucket_of-newest plan k _ (find k m.accounts)

tag-Ended :
    (s : Syncer) (plan : String) (m m' : Mirror) (t : Tick) (k : Key)
    → Ended s plan m t m'
    → tag k m' ≡ tag k m
tag-Ended s plan m m' t k (Ended.skip e a b c d) = ap (tag k) d
tag-Ended s plan m m' t k (Ended.commit detail sk a b d h) =
    ap (tag k) d ∙ tag-after_tick s plan m detail sk k

-- A sync never touches a tax_bucket: after SyncPlan, whether it commits, skips or fails and whatever
-- the network sends, every account of every plan has the tag that it had, and an account that is new
-- has none.
pub tax_buckets_kept :
    (s : Syncer) (plan : String) (σ : Session Mirror) (k : Key)
    → tag k (sync_plan s plan σ).1.db ≡ tag k σ.db
tax_buckets_kept s plan σ k = by_result (sync_plan s plan σ).0 refl
  where
    by_result :
        (r : Result Tick)
        → (sync_plan s plan σ).0 ≡ r
        → tag k (sync_plan s plan σ).1.db ≡ tag k σ.db
    by_result (ok t) h = tag-Ended s plan σ.db _ t k (reported_tick_ends s plan σ t h)
    by_result (err e) h = ap (tag k) (failed_tick_unchanged s plan σ e h)
