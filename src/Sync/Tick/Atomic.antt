-- ===== src/Sync/Tick/Atomic.antt =====
-- sync/sync.go, SyncPlan: a tick that fails leaves the mirror and the cursor as they were, wherever
-- the driver, the hook or the commit failed.
use ynab_auto_categorizer.Prelude.{
  ℤ, String, Bool, true, false, not, ◌≡◌, Option, List, [], ◌∷◌, Error, Result, ok, err, is_some,
  arith, if◌then◌else◌,
}
use ynab_auto_categorizer.Sql.{Session, Sql}
use ynab_auto_categorizer.Sql.Atomic.{
  ReadsOnly, ReadsOnly-pure, ReadsOnly-query, ReadsOnly-bind, IsAtomic, IsAtomic-pure,
  IsAtomic-raise, IsAtomic-if, IsAtomic-write_tx, IsAtomic-read-bind, IsAtomic-bind-pure, Undone,
}
use ynab_auto_categorizer.Mirror.{Mirror, keys_hold}
use ynab_auto_categorizer.Mirror.Rows.{Transaction}
use ynab_auto_categorizer.Mirror.Writes.{get_sync_state, update}
use ynab_auto_categorizer.Ynab.Api.{PlanDetail}
use ynab_auto_categorizer.Sync.Mapping.{Batch, map_plan}
use ynab_auto_categorizer.Sync.Stitch.{has, keep_known, live_subs, tombstones, stitch}
use ynab_auto_categorizer.Sync.Links.{link_events}
use ynab_auto_categorizer.Sync.Tick.{
  Syncer, Tick, skippable, write_tick, events_unless, apply_plan, after_fetch, fetch, sync_plan,
}

ReadsOnly-if :
    {A : Type 0} (c : Bool) (m n : Sql Mirror A)
    → ReadsOnly m
    → ReadsOnly n
    → ReadsOnly (if c then m else n)
ReadsOnly-if true m n h k = h
ReadsOnly-if false m n h k = k

ruleset read_rules = (ReadsOnly-pure, ReadsOnly-query, ReadsOnly-bind, ReadsOnly-if)

ReadsOnly-has :
    (in_table : String → Mirror → Bool) (batch : List String) (i : String)
    → ReadsOnly (has in_table batch i)
unfolding has
ReadsOnly-has in_table batch i = search read_rules

ReadsOnly-keep_known :
    {A : Type 0} (parent : A → String) (in_table : String → Mirror → Bool) (batch : List String)
    (l : List A)
    → ReadsOnly (keep_known parent in_table batch l)
unfolding keep_known
ReadsOnly-keep_known parent in_table batch [] = ReadsOnly-pure _
ReadsOnly-keep_known parent in_table batch (sub ∷ rest) =
    ReadsOnly-bind _ _ (ReadsOnly-has in_table batch (parent sub)) (λ r.
      ReadsOnly-bind _ _ (ReadsOnly-keep_known parent in_table r.1 rest) (λ kept. ReadsOnly-pure _))

ReadsOnly-tombstones :
    (plan : String) (seen : List String) (ts : List Transaction)
    → ReadsOnly (tombstones plan seen ts)
unfolding tombstones live_subs
ReadsOnly-tombstones plan seen [] = ReadsOnly-pure []
ReadsOnly-tombstones plan seen (t ∷ rest) =
    ReadsOnly-if (not t.deleted) _ _ (ReadsOnly-tombstones plan seen rest) (
      ReadsOnly-bind _ _ (ReadsOnly-query _) (λ children.
        ReadsOnly-bind _ _ (ReadsOnly-tombstones plan seen rest) (λ more. ReadsOnly-pure _)))

-- stitch only reads the mirror.
pub ReadsOnly-stitch : (plan : String) (b : Batch) → ReadsOnly (stitch plan b)
unfolding stitch
ReadsOnly-stitch plan b = ReadsOnly-bind _ _ (ReadsOnly-keep_known _ _ _ _) (λ subs.
    ReadsOnly-bind _ _ (ReadsOnly-tombstones plan _ b.transactions)
      (λ more. ReadsOnly-bind _ _ (ReadsOnly-keep_known _ _ _ _) (λ scheduled. ReadsOnly-pure _)))

ReadsOnly-events :
    (initial : Bool) (plan : String) (b : Batch) → ReadsOnly (events_unless initial plan b)
unfolding events_unless link_events
ReadsOnly-events true plan b = ReadsOnly-pure []
ReadsOnly-events false plan b = ReadsOnly-query _

IsAtomic-apply_plan :
    (s : Syncer) (plan : String) (initial : Bool) (fetched : Option PlanDetail × ℤ)
    → IsAtomic (apply_plan s plan initial fetched)
unfolding apply_plan update
IsAtomic-apply_plan s plan initial (detail, sk) =
    IsAtomic-read-bind _ _ (ReadsOnly-stitch plan (map_plan detail)) (λ st.
      IsAtomic-read-bind _ _ (ReadsOnly-events initial plan st.1) (λ events.
        IsAtomic-bind-pure _ _ (IsAtomic-write_tx keys_hold (write_tick s plan st.1 sk))))

IsAtomic-after_fetch :
    (s : Syncer) (plan : String) (initial : Bool) (r : Result (Option PlanDetail × ℤ))
    → IsAtomic (after_fetch s plan initial r)
unfolding after_fetch
IsAtomic-after_fetch s plan initial (ok fetched) = IsAtomic-apply_plan s plan initial fetched
IsAtomic-after_fetch s plan initial (err e) =
    IsAtomic-if (skippable e) _ _ (IsAtomic-pure _) (IsAtomic-raise e)

IsAtomic-sync_plan : (s : Syncer) (plan : String) → IsAtomic (sync_plan s plan)
unfolding sync_plan get_sync_state
IsAtomic-sync_plan s plan =
    IsAtomic-read-bind _ _ (ReadsOnly-query _)
      (λ cur. IsAtomic-after_fetch s plan (not (is_some cur)) (fetch (s.client plan) cur))

Undone-err :
    (old : Mirror) (p : Result Tick × Session Mirror) (e : Error)
    → Undone old p
    → p.0 ≡ err e
    → p.1.db ≡ old
Undone-err old (ok t, s) e u h = ground arith
Undone-err old (err f, s) e u h = u

-- If SyncPlan returns an error, then the whole mirror, the cursor included, is what it was before the
-- tick: whatever statement the driver fails, whatever the hook and the network return.
pub failed_tick_unchanged :
    (s : Syncer) (plan : String) (σ : Session Mirror) (e : Error)
    → (sync_plan s plan σ).0 ≡ err e
    → (sync_plan s plan σ).1.db ≡ σ.db
failed_tick_unchanged s plan σ e =
    Undone-err σ.db (sync_plan s plan σ) e ((IsAtomic-sync_plan s plan).undone σ)
