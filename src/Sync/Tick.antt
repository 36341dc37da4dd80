-- ===== src/Sync/Tick.antt =====
-- sync/sync.go: one tick for a plan, and the import trigger.
pub mod Plain
pub mod Atomic
pub mod Applied
pub mod Success
pub mod Tables
pub mod Events
pub mod Deletions
pub mod Isolation
pub mod Buckets
pub mod Cursor
use ynab_auto_categorizer.Prelude.{
  ℕ, ℤ, String, Bool, true, false, not, Option, none, some, List, [], ◌∷◌, Error, Result, ok, err,
  budget_exhausted, rate_limited, length, is_some, if◌then◌else◌,
}
use ynab_auto_categorizer.Sql.{Sql, pure, raise, lift, ◌>>=◌, ◌>>◌}
use ynab_auto_categorizer.Mirror.{Mirror}
use ynab_auto_categorizer.Mirror.Rows.{Time, SyncState}
use ynab_auto_categorizer.Mirror.Writes
use ynab_auto_categorizer.Mirror.Writes.{Tx, get_sync_state, set_sync_state, update}
use ynab_auto_categorizer.Ynab.Api.{PlanDetail}
use ynab_auto_categorizer.Sync.Mapping.{Batch, map_plan}
use ynab_auto_categorizer.Sync.Stitch.{stitch}
use ynab_auto_categorizer.Sync.Links.{LinkEvent, link_events}

-- What the network answers to the requests of one tick: a plan (`none` is nil) with the server
-- knowledge that comes with it. A delta is asked for from a cursor.
pub record PlanApi : Type 0 where
  pub export : Result (Option PlanDetail × ℤ)
  pub delta : ℤ → Result (Option PlanDetail × ℤ)
  pub import_transactions : Result (List String)

pub record Syncer : Type 0 where
  pub client : String → PlanApi
  pub now : Time
  pub before_cursor : Option (Result (Unit {0}))

pub record Tick : Type 0 where
  pub initial : Bool
  pub skipped : Bool
  pub server_knowledge : ℤ
  pub rows : List (String × ℕ)
  pub orphans : ℕ
  pub link_events : List LinkEvent

unfoldable pub skippable : Error → Bool
skippable budget_exhausted = true
skippable rate_limited = true
skippable _ = false

unfoldable pub counts : Batch → List (String × ℕ)
counts b =
    ("accounts", length b.accounts)
    ∷ ("category_groups", length b.category_groups)
    ∷ ("categories", length b.categories)
    ∷ ("payees", length b.payees)
    ∷ ("transactions", length b.transactions)
    ∷ ("subtransactions", length b.subs)
    ∷ ("months", length b.months)
    ∷ ("month_categories", length b.month_cats)
    ∷ ("scheduled_transactions", length b.scheduled)
    ∷ ("scheduled_subtransactions", length b.scheduled_subs)
    ∷ []

unfoldable pub upsert_batch : String → Batch → Time → Tx
upsert_batch plan b synced_at =
    Writes.upsert_accounts plan b.accounts
    >> (Writes.upsert_category_groups plan b.category_groups
        >> (Writes.upsert_categories plan b.categories
            >> (Writes.upsert_payees plan b.payees
                >> (Writes.upsert_transactions plan b.transactions synced_at
                    >> (Writes.upsert_subtransactions plan b.subs
                        >> (Writes.upsert_months plan b.months
                            >> (Writes.upsert_month_categories plan b.month_cats
                                >> (Writes.upsert_scheduled_transactions plan b.scheduled
                                    >> Writes.upsert_scheduled_subtransactions plan
                                        b.scheduled_subs))))))))

unfoldable pub run_hook : Option (Result (Unit {0})) → Tx
run_hook none = pure tt
run_hook (some r) = lift r

-- The body of the write transaction: the rows, then the cursor.
unfoldable pub write_tick : Syncer → String → Batch → ℤ → Tx
write_tick s plan b sk =
    upsert_batch plan b s.now
    >> (run_hook s.before_cursor
        >> set_sync_state (record { plan_id = plan; server_knowledge = sk; synced_at = s.now }))

unfoldable pub events_unless : Bool → String → Batch → Sql Mirror (List LinkEvent)
events_unless true plan b = pure []
events_unless false plan b = link_events plan b.accounts

unfoldable pub apply_plan : Syncer → String → Bool → Option PlanDetail × ℤ → Sql Mirror Tick
apply_plan s plan initial (detail, sk) = stitch plan (map_plan detail) >>= λ stitched.
    events_unless initial plan stitched.1 >>= λ events.
    update (write_tick s plan stitched.1 sk) >>= λ _. pure (record {
      initial = initial;
      skipped = false;
      server_knowledge = sk;
      rows = counts stitched.1;
      orphans = stitched.0;
      link_events = events;
    })

abbrev pub skipped_tick : Bool → Tick
skipped_tick initial = record {
  initial = initial;
  skipped = true;
  server_knowledge = ℤ.pos 0;
  rows = [];
  orphans = 0;
  link_events = [];
}

unfoldable pub after_fetch :
    Syncer → String → Bool → Result (Option PlanDetail × ℤ) → Sql Mirror Tick
unfolding skippable
after_fetch s plan initial (ok fetched) = apply_plan s plan initial fetched
after_fetch s plan initial (err e) = if skippable e then pure (skipped_tick initial) else raise e

-- A full export if the plan has no cursor, else one delta from it.
unfoldable pub fetch : PlanApi → Option SyncState → Result (Option PlanDetail × ℤ)
fetch api none = api.export
fetch api (some cur) = api.delta cur.server_knowledge

unfoldable pub sync_plan : Syncer → String → Sql Mirror Tick
sync_plan s plan = get_sync_state plan >>= λ cur.
    after_fetch s plan (not (is_some cur)) (fetch (s.client plan) cur)

pub record Imported : Type 0 where
  pub imported : ℕ
  pub skipped : Bool

pub trigger_import : PlanApi → Result Imported
unfolding skippable
trigger_import api = elim (api.import_transactions) [
  | ok ids ↦ ok (record { imported = length ids; skipped = false })
  | err e ↦ if skippable e then ok (record { imported = 0; skipped = true }) else err e
]
