-- ===== src/Sync/Tick/Plain.antt =====
-- What a tick does when the driver does not interfere.
use ynab_auto_categorizer.Prelude.{
  ℕ, ℤ, String, Bool, true, false, not, Option, none, some, Result, ok, err, is_some, List, [],
  if◌then◌else◌, string_eq,
}
use ynab_auto_categorizer.Sql.{pure, raise, ◌>>=◌}
use ynab_auto_categorizer.Sql.Refines.{
  Method, Refines, Refines-pure, Refines-lift, Refines-raise, Refines-run, Refines-query,
  Refines-bind, Refines-upsert, Refines-write_tx, carry_on, write_each, settle,
}
use ynab_auto_categorizer.Table.{find}
use ynab_auto_categorizer.Mirror.{
  Mirror, keys_hold, put_account, put_category_group, put_category, put_payee, put_transaction,
  put_subtransaction, put_month, put_month_category, put_scheduled, put_scheduled_sub,
  put_sync_state,
}
use ynab_auto_categorizer.Mirror.Rows.{Time, SyncState}
use ynab_auto_categorizer.Mirror.Writes.{
  Tx, get_sync_state, set_sync_state, update, upsert_accounts, upsert_category_groups,
  upsert_categories, upsert_payees, upsert_transactions, upsert_subtransactions, upsert_months,
  upsert_month_categories, upsert_scheduled_transactions, upsert_scheduled_subtransactions,
}
use ynab_auto_categorizer.Ynab.Api.{PlanDetail}
use ynab_auto_categorizer.Sync.Mapping.{Batch, map_plan}
use ynab_auto_categorizer.Sync.Stitch.Plain.{reads, stitched, Refines-stitch}
use ynab_auto_categorizer.Sync.Links.{LinkEvent, link_events, events_for, prior}
use ynab_auto_categorizer.Sync.Tick.{
  Syncer, Tick, skippable, counts, upsert_batch, run_hook, write_tick, events_unless, apply_plan,
  skipped_tick, after_fetch, fetch, sync_plan,
}

-- The mirror with every row of the batch in it.
unfoldable pub written : String → Batch → Time → Mirror → Mirror
written plan b now m = write_each (put_scheduled_sub plan) b.scheduled_subs (
    write_each (put_scheduled plan) b.scheduled (
      write_each (put_month_category plan) b.month_cats (
        write_each (put_month plan) b.months (
          write_each (put_subtransaction plan) b.subs (
            write_each (put_transaction plan now) b.transactions (
              write_each (put_payee plan) b.payees (
                write_each (put_category plan) b.categories (
                  write_each (put_category_group plan) b.category_groups
                    (write_each (put_account plan) b.accounts m)))))))))

Refines-upsert_batch :
    (plan : String) (b : Batch) (now : Time)
    → Refines (upsert_batch plan b now) (λ m. (ok tt, written plan b now m))
unfolding upsert_batch written upsert_accounts upsert_category_groups upsert_categories
    upsert_payees upsert_transactions upsert_subtransactions upsert_months upsert_month_categories
    upsert_scheduled_transactions upsert_scheduled_subtransactions
Refines-upsert_batch plan b now = step (Refines-upsert (put_account plan) b.accounts) (
    step (Refines-upsert (put_category_group plan) b.category_groups) (
      step (Refines-upsert (put_category plan) b.categories) (
        step (Refines-upsert (put_payee plan) b.payees) (
          step (Refines-upsert (put_transaction plan now) b.transactions) (
            step (Refines-upsert (put_subtransaction plan) b.subs) (
              step (Refines-upsert (put_month plan) b.months) (
                step (Refines-upsert (put_month_category plan) b.month_cats) (
                  step (Refines-upsert (put_scheduled plan) b.scheduled)
                    (Refines-upsert (put_scheduled_sub plan) b.scheduled_subs)))))))))
  where
    step :
        {m n : Tx} {f g : Mirror → Mirror}
        → Refines m (λ d. (ok tt, f d))
        → Refines n (λ d. (ok tt, g d))
        → Refines (m >>= λ _. n) (λ d. (ok tt, g (f d)))
    step {m} {n} {f} {g} h k = Refines-bind m (λ _. n) _ (λ _ d. (ok tt, g d)) h (λ _. k)

abbrev pub cursor : Syncer → String → ℤ → SyncState
cursor s plan sk = record { plan_id = plan; server_knowledge = sk; synced_at = s.now }

-- The body of the transaction.
abbrev pub after_hook : Option (Result (Unit {0})) → Result (Unit {0})
after_hook none = ok tt
after_hook (some r) = r

unfoldable pub body : Syncer → String → Batch → ℤ → Method Mirror (Unit {0})
body s plan b sk m =
    carry_on (after_hook s.before_cursor) (λ _ d. (ok tt, put_sync_state (cursor s plan sk) d))
      (written plan b s.now m)

Refines-run_hook :
    (h : Option (Result (Unit {0}))) → Refines {S = Mirror} (run_hook h) (λ d. (after_hook h, d))
unfolding run_hook
Refines-run_hook none = Refines-pure tt
Refines-run_hook (some r) = Refines-lift r

Refines-write_tick :
    (s : Syncer) (plan : String) (b : Batch) (sk : ℤ)
    → Refines (write_tick s plan b sk) (body s plan b sk)
unfolding write_tick body set_sync_state
Refines-write_tick s plan b sk = Refines-bind _ _ _ _ (Refines-upsert_batch plan b s.now) (λ _.
    Refines-bind _ _ _ (λ _ d. (ok tt, put_sync_state (cursor s plan sk) d))
      (Refines-run_hook s.before_cursor) (λ _. Refines-run (put_sync_state (cursor s plan sk))))

abbrev pub new_events : Bool → String → Batch → Mirror → List LinkEvent
new_events true plan b m = []
new_events false plan b m = events_for (prior plan m) b.accounts

Refines-events :
    (initial : Bool) (plan : String) (b : Batch)
    → Refines (events_unless initial plan b) (reads (new_events initial plan b))
unfolding events_unless link_events
Refines-events true plan b = Refines-pure []
Refines-events false plan b = Refines-query _

-- What a tick that applies a plan reports.
abbrev pub report : Bool → String → ℤ → ℕ × Batch → List LinkEvent → Tick
report initial plan sk (orphans, b) events = record {
  initial = initial;
  skipped = false;
  server_knowledge = sk;
  rows = counts b;
  orphans = orphans;
  link_events = events;
}

unfoldable pub applied : Syncer → String → Bool → Option PlanDetail × ℤ → Method Mirror Tick
unfolding body
applied s plan initial (detail, sk) m =
    let st = stitched plan (map_plan detail) m in
    carry_on (settle keys_hold m (body s plan st.1 sk m)).0
      (λ _ d. (ok (report initial plan sk st (new_events initial plan st.1 m)), d))
      (settle keys_hold m (body s plan st.1 sk m)).1

Refines-apply_plan :
    (s : Syncer) (plan : String) (initial : Bool) (fetched : Option PlanDetail × ℤ)
    → Refines (apply_plan s plan initial fetched) (applied s plan initial fetched)
unfolding apply_plan applied update
Refines-apply_plan s plan initial (detail, sk) =
    Refines-bind _ _ _ _ (Refines-stitch plan (map_plan detail)) (λ st.
      Refines-bind _ _ _ _ (Refines-events initial plan st.1) (λ events.
        Refines-bind _ _ _ (λ _ d. (ok (report initial plan sk st events), d))
          (Refines-write_tx keys_hold _ _ (Refines-write_tick s plan st.1 sk))
          (λ _. Refines-pure _)))

unfoldable pub ticked : Syncer → String → Bool → Result (Option PlanDetail × ℤ) → Method Mirror Tick
unfolding skippable
ticked s plan initial (ok fetched) m = applied s plan initial fetched m
ticked s plan initial (err e) m = if skippable e then (ok (skipped_tick initial), m) else (err e, m)

unfoldable pub synced : Syncer → String → Method Mirror Tick
synced s plan m =
    let cur = find plan m.sync_state in
    ticked s plan (not (is_some cur)) (fetch (s.client plan) cur) m

Refines-after_fetch :
    (s : Syncer) (plan : String) (initial : Bool) (r : Result (Option PlanDetail × ℤ))
    → Refines (after_fetch s plan initial r) (ticked s plan initial r)
unfolding after_fetch ticked
Refines-after_fetch s plan initial (ok fetched) = Refines-apply_plan s plan initial fetched
Refines-after_fetch s plan initial (err e) = skip_or_raise (skippable e)
  where
    skip_or_raise :
        (c : Bool)
        → Refines {S = Mirror}
            (if c then pure (skipped_tick initial) else raise e)
            (λ m. if c then (ok (skipped_tick initial), m) else (err e, m))
    skip_or_raise true = Refines-pure _
    skip_or_raise false = Refines-raise e

-- SyncPlan, statement by statement and with any driver faults, either reports a driver error or does
-- what `synced` says; with no faults it does what `synced` says.
pub Refines-sync_plan : (s : Syncer) (plan : String) → Refines (sync_plan s plan) (synced s plan)
unfolding sync_plan synced get_sync_state
Refines-sync_plan s plan =
    Refines-bind _ _ _ _ (Refines-query (λ m. find plan m.sync_state))
      (λ cur. Refines-after_fetch s plan (not (is_some cur)) (fetch (s.client plan) cur))
