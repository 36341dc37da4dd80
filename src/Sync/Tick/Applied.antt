-- ===== src/Sync/Tick/Applied.antt =====
-- sync/sync.go, SyncPlan: a batch that is written leaves the foreign keys in order.
use ynab_auto_categorizer.Prelude.{
  ℕ, ℤ, String, Bool, true, ◌≡◌, refl, ◌∙◌, sym, ap, Option, none, some, Result, ok, err, all,
  all_imp, arith, and_intro, and_left, and_right, string_eq, pair_eq,
}
use ynab_auto_categorizer.Table.Batches.{mentions}
use ynab_auto_categorizer.Mirror.{
  Mirror, keys_hold, has_transaction, has_month, has_scheduled, put_sync_state,
}
use ynab_auto_categorizer.Mirror.Keys.{refers-merge_all}
use ynab_auto_categorizer.Mirror.Find.{
  transaction_row, whole_row, transaction_key, subtransaction_key, month_key, month_category_key,
  scheduled_key, scheduled_sub_key,
}
use ynab_auto_categorizer.Mirror.Rows.{Time, SyncState}
use ynab_auto_categorizer.Ynab.Api.{PlanDetail}
use ynab_auto_categorizer.Sync.Mapping.{Batch, map_plan}
use ynab_auto_categorizer.Sync.Mapping.Months.{map_plan_months}
use ynab_auto_categorizer.Sync.Stitch.Plain.{stitched}
use ynab_auto_categorizer.Sync.Stitch.Parents.{
  subs_have_parents, scheduled_have_parents, has_parent_lem, has_schedule_lem,
}
use ynab_auto_categorizer.Sync.Tick.{Syncer, Tick}
use ynab_auto_categorizer.Sync.Tick.Plain.{written, cursor, applied, report, new_events}
use ynab_auto_categorizer.Sync.Tick.Tables.{merged, written-merged}

module _ (plan : String) (b : Batch) (now : Time) (m : Mirror) where
  abbrev st : Batch
  st = (stitched plan b m).1

  subs_refer :
      all (has_transaction m) m.subtransactions ≡ true
      → all (has_transaction (merged plan st now m)) (merged plan st now m).subtransactions ≡ true
  unfolding merged stitched
  subs_refer h =
      refers-merge_all (transaction_key plan) (transaction_row now) (subtransaction_key plan)
        whole_row (λ x. (x.0.0, x.1.transaction_id)) (λ s. (plan, s.transaction_id)) b.transactions
        st.subs m.transactions m.subtransactions (λ c o. refl)
        (all_imp _ _ st.subs (λ c q. sym (has_parent_lem plan b m c.transaction_id) ∙ q)
          (subs_have_parents plan b m))
        h

  scheduled_refer :
      all (has_scheduled m) m.scheduled_subtransactions ≡ true
      → all (has_scheduled (merged plan st now m)) (merged plan st now m).scheduled_subtransactions
        ≡ true
  unfolding merged stitched
  scheduled_refer h =
      refers-merge_all (scheduled_key plan) whole_row (scheduled_sub_key plan) whole_row
        (λ x. (x.0.0, x.1.scheduled_transaction_id)) (λ s. (plan, s.scheduled_transaction_id))
        b.scheduled st.scheduled_subs m.scheduled_transactions m.scheduled_subtransactions
        (λ c o. refl)
        (all_imp _ _ st.scheduled_subs
          (λ c q. sym (has_schedule_lem plan b m c.scheduled_transaction_id) ∙ q)
          (scheduled_have_parents plan b m))
        h

  months_refer :
      all (λ c. mentions (month_key plan) (plan, c.month) b.months) b.month_cats ≡ true
      → all (has_month m) m.month_categories ≡ true
      → all (has_month (merged plan st now m)) (merged plan st now m).month_categories ≡ true
  unfolding merged stitched
  months_refer own h =
      refers-merge_all (month_key plan) whole_row (month_category_key plan) whole_row (λ x. x.0.0)
        (λ c. (plan, c.month)) b.months b.month_cats m.months m.month_categories (λ c o. refl)
        (all_imp _ _ b.month_cats (λ c q. ground arith) own) h

  keys_hold-merged :
      all (λ c. mentions (month_key plan) (plan, c.month) b.months) b.month_cats ≡ true
      → keys_hold m ≡ true
      → keys_hold (merged plan st now m) ≡ true
  unfolding keys_hold
  keys_hold-merged own h =
      let first = and_left _ h in
      and_intro (and_intro (subs_refer (and_left _ first)) (months_refer own (and_right _ first)))
        (scheduled_refer (and_right _ h))

-- The keys do not look at the cursor.
keys_hold-put_sync_state :
    (c : SyncState) (m : Mirror) → keys_hold (put_sync_state c m) ≡ keys_hold m
unfolding keys_hold put_sync_state
keys_hold-put_sync_state c m = refl

module _ (s : Syncer) (plan : String) (m : Mirror) (detail : Option PlanDetail) (sk : ℤ) where
  abbrev pub stitched_plan : ℕ × Batch
  stitched_plan = stitched plan (map_plan detail) m

  -- The mirror after the tick: every row of the stitched batch, and the new cursor.
  unfoldable pub after_tick : Mirror
  after_tick = put_sync_state (cursor s plan sk) (written plan stitched_plan.1 s.now m)

  pub keys_hold-after_tick : keys_hold m ≡ true → keys_hold after_tick ≡ true
  unfolding after_tick
  keys_hold-after_tick h =
      keys_hold-put_sync_state (cursor s plan sk) (written plan stitched_plan.1 s.now m)
      ∙ ap keys_hold (written-merged plan stitched_plan.1 s.now m)
      ∙ keys_hold-merged plan (map_plan detail) s.now m (map_plan_months plan detail) h

  pub applied_commits :
      (initial : Bool)
      → s.before_cursor ≡ none
      → keys_hold m ≡ true
      → applied s plan initial (detail, sk) m ≡ (
        ok (report initial plan sk stitched_plan (new_events initial plan stitched_plan.1 m)),
        after_tick,
      )
  unfolding applied after_tick
  applied_commits initial h k = rw (h, keys_hold-after_tick k)

  -- The other way round: a plan that was applied was committed with its keys in order.
  pub applied_inv :
      (initial : Bool) (t : Tick)
      → (applied s plan initial (detail, sk) m).0 ≡ ok t
      → (t ≡ report initial plan sk stitched_plan (new_events initial plan stitched_plan.1 m))
        × ((applied s plan initial (detail, sk) m).1 ≡ after_tick)
        × (keys_hold after_tick ≡ true)
  unfolding applied after_tick
  applied_inv initial t = by_hook s.before_cursor refl
    where
      by_hook :
          (h : Option (Result (Unit {0})))
          → s.before_cursor ≡ h
          → (applied s plan initial (detail, sk) m).0 ≡ ok t
          → (t ≡ report initial plan sk stitched_plan (new_events initial plan stitched_plan.1 m))
            × ((applied s plan initial (detail, sk) m).1 ≡ after_tick)
            × (keys_hold after_tick ≡ true)
      by_hook none e k = ground arith
      by_hook (some (ok u)) e k = ground arith
      by_hook (some (err f)) e k = ground arith
