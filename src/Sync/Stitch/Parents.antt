-- ===== src/Sync/Stitch/Parents.antt =====
-- sync/mirror.go, stitch: every child that is written has a parent, in the batch or in the mirror.
use ynab_auto_categorizer.Prelude.{
  String, Bool, true, not, ◌||◌, ◌≡◌, refl, ◌∙◌, List, [], ◌∷◌, map, all, keep, contains, is_some,
  arith, ==-refl, string_eq, pair_eq, all-append, all-keep, all_of, all_imp, all-keep_of_all,
  all-map, contains_own, Bool-cases, inl, inr,
}
use ynab_auto_categorizer.Table.{Table, find}
use ynab_auto_categorizer.Table.Batches.{mentions}
use ynab_auto_categorizer.Mirror.{Mirror, Key}
use ynab_auto_categorizer.Mirror.Find.{transaction_key, scheduled_key}
use ynab_auto_categorizer.Mirror.Rows.{Transaction, Subtransaction, ScheduledTransaction}
use ynab_auto_categorizer.Sync.Mapping.{Batch}
use ynab_auto_categorizer.Sync.Stitch.{select_live, is_live_child, live_copy, buried_copy, bury}
use ynab_auto_categorizer.Sync.Stitch.Plain.{buried, has_parent, has_schedule, stitched}

module _ (plan : String) where
  contains-transactions :
      (i : String) (ts : List Transaction)
      → contains i (map (λ t. t.id) ts) ≡ mentions (transaction_key plan) (plan, i) ts
  contains-transactions i [] = refl
  contains-transactions i (t ∷ ts) = ground (arith, ==-refl plan, contains-transactions i ts)

  contains-scheduled :
      (i : String) (ts : List ScheduledTransaction)
      → contains i (map (λ t. t.id) ts) ≡ mentions (scheduled_key plan) (plan, i) ts
  contains-scheduled i [] = refl
  contains-scheduled i (t ∷ ts) = ground (arith, ==-refl plan, contains-scheduled i ts)

  bury_of_parent :
      (p : String → Bool) (txn : String) (seen : List String) (t : Table Key Subtransaction)
      → p txn ≡ true
      → all (λ s. p s.transaction_id) (bury seen (select_live plan txn t)) ≡ true
  unfolding bury select_live
  bury_of_parent p txn seen t h =
      all-map buried_copy _ (keep (λ c. not (contains c.id seen)) _)
      ∙ all-keep_of_all (λ c. not (contains c.id seen)) (λ s. p s.transaction_id)
          (map (live_copy txn) (keep (is_live_child plan txn) t))
          (all-map (live_copy txn) (λ s. p s.transaction_id) (keep (is_live_child plan txn) t)
            ∙ all_of _ (keep (is_live_child plan txn) t) (λ x. h))

  buried_have_parents :
      (p : String → Bool) (seen : List String) (ts : List Transaction) (d : Mirror)
      → all (λ t. p t.id) ts ≡ true
      → all (λ s. p s.transaction_id) (buried plan seen ts d) ≡ true
  unfolding buried
  buried_have_parents p seen [] d h = refl
  buried_have_parents p seen (t ∷ ts) d h = elim (Bool-cases t.deleted) [
    | inl gone ↦ rw gone (
        all-append (λ s. p s.transaction_id) _ _
          (bury_of_parent p t.id seen d.subtransactions (ground arith))
          (buried_have_parents p seen ts d (ground arith)))
    | inr live ↦ rw live (buried_have_parents p seen ts d (ground arith))
  ]

  module _ (b : Batch) (d : Mirror) where
    pub subs_have_parents :
        all (λ s. has_parent plan b d s.transaction_id) (stitched plan b d).1.subs ≡ true
    unfolding stitched
    subs_have_parents =
        all-append (λ s. has_parent plan b d s.transaction_id) _ _
          (all-keep (λ s. has_parent plan b d s.transaction_id) b.subs)
          (buried_have_parents (has_parent plan b d) _ b.transactions d (
            all_imp _ _ b.transactions (λ t h. ground arith)
              (contains_own (λ t. t.id) b.transactions)))

    pub scheduled_have_parents :
        all
          (λ s. has_schedule plan b d s.scheduled_transaction_id)
          (stitched plan b d).1.scheduled_subs
        ≡ true
    unfolding stitched
    scheduled_have_parents =
        all-keep (λ s. has_schedule plan b d s.scheduled_transaction_id) b.scheduled_subs

    -- The same, as the upserts need it.
    pub has_parent_lem :
        (i : String)
        → has_parent plan b d i ≡ (
            mentions (transaction_key plan) (plan, i) b.transactions
            || is_some (find (plan, i) d.transactions))
    unfolding has_parent
    has_parent_lem i = ground (arith, contains-transactions i b.transactions)

    pub has_schedule_lem :
        (i : String)
        → has_schedule plan b d i ≡ (
            mentions (scheduled_key plan) (plan, i) b.scheduled
            || is_some (find (plan, i) d.scheduled_transactions))
    unfolding has_schedule
    has_schedule_lem i = ground (arith, contains-scheduled i b.scheduled)
