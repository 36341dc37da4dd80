-- ===== src/Sync/Tick/Isolation.antt =====
-- sync/sync.go, SyncPlan: a tick touches the rows of its own plan only.
use mathlib.Core.Path.{subst}
use ynab_auto_categorizer.Prelude.{
  ℤ, String, false, ◌≡◌, ◌≢◌, refl, ◌∙◌, sym, Option, List, [], ◌∷◌, Result, ok, err, arith, ◌==◌,
  Eq, string_eq, pair_eq,
}
use ynab_auto_categorizer.Sql.{Session}
use ynab_auto_categorizer.Table.{Table, find}
use ynab_auto_categorizer.Table.Laws.{find-replace}
use ynab_auto_categorizer.Table.Batches.{mentions, merge_all, find-merge_all, newest_unmentioned}
use ynab_auto_categorizer.Mirror.{Key, Mirror, put_sync_state}
use ynab_auto_categorizer.Mirror.Find.{
  account_row, transaction_row, whole_row, account_key, category_group_key, category_key, payee_key,
  transaction_key, subtransaction_key, month_key, month_category_key, scheduled_key,
  scheduled_sub_key,
}
use ynab_auto_categorizer.Ynab.Api.{PlanDetail}
use ynab_auto_categorizer.Sync.Tick.{Syncer, Tick, sync_plan}
use ynab_auto_categorizer.Sync.Tick.Plain.{cursor}
use ynab_auto_categorizer.Sync.Tick.Tables.{merged, written-merged}
use ynab_auto_categorizer.Sync.Tick.Success.{Ended, reported_tick_ends}
use ynab_auto_categorizer.Sync.Tick.Applied.{after_tick, stitched_plan}
use ynab_auto_categorizer.Sync.Tick.Atomic.{failed_tick_unchanged}

-- The rows of a plan are the same in two mirrors.
pub record SamePlan (q : String) (m m' : Mirror) : Type 0 where
  pub accounts : (i : String) → find (q, i) m'.accounts ≡ find (q, i) m.accounts
  pub category_groups :
      (i : String) → find (q, i) m'.category_groups ≡ find (q, i) m.category_groups
  pub categories : (i : String) → find (q, i) m'.categories ≡ find (q, i) m.categories
  pub payees : (i : String) → find (q, i) m'.payees ≡ find (q, i) m.payees
  pub transactions : (i : String) → find (q, i) m'.transactions ≡ find (q, i) m.transactions
  pub subtransactions :
      (i : String) → find (q, i) m'.subtransactions ≡ find (q, i) m.subtransactions
  pub months : (i : String) → find (q, i) m'.months ≡ find (q, i) m.months
  pub month_categories :
      (i c : String) → find ((q, i), c) m'.month_categories ≡ find ((q, i), c) m.month_categories
  pub scheduled_transactions :
      (i : String) → find (q, i) m'.scheduled_transactions ≡ find (q, i) m.scheduled_transactions
  pub scheduled_subtransactions :
      (i : String)
      → find (q, i) m'.scheduled_subtransactions ≡ find (q, i) m.scheduled_subtransactions
  pub sync_state : find q m'.sync_state ≡ find q m.sync_state

pub SamePlan-refl : (q : String) (m : Mirror) → SamePlan q m m
SamePlan-refl q m = record {
  accounts = λ i. refl;
  category_groups = λ i. refl;
  categories = λ i. refl;
  payees = λ i. refl;
  transactions = λ i. refl;
  subtransactions = λ i. refl;
  months = λ i. refl;
  month_categories = λ i c. refl;
  scheduled_transactions = λ i. refl;
  scheduled_subtransactions = λ i. refl;
  sync_state = refl;
}

pub SamePlan-trans :
    (q : String) (m m' m'' : Mirror) → SamePlan q m m' → SamePlan q m' m'' → SamePlan q m m''
SamePlan-trans q m m' m'' h k = record {
  accounts = λ i. k.accounts i ∙ h.accounts i;
  category_groups = λ i. k.category_groups i ∙ h.category_groups i;
  categories = λ i. k.categories i ∙ h.categories i;
  payees = λ i. k.payees i ∙ h.payees i;
  transactions = λ i. k.transactions i ∙ h.transactions i;
  subtransactions = λ i. k.subtransactions i ∙ h.subtransactions i;
  months = λ i. k.months i ∙ h.months i;
  month_categories = λ i c. k.month_categories i c ∙ h.month_categories i c;
  scheduled_transactions = λ i. k.scheduled_transactions i ∙ h.scheduled_transactions i;
  scheduled_subtransactions = λ i. k.scheduled_subtransactions i ∙ h.scheduled_subtransactions i;
  sync_state = k.sync_state ∙ h.sync_state;
}

module _ {A K : Type 0} ⦃e : Eq K⦄ (key : A → K) (j : K)
    (apart : (x : A) → (key x == j) ≡ false) where
  unmentioned : (xs : List A) → mentions key j xs ≡ false
  unmentioned [] = refl
  unmentioned (x ∷ xs) = ground (arith, apart x, unmentioned xs)

  untouched :
      {R : Type 0} (make : A → Option R → R) (xs : List A) (t : Table K R)
      → find j (merge_all key make xs t) ≡ find j t
  untouched make xs t =
      find-merge_all key make j xs t ∙ newest_unmentioned key make j xs (find j t) (unmentioned xs)

module _ (plan q : String) (other : q ≢ plan) where
  plans_differ : (plan == q) ≡ false
  plans_differ = ground (arith, string_eq.beq_iff plan q)

  keys_differ : (a i : String) → ◌==◌ {A = Key} (plan, a) (q, i) ≡ false
  keys_differ a i = ground (arith, plans_differ)

  long_keys_differ : (a c i d : String) → ◌==◌ {A = Key × String} ((plan, a), c) ((q, i), d) ≡ false
  long_keys_differ a c i d = ground (arith, plans_differ)

  SamePlan-after_tick :
      (s : Syncer) (m : Mirror) (detail : Option PlanDetail) (sk : ℤ)
      → SamePlan q m (after_tick s plan m detail sk)
  unfolding after_tick put_sync_state
  SamePlan-after_tick s m detail sk =
      subst (λ w. SamePlan q m (put_sync_state (cursor s plan sk) w))
        (sym (written-merged plan (stitched_plan s plan m detail sk).1 s.now m))
        (unfold merged in
          record {
            accounts = λ i. untouched (account_key plan) _ (λ x. keys_differ _ i) account_row _ _;
            category_groups =
                λ i. untouched (category_group_key plan) _ (λ x. keys_differ _ i) whole_row _ _;
            categories = λ i. untouched (category_key plan) _ (λ x. keys_differ _ i) whole_row _ _;
            payees = λ i. untouched (payee_key plan) _ (λ x. keys_differ _ i) whole_row _ _;
            transactions = λ i.
                untouched (transaction_key plan) _ (λ x. keys_differ _ i) (transaction_row s.now) _
                  _;
            subtransactions =
                λ i. untouched (subtransaction_key plan) _ (λ x. keys_differ _ i) whole_row _ _;
            months = λ i. untouched (month_key plan) _ (λ x. keys_differ _ i) whole_row _ _;
            month_categories = λ i c.
                untouched (month_category_key plan) _ (λ x. long_keys_differ _ _ i c) whole_row _ _;
            scheduled_transactions =
                λ i. untouched (scheduled_key plan) _ (λ x. keys_differ _ i) whole_row _ _;
            scheduled_subtransactions =
                λ i. untouched (scheduled_sub_key plan) _ (λ x. keys_differ _ i) whole_row _ _;
            sync_state =
                ground (arith, find-replace q plan (cursor s plan sk) m.sync_state, plans_differ);
          })

Ended-isolated :
    (plan q : String) (s : Syncer) (m : Mirror) (t : Tick) (m' : Mirror)
    → q ≢ plan
    → Ended s plan m t m'
    → SamePlan q m m'
Ended-isolated plan q s m t m' other (Ended.skip e a b c d) =
    subst (SamePlan q m) (sym d) (SamePlan-refl q m)
Ended-isolated plan q s m t m' other (Ended.commit detail sk a b d k) =
    subst (SamePlan q m) (sym d) (SamePlan-after_tick plan q other s m detail sk)

module _ (s : Syncer) (plan q : String) (σ : Session Mirror) where
  isolated :
      (r : Result Tick)
      → (sync_plan s plan σ).0 ≡ r
      → q ≢ plan
      → SamePlan q σ.db (sync_plan s plan σ).1.db
  isolated (ok t) h other =
      Ended-isolated plan q s σ.db t (sync_plan s plan σ).1.db other
        (reported_tick_ends s plan σ t h)
  isolated (err e) h other =
      subst (SamePlan q σ.db) (sym (failed_tick_unchanged s plan σ e h)) (SamePlan-refl q σ.db)

  -- SyncPlan leaves every row and the cursor of every other plan as they were, whether it commits,
  -- skips or fails.
  pub other_plans_unchanged : q ≢ plan → SamePlan q σ.db (sync_plan s plan σ).1.db
  other_plans_unchanged = isolated (sync_plan s plan σ).0 refl
