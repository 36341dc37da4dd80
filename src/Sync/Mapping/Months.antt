-- ===== src/Sync/Mapping/Months.antt =====
-- sync/mapping.go: the categories of a month come with the month itself.
use ynab_auto_categorizer.Prelude.{
  String, Bool, true, Option, none, some, ◌≡◌, refl, List, [], ◌∷◌, map, all, all-append, all_imp,
  arith, ==-refl, string_eq, pair_eq,
}
use ynab_auto_categorizer.Table.Batches.{mentions}
use ynab_auto_categorizer.Mirror.Find.{month_key}
use ynab_auto_categorizer.Mirror.Rows.{MonthCategory}
use ynab_auto_categorizer.Ynab.Api
use ynab_auto_categorizer.Sync.Mapping.{map_month, map_month_category, map_month_cats, map_plan}

module _ (plan : String) where
  abbrev has_its_month : List Api.Month → MonthCategory → Bool
  has_its_month ms c = mentions (month_key plan) (plan, c.month) (map map_month ms)

  of_month :
      (m : Api.Month) (ms : List Api.Month) (cs : List Api.CategoryBase)
      → all (has_its_month (m ∷ ms)) (map (map_month_category m.month) cs) ≡ true
  unfolding map_month map_month_category
  of_month m ms [] = refl
  of_month m ms (c ∷ cs) = ground (arith, ==-refl plan, ==-refl m.month, of_month m ms cs)

  -- Every category row of a plan's months has its month among the month rows.
  pub map_month_cats_have_months :
      (ms : List Api.Month)
      → all (λ c. mentions (month_key plan) (plan, c.month) (map map_month ms)) (map_month_cats ms)
        ≡ true
  unfolding map_month_cats
  map_month_cats_have_months [] = refl
  map_month_cats_have_months (m ∷ ms) =
      all-append (has_its_month (m ∷ ms)) _ _ (of_month m ms m.categories) (
        all_imp (has_its_month ms) (has_its_month (m ∷ ms)) (map_month_cats ms)
          (λ c h. ground arith) (map_month_cats_have_months ms))

  pub map_plan_months :
      (detail : Option Api.PlanDetail)
      → all
          (λ c. mentions (month_key plan) (plan, c.month) (map_plan detail).months)
          (map_plan detail).month_cats
        ≡ true
  unfolding map_plan
  map_plan_months none = refl
  map_plan_months (some p) = map_month_cats_have_months p.months
