-- ===== src/Ledger/Totals.antt =====
-- store/transactions_read.go, CategoryTotals: the categories together hold every line once.
pub mod Exact
use ynab_auto_categorizer.Prelude.{
  ℕ, suc, ◌+◌, ℤ, pos, ◌+ℤ◌, +ℤ_assoc, +ℤ_middle, String, Bool, ◌≡◌, refl, ap, ◌∙◌, List, [], ◌∷◌,
  keep, length, ◌==◌, string_eq, pair_eq, insert_by, sort_by, arith, Bool-cases, inl, inr,
}
use ynab_auto_categorizer.Table.{Table, merge}
use ynab_auto_categorizer.Mirror.{Mirror}
use ynab_auto_categorizer.Ledger.{Line, lines}
use ynab_auto_categorizer.Ledger.Query.{
  LineSummary, sum_amounts, CategoryTotal, GroupKey, group_key, add_line, group_lines, total_before,
  to_totals, total_rows, is_spending,
}

unfoldable pub sum_totals : List CategoryTotal → ℤ
sum_totals [] = pos 0
sum_totals (t ∷ ts) = t.total +ℤ sum_totals ts

unfoldable pub sum_counts : List CategoryTotal → ℕ
sum_counts [] = 0
sum_counts (t ∷ ts) = t.count + sum_counts ts

abbrev Sums : List CategoryTotal → ℤ → ℕ → Type 0
Sums ts total count = (sum_totals ts ≡ total) × (sum_counts ts ≡ count)

Sums-insert_by :
    (before : CategoryTotal → CategoryTotal → Bool) (t : CategoryTotal) (ts : List CategoryTotal)
    → Sums (insert_by before t ts) (t.total +ℤ sum_totals ts) (t.count + sum_counts ts)
unfolding insert_by sum_totals sum_counts
Sums-insert_by before t [] = (refl, refl)
Sums-insert_by before t (u ∷ us) = elim (Bool-cases (before u t)) [
  | inl later ↦ rw later (
      let ih = Sums-insert_by before t us in
      (
        ap (λ x. u.total +ℤ x) ih.0 ∙ +ℤ_middle u.total t.total (sum_totals us),
        omega (arith, ih.1),
      ))
  | inr first ↦ rw first (refl, refl)
]

Sums-sort_by :
    (before : CategoryTotal → CategoryTotal → Bool) (ts : List CategoryTotal)
    → Sums (sort_by before ts) (sum_totals ts) (sum_counts ts)
unfolding sort_by sum_totals sum_counts
Sums-sort_by before [] = (refl, refl)
Sums-sort_by before (t ∷ ts) =
    let step = Sums-insert_by before t (sort_by before ts) in
    let ih = Sums-sort_by before ts in
    (step.0 ∙ ap (λ x. t.total +ℤ x) ih.0, step.1 ∙ ap (λ x. t.count + x) ih.1)

-- One more line in a group.
Sums-merge :
    (l : Line) (t : Table GroupKey LineSummary)
    → Sums
        (to_totals (merge (group_key l) (add_line l) t))
        (l.amount +ℤ sum_totals (to_totals t))
        (suc (sum_counts (to_totals t)))
unfolding merge sum_totals sum_counts
Sums-merge l [] = (refl, omega arith)
Sums-merge l ((k, s) ∷ t) = elim (Bool-cases (k == group_key l)) [
  | inl same ↦ rw same (+ℤ_assoc l.amount s.total (sum_totals (to_totals t)), omega arith)
  | inr other ↦ rw other (
      let ih = Sums-merge l t in
      (
        ap (λ x. s.total +ℤ x) ih.0 ∙ +ℤ_middle s.total l.amount (sum_totals (to_totals t)),
        omega (arith, ih.1),
      ))
]

Sums-group_lines : (ls : List Line) → Sums (to_totals (group_lines ls)) (sum_amounts ls) (length ls)
unfolding group_lines sum_totals sum_counts sum_amounts
Sums-group_lines [] = (refl, refl)
Sums-group_lines (l ∷ ls) =
    let step = Sums-merge l (group_lines ls) in
    let ih = Sums-group_lines ls in (step.0 ∙ ap (λ x. l.amount +ℤ x) ih.0, step.1 ∙ ap suc ih.1)

-- The totals of all categories add up to the amounts of all lines that are spending in the period, and
-- the counts to their number: no line is missed and none is counted twice.
pub total_rows_sums :
    (plan start end : String) (m : Mirror)
    → (sum_totals (total_rows plan start end m)
        ≡ sum_amounts (keep (is_spending plan m start end) (lines plan m)))
      × (sum_counts (total_rows plan start end m)
          ≡ length (keep (is_spending plan m start end) (lines plan m)))
unfolding total_rows
total_rows_sums plan start end m =
    let spending = keep (is_spending plan m start end) (lines plan m) in
    let sorted = Sums-sort_by total_before (to_totals (group_lines spending)) in
    let grouped = Sums-group_lines spending in (sorted.0 ∙ grouped.0, sorted.1 ∙ grouped.1)
