-- ===== src/Ledger/Totals/Exact.antt =====
-- store/transactions_read.go, CategoryTotals: which lines are spending, and what each row says of them.
use mathlib.Core.Path.{subst}
use ynab_auto_categorizer.Prelude.{
  suc, ◌+ℤ◌, +ℤ_comm, zero-+ℤ, pos, String, Bool, true, false, ◌&&◌, ◌≡◌, refl, ap, sym, ◌∙◌, ◌↔◌,
  ◌⊎◌, inl, inr, Option, none, some, List, [], ◌∷◌, keep, length, is_some, ◌==◌, string_eq, pair_eq,
  Among, Among-sort_by, Bool-cases, arith, codes, text_before, if◌then◌else◌,
}
use ynab_auto_categorizer.Scan.Redaction.{Text}
use ynab_auto_categorizer.Table.{Table, find}
use ynab_auto_categorizer.Table.Laws.{Unique, find-merge, Unique-merge}
use ynab_auto_categorizer.Mirror.{Mirror, AccountRow}
use ynab_auto_categorizer.Mirror.Rows.{Category}
use ynab_auto_categorizer.Ledger.{Line, lines, category_of}
use ynab_auto_categorizer.Ledger.Like.{like, escape_like, begins, like-begins}
use ynab_auto_categorizer.Ledger.Query.{
  LineSummary, sum_amounts, CategoryTotal, GroupKey, group_key, add_line, group_lines, total_before,
  total_of, to_totals, total_rows, is_spending, is_income, is_on_budget, text_or,
}
use ynab_auto_categorizer.Ledger.Totals.{sum_totals, sum_counts, total_rows_sums}

-- A line of spending: in the period, in an account of the budget, no transfer between such accounts
-- (which has no category), and no income to an internal "Inflow:" category.
pub record IsSpent (plan : String) (m : Mirror) (start end : String) (l : Line) : Type 0 where
  pub from_start : text_before l.date start ≡ false
  pub to_end : text_before end l.date ≡ false
  pub account : AccountRow
  pub there : find (plan, l.account_id) m.accounts ≡ some account
  pub on_budget : account.account.on_budget ≡ true
  pub no_transfer : (l.transfer_account ≡ none) ⊎ (is_some l.category_id ≡ true)
  pub no_income :
      (c : Category)
      → category_of plan m l.category_id ≡ some c
      → (c.internal && begins (codes "Inflow:") (codes c.name)) ≡ false

inflow : (xs : Text) → like (codes "Inflow:%") xs ≡ begins (codes "Inflow:") xs
unfolding like codes escape_like
inflow xs = like-begins (codes "Inflow:") xs

module _ (plan : String) (m : Mirror) (start end : String) (l : Line) where
  on_budget_of :
      (o : Option AccountRow)
      → is_on_budget o ≡ true
      → (r : AccountRow) × (o ≡ some r) × (r.account.on_budget ≡ true)
  on_budget_of none h = absurd (ground arith)
  on_budget_of (some r) h = (r, refl, h)

  no_income_of :
      (o : Option Category)
      → is_income o ≡ false
      → (c : Category) → o ≡ some c
      → (c.internal && begins (codes "Inflow:") (codes c.name)) ≡ false
  no_income_of o h c e =
      ap (λ b. c.internal && b) (sym (inflow (codes c.name))) ∙ ap is_income (sym e) ∙ h

  income_false :
      (o : Option Category)
      → ((c : Category)
          → o ≡ some c
          → (c.internal && begins (codes "Inflow:") (codes c.name)) ≡ false)
      → is_income o ≡ false
  income_false none h = refl
  income_false (some c) h = ap (λ b. c.internal && b) (inflow (codes c.name)) ∙ h c refl

  is_spending-IsSpent : is_spending plan m start end l ≡ true → IsSpent plan m start end l
  unfolding is_spending
  is_spending-IsSpent h =
      let budget : is_on_budget (find (plan, l.account_id) m.accounts) ≡ true = ground arith in
      let (r, e, on_) = on_budget_of (find (plan, l.account_id) m.accounts) budget in
      let income : is_income (category_of plan m l.category_id) ≡ false = ground arith in
      record {
        from_start = ground arith;
        to_end = ground arith;
        account = r;
        there = e;
        on_budget = on_;
        no_transfer = ground arith;
        no_income = no_income_of (category_of plan m l.category_id) income;
      }

  IsSpent-is_spending : IsSpent plan m start end l → is_spending plan m start end l ≡ true
  unfolding is_spending
  IsSpent-is_spending s =
      let income = income_false (category_of plan m l.category_id) s.no_income in
      let budget : is_on_budget (find (plan, l.account_id) m.accounts) ≡ true =
        ap is_on_budget s.there ∙ s.on_budget in
      ground (arith, s.from_start, s.to_end, s.no_transfer)

-- The group of a line in the result.
abbrev pub in_group : CategoryTotal → Line → Bool
in_group t l =
    text_or l.category_id == t.category_id
    && text_or l.category_name == t.category_name
    && text_or l.category_group == t.category_group

abbrev grouped : GroupKey → List Line → List Line
grouped k ls = keep (λ l. group_key l == k) ls

-- The row of a group, if there are lines in it.
abbrev Holds : List Line → Option LineSummary → Type 0
Holds ls none = ls ≡ []
Holds ls (some s) = (s.count ≡ length ls) × (s.total ≡ sum_amounts ls)

Holds-add_line :
    (l : Line) (ls : List Line) (o : Option LineSummary)
    → Holds ls o
    → Holds (l ∷ ls) (some (add_line l o))
unfolding sum_amounts
Holds-add_line l ls none h = (
  ap (λ xs. suc (length xs)) (sym h),
  sym (zero-+ℤ l.amount) ∙ +ℤ_comm (pos 0) l.amount ∙ ap (λ xs. l.amount +ℤ sum_amounts xs) (sym h),
)
Holds-add_line l ls (some s) h = (ap suc h.0, ap (λ x. l.amount +ℤ x) h.1)

Holds-group_lines : (k : GroupKey) (ls : List Line) → Holds (grouped k ls) (find k (group_lines ls))
unfolding group_lines find
Holds-group_lines k [] = refl
Holds-group_lines k (l ∷ ls) =
    subst (Holds (grouped k (l ∷ ls)))
      (sym (find-merge k (group_key l) (add_line l) (group_lines ls)))
      (by_key (Holds-group_lines k ls))
  where
    by_key :
        Holds (grouped k ls) (find k (group_lines ls))
        → Holds (grouped k (l ∷ ls)) (
            if group_key l == k
            then some (add_line l (find (group_key l) (group_lines ls)))
            else find k (group_lines ls))
    by_key h = elim (Bool-cases (group_key l == k)) [
      | inl same ↦ rw same (
          subst (λ j. Holds (l ∷ grouped k ls) (some (add_line l (find j (group_lines ls)))))
            (sym ((pair_eq.beq_iff (group_key l) k).0 same))
            (Holds-add_line l (grouped k ls) (find k (group_lines ls)) h))
      | inr other ↦ rw other h
    ]

Unique-group_lines : (ls : List Line) → Unique (group_lines ls)
unfolding group_lines
Unique-group_lines [] = tt
Unique-group_lines (l ∷ ls) =
    Unique-merge (group_key l) (add_line l) (group_lines ls) (Unique-group_lines ls)

find-Among :
    (k : GroupKey) (s : LineSummary) (t : Table GroupKey LineSummary)
    → Unique t
    → Among (k, s) t
    → find k t ≡ some s
unfolding find
find-Among k s [] u a = absurd a
find-Among k s ((i, r) ∷ t) u (inl e) =
    rw (own_key (sym (ap (λ (x : GroupKey × LineSummary). x.0) e)))
      (ap some (sym (ap (λ (x : GroupKey × LineSummary). x.1) e)))
  where
    own_key : {j : GroupKey} → i ≡ j → (i == j) ≡ true
    own_key {j} q = (pair_eq.beq_iff i j).1 q
find-Among k s ((i, r) ∷ t) u (inr a) = elim (Bool-cases (i == k)) [
  | inl same ↦
      let ih = find-Among k s t u.1 a in
      let gone = ap (λ j. find j t) ((pair_eq.beq_iff i k).0 same) in
      absurd (clash (find i t) u.0 (gone ∙ ih))
  | inr other ↦ rw other (find-Among k s t u.1 a)
]
  where
    clash : (o : Option LineSummary) → o ≡ none → o ≡ some s → ⊥
    clash o h e = ground arith

in_group-total_of :
    (k : GroupKey) (s : LineSummary) (ls : List Line)
    → keep (in_group (total_of (k, s))) ls ≡ grouped k ls
in_group-total_of (id, (name, group)) s [] = refl
in_group-total_of (id, (name, group)) s (l ∷ ls) =
    ground (arith, in_group-total_of (id, (name, group)) s ls)

Among-to_totals :
    (t : CategoryTotal) (g : Table GroupKey LineSummary)
    → Among t (to_totals g)
    → (x : GroupKey × LineSummary) × Among x g × (t ≡ total_of x)
Among-to_totals t [] a = absurd a
Among-to_totals t (x ∷ xs) (inl e) = (x, inl refl, e)
Among-to_totals t (x ∷ xs) (inr a) = let (y, b, e) = Among-to_totals t xs a in (y, inr b, e)

module _ (plan start end : String) (m : Mirror) where
  -- What the rows say: the lines that are spending are those described above, each row holds the amounts
  -- and the number of those in its group, and the rows hold all of them.
  pub record Exact (rows : List CategoryTotal) : Type 0 where
    pub spent : Line → Bool
    pub means : (l : Line) → (spent l ≡ true) ↔ IsSpent plan m start end l
    pub total :
        (t : CategoryTotal)
        → Among t rows
        → t.total ≡ sum_amounts (keep (in_group t) (keep spent (lines plan m)))
    pub count :
        (t : CategoryTotal)
        → Among t rows
        → t.count ≡ length (keep (in_group t) (keep spent (lines plan m)))
    pub all_totals : sum_totals rows ≡ sum_amounts (keep spent (lines plan m))
    pub all_counts : sum_counts rows ≡ length (keep spent (lines plan m))

  abbrev spending : List Line
  spending = keep (is_spending plan m start end) (lines plan m)

  row_of_group :
      (t : CategoryTotal)
      → Among t (total_rows plan start end m)
      → Holds (keep (in_group t) spending) (some (record { count = t.count; total = t.total }))
  unfolding total_rows
  row_of_group t a =
      let (x, b, e) =
        Among-to_totals t (group_lines spending)
          (Among-sort_by total_before t (to_totals (group_lines spending)) a) in
      subst
        (λ (u : CategoryTotal).
          Holds (keep (in_group u) spending) (some (record { count = u.count; total = u.total })))
        (sym e) (of_row x b)
    where
      of_row :
          (x : GroupKey × LineSummary)
          → Among x (group_lines spending)
          → Holds
              (keep (in_group (total_of x)) spending)
              (some (record { count = (total_of x).count; total = (total_of x).total }))
      of_row ((i, (name, group)), s) b =
          let k : GroupKey = (i, (name, group)) in
          subst (λ ls. Holds ls (some s)) (sym (in_group-total_of k s spending))
            (subst (Holds (grouped k spending))
              (find-Among k s (group_lines spending) (Unique-group_lines spending) b)
              (Holds-group_lines k spending))

  pub total_rows-Exact : Exact (total_rows plan start end m)
  total_rows-Exact = record {
    spent = is_spending plan m start end;
    means = λ l. (is_spending-IsSpent plan m start end l, IsSpent-is_spending plan m start end l);
    total = λ t a. (row_of_group t a).1;
    count = λ t a. (row_of_group t a).0;
    all_totals = (total_rows_sums plan start end m).0;
    all_counts = (total_rows_sums plan start end m).1;
  }
