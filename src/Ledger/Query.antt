-- ===== src/Ledger/Query.antt =====
-- store/transactions_read.go, QueryLines, NameMatches and CategoryTotals. Each SELECT is a statement of
-- its own: the summary and the page are read one after the other.
use ynab_auto_categorizer.Prelude.{
  ℕ, suc, ℤ, pos, ◌+ℤ◌, String, Bool, false, not, ◌&&◌, ◌||◌, Option, none, some, List, [], ◌∷◌,
  keep, any, take, length, ◌==◌, string_eq, pair_eq, text_before, sort_by, codes, equal_lower,
  is_some,
}
use ynab_auto_categorizer.Sql.{Sql, query, pure, ◌>>=◌}
use ynab_auto_categorizer.Table.{Table, find, merge}
use ynab_auto_categorizer.Mirror.{Mirror, AccountRow}
use ynab_auto_categorizer.Mirror.Rows.{Category}
use ynab_auto_categorizer.Ledger.{Line, LineKey, key, key_before, line_before, lines, category_of}
use ynab_auto_categorizer.Ledger.Like.{Unicode, like}
use ynab_auto_categorizer.Ledger.Filter.{LineFilter, matches}
use ynab_auto_categorizer.Ledger.Paging.Walk.{follows}

pub record LineSummary : Type 0 where
  pub count : ℕ
  pub total : ℤ

-- COALESCE(sum(l.amount), 0)
unfoldable pub sum_amounts : List Line → ℤ
sum_amounts [] = pos 0
sum_amounts (l ∷ ls) = l.amount +ℤ sum_amounts ls

abbrev pub selected : ⦃u : Unicode⦄ → String → LineFilter → Mirror → List Line
selected plan f m = keep (matches f) (lines plan m)

unfoldable pub summarize : List Line → LineSummary
unfolding sum_amounts
summarize ls = record { count = length ls; total = sum_amounts ls }

unfoldable pub page_rows :
    ⦃u : Unicode⦄ → String → LineFilter → Option LineKey → ℕ → Mirror → List Line
page_rows plan f after limit m =
    take limit (
      sort_by line_before
        (keep (λ l. matches f l && follows key key_before after l) (lines plan m)))

unfoldable pub query_lines :
    ⦃u : Unicode⦄ → String → LineFilter → Option LineKey → ℕ → Sql Mirror (List Line × LineSummary)
query_lines plan f after limit = query (λ m. summarize (selected plan f m)) >>= λ sum.
    query (page_rows plan f after limit) >>= λ ls. pure (ls, sum)

-- The tables of NameMatches.
pub data Named : Type 0 where
  accounts categories : Named

abbrev is_name : String → String → String → String → Bool
is_name s plan id name = id == s || equal_lower (codes name) (codes s)

unfoldable pub has_name : String → Named → String → Mirror → Bool
unfolding equal_lower codes
has_name plan accounts s m =
    any (λ x. x.0.0 == plan && is_name s plan x.0.1 x.1.account.name) m.accounts
has_name plan categories s m =
    any (λ x. x.0.0 == plan && is_name s plan x.0.1 x.1.name) m.categories

unfoldable pub name_matches : String → Named → String → Sql Mirror Bool
unfolding has_name
name_matches plan table s = query (has_name plan table s)

pub record CategoryTotal : Type 0 where
  pub category_id : String
  pub category_name : String
  pub category_group : String
  pub total : ℤ
  pub count : ℕ

-- COALESCE(x, '')
abbrev pub text_or : Option String → String
text_or none = ""
text_or (some s) = s

abbrev pub is_on_budget : Option AccountRow → Bool
is_on_budget none = false
is_on_budget (some r) = r.account.on_budget

-- COALESCE(c.internal, 0) = 1 AND c.name LIKE 'Inflow:%'
abbrev pub is_income : Option Category → Bool
is_income none = false
is_income (some c) = c.internal && like (codes "Inflow:%") (codes c.name)

unfoldable pub is_spending : String → Mirror → String → String → Line → Bool
unfolding like codes
is_spending plan m start end l =
    not (text_before l.date start)
    && not (text_before end l.date)
    && is_on_budget (find (plan, l.account_id) m.accounts)
    && not (not (is_some l.category_id) && is_some l.transfer_account)
    && not (is_income (category_of plan m l.category_id))

-- GROUP BY the id, the name and the group.
abbrev pub GroupKey : Type 0
GroupKey = String × (String × String)

abbrev pub group_key : Line → GroupKey
group_key l = (text_or l.category_id, (text_or l.category_name, text_or l.category_group))

abbrev pub add_line : Line → Option LineSummary → LineSummary
add_line l none = record { count = 1; total = l.amount }
add_line l (some s) = record { count = suc s.count; total = l.amount +ℤ s.total }

unfoldable pub group_lines : List Line → Table GroupKey LineSummary
group_lines [] = []
group_lines (l ∷ ls) = merge (group_key l) (add_line l) (group_lines ls)

abbrev pub total_of : GroupKey × LineSummary → CategoryTotal
total_of ((id, (name, group)), s) = record {
  category_id = id;
  category_name = name;
  category_group = group;
  total = s.total;
  count = s.count;
}

-- ORDER BY 3, 2, 1
abbrev pub total_before : CategoryTotal → CategoryTotal → Bool
total_before a b =
    text_before a.category_group b.category_group
    || (a.category_group == b.category_group
        && (text_before a.category_name b.category_name
            || (a.category_name == b.category_name && text_before a.category_id b.category_id)))

abbrev pub to_totals : Table GroupKey LineSummary → List CategoryTotal
to_totals [] = []
to_totals (x ∷ xs) = total_of x ∷ to_totals xs

unfoldable pub total_rows : String → String → String → Mirror → List CategoryTotal
unfolding sort_by group_lines is_spending
total_rows plan start end m =
    sort_by total_before
      (to_totals (group_lines (keep (is_spending plan m start end) (lines plan m))))

unfoldable pub category_totals : String → String → String → Sql Mirror (List CategoryTotal)
unfolding total_rows
category_totals plan start end = query (total_rows plan start end)
