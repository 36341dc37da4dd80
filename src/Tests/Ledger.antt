-- ===== src/Tests/Ledger.antt =====
-- store/transactions_read.go and mcp/tools_transactions.go on concrete data: an ordinary transaction,
-- a split of two parts, and an account in the budget.
use ynab_auto_categorizer.Mcp.Dates.{date_range}
use ynab_auto_categorizer.Table.{find, merge}
use mathlib.Core.Path.{subst}
use ynab_auto_categorizer.Prelude.{
  ℕ, ◌<◌, lower, nat_beq, if◌then◌else◌, ℤ, pos, negsuc, String, true, false, ◌≡◌, refl, sym, none,
  some, [], ◌∷◌, map, length, Among, inl, inr, arith, string_eq, pair_eq, ok, sort_by, ◌+ℤ◌,
}
use ynab_auto_categorizer.Scan.Redaction.{Text}
use ynab_auto_categorizer.Sql.{Session}
use ynab_auto_categorizer.Ledger.Sums.{sum_by}
use ynab_auto_categorizer.Table.{find}
use ynab_auto_categorizer.Mirror.{Mirror, Key, TransactionRow, empty}
use ynab_auto_categorizer.Mirror.Rows.{Account, Transaction, Subtransaction}
use ynab_auto_categorizer.Ledger.{line_before, lines, is_split, key_before}
use ynab_auto_categorizer.Ledger.Like.{Unicode, like, pattern_of, includes, like-pattern_of}
use ynab_auto_categorizer.Ledger.Filter.{LineFilter, matches}
use ynab_auto_categorizer.Ledger.Query.{sum_amounts, selected, total_rows, has_name}
use ynab_auto_categorizer.Ledger.Totals.{sum_totals}
use ynab_auto_categorizer.Ledger.Totals.Exact.{Exact, total_rows-Exact}
use ynab_auto_categorizer.Ledger.Dollars.{lines_total, live_total, is_counted, sum_parts}
use ynab_auto_categorizer.Mcp.Money.{format_money, parse_money}
use ynab_auto_categorizer.Mcp.Money.Reading.{parse-format}
use ynab_auto_categorizer.Mcp.Query.{QueryArgs, absent, follow_cursors, tx_line, filter_of}
use ynab_auto_categorizer.Mcp.Query.Follow.{follow_cursors_lem}

-- "-12.345" and "-12.34"
abbrev with_mills : Text
with_mills = 45 ∷ 49 ∷ 50 ∷ 46 ∷ 51 ∷ 52 ∷ 53 ∷ []

formats : format_money (negsuc 12344) ≡ with_mills
unfolding format_money
formats = refl

formats_cents : format_money (pos 5) ≡ 48 ∷ 46 ∷ 48 ∷ 48 ∷ 53 ∷ []
unfolding format_money
formats_cents = refl

-- "5" is read as 5.000, "1.2345" is refused.
reads_whole : parse_money (53 ∷ []) ≡ some (pos 5000)
unfolding parse_money
reads_whole = refl

refuses_four : parse_money (49 ∷ 46 ∷ 50 ∷ 51 ∷ 52 ∷ 53 ∷ []) ≡ none
unfolding parse_money
refuses_four = refl

parse-format_example : parse_money (format_money (negsuc 12344)) ≡ some (negsuc 12344)
parse-format_example = parse-format (negsuc 12344) (omega arith)

-- "50%_" in "a 50%_B"
abbrev odd_text : Text
odd_text = 53 ∷ 48 ∷ 37 ∷ 95 ∷ []

-- ASCII letters, and "É" to "é".
abbrev lowered : ℕ → ℕ
lowered c = if nat_beq c 201 then 233 else lower c

lowered_ascii : (c : ℕ) → c < 128 → lowered c ≡ lower c
lowered_ascii c h = ground arith

instance abbrev unicode : Unicode
unicode = record { lower_rune = lowered; on_ascii = lowered_ascii }

like-pattern_of_example :
    like (pattern_of odd_text) (map lower (97 ∷ 32 ∷ 53 ∷ 48 ∷ 37 ∷ 95 ∷ 66 ∷ []))
    ≡ includes odd_text (97 ∷ 32 ∷ 53 ∷ 48 ∷ 37 ∷ 95 ∷ 66 ∷ [])
like-pattern_of_example = like-pattern_of odd_text (97 ∷ 32 ∷ 53 ∷ 48 ∷ 37 ∷ 95 ∷ 66 ∷ []) refl

-- The filter "É" misses the payee "É".
misses_accent : like (pattern_of (201 ∷ [])) (map lower (201 ∷ [])) ≡ false
unfolding like pattern_of lower
misses_accent = refl

abbrev bank : Account
bank = record {
  id = "acc";
  name = "Bank";
  type = "checking";
  on_budget = true;
  closed = false;
  note = none;
  balance = pos 0;
  cleared_balance = pos 0;
  uncleared_balance = pos 0;
  transfer_payee_id = none;
  direct_import_linked = false;
  direct_import_in_error = false;
  last_reconciled_at = none;
  debt_original_balance = none;
  debt_interest_rates = [];
  debt_minimum_payments = [];
  debt_escrow_amounts = [];
  deleted = false;
}

abbrev bought : Transaction
bought = record {
  id = "t1";
  date = "2026-01-02";
  amount = negsuc 4999;
  memo = none;
  cleared = "cleared";
  approved = true;
  flag_color = none;
  flag_name = none;
  account_id = "acc";
  payee_id = none;
  category_id = some "food";
  transfer_account_id = none;
  transfer_transaction_id = none;
  matched_transaction_id = none;
  import_id = none;
  import_payee_name = none;
  import_payee_name_original = none;
  debt_transaction_type = none;
  deleted = false;
}

abbrev shared : Transaction
shared = record bought { id = "t2"; date = "2026-01-03"; amount = negsuc 2999; category_id = none }

abbrev part : String → ℤ → Subtransaction
part i a = record {
  id = i;
  transaction_id = "t2";
  amount = a;
  memo = none;
  payee_id = none;
  category_id = some "food";
  transfer_account_id = none;
  transfer_transaction_id = none;
  deleted = false;
}

abbrev book : Mirror
book = record empty {
  accounts = (("p", "acc"), record { account = bank; tax_bucket = none }) ∷ [];
  transactions =
      (("p", "t1"), record { transaction = bought; first_seen_at = 1 })
      ∷ (("p", "t2"), record { transaction = shared; first_seen_at = 1 })
      ∷ [];
  subtransactions =
      (("p", "s1"), part "s1" (negsuc 999)) ∷ (("p", "s2"), part "s2" (negsuc 1999)) ∷ [];
}

three_lines : length (lines "p" book) ≡ 3
unfolding lines find
three_lines = refl

total_rows-Exact_example :
    Exact "p" "2026-01-01" "2026-01-31" book (total_rows "p" "2026-01-01" "2026-01-31" book)
total_rows-Exact_example = total_rows-Exact "p" "2026-01-01" "2026-01-31" book

january : sum_totals (total_rows "p" "2026-01-01" "2026-01-31" book) ≡ negsuc 7999
unfolding sum_totals total_rows lines find merge ◌+ℤ◌
january = refl

false-true : false ≡ true → ⊥
false-true h = ground arith

balanced :
    (t : Key × TransactionRow)
    → Among t book.transactions
    → is_counted "p" t ≡ true
    → is_split "p" book t.1.transaction.id ≡ true
    → sum_parts "p" book t.1.transaction.id book.subtransactions ≡ t.1.transaction.amount
unfolding is_split sum_parts sum_by find ◌+ℤ◌
balanced t (inl e) live split = absurd (
    false-true
      (subst (λ (x : Key × TransactionRow). is_split "p" book x.1.transaction.id ≡ true) e split))
balanced t (inr (inl e)) live split =
    subst
      (λ (x : Key × TransactionRow).
        sum_parts "p" book x.1.transaction.id book.subtransactions ≡ x.1.transaction.amount)
      (sym e) refl
balanced t (inr (inr e)) live split = elim e [ ]

lines_total_example : sum_amounts (lines "p" book) ≡ live_total "p" book
unfolding find
lines_total_example = lines_total "p" book (refl, (refl, tt)) refl balanced

abbrev all_of_it : QueryArgs
all_of_it = record {
  start = "2026-01-01";
  end = "";
  account = "bank";
  category = "";
  payee = [];
  min_amount = [];
  max_amount = [];
  approved = none;
  page_size = pos 2;
  cursor = absent;
}

abbrev filter : LineFilter
filter = record {
  start = "2026-01-01";
  end = "";
  account = "bank";
  category = "";
  payee_text = [];
  min_amount = none;
  max_amount = none;
  approved = none;
}

abbrev session : Session Mirror
session = record { db = book; stmt = 0; fault = λ n. false }

follow_cursors_lem_example :
    (follow_cursors "p" (λ f. "h") 4 all_of_it session).0
    ≡ ok (map tx_line (sort_by line_before (selected "p" filter book)))
unfolding lines find key_before filter_of date_range has_name matches
follow_cursors_lem_example =
    follow_cursors_lem "p" (λ f. "h") book filter refl all_of_it refl refl refl 4 session refl
      (λ n. refl) (omega arith)
