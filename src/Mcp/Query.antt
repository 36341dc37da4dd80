-- ===== src/Mcp/Query.antt =====
-- mcp/tools_transactions.go, query_transactions. A cursor is what it encodes; `hash` is filterHash.
pub mod Follow
use ynab_auto_categorizer.Prelude.{
  ℕ, zero, suc, ◌+◌, ◌-◌, ℤ, pos, negsuc, min, String, Bool, true, false, not, ◌&&◌, ◌||◌, Option,
  none, some, List, [], ◌∷◌, ◌++◌, map, take, length, ltb, ◌==◌, string_eq, if◌then◌else◌, Result,
  ok, err, bad_request, is_some, get_elem?,
}
use ynab_auto_categorizer.Scan.Redaction.{Text}
use ynab_auto_categorizer.Sql.{Sql, query, pure, raise, lift, ◌>>=◌}
use ynab_auto_categorizer.Mirror.{Mirror}
use ynab_auto_categorizer.Ledger.{Line, LineKey, key}
use ynab_auto_categorizer.Ledger.Like.{Unicode}
use ynab_auto_categorizer.Ledger.Filter.{LineFilter, le_int}
use ynab_auto_categorizer.Ledger.Query.{
  LineSummary, query_lines, Named, accounts, categories, name_matches, text_or,
}
use ynab_auto_categorizer.Mcp.Money.{format_money, parse_money, is_empty}
use ynab_auto_categorizer.Mcp.Dates.{date_range}

-- A cursor that is not one of the tool's, or the end of a page and the hash of the filters.
pub data Cursor : Type 0 where
  absent : Cursor
  unreadable : Cursor
  cursor : LineKey → String → Cursor

pub record QueryArgs : Type 0 where
  pub start : String
  pub end : String
  pub account : String
  pub category : String
  pub payee : Text
  pub min_amount : Text
  pub max_amount : Text
  pub approved : Option Bool
  pub page_size : ℤ
  pub cursor : Cursor

pub record TxLine : Type 0 where
  pub transaction_id : String
  pub subtransaction_id : String
  pub date : String
  pub amount : Text
  pub account : String
  pub payee : String
  pub import_payee : String
  pub memo : String
  pub category_id : String
  pub category : String
  pub category_group : String
  pub transfer : Bool
  pub approved : Bool
  pub cleared : String
  pub flag : String

pub record QueryData : Type 0 where
  pub lines : List TxLine
  pub match_count : ℕ
  pub match_total : Text
  pub next_cursor : Option Cursor

unfoldable pub tx_line : Line → TxLine
tx_line l = record {
  transaction_id = l.transaction_id;
  subtransaction_id = l.subtransaction_id;
  date = l.date;
  amount = format_money l.amount;
  account = text_or l.account_name;
  payee = text_or l.payee_name;
  import_payee = text_or l.import_payee_name;
  memo = text_or l.memo;
  category_id = text_or l.category_id;
  category = text_or l.category_name;
  category_group = text_or l.category_group;
  transfer = is_some l.transfer_account;
  approved = l.approved;
  cleared = l.cleared;
  flag = text_or l.flag_name;
}

-- An amount that is left out does not filter.
abbrev required : Option ℤ → Result (Option ℤ)
required none = err bad_request
required (some m) = ok (some m)

unfoldable pub amount_arg : Text → Result (Option ℤ)
amount_arg s = if is_empty s then ok none else required (parse_money s)

abbrev crossed : Option ℤ → Option ℤ → Bool
crossed (some lo) (some hi) = not (le_int lo hi)
crossed (some lo) none = false
crossed none hi = false

abbrev with_max : (QueryArgs × (String × String)) × Option ℤ → Result (Option ℤ) → Result LineFilter
with_max p (err e) = err e
with_max ((a, (start, end)), lo) (ok hi) =
    if crossed lo hi
    then err bad_request
    else ok (record {
      start = start;
      end = end;
      account = a.account;
      category = a.category;
      payee_text = a.payee;
      min_amount = lo;
      max_amount = hi;
      approved = a.approved;
    })

abbrev with_min : QueryArgs × (String × String) → Result (Option ℤ) → Result LineFilter
with_min p (err e) = err e
with_min p (ok lo) = with_max (p, lo) (amount_arg p.0.max_amount)

abbrev with_range : QueryArgs → Result (String × String) → Result LineFilter
with_range a (err e) = err e
with_range a (ok r) = with_min (a, r) (amount_arg a.min_amount)

unfoldable pub filter_of : QueryArgs → Result LineFilter
unfolding amount_arg
filter_of a = with_range a (date_range a.start a.end)

-- defaultPageSize and maxPageSize
unfoldable pub page_size_of : ℤ → ℕ
page_size_of (negsuc n) = 50
page_size_of (pos zero) = 50
page_size_of (pos (suc n)) = min (suc n) 200

module _ ⦃u : Unicode⦄ (plan : String) (hash : LineFilter → String) where
  -- An account or a category that is named must exist.
  abbrev pub check_name : Named → String → Sql Mirror (Unit {0})
  check_name table s =
      if s == ""
      then pure tt
      else (name_matches plan table s >>= λ found. if found then pure tt else raise bad_request)

  abbrev pub after_of : LineFilter → Cursor → Result (Option LineKey)
  after_of f absent = ok none
  after_of f unreadable = err bad_request
  after_of f (Cursor.cursor k h) = if h == hash f then ok (some k) else err bad_request

  -- lines[size-1].Key() and the hash.
  abbrev pub cursor_at : LineFilter → Option Line → Option Cursor
  cursor_at f none = none
  cursor_at f (some l) = some (Cursor.cursor (key l) (hash f))

  -- One line more than asked for says whether there is a next page.
  abbrev pub answer : LineFilter → ℕ → List Line × LineSummary → QueryData
  answer f size (got, sum) = record {
    lines = map tx_line (if ltb size (length got) then take size got else got);
    match_count = sum.count;
    match_total = format_money sum.total;
    next_cursor = if ltb size (length got) then cursor_at f (get_elem? got (size - 1)) else none;
  }

  abbrev pub with_filter : QueryArgs → LineFilter → Sql Mirror QueryData
  with_filter a f = check_name accounts f.account >>= λ _. check_name categories f.category >>= λ _.
      lift (after_of f a.cursor) >>= λ after.
      query_lines plan f after (suc (page_size_of a.page_size)) >>= λ r.
      pure (answer f (page_size_of a.page_size) r)

  unfoldable pub query_transactions : QueryArgs → Sql Mirror QueryData
  query_transactions a = lift (filter_of a) >>= λ f. with_filter a f

  abbrev pub followed :
      Option Cursor → (Cursor → Sql Mirror (List TxLine)) → Sql Mirror (List TxLine)
  followed none f = pure []
  followed (some c) f = f c

  -- What a client does: it asks again with each cursor that it gets, at most so many times.
  unfoldable pub follow_cursors : ℕ → QueryArgs → Sql Mirror (List TxLine)
  follow_cursors zero a = pure []
  follow_cursors (suc pages) a = query_transactions a >>= λ d.
      followed d.next_cursor (λ c. follow_cursors pages (record a { cursor = c })) >>= λ more.
      pure (d.lines ++ more)
