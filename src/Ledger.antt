-- ===== src/Ledger.antt =====
-- store/transactions_read.go: the lines of a plan's transactions, filtered, summed and paged.
pub mod Like
pub mod Filter
pub mod Paging
pub mod Query
pub mod Totals
pub mod Order
pub mod Sums
pub mod Dollars
use ynab_auto_categorizer.Prelude.{
  ℕ, zero, suc, ◌+◌, ◌-◌, ℤ, pos, negsuc, String, Bool, true, false, not, ◌&&◌, ◌||◌, Option, none,
  some, List, [], ◌∷◌, ◌++◌, map, keep, any, is_some, or_else, leb, ltb, nat_beq, ◌==◌, string_eq,
  pair_eq, if◌then◌else◌, text_before, sort_by, take, length, codes, equal_lower, bool_beq,
}
use ynab_auto_categorizer.Scan.Redaction.{Text}
use ynab_auto_categorizer.Sql.{Sql, query, ◌>>=◌}
use ynab_auto_categorizer.Table.{find}
use ynab_auto_categorizer.Mirror.{Mirror, Key, AccountRow, TransactionRow}
use ynab_auto_categorizer.Mirror.Rows.{
  Account, Category, CategoryGroup, Payee, Transaction, Subtransaction,
}

-- One categorized piece of a transaction.
pub record Line : Type 0 where
  pub transaction_id : String
  pub subtransaction_id : String
  pub date : String
  pub amount : ℤ
  pub memo : Option String
  pub account_id : String
  pub account_name : Option String
  pub payee_id : Option String
  pub payee_name : Option String
  pub import_payee_name : Option String
  pub category_id : Option String
  pub category_name : Option String
  pub category_group : Option String
  pub transfer_account : Option String
  pub approved : Bool
  pub cleared : String
  pub flag_name : Option String

pub record LineKey : Type 0 where
  pub date : String
  pub transaction_id : String
  pub subtransaction_id : String

abbrev pub key : Line → LineKey
key l = record {
  date = l.date;
  transaction_id = l.transaction_id;
  subtransaction_id = l.subtransaction_id;
}

-- The order of QueryLines: newest date first, then the ids.
unfoldable pub key_before : LineKey → LineKey → Bool
key_before k l =
    text_before l.date k.date
    || (l.date == k.date
        && (text_before k.transaction_id l.transaction_id
            || (k.transaction_id == l.transaction_id
                && text_before k.subtransaction_id l.subtransaction_id)))

abbrev pub line_before : Line → Line → Bool
line_before k l = key_before (key k) (key l)

-- The LEFT JOINs of linesJoins.
abbrev pub category_of : String → Mirror → Option String → Option Category
category_of plan m none = none
category_of plan m (some i) = find (plan, i) m.categories

abbrev payee_of : String → Mirror → Option String → Option Payee
payee_of plan m none = none
payee_of plan m (some i) = find (plan, i) m.payees

abbrev group_of : String → Mirror → Option Category → Option CategoryGroup
group_of plan m none = none
group_of plan m (some c) = find (plan, c.category_group_id) m.category_groups

abbrev name_of {ℓ} : {A : Type ℓ} → (A → String) → Option A → Option String
name_of f none = none
name_of f (some a) = some (f a)

module _ (plan : String) (m : Mirror) where
  -- One row of the CTE with its names: `sub` is "" and the transaction's own fields, or those of a part.
  abbrev pub line :
      Transaction
      → String
      → ℤ
      → Option String
      → Option String
      → Option String
      → Option String
      → Line
  line t sub amount memo payee category transfer = record {
    transaction_id = t.id;
    subtransaction_id = sub;
    date = t.date;
    amount = amount;
    memo = memo;
    account_id = t.account_id;
    account_name =
        name_of (λ (a : AccountRow). a.account.name) (find (plan, t.account_id) m.accounts);
    payee_id = payee;
    payee_name = name_of (λ (p : Payee). p.name) (payee_of plan m payee);
    import_payee_name = t.import_payee_name;
    category_id = category;
    category_name = name_of (λ (c : Category). c.name) (category_of plan m category);
    category_group =
        name_of (λ (g : CategoryGroup). g.name) (group_of plan m (category_of plan m category));
    transfer_account = transfer;
    approved = t.approved;
    cleared = t.cleared;
    flag_name = t.flag_name;
  }

  -- EXISTS a live subtransaction
  abbrev pub is_part_of : String → Key × Subtransaction → Bool
  is_part_of t ((p, i), s) = p == plan && s.transaction_id == t && not s.deleted

  unfoldable pub is_split : String → Bool
  is_split t = any (is_part_of t) m.subtransactions

  abbrev pub is_unsplit : Key × TransactionRow → Bool
  is_unsplit ((p, i), r) = p == plan && not r.transaction.deleted && not (is_split r.transaction.id)

  abbrev pub whole : Key × TransactionRow → Line
  whole (k, r) =
      let t = r.transaction in
      line t "" t.amount t.memo t.payee_id t.category_id t.transfer_account_id

  -- The join of a part with its transaction.
  abbrev pub part_line : Subtransaction → Option TransactionRow → List Line
  part_line s none = []
  part_line s (some r) =
      let t = r.transaction in
      if t.deleted
      then []
      else line t s.id s.amount (or_else s.memo t.memo) (or_else s.payee_id t.payee_id)
          s.category_id s.transfer_account_id
        ∷ []

  abbrev pub part_lines : Key × Subtransaction → List Line
  part_lines ((p, i), s) =
      if p == plan && not s.deleted
      then part_line s (find (plan, s.transaction_id) m.transactions)
      else []

  abbrev pub parts : List (Key × Subtransaction) → List Line
  parts [] = []
  parts (x ∷ xs) = part_lines x ++ parts xs

  -- linesCTE with linesJoins
  unfoldable pub lines : List Line
  unfolding is_split
  lines = map whole (keep is_unsplit m.transactions) ++ parts m.subtransactions
