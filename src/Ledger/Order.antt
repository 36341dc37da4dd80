-- ===== src/Ledger/Order.antt =====
-- store/transactions_read.go, LineKey: the order of the lines is a strict total order of their keys.
use text.Mathlib.TextEquality.{eq_iff}
use ynab_auto_categorizer.Prelude.{
  true, false, ◌&&◌, ◌||◌, ◌≡◌, ◌==◌, string_eq, arith, text_before_trans, text_before_total,
  text_before_irrefl,
}
use ynab_auto_categorizer.Ledger.{LineKey, key_before}

pub key_before_trans :
    (k l n : LineKey) → key_before k l ≡ true → key_before l n ≡ true → key_before k n ≡ true
unfolding key_before
key_before_trans k l n h j = ground (
  arith,
  text_before_trans n.date l.date k.date,
  text_before_trans k.transaction_id l.transaction_id n.transaction_id,
  text_before_trans k.subtransaction_id l.subtransaction_id n.subtransaction_id,
  eq_iff l.date k.date,
  eq_iff n.date l.date,
  eq_iff n.date k.date,
  eq_iff k.transaction_id l.transaction_id,
  eq_iff l.transaction_id n.transaction_id,
  eq_iff k.transaction_id n.transaction_id,
)

pub key_before_irrefl : (k : LineKey) → key_before k k ≡ false
unfolding key_before
key_before_irrefl k = ground (
  arith,
  text_before_irrefl k.date,
  text_before_irrefl k.transaction_id,
  text_before_irrefl k.subtransaction_id,
)

-- Different ids can be put in order.
pub key_before_total :
    (k l : LineKey)
    → (k.transaction_id == l.transaction_id && k.subtransaction_id == l.subtransaction_id) ≡ false
    → (key_before k l || key_before l k) ≡ true
unfolding key_before
key_before_total k l h = ground (
  arith,
  text_before_total k.date l.date,
  text_before_total k.transaction_id l.transaction_id,
  text_before_total k.subtransaction_id l.subtransaction_id,
  eq_iff l.date k.date,
  eq_iff k.date l.date,
  eq_iff k.transaction_id l.transaction_id,
  eq_iff l.transaction_id k.transaction_id,
  eq_iff k.subtransaction_id l.subtransaction_id,
)
