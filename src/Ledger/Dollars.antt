-- ===== src/Ledger/Dollars.antt =====
-- store/transactions_read.go, linesCTE: every live transaction's amount is in the lines exactly once.
use ynab_auto_categorizer.Prelude.{
  ℤ, pos, ◌+ℤ◌, +ℤ_comm, zero-+ℤ, String, Bool, true, false, not, ◌&&◌, ◌≡◌, refl, ap, sym, ◌∙◌,
  int_laws, Option, none, some, List, [], ◌∷◌, map, keep, any, all, Among, ◌==◌, string_eq, pair_eq,
  arith, if◌then◌else◌, Bool-cases, inl, inr, and_left, and_right, or_left_false, or_right_false,
}
use text.Mathlib.TextEquality.{eq_iff}
use ynab_auto_categorizer.Table.{Table, find}
use ynab_auto_categorizer.Table.Laws.{Unique}
use ynab_auto_categorizer.Mirror.{Mirror, Key, TransactionRow}
use ynab_auto_categorizer.Mirror.Rows.{Subtransaction}
use ynab_auto_categorizer.Ledger.{
  lines, is_part_of, is_split, is_unsplit, whole, part_line, part_lines, parts,
}
use ynab_auto_categorizer.Ledger.Query.{sum_amounts}
use ynab_auto_categorizer.Ledger.Sums.{
  sum_by, sum_by-add, sum_by-ext, sum_by-zero, sum_amounts-append, if_so,
}

-- A live transaction of the plan.
abbrev pub is_counted : String → Key × TransactionRow → Bool
is_counted plan ((p, i), r) = p == plan && not r.transaction.deleted

-- Each row stands under its own id.
abbrev pub is_keyed : Key × TransactionRow → Bool
is_keyed ((p, i), r) = i == r.transaction.id

module _ (plan : String) (m : Mirror) where
  abbrev part_amount : String → Key × Subtransaction → ℤ
  part_amount t x = if_so (is_part_of plan m t x) x.1.amount

  -- The sum of the live parts of a transaction.
  unfoldable pub sum_parts : String → List (Key × Subtransaction) → ℤ
  unfolding sum_by
  sum_parts t xs = sum_by (part_amount t) xs

  -- One part, in the transaction it belongs to.
  abbrev hit : Key × Subtransaction → Key × TransactionRow → ℤ
  hit x t = if_so (is_counted plan t) (part_amount t.1.transaction.id x)

  -- A part counts in no other transaction.
  hit_miss :
      (x : Key × Subtransaction) (t : Key × TransactionRow)
      → (t.0 == (plan, x.1.transaction_id)) ≡ false
      → is_keyed t ≡ true
      → hit x t ≡ pos 0
  hit_miss ((q, j), s) ((p, i), r) h k = ground (
    arith,
    eq_iff p plan,
    eq_iff i r.transaction.id,
    eq_iff s.transaction_id r.transaction.id,
    eq_iff i s.transaction_id,
  )

  -- The row that the join finds is the one in which the part counts.
  abbrev owner_amount : Key × Subtransaction → Option TransactionRow → ℤ
  owner_amount x none = pos 0
  owner_amount x (some r) =
      if_so (x.0.0 == plan && not x.1.deleted && not r.transaction.deleted) x.1.amount

  hit_own :
      (x : Key × Subtransaction) (t : Key × TransactionRow)
      → (t.0 == (plan, x.1.transaction_id)) ≡ true
      → is_keyed t ≡ true
      → hit x t ≡ owner_amount x (some t.1)
  hit_own ((q, j), s) ((p, i), r) h k = ground (
    arith,
    eq_iff p plan,
    eq_iff i r.transaction.id,
    eq_iff s.transaction_id r.transaction.id,
    eq_iff i s.transaction_id,
  )

  hit-none :
      (x : Key × Subtransaction) (t : Table Key TransactionRow)
      → find (plan, x.1.transaction_id) t ≡ none
      → all is_keyed t ≡ true
      → sum_by (hit x) t ≡ pos 0
  unfolding sum_by find
  hit-none x [] h k = refl
  hit-none x (t ∷ ts) h k = elim (Bool-cases (t.0 == (plan, x.1.transaction_id))) [
    | inl same ↦ absurd (ground arith)
    | inr other ↦
        let rest : sum_by (hit x) ts ≡ pos 0 = hit-none x ts (ground arith) (ground arith) in
        let miss : hit x t ≡ pos 0 = hit_miss x t other (ground arith) in
        ap (λ a. a +ℤ sum_by (hit x) ts) miss ∙ ap (λ a. pos 0 +ℤ a) rest ∙ zero-+ℤ (pos 0)
  ]

  hit_sum :
      (x : Key × Subtransaction) (t : Table Key TransactionRow)
      → Unique t
      → all is_keyed t ≡ true
      → sum_by (hit x) t ≡ owner_amount x (find (plan, x.1.transaction_id) t)
  unfolding sum_by find
  hit_sum x [] u k = refl
  hit_sum x ((key, r) ∷ ts) u k = elim (Bool-cases (key == (plan, x.1.transaction_id))) [
    | inl same ↦ rw same (
        ap (λ a. a +ℤ sum_by (hit x) ts) (hit_own x (key, r) same (and_left (all is_keyed ts) k))
        ∙ ap (λ a. owner_amount x (some r) +ℤ a)
            (hit-none x ts (rw (key_path same) at u.0) (and_right (is_keyed (key, r)) k))
        ∙ +ℤ-zero (owner_amount x (some r)))
    | inr other ↦ rw other (
        ap (λ a. a +ℤ sum_by (hit x) ts) (hit_miss x (key, r) other (and_left (all is_keyed ts) k))
        ∙ zero-+ℤ (sum_by (hit x) ts)
        ∙ hit_sum x ts u.1 (and_right (is_keyed (key, r)) k))
  ]
    where
      key_path : (key == (plan, x.1.transaction_id)) ≡ true → key ≡ (plan, x.1.transaction_id)
      key_path e = (pair_eq.beq_iff key (plan, x.1.transaction_id)).0 e

      +ℤ-zero : (a : ℤ) → a +ℤ pos 0 ≡ a
      +ℤ-zero a = omega int_laws

  abbrev owed : List (Key × Subtransaction) → Key × TransactionRow → ℤ
  owed xs t = if_so (is_counted plan t) (sum_parts t.1.transaction.id xs)

  if_so-zero : (b : Bool) → if_so b (pos 0) ≡ pos 0
  if_so-zero true = refl
  if_so-zero false = refl

  if_so-add : (b : Bool) (a c : ℤ) → if_so b (a +ℤ c) ≡ if_so b a +ℤ if_so b c
  if_so-add true a c = refl
  if_so-add false a c = sym (zero-+ℤ (pos 0))

  part_lines_amount :
      (x : Key × Subtransaction)
      → sum_amounts (part_lines plan m x)
        ≡ owner_amount x (find (plan, x.1.transaction_id) m.transactions)
  unfolding sum_amounts
  part_lines_amount ((p, i), s) =
      by_tests (p == plan) s.deleted (find (plan, s.transaction_id) m.transactions)
    where
      by_tests :
          (b d : Bool) (o : Option TransactionRow)
          → sum_amounts (if b && not d then part_line plan m s o else []) ≡ (elim o as (λ y. ℤ) [
            | none ↦ pos 0
            | some r ↦ if_so (b && not d && not r.transaction.deleted) s.amount
          ])
      by_tests false d none = refl
      by_tests false d (some r) = refl
      by_tests true true none = refl
      by_tests true true (some r) = refl
      by_tests true false none = refl
      by_tests true false (some r) = elim (Bool-cases r.transaction.deleted) [
        | inl gone ↦ rw gone refl
        | inr there ↦ rw there (+ℤ_comm s.amount (pos 0) ∙ zero-+ℤ s.amount)
      ]

  module _ (unique : Unique m.transactions) (keyed : all is_keyed m.transactions ≡ true) where
    -- The lines of the parts, summed by transaction.
    parts-owed :
        (xs : List (Key × Subtransaction))
        → sum_amounts (parts plan m xs) ≡ sum_by (owed xs) m.transactions
    unfolding sum_amounts sum_parts
    parts-owed [] = sym (
        sum_by-ext (owed []) (λ t. pos 0) m.transactions (λ t a. if_so-zero (is_counted plan t))
        ∙ sum_by-zero m.transactions)
    parts-owed (x ∷ xs) =
        sum_amounts-append (part_lines plan m x) (parts plan m xs)
        ∙ ap (λ a. a +ℤ sum_amounts (parts plan m xs))
            (part_lines_amount x ∙ sym (hit_sum x m.transactions unique keyed))
        ∙ ap (λ a. sum_by (hit x) m.transactions +ℤ a) (parts-owed xs)
        ∙ sym (sum_by-add (hit x) (owed xs) m.transactions)
        ∙ sum_by-ext (λ t. hit x t +ℤ owed xs t) (owed (x ∷ xs)) m.transactions
            (λ t a. sym (
              if_so-add (is_counted plan t) (part_amount t.1.transaction.id x)
                (sum_parts t.1.transaction.id xs)))

  unsplit_amount :
      (ts : Table Key TransactionRow)
      → sum_amounts (map (whole plan m) (keep (is_unsplit plan m) ts))
        ≡ sum_by (λ t. if_so (is_unsplit plan m t) t.1.transaction.amount) ts
  unfolding sum_amounts sum_by
  unsplit_amount [] = refl
  unsplit_amount (t ∷ ts) = elim (Bool-cases (is_unsplit plan m t)) [
    | inl one ↦ rw one (ap (λ a. t.1.transaction.amount +ℤ a) (unsplit_amount ts))
    | inr split ↦ rw split (unsplit_amount ts ∙ sym (zero-+ℤ _))
  ]

  no_parts :
      (t : String) (xs : List (Key × Subtransaction))
      → any (is_part_of plan m t) xs ≡ false
      → sum_parts t xs ≡ pos 0
  unfolding sum_parts
  no_parts t [] h = refl
  no_parts t (x ∷ xs) h =
      let first : is_part_of plan m t x ≡ false = or_left_false (any (is_part_of plan m t) xs) h in
      let rest : any (is_part_of plan m t) xs ≡ false = or_right_false (is_part_of plan m t x) h in
      rw first (ap (λ a. pos 0 +ℤ a) (no_parts t xs rest) ∙ zero-+ℤ (pos 0))

  -- The live transactions, each with its own amount.
  unfoldable pub live_total : ℤ
  unfolding sum_by
  live_total = sum_by (λ t. if_so (is_counted plan t) t.1.transaction.amount) m.transactions

  -- In a mirror in which each transaction stands once, under its id, and the live parts of each live
  -- split add up to its amount: the amounts of all lines add up to the amounts of the plan's live
  -- transactions.
  pub lines_total :
      Unique m.transactions
      → all is_keyed m.transactions ≡ true
      → ((t : Key × TransactionRow)
          → Among t m.transactions
          → is_counted plan t ≡ true
          → is_split plan m t.1.transaction.id ≡ true
          → sum_parts t.1.transaction.id m.subtransactions ≡ t.1.transaction.amount)
      → sum_amounts (lines plan m) ≡ live_total
  unfolding lines live_total is_split
  lines_total unique keyed balanced =
      sum_amounts-append (map (whole plan m) (keep (is_unsplit plan m) m.transactions))
        (parts plan m m.subtransactions)
      ∙ ap (λ a. a +ℤ sum_amounts (parts plan m m.subtransactions)) (unsplit_amount m.transactions)
      ∙ ap
          (λ a.
            sum_by (λ t. if_so (is_unsplit plan m t) t.1.transaction.amount) m.transactions +ℤ a)
          (parts-owed unique keyed m.subtransactions)
      ∙ sym (
          sum_by-add (λ t. if_so (is_unsplit plan m t) t.1.transaction.amount)
            (owed m.subtransactions) m.transactions)
      ∙ sum_by-ext _ _ m.transactions (λ t a.
        share (is_counted plan t) (any (is_part_of plan m t.1.transaction.id) m.subtransactions)
          t.1.transaction.amount (sum_parts t.1.transaction.id m.subtransactions) (balanced t a)
          (no_parts t.1.transaction.id m.subtransactions))
    where
      -- A live transaction is one line or its parts.
      share :
          (live split : Bool) (a p : ℤ)
          → (live ≡ true → split ≡ true → p ≡ a)
          → (split ≡ false → p ≡ pos 0)
          → if_so (live && not split) a +ℤ if_so live p ≡ if_so live a
      share false split a p f g = zero-+ℤ (pos 0)
      share true true a p f g = zero-+ℤ p ∙ f refl refl
      share true false a p f g = ap (λ x. a +ℤ x) (g refl) ∙ +ℤ_comm a (pos 0) ∙ zero-+ℤ a
