-- ===== src/Ledger/Filter.antt =====
-- store/transactions_read.go, LineFilter and its conditions.
use ynab_auto_categorizer.Prelude.{
  ℤ, pos, negsuc, String, Bool, true, false, not, ◌&&◌, ◌||◌, Option, none, some, [], ◌∷◌, map,
  lower, leb, ◌==◌, string_eq, text_before, codes, equal_lower, bool_beq,
}
use ynab_auto_categorizer.Scan.Redaction.{Text}
use ynab_auto_categorizer.Ledger.{Line}
use ynab_auto_categorizer.Ledger.Like.{Unicode, like, pattern_of}

-- An empty text and `none` do not filter.
pub record LineFilter : Type 0 where
  pub start : String
  pub end : String
  pub account : String
  pub category : String
  pub payee_text : Text
  pub min_amount : Option ℤ
  pub max_amount : Option ℤ
  pub approved : Option Bool

-- int64's order
unfoldable pub le_int : ℤ → ℤ → Bool
le_int (pos m) (pos n) = leb m n
le_int (pos m) (negsuc n) = false
le_int (negsuc m) (pos n) = true
le_int (negsuc m) (negsuc n) = leb n m

-- A comparison with NULL is not true.
abbrev equals : Option String → String → Bool
equals none s = false
equals (some t) s = t == s

abbrev named : Option String → String → Bool
named none s = false
named (some t) s = equal_lower (codes t) (codes s)

abbrev has_pattern : Option String → Text → Bool
has_pattern none p = false
has_pattern (some t) p = like p (map lower (codes t))

abbrev is_nil : Text → Bool
is_nil [] = true
is_nil (c ∷ cs) = false

abbrev at_least : Option ℤ → ℤ → Bool
at_least none a = true
at_least (some m) a = le_int m a

abbrev at_most : Option ℤ → ℤ → Bool
at_most none a = true
at_most (some m) a = le_int a m

abbrev is_approved : Option Bool → Bool → Bool
is_approved none a = true
is_approved (some b) a = bool_beq a b

-- where(): the conditions that are set, joined by AND.
unfoldable pub matches : ⦃u : Unicode⦄ → LineFilter → Line → Bool
unfolding le_int
matches f l =
    (f.start == "" || not (text_before l.date f.start))
    && (f.end == "" || not (text_before f.end l.date))
    && (f.account == "" || l.account_id == f.account || named l.account_name f.account)
    && (f.category == "" || equals l.category_id f.category || named l.category_name f.category)
    && (is_nil f.payee_text
        || has_pattern l.payee_name (pattern_of f.payee_text)
        || has_pattern l.import_payee_name (pattern_of f.payee_text))
    && at_least f.min_amount l.amount
    && at_most f.max_amount l.amount
    && is_approved f.approved l.approved
