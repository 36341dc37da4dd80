-- ===== src/Mcp/Money/Digits.antt =====
-- mcp/tools_transactions.go: the digits that formatMoney writes and parseMoney reads.
use ynab_auto_categorizer.Prelude.{
  ℕ, zero, suc, ◌+◌, ◌-◌, ◌*◌, ◌/◌, ◌%◌, ◌<◌, Bool, true, false, ◌&&◌, ◌≡◌, refl, Option, none,
  some, [], ◌∷◌, ◌++◌, ltb, leb, all, arith, Bool-cases, inl, inr, ◌∙◌, ap, all-append,
}
use ynab_auto_categorizer.Scan.Redaction.{Text}
use ynab_auto_categorizer.Mcp.Money.{print_from, trim_zero, read_digits, cut, is_empty}

abbrev pub is_digit : ℕ → Bool
is_digit c = leb 48 c && leb c 57

abbrev then_read : Option ℕ → Text → Option ℕ
then_read none ys = none
then_read (some n) ys = read_digits n ys

read_digits-append :
    (acc : ℕ) (xs ys : Text) → read_digits acc (xs ++ ys) ≡ then_read (read_digits acc xs) ys
unfolding read_digits
read_digits-append acc [] ys = refl
read_digits-append acc (c ∷ cs) ys = ground (arith, read_digits-append (acc * 10 + (c - 48)) cs ys)

-- The digits printed are read back, whatever fuel beyond the number is given.
pub read-print_from : (fuel n : ℕ) → n < fuel → read_digits 0 (print_from fuel n) ≡ some n
unfolding print_from read_digits
read-print_from zero n h = absurd (omega arith)
read-print_from (suc fuel) n h = elim (Bool-cases (ltb n 10)) [
  | inl small ↦ rw small (ground arith)
  | inr large ↦ rw large (
      read_digits-append 0 (print_from fuel (n / 10)) ((48 + n % 10) ∷ [])
      ∙ rw (read-print_from fuel (n / 10) (ground arith)) (ground arith))
]

pub digits-print_from : (fuel n : ℕ) → all is_digit (print_from fuel n) ≡ true
unfolding print_from
digits-print_from zero n = refl
digits-print_from (suc fuel) n = elim (Bool-cases (ltb n 10)) [
  | inl small ↦ rw small (ground arith)
  | inr large ↦ rw large (
      all-append is_digit (print_from fuel (n / 10)) ((48 + n % 10) ∷ [])
        (digits-print_from fuel (n / 10)) (ground arith))
]

pub nonempty-print_from : (fuel n : ℕ) → is_empty (print_from (suc fuel) n) ≡ false
unfolding print_from
nonempty-print_from fuel n = elim (Bool-cases (ltb n 10)) [
  | inl small ↦ rw small refl
  | inr large ↦ rw large (by_front (print_from fuel (n / 10)))
]
  where
    by_front : (xs : Text) → is_empty (xs ++ (48 + n % 10) ∷ []) ≡ false
    by_front [] = refl
    by_front (x ∷ xs) = refl

pub cut-digits : (xs ys : Text) → all is_digit xs ≡ true → cut (xs ++ 46 ∷ ys) ≡ (xs, ys)
unfolding cut
cut-digits [] ys h = refl
cut-digits (x ∷ xs) ys h = ground (arith, cut-digits xs ys)

pub trim_zero-append :
    (xs : Text) (y : ℕ) (ys : Text) → trim_zero (xs ++ y ∷ ys) ≡ xs ++ trim_zero (y ∷ ys)
unfolding trim_zero
trim_zero-append [] y ys = refl
trim_zero-append (x ∷ []) y ys = refl
trim_zero-append (x ∷ x' ∷ xs) y ys = ap (λ t. x ∷ t) (trim_zero-append (x' ∷ xs) y ys)
