-- ===== src/Mcp/Money/Reading.antt =====
-- mcp/tools_transactions.go: an amount survives being written and read, and what is read is in range.
use mathlib.Core.Path.{subst}
use ynab_auto_categorizer.Prelude.{
  ℕ, zero, suc, ◌+◌, ◌*◌, ◌/◌, ◌%◌, ◌<◌, ◌≤◌, ℤ, pos, negsuc, Bool, true, false, ◌||◌, ◌≡◌, refl,
  Option, none, some, [], ◌∷◌, ◌++◌, ltb, nat_beq, all, length, if◌then◌else◌, arith, Bool-cases,
  inl, inr, ◌∙◌, ap, all-append,
}
use ynab_auto_categorizer.Scan.Redaction.{Text}
use ynab_auto_categorizer.Mcp.Money.{
  print_from, print, three_digits, trim_zero, magnitude, sign_of, format_money, read_digits,
  is_negative, unsigned, cut, is_empty, has_sign, fraction, signed, joined, parts_to_amount,
  parse_money,
}
use ynab_auto_categorizer.Mcp.Money.Digits.{
  is_digit, read-print_from, digits-print_from, nonempty-print_from, cut-digits, trim_zero-append,
}

-- The two or three digits after the point.
abbrev frac_text : ℕ → Text
frac_text r =
    (48 + r / 100)
    ∷ (48 + r / 10 % 10)
    ∷ (if nat_beq (48 + r % 10) 48 then [] else (48 + r % 10) ∷ [])

trim_frac : (r : ℕ) → trim_zero (46 ∷ three_digits r) ≡ 46 ∷ frac_text r
unfolding trim_zero
trim_frac r = ground arith

fraction-frac_text : (r : ℕ) → r < 1000 → fraction (frac_text r) ≡ some r
unfolding read_digits
fraction-frac_text r h = elim (Bool-cases (nat_beq (48 + r % 10) 48)) [
  | inl z ↦ rw z (ground arith)
  | inr nz ↦ rw nz (ground arith)
]

length-frac_text : (r : ℕ) → ltb 3 (length (frac_text r)) ≡ false
length-frac_text r = ground arith

digits-frac_text : (r : ℕ) → r < 1000 → all is_digit (frac_text r) ≡ true
digits-frac_text r h = ground arith

has_sign-digits : (xs : Text) → all is_digit xs ≡ true → has_sign xs ≡ false
has_sign-digits [] h = refl
has_sign-digits (x ∷ xs) h = ground (arith, has_sign-digits xs)

-- An amount in the range that parseMoney takes.
abbrev IsReadable : ℤ → Type 0
IsReadable m = magnitude m < 1000000000001000

parse_parts :
    (neg : Bool) (w r : ℕ)
    → w ≤ 1000000000000
    → r < 1000
    → parts_to_amount neg (print w, frac_text r) ≡ some (signed neg (w * 1000 + r))
unfolding print
parse_parts neg w r hw hr =
    rw
      (
        nonempty-print_from w w,
        length-frac_text r,
        has_sign-digits (print_from (suc w) w ++ frac_text r) (
            all-append is_digit (print_from (suc w) w) (frac_text r) (digits-print_from (suc w) w)
              (digits-frac_text r hr)),
        read-print_from (suc w) w (omega arith),
        fraction-frac_text r hr,
      )
      (ground arith)

unsigned-digits :
    (xs ys : Text)
    → is_empty xs ≡ false
    → all is_digit xs ≡ true
    → (is_negative (xs ++ ys) ≡ false) × (unsigned (xs ++ ys) ≡ xs ++ ys)
unsigned-digits [] ys e h = absurd (ground arith)
unsigned-digits (x ∷ xs) ys e h = (ground arith, ground arith)

format_lem :
    (m : ℤ)
    → format_money m
      ≡ sign_of m ++ (print (magnitude m / 1000) ++ 46 ∷ frac_text (magnitude m % 1000))
unfolding format_money
format_lem (pos n) =
    trim_zero-append (print (n / 1000)) 46 (three_digits (n % 1000))
    ∙ ap (λ t. print (n / 1000) ++ t) (trim_frac (n % 1000))
format_lem (negsuc n) =
    trim_zero-append (45 ∷ print (suc n / 1000)) 46 (three_digits (suc n % 1000))
    ∙ ap (λ t. (45 ∷ print (suc n / 1000)) ++ t) (trim_frac (suc n % 1000))

parse_digits :
    (w r : ℕ)
    → w ≤ 1000000000000
    → r < 1000
    → parse_money (print w ++ 46 ∷ frac_text r) ≡ some (pos (w * 1000 + r))
unfolding parse_money print
parse_digits w r hw hr =
    let (plain, same) =
      unsigned-digits (print w) (46 ∷ frac_text r) (nonempty-print_from w w)
        (digits-print_from (suc w) w) in
    rw (plain, same, cut-digits (print w) (frac_text r) (digits-print_from (suc w) w))
      (parse_parts false w r hw hr)

parse_minus :
    (w r : ℕ)
    → w ≤ 1000000000000
    → r < 1000
    → parse_money (45 ∷ (print w ++ 46 ∷ frac_text r)) ≡ some (signed true (w * 1000 + r))
unfolding parse_money print
parse_minus w r hw hr =
    rw (cut-digits (print w) (frac_text r) (digits-print_from (suc w) w))
      (parse_parts true w r hw hr)

-- Every amount whose whole part is at most a trillion is read back, exactly, from the text that
-- formatMoney writes for it.
pub parse-format : (m : ℤ) → IsReadable m → parse_money (format_money m) ≡ some m
parse-format (pos n) h =
    let same : n / 1000 * 1000 + n % 1000 ≡ n = omega arith in
    rw (format_lem (pos n))
      (parse_digits (n / 1000) (n % 1000) (omega arith) (omega arith) ∙ ap (λ k. some (pos k)) same)
parse-format (negsuc n) h =
    let same : suc n / 1000 * 1000 + suc n % 1000 ≡ suc n = omega arith in
    rw (format_lem (negsuc n)) (
      parse_minus (suc n / 1000) (suc n % 1000) (omega arith) (omega arith)
      ∙ ap (λ k. some (signed true k)) same)

fraction-lt : (xs : Text) (k : ℕ) → fraction xs ≡ some k → k < 1000
unfolding read_digits
fraction-lt [] k e = ground arith
fraction-lt (a ∷ []) k e = ground arith
fraction-lt (a ∷ b ∷ []) k e = ground arith
fraction-lt (a ∷ b ∷ c ∷ cs) k e = ground arith

signed-IsReadable : (neg : Bool) (k : ℕ) → k < 1000000000001000 → IsReadable (signed neg k)
signed-IsReadable false k h = h
signed-IsReadable true zero h = h
signed-IsReadable true (suc k) h = h

joined-IsReadable :
    (neg : Bool) (w f : Option ℕ) (m : ℤ)
    → ((k : ℕ) → f ≡ some k → k < 1000)
    → joined neg w f ≡ some m
    → IsReadable m
joined-IsReadable neg none f m h e = absurd (ground arith)
joined-IsReadable neg (some w) none m h e = absurd (ground arith)
joined-IsReadable neg (some w) (some f) m h e = elim (Bool-cases (ltb 1000000000000 w)) [
  | inl large ↦ absurd (ground arith)
  | inr fits ↦
      let same : signed neg (w * 1000 + f) ≡ m = ground arith in
      subst IsReadable same (signed-IsReadable neg (w * 1000 + f) (ground (arith, h f refl)))
]

-- Whatever text it is given, an amount that parseMoney returns has a whole part of at most a trillion,
-- far inside int64: its product with a thousand does not overflow.
parse-IsReadable : (s : Text) (m : ℤ) → parse_money s ≡ some m → IsReadable m
unfolding parse_money
parse-IsReadable s m e = by_parts (is_negative s) (cut (unsigned s)) e
  where
    by_parts : (neg : Bool) (p : Text × Text) → parts_to_amount neg p ≡ some m → IsReadable m
    by_parts neg (whole, frac) e =
        elim (Bool-cases (is_empty whole || ltb 3 (length frac) || has_sign (whole ++ frac))) [
          | inl bad ↦ absurd (ground arith)
          | inr good ↦
              joined-IsReadable neg (read_digits 0 whole) (fraction frac) m
                (λ k q. fraction-lt frac k q) (ground arith)
        ]
