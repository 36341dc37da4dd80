-- ===== src/Mcp/Money.antt =====
-- mcp/tools_transactions.go, formatMoney and parseMoney: milliunits as decimal texts. A text is the
-- list of its bytes; an amount is an int64.
pub mod Digits
pub mod Reading
use ynab_auto_categorizer.Prelude.{
  ℕ, zero, suc, ◌+◌, ◌-◌, ◌*◌, ◌/◌, ◌%◌, ◌<◌, ◌≤◌, ℤ, pos, negsuc, Bool, true, false, not, ◌&&◌,
  ◌||◌, Option, none, some, List, [], ◌∷◌, ◌++◌, ltb, leb, nat_beq, any, length, if◌then◌else◌,
}
use ynab_auto_categorizer.Scan.Redaction.{Text}

-- %d of a number that is not negative. The number itself is fuel enough: it falls with every digit.
unfoldable pub print_from : ℕ → ℕ → Text
print_from zero n = []
print_from (suc fuel) n =
    let more = print_from fuel (n / 10) in
    if ltb n 10 then (48 + n) ∷ [] else more ++ (48 + n % 10) ∷ []

unfoldable pub print : ℕ → Text
unfolding print_from
print n = print_from (suc n) n

-- %03d of a number below a thousand
abbrev pub three_digits : ℕ → Text
three_digits n = (48 + n / 100) ∷ (48 + n / 10 % 10) ∷ (48 + n % 10) ∷ []

-- strings.TrimSuffix(s, "0")
unfoldable pub trim_zero : Text → Text
trim_zero [] = []
trim_zero (c ∷ []) = if nat_beq c 48 then [] else c ∷ []
trim_zero (c ∷ d ∷ cs) = c ∷ trim_zero (d ∷ cs)

-- uint64(m), or uint64(-m) of a negative amount: exact, for the least int64 too.
abbrev pub magnitude : ℤ → ℕ
magnitude (pos n) = n
magnitude (negsuc n) = suc n

abbrev pub sign_of : ℤ → Text
sign_of (pos n) = []
sign_of (negsuc n) = 45 ∷ []

unfoldable pub format_money : ℤ → Text
unfolding print trim_zero
format_money m =
    let u = magnitude m in
    trim_zero (sign_of m ++ (print (u / 1000) ++ 46 ∷ three_digits (u % 1000)))

-- strconv.ParseInt of a text without a sign: digits only, or an error. Amounts beyond int64 are
-- errors of ParseInt; here they are numbers, and fail the bound.
unfoldable pub read_digits : ℕ → Text → Option ℕ
read_digits acc [] = some acc
read_digits acc (c ∷ cs) =
    let more = read_digits (acc * 10 + (c - 48)) cs in if leb 48 c && leb c 57 then more else none

-- strings.HasPrefix and TrimPrefix with "-"
abbrev pub is_negative : Text → Bool
is_negative [] = false
is_negative (c ∷ cs) = nat_beq c 45

abbrev pub unsigned : Text → Text
unsigned [] = []
unsigned (c ∷ cs) = if nat_beq c 45 then cs else c ∷ cs

-- strings.Cut at the first "."
unfoldable pub cut : Text → Text × Text
cut [] = ([], [])
cut (c ∷ cs) = let (whole, frac) = cut cs in if nat_beq c 46 then ([], cs) else (c ∷ whole, frac)

abbrev pub is_empty : Text → Bool
is_empty [] = true
is_empty (c ∷ cs) = false

abbrev pub has_sign : Text → Bool
has_sign s = any (λ c. nat_beq c 43 || nat_beq c 45) s

-- (frac + "00")[:3]
abbrev pub padded : Text → Text
padded [] = []
padded (a ∷ []) = a ∷ 48 ∷ 48 ∷ []
padded (a ∷ b ∷ []) = a ∷ b ∷ 48 ∷ []
padded (a ∷ b ∷ c ∷ cs) = a ∷ b ∷ c ∷ []

-- An empty fraction is 0.
abbrev pub fraction : Text → Option ℕ
fraction [] = some 0
fraction (c ∷ cs) = read_digits 0 (padded (c ∷ cs))

abbrev pub signed : Bool → ℕ → ℤ
signed false n = pos n
signed true zero = pos 0
signed true (suc n) = negsuc n

abbrev pub joined : Bool → Option ℕ → Option ℕ → Option ℤ
joined neg (some w) (some f) =
    if ltb 1000000000000 w then none else some (signed neg (w * 1000 + f))
joined neg (some w) none = none
joined neg none f = none

abbrev pub parts_to_amount : Bool → Text × Text → Option ℤ
parts_to_amount neg (whole, frac) =
    if is_empty whole || ltb 3 (length frac) || has_sign (whole ++ frac)
    then none
    else joined neg (read_digits 0 whole) (fraction frac)

unfoldable pub parse_money : Text → Option ℤ
unfolding read_digits cut
parse_money s = parts_to_amount (is_negative s) (cut (unsigned s))
