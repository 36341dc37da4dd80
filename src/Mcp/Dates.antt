-- ===== src/Mcp/Dates.antt =====
-- mcp/tools_transactions.go: calendar dates and periods. time.Parse of the layouts "2006-01-02" and
-- "2006-01" is written out: four digits, two, and two, of a month and a day that exist.
use Prim.Native.String.{◌++◌}
use ynab_auto_categorizer.Prelude.{
  ℕ, zero, suc, ◌+◌, ◌-◌, ◌*◌, ◌/◌, ◌%◌, String, Bool, true, false, not, ◌&&◌, ◌||◌, Option, none,
  some, [], ◌∷◌, leb, nat_beq, ◌==◌, string_eq, if◌then◌else◌, text_before, codes, Result, ok, err,
  bad_request,
}
use ynab_auto_categorizer.Scan.Redaction.{Text}

abbrev pub is_digit : ℕ → Bool
is_digit c = leb 48 c && leb c 57

-- The number that two digits stand for.
abbrev two : ℕ → ℕ → Option ℕ
two a b = if is_digit a && is_digit b then some ((a - 48) * 10 + (b - 48)) else none

unfoldable pub is_leap : ℕ → Bool
is_leap y = nat_beq (y % 4) 0 && (not (nat_beq (y % 100) 0) || nat_beq (y % 400) 0)

unfoldable pub days_in_month : ℕ → ℕ → ℕ
unfolding is_leap
days_in_month y m =
    if nat_beq m 2
    then (if is_leap y then 29 else 28)
    else if nat_beq m 4 || nat_beq m 6 || nat_beq m 9 || nat_beq m 11
    then 30
    else 31

pub record Date : Type 0 where
  pub year : ℕ
  pub month : ℕ
  pub day : ℕ

abbrev month_of : ℕ → ℕ → Option (ℕ × ℕ)
month_of y m = if leb 1 m && leb m 12 then some (y, m) else none

abbrev year_month : Option ℕ → Option ℕ → Option ℕ → Option (ℕ × ℕ)
year_month (some a) (some b) (some m) = month_of (a * 100 + b) m
year_month (some a) (some b) none = none
year_month (some a) none m = none
year_month none b m = none

-- "2006-01"
unfoldable pub parse_month : Text → Option (ℕ × ℕ)
parse_month (a ∷ b ∷ c ∷ d ∷ dash ∷ e ∷ f ∷ []) =
    if nat_beq dash 45 then year_month (two a b) (two c d) (two e f) else none
parse_month _ = none

unfoldable pub with_day : Option (ℕ × ℕ) → Option ℕ → Option Date
unfolding days_in_month
with_day (some (y, m)) (some d) =
    if leb 1 d && leb d (days_in_month y m)
    then some (record { year = y; month = m; day = d })
    else none
with_day (some p) none = none
with_day none d = none

-- "2006-01-02"
unfoldable pub parse_date : Text → Option Date
unfolding parse_month with_day
parse_date (a ∷ b ∷ c ∷ d ∷ dash ∷ e ∷ f ∷ dash' ∷ g ∷ h ∷ []) =
    if nat_beq dash' 45
    then with_day (parse_month (a ∷ b ∷ c ∷ d ∷ dash ∷ e ∷ f ∷ [])) (two g h)
    else none
parse_date _ = none

abbrev is_some_date : Option Date → Bool
is_some_date none = false
is_some_date (some d) = true

abbrev is_date : String → Bool
is_date s = s == "" || is_some_date (parse_date (codes s))

-- dateRange: optional inclusive bounds. A text before another one is the earlier date.
unfoldable pub date_range : String → String → Result (String × String)
unfolding parse_date codes
date_range start end =
    if not (is_date start && is_date end)
    then err bad_request
    else if not (start == "") && not (end == "") && text_before end start
    then err bad_request
    else ok (start, end)

pub record Period : Type 0 where
  pub month : String
  pub start : String
  pub end : String

-- The day on which a month ends, two digits.
abbrev last_day : ℕ → String
last_day n =
    if nat_beq n 28
    then "28"
    else if nat_beq n 29
    then "29"
    else if nat_beq n 30
    then "30"
    else "31"

-- Format of the first day, and of AddDate(0, 1, -1).
abbrev month_ends : String → Option (ℕ × ℕ) → Result (String × String)
month_ends s none = err bad_request
month_ends s (some (y, m)) = ok (s ++ "-01", s ++ "-" ++ last_day (days_in_month y m))

unfoldable pub resolve : Period → Result (String × String)
unfolding parse_month date_range days_in_month
resolve p =
    if not (p.month == "")
    then (if not (p.start == "") || not (p.end == "")
        then err bad_request
        else month_ends p.month (parse_month (codes p.month)))
    else if p.start == "" || p.end == ""
    then err bad_request
    else date_range p.start p.end

-- Days before a year, before a month of it, and up to a day.
abbrev leaps : ℕ → ℕ
leaps y = y / 4 - y / 100 + y / 400

unfoldable pub days_before : ℕ → ℕ → ℕ
unfolding days_in_month
days_before y zero = 0
days_before y (suc m) = days_before y m + days_in_month y (suc m)

-- Year 0 is a leap year.
abbrev pub day_number : Date → ℕ
day_number d = d.year * 365 + (leaps (d.year + 399) - 96) + days_before d.year (d.month - 1) + d.day
