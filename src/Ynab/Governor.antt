-- ===== src/Ynab/Governor.antt =====
-- ynab/governor.go: the request budget, a token bucket. Its float64 fields are modelled by exact
-- numbers, in units so small that a nanosecond refills a whole number of them; the rounding of
-- floating point is left out. The mutex makes each method one step.
pub mod Bounds
use ynab_auto_categorizer.Prelude.{
  ℕ, suc, zero, ◌+◌, ◌-◌, ◌*◌, ◌/◌, ◌≤◌, min, max, ℤ, pos, negsuc, Bool, true, false, List, [], ◌∷◌,
  Error, Result, ok, err, budget_exhausted, ltb, if◌then◌else◌,
}
use ynab_auto_categorizer.Mirror.Rows.{Time}

-- One token: an hour in nanoseconds. A limit of n tokens an hour refills n units a nanosecond.
abbrev pub token : ℕ
token = 3600000000000

-- `per_ns` stands for perSec, which is the hourly limit over 3600.
pub record Governor : Type 0 where
  pub capacity : ℕ
  pub reserve : ℕ
  pub per_ns : ℕ
  pub tokens : ℕ
  pub last : Time

-- An int clamped from below by 0.
abbrev pub non_negative : ℤ → ℕ
non_negative (pos n) = n
non_negative (negsuc n) = 0

unfoldable pub new_governor : ℤ → ℤ → Time → Governor
new_governor hourly_limit reserve now =
    let limit = max (non_negative hourly_limit) 1 in
    record {
      capacity = limit * token;
      reserve = min (non_negative reserve) limit * token;
      per_ns = limit;
      tokens = limit * token;
      last = now;
    }

-- Subtraction stops at 0 here: a clock that went backwards refills nothing, as in the source.
unfoldable pub refill : Time → Governor → Governor
refill now g =
    let el = now - g.last in
    record g {
      tokens = if ltb 0 el then min g.capacity (g.tokens + el * g.per_ns) else g.tokens;
      last = now;
    }

abbrev pub floor : Bool → Governor → ℕ
floor write g = if write then 0 else g.reserve

-- What Take answers: nil, or ErrBudgetExhausted. The wait that its text names is left out: it depends on
-- how float64 rounds.
pub data Answer : Type 0 where
  granted exhausted : Answer

unfoldable pub spend : Bool → Governor → Answer × Governor
spend write g =
    let need = floor write g + token in
    if ltb g.tokens need then (exhausted, g) else (granted, record g { tokens = g.tokens - token })

unfoldable pub take : Bool → Time → Governor → Answer × Governor
unfolding spend refill
take write now g = spend write (refill now g)

unfoldable pub allow : Bool → Time → Governor → Result (Unit {0}) × Governor
unfolding refill
allow write now g =
    let g' = refill now g in
    (if ltb g'.tokens (floor write g' + token) then err budget_exhausted else ok tt, g')

unfoldable pub remaining : Time → Governor → (ℕ × ℕ) × Governor
unfolding refill
remaining now g =
    let g' = refill now g in (((g'.tokens - g'.reserve) / token, g'.tokens / token), g')

-- One attempt after another, each some nanoseconds after the one before; how many were granted.
abbrev count : Answer → ℕ
count granted = 1
count exhausted = 0

unfoldable pub attempts : List (Bool × ℕ) → Governor → ℕ × Governor
unfolding take
attempts [] g = (0, g)
attempts ((write, delay) ∷ rest) g =
    let (a, g') = take write (g.last + delay) g in
    let (n, g'') = attempts rest g' in (count a + n, g'')
