-- ===== src/Tests/Budget.antt =====
-- ynab/governor.go: a budget of two requests an hour, one of them kept for writes.
use ynab_auto_categorizer.Prelude.{
  ℕ, ◌+◌, ◌*◌, ◌≤◌, pos, Bool, true, false, ◌≡◌, refl, List, [], ◌∷◌,
}
use ynab_auto_categorizer.Ynab.Governor.{Governor, token, new_governor, take, attempts, exhausted}
use ynab_auto_categorizer.Ynab.Governor.Bounds.{IsWithin-new_governor, grants_within_budget, span}

abbrev second : ℕ
second = 1000000000

abbrev governor : Governor
governor = new_governor (pos 2) (pos 1) 0

-- Two writes at once, and one in each half of the hour that follows.
abbrev writes : List (Bool × ℕ)
writes = (true, 0) ∷ (true, 0) ∷ (true, 1800 * second) ∷ (true, 1800 * second) ∷ []

-- Four writes in an hour with a limit of two.
burst : (attempts writes governor).0 ≡ 4
unfolding attempts new_governor
burst = refl

grants_within_budget_example :
    token * (attempts writes governor).0 ≤ (token + span writes) * governor.per_ns
grants_within_budget_example =
    grants_within_budget writes governor (IsWithin-new_governor (pos 2) (pos 1) 0)

-- After one read only writes are granted.
abbrev used : Governor
used = (take false 5 governor).1

refuses : (take false 5 used).0 ≡ exhausted
unfolding take new_governor
refuses = refl
