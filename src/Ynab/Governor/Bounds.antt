-- ===== src/Ynab/Governor/Bounds.antt =====
-- ynab/governor.go: how many requests the budget lets through.
use native.Mathlib.Nat
use ynab_auto_categorizer.Prelude.{
  ℕ, ◌+◌, ◌*◌, ◌≤◌, ◌<◌, ℤ, Bool, ◌≡◌, refl, ap, List, [], ◌∷◌, ltb, Bool-cases, inl, inr, arith,
}
use ynab_auto_categorizer.Mirror.Rows.{Time}
use ynab_auto_categorizer.Ynab.Governor.{
  Answer, granted, exhausted, Governor, token, floor, new_governor, refill, spend, take, count,
  attempts,
}

-- The bucket never holds more than the capacity, and the reserve fits in it.
pub record IsWithin (g : Governor) : Type 0 where
  pub filled : g.tokens ≤ g.capacity
  pub reserved : g.reserve ≤ g.capacity
  pub sized : g.capacity ≡ g.per_ns * token

pub IsWithin-refill : (now : Time) (g : Governor) → IsWithin g → IsWithin (refill now g)
unfolding refill
IsWithin-refill now g h = record {
  filled = ground (arith, h.filled);
  reserved = h.reserved;
  sized = h.sized;
}

IsWithin-spend : (write : Bool) (g : Governor) → IsWithin g → IsWithin (spend write g).1
unfolding spend
IsWithin-spend write g h = record {
  filled = ground (arith, h.filled);
  reserved = ground (arith, h.reserved);
  sized = ground (arith, h.sized);
}

-- A Governor is well formed from the start and stays so.
pub IsWithin-new_governor :
    (limit reserve : ℤ) (now : Time) → IsWithin (new_governor limit reserve now)
unfolding new_governor
IsWithin-new_governor limit reserve now = record {
  filled = omega arith;
  reserved = ground arith;
  sized = omega arith;
}

pub IsWithin-take :
    (write : Bool) (now : Time) (g : Governor) → IsWithin g → IsWithin (take write now g).1
unfolding take
IsWithin-take write now g h = IsWithin-spend write (refill now g) (IsWithin-refill now g h)

-- A refill adds no more than the rate allows.
refill_bound :
    (delay : ℕ) (g : Governor) → (refill (g.last + delay) g).tokens ≤ g.tokens + delay * g.per_ns
unfolding refill
refill_bound delay g = ground arith

take_bound :
    (write : Bool) (delay : ℕ) (g : Governor)
    → token * count (take write (g.last + delay) g).0 + (take write (g.last + delay) g).1.tokens
      ≤ g.tokens + delay * g.per_ns
unfolding take spend
take_bound write delay g = ground (arith, refill_bound delay g)

take_rate : (write : Bool) (now : Time) (g : Governor) → (take write now g).1.per_ns ≡ g.per_ns
unfolding take spend refill
take_rate write now g = ground arith

abbrev pub span : List (Bool × ℕ) → ℕ
span [] = 0
span ((write, delay) ∷ rest) = delay + span rest

grants_bound :
    (xs : List (Bool × ℕ)) (g : Governor)
    → token * (attempts xs g).0 + (attempts xs g).1.tokens ≤ g.tokens + span xs * g.per_ns
unfolding attempts
grants_bound [] g = omega arith
grants_bound ((write, delay) ∷ rest) g =
    let g' = (take write (g.last + delay) g).1 in
    omega (
      arith,
      grants_bound rest g',
      take_bound write delay g,
      ap (λ r. span rest * r) (take_rate write (g.last + delay) g),
      Nat.add-mul delay (span rest) g.per_ns,
    )

-- With exact numbers in place of the float64 fields, whose rounding is left out: how many attempts, reads
-- and writes together, a well-formed budget lets through. In any sequence of attempts that spans some
-- time, at most the hourly limit and what the limit refills in that time. An hour lets through up to
-- twice the limit.
pub grants_within_budget :
    (xs : List (Bool × ℕ)) (g : Governor)
    → IsWithin g
    → token * (attempts xs g).0 ≤ (token + span xs) * g.per_ns
grants_within_budget xs g h =
    omega (arith, grants_bound xs g, h.filled, h.sized, Nat.add-mul token (span xs) g.per_ns)

-- What one call of Take does.
abbrev Settles : Bool → Governor → Answer × Governor → Type 0
Settles write g (granted, g') = (g'.tokens + token ≡ g.tokens) × (floor write g ≤ g'.tokens)
Settles write g (exhausted, g') = (g.tokens < floor write g + token) × (g' ≡ g)

-- Take first refills the bucket. If it grants, it spends exactly one token, and what is left is no
-- less than the floor: a read leaves the write reserve in the bucket. If it refuses, a token is not
-- to be had above the floor, and nothing is spent.
take-Settles :
    (write : Bool) (now : Time) (g : Governor) → Settles write (refill now g) (take write now g)
unfolding take spend
take-Settles write now g =
    elim (Bool-cases (ltb (refill now g).tokens (floor write (refill now g) + token))) [
      | inl short ↦ rw short (ground arith, refl)
      | inr fine ↦ rw fine (ground arith, ground arith)
    ]
