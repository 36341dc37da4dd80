-- ===== src/Auth/Generations/Laws.antt =====
-- auth/generations.go: a bump makes every earlier session stale, and no later bump revives it.
use ynab_auto_categorizer.Prelude.{
  ℕ, ◌+◌, ◌≤◌, ◌<◌, ℤ, pos, negsuc, String, true, false, ◌≡◌, refl, ◌⊎◌, arith, ◌==◌, string_eq,
  if◌then◌else◌, ==-refl,
}
use ynab_auto_categorizer.Table.Laws.{find-merge}
use ynab_auto_categorizer.Auth.Rows.{Auth}
use ynab_auto_categorizer.Auth.Generations.{all_users, gen_of, generation, bumped, bump, is_current}

-- Counters only grow.
pub record Later (d d' : Auth) : Type 0 where
  pub grown : (user : String) → gen_of user d ≤ gen_of user d'

pub Later-refl : (d : Auth) → Later d d
Later-refl d = record { grown = λ u. omega arith }

pub Later-trans : {a b c : Auth} → Later a b → Later b c → Later a c
Later-trans h k = record { grown = λ u. omega (arith, h.grown u, k.grown u) }

gen_of-bump :
    (user v : String) (d : Auth)
    → gen_of v (bump user d).1 ≡ (if user == v then gen_of user d + 1 else gen_of v d)
unfolding gen_of bump
gen_of-bump user v d = ground (arith, find-merge v user bumped d.generations, ==-refl user)

pub Later-bump : (user : String) (d : Auth) → Later d (bump user d).1
Later-bump user d = record {
  grown = λ v. ground (arith, gen_of-bump user v d, string_eq.beq_iff user v);
}

pub generation-Later : {d d' : Auth} (v : String) → Later d d' → generation v d ≤ generation v d'
unfolding generation
generation-Later v h = ground (arith, h.grown v, h.grown all_users)

-- A bump of a user, or of all users, raises the generation that the user's sessions need.
pub generation-bump :
    (user v : String) (d : Auth)
    → (user ≡ v) ⊎ (user ≡ all_users)
    → generation v d < generation v (bump user d).1
unfolding generation
generation-bump user v d h = ground (
  arith,
  gen_of-bump user v d,
  gen_of-bump user all_users d,
  string_eq.beq_iff user v,
  string_eq.beq_iff v all_users,
  string_eq.beq_iff user all_users,
)

pub is_current_stale :
    (n : ℤ) (old cur : ℕ) → is_current n old ≡ true → old < cur → is_current n cur ≡ false
is_current_stale (pos n) old cur h k = ground arith
is_current_stale (negsuc n) old cur h k = refl

-- And no one else's.
pub generation-bump_other :
    (user v : String) (d : Auth)
    → (user == v) ≡ false
    → (user == all_users) ≡ false
    → generation v (bump user d).1 ≡ generation v d
unfolding generation
generation-bump_other user v d h k =
    ground (arith, gen_of-bump user v d, gen_of-bump user all_users d)
