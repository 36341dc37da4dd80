-- ===== src/Auth/Generations.antt =====
-- auth/generations.go: a session carries the generation of its user at sign-in, and a revoke bumps it.
pub mod Laws
use ynab_auto_categorizer.Prelude.{
  ℕ, suc, ◌+◌, ℤ, pos, String, Bool, Option, none, some, Error, Result, ok, err, revoked,
  empty_user, ◌==◌, string_eq, nat_beq, if◌then◌else◌,
}
use ynab_auto_categorizer.Sql.{Sql, raise, pure, query, exec, ◌>>=◌}
use ynab_auto_categorizer.Table.{find, merge}
use ynab_auto_categorizer.Auth.Rows.{Auth, AuthSession, Gen, TokenKind}
use ynab_auto_categorizer.Mirror.Rows.{Time}

-- The user whose generation applies to everyone.
abbrev pub all_users : String
all_users = "*"

abbrev pub stored : Option ℕ → ℕ
stored none = 0
stored (some n) = n

unfoldable pub gen_of : String → Auth → ℕ
gen_of user d = stored (find user d.generations)

-- SELECT COALESCE(SUM(generation), 0) … WHERE user IN (user, '*')
unfoldable pub generation : String → Auth → ℕ
generation user d = if user == all_users then gen_of user d else gen_of user d + gen_of all_users d

unfoldable pub current_generation : String → Sql Auth ℕ
current_generation user = query (generation user)

abbrev bumped : Option ℕ → ℕ
bumped none = 1
bumped (some n) = n + 1

unfoldable pub bump : String → Auth → ℕ × Auth
bump user d =
    let t = merge user bumped d.generations in (stored (find user t), record d { generations = t })

unfoldable pub bump_generation : String → Sql Auth ℕ
bump_generation user = if user == "" then raise empty_user else exec (bump user)

abbrev pub new_session : String → String → ℕ → AuthSession
new_session user name gen = record {
  subject = user;
  username = name;
  gen = Gen.int (pos gen);
  expires_at = λ _. 0;
}

-- The generation that a session says it was issued at; `none` fails closed.
unfoldable pub issued : Gen → Option ℤ
issued Gen.missing = none
issued (Gen.int v) = some v
issued (Gen.number v) = some v
issued Gen.fraction = none
issued Gen.other = none

abbrev pub is_current : ℤ → ℕ → Bool
is_current (pos n) cur = nat_beq n cur
is_current (ℤ.negsuc n) cur = Bool.false

unfoldable pub check_issued : String → Option ℤ → Sql Auth (Unit {0})
check_issued user none = raise revoked
check_issued user (some v) =
    current_generation user >>= λ cur. if is_current v cur then pure tt else raise revoked

unfoldable pub check_session : Option AuthSession → Sql Auth (Unit {0})
unfolding check_issued issued
check_session none = raise revoked
check_session (some s) =
    if s.subject == "" then raise revoked else check_issued s.subject (issued s.gen)
