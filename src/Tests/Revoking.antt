-- ===== src/Tests/Revoking.antt =====
-- cmd/revoke.go: a user with two tokens is signed out, and another is not.
use ynab_auto_categorizer.Prelude.{
  pos, String, true, false, ◌≡◌, refl, some, [], ◌∷◌, ok, codes, lower,
}
use ynab_auto_categorizer.Scan.Redaction.{Text}
use ynab_auto_categorizer.Scan.Category.{trim_left, trim_right, is_space}
use ynab_auto_categorizer.Sql.{Session, pure, lift, query, exec, next, raise, ◌>>=◌}
use ynab_auto_categorizer.Table.{find, replace, merge}
use ynab_auto_categorizer.Auth.Rows.{Auth, AuthSession, Gen, Grant, empty, table}
use ynab_auto_categorizer.Auth.Generations.{
  bump_generation, bump, current_generation, generation, gen_of, issued,
}
use ynab_auto_categorizer.Auth.Allowlist.{normalize_email}
use ynab_auto_categorizer.Auth.Active.{
  sessions_of, known_generation, count_sessions, count_active, active_tokens,
}
use ynab_auto_categorizer.Auth.Active.Exact.{working_tokens}
use ynab_auto_categorizer.Cmd.Revoke.{is_subject, revoke_target, revoke_cmd, revoked, usage}
use ynab_auto_categorizer.Cmd.Revoke.Exact.{Answers, Answers-revoke_cmd}

abbrev alice : String
alice = "u_0123456789ab"

abbrev bob : String
bob = "u_ba9876543210"

abbrev digest : Text → String
digest t = alice

abbrev session_of : String → AuthSession
session_of user = record {
  subject = user;
  username = "";
  gen = Gen.number (pos 0);
  expires_at = λ k. 100;
}

abbrev grant_of : String → Grant
grant_of user = record {
  request_id = "r";
  client_id = "c";
  expires_at = 100;
  active = true;
  request = record {
    id = "r";
    requested_at = 1;
    client_id = "c";
    requested_scope = [];
    granted_scope = [];
    requested_audience = [];
    granted_audience = [];
    form = [];
    session = some (session_of user);
  };
}

abbrev auth : Auth
auth = record empty {
  access = ("a1", grant_of alice) ∷ ("b1", grant_of bob) ∷ [];
  refresh = ("a2", grant_of alice) ∷ ("a3", record (grant_of alice) { active = false }) ∷ [];
}

abbrev database : Session Auth
database = record { db = auth; stmt = 0; fault = λ n. false }

reports_two :
    (revoke_cmd lower digest (alice ∷ []) true (ok tt) 50 database).0 ≡ revoked alice (some 2)
unfolding revoke_cmd revoke_target is_subject codes lower normalize_email trim_left trim_right
    is_space active_tokens count_active sessions_of count_sessions known_generation
    current_generation query exec next pure lift raise ◌>>=◌ table find replace merge generation
    gen_of issued bump_generation bump
reports_two = refl

knows_emails :
    (revoke_cmd lower digest ("a@b.c" ∷ []) true (ok tt) 50 database).0 ≡ revoked alice (some 2)
unfolding revoke_cmd revoke_target is_subject codes lower normalize_email trim_left trim_right
    is_space active_tokens count_active sessions_of count_sessions known_generation
    current_generation query exec next pure lift raise ◌>>=◌ table find replace merge generation
    gen_of issued bump_generation bump
knows_emails = refl

refuses_typos : (revoke_cmd lower digest ("u_0123" ∷ []) true (ok tt) 50 database).0 ≡ usage
unfolding revoke_cmd revoke_target is_subject codes lower normalize_email trim_left trim_right
    is_space active_tokens count_active sessions_of count_sessions known_generation
    current_generation query exec next pure lift raise ◌>>=◌ table find replace merge generation
    gen_of issued bump_generation bump
refuses_typos = refl

leaves_bob :
    working_tokens bob 50 (revoke_cmd lower digest (alice ∷ []) true (ok tt) 50 database).1.db ≡ 1
unfolding revoke_cmd revoke_target is_subject codes lower normalize_email trim_left trim_right
    is_space active_tokens count_active sessions_of count_sessions known_generation
    current_generation query exec next pure lift raise ◌>>=◌ table find replace merge generation
    gen_of issued bump_generation bump
leaves_bob = refl

Answers-revoke_cmd_example :
    Answers 50 auth (revoke_cmd lower digest (alice ∷ []) true (ok tt) 50 database)
Answers-revoke_cmd_example = Answers-revoke_cmd lower digest (alice ∷ []) true (ok tt) 50 database
