-- ===== src/Tests/Signin.antt =====
-- auth/server.go: a sign-in from the client's request to the code.
use ynab_auto_categorizer.Prelude.{
  ◌+◌, ◌≤◌, true, false, ◌≡◌, refl, some, [], ◌∷◌, length, ok, string_eq, lower,
}
use ynab_auto_categorizer.Scan.Redaction.{Text}
use ynab_auto_categorizer.Sql.{Session, Sql, pure, ◌>>=◌, query, exec, next, raise}
use ynab_auto_categorizer.Table.{find, replace, delete, merge}
use ynab_auto_categorizer.Scan.Category.{trim_right, trim_left, is_space}
use ynab_auto_categorizer.Auth.Clients.{client_name}
use ynab_auto_categorizer.Auth.Rows.{Auth, AuthSession, ClientRow, empty}
use ynab_auto_categorizer.Auth.Generations.{
  new_session, current_generation, check_session, generation, gen_of, check_issued, issued,
}
use ynab_auto_categorizer.Auth.Allowlist.{
  parse_allowlist, check, normalize_all, normalize_email, split,
}
use ynab_auto_categorizer.Auth.Parked.{AuthorizeRequest, Identity, max_pending, drop_expired, park}
use ynab_auto_categorizer.Auth.Signin.{
  Outside, World, code_issued, refused, ConsentForm, Callback, handle_consent, handle_authorize,
  handle_google_callback, with_mcp_scope,
}
use ynab_auto_categorizer.Auth.Signin.Steps.{authorize, callback}
use ynab_auto_categorizer.Auth.Signin.Issued.{
  Reached, start, served, serve, parked_few, code_issued_lem, IsProper,
}

-- "a@b", and " A@b ,x" as the operator wrote it
abbrev email : Text
email = 97 ∷ 64 ∷ 98 ∷ []

abbrev setting : Text
setting = 32 ∷ 65 ∷ 64 ∷ 98 ∷ 32 ∷ 44 ∷ 120 ∷ []

abbrev alice : Identity
alice = record { email = email; email_verified = true; name = "Alice" }

abbrev outside : Outside
outside = record {
  exchange = λ code verifier nonce. ok alice;
  lower_rune = lower;
  digest = λ e. "u_1";
  allowed = parse_allowlist lower setting;
}

abbrev asked : AuthorizeRequest
asked = record {
  client_id = "c";
  redirect_uri = "https://x";
  scopes = [];
  code_challenge = "h";
  code_challenge_method = "S256";
}

abbrev client : ClientRow
client = record {
  name = "App";
  redirect_uris = [];
  grant_types = [];
  response_types = [];
  scopes = [];
  created_at = 1;
}

abbrev database : Session Auth
database = record {
  db = record empty { clients = ("c", client) ∷ [] };
  stmt = 0;
  fault = λ n. false;
}

abbrev issue : AuthorizeRequest → AuthSession → Sql Auth (Unit {0})
issue ar s = pure tt

abbrev granted : AuthorizeRequest
granted = record asked { scopes = "mcp" ∷ [] }

abbrev came_back : Callback
came_back = record { state = "st"; failed = false; code = "g" }

abbrev form : ConsentForm
form = record { consent_id = "id"; csrf = "t"; approve = true; cookie = some "t" }

-- Parked, signed in, and waiting for consent.
abbrev waiting : World
waiting =
    (serve outside issue (callback came_back 20 "id" "t")
      (serve outside issue (authorize (some asked) 10 "st" "v" "n")
        (record { server = record { pending = []; consents = [] }; auth = database })).1).1

reached : Reached outside issue waiting
reached =
    served (callback came_back 20 "id" "t")
      (served (authorize (some asked) 10 "st" "v" "n") (start database))

issues :
    (handle_consent issue form 30 waiting).0 ≡ code_issued granted (new_session "u_1" "Alice" 0)
unfolding handle_consent find serve replace parse_allowlist trim_right trim_left lower client_name
    ◌>>=◌ query pure current_generation delete check_session generation gen_of check normalize_all
    normalize_email split check_issued issued drop_expired handle_authorize handle_google_callback
    park with_mcp_scope is_space exec next raise merge
issues = refl

-- A consent is used up by the first answer.
refuses_again :
    (handle_consent issue form 40 (handle_consent issue form 30 waiting).1).0 ≡ refused 403
unfolding handle_consent find serve replace parse_allowlist trim_right trim_left lower client_name
    ◌>>=◌ query pure current_generation delete check_session generation gen_of check normalize_all
    normalize_email split check_issued issued drop_expired handle_authorize handle_google_callback
    park with_mcp_scope is_space exec next raise merge
refuses_again = refl

parked_few_example : length waiting.server.pending + length waiting.server.consents ≤ max_pending
parked_few_example = parked_few outside issue reached

code_issued_lem_example :
    IsProper outside issue form 30 waiting granted (new_session "u_1" "Alice" 0)
code_issued_lem_example =
    code_issued_lem outside issue form 30 granted (new_session "u_1" "Alice" 0) reached issues
