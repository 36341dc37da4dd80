-- ===== src/Tests/Tokens.antt =====
-- auth/: a client with a code and a family of tokens, at its first use, its reuse and its revocation.
use Prim.Native.String.{◌++◌ as ◌+++◌}
use ynab_auto_categorizer.Prelude.{
  ℕ, zero, suc, pos, String, true, false, ◌≡◌, refl, some, [], ◌∷◌, ok, string_eq, inl, not_found,
  Option, none, Result, err, invalid_token, invalid_grant, serialization_failure,
}
use ynab_auto_categorizer.Sql.{Sql, query, lift, next, Session, exec, ◌>>=◌, write_tx, pure, run}
use ynab_auto_categorizer.Sql.Outcomes.{Refused}
use ynab_auto_categorizer.Table.{Table, find, merge, delete}
use ynab_auto_categorizer.Auth.Rows.{
  Auth, AuthSession, ClientRow, Gen, Grant, Kind, TokenKind, StoredRequest, table, with_table,
}
use ynab_auto_categorizer.Auth.Generations.{
  check_session, check_issued, current_generation, bump_generation, bump, issued, generation,
  gen_of,
}
use ynab_auto_categorizer.Auth.Storage.{
  Requester, load, invalidate_authorize_code, rotate_refresh_token, prune, in_tx, prune_body,
  prune_table, rotate_body, retire, revoke_refresh_token, revoke_access_token,
}
use ynab_auto_categorizer.Auth.Storage.Rotation.{Rotated, rotation_ends_family}
use ynab_auto_categorizer.Auth.Storage.Pruning.{Pruned, prune_exact}
use ynab_auto_categorizer.Auth.Clients.{NewClient, register_client, has_live_grant}
use ynab_auto_categorizer.Auth.Clients.Cap.{Capped, registration-Capped}
use ynab_auto_categorizer.Auth.Clients.Live.{holding, live_client_stays}
use ynab_auto_categorizer.Auth.Steps.{Op, Reach, perform}
use ynab_auto_categorizer.Auth.Steps.Revoked.{revoked_forever}
use ynab_auto_categorizer.Auth.Verify.{Introspected, verify_token, handle_token}
use ynab_auto_categorizer.Auth.Verify.Revoked.{revoked_everywhere}
use ynab_auto_categorizer.Auth.Steps.Reuse.{code_used_once, token_rotates_once}

abbrev client : ClientRow
client = record {
  name = "Claude";
  redirect_uris = "https://claude.ai/callback" ∷ [];
  grant_types = "authorization_code" ∷ "refresh_token" ∷ [];
  response_types = "code" ∷ [];
  scopes = "mcp" ∷ [];
  created_at = 1;
}

abbrev signed_in : AuthSession
signed_in = record {
  subject = "u";
  username = "u@example.com";
  gen = Gen.number (pos 0);
  expires_at = λ k. 100;
}

abbrev stored_request : StoredRequest
stored_request = record {
  id = "r1";
  requested_at = 2;
  client_id = "c";
  requested_scope = "mcp" ∷ [];
  granted_scope = "mcp" ∷ [];
  requested_audience = [];
  granted_audience = [];
  form = [];
  session = some signed_in;
}

abbrev issued_grant : Grant
issued_grant = record {
  request_id = "r1";
  client_id = "c";
  expires_at = 100;
  active = true;
  request = stored_request;
}

abbrev database : Auth
database = record {
  clients = ("c", client) ∷ [];
  codes = ("code1", issued_grant) ∷ [];
  access = ("at1", issued_grant) ∷ [];
  refresh = ("rt1", issued_grant) ∷ [];
  pkce = [];
  generations = [];
}

abbrev on : Auth → Session Auth
on d = record { db = d; stmt = 0; fault = λ n. false }

abbrev session : Session Auth
session = on database

-- What the token endpoint stores for the next pair of tokens.
abbrev request : Requester
request = record {
  id = "r1";
  requested_at = 3;
  client = some "c";
  requested_scope = "mcp" ∷ [];
  granted_scope = "mcp" ∷ [];
  requested_audience = [];
  granted_audience = [];
  form = [];
  session = some signed_in;
}

abbrev next_pair : Op
next_pair = Op.create_session Kind.refresh TokenKind.refresh_token "rt2" request

abbrev revoked : Session Auth
revoked = (bump_generation "u" session).1

abbrev pruned : Auth
pruned = (perform (Op.prune_expired 3) revoked).1.db

bumps : (bump_generation "u" session).0 ≡ ok 1
unfolding bump_generation exec bump find merge
bumps = refl

kept : find "rt1" (table Kind.refresh pruned) ≡ some issued_grant
unfolding find table perform ◌>>=◌ prune in_tx write_tx bump_generation prune_body pure prune_table
    with_table delete bump
kept = refl

revoked_forever_example : Refused not_found (load Kind.refresh "rt1" (on pruned)).0
unfolding issued generation gen_of find
revoked_forever_example =
    revoked_forever "u" signed_in (pos 0) 1 database pruned session refl refl Reach.here (inl refl)
      bumps (Reach.step (Op.prune_expired 3) revoked refl Reach.here) Kind.refresh "rt1"
      issued_grant (on pruned) refl kept refl

rotates : (rotate_refresh_token false "r1" "rt1" session).0 ≡ ok tt
unfolding rotate_refresh_token in_tx write_tx rotate_body retire table pure revoke_refresh_token run
    revoke_access_token
rotates = refl

abbrev rotated : Session Auth
rotated = (rotate_refresh_token false "r1" "rt1" session).1

abbrev reused : Session Auth
reused = on (perform next_pair rotated).1.db

token_rotates_once_example :
    Refused serialization_failure (rotate_refresh_token false "r1" "rt1" reused).0
    × ((rotate_refresh_token false "r1" "rt1" reused).1.db ≡ reused.db)
token_rotates_once_example =
    token_rotates_once "r1" "rt1" tt session reused rotates
      (Reach.step next_pair rotated refl Reach.here)

invalidates : (invalidate_authorize_code "code1" session).0 ≡ ok tt
unfolding invalidate_authorize_code ◌>>=◌ exec retire table pure
invalidates = refl

abbrev invalidated : Session Auth
invalidated = (invalidate_authorize_code "code1" session).1

abbrev later : Session Auth
later = on (perform next_pair invalidated).1.db

code_used_once_example : Refused not_found (invalidate_authorize_code "code1" later).0
code_used_once_example =
    code_used_once "code1" tt session later invalidates
      (Reach.step next_pair invalidated refl Reach.here)

rotation_ends_family_example : Rotated "r1" database (rotate_refresh_token false "r1" "rt1" session)
rotation_ends_family_example = rotation_ends_family "r1" "rt1" session

prune_exact_example : Pruned 200 database (prune false 200 session)
prune_exact_example = prune_exact 200 session

abbrev newcomer : NewClient
newcomer = record {
  id = "d";
  is_public = true;
  has_secret = false;
  redirect_uris = "https://example.com/cb" ∷ [];
  grant_types = "authorization_code" ∷ [];
  response_types = "code" ∷ [];
  scopes = "mcp" ∷ [];
}

registration-Capped_example : Capped database (register_client false 50 newcomer "Example" session)
registration-Capped_example = registration-Capped 50 newcomer "Example" session

-- As many clients as are allowed, each registered at the same time.
abbrev idle : ℕ → String → Table String ClientRow
idle zero i = []
idle (suc n) i = (i, client) ∷ idle n (i +++ "x")

abbrev crowded : Session Auth
crowded = on (record database { clients = ("c", client) ∷ idle 499 "x" })

live_client_stays_example :
    holding "c" (register_client false 50 newcomer "Example" crowded).1.db ≡ holding "c" crowded.db
unfolding find has_live_grant
live_client_stays_example = live_client_stays 50 "c" client newcomer "Example" crowded refl refl

-- A stand-in for fosite that looks the token up and checks nothing.
abbrev introspected_as : Option Grant → Result Introspected
introspected_as none = err not_found
introspected_as (some g) =
    ok (record { is_access = true; session = g.request.session; scopes = g.request.granted_scope })

abbrev introspect : String → Sql Auth Introspected
introspect token = query (λ d. find token d.access) >>= λ g. lift (introspected_as g)

abbrev exchange : Sql Auth (Option AuthSession × String)
exchange = query (λ d. (some signed_in, "rt1"))

abbrev new_tokens : String → Sql Auth (Unit {0})
new_tokens r = pure tt

verifies_before :
    (verify_token introspect "at1" session).0
    ≡ ok (record { scopes = "mcp" ∷ []; expiration = 100; user_id = "u"; name = "u@example.com" })
unfolding verify_token query exec next lift ◌>>=◌ find check_session check_issued current_generation
    generation gen_of issued pure
verifies_before = refl

revoked_everywhere_example :
    ((verify_token introspect "at1" revoked).0 ≡ err invalid_token)
    × ((handle_token new_tokens exchange revoked).0 ≡ err invalid_grant)
unfolding query exec next lift ◌>>=◌ find bump_generation bump issued generation gen_of
revoked_everywhere_example =
    revoked_everywhere "u" signed_in (pos 0) 1 database session introspect "at1"
      (record { is_access = true; session = some signed_in; scopes = "mcp" ∷ [] }) new_tokens
      exchange "rt1" revoked revoked
      (record {
        says = refl;
        was = refl;
        meanwhile = Reach.here;
        target = inl refl;
        bumped = bumps;
      })
      refl refl Reach.here refl Reach.here
