-- ===== src/Auth/Storage.antt =====
-- auth/storage.go: the fosite storage. A Get method returns the request with the error beside it,
-- where the source returns both.
pub mod Rotation
pub mod Pruning
use ynab_auto_categorizer.Prelude.{
  ℕ, ◌+◌, String, nat_beq, map, Bool, true, false, not, ◌&&◌, ◌||◌, Option, none, some, List, [],
  ◌∷◌, Error, Result, ok, err, constraint, not_found, invalidated_code, inactive_token,
  serialization_failure, revoked, bad_session, no_client, no_expiry, ◌==◌, string_eq, ltb, leb,
  is_some, length, keep, if◌then◌else◌,
}
use ynab_auto_categorizer.Sql.{
  Session, Sql, pure, raise, lift, exec, exec_checked, query, run, write_tx, ◌>>=◌, ◌>>◌,
}
use ynab_auto_categorizer.Table.{Table, find, modify, update, delete, rows}
use ynab_auto_categorizer.Mirror.Rows.{Time}
use ynab_auto_categorizer.Auth.Rows.{
  Auth, AuthSession, Gen, TokenKind, Grant, StoredRequest, ClientRow, Kind, table, with_table,
}
use ynab_auto_categorizer.Auth.Generations.{
  check_session, current_generation, issued, is_current, generation, all_users,
}

abbrev pub Tx : Type 0
Tx = Sql Auth (Unit {0})

-- inTx: the caller's transaction, or a new one. The foreign keys of these tables are immediate, so
-- COMMIT has nothing to check.
unfoldable pub in_tx : {A : Type 0} → Bool → Sql Auth A → Sql Auth A
in_tx nested fn = if nested then fn else write_tx (λ _. true) fn

-- A fosite.Requester. `session` is `none` unless it is a *fosite.DefaultSession, `client` is its id.
pub record Requester : Type 0 where
  pub id : String
  pub requested_at : Time
  pub client : Option String
  pub requested_scope : List String
  pub granted_scope : List String
  pub requested_audience : List String
  pub granted_audience : List String
  pub form : List (String × List String)
  pub session : Option AuthSession

abbrev pub stored_form : List String
stored_form =
    "client_id" ∷ "code_challenge" ∷ "code_challenge_method" ∷ "grant_type" ∷ "redirect_uri"
    ∷ "response_type" ∷ "scope" ∷ []

unfoldable pub allowed_form :
    List String → List (String × List String) → List (String × List String)
allowed_form [] form = []
allowed_form (k ∷ ks) form = elim (find k form) [
  | none ↦ allowed_form ks form
  | some v ↦ (k, v) ∷ allowed_form ks form
]

-- A number comes back from JSON as a float64.
abbrev pub json_gen : Gen → Gen
json_gen Gen.missing = Gen.missing
json_gen (Gen.int v) = Gen.number v
json_gen (Gen.number v) = Gen.number v
json_gen Gen.fraction = Gen.fraction
json_gen Gen.other = Gen.other

abbrev pub json_session : AuthSession → AuthSession
json_session s = record s { gen = json_gen s.gen }

abbrev grant_of : Requester → AuthSession → String → Time → Grant
grant_of req sess client expires = record {
  request_id = req.id;
  client_id = client;
  expires_at = expires;
  active = true;
  request = record {
    id = req.id;
    requested_at = req.requested_at;
    client_id = client;
    requested_scope = req.requested_scope;
    granted_scope = req.granted_scope;
    requested_audience = req.requested_audience;
    granted_audience = req.granted_audience;
    form = allowed_form stored_form req.form;
    session = some (json_session sess);
  };
}

-- INSERT: refused if the signature is taken or the client is not registered.
unfoldable pub insert_grant : Kind → String → Grant → Auth → Result (Unit {0}) × Auth
insert_grant kind signature g d =
    if is_some (find signature (table kind d)) || not (is_some (find g.client_id d.clients))
    then (err constraint, d)
    else (ok tt, with_table kind ((signature, g) ∷ table kind d) d)

unfoldable pub create_for : Kind → TokenKind → String → Requester → AuthSession → Option String → Tx
create_for kind token signature req sess none = raise no_client
create_for kind token signature req sess (some client) =
    if nat_beq (sess.expires_at token) 0
    then raise no_expiry
    else exec_checked
        (insert_grant kind signature (grant_of req sess client (sess.expires_at token)))

abbrev pub create_with : Kind → TokenKind → String → Requester → Option AuthSession → Tx
create_with kind token signature req none = raise bad_session
create_with kind token signature req (some sess) =
    create_for kind token signature req sess req.client

unfoldable pub create : Kind → TokenKind → String → Requester → Tx
create kind token signature req = create_with kind token signature req req.session

-- A request as `load` gives it back, with the id of its client.
unfoldable pub found_client : String → Sql Auth (Option ClientRow)
found_client i = query (λ d. find i d.clients)

abbrev pub with_client : StoredRequest → Bool → Option ClientRow → Sql Auth (StoredRequest × Bool)
with_client sr active none = raise not_found
with_client sr active (some c) = pure (sr, active)

-- A revoked session reads as not found; any other error passes.
abbrev pub hidden : Result (Unit {0}) → Result (Unit {0})
hidden (ok u) = ok u
hidden (err e) = elim e [ Error.revoked ↦ err not_found | other ↦ err other ]

unfoldable pub hide_revoked : Tx → Tx
hide_revoked m s = let (r, s') = m s in (hidden r, s')

unfoldable pub load_row : Option Grant → Sql Auth (StoredRequest × Bool)
load_row none = raise not_found
load_row (some g) = hide_revoked (check_session g.request.session) >>= λ _.
    found_client g.request.client_id >>= λ c. with_client g.request g.active c

unfoldable pub load : Kind → String → Sql Auth (StoredRequest × Bool)
load kind signature = query (λ d. find signature (table kind d)) >>= load_row

abbrev with_error : Error → StoredRequest × Bool → StoredRequest × Option Error
with_error e (sr, true) = (sr, none)
with_error e (sr, false) = (sr, some e)

unfoldable pub get_authorize_code : String → Sql Auth (StoredRequest × Option Error)
get_authorize_code signature =
    load Kind.codes signature >>= λ p. pure (with_error invalidated_code p)

unfoldable pub get_refresh_token : String → Sql Auth (StoredRequest × Option Error)
get_refresh_token signature =
    load Kind.refresh signature >>= λ p. pure (with_error inactive_token p)

unfoldable pub get_access_token : String → Sql Auth StoredRequest
get_access_token signature = load Kind.access signature >>= λ p. pure p.0

unfoldable pub get_pkce : String → Sql Auth StoredRequest
get_pkce signature = load Kind.pkce signature >>= λ p. pure p.0

-- DELETE … WHERE signature = ?
unfoldable pub delete_grant : Kind → String → Tx
delete_grant kind signature =
    run (λ d. with_table kind (delete (λ k g. k == signature) (table kind d)) d)

abbrev pub retired : Grant → Grant
retired g = record g { active = false }

abbrev pub retire_rows : (String → Grant → Bool) → Table String Grant → Table String Grant
retire_rows p t = map (λ x. (x.0, if p x.0 x.1 then retired x.1 else x.1)) t

-- UPDATE … SET active = 0 WHERE p, and how many rows it changed.
unfoldable pub retire : Kind → (String → Grant → Bool) → Auth → ℕ × Auth
retire kind p d = (
  length (keep (λ x. p x.0 x.1) (table kind d)),
  with_table kind (retire_rows p (table kind d)) d,
)

-- RowsAffected is 0
abbrev pub none_affected : Error → ℕ → Tx
none_affected e n = if nat_beq n 0 then raise e else pure tt

abbrev pub usable_code : String → String → Grant → Bool
usable_code signature k g = k == signature && g.active

unfoldable pub invalidate_authorize_code : String → Tx
invalidate_authorize_code signature =
    exec (retire Kind.codes (usable_code signature)) >>= none_affected not_found

abbrev pub of_request : String → String → Grant → Bool
of_request request k g = g.request_id == request

unfoldable pub revoke_refresh_token : String → Tx
revoke_refresh_token request = run (λ d. (retire Kind.refresh (of_request request) d).1)

unfoldable pub revoke_access_token : String → Tx
revoke_access_token request =
    run (λ d. with_table Kind.access (delete (of_request request) (table Kind.access d)) d)

abbrev pub current_token : String → String → String → Grant → Bool
current_token request signature k g = k == signature && g.request_id == request && g.active

unfoldable pub rotate_body : String → String → Tx
rotate_body request signature =
    exec (retire Kind.refresh (current_token request signature)) >>= λ n.
    none_affected serialization_failure n
    >> (revoke_refresh_token request >> revoke_access_token request)

unfoldable pub rotate_refresh_token : Bool → String → String → Tx
rotate_refresh_token nested request signature = in_tx nested (rotate_body request signature)

-- DELETE … WHERE expires_at <= now, and how many rows.
abbrev pub expired : Time → String → Grant → Bool
expired now k g = leb g.expires_at now

unfoldable pub prune_table : Time → Kind → Auth → ℕ × Auth
prune_table now kind d = (
  length (keep (λ x. expired now x.0 x.1) (table kind d)),
  with_table kind (delete (expired now) (table kind d)) d,
)

unfoldable pub prune_body : Time → List Kind → Sql Auth ℕ
prune_body now [] = pure 0
prune_body now (k ∷ ks) =
    exec (prune_table now k) >>= λ n. prune_body now ks >>= λ total. pure (n + total)

abbrev pub all_kinds : List Kind
all_kinds = Kind.codes ∷ Kind.access ∷ Kind.refresh ∷ Kind.pkce ∷ []

unfoldable pub prune : Bool → Time → Sql Auth ℕ
prune nested now = in_tx nested (prune_body now all_kinds)
