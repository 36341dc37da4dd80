-- ===== src/Auth/Clients.antt =====
-- auth/clients.go: dynamically registered clients, at most max_clients of them.
pub mod Cap
pub mod Live
use ynab_auto_categorizer.Prelude.{
  ℕ, suc, ◌+◌, ◌-◌, String, Bool, true, false, not, ◌&&◌, ◌||◌, Option, none, some, List, [], ◌∷◌,
  ◌++◌, Error, Result, ok, err, constraint, not_found, empty_id, not_public, too_many_clients, ◌==◌,
  string_eq, ltb, leb, nat_beq, is_some, any, length, take, keep, map, contains, if◌then◌else◌,
}
use ynab_auto_categorizer.Sql.{Sql, pure, raise, lift, exec, exec_checked, query, ◌>>=◌, ◌>>◌}
use ynab_auto_categorizer.Table.{Table, find, delete}
use ynab_auto_categorizer.Mirror.Rows.{Time}
use ynab_auto_categorizer.Auth.Rows.{Auth, Grant, ClientRow, Kind, table}
use ynab_auto_categorizer.Auth.Storage.{Tx, in_tx}

abbrev pub max_clients : ℕ
max_clients = 500

-- fosite.DefaultClient, as far as it is read.
pub record NewClient : Type 0 where
  pub id : String
  pub is_public : Bool
  pub has_secret : Bool
  pub redirect_uris : List String
  pub grant_types : List String
  pub response_types : List String
  pub scopes : List String

-- EXISTS (SELECT 1 … WHERE x.client_id = c.client_id AND x.active = 1 AND x.expires_at > now); the
-- access tokens have no active column.
abbrev pub live_grant : Time → String → String × Grant → Bool
live_grant now client (k, g) = g.client_id == client && g.active && ltb now g.expires_at

abbrev pub live_token : Time → String → String × Grant → Bool
live_token now client (k, g) = g.client_id == client && ltb now g.expires_at

unfoldable pub has_live_grant : Time → Auth → String → Bool
has_live_grant now d client =
    any (live_grant now client) d.codes
    || any (live_token now client) d.access
    || any (live_grant now client) d.refresh

-- ORDER BY created_at, rowid: insertion by time, behind those of the same time.
unfoldable pub insert_by_age : String × ClientRow → Table String ClientRow → Table String ClientRow
insert_by_age x [] = x ∷ []
insert_by_age x (y ∷ ys) =
    if ltb x.1.created_at y.1.created_at then x ∷ y ∷ ys else y ∷ insert_by_age x ys

unfoldable pub sort_from : Table String ClientRow → Table String ClientRow → Table String ClientRow
sort_from sorted [] = sorted
sort_from sorted (x ∷ xs) = sort_from (insert_by_age x sorted) xs

unfoldable pub victims : Time → ℕ → Auth → List String
unfolding sort_from insert_by_age
victims now excess d =
    take excess
      (map (λ x. x.0) (sort_from [] (keep (λ x. not (has_live_grant now d x.0)) d.clients)))

abbrev cascade : List String → Table String Grant → Table String Grant
cascade gone t = delete (λ k g. contains g.client_id gone) t

-- DELETE FROM oauth_clients WHERE client_id IN (…); the grants of a deleted client go with it
-- (ON DELETE CASCADE).
unfoldable pub evict : Time → ℕ → Auth → ℕ × Auth
evict now excess d =
    let gone = victims now excess d in
    (
      length (keep (λ x. contains x.0 gone) d.clients),
      record d {
        clients = delete (λ k c. contains k gone) d.clients;
        codes = cascade gone d.codes;
        access = cascade gone d.access;
        refresh = cascade gone d.refresh;
        pkce = cascade gone d.pkce;
      },
    )

unfoldable pub enough : ℕ → ℕ → Tx
enough excess n = if ltb n excess then raise too_many_clients else pure tt

-- `count - MaxClients + 1` is signed in the source: at most zero where the count is below the cap.
unfoldable pub make_room_for : Time → ℕ → Tx
make_room_for now count =
    if leb (count + 1) max_clients
    then pure tt
    else (exec (evict now (count + 1 - max_clients)) >>= λ n. enough (count + 1 - max_clients) n)

unfoldable pub make_room : Time → Tx
make_room now = query (λ d. length d.clients) >>= λ count. make_room_for now count

unfoldable pub insert_client : String → ClientRow → Auth → Result (Unit {0}) × Auth
insert_client i c d =
    if is_some (find i d.clients)
    then (err constraint, d)
    else (ok tt, record d { clients = d.clients ++ (i, c) ∷ [] })

abbrev pub row_of : NewClient → String → Time → ClientRow
row_of c name now = record {
  name = name;
  redirect_uris = c.redirect_uris;
  grant_types = c.grant_types;
  response_types = c.response_types;
  scopes = c.scopes;
  created_at = now;
}

unfoldable pub register_client : Bool → Time → NewClient → String → Tx
register_client nested now c name =
    if c.id == ""
    then raise empty_id
    else if not c.is_public || c.has_secret
    then raise not_public
    else in_tx nested (make_room now >> exec_checked (insert_client c.id (row_of c name now)))

abbrev client_or_missing : Option ClientRow → Sql Auth ClientRow
client_or_missing none = raise not_found
client_or_missing (some c) = pure c

unfoldable pub get_client : String → Sql Auth ClientRow
get_client i = query (λ d. find i d.clients) >>= client_or_missing

unfoldable pub client_name : String → Sql Auth String
client_name i = query (λ d. find i d.clients) >>= client_or_missing >>= λ c. pure c.name
