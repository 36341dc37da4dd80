-- ===== src/Auth/Rows.antt =====
-- auth/storage.go and store/migrations/0005_oauth.sql: the rows of the OAuth tables.
use ynab_auto_categorizer.Prelude.{ℕ, ℤ, String, Bool, Option, List, []}
use ynab_auto_categorizer.Table.{Table}
use ynab_auto_categorizer.Mirror.Rows.{Time}

-- The kinds of token that a session has an expiry for (fosite.TokenType).
pub data TokenKind : Type 0 where
  authorize_code access_token refresh_token : TokenKind

-- The value under GenKey in a session's Extra map.
pub data Gen : Type 0 where
  missing : Gen
  int : ℤ → Gen
  number : ℤ → Gen  -- a float64 with a whole value
  fraction : Gen  -- any other float64
  other : Gen  -- no number

-- The fields of fosite.DefaultSession that the code reads.
pub record AuthSession : Type 0 where
  pub subject : String
  pub username : String
  pub gen : Gen
  pub expires_at : TokenKind → Time  -- 0 is the zero time: no expiry

pub record StoredRequest : Type 0 where
  pub id : String
  pub requested_at : Time
  pub client_id : String
  pub requested_scope : List String
  pub granted_scope : List String
  pub requested_audience : List String
  pub granted_audience : List String
  pub form : List (String × List String)
  pub session : Option AuthSession

-- A row of a code or token table. The access and PKCE tables have no active column: there it is true.
pub record Grant : Type 0 where
  pub request_id : String
  pub client_id : String
  pub expires_at : Time
  pub active : Bool
  pub request : StoredRequest

-- The four lists are JSON arrays in the row.
pub record ClientRow : Type 0 where
  pub name : String
  pub redirect_uris : List String
  pub grant_types : List String
  pub response_types : List String
  pub scopes : List String
  pub created_at : Time

pub record Auth : Type 0 where
  pub clients : Table String ClientRow
  pub codes : Table String Grant
  pub access : Table String Grant
  pub refresh : Table String Grant
  pub pkce : Table String Grant
  pub generations : Table String ℕ

abbrev pub empty : Auth
empty = record { clients = []; codes = []; access = []; refresh = []; pkce = []; generations = [] }

-- The tables whose name the statements are built from.
pub data Kind : Type 0 where
  codes access refresh pkce : Kind

unfoldable pub table : Kind → Auth → Table String Grant
table Kind.codes d = d.codes
table Kind.access d = d.access
table Kind.refresh d = d.refresh
table Kind.pkce d = d.pkce

unfoldable pub with_table : Kind → Table String Grant → Auth → Auth
with_table Kind.codes t d = record d { codes = t }
with_table Kind.access t d = record d { access = t }
with_table Kind.refresh t d = record d { refresh = t }
with_table Kind.pkce t d = record d { pkce = t }
