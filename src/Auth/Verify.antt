-- ===== src/Auth/Verify.antt =====
-- auth/server.go: the token endpoint and the check of a bearer token. What fosite makes of a request or
-- a token, on the database, comes from outside.
pub mod Revoked
use ynab_auto_categorizer.Prelude.{
  String, Bool, true, false, Option, none, some, List, Error, Result, ok, err, invalid_token,
  invalid_grant,
}
use ynab_auto_categorizer.Sql.{Session, Sql, ◌>>=◌, continue}
use ynab_auto_categorizer.Mirror.Rows.{Time}
use ynab_auto_categorizer.Auth.Rows.{Auth, AuthSession, TokenKind}
use ynab_auto_categorizer.Auth.Generations.{check_session}

-- What IntrospectToken finds: whether it is an access token, and the requester's session (none if it is
-- no DefaultSession) and scopes.
pub record Introspected : Type 0 where
  pub is_access : Bool
  pub session : Option AuthSession
  pub scopes : List String

pub record TokenInfo : Type 0 where
  pub scopes : List String
  pub expiration : Time
  pub user_id : String
  pub name : String

abbrev pub info_of : Introspected → Option AuthSession → Result TokenInfo
info_of r none = err invalid_token
info_of r (some s) = ok (record {
  scopes = r.scopes;
  expiration = s.expires_at TokenKind.access_token;
  user_id = s.subject;
  name = s.username;
})

abbrev pub live_info :
    Introspected → Result (Unit {0}) × Session Auth → Result TokenInfo × Session Auth
live_info r (err e, s) = (err invalid_token, s)
live_info r (ok u, s) = (info_of r r.session, s)

abbrev pub of_use : Bool → Introspected → Session Auth → Result TokenInfo × Session Auth
of_use true r s = live_info r (check_session r.session s)
of_use false r s = (err invalid_token, s)

abbrev pub introspected : Result Introspected × Session Auth → Result TokenInfo × Session Auth
introspected (err e, s) = (err invalid_token, s)
introspected (ok r, s) = of_use r.is_access r s

unfoldable pub verify_token : (String → Sql Auth Introspected) → String → Sql Auth TokenInfo
verify_token introspect token s = introspected (introspect token s)

-- A request for tokens that fosite accepts, with its session; `respond` is NewAccessResponse.
module _ {R T : Type 0} (respond : R → Sql Auth T) where
  abbrev pub unless_revoked : R → Result (Unit {0}) × Session Auth → Result T × Session Auth
  unless_revoked r (err e, s) = (err invalid_grant, s)
  unless_revoked r (ok u, s) = respond r s

  abbrev pub requested : Result (Option AuthSession × R) × Session Auth → Result T × Session Auth
  requested (err e, s) = (err e, s)
  requested (ok (session, r), s) = unless_revoked r (check_session session s)

  unfoldable pub handle_token : Sql Auth (Option AuthSession × R) → Sql Auth T
  handle_token parse s = requested (parse s)
