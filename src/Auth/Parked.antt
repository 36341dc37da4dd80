-- ===== src/Auth/Parked.antt =====
-- auth/server.go: the logins and consents that a server has parked, under its lock.
use ynab_auto_categorizer.Prelude.{
  ℕ, ◌+◌, ◌-◌, String, Bool, true, false, not, List, keep, length, leb, ltb, ◌==◌, string_eq,
  if◌then◌else◌,
}
use ynab_auto_categorizer.Scan.Redaction.{Text}
use ynab_auto_categorizer.Table.{Table, delete}
use ynab_auto_categorizer.Mirror.Rows.{Time}
use ynab_auto_categorizer.Auth.Rows.{AuthSession}

-- What is read of fosite.AuthorizeRequester.
pub record AuthorizeRequest : Type 0 where
  pub client_id : String
  pub redirect_uri : String
  pub scopes : List String
  pub code_challenge : String
  pub code_challenge_method : String

pub record PendingLogin : Type 0 where
  pub ar : AuthorizeRequest
  pub pkce_verifier : String
  pub nonce : String
  pub created : Time

pub record PendingConsent : Type 0 where
  pub ar : AuthorizeRequest
  pub session : AuthSession
  pub csrf : String
  pub created : Time

-- Keyed by the state sent to Google, and by the consent's id.
pub record Server : Type 0 where
  pub pending : Table String PendingLogin
  pub consents : Table String PendingConsent

pub record Identity : Type 0 where
  pub email : Text
  pub email_verified : Bool
  pub name : String

abbrev pub max_pending : ℕ
max_pending = 100

-- 10 minutes, in nanoseconds
abbrev pub pending_login_ttl : ℕ
pending_login_ttl = 600000000000

abbrev pub is_expired : Time → Time → Bool
is_expired now created = ltb pending_login_ttl (now - created)

unfoldable pub drop_expired : Time → Server → Server
drop_expired now s = record {
  pending = keep (λ x. not (is_expired now x.1.created)) s.pending;
  consents = keep (λ x. not (is_expired now x.1.created)) s.consents;
}

-- Whether it was stored, and the server.
unfoldable pub park : Time → (Server → Server) → Server → Bool × Server
unfolding drop_expired
park now store s =
    let s' = drop_expired now s in
    if leb max_pending (length s'.pending + length s'.consents)
    then (false, s')
    else (true, store s')

abbrev pub forget_login : String → Server → Server
forget_login state s = record s { pending = delete (λ k p. k == state) s.pending }

abbrev pub forget_consent : String → Server → Server
forget_consent id s = record s { consents = delete (λ k c. k == id) s.consents }
