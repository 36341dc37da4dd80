-- ===== src/Auth/Signin.antt =====
-- auth/server.go: the sign-in through the OAuth server. A request is parked while Google asks the user,
-- and again while the user is asked for consent. fosite's parsing and issuing, Google's answer and the
-- random texts come from outside; a handler reads the clock once here.
pub mod Steps
pub mod Safe
pub mod Issued
use ynab_auto_categorizer.Prelude.{
  ℕ, suc, ◌+◌, ◌-◌, ◌*◌, String, Bool, true, false, not, ◌&&◌, ◌||◌, Option, none, some, List, [],
  ◌∷◌, ◌++◌, keep, length, contains, leb, ltb, ◌==◌, string_eq, if◌then◌else◌, Result, ok, err,
  Error, not_found, revoked, is_ok,
}
use ynab_auto_categorizer.Scan.Redaction.{Text}
use ynab_auto_categorizer.Sql.{Session, Sql}
use ynab_auto_categorizer.Table.{Table, find, replace, delete}
use ynab_auto_categorizer.Mirror.Rows.{Time}
use ynab_auto_categorizer.Auth.Parked.{
  AuthorizeRequest, PendingLogin, PendingConsent, Server, Identity, max_pending, pending_login_ttl,
  is_expired, drop_expired, park, forget_login, forget_consent,
}
use ynab_auto_categorizer.Auth.Rows.{Auth, AuthSession}
use ynab_auto_categorizer.Auth.Generations.{current_generation, check_session, new_session}
use ynab_auto_categorizer.Auth.Clients.{client_name}
use ynab_auto_categorizer.Auth.Allowlist.{Verdict, admitted, check, user_id}

abbrev pub scope_mcp : String
scope_mcp = "mcp"

unfoldable pub with_mcp_scope : List String → List String
with_mcp_scope scopes = if contains scope_mcp scopes then scopes else scopes ++ scope_mcp ∷ []

-- What the consent page shows of the client, and the values of its form; its cookie holds `csrf` too.
pub record ConsentPage : Type 0 where
  pub client_name : String
  pub redirect_uri : String
  pub consent_id : String
  pub csrf : String
  pub user : String

-- A status with finbot's own page; a redirect to Google; the consent page with its cookie; a code.
pub data Reply : Type 0 where
  refused : ℕ → Reply
  to_google : String → String → String → Reply
  consent_page : ConsentPage → Reply
  code_issued : AuthorizeRequest → AuthSession → Reply

-- The server beside its database.
pub record World : Type 0 where
  pub server : Server
  pub auth : Session Auth

-- handleAuthorize: `parsed` is what fosite makes of the request.
abbrev pub park_login : Time → String → PendingLogin → World → Reply × World
park_login now state p w =
    let (stored, s) = park now (λ s. record s { pending = replace state p s.pending }) w.server in
    (
      if stored then to_google state p.pkce_verifier p.nonce else refused 503,
      record w { server = s },
    )

-- Every token is for the MCP endpoint, so its scope is always asked for.
abbrev pub login_of : AuthorizeRequest → Time → String → String → PendingLogin
login_of ar now verifier nonce = record {
  ar = record ar { scopes = with_mcp_scope ar.scopes };
  pkce_verifier = verifier;
  nonce = nonce;
  created = now;
}

unfoldable pub handle_authorize :
    Option AuthorizeRequest → Time → String → String → String → World → Reply × World
unfolding park with_mcp_scope
handle_authorize none now state verifier nonce w = (refused 400, w)
handle_authorize (some ar) now state verifier nonce w =
    if ar.code_challenge == "" || not (ar.code_challenge_method == "S256")
    then (refused 400, w)
    else park_login now state (login_of ar now verifier nonce) w

-- What Google's redirect carries.
pub record Callback : Type 0 where
  pub state : String
  pub failed : Bool  -- an error parameter
  pub code : String

-- `exchange` is the identity provider's, `lower_rune` and `digest` are those of the allowlist.
pub record Outside : Type 0 where
  pub exchange : String → String → String → Result Identity
  pub lower_rune : ℕ → ℕ
  pub digest : Text → String
  pub allowed : List Text

module _ (o : Outside) where
  abbrev pub consent_of : Time → String → PendingLogin → Identity → ℕ → PendingConsent
  consent_of now csrf p who gen = record {
    ar = p.ar;
    session = new_session (user_id o.lower_rune o.digest who.email) who.name gen;
    csrf = csrf;
    created = now;
  }

  abbrev pub page_of : String → PendingConsent → String → ConsentPage
  page_of id c name = record {
    client_name = if name == "" then "(unnamed app)" else name;
    redirect_uri = c.ar.redirect_uri;
    consent_id = id;
    csrf = c.csrf;
    user = if c.session.username == "" then c.session.subject else c.session.username;
  }

  abbrev pub park_consent : Time → String → PendingConsent → String → World → Reply × World
  park_consent now id c name w =
      let (stored, s) = park now (λ s. record s { consents = replace id c s.consents }) w.server in
      (if stored then consent_page (page_of id c name) else refused 503, record w { server = s })

  -- The client's name is missing if it was evicted meanwhile; the generation is read in any other case.
  abbrev pub prepared :
      Time
      → String
      → String
      → PendingLogin
      → Identity
      → Result String
      → Result ℕ
      → World
      → Reply × World
  prepared now id csrf p who (ok name) (ok gen) w =
      park_consent now id (consent_of now csrf p who gen) name w
  prepared now id csrf p who (ok name) (err e) w = (refused 500, w)
  prepared now id csrf p who (err e) r w = (refused 500, w)

  abbrev pub is_missing : Result String → Bool
  is_missing (err not_found) = true
  is_missing (err e) = false
  is_missing (ok name) = false

  abbrev pub prepare_consent :
      Time → String → String → PendingLogin → Identity → World → Reply × World
  prepare_consent now id csrf p who w =
      let (name, s) = client_name p.ar.client_id w.auth in
      let (gen, s') = current_generation (user_id o.lower_rune o.digest who.email) s in
      if is_missing name
      then (refused 400, record w { auth = s })
      else prepared now id csrf p who name gen (record w { auth = s' })

  abbrev pub verdict_reply :
      Verdict → Time → String → String → PendingLogin → Identity → World → Reply × World
  verdict_reply admitted now id csrf p who w = prepare_consent now id csrf p who w
  verdict_reply v now id csrf p who w = (refused 403, w)

  abbrev pub exchanged :
      Result Identity → Time → String → String → PendingLogin → World → Reply × World
  exchanged (err e) now id csrf p w = (refused 403, w)
  exchanged (ok who) now id csrf p w =
      verdict_reply (check o.lower_rune o.allowed who.email who.email_verified) now id csrf p who w

  abbrev pub called_back :
      Option PendingLogin → Callback → Time → String → String → World → Reply × World
  called_back none c now id csrf w = (refused 400, w)
  called_back (some p) c now id csrf w =
      if is_expired now p.created
      then (refused 400, w)
      else if c.failed
      then (refused 403, w)
      else exchanged (o.exchange c.code p.pkce_verifier p.nonce) now id csrf p w

  -- handleGoogleCallback: `id` and `csrf` are the random texts of the consent.
  unfoldable pub handle_google_callback : Callback → Time → String → String → World → Reply × World
  unfolding park check
  handle_google_callback c now id csrf w =
      called_back (find c.state w.server.pending) c now id csrf
        (record w { server = forget_login c.state w.server })

-- The form of the consent page, with the cookie if there is one.
pub record ConsentForm : Type 0 where
  pub consent_id : String
  pub csrf : String
  pub approve : Bool
  pub cookie : Option String

abbrev pub constant_eq : String → String → Bool
constant_eq a b = not (a == "") && a == b

abbrev pub has_cookie : String → Option String → Bool
has_cookie csrf none = false
has_cookie csrf (some v) = constant_eq v csrf

-- `issue` grants the scopes asked for and is fosite's NewAuthorizeResponse, which writes the code to the database.
module _ (issue : AuthorizeRequest → AuthSession → Sql Auth (Unit {0})) where
  abbrev pub issued_reply : PendingConsent → Result (Unit {0}) → Reply
  issued_reply c (err e) = refused 500
  issued_reply c (ok x) = code_issued c.ar c.session

  abbrev pub checked : PendingConsent → Result (Unit {0}) → World → Reply × World
  checked c (err revoked) w = (refused 403, w)
  checked c (err e) w = (refused 500, w)
  checked c (ok x) w =
      let (r, s) = issue c.ar c.session w.auth in (issued_reply c r, record w { auth = s })

  abbrev pub consented : Option PendingConsent → ConsentForm → Time → World → Reply × World
  consented none f now w = (refused 403, w)
  consented (some c) f now w =
      if is_expired now c.created
        || not (constant_eq f.csrf c.csrf)
        || not (has_cookie c.csrf f.cookie)
      then (refused 403, w)
      else if not f.approve
      then (refused 403, w)
      else let (r, s) = check_session (some c.session) w.auth in checked c r (record w { auth = s })

  -- handleConsent: a consent is single use, whatever the outcome.
  unfoldable pub handle_consent : ConsentForm → Time → World → Reply × World
  handle_consent f now w =
      consented (find f.consent_id w.server.consents) f now
        (record w { server = forget_consent f.consent_id w.server })
