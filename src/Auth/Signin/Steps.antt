-- ===== src/Auth/Signin/Steps.antt =====
-- auth/server.go: the servers that sign-ins reach, and what holds of whatever they have parked.
use mathlib.Core.Path.{subst}
use ynab_auto_categorizer.Prelude.{
  suc, ◌+◌, ◌≤◌, String, Bool, true, false, not, ◌≡◌, refl, Option, some, List, [], ◌∷◌, ◌++◌, keep,
  length, length-keep, contains, ◌==◌, string_eq, arith, if_intro, Bool-cases, inl, inr,
}
use ynab_auto_categorizer.Table.{Table, find, replace, merge}
use ynab_auto_categorizer.Mirror.Rows.{Time}
use ynab_auto_categorizer.Auth.Rows.{AuthSession}
use ynab_auto_categorizer.Auth.Allowlist.{admitted, check, user_id}
use ynab_auto_categorizer.Auth.Parked.{
  AuthorizeRequest, PendingLogin, PendingConsent, Server, Identity, max_pending, is_expired,
  drop_expired,
}
use ynab_auto_categorizer.Auth.Signin.{scope_mcp, with_mcp_scope, Outside, Callback, ConsentForm}

pub data Call : Type 0 where
  authorize : Option AuthorizeRequest → Time → String → String → String → Call
  callback : Callback → Time → String → String → Call
  consent : ConsentForm → Time → Call

abbrev pub empty_server : Server
empty_server = record { pending = []; consents = [] }

-- A predicate of every row.
abbrev pub Every : {R : Type 0} → (R → Type 0) → Table String R → Type 0
Every P [] = Unit {0}
Every P ((k, r) ∷ t) = P r × Every P t

module _ {R : Type 0} (P : R → Type 0) where
  pub Every-keep : (q : String × R → Bool) (t : Table String R) → Every P t → Every P (keep q t)
  Every-keep q [] h = tt
  Every-keep q ((k, r) ∷ t) h =
      if_intro (Every P) (q (k, r)) (λ e. (h.0, Every-keep q t h.1)) (λ e. Every-keep q t h.1)

  pub Every-replace :
      (k : String) (r : R) (t : Table String R) → P r → Every P t → Every P (replace k r t)
  unfolding replace merge
  Every-replace k r [] p h = (p, tt)
  Every-replace k r ((j, s) ∷ t) p h =
      if_intro (Every P) (j == k) (λ e. (p, h.1)) (λ e. (h.0, Every-replace k r t p h.1))

  pub Every-find : (k : String) (t : Table String R) (r : R) → Every P t → find k t ≡ some r → P r
  unfolding find
  Every-find k [] r h e = absurd (ground arith)
  Every-find k ((j, s) ∷ t) r h e = elim (Bool-cases (j == k)) [
    | inl same ↦ let own : s ≡ r = ground arith in subst P own h.0
    | inr other ↦ Every-find k t r h.1 (ground arith)
  ]

pub length-replace :
    {R : Type 0} (k : String) (r : R) (t : Table String R) → length (replace k r t) ≤ suc (length t)
unfolding replace merge
length-replace k r [] = omega arith
length-replace k r ((j, s) ∷ t) = ground (arith, length-replace k r t)

-- PKCE with S256 is there, and the mcp scope.
pub record IsComplete (ar : AuthorizeRequest) : Type 0 where
  pub challenge : (ar.code_challenge == "") ≡ false
  pub method : (ar.code_challenge_method == "S256") ≡ true
  pub scope : contains scope_mcp ar.scopes ≡ true

contains-append :
    (x : String) (xs ys : List String) → contains x ys ≡ true → contains x (xs ++ ys) ≡ true
contains-append x [] ys h = h
contains-append x (y ∷ xs) ys h = ground (arith, contains-append x xs ys h)

pub with_mcp_scope_lem : (scopes : List String) → contains scope_mcp (with_mcp_scope scopes) ≡ true
unfolding with_mcp_scope
with_mcp_scope_lem scopes = elim (Bool-cases (contains scope_mcp scopes)) [
  | inl there ↦ rw there there
  | inr missing ↦ rw missing (contains-append scope_mcp scopes (scope_mcp ∷ []) refl)
]

module _ (o : Outside) where
  -- Signed in by an identity that the allowlist admits.
  pub record IsAdmitted (session : AuthSession) : Type 0 where
    pub who : Identity
    pub verdict : check o.lower_rune o.allowed who.email who.email_verified ≡ admitted
    pub subject : session.subject ≡ user_id o.lower_rune o.digest who.email

  pub record IsSound (c : PendingConsent) : Type 0 where
    pub complete : IsComplete c.ar
    pub admitted_by : IsAdmitted c.session

  pub record IsSafe (s : Server) : Type 0 where
    pub logins : Every (λ (p : PendingLogin). IsComplete p.ar) s.pending
    pub consents : Every IsSound s.consents
    pub few : length s.pending + length s.consents ≤ max_pending

  pub IsSafe-drop_expired : (now : Time) (s : Server) → IsSafe s → IsSafe (drop_expired now s)
  unfolding drop_expired
  IsSafe-drop_expired now s h = record {
    logins = Every-keep (λ (p : PendingLogin). IsComplete p.ar) _ s.pending h.logins;
    consents = Every-keep IsSound _ s.consents h.consents;
    few = omega (
      arith,
      h.few,
      length-keep (λ (x : String × PendingLogin). not (is_expired now x.1.created)) s.pending,
      length-keep (λ (x : String × PendingConsent). not (is_expired now x.1.created)) s.consents,
    );
  }
