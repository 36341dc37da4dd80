-- ===== src/Auth/Signin/Issued.antt =====
-- auth/server.go: in any server that calls reach, few sign-ins are parked, and a code is issued only to
-- an admitted user who approved it.
use mathlib.Core.Path.{subst}
use ynab_auto_categorizer.Prelude.{
  ◌+◌, ◌≤◌, String, Bool, true, false, not, ◌||◌, ◌≡◌, refl, Option, none, some, [], ◌∷◌, length,
  ◌==◌, string_eq, arith, if◌then◌else◌, if_intro, Result, ok, err, revoked,
}
use ynab_auto_categorizer.Sql.{Session, Sql}
use ynab_auto_categorizer.Table.{Table, find, delete}
use ynab_auto_categorizer.Mirror.Rows.{Time}
use ynab_auto_categorizer.Auth.Rows.{Auth, AuthSession}
use ynab_auto_categorizer.Auth.Generations.{check_session}
use ynab_auto_categorizer.Auth.Parked.{
  AuthorizeRequest, PendingConsent, max_pending, is_expired, forget_consent,
}
use ynab_auto_categorizer.Auth.Signin.{
  Reply, refused, code_issued, World, Outside, handle_authorize, handle_google_callback,
  ConsentForm, constant_eq, has_cookie, handle_consent, consented, checked, issued_reply,
}
use ynab_auto_categorizer.Auth.Signin.Steps.{
  Call, authorize, callback, consent, empty_server, Every-find, IsComplete, IsAdmitted, IsSound,
  IsSafe,
}
use ynab_auto_categorizer.Auth.Signin.Safe.{
  IsSafe-handle_authorize, IsSafe-handle_google_callback, IsSafe-forget_consent,
}

module _ (o : Outside) (issue : AuthorizeRequest → AuthSession → Sql Auth (Unit {0})) where
  unfoldable pub serve : Call → World → Reply × World
  unfolding handle_authorize handle_google_callback handle_consent
  serve (authorize parsed now state verifier nonce) w =
      handle_authorize parsed now state verifier nonce w
  serve (callback c now id csrf) w = handle_google_callback o c now id csrf w
  serve (consent f now) w = handle_consent issue f now w

  -- The worlds that a new server reaches, while others write to its database at will.
  pub data Reached : World → Type 0 where
    start : (s : Session Auth) → Reached (record { server = empty_server; auth = s })
    served : {w : World} (c : Call) → Reached w → Reached (serve c w).1
    elsewhere : {w : World} (s : Session Auth) → Reached w → Reached (record w { auth = s })

  server-checked :
      (c : PendingConsent) (r : Result (Unit {0})) (w : World)
      → (checked issue c r w).1.server ≡ w.server
  server-checked c (ok x) w = refl
  server-checked c (err revoked) w = refl
  server-checked c (err e) w = refl

  IsSafe-handle_consent :
      (f : ConsentForm) (now : Time) (w : World)
      → IsSafe o w.server
      → IsSafe o (handle_consent issue f now w).1.server
  unfolding handle_consent
  IsSafe-handle_consent f now w h = by_consent (find f.consent_id w.server.consents)
    where
      safe : IsSafe o (forget_consent f.consent_id w.server)
      safe = IsSafe-forget_consent o f.consent_id w.server h

      by_consent :
          (c : Option PendingConsent)
          → IsSafe o
              (consented issue c f now
                (record w { server = forget_consent f.consent_id w.server })).1.server
      by_consent none = safe
      by_consent (some c) =
          if_intro (λ (x : Reply × World). IsSafe o x.1.server)
            (is_expired now c.created
              || not (constant_eq f.csrf c.csrf)
              || not (has_cookie c.csrf f.cookie))
            (λ bad. safe)
            (λ good.
              if_intro (λ (x : Reply × World). IsSafe o x.1.server) (not f.approve) (λ no. safe)
                (λ yes. rw (server-checked c (check_session (some c.session) w.auth).0 _) safe))

  IsSafe-Reached : {w : World} → Reached w → IsSafe o w.server
  unfolding serve
  IsSafe-Reached (start s) = record { logins = tt; consents = tt; few = omega arith }
  IsSafe-Reached (served {w} (authorize parsed now state verifier nonce) r) =
      IsSafe-handle_authorize o parsed now state verifier nonce w (IsSafe-Reached r)
  IsSafe-Reached (served {w} (callback c now id csrf) r) =
      IsSafe-handle_google_callback o c now id csrf w (IsSafe-Reached r)
  IsSafe-Reached (served {w} (consent f now) r) = IsSafe-handle_consent f now w (IsSafe-Reached r)
  IsSafe-Reached (elsewhere s r) = IsSafe-Reached r

  -- In any server that calls reach, with any calls and any other writers of the database: at most
  -- MaxPending logins and consents are parked together.
  pub parked_few :
      {w : World} → Reached w → length w.server.pending + length w.server.consents ≤ max_pending
  parked_few r = (IsSafe-Reached r).few

  -- Why a code was issued, and that its consent is gone.
  pub record IsProper (f : ConsentForm) (now : Time) (w : World) (ar : AuthorizeRequest)
      (session : AuthSession) : Type 0 where
    pub parked : PendingConsent
    pub there : find f.consent_id w.server.consents ≡ some parked
    pub own_request : parked.ar ≡ ar
    pub own_session : parked.session ≡ session
    pub fresh : is_expired now parked.created ≡ false
    pub approved : f.approve ≡ true
    pub form : constant_eq f.csrf parked.csrf ≡ true
    pub cookie : has_cookie parked.csrf f.cookie ≡ true
    pub complete : IsComplete ar
    pub admitted_by : IsAdmitted o session
    pub current : (check_session (some session) w.auth).0 ≡ ok tt
    pub used : find f.consent_id (handle_consent issue f now w).1.server.consents ≡ none

  find-forget :
      (id : String) (t : Table String PendingConsent) → find id (delete (λ k c. k == id) t) ≡ none
  unfolding find delete
  find-forget id [] = refl
  find-forget id ((k, c) ∷ t) = ground (arith, find-forget id t)

  forgotten :
      (f : ConsentForm) (now : Time) (w : World)
      → find f.consent_id (handle_consent issue f now w).1.server.consents ≡ none
  unfolding handle_consent
  forgotten f now w = by_consent (find f.consent_id w.server.consents)
    where
      w' : World
      w' = record w { server = forget_consent f.consent_id w.server }

      gone : find f.consent_id w'.server.consents ≡ none
      gone = find-forget f.consent_id w.server.consents

      by_consent :
          (c : Option PendingConsent)
          → find f.consent_id (consented issue c f now w').1.server.consents ≡ none
      by_consent none = gone
      by_consent (some c) =
          if_intro (λ (x : Reply × World). find f.consent_id x.1.server.consents ≡ none)
            (is_expired now c.created
              || not (constant_eq f.csrf c.csrf)
              || not (has_cookie c.csrf f.cookie))
            (λ bad. gone)
            (λ good.
              if_intro (λ (x : Reply × World). find f.consent_id x.1.server.consents ≡ none)
                (not f.approve) (λ no. gone)
                (λ yes. rw (server-checked c (check_session (some c.session) w.auth).0 _) gone))

  -- In any server that calls reach: a code is issued only for a parked consent that has not expired,
  -- whose form approves it with the CSRF text of the form and of the cookie; its request has an S256
  -- challenge and the mcp scope; its user was admitted by the allowlist under a verified email and has
  -- not been revoked since; and the consent cannot be used again.
  pub code_issued_lem :
      {w : World} (f : ConsentForm) (now : Time) (ar : AuthorizeRequest) (session : AuthSession)
      → Reached w
      → (handle_consent issue f now w).0 ≡ code_issued ar session
      → IsProper f now w ar session
  unfolding handle_consent
  code_issued_lem {w} f now ar session r e = by_consent (find f.consent_id w.server.consents) refl e
    where
      w' : World
      w' = record w { server = forget_consent f.consent_id w.server }

      by_issue :
          (c : PendingConsent) (q : Result (Unit {0}))
          → issued_reply issue c q ≡ code_issued ar session
          → (◌≡◌ {A = Result (Unit {0})} (ok tt) (ok tt)) × (c.ar ≡ ar) × (c.session ≡ session)
      by_issue c (ok x) h = (refl, cc, cc)
      by_issue c (err x) h = absurd (ground arith)

      by_tests :
          (b a : Bool) (x : Reply × World)
          → (if b then (refused 403, w') else if not a then (refused 403, w') else x).0
            ≡ code_issued ar session
          → (b ≡ false) × (a ≡ true) × (x.0 ≡ code_issued ar session)
      by_tests true a x h = absurd (ground arith)
      by_tests false false x h = absurd (ground arith)
      by_tests false true x h = (refl, refl, h)

      by_check :
          (c : PendingConsent) (q : Result (Unit {0})) (v : World)
          → (checked issue c q v).0 ≡ code_issued ar session
          → (q ≡ ok tt) × (c.ar ≡ ar) × (c.session ≡ session)
      by_check c (ok tt) v h = by_issue c (issue c.ar c.session v.auth).0 h
      by_check c (err revoked) v h = absurd (ground arith)
      by_check c (err x) v h = absurd (ground arith)

      by_consent :
          (c : Option PendingConsent)
          → find f.consent_id w.server.consents ≡ c
          → (consented issue c f now w').0 ≡ code_issued ar session
          → IsProper f now w ar session
      by_consent none there h = absurd (ground arith)
      by_consent (some c) there h =
          let tests =
            by_tests
              (is_expired now c.created
                || not (constant_eq f.csrf c.csrf)
                || not (has_cookie c.csrf f.cookie))
              f.approve _ h in
          let good = tests.0 in
          let result = by_check c (check_session (some c.session) w.auth).0 _ tests.2 in
          let sound =
            Every-find (IsSound o) f.consent_id w.server.consents c (IsSafe-Reached r).consents
              there in
          record {
            parked = c;
            there = there;
            own_request = result.1;
            own_session = result.2;
            fresh = ground (arith, good);
            approved = tests.1;
            form = ground (arith, good);
            cookie = ground (arith, good);
            complete = subst IsComplete result.1 sound.complete;
            admitted_by = subst (IsAdmitted o) result.2 sound.admitted_by;
            current = subst (λ s. (check_session (some s) w.auth).0 ≡ ok tt) result.2 result.0;
            used = forgotten f now w;
          }
