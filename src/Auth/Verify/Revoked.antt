-- ===== src/Auth/Verify/Revoked.antt =====
-- auth/server.go: a revoked session opens nothing: not the MCP endpoint, and no new tokens.
use mathlib.Core.Path.{subst}
use ynab_auto_categorizer.Prelude.{
  ℕ, ℤ, String, Bool, true, false, ◌≡◌, refl, sym, ◌⊎◌, Option, some, Result, ok, err, revoked,
  invalid_token, invalid_grant, arith,
}
use ynab_auto_categorizer.Sql.{Session, Sql}
use ynab_auto_categorizer.Sql.Outcomes.{Refused}
use ynab_auto_categorizer.Auth.Rows.{Auth, AuthSession}
use ynab_auto_categorizer.Auth.Generations.{
  all_users, generation, bump_generation, issued, is_current, check_session,
}
use ynab_auto_categorizer.Auth.Generations.Laws.{generation-Later, is_current_stale}
use ynab_auto_categorizer.Auth.Steps.Counters.{Later-Reach}
use ynab_auto_categorizer.Auth.Steps.Revoked.{check_stale, bumped_above}
use ynab_auto_categorizer.Auth.Steps.{Reach, any_op}
use ynab_auto_categorizer.Auth.Verify.{
  Introspected, live_info, of_use, introspected, verify_token, unless_revoked, requested,
  handle_token,
}

module _ (user : String) (sess : AuthSession) (v : ℤ) (n : ℕ) (before : Auth)
    (σ : Session Auth) where
  -- The session carried the generation that was current once, and then a revocation of its subject or
  -- of all users succeeded.
  pub record WasRevoked : Type 0 where
    pub says : issued sess.gen ≡ some v
    pub was : is_current v (generation sess.subject before) ≡ true
    pub meanwhile : Reach any_op before σ.db
    pub target : (user ≡ sess.subject) ⊎ (user ≡ all_users)
    pub bumped : (bump_generation user σ).0 ≡ ok n

  -- In any database that the storage's operations reach later.
  Refused-check_session :
      WasRevoked
      → (t : Session Auth) → Reach any_op (bump_generation user σ).1.db t.db
      → Refused revoked (check_session (some sess) t).0
  Refused-check_session h t r = check_stale sess v t h.says (
      is_current_stale v (generation sess.subject before) (generation sess.subject t.db) h.was (
        omega (
          arith,
          generation-Later sess.subject (Later-Reach h.meanwhile),
          bumped_above user sess.subject n σ h.target h.bumped,
          generation-Later sess.subject (Later-Reach r),
        )))

  not_live :
      (r : Introspected) (q : Result (Unit {0}) × Session Auth)
      → Refused revoked q.0
      → (live_info r q).0 ≡ err invalid_token
  not_live r (err e, t) h = refl
  not_live r (ok u, t) h = absurd (ground arith)

  no_grant :
      {R T : Type 0} (respond : R → Sql Auth T) (r : R) (q : Result (Unit {0}) × Session Auth)
      → Refused revoked q.0
      → (unless_revoked respond r q).0 ≡ err invalid_grant
  no_grant respond r (err e, t) h = refl
  no_grant respond r (ok u, t) h = absurd (ground arith)

  -- After a revocation of a session, and any operations of the storage, those of fosite included: if
  -- fosite finds that session behind a bearer token, VerifyToken refuses the token, and if it finds it
  -- behind a request for tokens, the token endpoint answers invalid_grant, whatever statements fail.
  pub revoked_everywhere :
      {R T : Type 0} (introspect : String → Sql Auth Introspected) (token : String)
      (found : Introspected) (respond : R → Sql Auth T) (parse : Sql Auth (Option AuthSession × R))
      (r : R) (s t : Session Auth)
      → WasRevoked
      → (introspect token s).0 ≡ ok found
      → found.session ≡ some sess
      → Reach any_op (bump_generation user σ).1.db (introspect token s).1.db
      → (parse t).0 ≡ ok (some sess, r)
      → Reach any_op (bump_generation user σ).1.db (parse t).1.db
      → ((verify_token introspect token s).0 ≡ err invalid_token)
        × ((handle_token respond parse t).0 ≡ err invalid_grant)
  unfolding verify_token handle_token
  revoked_everywhere {R} introspect token found respond parse r s t h finds own later parsed
        later' =
      (by_find (introspect token s).0 finds, by_parse (parse t).0 parsed)
    where
      s' : Session Auth
      s' = (introspect token s).1

      by_use : (b : Bool) → (of_use b found s').0 ≡ err invalid_token
      by_use false = refl
      by_use true = not_live found (check_session found.session s') (
          subst (λ o. Refused revoked (check_session o s').0) (sym own)
            (Refused-check_session h s' later))

      by_find :
          (q : Result Introspected) → q ≡ ok found → (introspected (q, s')).0 ≡ err invalid_token
      by_find q e =
          subst (λ q. (introspected (q, s')).0 ≡ err invalid_token) (sym e) (by_use found.is_access)

      by_parse :
          (q : Result (Option AuthSession × R))
          → q ≡ ok (some sess, r)
          → (requested respond (q, (parse t).1)).0 ≡ err invalid_grant
      by_parse q e =
          subst (λ q. (requested respond (q, (parse t).1)).0 ≡ err invalid_grant) (sym e)
            (no_grant respond r (check_session (some sess) (parse t).1)
              (Refused-check_session h (parse t).1 later'))
