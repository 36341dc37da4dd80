-- ===== src/Auth/Signin/Safe.antt =====
-- auth/server.go: every handler keeps what holds of the parked sign-ins.
use ynab_auto_categorizer.Prelude.{
  ℕ, ◌+◌, String, true, false, not, ◌||◌, ◌≡◌, refl, Option, none, some, length, length-keep, leb,
  ◌==◌, string_eq, arith, if_intro, Bool-cases, inl, inr, Result, ok, err, ◌⊎◌, ◌<◌,
}
use ynab_auto_categorizer.Table.{find, replace, delete}
use ynab_auto_categorizer.Mirror.Rows.{Time}
use ynab_auto_categorizer.Auth.Generations.{current_generation}
use ynab_auto_categorizer.Auth.Clients.{client_name}
use ynab_auto_categorizer.Auth.Allowlist.{
  Verdict, admitted, email_unverified, not_allowlisted, check, user_id,
}
use ynab_auto_categorizer.Auth.Parked.{
  AuthorizeRequest, PendingLogin, PendingConsent, Server, Identity, max_pending, is_expired,
  drop_expired, park, forget_login, forget_consent,
}
use ynab_auto_categorizer.Auth.Signin.{
  Reply, World, Outside, handle_authorize, login_of, Callback, handle_google_callback, called_back,
  exchanged, verdict_reply, prepared, is_missing, park_consent, consent_of,
}
use ynab_auto_categorizer.Auth.Signin.Steps.{
  Every-keep, Every-replace, Every-find, length-replace, IsComplete, with_mcp_scope_lem, IsSound,
  IsSafe, IsSafe-drop_expired,
}

module _ (o : Outside) where
  IsSafe-park :
      (now : Time) (store : Server → Server) (s : Server)
      → IsSafe o s
      → ((t : Server)
          → IsSafe o t
          → length t.pending + length t.consents < max_pending
          → IsSafe o (store t))
      → IsSafe o (park now store s).1
  unfolding park
  IsSafe-park now store s h k =
      let t = drop_expired now s in
      by_room (Bool-cases (leb max_pending (length t.pending + length t.consents)))
    where
      by_room :
          (leb max_pending
                (length (drop_expired now s).pending + length (drop_expired now s).consents)
              ≡ true)
            ⊎ (leb max_pending
                  (length (drop_expired now s).pending + length (drop_expired now s).consents)
                ≡ false)
          → IsSafe o (park now store s).1
      by_room (inl full) = rw full (IsSafe-drop_expired o now s h)
      by_room (inr room) =
          rw room (k (drop_expired now s) (IsSafe-drop_expired o now s h) (ground arith))

  pub IsSafe-handle_authorize :
      (parsed : Option AuthorizeRequest) (now : Time) (state verifier nonce : String) (w : World)
      → IsSafe o w.server
      → IsSafe o (handle_authorize parsed now state verifier nonce w).1.server
  unfolding handle_authorize
  IsSafe-handle_authorize none now state verifier nonce w h = h
  IsSafe-handle_authorize (some ar) now state verifier nonce w h =
      if_intro (λ (x : Reply × World). IsSafe o x.1.server)
        (ar.code_challenge == "" || not (ar.code_challenge_method == "S256")) (λ bad. h)
        (λ good.
          let p = login_of ar now verifier nonce in
          let complete : IsComplete p.ar = record {
            challenge = ground arith;
            method = ground arith;
            scope = with_mcp_scope_lem ar.scopes;
          } in
          IsSafe-park now (λ t. record t { pending = replace state p t.pending }) w.server h
            (λ t safe room. record {
              logins =
                  Every-replace (λ (p : PendingLogin). IsComplete p.ar) state p t.pending complete
                    safe.logins;
              consents = safe.consents;
              few = omega (arith, room, length-replace state p t.pending);
            }))

  IsSafe-forget_login : (state : String) (s : Server) → IsSafe o s → IsSafe o (forget_login state s)
  unfolding delete
  IsSafe-forget_login state s h = record {
    logins = Every-keep (λ (p : PendingLogin). IsComplete p.ar) _ s.pending h.logins;
    consents = h.consents;
    few =
        omega
          (arith, h.few, length-keep (λ (x : String × PendingLogin). not (x.0 == state)) s.pending);
  }

  pub IsSafe-forget_consent :
      (id : String) (s : Server) → IsSafe o s → IsSafe o (forget_consent id s)
  unfolding delete
  IsSafe-forget_consent id s h = record {
    logins = h.logins;
    consents = Every-keep (IsSound o) _ s.consents h.consents;
    few =
        omega
          (arith, h.few, length-keep (λ (x : String × PendingConsent). not (x.0 == id)) s.consents);
  }

  -- Parking a consent for an admitted identity.
  IsSafe-park_consent :
      (now : Time) (id : String) (c : PendingConsent) (name : String) (w : World)
      → IsSound o c
      → IsSafe o w.server
      → IsSafe o (park_consent o now id c name w).1.server
  IsSafe-park_consent now id c name w sound h = IsSafe-park now _ w.server h (λ t safe room.
      record {
        logins = safe.logins;
        consents = Every-replace (IsSound o) id c t.consents sound safe.consents;
        few = omega (arith, room, length-replace id c t.consents);
      })

  IsSafe-prepared :
      (now : Time) (id csrf : String) (p : PendingLogin) (who : Identity) (name : Result String)
      (gen : Result ℕ) (w : World)
      → IsComplete p.ar
      → check o.lower_rune o.allowed who.email who.email_verified ≡ admitted
      → IsSafe o w.server
      → IsSafe o (prepared o now id csrf p who name gen w).1.server
  IsSafe-prepared now id csrf p who (ok name) (ok gen) w complete v h =
      IsSafe-park_consent now id (consent_of o now csrf p who gen) name w
        (record {
          complete = complete;
          admitted_by = record { who = who; verdict = v; subject = refl };
        })
        h
  IsSafe-prepared now id csrf p who (ok name) (err e) w complete v h = h
  IsSafe-prepared now id csrf p who (err e) gen w complete v h = h

  IsSafe-verdict_reply :
      (v : Verdict) (now : Time) (id csrf : String) (p : PendingLogin) (who : Identity) (w : World)
      → check o.lower_rune o.allowed who.email who.email_verified ≡ v
      → IsComplete p.ar
      → IsSafe o w.server
      → IsSafe o (verdict_reply o v now id csrf p who w).1.server
  IsSafe-verdict_reply admitted now id csrf p who w v complete h =
      if_intro (λ (x : Reply × World). IsSafe o x.1.server)
        (is_missing o (client_name p.ar.client_id w.auth).0) (λ gone. h)
        (λ there.
          IsSafe-prepared now id csrf p who (client_name p.ar.client_id w.auth).0
            (current_generation (user_id o.lower_rune o.digest who.email)
              (client_name p.ar.client_id w.auth).1).0
            (record w {
              auth =
                  (current_generation (user_id o.lower_rune o.digest who.email)
                    (client_name p.ar.client_id w.auth).1).1;
            })
            complete v h)
  IsSafe-verdict_reply email_unverified now id csrf p who w v complete h = h
  IsSafe-verdict_reply not_allowlisted now id csrf p who w v complete h = h

  IsSafe-exchanged :
      (r : Result Identity) (now : Time) (id csrf : String) (p : PendingLogin) (w : World)
      → IsComplete p.ar
      → IsSafe o w.server
      → IsSafe o (exchanged o r now id csrf p w).1.server
  IsSafe-exchanged (err e) now id csrf p w complete h = h
  IsSafe-exchanged (ok who) now id csrf p w complete h =
      IsSafe-verdict_reply (check o.lower_rune o.allowed who.email who.email_verified) now id csrf p
        who w refl complete h

  IsSafe-called_back :
      (l : Option PendingLogin) (c : Callback) (now : Time) (id csrf : String) (w : World)
      → ((p : PendingLogin) → l ≡ some p → IsComplete p.ar)
      → IsSafe o w.server
      → IsSafe o (called_back o l c now id csrf w).1.server
  IsSafe-called_back none c now id csrf w complete h = h
  IsSafe-called_back (some p) c now id csrf w complete h =
      if_intro (λ (x : Reply × World). IsSafe o x.1.server) (is_expired now p.created) (λ old. h)
        (λ new.
          if_intro (λ (x : Reply × World). IsSafe o x.1.server) c.failed (λ bad. h)
            (λ good.
              IsSafe-exchanged (o.exchange c.code p.pkce_verifier p.nonce) now id csrf p w
                (complete p refl) h))

  pub IsSafe-handle_google_callback :
      (c : Callback) (now : Time) (id csrf : String) (w : World)
      → IsSafe o w.server
      → IsSafe o (handle_google_callback o c now id csrf w).1.server
  unfolding handle_google_callback
  IsSafe-handle_google_callback c now id csrf w h =
      IsSafe-called_back (find c.state w.server.pending) c now id csrf
        (record w { server = forget_login c.state w.server })
        (λ p e.
          Every-find (λ (p : PendingLogin). IsComplete p.ar) c.state w.server.pending p h.logins e)
        (IsSafe-forget_login c.state w.server h)
