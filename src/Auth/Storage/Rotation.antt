-- ===== src/Auth/Storage/Rotation.antt =====
-- auth/storage.go, RotateRefreshToken: what a rotation leaves of the tokens of a request.
use ynab_auto_categorizer.Prelude.{
  String, Bool, true, false, not, ◌&&◌, ◌≡◌, refl, [], ◌∷◌, Result, ok, err, arith, ◌==◌, string_eq,
  all, keep, all-keep,
}
use ynab_auto_categorizer.Sql.{Session, run}
use ynab_auto_categorizer.Sql.Keeps.{
  Keeps, Keeps-pure, Keeps-raise, Keeps-exec, Keeps-if, Keeps-run, Keeps-bind, Keeps-write_tx,
}
use ynab_auto_categorizer.Sql.Preserves.{Preserves-run}
use ynab_auto_categorizer.Sql.Outcomes.{
  Establishes, Establishes-exec, Establishes-first, Establishes-last, Establishes-write_tx,
}
use ynab_auto_categorizer.Sql.Atomic.{Undone, IsAtomic-write_tx}
use ynab_auto_categorizer.Table.{Table, delete}
use ynab_auto_categorizer.Auth.Rows.{Auth, Grant, ClientRow, Kind, table, with_table}
use ynab_auto_categorizer.Auth.Storage.{
  Tx, retire, retire_rows, of_request, revoke_refresh_token, revoke_access_token, rotate_body,
  rotate_refresh_token, in_tx,
}

abbrev Grants : Type 0
Grants = Table String Grant

-- The rows of the other requests.
abbrev pub others : String → Table String Grant → Table String Grant
others request t = keep (λ x. not (of_request request x.0 x.1)) t

-- What a rotation may not touch.
abbrev pub untouched : String → Auth → Grants × Grants × Grants × Grants × Table String ClientRow
untouched request d =
    (others request d.refresh, others request d.access, d.codes, d.pkce, d.clients)

abbrev pub no_active_refresh : String → Auth → Bool
no_active_refresh request d = all (λ x. not (x.1.request_id == request && x.1.active)) d.refresh

abbrev pub no_access : String → Auth → Bool
no_access request d = all (λ x. not (x.1.request_id == request)) d.access

module _ (request : String) where
  -- An update that picks rows of the request only.
  others-retire_rows :
      (p : String → Grant → Bool) (t : Grants)
      → ((k : String) (g : Grant) → p k g ≡ true → (g.request_id == request) ≡ true)
      → others request (retire_rows p t) ≡ others request t
  others-retire_rows p [] h = refl
  others-retire_rows p ((k, g) ∷ t) h = ground (arith, others-retire_rows p t h, h k g)

  others-delete : (t : Grants) → others request (delete (of_request request) t) ≡ others request t
  unfolding delete
  others-delete [] = refl
  others-delete ((k, g) ∷ t) = ground (arith, others-delete t)

  ended-retire_rows :
      (t : Grants)
      → all
          (λ x. not (x.1.request_id == request && x.1.active))
          (retire_rows (of_request request) t)
        ≡ true
  ended-retire_rows [] = refl
  ended-retire_rows ((k, g) ∷ t) = ground (arith, ended-retire_rows t)

  untouched-retire :
      (p : String → Grant → Bool) (d : Auth)
      → ((k : String) (g : Grant) → p k g ≡ true → (g.request_id == request) ≡ true)
      → untouched request (retire Kind.refresh p d).1 ≡ untouched request d
  unfolding retire table with_table
  untouched-retire p d h = rw (others-retire_rows p d.refresh h) refl

  Keeps-untouched : (signature : String) → Keeps (untouched request) (rotate_body request signature)
  unfolding rotate_body revoke_refresh_token revoke_access_token table with_table
  Keeps-untouched signature =
      Keeps-bind _ _ _ (Keeps-exec _ _ (λ d. untouched-retire _ d (λ k g h. ground arith))) (λ n.
        Keeps-bind _ _ _ (Keeps-if _ _ _ _ (Keeps-raise _ _) (Keeps-pure _ _)) (λ _.
          Keeps-bind _ _ _ (Keeps-run _ _ (λ d. untouched-retire _ d (λ k g h. h)))
            (λ _. Keeps-run _ _ (λ d. rw (others-delete d.access) refl))))

  refresh_ended :
      (signature : String)
      → Establishes (λ d. no_active_refresh request d ≡ true) (rotate_body request signature)
  unfolding rotate_body revoke_refresh_token revoke_access_token run retire table with_table
  refresh_ended signature = Establishes-last _ _ _ (λ n. Establishes-last _ _ _ (λ _.
      Establishes-first _ _ _ (Establishes-exec _ _ (λ d. ended-retire_rows d.refresh))
        (λ _. Preserves-run _ _ (λ d h. h))))

  access_ended :
      (signature : String)
      → Establishes (λ d. no_access request d ≡ true) (rotate_body request signature)
  unfolding rotate_body revoke_access_token run table with_table delete
  access_ended signature = Establishes-last _ _ _ (λ n. Establishes-last _ _ _ (λ _.
      Establishes-last _ _ _ (λ _.
        Establishes-exec _ _ (λ d. all-keep (λ x. not (of_request request x.0 x.1)) d.access))))

-- What a rotation has done: the whole family of tokens is off and the other requests keep theirs, or
-- it has failed and nothing has changed.
abbrev pub Rotated : {A : Type 0} → String → Auth → Result A × Session Auth → Type 0
Rotated request old (ok u, s) =
    (no_active_refresh request s.db ≡ true)
    × (no_access request s.db ≡ true)
    × (untouched request s.db ≡ untouched request old)
Rotated request old (err e, s) = s.db ≡ old

-- RotateRefreshToken outside a caller's transaction, under any faults: if it succeeds, the request
-- has no active refresh token and no access token left, and the codes, the PKCE sessions, the
-- clients and the tokens of every other request are as before; if it fails, nothing has changed.
pub rotation_ends_family :
    (request signature : String) (σ : Session Auth)
    → Rotated request σ.db (rotate_refresh_token false request signature σ)
unfolding rotate_refresh_token in_tx
rotation_ends_family request signature σ =
    by_result (tx σ).0 (tx σ).1
      ((Establishes-write_tx _ _ _ (refresh_ended request signature)).sure σ)
      ((Establishes-write_tx _ _ _ (access_ended request signature)).sure σ)
      ((Keeps-write_tx _ _ _ (Keeps-untouched request signature)).kept σ)
      ((IsAtomic-write_tx _ _).undone σ)
  where
    tx : Tx
    tx = rotate_refresh_token false request signature

    by_result :
        (r : Result (Unit {0})) (s : Session Auth)
        → ((u : Unit {0}) → r ≡ ok u → no_active_refresh request s.db ≡ true)
        → ((u : Unit {0}) → r ≡ ok u → no_access request s.db ≡ true)
        → untouched request s.db ≡ untouched request σ.db
        → Undone σ.db (r, s)
        → Rotated request σ.db (r, s)
    by_result (ok u) s a b c d = (a u refl, b u refl, c)
    by_result (err e) s a b c d = d
