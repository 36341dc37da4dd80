-- ===== src/Auth/Steps/Counters.antt =====
-- auth/generations.go: no operation lowers a generation.
use ynab_auto_categorizer.Prelude.{
  ℕ, String, Bool, false, not, ◌≡◌, refl, ap, inl, inr, Option, none, some, List, [], ◌∷◌, Error,
  Result, ok, err, empty_id, not_public, ◌||◌, arith, Bool-cases, ◌==◌, string_eq,
}
use ynab_auto_categorizer.Sql.{Session, Sql, ◌>>=◌, pure, exec, raise, continue}
use ynab_auto_categorizer.Sql.Keeps.{
  Keeps, Keeps-pure, Keeps-raise, Keeps-exec, Keeps-exec_checked, Keeps-query, Keeps-if, Keeps-run,
  Keeps-bind, Keeps-write_tx,
}
use ynab_auto_categorizer.Table.{Table, find}
use ynab_auto_categorizer.Mirror.Rows.{Time}
use ynab_auto_categorizer.Auth.Rows.{
  Auth, AuthSession, Grant, Kind, TokenKind, with_table, table, ClientRow,
}
use ynab_auto_categorizer.Auth.Generations.{gen_of, bump_generation, stored}
use ynab_auto_categorizer.Auth.Generations.Laws.{Later, Later-refl, Later-trans, Later-bump}
use ynab_auto_categorizer.Auth.Storage.{
  Requester, create, create_for, insert_grant, delete_grant, invalidate_authorize_code, retire,
  revoke_refresh_token, revoke_access_token, rotate_body, rotate_refresh_token, in_tx, prune,
  prune_body, prune_table, all_kinds, none_affected, create_with,
}
use ynab_auto_categorizer.Auth.Clients.{
  NewClient, register_client, row_of, make_room, make_room_for, evict, enough, insert_client,
}
use ynab_auto_categorizer.Auth.Steps.{Op, Reach, perform, done}

abbrev gens : Auth → Table String ℕ
gens d = d.generations

gens-with_table :
    (kind : Kind) (t : Table String Grant) (d : Auth) → gens (with_table kind t d) ≡ gens d
unfolding with_table
gens-with_table Kind.codes t d = refl
gens-with_table Kind.access t d = refl
gens-with_table Kind.refresh t d = refl
gens-with_table Kind.pkce t d = refl

Keeps-none_affected : (e : Error) (n : ℕ) → Keeps gens (none_affected e n)
Keeps-none_affected e n = Keeps-if gens _ _ _ (Keeps-raise gens e) (Keeps-pure gens tt)

gens-insert_grant :
    (kind : Kind) (signature : String) (g : Grant) (d : Auth)
    → gens (insert_grant kind signature g d).1 ≡ gens d
unfolding insert_grant
gens-insert_grant kind signature g d =
    ground (arith, gens-with_table kind ((signature, g) ∷ table kind d) d)

Keeps-create_for :
    (kind : Kind) (token : TokenKind) (signature : String) (req : Requester) (sess : AuthSession)
    (client : Option String)
    → Keeps gens (create_for kind token signature req sess client)
unfolding create_for
Keeps-create_for kind token signature req sess none = Keeps-raise gens _
Keeps-create_for kind token signature req sess (some c) =
    Keeps-if gens _ _ _ (Keeps-raise gens _)
      (Keeps-exec_checked gens _ (gens-insert_grant kind signature _))

Keeps-create :
    (kind : Kind) (token : TokenKind) (signature : String) (req : Requester)
    → Keeps gens (create kind token signature req)
unfolding create
Keeps-create kind token signature req = by_session req.session
  where
    by_session : (o : Option AuthSession) → Keeps gens (create_with kind token signature req o)
    by_session none = Keeps-raise gens _
    by_session (some sess) = Keeps-create_for kind token signature req sess req.client

Keeps-in_tx :
    {A : Type 0} (nested : Bool) (fn : Sql Auth A) → Keeps gens fn → Keeps gens (in_tx nested fn)
unfolding in_tx
Keeps-in_tx nested fn h = Keeps-if gens nested _ _ h (Keeps-write_tx gens _ fn h)

gens-retire :
    (kind : Kind) (p : String → Grant → Bool) (d : Auth) → gens (retire kind p d).1 ≡ gens d
unfolding retire
gens-retire kind p d = gens-with_table kind _ d

Keeps-revoke_refresh : (request : String) → Keeps gens (revoke_refresh_token request)
unfolding revoke_refresh_token
Keeps-revoke_refresh request = Keeps-run gens _ (gens-retire Kind.refresh _)

Keeps-revoke_access : (request : String) → Keeps gens (revoke_access_token request)
unfolding revoke_access_token
Keeps-revoke_access request = Keeps-run gens _ (λ d. gens-with_table Kind.access _ d)

Keeps-rotate : (request signature : String) → Keeps gens (rotate_body request signature)
unfolding rotate_body
Keeps-rotate request signature =
    Keeps-bind gens _ _ (Keeps-exec gens _ (gens-retire Kind.refresh _)) (λ n.
      Keeps-bind gens _ _ (Keeps-none_affected _ n) (λ _.
        Keeps-bind gens _ _ (Keeps-revoke_refresh request) (λ _. Keeps-revoke_access request)))

gens-prune_table : (now : Time) (kind : Kind) (d : Auth) → gens (prune_table now kind d).1 ≡ gens d
unfolding prune_table
gens-prune_table now kind d = gens-with_table kind _ d

Keeps-prune : (now : Time) (ks : List Kind) → Keeps gens (prune_body now ks)
unfolding prune_body
Keeps-prune now [] = Keeps-pure gens _
Keeps-prune now (k ∷ ks) =
    Keeps-bind gens _ _ (Keeps-exec gens _ (gens-prune_table now k))
      (λ n. Keeps-bind gens _ _ (Keeps-prune now ks) (λ total. Keeps-pure gens _))

gens-evict : (now : Time) (excess : ℕ) (d : Auth) → gens (evict now excess d).1 ≡ gens d
unfolding evict
gens-evict now excess d = refl

Keeps-make_room : (now : Time) → Keeps gens (make_room now)
unfolding make_room make_room_for enough
Keeps-make_room now = Keeps-bind gens _ _ (Keeps-query gens _) (λ count.
    Keeps-if gens _ _ _ (Keeps-pure gens _) (
      Keeps-bind gens _ _ (Keeps-exec gens _ (gens-evict now _))
        (λ n. Keeps-if gens _ _ _ (Keeps-raise gens _) (Keeps-pure gens _))))

gens-insert_client : (i : String) (c : ClientRow) (d : Auth) → gens (insert_client i c d).1 ≡ gens d
unfolding insert_client
gens-insert_client i c d = ground arith

Keeps-register :
    (now : Time) (c : NewClient) (name : String) → Keeps gens (register_client false now c name)
unfolding register_client
Keeps-register now c name = Keeps-if gens (c.id == "") _ _ (Keeps-raise gens empty_id) (
    Keeps-if gens (not c.is_public || c.has_secret) _ _ (Keeps-raise gens not_public) (
      Keeps-in_tx false _ (
        Keeps-bind gens _ _ (Keeps-make_room now)
          (λ _. Keeps-exec_checked gens _ (gens-insert_client c.id (row_of c name now))))))

Later-of-kept :
    {A : Type 0} (m : Sql Auth A) (σ : Session Auth) → Keeps gens m → Later σ.db (m σ).1.db
unfolding gen_of
Later-of-kept m σ h = record { grown = λ u. omega (arith, ap (λ t. stored (find u t)) (h.kept σ)) }

Later-bump_generation :
    (user : String) (σ : Session Auth) → Later σ.db (bump_generation user σ).1.db
unfolding bump_generation raise exec
Later-bump_generation user σ = elim (Bool-cases (user == "")) [
  | inl nobody ↦ rw nobody (Later-refl σ.db)
  | inr named ↦ elim (Bool-cases (σ.fault σ.stmt)) [
    | inl bad ↦ rw (named, bad) (Later-refl σ.db)
    | inr good ↦ rw (named, good) (Later-bump user σ.db)
  ]
]

Later-then_done :
    {A : Type 0} (m : Sql Auth A) (σ : Session Auth)
    → Later σ.db (m σ).1.db
    → Later σ.db ((m >>= done) σ).1.db
unfolding ◌>>=◌ pure
Later-then_done {A} m σ h = go (m σ).0 (m σ).1 h
  where
    go : (r : Result A) (s : Session Auth) → Later σ.db s.db → Later σ.db (continue r done s).1.db
    go (ok a) s k = k
    go (err e) s k = k

-- No operation lowers a generation.
Later-perform : (op : Op) (σ : Session Auth) → Later σ.db (perform op σ).1.db
unfolding perform delete_grant invalidate_authorize_code rotate_refresh_token prune
Later-perform (Op.create_session kind token signature req) σ =
    Later-of-kept _ σ (Keeps-create kind token signature req)
Later-perform (Op.delete_session kind signature) σ =
    Later-of-kept _ σ (Keeps-run gens _ (λ d. gens-with_table kind _ d))
Later-perform (Op.invalidate_code signature) σ =
    Later-of-kept _ σ
      (Keeps-bind gens _ _ (Keeps-exec gens _ (gens-retire Kind.codes _)) (Keeps-none_affected _))
Later-perform (Op.revoke_refresh request) σ = Later-of-kept _ σ (Keeps-revoke_refresh request)
Later-perform (Op.revoke_access request) σ = Later-of-kept _ σ (Keeps-revoke_access request)
Later-perform (Op.rotate request signature) σ =
    Later-of-kept _ σ (Keeps-in_tx false _ (Keeps-rotate request signature))
Later-perform (Op.prune_expired now) σ =
    Later-then_done _ σ (Later-of-kept _ σ (Keeps-in_tx false _ (Keeps-prune now all_kinds)))
Later-perform (Op.register now c name) σ = Later-of-kept _ σ (Keeps-register now c name)
Later-perform (Op.bump_user user) σ = Later-then_done _ σ (Later-bump_generation user σ)

pub Later-Reach : {p : Op → Bool} {d d' : Auth} → Reach p d d' → Later d d'
Later-Reach {p} {d} Reach.here = Later-refl d
Later-Reach (Reach.step op σ h r) = Later-trans (Later-Reach r) (Later-perform op σ)
