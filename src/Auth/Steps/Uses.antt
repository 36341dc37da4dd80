-- ===== src/Auth/Steps/Uses.antt =====
-- auth/: no operation makes a used code or token usable again.
use ynab_auto_categorizer.Prelude.{
  ℕ, String, Bool, true, false, not, ◌&&◌, ◌≡◌, refl, inl, inr, Option, none, some, List, [], ◌∷◌,
  Error, Bool-cases, ◌==◌, string_eq, is_some,
}
use ynab_auto_categorizer.Sql.{Sql, exec_checked}
use ynab_auto_categorizer.Sql.Preserves.{
  Preserves, Preserves-exec, Preserves-exec_checked, Preserves-raise, Preserves-pure,
  Preserves-query, Preserves-if, Preserves-run, Preserves-bind, Preserves-write_tx,
}
use ynab_auto_categorizer.Table.{find}
use ynab_auto_categorizer.Mirror.Rows.{Time}
use ynab_auto_categorizer.Auth.Rows.{Auth, AuthSession, Grant, Kind, TokenKind}
use ynab_auto_categorizer.Auth.Generations.{bump_generation, bump}
use ynab_auto_categorizer.Auth.Storage.{
  Requester, create, create_for, delete_grant, invalidate_authorize_code, revoke_refresh_token,
  revoke_access_token, rotate_body, rotate_refresh_token, in_tx, prune, prune_body, prune_table,
  all_kinds, none_affected, create_with,
}
use ynab_auto_categorizer.Auth.Clients.{
  NewClient, register_client, row_of, make_room, make_room_for, enough, insert_client,
}
use ynab_auto_categorizer.Auth.Steps.{Op, Reach, perform}
use ynab_auto_categorizer.Auth.Steps.Spent.{
  same_kind, creates_other, Picks, Spent, Spent-retire, Spent-insert, Spent-delete_rows,
  Spent-evict, Spent-others,
}

module _ (kind : Kind) (signature : String) (p : String → Grant → Bool)
    (h : Picks signature p) where
  abbrev IsSpent : Auth → Type 0
  IsSpent = Spent kind signature p h

  pub Preserves-none_affected : (e : Error) (n : ℕ) → Preserves IsSpent (none_affected e n)
  Preserves-none_affected e n =
      Preserves-if IsSpent _ _ _ (Preserves-raise IsSpent e) (Preserves-pure IsSpent tt)

  Preserves-create :
      (l : Kind) (token : TokenKind) (sig : String) (req : Requester)
      → not (same_kind kind l && sig == signature) ≡ true
      → Preserves IsSpent (create l token sig req)
  unfolding create create_for
  Preserves-create l token sig req other = by_session req.session
    where
      by_client :
          (sess : AuthSession) (o : Option String)
          → Preserves IsSpent (create_for l token sig req sess o)
      by_client sess none = Preserves-raise IsSpent _
      by_client sess (some c) =
          Preserves-if IsSpent _ _ _ (Preserves-raise IsSpent _)
            (Preserves-exec_checked IsSpent _ (λ d. Spent-insert _ _ _ h l sig _ d other))

      by_session : (o : Option AuthSession) → Preserves IsSpent (create_with l token sig req o)
      by_session none = Preserves-raise IsSpent _
      by_session (some sess) = by_client sess req.client

  Preserves-in_tx :
      {A : Type 0} (nested : Bool) (fn : Sql Auth A)
      → Preserves IsSpent fn
      → Preserves IsSpent (in_tx nested fn)
  unfolding in_tx
  Preserves-in_tx nested fn k =
      Preserves-if IsSpent nested _ _ k (Preserves-write_tx IsSpent _ fn k)

  pub Preserves-revoke_refresh :
      (request : String) → Preserves IsSpent (revoke_refresh_token request)
  unfolding revoke_refresh_token
  Preserves-revoke_refresh request =
      Preserves-run IsSpent _ (λ d. Spent-retire _ _ _ h Kind.refresh _ d)

  pub Preserves-revoke_access : (request : String) → Preserves IsSpent (revoke_access_token request)
  unfolding revoke_access_token
  Preserves-revoke_access request =
      Preserves-run IsSpent _ (λ d. Spent-delete_rows _ _ _ h Kind.access _ d)

  Preserves-rotate : (request sig : String) → Preserves IsSpent (rotate_body request sig)
  unfolding rotate_body
  Preserves-rotate request sig =
      Preserves-bind IsSpent _ _
        (Preserves-exec IsSpent _ (λ d. Spent-retire _ _ _ h Kind.refresh _ d))
        (λ n. Preserves-bind IsSpent _ _ (Preserves-none_affected _ n) (λ _.
          Preserves-bind IsSpent _ _ (Preserves-revoke_refresh request)
            (λ _. Preserves-revoke_access request)))

  Preserves-prune : (now : Time) (ks : List Kind) → Preserves IsSpent (prune_body now ks)
  unfolding prune_body prune_table
  Preserves-prune now [] = Preserves-pure IsSpent _
  Preserves-prune now (k ∷ ks) =
      Preserves-bind IsSpent _ _ (Preserves-exec IsSpent _ (λ d. Spent-delete_rows _ _ _ h k _ d))
        (λ n.
          Preserves-bind IsSpent _ _ (Preserves-prune now ks) (λ total. Preserves-pure IsSpent _))

  Preserves-register :
      (now : Time) (c : NewClient) (name : String)
      → Preserves IsSpent (register_client false now c name)
  unfolding register_client make_room make_room_for enough insert_client
  Preserves-register now c name =
      Preserves-if IsSpent (c.id == "") _ _ (Preserves-raise IsSpent _) (
        Preserves-if IsSpent _ _ _ (Preserves-raise IsSpent _)
          (Preserves-in_tx false _ (Preserves-bind IsSpent _ _ room (λ _. insert))))
    where
      room : Preserves IsSpent (make_room now)
      room = Preserves-bind IsSpent _ _ (Preserves-query IsSpent _) (λ count.
          Preserves-if IsSpent _ _ _ (Preserves-pure IsSpent _) (
            Preserves-bind IsSpent _ _ (Preserves-exec IsSpent _ (Spent-evict _ _ _ h now _)) (λ n.
              Preserves-if IsSpent _ _ _ (Preserves-raise IsSpent _) (Preserves-pure IsSpent _))))

      insert : Preserves IsSpent (exec_checked (insert_client c.id (row_of c name now)))
      insert = Preserves-exec_checked IsSpent _ (λ d s.
          elim (Bool-cases (is_some (find c.id d.clients))) [
            | inl taken ↦ rw taken s
            | inr free ↦ rw free (Spent-others _ _ _ h d _ refl refl refl refl s)
          ])

  Preserves-bump : (user : String) → Preserves IsSpent (bump_generation user)
  unfolding bump_generation bump
  Preserves-bump user =
      Preserves-if IsSpent _ _ _ (Preserves-raise IsSpent _)
        (Preserves-exec IsSpent _ (λ d. Spent-others _ _ _ h d _ refl refl refl refl))

  Preserves-perform :
      (op : Op) → creates_other kind signature op ≡ true → Preserves IsSpent (perform op)
  unfolding perform delete_grant invalidate_authorize_code rotate_refresh_token prune
  Preserves-perform (Op.create_session l token sig req) other =
      Preserves-create l token sig req other
  Preserves-perform (Op.delete_session l sig) other =
      Preserves-run IsSpent _ (λ d. Spent-delete_rows _ _ _ h l _ d)
  Preserves-perform (Op.invalidate_code sig) other =
      Preserves-bind IsSpent _ _
        (Preserves-exec IsSpent _ (λ d. Spent-retire _ _ _ h Kind.codes _ d))
        (Preserves-none_affected _)
  Preserves-perform (Op.revoke_refresh request) other = Preserves-revoke_refresh request
  Preserves-perform (Op.revoke_access request) other = Preserves-revoke_access request
  Preserves-perform (Op.rotate request sig) other =
      Preserves-in_tx false _ (Preserves-rotate request sig)
  Preserves-perform (Op.prune_expired now) other =
      Preserves-bind IsSpent _ _ (Preserves-in_tx false _ (Preserves-prune now all_kinds))
        (λ _. Preserves-pure IsSpent tt)
  Preserves-perform (Op.register now c name) other = Preserves-register now c name
  Preserves-perform (Op.bump_user user) other =
      Preserves-bind IsSpent _ _ (Preserves-bump user) (λ _. Preserves-pure IsSpent tt)

  pub Spent-Reach :
      {d d' : Auth} → Reach (creates_other kind signature) d d' → IsSpent d → IsSpent d'
  Spent-Reach Reach.here s = s
  Spent-Reach (Reach.step op σ other r) s = (Preserves-perform op other).held σ (Spent-Reach r s)
