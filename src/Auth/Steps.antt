-- ===== src/Auth/Steps.antt =====
-- auth/: every operation that writes, as a step of the database. A step runs on any session, so any
-- of its statements may fail, and any number of processes may take turns.
pub mod Counters
pub mod Revoked
pub mod Spent
pub mod Uses
pub mod Reuse
use ynab_auto_categorizer.Prelude.{ℕ, String, Bool, true, List, ◌≡◌}
use ynab_auto_categorizer.Sql.{Session, Sql, ◌>>=◌, pure}
use ynab_auto_categorizer.Mirror.Rows.{Time}
use ynab_auto_categorizer.Auth.Rows.{Auth, Kind, TokenKind}
use ynab_auto_categorizer.Auth.Generations.{bump_generation}
use ynab_auto_categorizer.Auth.Storage.{
  Tx, Requester, create, delete_grant, invalidate_authorize_code, revoke_refresh_token,
  revoke_access_token, rotate_refresh_token, prune,
}
use ynab_auto_categorizer.Auth.Clients.{NewClient, register_client}

pub data Op : Type 0 where
  create_session : Kind → TokenKind → String → Requester → Op
  delete_session : Kind → String → Op
  invalidate_code : String → Op
  revoke_refresh : String → Op
  revoke_access : String → Op
  rotate : String → String → Op
  prune_expired : Time → Op
  register : Time → NewClient → String → Op
  bump_user : String → Op

abbrev pub done : {A : Type 0} → A → Tx
done a = pure tt

unfoldable pub perform : Op → Tx
perform (create_session kind token signature req) = create kind token signature req
perform (delete_session kind signature) = delete_grant kind signature
perform (invalidate_code signature) = invalidate_authorize_code signature
perform (revoke_refresh request) = revoke_refresh_token request
perform (revoke_access request) = revoke_access_token request
perform (rotate request signature) = rotate_refresh_token Bool.false request signature
perform (prune_expired now) = prune Bool.false now >>= done
perform (register now c name) = register_client Bool.false now c name
perform (bump_user user) = bump_generation user >>= done

-- Databases reached by operations that a test allows, each on a session of its own.
pub data Reach (allowed : Op → Bool) : Auth → Auth → Type 0 where
  here : {d : Auth} → Reach allowed d d
  step :
      {d : Auth} (op : Op) (σ : Session Auth)
      → allowed op ≡ true
      → Reach allowed d σ.db
      → Reach allowed d (perform op σ).1.db

abbrev pub any_op : Op → Bool
any_op op = true
