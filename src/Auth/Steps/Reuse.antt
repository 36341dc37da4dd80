-- ===== src/Auth/Steps/Reuse.antt =====
-- auth/storage.go, InvalidateAuthorizeCodeSession and RotateRefreshToken: what was used once is
-- refused, whatever happens in between.
use ynab_auto_categorizer.Prelude.{
  String, false, ◌≡◌, refl, and_left, and_right, ok, serialization_failure, not_found, string_eq,
  arith,
}
use ynab_auto_categorizer.Sql.{Session, ◌>>=◌, raise}
use ynab_auto_categorizer.Sql.Preserves.{Preserves-bind}
use ynab_auto_categorizer.Sql.Outcomes.{
  Refused, Establishes, Establishes-exec, Establishes-first, Establishes-write_tx, Refused-exec,
  Refused-write_tx, Refused-unchanged,
}
use ynab_auto_categorizer.Sql.Atomic.{IsAtomic-write_tx}
use ynab_auto_categorizer.Auth.Rows.{Auth, Kind}
use ynab_auto_categorizer.Auth.Storage.{
  invalidate_authorize_code, rotate_body, rotate_refresh_token, in_tx, usable_code, current_token,
}
use ynab_auto_categorizer.Auth.Steps.{Reach}
use ynab_auto_categorizer.Auth.Steps.Spent.{creates_other, Picks, Spent, Spent-own, none-retire}
use ynab_auto_categorizer.Auth.Steps.Uses.{
  Spent-Reach, Preserves-none_affected, Preserves-revoke_refresh, Preserves-revoke_access,
}

Picks-usable_code : (signature : String) → Picks signature (usable_code signature)
Picks-usable_code signature = record { key = λ k g h. and_left _ h; live = λ k g h. and_right _ h }

Picks-current_token :
    (request signature : String) → Picks signature (current_token request signature)
Picks-current_token request signature = record {
  key = λ k g h. ground arith;
  live = λ k g h. ground arith;
}

module _ (signature : String) where
  abbrev CodeSpent : Auth → Type 0
  CodeSpent = Spent Kind.codes signature (usable_code signature) (Picks-usable_code signature)

  invalidated : Establishes CodeSpent (invalidate_authorize_code signature)
  unfolding invalidate_authorize_code
  invalidated =
      Establishes-first CodeSpent _ _
        (Establishes-exec CodeSpent _ (Spent-own _ _ _ (Picks-usable_code signature)))
        (Preserves-none_affected _ _ _ (Picks-usable_code signature) not_found)

  code-Refused :
      (σ : Session Auth)
      → CodeSpent σ.db
      → Refused not_found (invalidate_authorize_code signature σ).0
  unfolding invalidate_authorize_code raise
  code-Refused σ s =
      Refused-exec _ _ not_found σ
        (λ s'. rw (none-retire _ _ _ (Picks-usable_code signature) σ.db s) refl)

-- An authorization code is used once. After InvalidateAuthorizeCodeSession succeeded for a code, and
-- unless a caller's transaction around it is rolled back, let any operations of the storage follow, under
-- any faults, except the creation of a code session under the same signature. Then invalidating the code
-- again gives "not found" or an error of the driver.
pub code_used_once :
    (signature : String) (u : Unit {0}) (σ σ' : Session Auth)
    → (invalidate_authorize_code signature σ).0 ≡ ok u
    → Reach (creates_other Kind.codes signature) (invalidate_authorize_code signature σ).1.db σ'.db
    → Refused not_found (invalidate_authorize_code signature σ').0
code_used_once signature u σ σ' used r =
    code-Refused signature σ'
      (Spent-Reach _ _ _ (Picks-usable_code signature) r ((invalidated signature).sure σ u used))

module _ (request signature : String) where
  abbrev picked : Picks signature (current_token request signature)
  picked = Picks-current_token request signature

  abbrev TokenSpent : Auth → Type 0
  TokenSpent = Spent Kind.refresh signature (current_token request signature) picked

  rotated : Establishes TokenSpent (rotate_refresh_token false request signature)
  unfolding rotate_refresh_token in_tx rotate_body
  rotated = Establishes-write_tx TokenSpent _ _ (
      Establishes-first TokenSpent _ _ (Establishes-exec TokenSpent _ (Spent-own _ _ _ picked))
        (λ n.
          Preserves-bind TokenSpent _ _
            (Preserves-none_affected _ _ _ picked serialization_failure n)
            (λ _.
              Preserves-bind TokenSpent _ _ (Preserves-revoke_refresh _ _ _ picked request)
                (λ _. Preserves-revoke_access _ _ _ picked request))))

  token-Refused :
      (σ : Session Auth)
      → TokenSpent σ.db
      → Refused serialization_failure (rotate_refresh_token false request signature σ).0
  unfolding rotate_refresh_token in_tx rotate_body raise ◌>>=◌
  token-Refused σ s =
      Refused-write_tx _ _ serialization_failure σ
        (Refused-exec _ _ serialization_failure _ (λ s'. rw (none-retire _ _ _ picked σ.db s) refl))

-- A refresh token is rotated once. After RotateRefreshToken succeeded for a request and a signature, in a
-- transaction of its own, which is committed then, let any operations of the storage follow, under any
-- faults, except the creation of a refresh session under the same signature; the rollback of a caller's
-- transaction is not among them. Then rotating the same token again gives a serialization
-- failure or an error of the driver, and changes nothing.
pub token_rotates_once :
    (request signature : String) (u : Unit {0}) (σ σ' : Session Auth)
    → (rotate_refresh_token false request signature σ).0 ≡ ok u
    → Reach
        (creates_other Kind.refresh signature)
        (rotate_refresh_token false request signature σ).1.db
        σ'.db
    → Refused serialization_failure (rotate_refresh_token false request signature σ').0
      × ((rotate_refresh_token false request signature σ').1.db ≡ σ'.db)
unfolding rotate_refresh_token in_tx
token_rotates_once request signature u σ σ' first r = (
  again,
  Refused-unchanged (rotate_refresh_token false request signature) serialization_failure σ'
      (IsAtomic-write_tx _ _) again,
)
  where
    again : Refused serialization_failure (rotate_refresh_token false request signature σ').0
    again = token-Refused request signature σ' (
        Spent-Reach _ _ _ (picked request signature) r ((rotated request signature).sure σ u first))
