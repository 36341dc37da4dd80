-- ===== src/Prelude/Results.antt =====
-- Go's `(T, error)` results. Wrapping an error (`%w`) keeps what `errors.Is` sees, so an error is
-- named by the sentinel or the failure that it carries and its text is left out.
use Prim.Native.String.{String}
use mathlib.Core.Bool.{Bool, true, false}

pub data Error : Type 0 where
  driver : Error  -- a statement, BEGIN or COMMIT that database/sql reports as failed
  constraint : Error  -- refused by a constraint of the schema
  hook_failed : Error
  budget_exhausted : Error  -- ynab.ErrBudgetExhausted
  rate_limited : Error  -- ynab.ErrRateLimited
  api : String → Error  -- any other error of the YNAB client
  account_not_found : Error
  not_found : Error  -- fosite.ErrNotFound
  invalidated_code : Error  -- fosite.ErrInvalidatedAuthorizeCode
  inactive_token : Error  -- fosite.ErrInactiveToken
  serialization_failure : Error  -- fosite.ErrSerializationFailure
  too_many_clients : Error
  revoked : Error
  bad_session : Error
  invalid_token : Error  -- sdkauth.ErrInvalidToken
  invalid_grant : Error  -- fosite.ErrInvalidGrant
  no_client : Error
  no_expiry : Error
  bad_stored_request : Error
  empty_user : Error
  empty_id : Error
  not_public : Error
  cancelled : Error  -- ctx.Err()
  bad_request : Error  -- mcp, badRequest
  remote : Error  -- Turso gave no answer, or a statement or a value of its answer failed
  bad_migration : Error
  duplicate_migration : Error
  stream_closed : Error
  read_failed : Error
  chunk_missing : Error
  wrong_size : Error
  wrong_sum : Error

pub data Result {ℓ} (A : Type ℓ) : Type ℓ where
  ok : A → Result A
  err : Error → Result A

abbrev pub is_ok {ℓ} : {A : Type ℓ} → Result A → Bool
is_ok (ok a) = true
is_ok (err e) = false
