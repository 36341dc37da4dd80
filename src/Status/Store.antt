-- ===== src/Status/Store.antt =====
-- status/status.go, Store: the part of store.DB that the updater uses, as an interface. The laws say
-- what becomes of the time of the latest attempt to post, which is all that the cap relies on.
use ynab_auto_categorizer.Prelude.{String, Bool, Option, List, ◌≡◌, ◌⊎◌, Result, ok, err, Error}
use ynab_auto_categorizer.Mirror.Rows.{Time}

-- A zero time or an empty text stands for what has not been recorded.
pub record StatusState : Type 0 where
  pub channel_id : String
  pub ts : String
  pub backup_at : Time
  pub backup_ok : Bool
  pub post_attempt_at : Time

-- One bank-linked account's import state.
pub record AccountImport : Type 0 where
  pub name : String
  pub newest_import : String
  pub in_error : Bool

-- A method of the store: it may fail at any call.
abbrev pub Method : Type 0 → Type 0 → Type 0
Method S A = S → Result A × S

pub record Store (S : Type 0) : Type 0 where
  pub get_status_state : Method S StatusState
  pub set_status_message : String → String → Method S (Unit {0})
  pub set_status_backup : Time → Bool → Method S (Unit {0})
  pub set_status_post_attempt : Time → Method S (Unit {0})
  pub get_sync_state : String → Method S (Option Time)
  pub account_imports : String → Method S (List AccountImport)
  -- The stored time of the latest attempt, 0 if there is none.
  pub attempt : S → Time
  pub attempt-message : (c t : String) (s : S) → attempt (set_status_message c t s).1 ≡ attempt s
  pub attempt-backup :
      (at : Time) (o : Bool) (s : S) → attempt (set_status_backup at o s).1 ≡ attempt s
  pub attempt-get : (s : S) → attempt (get_status_state s).1 ≡ attempt s
  pub attempt-sync : (p : String) (s : S) → attempt (get_sync_state p s).1 ≡ attempt s
  pub attempt-imports : (p : String) (s : S) → attempt (account_imports p s).1 ≡ attempt s
  -- What is read is what is stored.
  pub get-attempt :
      (s : S) (st : StatusState) → (get_status_state s).0 ≡ ok st → st.post_attempt_at ≡ attempt s
  -- A write that reports success has happened; one that fails may have.
  pub set-attempt :
      (at : Time) (s : S)
      → (set_status_post_attempt at s).0 ≡ ok tt
      → attempt (set_status_post_attempt at s).1 ≡ at
  pub set_failed-attempt :
      (at : Time) (s : S) (e : Error)
      → (set_status_post_attempt at s).0 ≡ err e
      → (attempt (set_status_post_attempt at s).1 ≡ attempt s)
        ⊎ (attempt (set_status_post_attempt at s).1 ≡ at)
