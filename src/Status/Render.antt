-- ===== src/Status/Render.antt =====
-- status/status.go, render: the text of the message, and escape.
pub mod Escape
pub mod Verdict
use ynab_auto_categorizer.Prelude.{
  ℕ, ◌-◌, String, Bool, true, false, not, ◌&&◌, ◌||◌, ◌≡◌, refl, ap, Option, none, some, List, [],
  ◌∷◌, ◌++◌, Result, ok, err, ltb, nat_beq, any, ◌==◌, string_eq, if◌then◌else◌, codes,
}
use ynab_auto_categorizer.Scan.Redaction.{Text}
use ynab_auto_categorizer.Mirror.Rows.{Time}
use ynab_auto_categorizer.Status.Store.{StatusState, AccountImport}

-- "&amp;", "&lt;", "&gt;", and "@" with a zero-width space
abbrev pub escaped : ℕ → Text
escaped c =
    if nat_beq c 38
    then 38 ∷ 97 ∷ 109 ∷ 112 ∷ 59 ∷ []
    else if nat_beq c 60
    then 38 ∷ 108 ∷ 116 ∷ 59 ∷ []
    else if nat_beq c 62
    then 38 ∷ 103 ∷ 116 ∷ 59 ∷ []
    else if nat_beq c 64
    then 64 ∷ 8203 ∷ []
    else c ∷ []

unfoldable pub escape : Text → Text
escape [] = []
escape (c ∷ cs) = escaped c ++ escape cs

-- What an Updater holds in memory.
pub record Updater : Type 0 where
  pub loaded : Bool
  pub channel : String
  pub stored : StatusState
  pub last_sync_ok : Time
  pub last_sync_err : Text
  pub last_backup_err : Text

-- `long` and `short` are the two layouts of time.Format, in the updater's zone.
pub record Config : Type 0 where
  pub channel : String
  pub plan_id : String
  pub version : Text
  pub import_enabled : Bool
  pub backup_enabled : Bool
  pub stale_after : ℕ
  pub long : Time → Text
  pub short : Time → Text

pub data State : Type 0 where
  failing degraded fine : State

abbrev pub is_empty : Text → Bool
is_empty [] = true
is_empty (c ∷ cs) = false

module _ (cfg : Config) (u : Updater) where
  unfoldable pub state : Time → List AccountImport → State
  state now accounts =
      if nat_beq u.last_sync_ok 0 || ltb cfg.stale_after (now - u.last_sync_ok)
      then failing
      else if not (is_empty u.last_sync_err)
          || (not (nat_beq u.stored.backup_at 0) && not u.stored.backup_ok)
          || any (λ a. a.in_error) accounts
      then degraded
      else fine

  unfoldable pub when : Time → Text
  unfolding codes
  when t = if nat_beq t 0 then codes "never" else cfg.short t

  unfoldable pub last_error : Text
  unfolding codes escape
  last_error =
      if not (is_empty u.last_sync_err)
      then escape u.last_sync_err
      else if not (is_empty u.last_backup_err)
      then codes "backup: " ++ escape u.last_backup_err
      else codes "none"

  unfoldable pub backup : Text
  unfolding codes when
  backup =
      if not cfg.backup_enabled
      then codes "disabled"
      else if nat_beq u.stored.backup_at 0
      then codes "none yet"
      else if u.stored.backup_ok
      then when u.stored.backup_at ++ codes ", ok"
      else when u.stored.backup_at ++ codes ", failed"

abbrev on_off : Bool → Text
on_off b = if b then codes "on" else codes "off"

abbrev headline : State → Text
headline failing = codes ":red_circle: *finbot: failing*"
headline degraded = codes ":large_yellow_circle: *finbot: degraded*"
headline fine = codes ":large_green_circle: *finbot: OK*"

abbrev newline : Text
newline = 10 ∷ []

unfoldable pub account_line : AccountImport → Text
unfolding codes escape
account_line a =
    newline
    ++ 8226 ∷ 32 ∷ escape (codes a.name)
    ++ codes ": "
    ++ (if a.newest_import == "" then codes "no imports" else codes a.newest_import)
    ++ (if a.in_error then codes " :warning: link error" else [])

unfoldable pub account_lines : List AccountImport → Text
unfolding account_line
account_lines [] = []
account_lines (a ∷ rest) = account_line a ++ account_lines rest

abbrev account_part : Result (List AccountImport) → Text
account_part (err e) = codes "*Accounts:* unavailable"
account_part (ok []) = codes "*Accounts:* none linked"
account_part (ok (a ∷ rest)) = codes "*Accounts (newest import):*" ++ account_lines (a ∷ rest)

-- The accounts that a failed read leaves.
abbrev pub read_accounts : Result (List AccountImport) → List AccountImport
read_accounts (err e) = []
read_accounts (ok accounts) = accounts

unfoldable pub render : Config → Updater → Time → Result (List AccountImport) → Text
unfolding codes escape state when last_error backup account_lines
render cfg u now accounts =
    headline (state cfg u now (read_accounts accounts))
    ++ newline
    ++ codes "*Updated:* "
    ++ cfg.long now
    ++ newline
    ++ codes "*Last successful sync:* "
    ++ when cfg u u.last_sync_ok
    ++ newline
    ++ codes "*Last error:* "
    ++ last_error cfg u
    ++ newline
    ++ codes "*Last backup:* "
    ++ backup cfg u
    ++ newline
    ++ codes "*Import:* "
    ++ on_off cfg.import_enabled
    ++ newline
    ++ codes "*Version:* "
    ++ escape cfg.version
    ++ newline
    ++ account_part accounts
