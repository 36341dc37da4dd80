-- ===== src/Status/Stored.antt =====
-- store/status.go and store/migrations/0003_status_message.sql: the row of the status message, and the store's
-- side of the updater's interface.
pub mod Laws
use ynab_auto_categorizer.Prelude.{
  suc, String, Bool, true, false, not, ◌&&◌, ◌||◌, ◌≡◌, refl, Option, none, some, List, [], ◌∷◌,
  map, keep, Result, ok, err, Error, inl, inr, ◌==◌, string_eq, nat_beq, if◌then◌else◌, Bool-cases,
  sort_by, text_before, is_some,
}
use ynab_auto_categorizer.Sql.{Sql, Session, query, run, exec, write_tx, ◌>>=◌, end_tx, next}
use ynab_auto_categorizer.Table.{find}
use ynab_auto_categorizer.Mirror.{Mirror, Key, AccountRow}
use ynab_auto_categorizer.Mirror.Rows.{Time, SyncState}
use ynab_auto_categorizer.Sync.Freshness.{imports, newest_date}
use ynab_auto_categorizer.Status.Store.{Store, StatusState, AccountImport, Method}

-- The one row, id = 1.
pub record StatusRow : Type 0 where
  pub channel_id : Option String
  pub ts : Option String
  pub backup_at : Option Time
  pub backup_ok : Option Bool
  pub post_attempt_at : Option Time

pub record StatusDb : Type 0 where
  pub message : Option StatusRow
  pub mirror : Mirror

-- What INSERT starts from: every other column is NULL.
abbrev row_of : Option StatusRow → StatusRow
row_of none = record {
  channel_id = none;
  ts = none;
  backup_at = none;
  backup_ok = none;
  post_attempt_at = none;
}
row_of (some r) = r

-- sql.NullString and time.Parse: NULL is the zero value.
abbrev text_or : Option String → String
text_or none = ""
text_or (some s) = s

abbrev time_or : Option Time → Time
time_or none = 0
time_or (some t) = t

abbrev flag_or : Option Bool → Bool
flag_or none = false
flag_or (some b) = b

unfoldable pub status_of : Option StatusRow → StatusState
status_of row =
    let r = row_of row in
    record {
      channel_id = text_or r.channel_id;
      ts = text_or r.ts;
      backup_at = time_or r.backup_at;
      backup_ok = flag_or r.backup_ok;
      post_attempt_at = time_or r.post_attempt_at;
    }

unfoldable pub get_status_state : Sql StatusDb StatusState
unfolding status_of
get_status_state = query (λ d. status_of d.message)

unfoldable pub put_attempt : Time → StatusDb → StatusDb
put_attempt at d = record d {
  message =
      some (record (row_of d.message) { post_attempt_at = if nat_beq at 0 then none else some at });
}

unfoldable pub put_message : String → String → StatusDb → StatusDb
put_message channel ts d = record d {
  message = some (record (row_of d.message) { channel_id = some channel; ts = some ts });
}

unfoldable pub put_backup : Time → Bool → StatusDb → StatusDb
put_backup at succeeded d = record d {
  message = some (record (row_of d.message) { backup_at = some at; backup_ok = some succeeded });
}

-- CHECK: the two columns of a pair are NULL together.
abbrev pub checks_hold : StatusDb → Bool
checks_hold d =
    let r = row_of d.message in
    bool_eq (is_some r.channel_id) (is_some r.ts)
    && bool_eq (is_some r.backup_at) (is_some r.backup_ok)
  where
    bool_eq : Bool → Bool → Bool
    bool_eq true b = b
    bool_eq false b = not b

unfoldable pub set_status_post_attempt : Time → Sql StatusDb (Unit {0})
unfolding put_attempt
set_status_post_attempt at = write_tx (λ _. true) (run (put_attempt at))

unfoldable pub set_status_message : String → String → Sql StatusDb (Unit {0})
unfolding put_message
set_status_message channel ts = write_tx (λ _. true) (run (put_message channel ts))

unfoldable pub set_status_backup : Time → Bool → Sql StatusDb (Unit {0})
unfolding put_backup
set_status_backup at succeeded = write_tx (λ _. true) (run (put_backup at succeeded))

-- GetSyncState, of whose row the updater reads synced_at.
abbrev synced_at_of : Option SyncState → Option Time
synced_at_of none = none
synced_at_of (some st) = some st.synced_at

unfoldable pub sync_time_of : String → Sql StatusDb (Option Time)
sync_time_of plan = query (λ d. synced_at_of (find plan d.mirror.sync_state))

-- AccountImports
abbrev is_listed : String → Key × AccountRow → Bool
is_listed plan ((p, i), r) =
    p == plan && not r.account.deleted && not r.account.closed && r.account.direct_import_linked

abbrev account_before : Key × AccountRow → Key × AccountRow → Bool
account_before a b =
    text_before a.1.account.name b.1.account.name
    || (a.1.account.name == b.1.account.name && text_before a.0.1 b.0.1)

abbrev import_of : String → Mirror → Key × AccountRow → AccountImport
import_of plan m ((p, i), r) = record {
  name = r.account.name;
  newest_import = newest_date (imports plan i m);
  in_error = r.account.direct_import_in_error;
}

unfoldable pub import_rows : String → Mirror → List AccountImport
unfolding sort_by newest_date
import_rows plan m =
    map (import_of plan m) (sort_by account_before (keep (is_listed plan) m.accounts))

unfoldable pub account_imports : String → Sql StatusDb (List AccountImport)
unfolding import_rows
account_imports plan = query (λ d. import_rows plan d.mirror)
