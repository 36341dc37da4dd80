-- ===== src/Sync/Links.antt =====
-- sync/mirror.go, linkEvents: an account whose bank link went into or out of error.
pub mod Events
use ynab_auto_categorizer.Prelude.{
  String, Bool, true, false, not, ◌&&◌, ◌||◌, Option, none, some, List, [], ◌∷◌, if◌then◌else◌,
  pair_eq, string_eq, bool_beq,
}
use ynab_auto_categorizer.Sql.{Sql, query}
use ynab_auto_categorizer.Table.{find}
use ynab_auto_categorizer.Mirror.{Mirror, AccountRow}
use ynab_auto_categorizer.Mirror.Rows.{Account}

pub record LinkEvent : Type 0 where
  pub account_id : String
  pub account_name : String
  pub in_error : Bool

-- `prior[a.ID]`: a key that is not in the map reads as false.
abbrev pub flag_of : Option AccountRow → Bool
flag_of none = false
flag_of (some r) = r.account.direct_import_in_error

unfoldable pub prior : String → Mirror → String → Bool
prior plan m i = flag_of (find (plan, i) m.accounts)

unfoldable pub events_for : (String → Bool) → List Account → List LinkEvent
events_for before [] = []
events_for before (a ∷ rest) =
    let later = events_for before rest in
    if a.deleted || bool_beq a.direct_import_in_error (before a.id)
    then later
    else record { account_id = a.id; account_name = a.name; in_error = a.direct_import_in_error }
      ∷ later

unfoldable pub link_events : String → List Account → Sql Mirror (List LinkEvent)
link_events plan accounts = query (λ m. events_for (prior plan m) accounts)
