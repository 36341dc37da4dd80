-- ===== src/Tests/Status.antt =====
-- status/status.go on concrete data: the first tick posts, the next one edits, and a lost message is
-- not posted again at once.
use ynab_auto_categorizer.Prelude.{
  ℕ, ◌+◌, ◌*◌, String, true, false, ◌≡◌, ◌↔◌, refl, none, some, List, [], ◌∷◌, arith, string_eq,
  length, ◌==◌, if◌then◌else◌,
}
use ynab_auto_categorizer.Scan.Redaction.{Text}
use ynab_auto_categorizer.Sql.{Session, query, write_tx, run}
use ynab_auto_categorizer.Mirror.{empty}
use ynab_auto_categorizer.Status.Slack.{
  Payload, Response, body, Request, list_channels, post_message, edit_message, got,
  find_private_channel, send,
}
use ynab_auto_categorizer.Status.Slack.Paging.{find_private_channel_lem, all_channels, accepted}
use ynab_auto_categorizer.Status.Stored.{StatusDb}
use ynab_auto_categorizer.Status.Stored.Laws.{store_db}
use ynab_auto_categorizer.Status.Render.{Config, escape, state, failing, degraded, fine}
use ynab_auto_categorizer.Status.Render.Escape.{is_inert, read_from, escape_lem}
use ynab_auto_categorizer.Status.Render.Verdict.{state-serve}
use ynab_auto_categorizer.Status.Run.{
  World, Outside, Event, sync_event, backup_event, restart_event, new_updater, perform_all,
}
use ynab_auto_categorizer.Status.Run.Cap.{spaced}
use ynab_auto_categorizer.Status.Run.History.{posts_spaced}
use ynab_auto_categorizer.Cmd.Health.{Health, serve}

abbrev nothing : Payload
nothing = record { channels = []; next_cursor = ""; ts = "" }

abbrev page : String → Payload
page cursor = if cursor == "" then record nothing { next_cursor = "more" } else record nothing {
  channels = record { id = "C1"; name = "general" } ∷ record { id = "C2"; name = "finbot" } ∷ [];
}

abbrev answer : ℕ → Request → Response
answer n (list_channels cursor) = body (accepted (page cursor))
answer n (post_message channel text) = body (accepted (record nothing { ts = "17.5" }))
answer n (edit_message channel ts text) =
    body (record { accepted = false; error = "message_not_found"; payload = none })

abbrev config : Config
config = record {
  channel = "finbot";
  plan_id = "p";
  version = [];
  import_enabled = true;
  backup_enabled = false;
  stale_after = 100;
  long = λ t. [];
  short = λ t. [];
}

-- Each reading of the clock is an hour after the one before.
abbrev hourly : Outside
hourly = record {
  config = config;
  answers = answer;
  clock = λ n. (n + 1) * 3600000000000;
  pages = 2;
}

abbrev start : World (Session StatusDb)
start = record {
  updater = new_updater;
  db = record { db = record { message = none; mirror = empty }; stmt = 0; fault = λ n. false };
  requests = 0;
  readings = 0;
  posts = [];
}

abbrev failure : Text
failure = 98 ∷ 97 ∷ 100 ∷ []

abbrev life : List Event
life =
    sync_event none
    ∷ sync_event none
    ∷ restart_event
    ∷ sync_event none
    ∷ backup_event (some failure)
    ∷ sync_event none
    ∷ []

-- The message is gone at each edit. The posts are three hours into the first run, and six hours apart.
three_posts : length (perform_all store_db hourly life start).posts ≡ 3
unfolding perform_all store_db query write_tx run send
three_posts = refl

posts_spaced_example : spaced (perform_all store_db hourly life start).posts ≡ true
unfolding store_db
posts_spaced_example =
    posts_spaced store_db hourly (λ n. omega arith) (λ n. omega arith) life start refl refl
      (omega arith)

find_private_channel_lem_example : (find_private_channel answer 2 "finbot" 0).0 ≡ got "C2"
unfolding all_channels
find_private_channel_lem_example =
    find_private_channel_lem answer page (λ n cursor. refl) "finbot" 2
      (record { id = "C1"; name = "general" } ∷ record { id = "C2"; name = "finbot" } ∷ []) 0 refl

-- "<@a&"
abbrev markup : Text
markup = 60 ∷ 64 ∷ 97 ∷ 38 ∷ []

escape_lem_example : (is_inert (escape markup) ≡ true) × (read_from 0 (escape markup) ≡ markup)
escape_lem_example = escape_lem markup

abbrev up_to : ℕ → Health
up_to t = record { stale_after = 100; last_ok = t; last_err = [] }

state-serve_example :
    ((state config (record new_updater { last_sync_ok = 50; last_sync_err = failure }) 120 []
        ≡ failing)
      ↔ ((serve 120 (up_to 50)).status ≡ 503))
    × ((state config (record new_updater { last_sync_ok = 50; last_sync_err = failure }) 120 []
          ≡ degraded)
        ↔ (((serve 120 (up_to 50)).status ≡ 200) × (true ≡ true)))
    × ((state config (record new_updater { last_sync_ok = 50; last_sync_err = failure }) 120 []
          ≡ fine)
        ↔ (((serve 120 (up_to 50)).status ≡ 200) × (true ≡ false)))
state-serve_example =
    state-serve config (record new_updater { last_sync_ok = 50; last_sync_err = failure })
      (up_to 50) 120 [] refl refl
