-- ===== src/Status/Run.antt =====
-- status/status.go, Updater: one run of the updater after a sync tick or a backup. The response to
-- each request and the reading of each clock are given from outside; log lines are left out.
pub mod Cap
pub mod Posts
pub mod History
use ynab_auto_categorizer.Prelude.{
  ℕ, suc, ◌-◌, ◌*◌, String, Bool, true, false, not, ◌&&◌, ◌||◌, Option, none, some, List, [], ◌∷◌,
  Result, ok, err, ltb, leb, nat_beq, ◌==◌, string_eq, if◌then◌else◌,
}
use ynab_auto_categorizer.Scan.Redaction.{Text}
use ynab_auto_categorizer.Mirror.Rows.{Time}
use ynab_auto_categorizer.Status.Slack.{
  Response, Request, Reply, got, failed, Failure, other, find_private_channel, send, is_code,
  not_posted,
}
use ynab_auto_categorizer.Status.Store.{Store, StatusState, AccountImport}
use ynab_auto_categorizer.Status.Render.{Config, Updater, render}

-- 6 hours, in nanoseconds
abbrev pub repost_every : ℕ
repost_every = 21600000000000

-- A new message that Slack was asked to post: when post decided it, and what came of it.
pub record Posting : Type 0 where
  pub at : Time
  pub channel : String
  pub reply : Reply String

-- The updater and what it acts on: the store, how many requests and clock readings there were, and
-- the posts, the latest first.
pub record World (S : Type 0) : Type 0 where
  pub updater : Updater
  pub db : S
  pub requests : ℕ
  pub readings : ℕ
  pub posts : List Posting

pub record Outside : Type 0 where
  pub config : Config
  pub answers : ℕ → Request → Response
  pub clock : ℕ → Time
  pub pages : ℕ

abbrev pub zero_state : StatusState
zero_state = record {
  channel_id = "";
  ts = "";
  backup_at = 0;
  backup_ok = false;
  post_attempt_at = 0;
}

-- What New returns.
abbrev pub new_updater : Updater
new_updater = record {
  loaded = false;
  channel = "";
  stored = zero_state;
  last_sync_ok = 0;
  last_sync_err = [];
  last_backup_err = [];
}

-- Whether post is held back.
unfoldable pub capped : Time → Time → Bool
capped t last = not (nat_beq last 0) && leb last t && ltb (t - last) repost_every

module _ {S : Type 0} where
  unfoldable pub tick : World S → World S
  tick w = record w { readings = suc w.readings }

  abbrev set_updater : Updater → World S → World S
  set_updater u w = record w { updater = u }

  -- The stored post attempt in memory.
  abbrev remember_attempt : Time → World S → World S
  remember_attempt at w = record w {
    updater = record w.updater { stored = record w.updater.stored { post_attempt_at = at } };
  }

  -- The process ends and starts again: what was in memory is lost.
  unfoldable pub restart : World S → World S
  restart w = record w { updater = new_updater }

module _ {S : Type 0} (store : Store S) (o : Outside) where
  unfoldable pub now : World S → Time
  now w = o.clock w.readings

  abbrev sync_time : Option Time → Time → Time
  sync_time none old = old
  sync_time (some t) old = t

  abbrev loaded_sync : Result (Option Time) → World S → World S
  loaded_sync (err e) w = w
  loaded_sync (ok t) w =
      set_updater
        (record w.updater { last_sync_ok = sync_time t w.updater.last_sync_ok; loaded = true }) w

  abbrev loaded_state : Result StatusState → World S → World S
  loaded_state (err e) w = w
  loaded_state (ok st) w =
      let (r, d) = store.get_sync_state o.config.plan_id w.db in
      loaded_sync r (record w { db = d; updater = record w.updater { stored = st } })

  unfoldable pub load : World S → World S
  load w =
      let (r, d) = store.get_status_state w.db in
      if w.updater.loaded then w else loaded_state r (record w { db = d })

  abbrev clear_attempt : Time → World S → World S
  clear_attempt last w =
      let (r, d) = store.set_status_post_attempt last w.db in
      remember_attempt last (record w { db = d })

  -- After the response to a post.
  abbrev pub after_post : Time → Reply String → World S → World S
  after_post last (failed e) w = if not_posted e then clear_attempt last w else w
  after_post last (got ts) w =
      let u = w.updater in
      let (r, d) = store.set_status_message u.channel ts w.db in
      record w {
        db = d;
        updater = record u { stored = record u.stored { channel_id = u.channel; ts = ts } };
      }

  -- The request itself, entered in the record of posts.
  abbrev pub ask_post : Time → Text → World S → Reply String × World S
  ask_post t text w =
      let (r, n) = send o.answers w.updater.channel "" text w.requests in
      (
        r,
        record w {
          requests = n;
          posts = record { at = t; channel = w.updater.channel; reply = r } ∷ w.posts;
        },
      )

  abbrev pub stored_attempt : Time → Time → Text → Result (Unit {0}) → World S → World S
  stored_attempt t last text (err e) w = w
  stored_attempt t last text (ok x) w =
      let (r, w') = ask_post t text (remember_attempt t w) in after_post last r w'

  abbrev pub held_back : Text → World S → World S
  held_back text w =
      let st = w.updater.stored in
      let (r, n) = send o.answers st.channel_id st.ts text w.requests in
      if not (st.ts == "") && not (st.channel_id == w.updater.channel)
      then record w { requests = n }
      else w

  unfoldable pub post : Text → World S → World S
  unfolding now tick capped
  post text w =
      let t = now w in
      let last = w.updater.stored.post_attempt_at in
      let (r, d) = store.set_status_post_attempt t w.db in
      if capped t last
      then held_back text (tick w)
      else stored_attempt t last text r (record (tick w) { db = d })

  -- Asks for the channel's id, and goes on with it.
  abbrev pub found : Reply String → (World S → World S) → World S → World S
  found (failed e) k w = w
  found (got id) k w = k (record w { updater = record w.updater { channel = id } })

  abbrev pub find_channel : (World S → World S) → World S → World S
  find_channel k w =
      let (r, n) = find_private_channel o.answers o.pages o.config.channel w.requests in
      found r k (record w { requests = n })

  abbrev pub uneditable : List String
  uneditable =
      "message_not_found" ∷ "channel_not_found" ∷ "edit_window_closed" ∷ "cant_update_message" ∷ []

  abbrev pub after_edit : Text → Reply String → World S → World S
  after_edit text (got ts) w = w
  after_edit text (failed e) w =
      if not (is_code e uneditable)
      then w
      else if is_code e ("channel_not_found" ∷ [])
      then find_channel (post text) (record w { updater = record w.updater { channel = "" } })
      else post text w

  unfoldable pub in_channel : Text → World S → World S
  unfolding post find_private_channel
  in_channel text w =
      let st = w.updater.stored in
      let (r, n) = send o.answers w.updater.channel st.ts text w.requests in
      if not (st.ts == "") && st.channel_id == w.updater.channel
      then after_edit text r (record w { requests = n })
      else post text w

  unfoldable pub send_text : Text → World S → World S
  unfolding in_channel find_private_channel
  send_text text w =
      if w.updater.channel == "" then find_channel (in_channel text) w else in_channel text w

  unfoldable pub update : World S → World S
  unfolding send_text now tick
  update w =
      let (r, d) = store.account_imports o.config.plan_id w.db in
      let w' = record w { db = d } in
      if w.updater.loaded then send_text (render o.config w.updater (now w') r) (tick w') else w

  -- `line` is the error's text, as oneLine cuts it; `none` after a success.
  abbrev sync_outcome : Option Text → World S → World S
  sync_outcome (some line) w = set_updater (record w.updater { last_sync_err = line }) w
  sync_outcome none w =
      tick (set_updater (record w.updater { last_sync_err = []; last_sync_ok = now w }) w)

  unfoldable pub sync_done : Option Text → World S → World S
  unfolding load update now tick
  sync_done line w = update (sync_outcome line (load w))

  abbrev text_of : Option Text → Text
  text_of none = []
  text_of (some line) = line

  abbrev succeeded : Option Text → Bool
  succeeded none = true
  succeeded (some line) = false

  abbrev backup_outcome : Option Text → World S → World S
  backup_outcome line w =
      let u = w.updater in
      let (r, d) = store.set_status_backup (now w) (succeeded line) w.db in
      tick (record w {
        db = d;
        updater = record u {
          last_backup_err = text_of line;
          stored = record u.stored { backup_at = now w; backup_ok = succeeded line };
        };
      })

  unfoldable pub backup_done : Option Text → World S → World S
  unfolding load update now tick
  backup_done line w = update (backup_outcome line (load w))

pub data Event : Type 0 where
  sync_event : Option Text → Event
  backup_event : Option Text → Event
  restart_event : Event

module _ {S : Type 0} (store : Store S) (o : Outside) where
  unfoldable pub perform : Event → World S → World S
  unfolding sync_done backup_done restart
  perform (sync_event line) w = sync_done store o line w
  perform (backup_event line) w = backup_done store o line w
  perform restart_event w = restart w

  unfoldable pub perform_all : List Event → World S → World S
  unfolding perform
  perform_all [] w = w
  perform_all (e ∷ es) w = perform_all es (perform e w)
