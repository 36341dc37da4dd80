-- ===== src/Status/Run/History.antt =====
-- status/status.go: the cap on new messages over the whole life of finbot, restarts included.
use mathlib.Core.Path.{subst}
use ynab_auto_categorizer.Prelude.{
  ℕ, suc, ◌≤◌, ◌<◌, String, true, false, not, ◌&&◌, ◌≡◌, refl, sym, ◌∙◌, Option, none, some, List,
  [], ◌∷◌, Result, ok, err, inl, inr, arith, Bool-cases, if_intro, ◌==◌, string_eq,
}
use ynab_auto_categorizer.Scan.Redaction.{Text}
use ynab_auto_categorizer.Mirror.Rows.{Time}
use ynab_auto_categorizer.Status.Slack.{Reply, got, failed, find_private_channel, send, is_code}
use ynab_auto_categorizer.Status.Store.{Store, StatusState}
use ynab_auto_categorizer.Status.Render.{render}
use ynab_auto_categorizer.Status.Run.{
  World, Outside, Event, sync_event, backup_event, restart_event, new_updater, now, tick, post,
  found, find_channel, after_edit, in_channel, send_text, update, uneditable, load, loaded_state,
  loaded_sync, sync_done, backup_done, sync_outcome, backup_outcome, succeeded, restart, perform,
  perform_all,
}
use ynab_auto_categorizer.Status.Run.Cap.{spaced, Facts}
use ynab_auto_categorizer.Status.Run.Posts.{Holds, Holds-tick, post-Holds}

module _ {S : Type 0} (store : Store S) (o : Outside) (mono : (n : ℕ) → o.clock n ≤ o.clock (suc n))
    (positive : (n : ℕ) → 0 < o.clock n) where
  abbrev Fine : World S → Type 0
  Fine w = Holds store o mono positive w

  -- What a loaded updater does keeps the facts.
  abbrev Keeps : (World S → World S) → Type 0
  Keeps k = (w : World S) → w.updater.loaded ≡ true → Fine w → Fine (k w)

  Keeps-found : (r : Reply String) (k : World S → World S) → Keeps k → Keeps (found store o r k)
  Keeps-found (failed e) k h w ld f = f
  Keeps-found (got id) k h w ld f = h _ ld f

  Keeps-find_channel : (k : World S → World S) → Keeps k → Keeps (find_channel store o k)
  Keeps-find_channel k h w ld f =
      Keeps-found (find_private_channel o.answers o.pages o.config.channel w.requests).0 k h _ ld f

  Keeps-after_edit : (text : Text) (r : Reply String) → Keeps (after_edit store o text r)
  Keeps-after_edit text (got ts) w ld f = f
  Keeps-after_edit text (failed e) w ld f =
      elim (Bool-cases (not (is_code e (uneditable store o)))) [
        | inl other ↦ rw other f
        | inr gone ↦ elim (Bool-cases (is_code e ("channel_not_found" ∷ []))) [
          | inl lost ↦
              rw (gone, lost)
                (Keeps-find_channel (post store o text) (post-Holds store o mono positive text) _ ld
                  f)
          | inr there ↦ rw (gone, there) (post-Holds store o mono positive text w ld f)
        ]
      ]

  Keeps-in_channel : (text : Text) → Keeps (in_channel store o text)
  unfolding in_channel
  Keeps-in_channel text w ld f =
      elim (Bool-cases
        (not (w.updater.stored.ts == "") && w.updater.stored.channel_id == w.updater.channel)) [
          | inl known ↦ rw known (
              Keeps-after_edit text
                (send o.answers w.updater.channel w.updater.stored.ts text w.requests).0 _ ld f)
          | inr new ↦ rw new (post-Holds store o mono positive text w ld f)
        ]

  Keeps-send_text : (text : Text) → Keeps (send_text store o text)
  unfolding send_text
  Keeps-send_text text w ld f = elim (Bool-cases (w.updater.channel == "")) [
    | inl unknown ↦
        rw unknown (Keeps-find_channel (in_channel store o text) (Keeps-in_channel text) w ld f)
    | inr known ↦ rw known (Keeps-in_channel text w ld f)
  ]

  -- Another database with the same stored attempt.
  moved :
      (w : World S) (d : S)
      → store.attempt d ≡ store.attempt w.db
      → Fine w
      → Fine (record w { db = d })
  moved w d same f =
      subst
        (λ a.
          Facts a w.updater.loaded w.updater.stored.post_attempt_at (o.clock w.readings) w.posts)
        (sym same) f

  Fine-update : (w : World S) → Fine w → Fine (update store o w)
  unfolding update now tick
  Fine-update w f =
      let r = store.account_imports o.config.plan_id w.db in
      let w' : World S = record w { db = r.1 } in
      if_intro Fine w.updater.loaded
        (λ ld. Keeps-send_text (render o.config w.updater (o.clock w.readings) r.0) (tick w') ld (
          Holds-tick store o mono positive w'
            (moved w r.1 (store.attempt-imports o.config.plan_id w.db) f)))
        (λ idle. f)

  -- What load has read.
  loaded_facts :
      (w : World S) (st : StatusState) (r : Result (Option Time)) (d : S)
      → store.attempt d ≡ store.attempt w.db
      → st.post_attempt_at ≡ store.attempt w.db
      → w.updater.loaded ≡ false
      → Fine w
      → Fine
          (loaded_sync store o r (record w { db = d; updater = record w.updater { stored = st } }))
  loaded_facts w st (err e) d same own idle f =
      rw (same, own, idle)
        (record {
          stored_covers = f.stored_covers;
          own_covers = λ _. f.stored_covers;
          stored_le = f.stored_le;
          own_le = f.stored_le;
          apart = f.apart;
        })
  loaded_facts w st (ok t) d same own idle f =
      rw (same, own)
        (record {
          stored_covers = f.stored_covers;
          own_covers = λ _. f.stored_covers;
          stored_le = f.stored_le;
          own_le = f.stored_le;
          apart = f.apart;
        })

  Fine-load : (w : World S) → Fine w → Fine (load store o w)
  unfolding load
  Fine-load w f =
      if_intro Fine w.updater.loaded (λ ld. f)
        (λ idle.
          by_read idle (store.get_status_state w.db).0 (store.get_status_state w.db).1
            (store.get-attempt w.db) (store.attempt-get w.db))
    where
      by_read :
          w.updater.loaded ≡ false
          → (r : Result StatusState) (d : S)
          → ((st : StatusState) → r ≡ ok st → st.post_attempt_at ≡ store.attempt w.db)
          → store.attempt d ≡ store.attempt w.db
          → Fine (loaded_state store o r (record w { db = d }))
      by_read idle (err e) d own same = moved w d same f
      by_read idle (ok st) d own same =
          loaded_facts (record w { db = d }) st (store.get_sync_state o.config.plan_id d).0
            (store.get_sync_state o.config.plan_id d).1 (store.attempt-sync o.config.plan_id d)
            (own st refl ∙ sym same) idle (moved w d same f)

  Fine-sync_outcome :
      (line : Option Text) (w : World S) → Fine w → Fine (sync_outcome store o line w)
  unfolding now
  Fine-sync_outcome none w f = Holds-tick store o mono positive _ f
  Fine-sync_outcome (some line) w f = f

  Fine-backup_outcome :
      (line : Option Text) (w : World S) → Fine w → Fine (backup_outcome store o line w)
  unfolding now
  Fine-backup_outcome line w f = Holds-tick store o mono positive _ (
      moved w (store.set_status_backup (o.clock w.readings) (succeeded store o line) w.db).1
        (store.attempt-backup (o.clock w.readings) (succeeded store o line) w.db) f)

  Fine-restart : (w : World S) → Fine w → Fine (restart w)
  unfolding restart
  Fine-restart w f = record {
    stored_covers = f.stored_covers;
    own_covers = λ h. absurd (ground arith);
    stored_le = f.stored_le;
    own_le = omega arith;
    apart = f.apart;
  }

  Fine-perform : (e : Event) (w : World S) → Fine w → Fine (perform store o e w)
  unfolding perform sync_done backup_done
  Fine-perform (sync_event line) w f =
      Fine-update (sync_outcome store o line (load store o w))
        (Fine-sync_outcome line (load store o w) (Fine-load w f))
  Fine-perform (backup_event line) w f =
      Fine-update (backup_outcome store o line (load store o w))
        (Fine-backup_outcome line (load store o w) (Fine-load w f))
  Fine-perform restart_event w f = Fine-restart w f

  Fine-perform_all : (es : List Event) (w : World S) → Fine w → Fine (perform_all store o es w)
  unfolding perform_all
  Fine-perform_all [] w f = f
  Fine-perform_all (e ∷ es) w f = Fine-perform_all es (perform store o e w) (Fine-perform e w f)

  -- Over a store that keeps the Store laws, with a clock that does not go back: starting with a new
  -- process and a stored attempt that is not in the future, after any sync outcomes, backup outcomes
  -- and restarts, with any responses of Slack and any failures of the store, the messages that Slack
  -- may have created were asked for at least six hours apart.
  pub posts_spaced :
      (es : List Event) (w : World S)
      → w.posts ≡ []
      → w.updater ≡ new_updater
      → store.attempt w.db ≤ o.clock w.readings
      → spaced (perform_all store o es w).posts ≡ true
  unfolding spaced
  posts_spaced es w empty fresh past =
      let f : Fine w =
        rw (empty, fresh)
          (record {
            stored_covers = refl;
            own_covers = λ h. refl;
            stored_le = past;
            own_le = omega arith;
            apart = refl;
          }) in
      (Fine-perform_all es w f).apart
