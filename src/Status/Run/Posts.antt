-- ===== src/Status/Run/Posts.antt =====
-- status/status.go: the cap on new messages through every run of the updater.
use ynab_auto_categorizer.Prelude.{
  ℕ, suc, ◌≤◌, ◌<◌, String, true, false, not, ◌&&◌, ◌≡◌, refl, ap, inl, inr, List, ◌∷◌, Result, ok,
  err, Bool-cases, ◌==◌, string_eq,
}
use ynab_auto_categorizer.Scan.Redaction.{Text}
use ynab_auto_categorizer.Mirror.Rows.{Time}
use ynab_auto_categorizer.Status.Slack.{Reply, got, failed, not_posted, send}
use ynab_auto_categorizer.Status.Store.{Store}
use ynab_auto_categorizer.Status.Run.{
  Posting, World, Outside, now, tick, capped, after_post, stored_attempt, held_back, post,
}
use ynab_auto_categorizer.Status.Run.Cap.{
  covered, Facts, Facts-later, Written, Facts-unstored, Facts-asked, Facts-cleared,
}

module _ {S : Type 0} (store : Store S) (o : Outside) (mono : (n : ℕ) → o.clock n ≤ o.clock (suc n))
    (positive : (n : ℕ) → 0 < o.clock n) where
  abbrev pub Holds : World S → Type 0
  Holds w =
      Facts (store.attempt w.db) w.updater.loaded w.updater.stored.post_attempt_at
        (o.clock w.readings) w.posts

  pub Holds-tick : (w : World S) → Holds w → Holds (tick w)
  unfolding tick
  Holds-tick w h = Facts-later (mono w.readings) h

  write_lem :
      (t : Time) (s : S)
      → Written
          (store.attempt s)
          t
          (store.set_status_post_attempt t s).0
          (store.attempt (store.set_status_post_attempt t s).1)
  write_lem t s = by_result (store.set_status_post_attempt t s).0 refl
    where
      by_result :
          (r : Result (Unit {0}))
          → (store.set_status_post_attempt t s).0 ≡ r
          → Written (store.attempt s) t r (store.attempt (store.set_status_post_attempt t s).1)
      by_result (ok tt) e = store.set-attempt t s e
      by_result (err x) e = store.set_failed-attempt t s x e

  -- After the response: `w` is the world in which the request was entered as `p`.
  after_post-Holds :
      (t last : Time) (r : Reply String) (p : Posting) (ps : List Posting) (w : World S)
      → p.reply ≡ r
      → w.posts ≡ p ∷ ps
      → last ≤ t
      → t ≤ o.clock w.readings
      → covered last ps ≡ true
      → w.updater.stored.post_attempt_at ≡ t
      → store.attempt w.db ≡ t
      → w.updater.loaded ≡ true
      → Facts t true t (o.clock w.readings) (p ∷ ps)
      → Holds (after_post store o last r w)
  after_post-Holds t last (got ts) p ps w e es le le' cov own st ld h =
      rw (store.attempt-message w.updater.channel ts w.db, own, st, ld, es) h
  after_post-Holds t last (failed x) p ps w e es le le' cov own st ld h =
      elim (Bool-cases (not_posted x)) [
        | inl dead ↦
            rw (dead, ld, es)
              (Facts-cleared p (store.set_status_post_attempt last w.db).0
                (store.attempt (store.set_status_post_attempt last w.db).1) (rw e (ap not dead)) le
                le' cov (flip_written (write_lem last w.db)) h)
        | inr unsure ↦ rw (unsure, own, st, ld, es) h
      ]
    where
      flip_written :
          Written
            (store.attempt w.db)
            last
            (store.set_status_post_attempt last w.db).0
            (store.attempt (store.set_status_post_attempt last w.db).1)
          → Written t last
              (store.set_status_post_attempt last w.db).0
              (store.attempt (store.set_status_post_attempt last w.db).1)
      flip_written k = rw st at k

  held_back-Holds : (text : Text) (w : World S) → Holds w → Holds (held_back store o text w)
  held_back-Holds text w h =
      elim (Bool-cases (
        not (w.updater.stored.ts == "")
        && not (w.updater.stored.channel_id == w.updater.channel))) [
          | inl away ↦ rw away h
          | inr here ↦ rw here h
        ]

  pub post-Holds :
      (text : Text) (w : World S) → w.updater.loaded ≡ true → Holds w → Holds (post store o text w)
  unfolding post now tick send
  post-Holds text w ld h =
      elim (Bool-cases (capped (o.clock w.readings) w.updater.stored.post_attempt_at)) [
        | inl held ↦ rw held (held_back-Holds text (tick w) (Holds-tick w h))
        | inr free ↦ rw free (
            by_write free (store.set_status_post_attempt (o.clock w.readings) w.db).0
              (store.set_status_post_attempt (o.clock w.readings) w.db).1
              (write_lem (o.clock w.readings) w.db))
      ]
    where
      h' :
          Facts
            (store.attempt w.db)
            true
            w.updater.stored.post_attempt_at
            (o.clock w.readings)
            w.posts
      h' = rw ld at h

      by_write :
          capped (o.clock w.readings) w.updater.stored.post_attempt_at ≡ false
          → (r : Result (Unit {0})) (d : S)
          → Written (store.attempt w.db) (o.clock w.readings) r (store.attempt d)
          → Holds (
              stored_attempt store o
                (o.clock w.readings)
                w.updater.stored.post_attempt_at
                text
                r
                (record w { db = d; readings = suc w.readings }))
      by_write free (err e) d k = rw ld (
          Facts-unstored (o.clock w.readings) (o.clock (suc w.readings))
            w.updater.stored.post_attempt_at (store.attempt w.db) w.posts (mono w.readings) e
            (store.attempt d) k h')
      by_write free (ok tt) d k =
          let entry : Posting = record {
            at = o.clock w.readings;
            channel = w.updater.channel;
            reply = (send o.answers w.updater.channel "" text w.requests).0;
          } in
          after_post-Holds (o.clock w.readings) w.updater.stored.post_attempt_at entry.reply entry
            w.posts _ refl refl h.own_le (mono w.readings) (h.own_covers ld) refl k ld
            (Facts-asked (o.clock w.readings) (o.clock (suc w.readings))
              w.updater.stored.post_attempt_at (store.attempt w.db) w.posts (mono w.readings) entry
              refl (positive w.readings) free h')
