-- ===== src/Sync/Tick/Success.antt =====
-- sync/sync.go, SyncPlan: a tick whose requests are answered commits.
use mathlib.Core.Path.{subst}
use ynab_auto_categorizer.Prelude.{
  ℤ, String, Bool, true, not, ◌≡◌, refl, ◌∙◌, sym, ap, Option, none, Error, Result, ok, err,
  is_some, arith, Bool-cases, inl, inr, string_eq, pair_eq,
}
use ynab_auto_categorizer.Sql.{Session}
use ynab_auto_categorizer.Sql.Refines.{IsCalm}
use ynab_auto_categorizer.Table.{find}
use ynab_auto_categorizer.Mirror.{Mirror, keys_hold}
use ynab_auto_categorizer.Ynab.Api.{PlanDetail}
use ynab_auto_categorizer.Sync.Mapping.{map_plan}
use ynab_auto_categorizer.Sync.Stitch.Plain.{stitched}
use ynab_auto_categorizer.Sync.Tick.{Syncer, Tick, skippable, skipped_tick, fetch, sync_plan}
use ynab_auto_categorizer.Sync.Tick.Plain.{ticked, synced, report, new_events, Refines-sync_plan}
use ynab_auto_categorizer.Sync.Tick.Applied.{
  after_tick, keys_hold-after_tick, applied_commits, applied_inv,
}

-- What the network answered to the request of the tick.
abbrev pub answer : Syncer → String → Mirror → Result (Option PlanDetail × ℤ)
answer s plan m = fetch (s.client plan) (find plan m.sync_state)

abbrev pub first_tick : String → Mirror → Bool
first_tick plan m = not (is_some (find plan m.sync_state))

synced-answered :
    (s : Syncer) (plan : String) (m : Mirror) (detail : Option PlanDetail) (sk : ℤ)
    → keys_hold m ≡ true
    → s.before_cursor ≡ none
    → answer s plan m ≡ ok (detail, sk)
    → synced s plan m ≡ (
      ok (
          report
            (first_tick plan m)
            plan
            sk
            (stitched plan (map_plan detail) m)
            (new_events (first_tick plan m) plan (stitched plan (map_plan detail) m).1 m)),
      after_tick s plan m detail sk,
    )
unfolding synced ticked
synced-answered s plan m detail sk keys hook answered =
    rw answered (applied_commits s plan m detail sk (first_tick plan m) hook keys)

-- How a tick that returns a report ended.
pub data Ended (s : Syncer) (plan : String) (m : Mirror) (t : Tick) (m' : Mirror) : Type 0 where
  skip :
      (e : Error)
      → answer s plan m ≡ err e
      → skippable e ≡ true
      → t ≡ skipped_tick (first_tick plan m)
      → m' ≡ m
      → Ended s plan m t m'
  commit :
      (detail : Option PlanDetail) (sk : ℤ)
      → answer s plan m ≡ ok (detail, sk)
      → t
        ≡ report
            (first_tick plan m)
            plan
            sk
            (stitched plan (map_plan detail) m)
            (new_events (first_tick plan m) plan (stitched plan (map_plan detail) m).1 m)
      → m' ≡ after_tick s plan m detail sk
      → keys_hold m' ≡ true
      → Ended s plan m t m'

pub committed_db :
    (s : Syncer) (plan : String) (m m' : Mirror) (t : Tick) (detail : Option PlanDetail) (sk : ℤ)
    → answer s plan m ≡ ok (detail, sk)
    → Ended s plan m t m'
    → m' ≡ after_tick s plan m detail sk
committed_db s plan m m' t detail sk a (Ended.skip e b c d f) = absurd (ground arith)
committed_db s plan m m' t detail sk a (Ended.commit detail' sk' b c d k) = ground arith

pub committed_report :
    (s : Syncer) (plan : String) (m m' : Mirror) (t : Tick) (detail : Option PlanDetail) (sk : ℤ)
    → answer s plan m ≡ ok (detail, sk)
    → Ended s plan m t m'
    → t
      ≡ report
          (first_tick plan m)
          plan
          sk
          (stitched plan (map_plan detail) m)
          (new_events (first_tick plan m) plan (stitched plan (map_plan detail) m).1 m)
committed_report s plan m m' t detail sk a (Ended.skip e b c d f) = absurd (ground arith)
committed_report s plan m m' t detail sk a (Ended.commit detail' sk' b c d k) = ground arith

ticked_ends :
    (s : Syncer) (plan : String) (m : Mirror) (r : Result (Option PlanDetail × ℤ)) (t : Tick)
    → answer s plan m ≡ r
    → (ticked s plan (first_tick plan m) r m).0 ≡ ok t
    → Ended s plan m t (ticked s plan (first_tick plan m) r m).1
unfolding ticked
ticked_ends s plan m (ok (detail, sk)) t a h =
    let inv = applied_inv s plan m detail sk (first_tick plan m) t h in
    commit detail sk a inv.0 inv.1 (ap keys_hold inv.1 ∙ inv.2)
ticked_ends s plan m (err e) t a h = elim (Bool-cases (skippable e)) [
  | inl yes_ ↦ skip e a yes_ (ground arith) (ground arith)
  | inr no_ ↦ absurd (ground arith)
]

module _ (s : Syncer) (plan : String) (σ : Session Mirror) where
  -- A tick whose request is answered commits: if no statement fails, the foreign keys hold before and
  -- there is no hook, then SyncPlan returns the report, and the mirror holds the stitched batch and
  -- the new cursor. So an orphan never makes the commit fail.
  pub answered_tick_commits :
      (detail : Option PlanDetail) (sk : ℤ)
      → IsCalm σ
      → keys_hold σ.db ≡ true
      → s.before_cursor ≡ none
      → answer s plan σ.db ≡ ok (detail, sk)
      → let st = stitched plan (map_plan detail) σ.db in
        let initial = not (is_some (find plan σ.db.sync_state)) in
        ((sync_plan s plan σ).0
          ≡ ok (report initial plan sk st (new_events initial plan st.1 σ.db)))
        × ((sync_plan s plan σ).1.db ≡ after_tick s plan σ.db detail sk)
        × (keys_hold (sync_plan s plan σ).1.db ≡ true)
  answered_tick_commits detail sk calm keys hook answered =
      let run = (Refines-sync_plan s plan).calm σ calm in
      let spec = synced-answered s plan σ.db detail sk keys hook answered in
      let db = run.1 ∙ ap (λ p. p.1) spec in
      (
        run.0 ∙ ap (λ p. p.0) spec,
        db,
        ap keys_hold db ∙ keys_hold-after_tick s plan σ.db detail sk keys,
      )

  -- Whatever statements fail: if SyncPlan returns a report, then either the request failed with no
  -- budget left or with a 429 and the mirror is unchanged, or the answer was committed whole, rows
  -- and cursor, with the foreign keys holding.
  pub reported_tick_ends :
      (t : Tick) → (sync_plan s plan σ).0 ≡ ok t → Ended s plan σ.db t (sync_plan s plan σ).1.db
  reported_tick_ends t h = elim ((Refines-sync_plan s plan).exact σ) [
    | inl failed ↦ absurd (ground arith)
    | inr (same, db) ↦
        subst (Ended s plan σ.db t) (sym db)
          (unfold synced in ticked_ends s plan σ.db (answer s plan σ.db) t refl (sym same ∙ h))
  ]
