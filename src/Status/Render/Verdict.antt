-- ===== src/Status/Render/Verdict.antt =====
-- status/status.go, state, beside cmd/health.go: the two verdicts agree.
use ynab_auto_categorizer.Prelude.{
  Bool, true, false, not, ◌&&◌, ◌||◌, ◌≡◌, ◌↔◌, List, any, nat_beq, arith,
}
use ynab_auto_categorizer.Mirror.Rows.{Time}
use ynab_auto_categorizer.Cmd.Health.{Health, serve}
use ynab_auto_categorizer.Status.Store.{AccountImport}
use ynab_auto_categorizer.Status.Render.{Config, Updater, failing, degraded, fine, state, is_empty}

-- Something needs attention: the latest sync failed, the latest backup failed, or an account's link is
-- in error.
abbrev pub troubled : Updater → List AccountImport → Bool
troubled u accounts =
    not (is_empty u.last_sync_err)
    || (not (nat_beq u.stored.backup_at 0) && not u.stored.backup_ok)
    || any (λ a. a.in_error) accounts

-- Where the updater and Health know the same last success and have the same StaleAfter: the message
-- says "failing" exactly when /healthz answers 503, "degraded" exactly when it answers 200 while
-- something needs attention, and "OK" exactly when it answers 200 and nothing does.
pub state-serve :
    (cfg : Config) (u : Updater) (h : Health) (now : Time) (accounts : List AccountImport)
    → h.last_ok ≡ u.last_sync_ok
    → h.stale_after ≡ cfg.stale_after
    → ((state cfg u now accounts ≡ failing) ↔ ((serve now h).status ≡ 503))
      × ((state cfg u now accounts ≡ degraded)
          ↔ (((serve now h).status ≡ 200) × (troubled u accounts ≡ true)))
      × ((state cfg u now accounts ≡ fine)
          ↔ (((serve now h).status ≡ 200) × (troubled u accounts ≡ false)))
unfolding state serve
state-serve cfg u h now accounts e s = (
  (λ k. ground arith, λ k. ground arith),
  (λ k. ground arith, λ k. ground arith),
  (λ k. ground arith, λ k. ground arith),
)
