-- ===== src/Auth/Steps/Revoked.antt =====
-- auth/generations.go: a revoked session stays revoked, whatever happens later.
use mathlib.Core.Path.{subst}
use ynab_auto_categorizer.Prelude.{
  ℕ, ◌<◌, ℤ, String, true, false, ◌≡◌, refl, sym, ◌⊎◌, inl, inr, Option, some, Result, ok, revoked,
  not_found, arith, Bool-cases, ◌==◌, string_eq,
}
use ynab_auto_categorizer.Sql.{Session, ◌>>=◌, pure, exec, raise, query, continue, next}
use ynab_auto_categorizer.Sql.Outcomes.{Refused}
use ynab_auto_categorizer.Table.{find}
use ynab_auto_categorizer.Auth.Rows.{Auth, AuthSession, Grant, Kind, table}
use ynab_auto_categorizer.Auth.Generations.{
  all_users, generation, bump_generation, issued, is_current, check_session, check_issued,
  current_generation,
}
use ynab_auto_categorizer.Auth.Generations.Laws.{
  generation-Later, generation-bump, is_current_stale,
}
use ynab_auto_categorizer.Auth.Storage.{
  load, load_row, hide_revoked, hidden, found_client, with_client,
}
use ynab_auto_categorizer.Auth.Steps.Counters.{Later-Reach}
use ynab_auto_categorizer.Auth.Steps.{Reach, any_op}

-- A session whose generation is not the current one is refused, or the check itself fails.
pub check_stale :
    (sess : AuthSession) (v : ℤ) (σ : Session Auth)
    → issued sess.gen ≡ some v
    → is_current v (generation sess.subject σ.db) ≡ false
    → Refused revoked (check_session (some sess) σ).0
unfolding check_session check_issued current_generation query exec raise pure ◌>>=◌ next
check_stale sess v σ h k = elim (Bool-cases (sess.subject == "")) [
  | inl nobody ↦ rw nobody (inl refl)
  | inr named ↦
      rw (named, h)
        (elim (Bool-cases (σ.fault σ.stmt)) [
          | inl bad ↦ rw bad (inr refl)
          | inr good ↦ rw (good, k) (inl refl)
        ])
]

-- The check passes its refusal on as "not found".
load_stale :
    (g : Grant) (sess : AuthSession) (v : ℤ) (σ : Session Auth)
    → g.request.session ≡ some sess
    → issued sess.gen ≡ some v
    → is_current v (generation sess.subject σ.db) ≡ false
    → Refused not_found (load_row (some g) σ).0
unfolding load_row hide_revoked ◌>>=◌
load_stale g sess v σ own h k =
    refused (check_session g.request.session σ).0 (check_session g.request.session σ).1
      (carried g.request.session own)
  where
    carried : (o : Option AuthSession) → o ≡ some sess → Refused revoked (check_session o σ).0
    carried o e = rw e (check_stale sess v σ h k)

    refused :
        (r : Result (Unit {0})) (s : Session Auth)
        → Refused revoked r
        → Refused not_found
            (continue
              (hidden r)
              (λ _. found_client g.request.client_id >>= λ c. with_client g.request g.active c)
              s).0
    refused r s (inl e) = rw e (inl refl)
    refused r s (inr e) = rw e (inr refl)

load_found :
    (kind : Kind) (signature : String) (g : Grant) (σ : Session Auth)
    → find signature (table kind σ.db) ≡ some g
    → Refused not_found (load_row (some g) (next σ)).0
    → Refused not_found (load kind signature σ).0
unfolding load query exec ◌>>=◌
load_found kind signature g σ here h = elim (Bool-cases (σ.fault σ.stmt)) [
  | inl bad ↦ rw bad (inr refl)
  | inr good ↦ rw (good, here) h
]

pub bumped_above :
    (user v : String) (n : ℕ) (σ : Session Auth)
    → (user ≡ v) ⊎ (user ≡ all_users)
    → (bump_generation user σ).0 ≡ ok n
    → generation v σ.db < generation v (bump_generation user σ).1.db
unfolding bump_generation raise exec
bumped_above user v n σ which = elim (Bool-cases (user == "")) [
  | inl nobody ↦ rw nobody (λ e. ground arith)
  | inr named ↦ elim (Bool-cases (σ.fault σ.stmt)) [
    | inl bad ↦ rw (named, bad) (λ e. ground arith)
    | inr good ↦ rw (named, good) (λ e. generation-bump user v σ.db which)
  ]
]

-- A revocation is final. Let a session carry the generation that was current for its subject in
-- some database, let any operations of the storage follow that database, and then let BumpGeneration
-- succeed for that subject or for all users. After any further operations, under any faults, loading
-- a token or a code of that session gives "not found", or fails with an error of the driver.
pub revoked_forever :
    (user : String) (sess : AuthSession) (v : ℤ) (n : ℕ) (before d : Auth) (σ : Session Auth)
    → issued sess.gen ≡ some v
    → is_current v (generation sess.subject before) ≡ true
    → Reach any_op before σ.db
    → (user ≡ sess.subject) ⊎ (user ≡ all_users)
    → (bump_generation user σ).0 ≡ ok n
    → Reach any_op (bump_generation user σ).1.db d
    → (kind : Kind) (signature : String) (g : Grant) (σ' : Session Auth) → σ'.db ≡ d
    → find signature (table kind d) ≡ some g
    → g.request.session ≡ some sess
    → Refused not_found (load kind signature σ').0
unfolding next
revoked_forever user sess v n before d σ says was r which revoked_ok r' kind signature g σ' now here
      own =
    load_found kind signature g σ'
      (subst (λ x. find signature (table kind x) ≡ some g) (sym now) here)
      (load_stale g sess v (next σ') own says (
        is_current_stale v (generation sess.subject before) (generation sess.subject σ'.db) was
          above))
  where
    above : generation sess.subject before < generation sess.subject σ'.db
    above = rw now (
        omega (
          arith,
          generation-Later sess.subject (Later-Reach r),
          bumped_above user sess.subject n σ which revoked_ok,
          generation-Later sess.subject (Later-Reach r'),
        ))
