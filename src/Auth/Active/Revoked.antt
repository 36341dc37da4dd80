-- ===== src/Auth/Active/Revoked.antt =====
-- auth/storage.go and auth/generations.go: which tokens still work after a revocation.
use ynab_auto_categorizer.Prelude.{
  ℕ, ◌<◌, ℤ, pos, negsuc, String, Bool, false, not, ◌&&◌, ◌||◌, ◌≡◌, refl, ap, ◌∙◌, inl, inr,
  Option, none, some, List, [], ◌∷◌, keep, ◌==◌, string_eq, Bool-cases, arith,
}
use ynab_auto_categorizer.Table.{rows}
use ynab_auto_categorizer.Mirror.Rows.{Time}
use ynab_auto_categorizer.Auth.Rows.{Auth, AuthSession, Grant, Kind, table}
use ynab_auto_categorizer.Auth.Generations.{all_users, issued, generation, bump}
use ynab_auto_categorizer.Auth.Generations.Laws.{generation-bump, generation-bump_other}
use ynab_auto_categorizer.Auth.Active.{is_live}
use ynab_auto_categorizer.Auth.Active.Exact.{is_of_now, works_for, working}

stale : (o : Option ℤ) (old new : ℕ) → old < new → (is_of_now o old && is_of_now o new) ≡ false
stale none old new h = refl
stale (some (pos n)) old new h = ground arith
stale (some (negsuc n)) old new h = refl

-- A session that works stops if it is the user's, and goes on if it is not.
stops_or_not :
    (user : String) (d : Auth) (o : Option AuthSession)
    → (works_for all_users d o && works_for all_users (bump user d).1 o)
      ≡ (works_for all_users d o && not (works_for user d o))
stops_or_not user d none = refl
stops_or_not user d (some s) = elim (Bool-cases (user == all_users || user == s.subject)) [
  | inl own ↦
      let later =
        generation-bump user s.subject d
          (ground (arith, string_eq.beq_iff user s.subject, string_eq.beq_iff user all_users)) in
      let old =
        stale (issued s.gen) (generation s.subject d) (generation s.subject (bump user d).1)
          later in
      ground (arith, old, string_eq.beq_iff user s.subject, string_eq.beq_iff s.subject user)
  | inr other ↦
      let same = generation-bump_other user s.subject d (ground arith) (ground arith) in
      rw same (ground (arith, string_eq.beq_iff user s.subject, string_eq.beq_iff s.subject user))
]

table-bump : (kind : Kind) (user : String) (d : Auth) → table kind (bump user d).1 ≡ table kind d
unfolding table bump
table-bump Kind.codes user d = refl
table-bump Kind.access user d = refl
table-bump Kind.refresh user d = refl
table-bump Kind.pkce user d = refl

keep-keep :
    (p q r : Grant → Bool)
    → ((g : Grant) → (p g && q g) ≡ (p g && not (r g)))
    → (gs : List Grant) → keep p (keep q gs) ≡ keep (λ g. not (r g)) (keep p gs)
keep-keep p q r h [] = refl
keep-keep p q r h (g ∷ gs) = ground (arith, h g, keep-keep p q r h gs)

abbrev pub passes : String → Auth → Grant → Bool
passes user d g = works_for user d g.request.session

pub working-bump :
    (user : String) (now : Time) (kind : Kind) (d : Auth)
    → keep (passes all_users d) (working all_users now kind (bump user d).1)
      ≡ keep (λ g. not (passes user d g)) (working all_users now kind d)
working-bump user now kind d =
    ap
      (λ t.
        keep (passes all_users d)
          (keep (passes all_users (bump user d).1) (keep (is_live now kind) (rows t))))
      (table-bump kind user d)
    ∙ keep-keep (passes all_users d) (passes all_users (bump user d).1) (passes user d)
        (λ g. stops_or_not user d g.request.session) (keep (is_live now kind) (rows (table kind d)))
