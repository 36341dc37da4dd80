-- ===== src/Cmd/Revoke/Exact.antt =====
-- cmd/revoke.go: a revocation that is reported has signed out its target, and no one else.
use mathlib.Core.Path.{subst}
use ynab_auto_categorizer.Prelude.{
  ℕ, String, Bool, not, ◌≡◌, refl, sym, inl, inr, Option, some, List, [], ◌∷◌, keep, ◌==◌,
  string_eq, if_intro, Result, ok, err, Bool-cases, arith,
}
use ynab_auto_categorizer.Scan.Redaction.{Text}
use ynab_auto_categorizer.Sql.{Session, exec, raise, next}
use ynab_auto_categorizer.Sql.Reads.{Reads}
use ynab_auto_categorizer.Mirror.Rows.{Time}
use ynab_auto_categorizer.Auth.Rows.{Auth, Kind}
use ynab_auto_categorizer.Auth.Generations.{all_users, bump, bump_generation}
use ynab_auto_categorizer.Auth.Active.{active_tokens}
use ynab_auto_categorizer.Auth.Active.Exact.{working, working_tokens, Reads-active_tokens}
use ynab_auto_categorizer.Auth.Active.Revoked.{passes, working-bump}
use ynab_auto_categorizer.Cmd.Revoke.{
  RevokeReply, usage, failed, revoked, counted, reply_of, sign_out, opened, targeted, revoke_target,
  revoke_cmd,
}

-- From the database `d` to `d'`.
pub record SignedOut (user : String) (count : Option ℕ) (now : Time) (d d' : Auth) : Type 0 where
  pub count_right : (n : ℕ) → count ≡ some n → n ≡ working_tokens user now d
  -- Of the tokens that worked before, those that work afterwards are those of the others.
  pub others_left :
      (kind : Kind) (t : Time)
      → keep (passes all_users d) (working all_users t kind d')
        ≡ keep (λ g. not (passes user d g)) (working all_users t kind d)

abbrev pub Answers : Time → Auth → RevokeReply × Session Auth → Type 0
Answers now d (usage, s) = s.db ≡ d
Answers now d (failed, s) = s.db ≡ d
Answers now d (revoked user count, s) = SignedOut user count now d s.db

abbrev Bumped : String → Auth → Result ℕ × Session Auth → Type 0
Bumped user d (ok n, s) = s.db ≡ (bump user d).1
Bumped user d (err e, s) = s.db ≡ d

Bumped-bump_generation :
    (user : String) (s : Session Auth) → Bumped user s.db (bump_generation user s)
unfolding bump_generation raise exec next
Bumped-bump_generation user s = elim (Bool-cases (user == "")) [
  | inl nobody ↦ rw nobody refl
  | inr named ↦ elim (Bool-cases (s.fault s.stmt)) [
    | inl bad ↦ rw (named, bad) refl
    | inr good ↦ rw (named, good) refl
  ]
]

Answers-sign_out :
    (user : String) (now : Time) (s : Session Auth) → Answers now s.db (sign_out user now s)
Answers-sign_out user now s =
    by_bump (active_tokens user now s).0 (λ n e. reads.found s n refl e) (bump_generation user t)
      (subst (λ d. Bumped user d (bump_generation user t)) (reads.same s refl)
        (Bumped-bump_generation user t))
  where
    reads : Reads s.db (active_tokens user now) (λ n. n ≡ working_tokens user now s.db)
    reads = Reads-active_tokens user now s.db

    t : Session Auth
    t = (active_tokens user now s).1

    by_bump :
        (c : Result ℕ)
        → ((n : ℕ) → c ≡ ok n → n ≡ working_tokens user now s.db)
        → (z : Result ℕ × Session Auth) → Bumped user s.db z
        → Answers now s.db (reply_of user (counted c) z.0, z.1)
    by_bump c right (err e, u) h = h
    by_bump c right (ok g, u) h = record {
      count_right = λ n e. by_count c right n e;
      others_left = λ kind at.
          subst
            (λ d.
              keep (passes all_users s.db) (working all_users at kind d)
              ≡ keep (λ g. not (passes user s.db g)) (working all_users at kind s.db))
            (sym h) (working-bump user at kind s.db);
    }
      where
        by_count :
            (c : Result ℕ)
            → ((n : ℕ) → c ≡ ok n → n ≡ working_tokens user now s.db)
            → (n : ℕ) → counted c ≡ some n
            → n ≡ working_tokens user now s.db
        by_count (ok m) right n e = right n (cc)
        by_count (err x) right n e = absurd (ground arith)

module _ (lower_rune : ℕ → ℕ) (digest : Text → String) where
  -- For any arguments and any faults, while nobody else writes: a revocation that is reported names how
  -- many tokens and codes of its target worked (unless it could not count them), and of all tokens and
  -- codes that worked before exactly those of the target work no more, then and at any time. A command
  -- that fails, or is not understood, has changed nothing.
  pub Answers-revoke_cmd :
      (args : List String) (exists : Bool) (opening : Result (Unit {0})) (now : Time)
      (s : Session Auth)
      → Answers now s.db (revoke_cmd lower_rune digest args exists opening now s)
  unfolding revoke_cmd
  Answers-revoke_cmd [] exists opening now s = refl
  Answers-revoke_cmd (a ∷ b ∷ args) exists opening now s = refl
  Answers-revoke_cmd (arg ∷ []) exists opening now s =
      by_target (revoke_target lower_rune digest arg)
    where
      by_opening : (user : String) (o : Result (Unit {0})) → Answers now s.db (opened o user now s)
      by_opening user (err e) = refl
      by_opening user (ok u) = Answers-sign_out user now s

      by_target : (r : Result String) → Answers now s.db (targeted r exists opening now s)
      by_target (err e) = refl
      by_target (ok user) =
          if_intro (Answers now s.db) exists (λ there. by_opening user opening) (λ gone. refl)
