-- ===== src/Cmd/Revoke.antt =====
-- cmd/revoke.go: `finbot revoke`. `lower_rune` and `digest` are those of the allowlist; whether the file
-- is there and what opening it gives come from outside.
pub mod Exact
use ynab_auto_categorizer.Prelude.{
  ℕ, zero, suc, String, Bool, true, false, not, ◌&&◌, ◌||◌, Option, none, some, List, [], ◌∷◌, any,
  leb, nat_beq, codes, ◌==◌, string_eq, if◌then◌else◌, Result, ok, err, bad_request,
}
use ynab_auto_categorizer.Scan.Redaction.{Text}
use ynab_auto_categorizer.Sql.{Session}
use ynab_auto_categorizer.Mirror.Rows.{Time}
use ynab_auto_categorizer.Auth.Rows.{Auth}
use ynab_auto_categorizer.Auth.Generations.{all_users, bump_generation}
use ynab_auto_categorizer.Auth.Active.{active_tokens}
use ynab_auto_categorizer.Auth.Allowlist.{user_id}

abbrev pub is_hex : ℕ → Bool
is_hex c = leb 48 c && leb c 57 || leb 97 c && leb c 102

-- [0-9a-f]{n}$
abbrev pub is_hexes : ℕ → Text → Bool
is_hexes zero [] = true
is_hexes zero (c ∷ cs) = false
is_hexes (suc n) [] = false
is_hexes (suc n) (c ∷ cs) = is_hex c && is_hexes n cs

-- subjectRE
unfoldable pub is_subject : Text → Bool
is_subject [] = false
is_subject (c ∷ []) = false
is_subject (c ∷ d ∷ ds) = nat_beq c 117 && nat_beq d 95 && is_hexes 12 ds

abbrev pub has_dash : Text → Bool
has_dash [] = false
has_dash (c ∷ cs) = nat_beq c 45

-- The exit codes are 2, 1 and 0. A count that failed is left out of the line.
pub data RevokeReply : Type 0 where
  usage failed : RevokeReply
  revoked : String → Option ℕ → RevokeReply

abbrev pub counted : Result ℕ → Option ℕ
counted (ok n) = some n
counted (err e) = none

abbrev pub reply_of : String → Option ℕ → Result ℕ → RevokeReply
reply_of user count (ok gen) = revoked user count
reply_of user count (err e) = failed

abbrev pub sign_out : String → Time → Session Auth → RevokeReply × Session Auth
sign_out user now s =
    let (count, s') = active_tokens user now s in
    let (r, s'') = bump_generation user s' in (reply_of user (counted count) r, s'')

abbrev pub opened : Result (Unit {0}) → String → Time → Session Auth → RevokeReply × Session Auth
opened (err e) user now s = (failed, s)
opened (ok u) user now s = sign_out user now s

abbrev pub targeted :
    Result String → Bool → Result (Unit {0}) → Time → Session Auth → RevokeReply × Session Auth
targeted (err e) exists opening now s = (usage, s)
targeted (ok user) exists opening now s = if exists then opened opening user now s else (failed, s)

module _ (lower_rune : ℕ → ℕ) (digest : Text → String) where
  unfoldable pub revoke_target : String → Result String
  unfolding is_subject codes
  revoke_target arg =
      if arg == "--all"
      then ok all_users
      else if is_subject (codes arg)
      then ok arg
      else if has_dash (codes arg) || not (any (λ c. nat_beq c 64) (codes arg))
      then err bad_request
      else ok (user_id lower_rune digest (codes arg))

  unfoldable pub revoke_cmd :
      List String → Bool → Result (Unit {0}) → Time → Session Auth → RevokeReply × Session Auth
  unfolding revoke_target
  revoke_cmd (arg ∷ []) exists opening now s = targeted (revoke_target arg) exists opening now s
  revoke_cmd args exists opening now s = (usage, s)
