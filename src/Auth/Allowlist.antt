-- ===== src/Auth/Allowlist.antt =====
-- auth/allowlist.go: who may sign in. `lower_rune` is unicode.ToLower, `digest` the first 12 hex digits
-- of a text's SHA-256 behind "u_".
use ynab_auto_categorizer.Prelude.{
  ℕ, String, Bool, true, false, not, ◌&&◌, ◌≡◌, ◌↔◌, refl, List, [], ◌∷◌, map, any, nat_beq,
  if◌then◌else◌, arith,
}
use ynab_auto_categorizer.Scan.Redaction.{Text}
use ynab_auto_categorizer.Scan.Category.{trim_left, trim_right}

abbrev pub text_beq : Text → Text → Bool
text_beq [] [] = true
text_beq [] (d ∷ ds) = false
text_beq (c ∷ cs) [] = false
text_beq (c ∷ cs) (d ∷ ds) = nat_beq c d && text_beq cs ds

pub text_beq_iff : (s t : Text) → (text_beq s t ≡ true) ↔ (s ≡ t)
text_beq_iff [] [] = (λ h. refl, λ h. refl)
text_beq_iff [] (d ∷ ds) = (λ h. ground arith, λ h. ground arith)
text_beq_iff (c ∷ cs) [] = (λ h. ground arith, λ h. ground arith)
text_beq_iff (c ∷ cs) (d ∷ ds) =
    let ih = text_beq_iff cs ds in (λ h. ground (arith, ih.0), λ h. ground (arith, ih.1))

-- strings.Split(s, ","): the first piece, and the others.
unfoldable pub split : Text → Text × List Text
split [] = ([], [])
split (c ∷ cs) =
    let (first, rest) = split cs in if nat_beq c 44 then ([], first ∷ rest) else (c ∷ first, rest)

abbrev is_nonempty : Text → Bool
is_nonempty [] = false
is_nonempty (c ∷ cs) = true

-- ErrEmailUnverified and ErrNotAllowlisted
pub data Verdict : Type 0 where
  admitted email_unverified not_allowlisted : Verdict

module _ (lower_rune : ℕ → ℕ) where
  unfoldable pub normalize_email : Text → Text
  normalize_email e = map lower_rune (trim_right (trim_left e))

  abbrev kept : Text → List Text → List Text
  kept e rest = if is_nonempty e then e ∷ rest else rest

  unfoldable pub normalize_all : List Text → List Text
  unfolding normalize_email
  normalize_all [] = []
  normalize_all (e ∷ es) = kept (normalize_email e) (normalize_all es)

  unfoldable pub parse_allowlist : Text → List Text
  unfolding split normalize_all
  parse_allowlist s = let (first, rest) = split s in normalize_all (first ∷ rest)

  unfoldable pub check : List Text → Text → Bool → Verdict
  unfolding normalize_email
  check allowed email verified =
      if not verified
      then email_unverified
      else if any (text_beq (normalize_email email)) allowed
      then admitted
      else not_allowlisted

  abbrev pub user_id : (Text → String) → Text → String
  user_id digest email = digest (normalize_email email)
