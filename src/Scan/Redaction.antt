-- ===== src/Scan/Redaction.antt =====
-- sync/mirror.go, uuidRE: ids are taken out of an error's text. A text is the list of its code points.
pub mod Exact
use ynab_auto_categorizer.Prelude.{
  ℕ, zero, suc, Bool, true, false, not, ◌&&◌, ◌||◌, ◌≡◌, refl, List, [], ◌∷◌, ◌++◌, leb, nat_beq,
  arith, if◌then◌else◌, Bool-cases, inl, inr, and_intro, and_left, and_right, ap, all,
}

abbrev pub Text : Type 0
Text = List ℕ

-- [0-9a-f], in either case
abbrev pub is_hex : ℕ → Bool
is_hex c = (leb 48 c && leb c 57) || (leb 97 c && leb c 102) || (leb 65 c && leb c 70)

abbrev pub is_dash : ℕ → Bool
is_dash c = nat_beq c 45

-- One test for each character of an id.
abbrev pub times : ℕ → (ℕ → Bool) → List (ℕ → Bool) → List (ℕ → Bool)
times zero p ps = ps
times (suc n) p ps = p ∷ times n p ps

abbrev pub after_eight : List (ℕ → Bool)
after_eight =
    is_dash
    ∷ times 4 is_hex
        (is_dash ∷ times 4 is_hex (is_dash ∷ times 4 is_hex (is_dash ∷ times 12 is_hex [])))

abbrev pub id_pattern : List (ℕ → Bool)
id_pattern = times 8 is_hex after_eight

-- Whether a text starts with what the tests ask for.
unfoldable pub fits : List (ℕ → Bool) → Text → Bool
fits [] xs = true
fits (p ∷ ps) [] = false
fits (p ∷ ps) (x ∷ xs) = p x && fits ps xs

-- "{id}"
abbrev pub placeholder : Text
placeholder = 123 ∷ 105 ∷ 100 ∷ 125 ∷ []

-- ReplaceAllString from the left; the first number is how many characters of a match are left to skip.
unfoldable pub redact_from : ℕ → Text → Text
redact_from n [] = []
redact_from (suc n) (x ∷ xs) = redact_from n xs
redact_from zero (x ∷ xs) =
    let kept = redact_from zero xs in
    let dropped = redact_from 35 xs in
    if fits id_pattern (x ∷ xs) then placeholder ++ dropped else x ∷ kept

unfoldable pub redact : Text → Text
unfolding redact_from
redact xs = redact_from 0 xs

-- The text has an id at no place.
abbrev pub has_no_id : Text → Bool
has_no_id [] = true
has_no_id (x ∷ xs) = not (fits id_pattern (x ∷ xs)) && has_no_id xs

-- Tests that a brace does not pass.
abbrev rejects_brace : List (ℕ → Bool) → Bool
rejects_brace ps = all (λ p. not (p 123)) ps

-- What a redacted text starts with, the text started with.
fits-redact_from :
    (ps : List (ℕ → Bool)) (xs : Text)
    → rejects_brace ps ≡ true
    → fits ps (redact_from 0 xs) ≡ true
    → fits ps xs ≡ true
unfolding fits redact_from
fits-redact_from [] xs r h = refl
fits-redact_from (p ∷ ps) [] r h = h
fits-redact_from (p ∷ ps) (x ∷ xs) r h =
    by_match (fits id_pattern (x ∷ xs)) h (fits-redact_from ps xs (and_right _ r))
  where
    by_match :
        (b : Bool)
        → fits (p ∷ ps) (if b then placeholder ++ redact_from 35 xs else x ∷ redact_from 0 xs)
          ≡ true
        → (fits ps (redact_from 0 xs) ≡ true → fits ps xs ≡ true)
        → (p x && fits ps xs) ≡ true
    by_match true h k = ground arith
    by_match false h k = and_intro (and_left _ h) (k (and_right _ h))

conflict : (b : Bool) → b ≡ false → b ≡ true → ⊥
conflict b h k = ground arith

no_id_after :
    (x : ℕ) (xs : Text)
    → fits id_pattern (x ∷ xs) ≡ false
    → fits id_pattern (x ∷ redact_from 0 xs) ≡ false
unfolding fits
no_id_after x xs h = elim (Bool-cases (fits id_pattern (x ∷ redact_from 0 xs))) [
  | inl found ↦ absurd (
      conflict _ h (
        and_intro (and_left _ found)
          (fits-redact_from (times 7 is_hex after_eight) xs refl (and_right (is_hex x) found))))
  | inr none ↦ none
]

has_no_id-redact_from : (n : ℕ) (xs : Text) → has_no_id (redact_from n xs) ≡ true
unfolding redact_from fits
has_no_id-redact_from n [] = refl
has_no_id-redact_from (suc n) (x ∷ xs) = has_no_id-redact_from n xs
has_no_id-redact_from zero (x ∷ xs) = elim (Bool-cases (fits id_pattern (x ∷ xs))) [
  | inl found ↦ rw found (has_no_id-redact_from 35 xs)
  | inr other ↦ rw other (and_intro (ap not (no_id_after x xs other)) (has_no_id-redact_from 0 xs))
]

-- Redaction is complete: at no place does a redacted text read as an id.
pub has_no_id-redact : (xs : Text) → has_no_id (redact xs) ≡ true
unfolding redact
has_no_id-redact xs = has_no_id-redact_from 0 xs
