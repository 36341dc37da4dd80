-- ===== src/Ledger/Like.antt =====
-- store/transactions_read.go, escapeLike and the payee's LIKE condition. strings.ToLower comes from outside:
-- its tables are those of Unicode.
use ynab_auto_categorizer.Prelude.{
  ℕ, ◌<◌, Bool, true, false, ◌&&◌, ◌||◌, ◌≡◌, refl, ap, ◌∙◌, [], ◌∷◌, ◌++◌, map, all, ltb, nat_beq,
  if◌then◌else◌, arith, same_fold, lower, Bool-cases, inl, inr,
}
use ynab_auto_categorizer.Scan.Redaction.{Text}

abbrev pub escaped : ℕ → Text
escaped c = if nat_beq c 92 || nat_beq c 37 || nat_beq c 95 then 92 ∷ c ∷ [] else c ∷ []

unfoldable pub escape_like : Text → Text
escape_like [] = []
escape_like (c ∷ cs) = escaped c ++ escape_like cs

-- unicode.ToLower, which on ASCII lowers the letters and nothing else.
pub record Unicode : Type 0 where
  pub lower_rune : ℕ → ℕ
  pub on_ascii : (c : ℕ) → c < 128 → lower_rune c ≡ lower c

-- "%" + escapeLike(strings.ToLower(s)) + "%"
unfoldable pub pattern_of : ⦃u : Unicode⦄ → Text → Text
unfolding escape_like
pattern_of ⦃u⦄ s = 37 ∷ (escape_like (map u.lower_rune s) ++ 37 ∷ [])

abbrev ends : Text → Bool
ends [] = true
ends (x ∷ xs) = false

abbrev on_suffix : (Text → Bool) → Text → Bool
on_suffix k [] = k []
on_suffix k (x ∷ xs) = k (x ∷ xs) || on_suffix k xs

abbrev on_head : (ℕ → Bool) → (Text → Bool) → Text → Bool
on_head p k [] = false
on_head p k (x ∷ xs) = p x && k xs

-- SQLite's LIKE … ESCAPE '\'. The flag is set behind an escape. A pattern that ends in one matches
-- nothing.
unfoldable pub like_from : Bool → Text → Text → Bool
unfolding lower
like_from true [] xs = false
like_from true (c ∷ ps) xs = on_head (same_fold c) (like_from false ps) xs
like_from false [] xs = ends xs
like_from false (c ∷ ps) xs =
    let quoted = like_from true ps xs in
    let anything = on_suffix (like_from false ps) xs in
    let one = on_head (λ x. true) (like_from false ps) xs in
    let same = on_head (same_fold c) (like_from false ps) xs in
    if nat_beq c 92
    then quoted
    else if nat_beq c 37
    then anything
    else if nat_beq c 95
    then one
    else same

unfoldable pub like : Text → Text → Bool
unfolding like_from
like ps xs = like_from false ps xs

-- A text with the other one in it, whatever the case of ASCII letters.
abbrev pub begins : Text → Text → Bool
begins [] xs = true
begins (c ∷ cs) [] = false
begins (c ∷ cs) (x ∷ xs) = same_fold c x && begins cs xs

abbrev pub includes : Text → Text → Bool
includes s [] = begins s []
includes s (x ∷ xs) = begins s (x ∷ xs) || includes s xs

rest_matches : (xs : Text) → like_from false (37 ∷ []) xs ≡ true
unfolding like_from
rest_matches [] = refl
rest_matches (x ∷ xs) = ground (arith, rest_matches xs)

like_quoted :
    (c : ℕ) (ps xs : Text)
    → like_from false (92 ∷ c ∷ ps) xs ≡ on_head (same_fold c) (like_from false ps) xs
unfolding like_from
like_quoted c ps xs = refl

like_plain :
    (c : ℕ) (ps xs : Text)
    → (nat_beq c 92 || nat_beq c 37 || nat_beq c 95) ≡ false
    → like_from false (c ∷ ps) xs ≡ on_head (same_fold c) (like_from false ps) xs
unfolding like_from
like_plain c ps xs h =
    let escape : nat_beq c 92 ≡ false = ground arith in
    let percent : nat_beq c 37 ≡ false = ground arith in
    let underscore : nat_beq c 95 ≡ false = ground arith in rw (escape, percent, underscore) refl

on_head-begins :
    (c : ℕ) (cs : Text) (k : Text → Bool) (xs : Text)
    → ((ys : Text) → k ys ≡ begins cs ys)
    → on_head (same_fold c) k xs ≡ begins (c ∷ cs) xs
on_head-begins c cs k [] h = refl
on_head-begins c cs k (x ∷ xs) h = ap (λ b. same_fold c x && b) (h xs)

pub like-begins : (s xs : Text) → like_from false (escape_like s ++ 37 ∷ []) xs ≡ begins s xs
unfolding escape_like
like-begins [] xs = rest_matches xs
like-begins (c ∷ cs) xs = elim (Bool-cases (nat_beq c 92 || nat_beq c 37 || nat_beq c 95)) [
  | inl special ↦
      rw special
        (like_quoted c (escape_like cs ++ 37 ∷ []) xs ∙ on_head-begins c cs _ xs (like-begins cs))
  | inr plain ↦ rw plain (
      like_plain c (escape_like cs ++ 37 ∷ []) xs plain ∙ on_head-begins c cs _ xs (like-begins cs))
]

on_suffix-includes :
    (s : Text) (k : Text → Bool) (xs : Text)
    → ((ys : Text) → k ys ≡ begins s ys)
    → on_suffix k xs ≡ includes s xs
on_suffix-includes s k [] h = h []
on_suffix-includes s k (x ∷ xs) h = rw (h (x ∷ xs), on_suffix-includes s k xs h) refl

lower_twice : (c : ℕ) → lower (lower c) ≡ lower c
unfolding lower
lower_twice c = ground arith

abbrev pub is_ascii : ℕ → Bool
is_ascii c = ltb c 128

module _ ⦃u : Unicode⦄ where
  lowered_fold :
      (c x : ℕ) → is_ascii c ≡ true → same_fold (u.lower_rune c) (lower x) ≡ same_fold c x
  lowered_fold c x h = ground (arith, u.on_ascii c, lower_twice c, lower_twice x)

  lowered_begins :
      (s xs : Text)
      → all is_ascii s ≡ true
      → begins (map u.lower_rune s) (map lower xs) ≡ begins s xs
  lowered_begins [] xs h = refl
  lowered_begins (c ∷ cs) [] h = refl
  lowered_begins (c ∷ cs) (x ∷ xs) h =
      let own : is_ascii c ≡ true = ground arith in
      let rest : all is_ascii cs ≡ true = ground arith in
      rw (lowered_fold c x own, lowered_begins cs xs rest) refl

  lowered_includes :
      (s xs : Text)
      → all is_ascii s ≡ true
      → includes (map u.lower_rune s) (map lower xs) ≡ includes s xs
  lowered_includes s [] h = lowered_begins s [] h
  lowered_includes s (x ∷ xs) h = rw (lowered_begins s (x ∷ xs) h, lowered_includes s xs h) refl

  pub like-pattern_of :
      (s xs : Text) → all is_ascii s ≡ true → like (pattern_of s) (map lower xs) ≡ includes s xs
  unfolding like pattern_of like_from
  like-pattern_of s xs h =
      let p = map u.lower_rune s in
      on_suffix-includes p (like_from false (escape_like p ++ 37 ∷ [])) (map lower xs)
        (like-begins p)
      ∙ lowered_includes s xs h
