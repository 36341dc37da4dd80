-- ===== src/Scan/Redaction/Exact.antt =====
-- sync/mirror.go, uuidRE: the redaction against a description of ids that does not use the pattern.
use mathlib.Core.Path.{subst}
use ynab_auto_categorizer.Prelude.{
  ℕ, zero, suc, ◌+◌, ◌≤◌, Bool, true, false, not, ◌&&◌, ◌≡◌, refl, ap, sym, ◌∙◌, ◌⊎◌, inl, inr,
  List, [], ◌∷◌, ◌++◌, drop, Bool-cases, arith, and_right,
}
use ynab_auto_categorizer.Scan.Redaction.{
  Text, is_hex, is_dash, times, after_eight, id_pattern, fits, placeholder, redact_from, redact,
  has_no_id, has_no_id-redact,
}

abbrev IsDigit : ℕ → Type 0
IsDigit c = ((48 ≤ c) × (c ≤ 57)) ⊎ (((97 ≤ c) × (c ≤ 102)) ⊎ ((65 ≤ c) × (c ≤ 70)))

-- So many hexadecimal digits lead from one text to the rest of it.
pub data Digits : ℕ → Text → Text → Type 0 where
  end : (xs : Text) → Digits 0 xs xs
  digit : (n c : ℕ) (xs rest : Text) → IsDigit c → Digits n xs rest → Digits (suc n) (c ∷ xs) rest

-- A text starts with an id, which is 8, 4, 4, 4 and 12 digits with dashes between, and the rest follows.
pub record StartsWithId (xs rest : Text) : Type 0 where
  pub a : Text
  pub b : Text
  pub c : Text
  pub d : Text
  pub first : Digits 8 xs (45 ∷ a)
  pub second : Digits 4 a (45 ∷ b)
  pub third : Digits 4 b (45 ∷ c)
  pub fourth : Digits 4 c (45 ∷ d)
  pub fifth : Digits 12 d rest

-- From the left, each id becomes "{id}", and a character at which no id starts stays.
pub data Redacted : Text → Text → Type 0 where
  nothing : Redacted [] []
  replaced :
      (xs rest out : Text)
      → StartsWithId xs rest
      → Redacted rest out
      → Redacted xs (placeholder ++ out)
  kept :
      (x : ℕ) (xs out : Text)
      → ((rest : Text) → ¬ (StartsWithId (x ∷ xs) rest))
      → Redacted xs out
      → Redacted (x ∷ xs) (x ∷ out)

is_hex-IsDigit : (c : ℕ) → is_hex c ≡ true → IsDigit c
is_hex-IsDigit c h = ground arith

IsDigit-is_hex : (c : ℕ) → IsDigit c → is_hex c ≡ true
IsDigit-is_hex c h = ground arith

-- What a part of the pattern says of a text.
fits-Digits :
    (n : ℕ) (ps : List (ℕ → Bool)) (xs : Text)
    → fits (times n is_hex ps) xs ≡ true
    → Digits n xs (drop n xs) × (fits ps (drop n xs) ≡ true)
unfolding fits
fits-Digits zero ps xs h = (end xs, h)
fits-Digits (suc n) ps [] h = absurd (ground arith)
fits-Digits (suc n) ps (x ∷ xs) h =
    let own : is_hex x ≡ true = ground arith in
    let rest : fits (times n is_hex ps) xs ≡ true = ground arith in
    let ih = fits-Digits n ps xs rest in
    (digit n x xs (drop n xs) (is_hex-IsDigit x own) ih.0, ih.1)

fits-dash :
    (ps : List (ℕ → Bool)) (xs : Text)
    → fits (is_dash ∷ ps) xs ≡ true
    → (xs ≡ 45 ∷ drop 1 xs) × (fits ps (drop 1 xs) ≡ true)
unfolding fits
fits-dash ps [] h = absurd (ground arith)
fits-dash ps (x ∷ xs) h = ground arith

Digits-fits :
    (n : ℕ) (ps : List (ℕ → Bool)) (xs rest : Text)
    → Digits n xs rest
    → fits (times n is_hex ps) xs ≡ fits ps rest
unfolding fits
Digits-fits n ps xs rest (Digits.end ys) = refl
Digits-fits n ps xs rest (Digits.digit k c ys zs own ds) =
    ap (λ b. b && fits (times k is_hex ps) ys) (IsDigit-is_hex c own) ∙ Digits-fits k ps ys zs ds

-- The pattern from each dash on.
abbrev last_groups : ℕ → List (ℕ → Bool)
last_groups zero = is_dash ∷ times 12 is_hex []
last_groups (suc n) = is_dash ∷ times 4 is_hex (last_groups n)

StartsWithId-fits : (xs rest : Text) → StartsWithId xs rest → fits id_pattern xs ≡ true
unfolding fits
StartsWithId-fits xs rest s =
    Digits-fits 8 (last_groups 3) xs (45 ∷ s.a) s.first
    ∙ Digits-fits 4 (last_groups 2) s.a (45 ∷ s.b) s.second
    ∙ Digits-fits 4 (last_groups 1) s.b (45 ∷ s.c) s.third
    ∙ Digits-fits 4 (last_groups 0) s.c (45 ∷ s.d) s.fourth
    ∙ Digits-fits 12 [] s.d rest s.fifth

drop_nil : (n : ℕ) → drop {A = ℕ} n [] ≡ []
drop_nil zero = refl
drop_nil (suc n) = refl

drop-drop : (m n : ℕ) (xs : Text) → drop n (drop m xs) ≡ drop (m + n) xs
drop-drop zero n xs = ap (λ k. drop k xs) (omega arith)
drop-drop (suc m) n [] = drop_nil n ∙ sym (drop_nil (suc m + n))
drop-drop (suc m) n (x ∷ xs) =
    drop-drop m n xs ∙ ap (λ k. drop k (x ∷ xs)) {x = suc (m + n)} (omega arith)

drop_groups :
    (xs : Text)
    → drop 12 (drop 1 (drop 4 (drop 1 (drop 4 (drop 1 (drop 4 (drop 1 (drop 8 xs))))))))
      ≡ drop 36 xs
drop_groups xs = simp (drop-drop)

fits-StartsWithId : (xs : Text) → fits id_pattern xs ≡ true → StartsWithId xs (drop 36 xs)
fits-StartsWithId xs h =
    let g1 = fits-Digits 8 after_eight xs h in
    let d1 = fits-dash _ (drop 8 xs) g1.1 in
    let g2 = fits-Digits 4 _ (drop 1 (drop 8 xs)) d1.1 in
    let d2 = fits-dash _ (drop 4 (drop 1 (drop 8 xs))) g2.1 in
    let g3 = fits-Digits 4 _ (drop 1 (drop 4 (drop 1 (drop 8 xs)))) d2.1 in
    let d3 = fits-dash _ (drop 4 (drop 1 (drop 4 (drop 1 (drop 8 xs))))) g3.1 in
    let g4 = fits-Digits 4 _ (drop 1 (drop 4 (drop 1 (drop 4 (drop 1 (drop 8 xs)))))) d3.1 in
    let d4 = fits-dash _ (drop 4 (drop 1 (drop 4 (drop 1 (drop 4 (drop 1 (drop 8 xs))))))) g4.1 in
    let g5 =
      fits-Digits 12 [] (drop 1 (drop 4 (drop 1 (drop 4 (drop 1 (drop 4 (drop 1 (drop 8 xs))))))))
        d4.1 in
    subst (StartsWithId xs) (drop_groups xs) (record {
      a = drop 1 (drop 8 xs);
      b = drop 1 (drop 4 (drop 1 (drop 8 xs)));
      c = drop 1 (drop 4 (drop 1 (drop 4 (drop 1 (drop 8 xs)))));
      d = drop 1 (drop 4 (drop 1 (drop 4 (drop 1 (drop 4 (drop 1 (drop 8 xs)))))));
      first = subst (Digits 8 xs) d1.0 g1.0;
      second = subst (Digits 4 _) d2.0 g2.0;
      third = subst (Digits 4 _) d3.0 g3.0;
      fourth = subst (Digits 4 _) d4.0 g4.0;
      fifth = g5.0;
    })

Redacted-redact_from : (n : ℕ) (xs : Text) → Redacted (drop n xs) (redact_from n xs)
unfolding redact_from
Redacted-redact_from zero [] = nothing
Redacted-redact_from (suc n) [] = nothing
Redacted-redact_from (suc n) (x ∷ xs) = Redacted-redact_from n xs
Redacted-redact_from zero (x ∷ xs) = elim (Bool-cases (fits id_pattern (x ∷ xs))) [
  | inl found ↦ rw found (
      Redacted.replaced (x ∷ xs) (drop 35 xs) (redact_from 35 xs) (fits-StartsWithId (x ∷ xs) found)
        (Redacted-redact_from 35 xs))
  | inr other ↦ rw other (
      Redacted.kept x xs (redact_from 0 xs)
        (λ rest s. absurd (
          let yes : fits id_pattern (x ∷ xs) ≡ true = StartsWithId-fits (x ∷ xs) rest s in
          clash (fits id_pattern (x ∷ xs)) other yes))
        (Redacted-redact_from 0 xs))
]
  where
    clash : (b : Bool) → b ≡ false → b ≡ true → ⊥
    clash b h k = ground arith

-- An id starts somewhere in the text.
pub data HasId : Text → Type 0 where
  here : (xs rest : Text) → StartsWithId xs rest → HasId xs
  later : (x : ℕ) (xs : Text) → HasId xs → HasId (x ∷ xs)

has_no_id-HasId : (xs : Text) → has_no_id xs ≡ true → ¬ (HasId xs)
unfolding fits
has_no_id-HasId xs h (HasId.here ys rest s) = none_here ys h (StartsWithId-fits ys rest s)
  where
    none_here : (ys : Text) → has_no_id ys ≡ true → fits id_pattern ys ≡ true → ⊥
    none_here [] h k = ground arith
    none_here (y ∷ ys) h k = ground arith
has_no_id-HasId xs h (HasId.later y ys i) =
    has_no_id-HasId ys (and_right (not (fits id_pattern (y ∷ ys))) h) i

-- The redaction of any text replaces, from the left, exactly the ids in it, each as a whole, by "{id}",
-- keeps every other character, and leaves no id in the result.
pub Redacted-redact : (xs : Text) → Redacted xs (redact xs) × (¬ (HasId (redact xs)))
unfolding redact
Redacted-redact xs = (Redacted-redact_from 0 xs, has_no_id-HasId (redact xs) (has_no_id-redact xs))
