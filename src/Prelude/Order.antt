-- ===== src/Prelude/Order.antt =====
-- The order of texts by their code points, which is SQLite's BINARY order of their UTF-8.
use Prim.Native.Nat.{ℕ, Ordering, compare as compare_ℕ}
use Prim.Native.Char.{code}
use Prim.Native.String
use Prim.Native.String.{String}
use Prim.Native.String.compare as compare_texts
use mathlib.Core.Path.{◌≡◌, refl, sym, ◌∙◌}
use mathlib.Core.Logic.{◌⊎◌, inl, inr}
use mathlib.Core.Bool.{Bool, true, false}
use native.Mathlib.Omega.{arith}
use text.Mathlib.TextPositions.{compare_refl}
use text.Mathlib.TextEquality.{path_by_compare}

-- A text before another one.
abbrev pub text_before : String → String → Bool
text_before a b = elim (String.compare a b) [ Ordering.lt ↦ true | _ ↦ false ]

lt_of_before : (a b : String) → text_before a b ≡ true → String.compare a b ≡ Ordering.lt
lt_of_before a b h = by_order (String.compare a b) h
  where
    by_order :
        (o : Ordering)
        → (elim o as (λ x. Bool) [ Ordering.lt ↦ true | _ ↦ false ]) ≡ true
        → o ≡ Ordering.lt
    by_order Ordering.lt h = refl
    by_order Ordering.eq h = ground arith
    by_order Ordering.gt h = ground arith

before_of_lt : (a b : String) → String.compare a b ≡ Ordering.lt → text_before a b ≡ true
before_of_lt a b h = rw (h, text_before) refl

-- The first characters decide, or the rests do.
step_trans :
    (a b e : ℕ) (p q r : Ordering)
    → (p ≡ Ordering.lt → q ≡ Ordering.lt → r ≡ Ordering.lt)
    → String.then (compare_ℕ a b) p ≡ Ordering.lt
    → String.then (compare_ℕ b e) q ≡ Ordering.lt
    → String.then (compare_ℕ a e) r ≡ Ordering.lt
step_trans a b e p q r f h k = ground arith

lt_trans :
    (a b c : String)
    → String.compare a b ≡ Ordering.lt
    → String.compare b c ≡ Ordering.lt
    → String.compare a c ≡ Ordering.lt
lt_trans String.[] String.[] c h k = k
lt_trans String.[] (String.◌∷◌ d t) String.[] h k =
    absurd (ground (arith, compare_texts.cons-nil d t))
lt_trans String.[] (String.◌∷◌ d t) (String.◌∷◌ e u) h k = compare_texts.nil-cons e u
lt_trans (String.◌∷◌ c s) String.[] u h k = absurd (ground (arith, compare_texts.cons-nil c s))
lt_trans (String.◌∷◌ c s) (String.◌∷◌ d t) String.[] h k =
    absurd (ground (arith, compare_texts.cons-nil d t))
lt_trans (String.◌∷◌ c s) (String.◌∷◌ d t) (String.◌∷◌ e u) h k =
    compare_texts.cons-cons c e s u
    ∙ step_trans (code c) (code d) (code e) (String.compare s t) (String.compare t u)
        (String.compare s u) (lt_trans s t u) (sym (compare_texts.cons-cons c d s t) ∙ h)
        (sym (compare_texts.cons-cons d e t u) ∙ k)

step_total :
    (a b : ℕ) (p q : Ordering)
    → (p ≡ Ordering.gt → q ≡ Ordering.lt)
    → String.then (compare_ℕ a b) p ≡ Ordering.gt
    → String.then (compare_ℕ b a) q ≡ Ordering.lt
step_total a b p q f h = ground arith

lt_of_gt : (a b : String) → String.compare a b ≡ Ordering.gt → String.compare b a ≡ Ordering.lt
lt_of_gt String.[] String.[] h = absurd (ground arith)
lt_of_gt String.[] (String.◌∷◌ d t) h = absurd (ground (arith, compare_texts.nil-cons d t))
lt_of_gt (String.◌∷◌ c s) String.[] h = compare_texts.nil-cons c s
lt_of_gt (String.◌∷◌ c s) (String.◌∷◌ d t) h =
    compare_texts.cons-cons d c t s
    ∙ step_total (code c) (code d) (String.compare s t) (String.compare t s) (lt_of_gt s t)
        (sym (compare_texts.cons-cons c d s t) ∙ h)

pub text_before_trans :
    (a b c : String) → text_before a b ≡ true → text_before b c ≡ true → text_before a c ≡ true
text_before_trans a b c h k =
    before_of_lt a c (lt_trans a b c (lt_of_before a b h) (lt_of_before b c k))

-- Of two texts one is before the other, or they are the same.
pub text_before_total :
    (a b : String) → (text_before a b ≡ true) ⊎ (text_before b a ≡ true) ⊎ (a ≡ b)
text_before_total a b = by_order (String.compare a b) refl
  where
    by_order :
        (o : Ordering)
        → String.compare a b ≡ o
        → (text_before a b ≡ true) ⊎ (text_before b a ≡ true) ⊎ (a ≡ b)
    by_order Ordering.lt h = inl (before_of_lt a b h)
    by_order Ordering.gt h = inr (inl (before_of_lt b a (lt_of_gt a b h)))
    by_order Ordering.eq h = inr (inr (path_by_compare a b h))

pub text_before_irrefl : (a : String) → text_before a a ≡ false
text_before_irrefl a = rw (compare_refl a, text_before) refl
