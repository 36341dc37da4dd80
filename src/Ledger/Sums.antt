-- ===== src/Ledger/Sums.antt =====
-- Sums of amounts over lists.
use ynab_auto_categorizer.Prelude.{
  ℤ, pos, ◌+ℤ◌, +ℤ_assoc, zero-+ℤ, int_laws, Bool, ◌≡◌, refl, ap, sym, ◌∙◌, List, [], ◌∷◌, ◌++◌,
  Among, if◌then◌else◌, inl, inr,
}
use ynab_auto_categorizer.Ledger.{Line}
use ynab_auto_categorizer.Ledger.Query.{sum_amounts}

module _ {A : Type 0} where
  unfoldable pub sum_by : (A → ℤ) → List A → ℤ
  sum_by f [] = pos 0
  sum_by f (x ∷ xs) = f x +ℤ sum_by f xs

  pub sum_by-add :
      (f g : A → ℤ) (xs : List A) → sum_by (λ x. f x +ℤ g x) xs ≡ sum_by f xs +ℤ sum_by g xs
  unfolding sum_by
  sum_by-add f g [] = sym (zero-+ℤ (pos 0))
  sum_by-add f g (x ∷ xs) =
      ap (λ t. (f x +ℤ g x) +ℤ t) (sum_by-add f g xs)
      ∙ swap_lem (f x) (g x) (sum_by f xs) (sum_by g xs)
    where
      swap_lem : (a b c d : ℤ) → (a +ℤ b) +ℤ (c +ℤ d) ≡ (a +ℤ c) +ℤ (b +ℤ d)
      swap_lem a b c d = omega int_laws

  pub sum_by-ext :
      (f g : A → ℤ) (xs : List A) → ((x : A) → Among x xs → f x ≡ g x) → sum_by f xs ≡ sum_by g xs
  unfolding sum_by
  sum_by-ext f g [] h = refl
  sum_by-ext f g (x ∷ xs) h =
      ap (λ t. t +ℤ sum_by f xs) (h x (inl refl))
      ∙ ap (λ t. g x +ℤ t) (sum_by-ext f g xs (λ y m. h y (inr m)))

  pub sum_by-zero : (xs : List A) → sum_by (λ x. pos 0) xs ≡ pos 0
  unfolding sum_by
  sum_by-zero [] = refl
  sum_by-zero (x ∷ xs) = ap (λ t. pos 0 +ℤ t) (sum_by-zero xs) ∙ zero-+ℤ (pos 0)

pub sum_amounts-append :
    (xs ys : List Line) → sum_amounts (xs ++ ys) ≡ sum_amounts xs +ℤ sum_amounts ys
unfolding sum_amounts
sum_amounts-append [] ys = sym (zero-+ℤ (sum_amounts ys))
sum_amounts-append (x ∷ xs) ys =
    ap (λ t. x.amount +ℤ t) (sum_amounts-append xs ys)
    ∙ sym (+ℤ_assoc x.amount (sum_amounts xs) (sum_amounts ys))

abbrev pub if_so : Bool → ℤ → ℤ
if_so b a = if b then a else pos 0
