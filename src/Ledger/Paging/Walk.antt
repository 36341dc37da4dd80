-- ===== src/Ledger/Paging/Walk.antt =====
-- store/transactions_read.go and mcp/tools_transactions.go: following the cursors from page to page.
use ynab_auto_categorizer.Prelude.{
  ℕ, zero, suc, ◌-◌, ◌≤◌, ◌<◌, Bool, true, false, ◌≡◌, refl, ap, sym, ◌∙◌, Option, none, some, List,
  [], ◌∷◌, ◌++◌, keep, all, take, length, ltb, arith, if◌then◌else◌, Bool-cases, inl, inr, and_left,
  and_right, ascends, ◌⊎◌, get_elem?,
}
use mathlib.Core.List.{append_assoc, append-nil}
use ynab_auto_categorizer.Ledger.Paging.{Transitive, Irreflexive, asym}

module _ {A K : Type 0} (key : A → K) (before : K → K → Bool) where
  abbrev pub by_key : A → A → Bool
  by_key x y = before (key x) (key y)

  -- What comes after a cursor; all of it without one.
  abbrev pub follows : Option K → A → Bool
  follows none x = true
  follows (some k) x = before k (key x)

  -- ORDER BY, the cursor's condition, LIMIT: `xs` is sorted.
  abbrev pub page : Option K → ℕ → List A → List A
  page after limit xs = take limit (keep (follows after) xs)

  -- The key of the last line shown_lines, if the extra line is there.
  abbrev pub last_key : Option A → Option K
  last_key none = none
  last_key (some x) = some (key x)

  abbrev pub next_cursor : ℕ → List A → Option K
  next_cursor size got = if ltb size (length got) then last_key (get_elem? got (size - 1)) else none

  abbrev pub shown_lines : ℕ → List A → List A
  shown_lines size got = if ltb size (length got) then take size got else got

  abbrev pub go_on : Option K → (K → List A) → List A
  go_on none f = []
  go_on (some k) f = f k

  -- The pages one after another, at most so many.
  unfoldable pub walk : ℕ → ℕ → Option K → List A → List A
  walk zero size after xs = []
  walk (suc pages) size after xs =
      let got = page after (suc size) xs in
      shown_lines size got ++ go_on (next_cursor size got) (λ k. walk pages size (some k) xs)

-- A list around its n-th element.
record Around {A : Type 0} (n : ℕ) (rest : List A) : Type 0 where
  front : List A
  at : A
  behind : List A
  whole : rest ≡ front ++ at ∷ behind
  shorter : length behind < length rest
  taken : take (suc n) rest ≡ front ++ at ∷ []
  nth : (m : ℕ) → n ≤ m → get_elem? (take (suc m) rest) n ≡ some at

around : {A : Type 0} (n : ℕ) (rest : List A) → n < length rest → Around n rest
around n [] h = absurd (omega arith)
around zero (x ∷ xs) h = record {
  front = [];
  at = x;
  behind = xs;
  whole = refl;
  shorter = omega arith;
  taken = refl;
  nth = λ m le. refl;
}
around {A} (suc n) (x ∷ xs) h =
    let a = around n xs (omega arith) in
    record {
      front = x ∷ a.front;
      at = a.at;
      behind = a.behind;
      whole = ap (λ t. x ∷ t) a.whole;
      shorter = omega (arith, a.shorter);
      taken = ap (λ t. x ∷ t) a.taken;
      nth = deeper a.at a.nth;
    }
  where
    deeper :
        (y : A)
        → ((m : ℕ) → n ≤ m → get_elem? (take (suc m) xs) n ≡ some y)
        → (m : ℕ) → suc n ≤ m
        → get_elem? (take (suc m) (x ∷ xs)) (suc n) ≡ some y
    deeper y f zero le = absurd (omega arith)
    deeper y f (suc m) le = f m (omega arith)

take_all : {A : Type 0} (n : ℕ) (xs : List A) → length xs ≤ n → take n xs ≡ xs
take_all zero [] h = refl
take_all zero (x ∷ xs) h = absurd (omega arith)
take_all (suc n) [] h = refl
take_all (suc n) (x ∷ xs) h = ap (λ t. x ∷ t) (take_all n xs (omega arith))

length-take : {A : Type 0} (n : ℕ) (xs : List A) → n ≤ length xs → length (take n xs) ≡ n
length-take zero xs h = refl
length-take (suc n) [] h = absurd (omega arith)
length-take (suc n) (x ∷ xs) h = ap suc (length-take n xs (omega arith))

take-take : {A : Type 0} (n : ℕ) (xs : List A) → take n (take (suc n) xs) ≡ take n xs
take-take zero xs = refl
take-take (suc n) [] = refl
take-take (suc n) (x ∷ xs) = ap (λ t. x ∷ t) (take-take n xs)

module _ {A K : Type 0} (key : A → K) (before : K → K → Bool)
    (trans : Transitive (by_key key before)) (irrefl : Irreflexive (by_key key before)) where
  -- Of an ascending list, what follows the key of an element is what stands behind it.
  keep_front :
      (k : A) (xs ys : List A)
      → ascends (by_key key before) (xs ++ k ∷ ys) ≡ true
      → keep (follows key before (some (key k))) (xs ++ k ∷ ys) ≡ ys
  keep_front k [] ys h =
      rw (irrefl k) (keep_everything ys (and_left (ascends (by_key key before) ys) h))
    where
      keep_everything :
          (zs : List A)
          → all (by_key key before k) zs ≡ true
          → keep (follows key before (some (key k))) zs ≡ zs
      keep_everything [] h = refl
      keep_everything (z ∷ zs) h = ground (arith, keep_everything zs)
  keep_front k (x ∷ xs) ys h =
      let first : all (by_key key before x) (xs ++ k ∷ ys) ≡ true =
        and_left (ascends (by_key key before) (xs ++ k ∷ ys)) h in
      rw (asym (by_key key before) trans irrefl x k (all_middle xs first))
        (keep_front k xs ys (and_right (all (by_key key before x) (xs ++ k ∷ ys)) h))
    where
      all_middle :
          (zs : List A)
          → all (by_key key before x) (zs ++ k ∷ ys) ≡ true
          → by_key key before x k ≡ true
      all_middle [] h = and_left _ h
      all_middle (z ∷ zs) h = all_middle zs (and_right (by_key key before x z) h)

  abbrev turn : ℕ → ℕ → List A → List A → List A
  turn pages size all_lines got =
      shown_lines key before size got
      ++ go_on key before (next_cursor key before size got)
          (λ k. walk key before pages size (some k) all_lines)

  walk_step :
      (pages size : ℕ) (after : Option K) (xs : List A)
      → walk key before (suc pages) size after xs
        ≡ turn pages size xs (page key before after (suc size) xs)
  unfolding walk
  walk_step pages size after xs = refl

  turn_last :
      (pages size : ℕ) (xs rest : List A)
      → length rest ≤ size
      → turn pages size xs (take (suc size) rest) ≡ rest
  turn_last pages size xs rest h =
      let last : ltb size (length rest) ≡ false = ground arith in
      rw (take_all (suc size) rest (omega arith), last, append-nil) refl

  turn_more :
      (pages size : ℕ) (xs rest : List A) (a : Around size rest)
      → suc size < length rest
      → walk key before pages (suc size) (some (key a.at)) (xs ++ rest) ≡ a.behind
      → turn pages (suc size) (xs ++ rest) (take (suc (suc size)) rest) ≡ rest
  turn_more pages size xs rest a h ih =
      let full : length (take (suc (suc size)) rest) ≡ suc (suc size) =
        length-take (suc (suc size)) rest (omega arith) in
      let more : ltb (suc size) (suc (suc size)) ≡ true = ground arith in
      let index : suc size - 1 ≡ size = omega arith in
      rw (full, more, index, a.nth (suc size) (omega arith), take-take (suc size) rest, a.taken, ih)
        (append_assoc a.front (a.at ∷ []) a.behind ∙ sym a.whole)

  -- From a cursor behind `xs`, the pages show what is left.
  walk_from :
      (pages size : ℕ) (after : Option K) (xs rest : List A)
      → ascends (by_key key before) (xs ++ rest) ≡ true
      → keep (follows key before after) (xs ++ rest) ≡ rest
      → length rest < pages
      → walk key before pages (suc size) after (xs ++ rest) ≡ rest
  walk_from zero size after xs rest h k lt = absurd (omega arith)
  walk_from (suc pages) size after xs rest h k lt =
      walk_step pages (suc size) after (xs ++ rest)
      ∙ ap (λ l. turn pages (suc size) (xs ++ rest) (take (suc (suc size)) l)) k
      ∙ by_length (walk_from pages size) (Bool-cases (ltb (suc size) (length rest)))
    where
      beyond :
          (a : Around size rest)
          → ((after : Option K) (front behind : List A)
              → ascends (by_key key before) (front ++ behind) ≡ true
              → keep (follows key before after) (front ++ behind) ≡ behind
              → length behind < pages
              → walk key before pages (suc size) after (front ++ behind) ≡ behind)
          → walk key before pages (suc size) (some (key a.at)) (xs ++ rest) ≡ a.behind
      beyond a ih =
          let seen = xs ++ (a.front ++ a.at ∷ []) in
          let same : seen ++ a.behind ≡ xs ++ rest =
            append_assoc xs (a.front ++ a.at ∷ []) a.behind
            ∙ ap (λ t. xs ++ t) (append_assoc a.front (a.at ∷ []) a.behind ∙ sym a.whole) in
          let middle : xs ++ rest ≡ (xs ++ a.front) ++ a.at ∷ a.behind =
            ap (λ t. xs ++ t) a.whole ∙ sym (append_assoc xs a.front (a.at ∷ a.behind)) in
          let left : keep (follows key before (some (key a.at))) (seen ++ a.behind) ≡ a.behind =
            ap (keep (follows key before (some (key a.at)))) (same ∙ middle)
            ∙ keep_front a.at (xs ++ a.front) a.behind
                (ap (ascends (by_key key before)) (sym middle) ∙ h) in
          ap (walk key before pages (suc size) (some (key a.at))) (sym same)
          ∙ ih (some (key a.at)) seen a.behind (ap (ascends (by_key key before)) same ∙ h) left
              (omega (arith, a.shorter))

      by_around :
          ((after : Option K) (front behind : List A)
            → ascends (by_key key before) (front ++ behind) ≡ true
            → keep (follows key before after) (front ++ behind) ≡ behind
            → length behind < pages
            → walk key before pages (suc size) after (front ++ behind) ≡ behind)
          → suc size < length rest
          → Around size rest
          → turn pages (suc size) (xs ++ rest) (take (suc (suc size)) rest) ≡ rest
      by_around ih far a = turn_more pages size xs rest a far (beyond a ih)

      by_length :
          ((after : Option K) (front behind : List A)
            → ascends (by_key key before) (front ++ behind) ≡ true
            → keep (follows key before after) (front ++ behind) ≡ behind
            → length behind < pages
            → walk key before pages (suc size) after (front ++ behind) ≡ behind)
          → (ltb (suc size) (length rest) ≡ true) ⊎ (ltb (suc size) (length rest) ≡ false)
          → turn pages (suc size) (xs ++ rest) (take (suc (suc size)) rest) ≡ rest
      by_length ih (inr last) = turn_last pages (suc size) (xs ++ rest) rest (ground arith)
      by_length ih (inl more) =
          let far : suc size < length rest = ground arith in
          by_around ih far (around size rest (omega arith))

  -- Without a cursor, the pages together show the whole list, and more pages than lines are enough.
  pub walk_lem :
      (pages size : ℕ) (xs : List A)
      → 0 < size
      → ascends (by_key key before) xs ≡ true
      → length xs < pages
      → walk key before pages size none xs ≡ xs
  walk_lem pages zero xs pos h lt = absurd (omega arith)
  walk_lem pages (suc size) xs pos h lt = walk_from pages size none [] xs h (keep_whole xs) lt
    where
      keep_whole : (ys : List A) → keep (follows key before none) ys ≡ ys
      keep_whole [] = refl
      keep_whole (y ∷ ys) = ap (λ t. y ∷ t) (keep_whole ys)
