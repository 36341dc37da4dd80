-- ===== src/Backup/Turso/Chunks.antt =====
-- backup/turso.go, eachChunk: whatever the callback keeps, the chunks that it was given make up the data.
use mathlib.Core.Path.{subst}
use ynab_auto_categorizer.Prelude.{
  ℕ, zero, suc, ◌≤◌, ◌<◌, Bool, true, false, ◌≡◌, refl, ap, sym, ◌∙◌, List, [], ◌∷◌, ◌++◌, length,
  and_intro, length-append, append_none, append_one, take, drop, all, leb, if◌then◌else◌, if_intro,
  Result, ok, err, read_failed, arith,
}
use ynab_auto_categorizer.Scan.Redaction.{Text}
use ynab_auto_categorizer.Backup.Turso.{Reader, passed, at_end, short_read, go_on, each_chunk}

abbrev pub concat : List Text → Text
concat [] = []
concat (c ∷ cs) = c ++ concat cs

take-drop : (n : ℕ) (xs : Text) → take n xs ++ drop n xs ≡ xs
take-drop zero xs = refl
take-drop (suc n) [] = refl
take-drop (suc n) (x ∷ xs) = ap (λ r. x ∷ r) (take-drop n xs)

length-take : (n : ℕ) (xs : Text) → leb (length (take n xs)) n ≡ true
length-take zero xs = ground arith
length-take (suc n) [] = ground arith
length-take (suc n) (x ∷ xs) = ground (arith, length-take n xs)

length-drop : (n : ℕ) (xs : Text) → 0 < n → n ≤ length xs → length (drop n xs) < length xs
length-drop zero xs p h = absurd (omega (arith, p))
length-drop (suc n) [] p h = absurd (omega (arith, h))
length-drop (suc zero) (x ∷ xs) p h = omega arith
length-drop (suc (suc n)) (x ∷ xs) p h =
    omega (arith, length-drop (suc n) xs (omega arith) (omega (arith, h)))

module _ {X : Type 0} (fn : ℕ → Text → X → Result (Unit {0}) × X) (size : ℕ)
    (Inv : List Text → X → Type 0) (Held : X → Type 0) where
  -- The chunks given since `cs` were, if all of the reader is through.
  pub record Pieces (cs : List Text) (r : Reader) (n : ℕ) (x : X) : Type 0 where
    pub more : List Text
    pub whole : concat more ≡ r.content
    pub count : n ≡ length (cs ++ more)
    pub kept : Inv (cs ++ more) x
    pub fits : all (λ c. leb (length c) size) more ≡ true
    pub read : r.broken ≡ false

  abbrev pub Ends : List Text → Reader → Result ℕ × X → Type 0
  Ends cs r (err e, x) = Held x
  Ends cs r (ok n, x) = Pieces cs r n x

  module _ (keeps : (cs : List Text) (x : X) → Inv cs x → Held x)
      (tries : (cs : List Text) (c : Text) (x : X) → Inv cs x → Held (fn (length cs) c x).1)
      (steps : (cs : List Text) (c : Text) (x : X)
        → Inv cs x
        → (fn (length cs) c x).0 ≡ ok tt
        → Inv (cs ++ c ∷ []) (fn (length cs) c x).1) where
    -- The last chunk.
    Ends-passed :
        (cs : List Text) (r : Reader) (x : X)
        → Inv cs x
        → leb (length r.content) size ≡ true
        → r.broken ≡ false
        → Ends cs r (passed fn (suc (length cs)) (fn (length cs) r.content x))
    Ends-passed cs r x i short fine = by_call (fn (length cs) r.content x) refl
      where
        by_call :
            (q : Result (Unit {0}) × X)
            → fn (length cs) r.content x ≡ q
            → Ends cs r (passed fn (suc (length cs)) q)
        by_call (err e, y) h = subst Held (ap (λ x. x.1) h) (tries cs r.content x i)
        by_call (ok u, y) h = record {
          more = r.content ∷ [];
          whole = append_none r.content;
          count = omega (arith, length-append cs (r.content ∷ []));
          kept =
              subst (Inv (cs ++ r.content ∷ [])) (ap (λ x. x.1) h)
                (steps cs r.content x i (ap (λ x. x.0) h));
          fits = ground arith;
          read = fine;
        }

    Ends-at_end :
        (cs : List Text) (d : Text) (x : X)
        → Inv cs x
        → leb (length d) size ≡ true
        → Ends cs (record { content = d; broken = false }) (at_end fn (length cs) d x)
    Ends-at_end [] [] x i short =
        Ends-passed [] (record { content = []; broken = false }) x i short refl
    Ends-at_end (b ∷ cs) [] x i short = record {
      more = [];
      whole = refl;
      count = omega (arith, length-append cs []);
      kept = subst (λ ds. Inv (b ∷ ds) x) (sym (append_none cs)) i;
      fits = refl;
      read = refl;
    }
    Ends-at_end [] (c ∷ d) x i short =
        Ends-passed [] (record { content = c ∷ d; broken = false }) x i short refl
    Ends-at_end (b ∷ cs) (c ∷ d) x i short =
        Ends-passed (b ∷ cs) (record { content = c ∷ d; broken = false }) x i short refl

    Ends-short_read :
        (cs : List Text) (r : Reader) (x : X)
        → Inv cs x
        → leb (length r.content) size ≡ true
        → Ends cs r (short_read fn (length cs) r x)
    Ends-short_read cs r x i short = by_end r.broken refl
      where
        by_end :
            (b : Bool)
            → r.broken ≡ b
            → Ends cs r (if b then (err read_failed, x) else at_end fn (length cs) r.content x)
        by_end true e = keeps cs x i
        by_end false e =
            subst
              (λ b.
                Ends cs (record { content = r.content; broken = b })
                  (at_end fn (length cs) r.content x))
              (sym e) (Ends-at_end cs r.content x i short)

    Ends-widen :
        (cs : List Text) (r : Reader) (z : Result ℕ × X)
        → Ends (cs ++ take size r.content ∷ []) (record r { content = drop size r.content }) z
        → Ends cs r z
    Ends-widen cs r (err e, y) h = h
    Ends-widen cs r (ok n, y) h =
        let same = append_one cs (take size r.content) h.more in
        record {
          more = take size r.content ∷ h.more;
          whole = ap (λ d. take size r.content ++ d) h.whole ∙ take-drop size r.content;
          count = h.count ∙ ap length same;
          kept = subst (λ ds. Inv ds y) same h.kept;
          fits = and_intro (length-take size r.content) h.fits;
          read = h.read;
        }

    -- With any fuel that covers the data, in chunks of at least one byte.
    pub Ends-each_chunk :
        (fuel : ℕ) (cs : List Text) (r : Reader) (x : X)
        → 0 < size
        → length r.content ≤ fuel
        → Inv cs x
        → Ends cs r (each_chunk fn fuel size (length cs) r x)
    unfolding each_chunk
    Ends-each_chunk zero cs r x p f i = Ends-short_read cs r x i (ground arith)
    Ends-each_chunk (suc fuel) cs r x p f i =
        if_intro (Ends cs r) (leb size (length r.content))
          (λ full. by_call (fn (length cs) (take size r.content) x) refl (
            Ends-each_chunk fuel (cs ++ take size r.content ∷ []) r' _ p (
              let full' : size ≤ length r.content = ground arith in
              omega (arith, f, length-drop size r.content p full'))))
          (λ short. Ends-short_read cs r x i (ground arith))
      where
        r' : Reader
        r' = record r { content = drop size r.content }

        cs' : List Text
        cs' = cs ++ take size r.content ∷ []

        by_call :
            (q : Result (Unit {0}) × X)
            → fn (length cs) (take size r.content) x ≡ q
            → (Inv cs' q.1 → Ends cs' r' (each_chunk fn fuel size (length cs') r' q.1))
            → Ends cs r (go_on fn (λ y. each_chunk fn fuel size (suc (length cs)) r' y) q)
        by_call (err e, y) h ih = subst Held (ap (λ x. x.1) h) (tries cs (take size r.content) x i)
        by_call (ok u, y) h ih =
            let n : length cs' ≡ suc (length cs) =
              omega (arith, length-append cs (take size r.content ∷ [])) in
            Ends-widen cs r (each_chunk fn fuel size (suc (length cs)) r' y) (
              subst (λ n. Ends cs' r' (each_chunk fn fuel size n r' y)) n
                (ih (
                  subst (Inv cs') (ap (λ x. x.1) h)
                    (steps cs (take size r.content) x i (ap (λ x. x.0) h)))))
