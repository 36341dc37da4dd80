-- ===== src/Backup/Turso/Put.antt =====
-- backup/turso.go, Put: either every chunk commits or none does.
use ynab_auto_categorizer.Prelude.{
  ℕ, suc, ◌+◌, ◌<◌, true, false, ◌≡◌, refl, ap, sym, ◌∙◌, ◌⊎◌, inl, inr, none, some, List, [], ◌∷◌,
  ◌++◌, all, length, leb, if_intro, Result, ok, err, arith,
}
use ynab_auto_categorizer.Scan.Redaction.{Text}
use ynab_auto_categorizer.Backup.Turso.{
  Info, Value, Request, execute, insert, create_table, begin, commit, close, Answer, Baton,
  answered, Reader, each_chunk, is_open, pipeline, exec, roll_back, inserted, insert_chunk,
  committed, finish, begun, table_ready, put,
}
use ynab_auto_categorizer.Backup.Turso.Promises.{
  Chunk, chunk_row, Promises, answered_one, answered_two,
}
use ynab_auto_categorizer.Backup.Turso.Chunks.{concat, Pieces, Ends, Ends-each_chunk}

-- The rows of chunks that are numbered from n.
abbrev pub rows_from : Info → ℕ → List Text → List Chunk
rows_from info n [] = []
rows_from info n (c ∷ cs) = chunk_row info n c ∷ rows_from info (suc n) cs

rows_from-append :
    (info : Info) (n m : ℕ) (cs : List Text) (c : Text)
    → m ≡ n + length cs
    → rows_from info n (cs ++ c ∷ []) ≡ rows_from info n cs ++ chunk_row info m c ∷ []
rows_from-append info n m [] c e =
    let same : n ≡ m = omega (arith, e) in ap (λ k. chunk_row info k c ∷ []) same
rows_from-append info n m (d ∷ cs) c e =
    ap (λ rows. chunk_row info n d ∷ rows) (rows_from-append info (suc n) m cs c (omega (arith, e)))

module _ {S : Type 0} (ask : S → Baton → List Request → Answer × S) (p : Promises S ask)
    (info : Info) where
  -- The whole of a reader is stored behind `old`, in n chunks of the given size at most.
  pub record Saved (r : Reader) (size : ℕ) (old new : List Chunk) (n : ℕ) : Type 0 where
    pub chunks : List Text
    pub whole : concat chunks ≡ r.content
    pub count : n ≡ length chunks
    pub fits : all (λ c. leb (length c) size) chunks ≡ true
    pub rows : new ≡ old ++ rows_from info 0 chunks
    pub read : r.broken ≡ false

  -- An error leaves what was stored, but for a COMMIT whose answer was lost.
  abbrev pub AllOrNone : Reader → ℕ → S → Result ℕ × S → Type 0
  AllOrNone r size s (ok n, s') = Saved r size (p.stored s) (p.stored s') n
  AllOrNone r size s (err e, s') =
      (p.stored s' ≡ p.stored s) ⊎ ((n : ℕ) × Saved r size (p.stored s) (p.stored s') n)

  stored-roll_back : (b : Baton) (s : S) → p.stored (roll_back ask b s) ≡ p.stored s
  unfolding pipeline
  stored-roll_back none s = refl
  stored-roll_back (some b) s = p.close-stored s b

  module _ (old : List Chunk) where
    abbrev Writing : List Text → Baton × S → Type 0
    Writing cs (none, s) = ⊥
    Writing cs (some b, s) = (p.written s b ≡ some (rows_from info 0 cs)) × (p.stored s ≡ old)

    abbrev Unchanged : Baton × S → Type 0
    Unchanged x = p.stored x.1 ≡ old

    Unchanged-Writing : (cs : List Text) (x : Baton × S) → Writing cs x → Unchanged x
    Unchanged-Writing cs (none, s) h = absurd h
    Unchanged-Writing cs (some b, s) h = h.1

    state-inserted :
        (z : (Result (List (List (List Value))) × Baton) × S) → (inserted ask z).1.1 ≡ z.1
    state-inserted ((err e, b), s) = refl
    state-inserted ((ok rows, b), s) = refl

    Unchanged-insert_chunk :
        (cs : List Text) (c : Text) (x : Baton × S)
        → Writing cs x
        → Unchanged (insert_chunk ask info (length cs) c x).1
    unfolding pipeline
    Unchanged-insert_chunk cs c (none, s) h = absurd h
    Unchanged-insert_chunk cs c (some b, s) h =
        ap p.stored (state-inserted _) ∙ p.insert-stored s b _ info (length cs) c h.0 ∙ h.1

    Writing-insert_chunk :
        (cs : List Text) (c : Text) (x : Baton × S)
        → Writing cs x
        → (insert_chunk ask info (length cs) c x).0 ≡ ok tt
        → Writing (cs ++ c ∷ []) (insert_chunk ask info (length cs) c x).1
    unfolding pipeline
    Writing-insert_chunk cs c (none, s) h e = absurd h
    Writing-insert_chunk cs c (some b, s) h e =
        by_answer
          (answered 1 1 (some b) (ask s (some b) (execute (insert info (length cs) c) ∷ [])).0) refl
          e
      where
        s' : S
        s' = (ask s (some b) (execute (insert info (length cs) c) ∷ [])).1

        by_answer :
            (q : Result (List (List (List Value))) × Baton)
            → answered 1 1 (some b) (ask s (some b) (execute (insert info (length cs) c) ∷ [])).0
              ≡ q
            → (inserted ask (q, s')).0 ≡ ok tt
            → Writing (cs ++ c ∷ []) (inserted ask (q, s')).1
        by_answer (err e, b') a k = absurd (ground arith)
        by_answer (ok rows, none) a k = absurd (ground arith)
        by_answer (ok rows, some b') a k =
            let ran = answered_one (some b) (some b') _ rows a in
            (
              p.insert-written s b b' _ info (length cs) c ran.0 h.0 ran.1
                  ∙ ap some (sym (rows_from-append info 0 (length cs) cs c (omega arith))),
              p.insert-stored s b _ info (length cs) c h.0 ∙ h.1,
            )

    module _ (r : Reader) (size : ℕ) where
      -- AllOrNone, for the states after `old`.
      abbrev Settled : Result ℕ × S → Type 0
      Settled (ok n, s) = Saved r size old (p.stored s) n
      Settled (err e, s) = (p.stored s ≡ old) ⊎ ((n : ℕ) × Saved r size old (p.stored s) n)

      abbrev AllIn : ℕ → Baton × S → Type 0
      AllIn n x = Pieces (insert_chunk ask info) size Writing Unchanged [] r n x

      saved :
          (n : ℕ) (x : Baton × S) (h : AllIn n x) (new : List Chunk)
          → new ≡ old ++ rows_from info 0 h.more
          → Saved r size old new n
      saved n x h new e = record {
        chunks = h.more;
        whole = h.whole;
        count = h.count;
        fits = h.fits;
        rows = e;
        read = h.read;
      }

      Settled-commit :
          (n : ℕ) (x : Baton × S)
          → AllIn n x
          → Settled (committed ask n (pipeline ask x.0 true (commit ∷ []) x.1))
      unfolding pipeline
      Settled-commit n (none, s) h = absurd h.kept
      Settled-commit n (some b, s) h =
          by_answer (answered 1 2 (some b) (ask s (some b) (execute commit ∷ close ∷ [])).0) refl
        where
          s' : S
          s' = (ask s (some b) (execute commit ∷ close ∷ [])).1

          behind :
              (t : S)
              → p.stored t ≡ p.stored s ++ rows_from info 0 h.more
              → Saved r size old (p.stored t) n
          behind t e = saved n (some b, s) h _ (e ∙ ap (λ o. o ++ rows_from info 0 h.more) h.kept.1)

          by_answer :
              (q : Result (List (List (List Value))) × Baton)
              → answered 1 2 (some b) (ask s (some b) (execute commit ∷ close ∷ [])).0 ≡ q
              → Settled (committed ask n (q, s'))
          by_answer (ok rows, b') a =
              let ran = answered_two (some b) b' _ rows a in
              behind s' (p.commit_done-stored s b _ b' ran.0 ran.1 h.kept.0 ran.2)
          by_answer (err e, b') a = elim (p.commit-stored s b _ h.kept.0) [
            | inl same ↦ inl (stored-roll_back b' s' ∙ same ∙ h.kept.1)
            | inr all ↦ inr (n, behind (roll_back ask b' s') (stored-roll_back b' s' ∙ all))
          ]

      Settled-finish :
          (z : Result ℕ × (Baton × S))
          → Ends (insert_chunk ask info) size Writing Unchanged [] r z
          → Settled (finish ask z)
      Settled-finish (err e, (b, s)) h = inl (stored-roll_back b s ∙ h)
      Settled-finish (ok n, (b, s)) h = Settled-commit n (b, s) h

      Settled-begun :
          (s : S)
          → 0 < size
          → p.stored s ≡ old
          → Settled (begun ask info r size (pipeline ask none false (begin ∷ []) s))
      unfolding pipeline
      Settled-begun s pos e = by_answer (answered 1 1 none (ask s none (execute begin ∷ [])).0) refl
        where
          s' : S
          s' = (ask s none (execute begin ∷ [])).1

          same : p.stored s' ≡ old
          same = p.begin-stored s ∙ e

          by_answer :
              (q : Result (List (List (List Value))) × Baton)
              → answered 1 1 none (ask s none (execute begin ∷ [])).0 ≡ q
              → Settled (begun ask info r size (q, s'))
          by_answer (err e, b) a = inl (stored-roll_back b s' ∙ same)
          by_answer (ok rows, none) a = inl same
          by_answer (ok rows, some b) a =
              let ran = answered_one none (some b) _ rows a in
              if_intro Settled (is_open (some b))
                (λ opened.
                  Settled-finish
                    (each_chunk (insert_chunk ask info) (length r.content) size 0 r (some b, s'))
                    (Ends-each_chunk (insert_chunk ask info) size Writing Unchanged
                      Unchanged-Writing Unchanged-insert_chunk Writing-insert_chunk
                      (length r.content) [] r (some b, s') pos (omega arith)
                      (p.begin-written s b ran.0 ran.1, same)))
                (λ closed. inl (stored-roll_back (some b) s' ∙ same))

  -- With a service that keeps the promises, and a positive chunk size, whatever requests fail: when it reports n, the reader
  -- was read to its end and all its bytes are stored behind the old rows in n chunks that fit the size,
  -- numbered from 0; when it fails, nothing is stored, or all of it is (if the answer to COMMIT was lost).
  pub put-AllOrNone :
      (r : Reader) (size : ℕ) (s : S) → 0 < size → AllOrNone r size s (put ask info r size s)
  unfolding put pipeline
  put-AllOrNone r size s pos = by_answer (exec ask (create_table ∷ []) s).0
    where
      s' : S
      s' = (exec ask (create_table ∷ []) s).1

      by_answer :
          (q : Result (List (List (List Value))))
          → AllOrNone r size s (table_ready ask info r size (q, s'))
      by_answer (err e) = inl (p.create-stored s)
      by_answer (ok rows) = Settled-begun (p.stored s) r size s' pos (p.create-stored s)
