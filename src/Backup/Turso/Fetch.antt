-- ===== src/Backup/Turso/Fetch.antt =====
-- backup/turso.go and backup/backup.go: a download gives back what Put has stored.
use mathlib.Core.Path.{subst}
use ynab_auto_categorizer.Prelude.{
  ℕ, suc, ◌≤◌, ◌<◌, String, Bool, true, not, ◌≡◌, refl, ap, sym, ◌∙◌, ◌⊎◌, inl, inr, none, some,
  List, [], ◌∷◌, ◌++◌, all, keep, map, length, append_one, nat_beq, ◌==◌, ==-refl, string_eq,
  Result, ok, err, remote, arith, if_intro,
}
use ynab_auto_categorizer.Scan.Redaction.{Text}
use ynab_auto_categorizer.Backup.Turso.{
  Info, Value, Request, execute, select_data, close, Answer, Baton, Outcome, failed, done, rows_of,
  first_rows, answered, Reader, pipeline, exec, put, chunk_of, append_to, fetched, fetch_from,
  fetch, verified, download,
}
use ynab_auto_categorizer.Backup.Turso.Promises.{Chunk, chunk_row, is_chunk, Promises, answered_two}
use ynab_auto_categorizer.Backup.Turso.Chunks.{concat}
use ynab_auto_categorizer.Backup.Turso.Put.{rows_from, AllOrNone, put-AllOrNone}

keep-append : (q : Chunk → Bool) (xs ys : List Chunk) → keep q (xs ++ ys) ≡ keep q xs ++ keep q ys
keep-append q [] ys = refl
keep-append q (x ∷ xs) ys = ground (arith, keep-append q xs ys)

-- The chunks of a backup behind the i-th.
later_rows :
    (info : Info) (i n : ℕ) (cs : List Text)
    → i < n
    → keep (is_chunk info.id i) (rows_from info n cs) ≡ []
later_rows info i n [] h = refl
later_rows info i n (c ∷ cs) h = ground (arith, h, later_rows info i (suc n) cs (omega (arith, h)))

abbrev pub is_foreign : String → Chunk → Bool
is_foreign id r = not (r.info.id == id)

foreign_rows :
    (id : String) (i : ℕ) (rows : List Chunk)
    → all (is_foreign id) rows ≡ true
    → keep (is_chunk id i) rows ≡ []
foreign_rows id i [] h = refl
foreign_rows id i (r ∷ rows) h = ground (arith, h, foreign_rows id i rows)

-- A failure of the service's is its only error.
abbrev Remote : {A : Type 0} → Result A → Type 0
Remote (ok a) = Unit {0}
Remote (err e) = e ≡ remote

Remote-rows_of : (os : List Outcome) → Remote (rows_of os)
Remote-rows_of [] = tt
Remote-rows_of (failed ∷ os) = refl
Remote-rows_of (done r ∷ os) = by_rest (rows_of os) (Remote-rows_of os)
  where
    by_rest :
        (x : Result (List (List (List Value))))
        → Remote x
        → Remote (elim x [ ok rest ↦ ok (r ∷ rest) | err e ↦ err e ])
    by_rest (ok rest) h = tt
    by_rest (err e) h = h

Remote-first_rows :
    (n : ℕ) (x : Result (List (List (List Value)))) → Remote x → Remote (first_rows n x)
Remote-first_rows n (ok rows) h = tt
Remote-first_rows n (err e) h = h

Remote-answered : (n m : ℕ) (b : Baton) (a : Answer) → Remote (answered n m b a).0
Remote-answered n m b none = refl
Remote-answered n m b (some (b', os)) =
    if_intro Remote (nat_beq (length os) m)
      (λ e. Remote-first_rows n (rows_of os) (Remote-rows_of os)) (λ e. refl)

module _ {S : Type 0} (ask : S → Baton → List Request → Answer × S) (p : Promises S ask) where
  -- The bytes, unless a request failed.
  abbrev pub Gives : Text → Result Text → Type 0
  Gives d x = (x ≡ ok d) ⊎ (x ≡ err remote)

  Gives-fetched :
      (d : Text) (ds : Text) (x : Result Text) (rest : S → Result Text × S) (s : S)
      → Gives d x
      → Gives ds (rest s).0
      → Gives (d ++ ds) (fetched ask x rest s).0
  Gives-fetched d ds x rest s (inr e) h = rw e (inr refl)
  Gives-fetched d ds x rest s (inl e) h = rw e (by_rest (rest s) h)
    where
      by_rest : (z : Result Text × S) → Gives ds z.0 → Gives (d ++ ds) (append_to ask d z).0
      by_rest (ok r, t) (inl k) = inl cc
      by_rest (ok r, t) (inr k) = absurd (ground arith)
      by_rest (err x, t) (inl k) = absurd (ground arith)
      by_rest (err x, t) (inr k) = inr k

  Gives-chunk_of :
      (info : Info) (n : ℕ) (c : Text) (s : S)
      → keep (is_chunk info.id n) (p.stored s) ≡ chunk_row info n c ∷ []
      → Gives c (chunk_of ask (exec ask (select_data info.id n ∷ []) s).0)
  unfolding pipeline
  Gives-chunk_of info n c s e =
      by_answer (answered 1 2 none (ask s none (execute (select_data info.id n) ∷ close ∷ [])).0)
        refl
    where
      by_answer :
          (q : Result (List (List (List Value))) × Baton)
          → answered 1 2 none (ask s none (execute (select_data info.id n) ∷ close ∷ [])).0 ≡ q
          → Gives c (chunk_of ask q.0)
      by_answer (err e, b) a = inr (
          ap err (
            subst (λ q. Remote q.0) a
              (Remote-answered 1 2 none
                (ask s none (execute (select_data info.id n) ∷ close ∷ [])).0)))
      by_answer (ok rows, b) a =
          let ran =
            answered_two none b (ask s none (execute (select_data info.id n) ∷ close ∷ [])).0 rows
              a in
          let row =
            p.select-rows s info.id n b ran.0 ran.1 ran.2
            ∙ ap (map (λ (r : Chunk). p.value r.content ∷ [])) e in
          inl (ap (λ rows. chunk_of ask (ok rows)) (ran.3 ∙ ap (λ r. r ∷ []) row) ∙ p.bytes-value c)

  -- From a place where the rows are known on.
  Gives-fetch_from :
      (info : Info) (n : ℕ) (cs : List Text) (before : List Chunk) (s : S)
      → ((i : ℕ) → n ≤ i → keep (is_chunk info.id i) before ≡ [])
      → p.stored s ≡ before ++ rows_from info n cs
      → Gives (concat cs) (fetch_from ask info.id n (length cs) s).0
  unfolding fetch_from pipeline
  Gives-fetch_from info n [] before s h e = inl refl
  Gives-fetch_from info n (c ∷ cs) before s h e =
      Gives-fetched c (concat cs) _ (λ t. fetch_from ask info.id (suc n) (length cs) t) _
        (Gives-chunk_of info n c s here)
        (Gives-fetch_from info (suc n) cs (before ++ chunk_row info n c ∷ []) _ later (
          p.select-stored s info.id n
          ∙ e
          ∙ sym (append_one before (chunk_row info n c) (rows_from info (suc n) cs))))
    where
      own :
          keep (is_chunk info.id n) (chunk_row info n c ∷ rows_from info (suc n) cs)
          ≡ chunk_row info n c ∷ []
      own = ground (arith, ==-refl info.id, later_rows info n (suc n) cs (omega arith))

      here : keep (is_chunk info.id n) (p.stored s) ≡ chunk_row info n c ∷ []
      here =
          ap (keep (is_chunk info.id n)) e
          ∙ keep-append (is_chunk info.id n) before _
          ∙ ap (λ b. b ++ keep (is_chunk info.id n) (rows_from info n (c ∷ cs))) (h n (omega arith))
          ∙ own

      later :
          (i : ℕ) → suc n ≤ i → keep (is_chunk info.id i) (before ++ chunk_row info n c ∷ []) ≡ []
      later i k =
          keep-append (is_chunk info.id i) before (chunk_row info n c ∷ [])
          ∙ ap (λ b. b ++ keep (is_chunk info.id i) (chunk_row info n c ∷ []))
              (h i (omega (arith, k)))
          ∙ ground arith

  Gives-verified :
      (digest : Text → String) (info : Info) (d : Text) (z : Result Text × S)
      → info.size ≡ length d
      → info.sha256 ≡ digest d
      → Gives d z.0
      → Gives d (verified ask digest info z).0
  Gives-verified digest info d (err e, s) size sum (inl k) = absurd (ground arith)
  Gives-verified digest info d (err e, s) size sum (inr k) = inr k
  Gives-verified digest info d (ok x, s) size sum (inr k) = absurd (ground arith)
  Gives-verified digest info d (ok x, s) size sum (inl k) =
      let x_d : x ≡ d = cc in
      let long : nat_beq (length d) info.size ≡ true = ground arith in
      let right : (digest d == info.sha256) ≡ true = ground (arith, ==-refl (digest d)) in
      inl (rw x_d (rw (long, right) refl))

  -- With a service that keeps the promises, after a Put under a new id that reports n chunks, with the size and the digest of the bytes: while
  -- the stored rows are as Put left them, a download of that backup gives exactly those bytes, unless a
  -- request fails. It never misses a chunk, and neither its size nor its digest is refused.
  pub download-put :
      (digest : Text → String) (info : Info) (r : Reader) (size n : ℕ) (s t : S)
      → 0 < size
      → all (is_foreign info.id) (p.stored s) ≡ true
      → info.size ≡ length r.content
      → info.sha256 ≡ digest r.content
      → (put ask info r size s).0 ≡ ok n
      → p.stored t ≡ p.stored (put ask info r size s).1
      → Gives r.content (download ask digest (record info { chunks = n }) t).0
  unfolding download fetch
  download-put digest info r size n s t pos new length_same sum reported same =
      by_put (put ask info r size s) refl (put-AllOrNone ask p info r size s pos)
    where
      by_put :
          (z : Result ℕ × S)
          → put ask info r size s ≡ z
          → AllOrNone ask p info r size s z
          → Gives r.content
              (verified ask digest (record info { chunks = n }) (fetch_from ask info.id 0 n t)).0
      by_put (err e, u) h a = absurd (
          let no : (◌≡◌ {A = Result ℕ} (err e) (ok n)) = ap (λ z. z.0) (sym h) ∙ reported in
          ground arith)
      by_put (ok m, u) h a =
          let m_n : n ≡ length a.chunks =
            (let yes : (◌≡◌ {A = Result ℕ} (ok m) (ok n)) = ap (λ z. z.0) (sym h) ∙ reported in
              let m_n : m ≡ n = cc in sym m_n ∙ a.count) in
          Gives-verified digest (record info { chunks = n }) r.content
            (fetch_from ask info.id 0 n t) length_same sum
            (subst (λ k. Gives r.content (fetch_from ask info.id 0 k t).0) (sym m_n)
              (subst (λ d. Gives d (fetch_from ask info.id 0 (length a.chunks) t).0) a.whole
                (Gives-fetch_from info 0 a.chunks (p.stored s) t
                  (λ i k. foreign_rows info.id i (p.stored s) new)
                  (same ∙ ap (λ z. p.stored z.1) h ∙ a.rows))))
