-- ===== src/Auth/Active/Exact.antt =====
-- auth/storage.go, ActiveTokens: with its cache, it counts the rows that CheckSession would let pass.
use mathlib.Core.Path.{subst}
use ynab_auto_categorizer.Prelude.{
  ℕ, ◌+◌, ℤ, String, Bool, true, false, ◌&&◌, ◌≡◌, refl, ap, sym, ◌∙◌, Option, none, some, List, [],
  ◌∷◌, keep, length, string_eq, if◌then◌else◌, Result, ok, err, arith,
}
use ynab_auto_categorizer.Sql.Reads.{Reads, Reads-query, Reads-pure, Reads-lift, Reads-bind}
use ynab_auto_categorizer.Table.{Table, rows, find, replace}
use ynab_auto_categorizer.Table.Laws.{find-replace}
use ynab_auto_categorizer.Mirror.Rows.{Time}
use ynab_auto_categorizer.Auth.Rows.{Auth, AuthSession, Gen, Grant, Kind, table}
use ynab_auto_categorizer.Auth.Generations.{issued, is_current, generation, current_generation}
use ynab_auto_categorizer.Auth.Active.{
  is_live, scanned_gen, is_chosen, add_gen, add_session, sessions_of, known_generation,
  count_sessions, count_active, active_tokens,
}

-- The generation is the user's current one.
abbrev pub is_of_now : Option ℤ → ℕ → Bool
is_of_now none cur = false
is_of_now (some v) cur = is_current v cur

-- A session of the user that CheckSession lets pass.
abbrev pub works_for : String → Auth → Option AuthSession → Bool
works_for user d none = false
works_for user d (some s) =
    is_chosen user s.subject && is_of_now (issued s.gen) (generation s.subject d)

abbrev pub working : String → Time → Kind → Auth → List Grant
working user now kind d =
    keep (λ g. works_for user d g.request.session) (keep (is_live now kind) (rows (table kind d)))

-- The unexpired tokens and codes of the user, neither rotated nor used, whose session passes.
abbrev pub working_tokens : String → Time → Auth → ℕ
working_tokens user now d =
    length (working user now Kind.access d)
    + length (working user now Kind.refresh d)
    + length (working user now Kind.codes d)

module _ (user : String) (d : Auth) where
  abbrev current_sessions : List (String × ℤ) → ℕ
  current_sessions ss = length (keep (λ p. is_current p.1 (generation p.0 d)) ss)

  abbrev Counted : List Grant → Result (List (String × ℤ)) → Type 0
  Counted gs (err e) = Unit {0}
  Counted gs (ok ss) =
      length (keep (λ g. works_for user d g.request.session) gs) ≡ current_sessions ss

  one_more :
      (c : Bool) (g : Grant) (kept : List Grant) (subject : String) (v : ℤ) (ss : List (String × ℤ))
      → length kept ≡ current_sessions ss
      → length (if c && is_current v (generation subject d) then g ∷ kept else kept)
        ≡ current_sessions (if c then (subject, v) ∷ ss else ss)
  one_more false g kept subject v ss h = h
  one_more true g kept subject v ss h = ground arith

  abbrev working_in : List Grant → List Grant
  working_in gs = keep (λ g. works_for user d g.request.session) gs

  Counted-sessions_of : (gs : List Grant) → Counted gs (sessions_of user gs)
  unfolding sessions_of issued
  Counted-sessions_of [] = refl
  Counted-sessions_of (g ∷ gs) =
      by_session g.request.session refl (sessions_of user gs) (Counted-sessions_of gs)
    where
      tested :
          (s : AuthSession) (gen : Gen)
          → s.gen ≡ gen
          → g.request.session ≡ some s
          → works_for user d g.request.session
            ≡ (is_chosen user s.subject && is_of_now (issued gen) (generation s.subject d))
      tested s gen e own =
          ap (works_for user d) own
          ∙ ap (λ q. is_chosen user s.subject && is_of_now (issued q) (generation s.subject d)) e

      numbered :
          (s : AuthSession) (v : ℤ) (ss : List (String × ℤ))
          → works_for user d g.request.session
            ≡ (is_chosen user s.subject && is_current v (generation s.subject d))
          → Counted gs (ok ss)
          → Counted (g ∷ gs) (add_gen user s.subject (ok (some v)) (ok ss))
      numbered s v ss e h =
          ap (λ b. length (if b then g ∷ working_in gs else working_in gs)) e
          ∙ one_more (is_chosen user s.subject) g (working_in gs) s.subject v ss h

      passed :
          (ss : List (String × ℤ))
          → works_for user d g.request.session ≡ false
          → Counted gs (ok ss)
          → Counted (g ∷ gs) (ok ss)
      passed ss e h = ap (λ b. length (if b then g ∷ working_in gs else working_in gs)) e ∙ h

      by_gen :
          (s : AuthSession) (gen : Gen)
          → s.gen ≡ gen
          → g.request.session ≡ some s
          → (r : Result (List (String × ℤ))) → Counted gs r
          → Counted (g ∷ gs) (add_gen user s.subject (scanned_gen gen) r)
      by_gen s Gen.missing e own (err x) h = tt
      by_gen s Gen.missing e own (ok ss) h =
          passed ss (tested s Gen.missing e own ∙ (ground arith)) h
      by_gen s (Gen.int v) e own (err x) h = tt
      by_gen s (Gen.int v) e own (ok ss) h = numbered s v ss (tested s (Gen.int v) e own) h
      by_gen s (Gen.number v) e own (err x) h = tt
      by_gen s (Gen.number v) e own (ok ss) h = numbered s v ss (tested s (Gen.number v) e own) h
      by_gen s Gen.fraction e own r h = tt
      by_gen s Gen.other e own r h = tt

      by_session :
          (o : Option AuthSession)
          → g.request.session ≡ o
          → (r : Result (List (String × ℤ))) → Counted gs r
          → Counted (g ∷ gs) (add_session user o r)
      by_session none own (err x) h = tt
      by_session none own (ok ss) h = passed ss (ap (works_for user d) own) h
      by_session (some s) own r h = by_gen s s.gen refl own r h

  -- What the cache holds is what the database says.
  abbrev Cached : Table String ℕ → Type 0
  Cached gens = (k : String) (c : ℕ) → find k gens ≡ some c → c ≡ generation k d

  Cached-empty : Cached []
  unfolding find
  Cached-empty k c e = absurd (ground arith)

  Cached-replace :
      (k : String) (gens : Table String ℕ) → Cached gens → Cached (replace k (generation k d) gens)
  Cached-replace k gens h j c e =
      ground (arith, find-replace j k (generation k d) gens, h j c, string_eq.beq_iff k j)

  Reads-known_generation :
      (subject : String) (gens : Table String ℕ) (o : Option ℕ)
      → find subject gens ≡ o
      → Cached gens
      → Reads d (known_generation subject gens o) (λ r. (r.0 ≡ generation subject d) × Cached r.1)
  unfolding known_generation current_generation
  Reads-known_generation subject gens (some cur) e h =
      Reads-pure d (λ r. (r.0 ≡ generation subject d) × Cached r.1) (cur, gens) (h subject cur e, h)
  Reads-known_generation subject gens none e h =
      Reads-bind d (λ cur. cur ≡ generation subject d)
        (λ r. (r.0 ≡ generation subject d) × Cached r.1) _ _
        (Reads-query d _ (generation subject) refl)
        (λ cur k.
          Reads-pure d (λ r. (r.0 ≡ generation subject d) × Cached r.1)
            (cur, replace subject cur gens)
            (
              k,
              subst (λ c. Cached (replace subject c gens)) (sym k) (Cached-replace subject gens h),
            ))

  -- A count from n on.
  abbrev CountedTo : ℕ → ℕ × Table String ℕ → Type 0
  CountedTo n r = (r.0 ≡ n) × Cached r.1

  Reads-count_sessions :
      (n : ℕ) (gens : Table String ℕ) (ss : List (String × ℤ))
      → Cached gens
      → Reads d (count_sessions n gens ss) (CountedTo (n + current_sessions ss))
  unfolding count_sessions
  Reads-count_sessions n gens [] h = Reads-pure d (CountedTo (n + 0)) (n, gens) (omega arith, h)
  Reads-count_sessions n gens ((subject, v) ∷ ss) h =
      Reads-bind d (λ r. (r.0 ≡ generation subject d) × Cached r.1)
        (CountedTo (n + current_sessions ((subject, v) ∷ ss))) _ _
        (Reads-known_generation subject gens (find subject gens) refl h)
        (λ r k.
          subst
            (λ m.
              Reads d (count_sessions (if is_current v r.0 then n + 1 else n) r.1 ss) (CountedTo m))
            (let c : is_current v r.0 ≡ is_current v (generation subject d) =
                ap (is_current v) k.0 in
              rw c (ground arith))
            (Reads-count_sessions (if is_current v r.0 then n + 1 else n) r.1 ss k.1))

  Reads-count_active :
      (now : Time) (kind : Kind) (gens : Table String ℕ)
      → Cached gens
      → Reads d (count_active user now kind gens) (CountedTo (length (working user now kind d)))
  unfolding count_active
  Reads-count_active now kind gens h =
      Reads-bind d (λ gs. gs ≡ keep (is_live now kind) (rows (table kind d)))
        (CountedTo (length (working user now kind d))) _ _
        (Reads-query d _ (λ d. keep (is_live now kind) (rows (table kind d))) refl)
        (λ gs e.
          Reads-bind d (λ ss. length (working user now kind d) ≡ current_sessions ss)
            (CountedTo (length (working user now kind d))) _ _
            (Reads-lift d _ (sessions_of user gs) (λ ss k.
              ap (λ gs. length (working_in gs)) (sym e)
              ∙ subst (Counted gs) k (Counted-sessions_of gs)))
            (λ ss k.
              subst (λ m. Reads d (count_sessions 0 gens ss) (CountedTo m)) (omega (arith, k))
                (Reads-count_sessions 0 gens ss h)))

-- Whatever statements fail, and while nobody else writes: ActiveTokens changes nothing, and a count that
-- it gives is the number of the user's tokens and codes that work, each looked up with no cache.
pub Reads-active_tokens :
    (user : String) (now : Time) (d : Auth)
    → Reads d (active_tokens user now) (λ n. n ≡ working_tokens user now d)
unfolding active_tokens
Reads-active_tokens user now d =
    Reads-bind d (CountedTo user d (length (working user now Kind.access d)))
      (λ n. n ≡ working_tokens user now d) _ _
      (Reads-count_active user d now Kind.access [] (Cached-empty user d))
      (λ a ha.
        Reads-bind d (CountedTo user d (length (working user now Kind.refresh d)))
          (λ n. n ≡ working_tokens user now d) _ _
          (Reads-count_active user d now Kind.refresh a.1 ha.1)
          (λ r hr.
            Reads-bind d (CountedTo user d (length (working user now Kind.codes d)))
              (λ n. n ≡ working_tokens user now d) _ _
              (Reads-count_active user d now Kind.codes r.1 hr.1)
              (λ c hc.
                Reads-pure d (λ n. n ≡ working_tokens user now d) (a.0 + r.0 + c.0)
                  (omega (arith, ha.0, hr.0, hc.0)))))
