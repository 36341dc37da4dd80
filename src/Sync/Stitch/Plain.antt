-- ===== src/Sync/Stitch/Plain.antt =====
-- What stitch computes from the mirror and the batch, with no statements and no map of known ids.
use mathlib.Core.Path.{subst, fun_ext}
use ynab_auto_categorizer.Prelude.{
  ℕ, ◌+◌, String, Bool, true, false, not, ◌||◌, ◌≡◌, refl, ◌∙◌, List, [], ◌∷◌, ◌++◌, map, contains,
  keep, if◌then◌else◌, string_eq, pair_eq, arith, ok, length, string_eq,
}
use ynab_auto_categorizer.Sql.{Sql, pure, query, ◌>>=◌}
use ynab_auto_categorizer.Sql.Refines.{Method, Refines, Refines-pure, Refines-query, Refines-bind}
use ynab_auto_categorizer.Mirror.{Mirror}
use ynab_auto_categorizer.Mirror.Rows.{Transaction, Subtransaction}
use ynab_auto_categorizer.Sync.Mapping.{Batch}
use ynab_auto_categorizer.Sync.Stitch.{
  in_transactions, in_scheduled, has, keep_or_count, keep_known, select_live, live_subs, bury,
  tombstones, stitch,
}

-- An action that only reads.
abbrev pub reads : {A : Type 0} → (Mirror → A) → Method Mirror A
reads f d = (ok (f d), d)

module _ {A : Type 0} (parent : A → String) where
  -- Orphans are counted and dropped, the others kept in order.
  abbrev pub with_parent : (String → Bool) → List A → List A
  with_parent p = keep (λ sub. p (parent sub))

  abbrev pub count_orphans : (String → Bool) → List A → ℕ
  count_orphans p l = length (keep (λ sub. not (p (parent sub))) l)

  abbrev pub sorted : (String → Bool) → List A → ℕ × List A
  sorted p l = (count_orphans p l, with_parent p l)

module _ (in_table : String → Mirror → Bool) where
  -- A parent is in the batch or in the mirror.
  abbrev pub known : List String → Mirror → String → Bool
  known batch d i = contains i batch || in_table i d

  abbrev looked_up : List String → String → Mirror → Bool × List String
  looked_up batch i d =
      if contains i batch
      then (true, batch)
      else (in_table i d, if in_table i d then i ∷ batch else batch)

  -- `c` is whether the id is in the map already.
  Refines-has_if :
      (c : Bool) (batch : List String) (i : String)
      → Refines {A = Bool × List String}
          (if c
            then pure (true, batch)
            else (query (in_table i) >>= λ found. pure (found, if found then i ∷ batch else batch)))
          (reads (λ d.
            if c then (true, batch) else (in_table i d, if in_table i d then i ∷ batch else batch)))
  Refines-has_if true batch i = Refines-pure (true, batch)
  Refines-has_if false batch i =
      Refines-bind _ _ _ (λ found d. (ok (found, if found then i ∷ batch else batch), d))
        (Refines-query (in_table i)) (λ found. Refines-pure _)

  Refines-has :
      (batch : List String) (i : String)
      → Refines (has in_table batch i) (reads (looked_up batch i))
  unfolding has
  Refines-has batch i = Refines-has_if (contains i batch) batch i

  looked_up-known :
      (batch : List String) (i : String) (d : Mirror) → (looked_up batch i d).0 ≡ known batch d i
  looked_up-known batch i d = ground arith

  -- The map of known ids only saves statements.
  known-looked_up :
      (batch : List String) (i j : String) (d : Mirror)
      → known (looked_up batch i d).1 d j ≡ known batch d j
  known-looked_up batch i j d = ground (arith, string_eq.beq_iff i j)

  module _ {A : Type 0} (parent : A → String) where
    cached : List String → List A → Mirror → ℕ × List A
    unfolding keep_or_count
    cached batch [] d = (0, [])
    cached batch (sub ∷ rest) d =
        keep_or_count parent in_table (looked_up batch (parent sub) d).0 sub
          (cached (looked_up batch (parent sub) d).1 rest d)

    Refines-cached :
        (batch : List String) (l : List A)
        → Refines (keep_known parent in_table batch l) (reads (cached batch l))
    unfolding keep_known cached
    Refines-cached batch [] = Refines-pure (0, [])
    Refines-cached batch (sub ∷ rest) =
        Refines-bind _ _ _ _ (Refines-has batch (parent sub))
          (λ r. Refines-bind _ _ _ _ (Refines-cached r.1 rest) (λ kept. Refines-pure _))

    cached-eq-sorted :
        (p : String → Bool) (batch : List String) (l : List A) (d : Mirror)
        → ((i : String) → known batch d i ≡ p i)
        → cached batch l d ≡ sorted parent p l
    unfolding cached
    cached-eq-sorted p batch [] d h = refl
    cached-eq-sorted p batch (sub ∷ rest) d h = ground (
      arith,
      h (parent sub),
      looked_up-known batch (parent sub) d,
      cached-eq-sorted p (looked_up batch (parent sub) d).1 rest d
          (λ i. known-looked_up batch (parent sub) i d ∙ h i),
    )

    Refines-keep_known :
        (batch : List String) (l : List A)
        → Refines
            (keep_known parent in_table batch l)
            (reads (λ d. sorted parent (known batch d) l))
    Refines-keep_known batch l =
        subst (λ f. Refines (keep_known parent in_table batch l) (reads f))
          (fun_ext (λ d. cached-eq-sorted (known batch d) batch l d (λ i. refl)))
          (Refines-cached batch l)

module _ (plan : String) where
  -- The children that a batch with the subtransactions `seen` buries, in a mirror.
  unfoldable pub buried : List String → List Transaction → Mirror → List Subtransaction
  buried seen [] d = []
  buried seen (t ∷ rest) d =
      let later = buried seen rest d in
      if not t.deleted then later else bury seen (select_live plan t.id d.subtransactions) ++ later

  Refines-bury_if :
      (c : Bool) (seen : List String) (t : Transaction) (later : Sql Mirror (List Subtransaction))
      (f : Mirror → List Subtransaction)
      → Refines later (reads f)
      → Refines
          (if c
            then later
            else (live_subs plan t.id >>= λ children.
                later >>= λ more. pure (bury seen children ++ more)))
          (reads
            (λ d. if c then f d else bury seen (select_live plan t.id d.subtransactions) ++ f d))
  unfolding live_subs
  Refines-bury_if true seen t later f h = h
  Refines-bury_if false seen t later f h =
      Refines-bind _ _ _ (λ children d. (ok (bury seen children ++ f d), d)) (Refines-query _)
        (λ children.
          Refines-bind _ _ _ (λ more d. (ok (bury seen children ++ more), d)) h
            (λ more. Refines-pure _))

  Refines-tombstones :
      (seen : List String) (ts : List Transaction)
      → Refines (tombstones plan seen ts) (reads (buried seen ts))
  unfolding tombstones buried
  Refines-tombstones seen [] = Refines-pure []
  Refines-tombstones seen (t ∷ rest) =
      Refines-bury_if (not t.deleted) seen t (tombstones plan seen rest) (buried seen rest)
        (Refines-tombstones seen rest)

  abbrev ids : List Transaction → List String
  ids = map (λ t. t.id)

  -- What the two tables hold besides the batch.
  unfoldable pub has_parent : Batch → Mirror → String → Bool
  has_parent b d = known (in_transactions plan) (map (λ t. t.id) b.transactions) d

  unfoldable pub has_schedule : Batch → Mirror → String → Bool
  has_schedule b d = known (in_scheduled plan) (map (λ t. t.id) b.scheduled) d

  abbrev pub kept_subs : Batch → Mirror → List Subtransaction
  kept_subs b d = with_parent (λ s. s.transaction_id) (has_parent b d) b.subs

  -- The batch that is written, and the number of orphans.
  unfoldable pub stitched : Batch → Mirror → ℕ × Batch
  unfolding has_parent has_schedule buried
  stitched b d = (
    count_orphans (λ s. s.transaction_id) (has_parent b d) b.subs
        + count_orphans (λ s. s.scheduled_transaction_id) (has_schedule b d) b.scheduled_subs,
    record b {
      subs = kept_subs b d ++ buried (map (λ s. s.id) (kept_subs b d)) b.transactions d;
      scheduled_subs =
          with_parent (λ s. s.scheduled_transaction_id) (has_schedule b d) b.scheduled_subs;
    },
  )

  -- The statements of stitch compute `stitched` and change nothing.
  pub Refines-stitch : (b : Batch) → Refines (stitch plan b) (reads (stitched b))
  unfolding stitch stitched
  Refines-stitch b =
      Refines-bind _ _ _ _
        (Refines-keep_known (in_transactions plan) (λ s. s.transaction_id) (ids b.transactions)
          b.subs)
        (λ subs.
          Refines-bind _ _ _ _ (Refines-tombstones (map (λ s. s.id) subs.1) b.transactions) (λ more.
            Refines-bind _ _ _ _
              (Refines-keep_known (in_scheduled plan) (λ s. s.scheduled_transaction_id)
                (map (λ t. t.id) b.scheduled) b.scheduled_subs)
              (λ scheduled. Refines-pure _)))
