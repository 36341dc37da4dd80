-- ===== src/Sync/Stitch/Tombstones.antt =====
-- sync/mirror.go, stitch: when a parent is deleted, its children that the batch does not mention are
-- deleted with it.
use ynab_auto_categorizer.Prelude.{
  String, true, false, not, ◌≡◌, refl, ◌∙◌, sym, ap, some, List, [], ◌∷◌, map, all, keep, contains,
  arith, ==-refl, string_eq, pair_eq, all-append, Bool-cases, inl, inr, Among, any-append,
  Among-append, Among-keep, all-Among, or_left, or_right, or_left_false,
}
use ynab_auto_categorizer.Table.{Table, find}
use ynab_auto_categorizer.Table.Batches.{mentions, newest, newest_cases}
use ynab_auto_categorizer.Mirror.{Mirror, Key}
use ynab_auto_categorizer.Mirror.Find.{subtransaction_key}
use ynab_auto_categorizer.Mirror.Rows.{Transaction, Subtransaction}
use ynab_auto_categorizer.Sync.Stitch.{select_live, buried_copy, bury}
use ynab_auto_categorizer.Sync.Stitch.Plain.{buried, has_parent, kept_subs, stitched}
use ynab_auto_categorizer.Sync.Mapping.{Batch}

module _ (plan : String) where
  bury-deleted_map : (cs : List Subtransaction) → all (λ s. s.deleted) (map buried_copy cs) ≡ true
  bury-deleted_map [] = refl
  bury-deleted_map (c ∷ cs) = bury-deleted_map cs

  bury-deleted :
      (seen : List String) (cs : List Subtransaction) → all (λ s. s.deleted) (bury seen cs) ≡ true
  unfolding bury
  bury-deleted seen cs = bury-deleted_map (keep (λ c. not (contains c.id seen)) cs)

  pub buried-deleted :
      (seen : List String) (ts : List Transaction) (d : Mirror)
      → all (λ s. s.deleted) (buried plan seen ts d) ≡ true
  unfolding buried
  buried-deleted seen [] d = refl
  buried-deleted seen (t ∷ ts) d = elim (Bool-cases t.deleted) [
    | inl gone ↦ rw gone (
        all-append (λ (s : Subtransaction). s.deleted)
          (bury seen (select_live plan t.id d.subtransactions)) (buried plan seen ts d)
          (bury-deleted seen (select_live plan t.id d.subtransactions)) (buried-deleted seen ts d))
    | inr live ↦ rw live (buried-deleted seen ts d)
  ]

  -- A live child of the parent is buried unless it was seen.
  bury-mentions :
      (i txn : String) (s : Subtransaction) (seen : List String) (t : Table Key Subtransaction)
      → find (plan, i) t ≡ some s
      → s.transaction_id ≡ txn
      → s.deleted ≡ false
      → contains i seen ≡ false
      → mentions (subtransaction_key plan) (plan, i) (bury seen (select_live plan txn t)) ≡ true
  unfolding bury select_live find
  bury-mentions i txn s seen [] f p l c = absurd (ground arith)
  bury-mentions i txn s seen (((q, j), r) ∷ t) f p l c = ground (
    arith,
    string_eq.beq_iff q plan,
    string_eq.beq_iff j i,
    string_eq.beq_iff r.transaction_id txn,
    ==-refl plan,
    ==-refl i,
    bury-mentions i txn s seen t,
  )

  buried-mentions :
      (i : String) (s : Subtransaction) (seen : List String) (t : Transaction)
      (ts : List Transaction) (d : Mirror)
      → Among t ts
      → t.deleted ≡ true
      → find (plan, i) d.subtransactions ≡ some s
      → s.transaction_id ≡ t.id
      → s.deleted ≡ false
      → contains i seen ≡ false
      → mentions (subtransaction_key plan) (plan, i) (buried plan seen ts d) ≡ true
  unfolding buried
  buried-mentions i s seen t [] d h gone f p l c = elim h [ ]
  buried-mentions i s seen t (u ∷ ts) d (inl e) gone f p l c =
      rw (ap (λ (x : Transaction). x.deleted) (sym e) ∙ gone) (
        any-append _ (bury seen (select_live plan u.id d.subtransactions)) (buried plan seen ts d)
        ∙ or_left _ (
            bury-mentions i u.id s seen d.subtransactions f (p ∙ ap (λ (x : Transaction). x.id) e) l
              c))
  buried-mentions i s seen t (u ∷ ts) d (inr h) gone f p l c =
      let later = buried-mentions i s seen t ts d h gone f p l c in
      elim (Bool-cases u.deleted) [
        | inl yes_ ↦ rw yes_ (
            any-append _ (bury seen (select_live plan u.id d.subtransactions))
              (buried plan seen ts d)
            ∙ or_right _ later)
        | inr no_ ↦ rw no_ later
      ]

  contains-subs :
      (i : String) (xs : List Subtransaction)
      → contains i (map (λ s. s.id) xs) ≡ mentions (subtransaction_key plan) (plan, i) xs
  contains-subs i [] = refl
  contains-subs i (x ∷ xs) = ground (arith, ==-refl plan, contains-subs i xs)

  module _ (b : Batch) (d : Mirror) (t : Transaction) (i : String) (c : Subtransaction) where
    abbrev seen : List String
    seen = map (λ s. s.id) (kept_subs plan b d)

    -- A live child of a deleted parent that the written rows do not mention was not in the mirror.
    unmentioned_child :
        Among t b.transactions
        → t.deleted ≡ true
        → c.transaction_id ≡ t.id
        → c.deleted ≡ false
        → mentions (subtransaction_key plan) (plan, i) (stitched plan b d).1.subs ≡ false
        → find (plan, i) d.subtransactions ≡ some c
        → ⊥
    unfolding stitched
    unmentioned_child h gone p l u f =
        let both =
          sym (any-append _ (kept_subs plan b d) (buried plan seen b.transactions d)) ∙ u in
        let new = contains-subs i (kept_subs plan b d) ∙ or_left_false _ both in
        absurd (ground (arith, both, buried-mentions i c seen t b.transactions d h gone f p l new))

    -- A written row that is live was sent by the batch.
    written_child : c.deleted ≡ false → Among c (stitched plan b d).1.subs → Among c b.subs
    unfolding stitched
    written_child l m =
        elim (Among-append c (kept_subs plan b d) (buried plan seen b.transactions d) m) [
          | inl kept ↦ Among-keep c (λ s. has_parent plan b d s.transaction_id) b.subs kept
          | inr gone ↦ absurd (
              ground (
                arith,
                all-Among (λ (s : Subtransaction). s.deleted) c (buried plan seen b.transactions d)
                    (buried-deleted seen b.transactions d) gone,
              ))
        ]

    pub live_child_of_deleted :
        Among t b.transactions
        → t.deleted ≡ true
        → c.transaction_id ≡ t.id
        → c.deleted ≡ false
        → newest
            (subtransaction_key plan)
            (λ x _. x)
            (plan, i)
            (stitched plan b d).1.subs
            (find (plan, i) d.subtransactions)
          ≡ some c
        → Among c b.subs
    live_child_of_deleted h gone p l e =
        elim (newest_cases (subtransaction_key plan) (plan, i) (stitched plan b d).1.subs
          (find (plan, i) d.subtransactions) c e) [
            | inl m ↦ written_child l m
            | inr (u, f) ↦ absurd (unmentioned_child h gone p l u f)
          ]
