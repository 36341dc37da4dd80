-- ===== src/Sync/Stitch.antt =====
-- sync/mirror.go, stitch, has and liveSubs: subtransactions are tied to their parents before a batch
-- is written.
pub mod Plain
pub mod Parents
pub mod Tombstones
use ynab_auto_categorizer.Prelude.{
  ℕ, suc, ◌+◌, String, Bool, true, false, not, ◌&&◌, List, [], ◌∷◌, ◌++◌, map, is_some, contains,
  keep, ◌==◌, if◌then◌else◌, string_eq, pair_eq,
}
use ynab_auto_categorizer.Sql.{Sql, pure, query, ◌>>=◌}
use ynab_auto_categorizer.Table.{Table, find}
use ynab_auto_categorizer.Mirror.{Mirror, Key}
use ynab_auto_categorizer.Mirror.Rows.{Transaction, Subtransaction, ScheduledSubtransaction}
use ynab_auto_categorizer.Sync.Mapping.{Batch}

-- What a row is told by in the mirror: SELECT 1 FROM table WHERE plan_id = ? AND id = ?
abbrev pub in_transactions : String → String → Mirror → Bool
in_transactions plan i m = is_some (find (plan, i) m.transactions)

abbrev pub in_scheduled : String → String → Mirror → Bool
in_scheduled plan i m = is_some (find (plan, i) m.scheduled_transactions)

-- `batch` is the map of known ids, which an id found in the mirror joins.
unfoldable pub has :
    (String → Mirror → Bool) → List String → String → Sql Mirror (Bool × List String)
has in_table batch i =
    if contains i batch
    then pure (true, batch)
    else (query (in_table i) >>= λ found. pure (found, if found then i ∷ batch else batch))

module _ {A : Type 0} (parent : A → String) (in_table : String → Mirror → Bool) where
  unfoldable pub keep_or_count : Bool → A → ℕ × List A → ℕ × List A
  keep_or_count known sub (orphans, kept) =
      if known then (orphans, sub ∷ kept) else (suc orphans, kept)

  -- The loop over a batch's children: how many are orphans, and the others.
  unfoldable pub keep_known : List String → List A → Sql Mirror (ℕ × List A)
  keep_known batch [] = pure (0, [])
  keep_known batch (sub ∷ rest) = has in_table batch (parent sub) >>= λ r.
      keep_known r.1 rest >>= λ kept. pure (keep_or_count r.0 sub kept)

-- A row of the SELECT of liveSubs: the id is the key's, the parent and the flag are the query's.
abbrev pub live_copy : String → Key × Subtransaction → Subtransaction
live_copy txn ((p, i), s) = record s { id = i; transaction_id = txn; deleted = false }

abbrev pub is_live_child : String → String → Key × Subtransaction → Bool
is_live_child plan txn ((p, i), s) = p == plan && s.transaction_id == txn && not s.deleted

unfoldable pub select_live : String → String → Table Key Subtransaction → List Subtransaction
select_live plan txn t = map (live_copy txn) (keep (is_live_child plan txn) t)

unfoldable pub live_subs : String → String → Sql Mirror (List Subtransaction)
live_subs plan txn = query (λ m. select_live plan txn m.subtransactions)

abbrev pub buried_copy : Subtransaction → Subtransaction
buried_copy c = record c { deleted = true }

-- Children of a deleted parent that the batch does not mention are deleted with it.
unfoldable pub bury : List String → List Subtransaction → List Subtransaction
bury seen children = map buried_copy (keep (λ c. not (contains c.id seen)) children)

unfoldable pub tombstones :
    String → List String → List Transaction → Sql Mirror (List Subtransaction)
tombstones plan seen [] = pure []
tombstones plan seen (t ∷ rest) =
    let later = tombstones plan seen rest in
    if not t.deleted
    then later
    else (live_subs plan t.id >>= λ children.
        later >>= λ buried. pure (bury seen children ++ buried))

unfoldable pub stitch : String → Batch → Sql Mirror (ℕ × Batch)
stitch plan b =
    keep_known (λ s. s.transaction_id) (in_transactions plan) (map (λ t. t.id) b.transactions)
      b.subs
    >>= λ subs. tombstones plan (map (λ s. s.id) subs.1) b.transactions >>= λ buried.
        keep_known (λ s. s.scheduled_transaction_id) (in_scheduled plan)
          (map (λ t. t.id) b.scheduled) b.scheduled_subs
        >>= λ scheduled. pure (
          subs.0 + scheduled.0,
          record b { subs = subs.1 ++ buried; scheduled_subs = scheduled.1 },
        )
