-- ===== src/Backup/Turso/Promises.antt =====
-- What Turso documents of its streams, as far as backups rely on it, and what the client makes of it.
use ynab_auto_categorizer.Prelude.{
  ℕ, String, Bool, ◌&&◌, ◌≡◌, ap, ◌⊎◌, Option, none, some, List, [], ◌∷◌, ◌++◌, keep, map, nat_beq,
  ◌==◌, string_eq, ok, arith,
}
use ynab_auto_categorizer.Scan.Redaction.{Text}
use ynab_auto_categorizer.Backup.Turso.{
  Info, Value, bytes_of, create_table, begin, commit, insert, select_data, Request, execute, close,
  done, failed, Answer, Baton, answered,
}

-- A row of the table backups.
pub record Chunk : Type 0 where
  pub info : Info
  pub chunk : ℕ
  pub content : Text

abbrev pub chunk_row : Info → ℕ → Text → Chunk
chunk_row info i d = record { info = info; chunk = i; content = d }

abbrev pub is_chunk : String → ℕ → Chunk → Bool
is_chunk id i r = r.info.id == id && nat_beq r.chunk i

-- A statement that succeeds has run; one without an answer may have. What a stream wrote is seen by
-- others once COMMIT has run, and is lost when the stream is closed before.
pub record Promises (S : Type 0) (ask : S → Baton → List Request → Answer × S) : Type 0 where
  -- The committed rows, and those that a stream's transaction has written.
  pub stored : S → List Chunk
  pub written : S → String → Option (List Chunk)
  pub create-stored : (s : S) → stored (ask s none (execute create_table ∷ close ∷ [])).1 ≡ stored s
  pub begin-stored : (s : S) → stored (ask s none (execute begin ∷ [])).1 ≡ stored s
  pub begin-written :
      (s : S) (b : String) (rows : List (List Value))
      → (ask s none (execute begin ∷ [])).0 ≡ some (some b, done rows ∷ [])
      → written (ask s none (execute begin ∷ [])).1 b ≡ some []
  pub insert-stored :
      (s : S) (b : String) (ws : List Chunk) (info : Info) (i : ℕ) (d : Text)
      → written s b ≡ some ws
      → stored (ask s (some b) (execute (insert info i d) ∷ [])).1 ≡ stored s
  pub insert-written :
      (s : S) (b b' : String) (ws : List Chunk) (info : Info) (i : ℕ) (d : Text)
      (rows : List (List Value))
      → written s b ≡ some ws
      → (ask s (some b) (execute (insert info i d) ∷ [])).0 ≡ some (some b', done rows ∷ [])
      → written (ask s (some b) (execute (insert info i d) ∷ [])).1 b'
        ≡ some (ws ++ chunk_row info i d ∷ [])
  pub commit-stored :
      (s : S) (b : String) (ws : List Chunk)
      → written s b ≡ some ws
      → (stored (ask s (some b) (execute commit ∷ close ∷ [])).1 ≡ stored s)
        ⊎ (stored (ask s (some b) (execute commit ∷ close ∷ [])).1 ≡ stored s ++ ws)
  pub commit_done-stored :
      (s : S) (b : String) (ws : List Chunk) (b' : Baton) (rows more : List (List Value))
      → written s b ≡ some ws
      → (ask s (some b) (execute commit ∷ close ∷ [])).0 ≡ some (b', done rows ∷ done more ∷ [])
      → stored (ask s (some b) (execute commit ∷ close ∷ [])).1 ≡ stored s ++ ws
  pub close-stored : (s : S) (b : String) → stored (ask s (some b) (close ∷ [])).1 ≡ stored s
  -- How a stored blob comes back.
  pub value : Text → Value
  pub bytes-value : (d : Text) → bytes_of (value d) ≡ ok d
  pub select-stored :
      (s : S) (id : String) (i : ℕ)
      → stored (ask s none (execute (select_data id i) ∷ close ∷ [])).1 ≡ stored s
  pub select-rows :
      (s : S) (id : String) (i : ℕ) (b : Baton) (rows more : List (List Value))
      → (ask s none (execute (select_data id i) ∷ close ∷ [])).0
        ≡ some (b, done rows ∷ done more ∷ [])
      → rows ≡ map (λ r. value r.content ∷ []) (keep (is_chunk id i) (stored s))

-- An answer that counts as a success is that of statements that ran.
pub answered_one :
    (b b' : Baton) (a : Answer) (rows : List (List (List Value)))
    → answered 1 1 b a ≡ (ok rows, b')
    → (r : List (List Value)) × (a ≡ some (b', done r ∷ [])) × (rows ≡ r ∷ [])
answered_one b b' none rows h = absurd (ground arith)
answered_one b b' (some (c, [])) rows h = absurd (ground arith)
answered_one b b' (some (c, done r ∷ [])) rows h =
    (r, ap (λ c. some (c, done r ∷ [])) (ap (λ x. x.1) h), cc)
answered_one b b' (some (c, failed ∷ [])) rows h = absurd (ground arith)
answered_one b b' (some (c, o ∷ p ∷ os)) rows h = absurd (ground arith)

pub answered_two :
    (b b' : Baton) (a : Answer) (rows : List (List (List Value)))
    → answered 1 2 b a ≡ (ok rows, b')
    → (r more : List (List Value)) × (a ≡ some (b', done r ∷ done more ∷ [])) × (rows ≡ r ∷ [])
answered_two b b' none rows h = absurd (ground arith)
answered_two b b' (some (c, [])) rows h = absurd (ground arith)
answered_two b b' (some (c, o ∷ [])) rows h = absurd (ground arith)
answered_two b b' (some (c, failed ∷ p ∷ [])) rows h = absurd (ground arith)
answered_two b b' (some (c, done r ∷ failed ∷ [])) rows h = absurd (ground arith)
answered_two b b' (some (c, done r ∷ done more ∷ [])) rows h =
    (r, more, ap (λ c. some (c, done r ∷ done more ∷ [])) (ap (λ x. x.1) h), cc)
answered_two b b' (some (c, o ∷ p ∷ q ∷ os)) rows h = absurd (ground arith)
