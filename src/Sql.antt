-- ===== src/Sql.antt =====
-- store/store.go (writeTx) and the use of database/sql: an action runs statements on a database of
-- type `S`. The driver may fail any statement, so a session holds a plan of faults.
pub mod Refines
pub mod Atomic
pub mod Keeps
pub mod Preserves
pub mod Outcomes
pub mod Single
pub mod Calm
pub mod Reads
use ynab_auto_categorizer.Prelude.{
  ℕ, suc, Bool, true, false, List, [], ◌∷◌, Error, Result, ok, err, driver, constraint,
  if◌then◌else◌,
}

-- A failed statement changes nothing: SQLite undoes it (its default is ABORT).
pub record Session (S : Type 0) : Type 0 where
  pub db : S
  pub stmt : ℕ  -- how many statements have been sent
  pub fault : ℕ → Bool  -- whether the driver fails the n-th statement

abbrev pub Sql : Type 0 → Type 0 → Type 0
Sql S A = Session S → Result A × Session S

module _ {S : Type 0} where
  unfoldable pub next : Session S → Session S
  next s = record s { stmt = suc s.stmt }

  module _ {A : Type 0} where
    unfoldable pub pure : A → Sql S A
    pure a s = (ok a, s)

    unfoldable pub raise : Error → Sql S A
    raise e s = (err e, s)

    unfoldable pub lift : Result A → Sql S A
    lift r s = (r, s)

    -- One statement: it fails and changes nothing, or it runs.
    unfoldable pub exec : (S → A × S) → Sql S A
    unfolding next
    exec f s =
        if s.fault s.stmt
        then (err driver, next s)
        else let (a, d) = f s.db in (ok a, record s { db = d; stmt = suc s.stmt })

    -- A statement that a constraint of the table may refuse; the database then stays as it was.
    unfoldable pub exec_checked : (S → Result A × S) → Sql S A
    unfolding next
    exec_checked f s =
        if s.fault s.stmt
        then (err driver, next s)
        else let (r, d) = f s.db in (r, record s { db = d; stmt = suc s.stmt })

    -- A SELECT.
    unfoldable pub query : (S → A) → Sql S A
    unfolding exec
    query f = exec (λ d. (f d, d))

  -- A statement whose result is not read.
  unfoldable pub run : (S → S) → Sql S (Unit {0})
  unfolding exec
  run f = exec (λ d. (tt, f d))

  module _ {A B : Type 0} where
    abbrev pub continue : Result A → (A → Sql S B) → Sql S B
    continue (ok a) f s = f a s
    continue (err e) f s = (err e, s)

    infixl 10 ◌>>=◌ ◌>>◌
    unfoldable pub ◌>>=◌ : Sql S A → (A → Sql S B) → Sql S B
    ◌>>=◌ m f s = let (r, s') = m s in continue r f s'

    abbrev pub ◌>>◌ : Sql S A → Sql S B → Sql S B
    m >> n = m >>= λ _. n

  -- `upsert` of store/mirror.go: one prepared statement, executed once for each row.
  module _ {R : Type 0} where
    unfoldable pub exec_each : (R → S → S) → List R → Sql S (Unit {0})
    unfolding pure run
    exec_each step [] = pure tt
    exec_each step (r ∷ rs) = run (step r) >>= λ _. exec_each step rs

    unfoldable pub upsert : (R → S → S) → List R → Sql S (Unit {0})
    unfolding exec_each pure query
    upsert step [] = pure tt
    upsert step (r ∷ rs) = query (λ _. tt) >>= λ _. exec_each step (r ∷ rs)

  module _ {A : Type 0} where
    -- The statements that end a transaction. `old` is what ROLLBACK restores. A ROLLBACK that
    -- fails drops the connection, and SQLite rolls back when it closes.
    unfoldable pub end_tx : (S → Bool) → S → Result A → Sql S A
    unfolding next
    end_tx check old (err e) s = (err e, record s { db = old; stmt = suc s.stmt })
    end_tx check old (ok a) s =
        if s.fault s.stmt
        then (err driver, record s { db = old; stmt = suc (suc s.stmt) })
        else if check s.db
        then (ok a, record s { stmt = suc s.stmt })
        else (err constraint, record s { db = old; stmt = suc (suc s.stmt) })

    -- `check` is what COMMIT verifies: the deferred foreign keys. The connection and BEGIN
    -- IMMEDIATE come first.
    unfoldable pub write_tx : (S → Bool) → Sql S A → Sql S A
    unfolding query end_tx ◌>>=◌
    write_tx check fn = query (λ _. tt) >>= λ _.
        query (λ _. tt) >>= λ _. λ s. let (r, s') = fn s in end_tx check s.db r s'
