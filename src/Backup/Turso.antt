-- ===== src/Backup/Turso.antt =====
-- backup/turso.go: backups in chunks over Hrana's pipelines. `ask` is one round trip to Turso: the
-- request's JSON and HTTP, and what they make of the service's state S; a statement stands for its SQL.
pub mod Promises
pub mod Chunks
pub mod Put
pub mod Fetch
use ynab_auto_categorizer.Prelude.{
  ℕ, zero, suc, ◌+◌, String, Bool, true, false, not, ◌&&◌, Option, none, some, List, [], ◌∷◌, ◌++◌,
  map, length, take, drop, leb, nat_beq, ◌==◌, string_eq, if◌then◌else◌, Result, ok, err, Error,
  remote, stream_closed, read_failed, chunk_missing, wrong_size, wrong_sum,
}
use ynab_auto_categorizer.Scan.Redaction.{Text}

-- Size and sha256 are the ciphertext's.
pub record Info : Type 0 where
  pub id : String
  pub created_at : String
  pub size : ℕ
  pub sha256 : String
  pub chunks : ℕ

-- A value of an answer: a blob whose base64 may be malformed, a null, or something else.
pub data Value : Type 0 where
  blob : Option Text → Value
  null other : Value

abbrev pub bytes_of : Value → Result Text
bytes_of (blob none) = err remote
bytes_of (blob (some d)) = ok d
bytes_of null = ok []
bytes_of other = ok []

pub data Stmt : Type 0 where
  create_table begin commit : Stmt
  insert : Info → ℕ → Text → Stmt
  select_data : String → ℕ → Stmt

pub data Request : Type 0 where
  execute : Stmt → Request
  close : Request

-- What became of one request: its rows, or an error.
pub data Outcome : Type 0 where
  done : List (List Value) → Outcome
  failed : Outcome

abbrev pub Baton : Type 0
Baton = Option String

-- Nothing if there is no answer to read; else the next baton and the outcomes.
abbrev pub Answer : Type 0
Answer = Option (Baton × List Outcome)

abbrev pub rows_of : List Outcome → Result (List (List (List Value)))
rows_of [] = ok []
rows_of (failed ∷ os) = err remote
rows_of (done rs ∷ os) = elim (rows_of os) [ ok rest ↦ ok (rs ∷ rest) | err e ↦ err e ]

abbrev pub requests : Bool → List Stmt → List Request
requests closing stmts = map execute stmts ++ (if closing then close ∷ [] else [])

abbrev pub first_rows : ℕ → Result (List (List (List Value))) → Result (List (List (List Value)))
first_rows n (err e) = err e
first_rows n (ok rows) = ok (take n rows)

-- The latest known baton, also beside an error.
abbrev pub answered : ℕ → ℕ → Baton → Answer → Result (List (List (List Value))) × Baton
answered stmts reqs b none = (err remote, b)
answered stmts reqs b (some (b', os)) =
    (if nat_beq (length os) reqs then first_rows stmts (rows_of os) else err remote, b')

-- The contents of an io.Reader, and whether reading past them fails.
pub record Reader : Type 0 where
  pub content : Text
  pub broken : Bool

-- eachChunk over any state of the callback. Fuel as long as the data is enough.
module _ {X : Type 0} (fn : ℕ → Text → X → Result (Unit {0}) × X) where
  abbrev pub passed : ℕ → Result (Unit {0}) × X → Result ℕ × X
  passed n (err e, x) = (err e, x)
  passed n (ok u, x) = (ok n, x)

  -- The read did not fill the buffer: n chunks are passed, and the data is what remains.
  abbrev pub at_end : ℕ → Text → X → Result ℕ × X
  at_end zero [] x = passed 1 (fn 0 [] x)
  at_end (suc n) [] x = (ok (suc n), x)
  at_end n (c ∷ cs) x = passed (suc n) (fn n (c ∷ cs) x)

  abbrev pub short_read : ℕ → Reader → X → Result ℕ × X
  short_read n r x = if r.broken then (err read_failed, x) else at_end n r.content x

  abbrev pub go_on : (X → Result ℕ × X) → Result (Unit {0}) × X → Result ℕ × X
  go_on rest (err e, x) = (err e, x)
  go_on rest (ok u, x) = rest x

  unfoldable pub each_chunk : ℕ → ℕ → ℕ → Reader → X → Result ℕ × X
  each_chunk zero size n r x = short_read n r x
  each_chunk (suc fuel) size n r x =
      if leb size (length r.content)
      then go_on (λ y. each_chunk fuel size (suc n) (record r { content = drop size r.content }) y)
          (fn n (take size r.content) x)
      else short_read n r x

-- requireStream
abbrev pub is_open : Baton → Bool
is_open none = false
is_open (some b) = not (b == "")

module _ {S : Type 0} (ask : S → Baton → List Request → Answer × S) where
  unfoldable pub pipeline :
      Baton → Bool → List Stmt → S → (Result (List (List (List Value))) × Baton) × S
  pipeline b closing stmts s =
      let reqs = requests closing stmts in
      let (a, s') = ask s b reqs in (answered (length stmts) (length reqs) b a, s')

  -- On a stream of its own.
  abbrev pub exec : List Stmt → S → Result (List (List (List Value))) × S
  exec stmts s = let (r, s') = pipeline none true stmts s in (r.0, s')

  -- The deferred call of Put: closing the stream rolls back.
  abbrev pub roll_back : Baton → S → S
  roll_back none s = s
  roll_back (some b) s = (pipeline (some b) true [] s).1

  abbrev pub inserted :
      (Result (List (List (List Value))) × Baton) × S → Result (Unit {0}) × (Baton × S)
  inserted ((err e, b), s) = (err e, (b, s))
  inserted ((ok rows, b), s) = (if is_open b then ok tt else err stream_closed, (b, s))

  abbrev pub insert_chunk : Info → ℕ → Text → Baton × S → Result (Unit {0}) × (Baton × S)
  insert_chunk info i chunk (b, s) = inserted (pipeline b false (insert info i chunk ∷ []) s)

  abbrev pub committed : ℕ → (Result (List (List (List Value))) × Baton) × S → Result ℕ × S
  committed n ((err e, b), s) = (err e, roll_back b s)
  committed n ((ok rows, b), s) = (ok n, s)

  abbrev pub finish : Result ℕ × (Baton × S) → Result ℕ × S
  finish (err e, (b, s)) = (err e, roll_back b s)
  finish (ok n, (b, s)) = committed n (pipeline b true (commit ∷ []) s)

  abbrev pub begun :
      Info → Reader → ℕ → (Result (List (List (List Value))) × Baton) × S → Result ℕ × S
  begun info r size ((err e, b), s) = (err e, roll_back b s)
  begun info r size ((ok rows, b), s) =
      if is_open b
      then finish (each_chunk (insert_chunk info) (length r.content) size 0 r (b, s))
      else (err stream_closed, roll_back b s)

  abbrev pub table_ready : Info → Reader → ℕ → Result (List (List (List Value))) × S → Result ℕ × S
  table_ready info r size (err e, s) = (err e, s)
  table_ready info r size (ok rows, s) = begun info r size (pipeline none false (begin ∷ []) s)

  unfoldable pub put : Info → Reader → ℕ → S → Result ℕ × S
  unfolding pipeline each_chunk
  put info r size s = table_ready info r size (exec (create_table ∷ []) s)

  -- The one value of the one row.
  abbrev pub chunk_of : Result (List (List (List Value))) → Result Text
  chunk_of (err e) = err e
  chunk_of (ok (((v ∷ []) ∷ []) ∷ rest)) = bytes_of v
  chunk_of (ok rows) = err chunk_missing

  abbrev pub append_to : Text → Result Text × S → Result Text × S
  append_to d (err e, s) = (err e, s)
  append_to d (ok rest, s) = (ok (d ++ rest), s)

  abbrev pub fetched : Result Text → (S → Result Text × S) → S → Result Text × S
  fetched (err e) rest s = (err e, s)
  fetched (ok d) rest s = append_to d (rest s)

  -- Fetch into a writer that does not fail: chunk i and the `left` ones from there.
  unfoldable pub fetch_from : String → ℕ → ℕ → S → Result Text × S
  unfolding pipeline
  fetch_from id i zero s = (ok [], s)
  fetch_from id i (suc left) s =
      let (r, s') = exec (select_data id i ∷ []) s in
      fetched (chunk_of r) (λ t. fetch_from id (suc i) left t) s'

  unfoldable pub fetch : Info → S → Result Text × S
  unfolding fetch_from
  fetch info s = fetch_from info.id 0 info.chunks s

  -- The download of Restore (backup/backup.go); `digest` is the hex SHA-256.
  module _ (digest : Text → String) where
    abbrev pub verified : Info → Result Text × S → Result Text × S
    verified info (err e, s) = (err e, s)
    verified info (ok d, s) = (
      if not (nat_beq (length d) info.size)
          then err wrong_size
          else if not (digest d == info.sha256)
          then err wrong_sum
          else ok d,
      s,
    )

    unfoldable pub download : Info → S → Result Text × S
    unfolding fetch
    download info s = verified info (fetch info s)
