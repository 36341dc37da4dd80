-- ===== src/Tests/Backups.antt =====
-- backup/: a backup to a service that keeps Turso's promises, and its download.
use ynab_auto_categorizer.Prelude.{
  ℕ, String, true, false, ◌≡◌, refl, inr, Option, none, some, List, [], ◌∷◌, ◌++◌, map, keep, ok,
  err, arith, read_failed, wrong_size,
}
use ynab_auto_categorizer.Scan.Redaction.{Text}
use ynab_auto_categorizer.Backup.Turso.{
  Info, blob, create_table, begin, commit, insert, select_data, Request, execute, close, done,
  Answer, Baton, Reader, each_chunk, pipeline, put, fetch_from, fetch, download,
}
use ynab_auto_categorizer.Backup.Turso.Promises.{Chunk, chunk_row, is_chunk, Promises}
use ynab_auto_categorizer.Backup.Turso.Put.{AllOrNone, put-AllOrNone}
use ynab_auto_categorizer.Backup.Turso.Fetch.{Gives, download-put}

-- The rows, and what the one open transaction has written.
record Service : Type 0 where
  rows : List Chunk
  stream : Option (List Chunk)

abbrev with_row : Option (List Chunk) → Chunk → Service → Service
with_row none row s = record s { rows = s.rows ++ row ∷ [] }
with_row (some ws) row s = record s { stream = some (ws ++ row ∷ []) }

abbrev committed_rows : Option (List Chunk) → Service → Service
committed_rows none s = s
committed_rows (some ws) s = record { rows = s.rows ++ ws; stream = none }

abbrev serve : Service → Baton → List Request → Answer × Service
serve s none (execute create_table ∷ close ∷ []) = (some (none, done [] ∷ done [] ∷ []), s)
serve s none (execute begin ∷ []) = (some (some "b", done [] ∷ []), record s { stream = some [] })
serve s none (execute (select_data id i) ∷ close ∷ []) = (
  some (
    none,
    done (map (λ (r : Chunk). blob (some r.content) ∷ []) (keep (is_chunk id i) s.rows))
        ∷ done []
        ∷ [],
  ),
  s,
)
serve s (some b) (execute (insert info i d) ∷ []) =
    (some (some b, done [] ∷ []), with_row s.stream (chunk_row info i d) s)
serve s (some b) (execute commit ∷ close ∷ []) =
    (some (none, done [] ∷ done [] ∷ []), committed_rows s.stream s)
serve s (some b) (close ∷ []) = (some (none, done [] ∷ []), record s { stream = none })
serve s b rs = (none, s)

promises : Promises Service serve
promises = record {
  stored = λ s. s.rows;
  written = λ s b. s.stream;
  create-stored = λ s. refl;
  begin-stored = λ s. refl;
  begin-written = λ s b rows e. refl;
  insert-stored = λ s b ws info i d e. rw e refl;
  insert-written = λ s b b' ws info i d rows e f. rw e refl;
  commit-stored = λ s b ws e. inr (rw e refl);
  commit_done-stored = λ s b ws b' rows more e f. rw e refl;
  close-stored = λ s b. refl;
  value = λ d. blob (some d);
  bytes-value = λ d. refl;
  select-stored = λ s id i. refl;
  select-rows = λ s id i b rows more e. cc;
}

abbrev digest : Text → String
digest [] = "empty"
digest (c ∷ cs) = "sum"

abbrev info_of : String → ℕ → Info
info_of id size = record {
  id = id;
  created_at = "2026-11-01T03:00:00.000Z";
  size = size;
  sha256 = "sum";
  chunks = 0;
}

abbrev ciphertext : Reader
ciphertext = record { content = 1 ∷ 2 ∷ 3 ∷ 4 ∷ 5 ∷ []; broken = false }

abbrev older : Service
older = record { rows = chunk_row (info_of "y" 1) 0 (9 ∷ []) ∷ []; stream = none }

abbrev after : Service
after = (put serve (info_of "x" 5) ciphertext 2 older).1

reports_three : (put serve (info_of "x" 5) ciphertext 2 older).0 ≡ ok 3
unfolding put download fetch fetch_from each_chunk pipeline
reports_three = refl

numbers_chunks :
    map (λ (r : Chunk). r.content) after.rows
    ≡ (9 ∷ []) ∷ (1 ∷ 2 ∷ []) ∷ (3 ∷ 4 ∷ []) ∷ (5 ∷ []) ∷ []
unfolding put download fetch fetch_from each_chunk pipeline
numbers_chunks = refl

-- A file that breaks off is not stored, and an empty one is one empty chunk.
refuses_broken :
    put serve (info_of "x" 5) (record ciphertext { broken = true }) 2 older
    ≡ (err read_failed, older)
unfolding put download fetch fetch_from each_chunk pipeline
refuses_broken = refl

stores_empty :
    (put serve (info_of "x" 0) (record { content = []; broken = false }) 2 older).0 ≡ ok 1
unfolding put download fetch fetch_from each_chunk pipeline
stores_empty = refl

downloads :
    (download serve digest (record (info_of "x" 5) { chunks = 3 }) after).0 ≡ ok ciphertext.content
unfolding put download fetch fetch_from each_chunk pipeline
downloads = refl

refuses_wrong_size :
    (download serve digest (record (info_of "x" 6) { chunks = 3 }) after).0 ≡ err wrong_size
unfolding put download fetch fetch_from each_chunk pipeline
refuses_wrong_size = refl

put-AllOrNone_example :
    AllOrNone serve promises
      (info_of "x" 5)
      ciphertext
      2
      older
      (put serve (info_of "x" 5) ciphertext 2 older)
put-AllOrNone_example =
    put-AllOrNone serve promises (info_of "x" 5) ciphertext 2 older (ground arith)

download-put_example :
    Gives serve promises ciphertext.content
      (download serve digest (record (info_of "x" 5) { chunks = 3 }) after).0
unfolding promises
download-put_example =
    download-put serve promises digest (info_of "x" 5) ciphertext 2 3 older after (ground arith)
      refl refl refl reports_three refl
