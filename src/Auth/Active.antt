-- ===== src/Auth/Active.antt =====
-- auth/storage.go, ActiveTokens: how many tokens and codes of a user work now.
pub mod Exact
pub mod Revoked
use ynab_auto_categorizer.Prelude.{
  ℕ, ◌+◌, ℤ, String, Bool, true, false, not, ◌&&◌, ◌||◌, Option, none, some, List, [], ◌∷◌, keep,
  ltb, ◌==◌, string_eq, if◌then◌else◌, Result, ok, err, bad_session,
}
use ynab_auto_categorizer.Sql.{Sql, pure, lift, query, ◌>>=◌}
use ynab_auto_categorizer.Table.{Table, rows, find, replace}
use ynab_auto_categorizer.Mirror.Rows.{Time}
use ynab_auto_categorizer.Auth.Rows.{Auth, AuthSession, Gen, Grant, Kind, table}
use ynab_auto_categorizer.Auth.Generations.{all_users, is_current, current_generation}

-- The conditions of the three statements.
abbrev pub is_live : Time → Kind → Grant → Bool
is_live now Kind.access g = ltb now g.expires_at
is_live now kind g = ltb now g.expires_at && g.active

-- json_extract into a NullInt64: no number, a number, or a value that does not scan.
abbrev pub scanned_gen : Gen → Result (Option ℤ)
scanned_gen Gen.missing = ok none
scanned_gen (Gen.int v) = ok (some v)
scanned_gen (Gen.number v) = ok (some v)
scanned_gen Gen.fraction = err bad_session
scanned_gen Gen.other = err bad_session

abbrev pub is_chosen : String → String → Bool
is_chosen user subject = not (subject == "") && (user == all_users || subject == user)

abbrev pub add_gen :
    String → String → Result (Option ℤ) → Result (List (String × ℤ)) → Result (List (String × ℤ))
add_gen user subject (err e) later = err e
add_gen user subject (ok none) later = later
add_gen user subject (ok (some v)) (err e) = err e
add_gen user subject (ok (some v)) (ok ss) =
    ok (if is_chosen user subject then (subject, v) ∷ ss else ss)

abbrev pub add_session :
    String → Option AuthSession → Result (List (String × ℤ)) → Result (List (String × ℤ))
add_session user none later = later
add_session user (some s) later = add_gen user s.subject (scanned_gen s.gen) later

-- The subjects and generations of a user's rows.
unfoldable pub sessions_of : String → List Grant → Result (List (String × ℤ))
sessions_of user [] = ok []
sessions_of user (g ∷ gs) = add_session user g.request.session (sessions_of user gs)

-- A generation from the cache, which holds it afterwards.
unfoldable pub known_generation : String → Table String ℕ → Option ℕ → Sql Auth (ℕ × Table String ℕ)
known_generation subject gens (some cur) = pure (cur, gens)
known_generation subject gens none =
    current_generation subject >>= λ cur. pure (cur, replace subject cur gens)

unfoldable pub count_sessions :
    ℕ → Table String ℕ → List (String × ℤ) → Sql Auth (ℕ × Table String ℕ)
unfolding known_generation
count_sessions n gens [] = pure (n, gens)
count_sessions n gens ((subject, v) ∷ ss) =
    known_generation subject gens (find subject gens) >>= λ r.
    count_sessions (if is_current v r.0 then n + 1 else n) r.1 ss

unfoldable pub count_active : String → Time → Kind → Table String ℕ → Sql Auth (ℕ × Table String ℕ)
unfolding sessions_of count_sessions
count_active user now kind gens =
    query (λ d. keep (is_live now kind) (rows (table kind d))) >>= λ gs.
    lift (sessions_of user gs) >>= λ ss. count_sessions 0 gens ss

unfoldable pub active_tokens : String → Time → Sql Auth ℕ
unfolding count_active
active_tokens user now = count_active user now Kind.access [] >>= λ a.
    count_active user now Kind.refresh a.1 >>= λ r.
    count_active user now Kind.codes r.1 >>= λ c. pure (a.0 + r.0 + c.0)
