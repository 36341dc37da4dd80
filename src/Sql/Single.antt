-- ===== src/Sql/Single.antt =====
-- A transaction of one statement: it has happened and is reported, or it has not and an error is.
use ynab_auto_categorizer.Prelude.{
  suc, true, ◌≡◌, refl, inl, inr, Result, ok, err, driver, Bool-cases, arith,
}
use ynab_auto_categorizer.Sql.{Session, run, exec, query, next, ◌>>=◌, end_tx, write_tx}

abbrev pub Happened : {S : Type 0} → (S → S) → S → Result (Unit {0}) → S → Type 0
Happened f old (ok x) new = new ≡ f old
Happened f old (err e) new = (new ≡ old) × (e ≡ driver)

pub write_tx-run :
    {S : Type 0} (f : S → S) (s : Session S)
    → Happened f s.db (write_tx (λ _. true) (run f) s).0 (write_tx (λ _. true) (run f) s).1.db
unfolding write_tx query run exec ◌>>=◌ next end_tx
write_tx-run f s = elim (Bool-cases (s.fault s.stmt)) [
  | inl bad ↦ rw bad (refl, refl)
  | inr good ↦ elim (Bool-cases (s.fault (suc s.stmt))) [
    | inl bad ↦ rw (good, bad) (refl, refl)
    | inr fine ↦ elim (Bool-cases (s.fault (suc (suc s.stmt)))) [
      | inl bad ↦ rw (good, fine, bad) (refl, refl)
      | inr sent ↦ elim (Bool-cases (s.fault (suc (suc (suc s.stmt))))) [
        | inl bad ↦ rw (good, fine, sent, bad) (refl, refl)
        | inr done ↦ rw (good, fine, sent, done) refl
      ]
    ]
  ]
]

-- A query reads the database and changes nothing.
pub query-db : {S A : Type 0} (f : S → A) (s : Session S) → (query f s).1.db ≡ s.db
unfolding query exec next
query-db f s = elim (Bool-cases (s.fault s.stmt)) [
  | inl bad ↦ rw bad refl
  | inr good ↦ rw good refl
]

pub query-ok :
    {S A : Type 0} (f : S → A) (s : Session S) (a : A) → (query f s).0 ≡ ok a → f s.db ≡ a
unfolding query exec next
query-ok f s a = elim (Bool-cases (s.fault s.stmt)) [
  | inl bad ↦ rw bad (λ e. ground arith)
  | inr good ↦ rw good (λ e. ground arith)
]
