-- ===== src/Sql/Keeps.antt =====
-- A part of the database that an action never changes, in a transaction that commits or one that is
-- rolled back.
use ynab_auto_categorizer.Prelude.{
  Bool, true, false, ◌≡◌, refl, ◌∙◌, Error, Result, ok, err, if◌then◌else◌, Bool-cases, inl, inr,
}
use ynab_auto_categorizer.Sql.{
  Session, Sql, pure, raise, exec, exec_checked, query, run, continue, ◌>>=◌, end_tx, write_tx,
}

pub record Keeps {S X A : Type 0} (part : S → X) (m : Sql S A) : Type 0 where
  pub kept : (s : Session S) → part (m s).1.db ≡ part s.db

module _ {S X A : Type 0} (part : S → X) where
  pub Keeps-pure : (a : A) → Keeps part (pure a)
  unfolding pure
  Keeps-pure a = record { kept = λ s. refl }

  pub Keeps-raise : (e : Error) → Keeps part (raise {A = A} e)
  unfolding raise
  Keeps-raise e = record { kept = λ s. refl }

  pub Keeps-exec : (f : S → A × S) → ((d : S) → part (f d).1 ≡ part d) → Keeps part (exec f)
  unfolding exec
  Keeps-exec f h = record {
    kept =
        λ s. elim (Bool-cases (s.fault s.stmt)) [ inl bad ↦ rw bad | inr good ↦ rw good (h s.db) ];
  }

  pub Keeps-exec_checked :
      (f : S → Result A × S) → ((d : S) → part (f d).1 ≡ part d) → Keeps part (exec_checked f)
  unfolding exec_checked
  Keeps-exec_checked f h = record {
    kept =
        λ s. elim (Bool-cases (s.fault s.stmt)) [ inl bad ↦ rw bad | inr good ↦ rw good (h s.db) ];
  }

  pub Keeps-query : (f : S → A) → Keeps part (query f)
  unfolding query
  Keeps-query f = Keeps-exec (λ d. (f d, d)) (λ d. refl)

  pub Keeps-if :
      (c : Bool) (m n : Sql S A) → Keeps part m → Keeps part n → Keeps part (if c then m else n)
  Keeps-if true m n h k = h
  Keeps-if false m n h k = k

  kept-end_tx :
      (check : S → Bool) (old : S) (r : Result A) (s : Session S)
      → part s.db ≡ part old
      → part (end_tx check old r s).1.db ≡ part old
  unfolding end_tx
  kept-end_tx check old (err e) s h = refl
  kept-end_tx check old (ok a) s h = elim (Bool-cases (s.fault s.stmt)) [
    | inl bad ↦ rw bad
    | inr good ↦ elim (Bool-cases (check s.db)) [
      | inl holds ↦ rw (good, holds) h
      | inr fails ↦ rw (good, fails)
    ]
  ]

module _ {S X : Type 0} (part : S → X) where
  pub Keeps-run : (f : S → S) → ((d : S) → part (f d) ≡ part d) → Keeps part (run f)
  unfolding run
  Keeps-run f h = Keeps-exec part (λ d. (tt, f d)) h

module _ {S X A B : Type 0} (part : S → X) where
  pub Keeps-bind :
      (m : Sql S A) (k : A → Sql S B)
      → Keeps part m
      → ((a : A) → Keeps part (k a))
      → Keeps part (m >>= k)
  unfolding ◌>>=◌
  Keeps-bind m k h hk = record { kept = λ s. go (m s).0 (m s).1 ∙ h.kept s }
    where
      go : (r : Result A) (s' : Session S) → part (continue r k s').1.db ≡ part s'.db
      go (ok a) s' = (hk a).kept s'
      go (err e) s' = refl

module _ {S X A : Type 0} (part : S → X) where
  pub Keeps-write_tx :
      (check : S → Bool) (fn : Sql S A) → Keeps part fn → Keeps part (write_tx check fn)
  unfolding write_tx
  Keeps-write_tx check fn h = Keeps-bind part _ _ (Keeps-query part (λ _. tt)) (λ _.
      Keeps-bind part _ _ (Keeps-query part (λ _. tt))
        (λ _. record { kept = λ s. kept-end_tx part check s.db (fn s).0 (fn s).1 (h.kept s) }))

pub ruleset keeps_rules = (
  Keeps-pure, Keeps-raise, Keeps-exec, Keeps-exec_checked, Keeps-query, Keeps-if, Keeps-run,
  Keeps-bind, Keeps-write_tx,
)
