-- ===== src/Sql/Preserves.antt =====
-- A property of the database that an action never ends, in a transaction that commits or one that
-- is rolled back.
use mathlib.Core.Path.{subst}
use ynab_auto_categorizer.Prelude.{
  Bool, true, false, ◌≡◌, sym, Error, Result, ok, err, if◌then◌else◌, Bool-cases, inl, inr,
}
use ynab_auto_categorizer.Sql.{
  Session, Sql, pure, raise, exec, exec_checked, query, run, continue, ◌>>=◌, end_tx, write_tx,
}
use ynab_auto_categorizer.Sql.Keeps.{Keeps}

pub record Preserves {S A : Type 0} (P : S → Type 0) (m : Sql S A) : Type 0 where
  pub held : (s : Session S) → P s.db → P (m s).1.db

module _ {S A : Type 0} (P : S → Type 0) where
  pub Preserves-exec : (f : S → A × S) → ((d : S) → P d → P (f d).1) → Preserves P (exec f)
  unfolding exec
  Preserves-exec f h = record {
    held = λ s p. elim (Bool-cases (s.fault s.stmt)) [
      | inl bad ↦ rw bad p
      | inr good ↦ rw good (h s.db p)
    ];
  }

  pub Preserves-exec_checked :
      (f : S → Result A × S) → ((d : S) → P d → P (f d).1) → Preserves P (exec_checked f)
  unfolding exec_checked
  Preserves-exec_checked f h = record {
    held = λ s p. elim (Bool-cases (s.fault s.stmt)) [
      | inl bad ↦ rw bad p
      | inr good ↦ rw good (h s.db p)
    ];
  }

  pub Preserves-raise : (e : Error) → Preserves P (raise {A = A} e)
  unfolding raise
  Preserves-raise e = record { held = λ s p. p }

  pub Preserves-pure : (a : A) → Preserves P (pure a)
  unfolding pure
  Preserves-pure a = record { held = λ s p. p }

  pub Preserves-query : (f : S → A) → Preserves P (query f)
  unfolding query
  Preserves-query f = Preserves-exec (λ d. (f d, d)) (λ d p. p)

  pub Preserves-if :
      (c : Bool) (m n : Sql S A) → Preserves P m → Preserves P n → Preserves P (if c then m else n)
  Preserves-if true m n h k = h
  Preserves-if false m n h k = k

  held-end_tx :
      (check : S → Bool) (old : S) (r : Result A) (s : Session S)
      → P old
      → P s.db
      → P (end_tx check old r s).1.db
  unfolding end_tx
  held-end_tx check old (err e) s o p = o
  held-end_tx check old (ok a) s o p = elim (Bool-cases (s.fault s.stmt)) [
    | inl bad ↦ rw bad o
    | inr good ↦ elim (Bool-cases (check s.db)) [
      | inl holds ↦ rw (good, holds) p
      | inr fails ↦ rw (good, fails) o
    ]
  ]

  -- A property of a part that stays.
  pub Preserves-of_Keeps :
      {X : Type 0} (part : S → X) (Q : X → Type 0) (m : Sql S A)
      → ((d : S) → P d ≡ Q (part d))
      → Keeps part m
      → Preserves P m
  Preserves-of_Keeps part Q m same h = record {
    held = λ s p.
        subst (λ T. T) (sym (same (m s).1.db))
          (subst Q (sym (h.kept s)) (subst (λ T. T) (same s.db) p));
  }

pub Preserves-run :
    {S : Type 0} (P : S → Type 0) (f : S → S) → ((d : S) → P d → P (f d)) → Preserves P (run f)
unfolding run
Preserves-run P f h = Preserves-exec P (λ d. (tt, f d)) h

module _ {S A B : Type 0} (P : S → Type 0) where
  pub Preserves-bind :
      (m : Sql S A) (k : A → Sql S B)
      → Preserves P m
      → ((a : A) → Preserves P (k a))
      → Preserves P (m >>= k)
  unfolding ◌>>=◌
  Preserves-bind m k h hk = record { held = λ s p. go (m s).0 (m s).1 (h.held s p) }
    where
      go : (r : Result A) (s' : Session S) → P s'.db → P (continue r k s').1.db
      go (ok a) s' p = (hk a).held s' p
      go (err e) s' p = p

pub Preserves-write_tx :
    {S A : Type 0} (P : S → Type 0) (check : S → Bool) (fn : Sql S A)
    → Preserves P fn
    → Preserves P (write_tx check fn)
unfolding write_tx
Preserves-write_tx P check fn h = Preserves-bind P _ _ (Preserves-query P (λ _. tt)) (λ _.
    Preserves-bind P _ _ (Preserves-query P (λ _. tt))
      (λ _. record { held = λ s p. held-end_tx P check s.db (fn s).0 (fn s).1 p (h.held s p) }))
