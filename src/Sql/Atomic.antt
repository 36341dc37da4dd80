-- ===== src/Sql/Atomic.antt =====
-- store/store.go, writeTx: a transaction that does not succeed leaves the database as it was, whatever
-- its body did and wherever the driver failed.
use mathlib.Core.Path.{subst}
use ynab_auto_categorizer.Prelude.{
  suc, Bool, true, false, ◌≡◌, refl, ◌∙◌, inl, inr, Error, Result, ok, err, Bool-cases,
  if◌then◌else◌, arith,
}
use ynab_auto_categorizer.Sql.{Session, Sql, pure, raise, query, continue, ◌>>=◌, end_tx, write_tx}

-- The session in which the body runs.
abbrev pub sent : {S : Type 0} → Session S → Session S
sent s = record s { stmt = suc (suc s.stmt) }

module _ {S A : Type 0} (check : S → Bool) where
  -- What is committed passes the check, and what is not leaves the old database.
  abbrev pub Settled : S → Result A × Session S → Type 0
  Settled old (ok a, s) = check s.db ≡ true
  Settled old (err e, s) = s.db ≡ old

  Settled-end_tx : (old : S) (r : Result A) (s : Session S) → Settled old (end_tx check old r s)
  unfolding end_tx
  Settled-end_tx old (ok a) s = elim (Bool-cases (s.fault s.stmt)) [
    | inl bad ↦ rw bad
    | inr good ↦ elim (Bool-cases (check s.db)) [
      | inl holds ↦ rw (good, holds) holds
      | inr fails ↦ rw (good, fails)
    ]
  ]
  Settled-end_tx old (err e) s = refl

  pub write_tx_settles : (fn : Sql S A) (s : Session S) → Settled s.db (write_tx check fn s)
  unfolding write_tx
  write_tx_settles fn s = elim (Bool-cases (s.fault s.stmt)) [
    | inl bad ↦ rw bad
    | inr good ↦ elim (Bool-cases (s.fault (suc s.stmt))) [
      | inl bad ↦ rw (good, bad)
      | inr fine ↦ rw (good, fine) (Settled-end_tx s.db (fn (sent s)).0 (fn (sent s)).1)
    ]
  ]

-- An action that only reads.
pub record ReadsOnly {S A : Type 0} (m : Sql S A) : Type 0 where
  pub same : (s : Session S) → (m s).1.db ≡ s.db

-- An action that reports an error has changed nothing.
abbrev pub Undone : {S A : Type 0} → S → Result A × Session S → Type 0
Undone old (ok a, s) = Unit
Undone old (err e, s) = s.db ≡ old

pub record IsAtomic {S A : Type 0} (m : Sql S A) : Type 0 where
  pub undone : (s : Session S) → Undone s.db (m s)

module _ {S A : Type 0} where
  pub ReadsOnly-pure : (a : A) → ReadsOnly {S = S} (pure a)
  unfolding pure
  ReadsOnly-pure a = record { same = λ s. refl }

  pub ReadsOnly-query : (f : S → A) → ReadsOnly (query f)
  unfolding query
  ReadsOnly-query f = record { same = λ s. ground arith }

  pub IsAtomic-pure : (a : A) → IsAtomic {S = S} (pure a)
  unfolding pure
  IsAtomic-pure a = record { undone = λ s. tt }

  pub IsAtomic-raise : (e : Error) → IsAtomic {S = S} (raise {A = A} e)
  unfolding raise
  IsAtomic-raise e = record { undone = λ s. refl }

  pub IsAtomic-if :
      (b : Bool) (m n : Sql S A) → IsAtomic m → IsAtomic n → IsAtomic (if b then m else n)
  IsAtomic-if true m n h k = h
  IsAtomic-if false m n h k = k

  Settled-Undone :
      (check : S → Bool) (old : S) (p : Result A × Session S) → Settled check old p → Undone old p
  Settled-Undone check old (ok a, s) h = tt
  Settled-Undone check old (err e, s) h = h

  pub IsAtomic-write_tx : (check : S → Bool) (fn : Sql S A) → IsAtomic (write_tx check fn)
  IsAtomic-write_tx check fn = record {
    undone = λ s. Settled-Undone check s.db (write_tx check fn s) (write_tx_settles check fn s);
  }

module _ {S A B : Type 0} where
  pub ReadsOnly-bind :
      (m : Sql S A) (k : A → Sql S B)
      → ReadsOnly m
      → ((a : A) → ReadsOnly (k a))
      → ReadsOnly (m >>= k)
  unfolding ◌>>=◌
  ReadsOnly-bind m k h hk = record { same = λ s. go (m s).0 (m s).1 ∙ h.same s }
    where
      go : (r : Result A) (s' : Session S) → (continue r k s').1.db ≡ s'.db
      go (ok a) s' = (hk a).same s'
      go (err e) s' = refl

  pub IsAtomic-read-bind :
      (m : Sql S A) (k : A → Sql S B)
      → ReadsOnly m
      → ((a : A) → IsAtomic (k a))
      → IsAtomic (m >>= k)
  unfolding ◌>>=◌
  IsAtomic-read-bind m k h hk = record {
    undone =
        λ s. subst (λ d. Undone d (continue (m s).0 k (m s).1)) (h.same s) (go (m s).0 (m s).1);
  }
    where
      go : (r : Result A) (s' : Session S) → Undone s'.db (continue r k s')
      go (ok a) s' = (hk a).undone s'
      go (err e) s' = refl

  pub IsAtomic-bind-pure : (m : Sql S A) (f : A → B) → IsAtomic m → IsAtomic (m >>= λ a. pure (f a))
  unfolding ◌>>=◌ pure
  IsAtomic-bind-pure m f h = record { undone = λ s. go s.db (m s).0 (m s).1 (h.undone s) }
    where
      go :
          (old : S) (r : Result A) (s' : Session S)
          → Undone old (r, s')
          → Undone old (continue r (λ a s. (ok (f a), s)) s')
      go old (ok a) s' u = tt
      go old (err e) s' u = u
