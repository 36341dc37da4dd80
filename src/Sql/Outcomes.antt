-- ===== src/Sql/Outcomes.antt =====
-- What an action has done when it succeeds, and how it is refused, wherever the driver may fail.
use ynab_auto_categorizer.Prelude.{
  Bool, ◌≡◌, refl, ◌⊎◌, inl, inr, Error, Result, ok, err, driver, Bool-cases, suc, arith,
}
use ynab_auto_categorizer.Sql.{Session, Sql, exec, query, continue, ◌>>=◌, end_tx, write_tx, next}
use ynab_auto_categorizer.Sql.Preserves.{Preserves}
use ynab_auto_categorizer.Sql.Atomic.{sent, Undone, IsAtomic}

-- An action gives this error, or one of the driver.
abbrev pub Refused : {A : Type 0} → Error → Result A → Type 0
Refused e r = (r ≡ err e) ⊎ (r ≡ err driver)

-- The error of a body is the error of its transaction.
pub Refused-write_tx :
    {S A : Type 0} (check : S → Bool) (fn : Sql S A) (e : Error) (s : Session S)
    → Refused e (fn (sent s)).0
    → Refused e (write_tx check fn s).0
unfolding write_tx query exec ◌>>=◌ next
Refused-write_tx {S} {A} check fn e s h = elim (Bool-cases (s.fault s.stmt)) [
  | inl bad ↦ rw bad (inr refl)
  | inr good ↦ elim (Bool-cases (s.fault (suc s.stmt))) [
    | inl bad ↦ rw (good, bad) (inr refl)
    | inr fine ↦ rw (good, fine) (ended (fn (sent s)).0 (fn (sent s)).1 h)
  ]
]
  where
    ended : (r : Result A) (s' : Session S) → Refused e r → Refused e (end_tx check s.db r s').0
    ended r s' (inl x) = rw x (inl refl)
    ended r s' (inr x) = rw x (inr refl)

-- An atomic action that is refused changes nothing.
pub Refused-unchanged :
    {S A : Type 0} (m : Sql S A) (e : Error) (s : Session S)
    → IsAtomic m
    → Refused e (m s).0
    → (m s).1.db ≡ s.db
Refused-unchanged {S} {A} m e s h = by_result (m s).0 (m s).1 (h.undone s)
  where
    by_result : (r : Result A) (s' : Session S) → Undone s.db (r, s') → Refused e r → s'.db ≡ s.db
    by_result (err x) s' u r = u
    by_result (ok a) s' u (inl x) = ground arith
    by_result (ok a) s' u (inr x) = ground arith

-- A statement and what is done with its result.
pub Refused-exec :
    {S A B : Type 0} (f : S → A × S) (k : A → Sql S B) (e : Error) (s : Session S)
    → ((s' : Session S) → (k (f s.db).0 s').0 ≡ err e)
    → Refused e ((exec f >>= k) s).0
unfolding exec ◌>>=◌
Refused-exec f k e s h = elim (Bool-cases (s.fault s.stmt)) [
  | inl bad ↦ rw bad (inr refl)
  | inr good ↦ rw good (inl (h _))
]

pub record Establishes {S A : Type 0} (P : S → Type 0) (m : Sql S A) : Type 0 where
  pub sure : (s : Session S) (a : A) → (m s).0 ≡ ok a → P (m s).1.db

module _ {S A : Type 0} (P : S → Type 0) where
  pub Establishes-exec : (f : S → A × S) → ((d : S) → P (f d).1) → Establishes P (exec f)
  unfolding exec
  Establishes-exec f h = record {
    sure = λ s a. elim (Bool-cases (s.fault s.stmt)) [
      | inl bad ↦ rw bad (λ e. ground arith)
      | inr good ↦ rw good (λ e. h s.db)
    ];
  }

  pub Establishes-write_tx :
      (check : S → Bool) (fn : Sql S A) → Establishes P fn → Establishes P (write_tx check fn)
  unfolding write_tx query exec ◌>>=◌ next end_tx
  Establishes-write_tx check fn h = record {
    sure = λ s a. elim (Bool-cases (s.fault s.stmt)) [
      | inl bad ↦ rw bad (λ e. ground arith)
      | inr good ↦ elim (Bool-cases (s.fault (suc s.stmt))) [
        | inl bad ↦ rw (good, bad) (λ e. ground arith)
        | inr fine ↦
            rw (good, fine) (ended s.db (fn (sent s)).0 (fn (sent s)).1 a (h.sure (sent s)))
      ]
    ];
  }
    where
      ended :
          (old : S) (r : Result A) (s' : Session S) (a : A)
          → ((b : A) → r ≡ ok b → P s'.db)
          → (end_tx check old r s').0 ≡ ok a
          → P (end_tx check old r s').1.db
      ended old (err e) s' a k = λ e. ground arith
      ended old (ok b) s' a k = elim (Bool-cases (s'.fault s'.stmt)) [
        | inl bad ↦ rw bad (λ e. ground arith)
        | inr good ↦ elim (Bool-cases (check s'.db)) [
          | inl holds ↦ rw (good, holds) (λ e. k b refl)
          | inr fails ↦ rw (good, fails) (λ e. ground arith)
        ]
      ]

module _ {S A B : Type 0} (P : S → Type 0) (m : Sql S A) (k : A → Sql S B) where
  pub Establishes-first : Establishes P m → ((a : A) → Preserves P (k a)) → Establishes P (m >>= k)
  unfolding ◌>>=◌
  Establishes-first h hk = record { sure = λ s b. go (m s).0 (m s).1 b (h.sure s) }
    where
      go :
          (r : Result A) (s' : Session S) (b : B)
          → ((a : A) → r ≡ ok a → P s'.db)
          → (continue r k s').0 ≡ ok b
          → P (continue r k s').1.db
      go (ok a) s' b h e = (hk a).held s' (h a refl)
      go (err x) s' b h e = ground arith

  pub Establishes-last : ((a : A) → Establishes P (k a)) → Establishes P (m >>= k)
  unfolding ◌>>=◌
  Establishes-last hk = record { sure = λ s b. go (m s).0 (m s).1 b }
    where
      go :
          (r : Result A) (s' : Session S) (b : B)
          → (continue r k s').0 ≡ ok b
          → P (continue r k s').1.db
      go (ok a) s' b e = (hk a).sure s' b e
      go (err x) s' b e = ground arith

-- What the first action establishes is there when the second one starts.
pub Establishes-then :
    {S A B : Type 0} (P Q : S → Type 0) (m : Sql S A) (k : A → Sql S B)
    → Establishes P m
    → ((a : A) (s : Session S) (b : B) → P s.db → (k a s).0 ≡ ok b → Q (k a s).1.db)
    → Establishes Q (m >>= k)
unfolding ◌>>=◌
Establishes-then {S} {A} {B} P Q m k h hk = record { sure = λ s b. go (m s).0 (m s).1 b (h.sure s) }
  where
    go :
        (r : Result A) (s' : Session S) (b : B)
        → ((a : A) → r ≡ ok a → P s'.db)
        → (continue r k s').0 ≡ ok b
        → Q (continue r k s').1.db
    go (ok a) s' b h e = hk a s' b (h a refl) e
    go (err x) s' b h e = ground arith
