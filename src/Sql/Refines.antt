-- ===== src/Sql/Refines.antt =====
-- What an action does when the driver does not interfere: a method over the data alone. An action
-- that refines one either does as the method says or reports a driver error, and without faults it
-- always does as the method says.
use ynab_auto_categorizer.Prelude.{
  ℕ, Bool, false, List, [], ◌∷◌, ◌≡◌, refl, ◌∙◌, ◌⊎◌, inr, Error, Result, ok, err, driver,
  constraint, arith, if◌then◌else◌,
}
use ynab_auto_categorizer.Sql.{
  Session, Sql, pure, raise, lift, exec, exec_checked, query, run, continue, ◌>>=◌, exec_each,
  upsert, end_tx, write_tx,
}

abbrev pub Method : Type 0 → Type 0 → Type 0
Method S A = S → Result A × S

-- No statement fails.
abbrev pub IsCalm : {S : Type 0} → Session S → Type 0
IsCalm s = (n : ℕ) → s.fault n ≡ false

abbrev pub Agrees : {S A : Type 0} → Result A × Session S → Result A × S → Type 0
Agrees p q = (p.0 ≡ q.0) × (p.1.db ≡ q.1)

pub record Refines {S A : Type 0} (m : Sql S A) (f : Method S A) : Type 0 where
  pub env : (s : Session S) → (m s).1.fault ≡ s.fault
  pub exact : (s : Session S) → ((m s).0 ≡ err driver) ⊎ Agrees (m s) (f s.db)
  pub calm : (s : Session S) → IsCalm s → Agrees (m s) (f s.db)

module _ {S A B : Type 0} where
  abbrev pub carry_on : Result A → (A → Method S B) → Method S B
  carry_on (ok a) g d = g a d
  carry_on (err e) g d = (err e, d)

  abbrev pub bind : Method S A → (A → Method S B) → Method S B
  bind f g d = let (r, d') = f d in carry_on r g d'

module _ {S A : Type 0} where
  pub Refines-pure : (a : A) → Refines {S = S} (pure a) (λ d. (ok a, d))
  unfolding pure
  Refines-pure a = record {
    env = λ s. refl;
    exact = λ s. inr (refl, refl);
    calm = λ s c. (refl, refl);
  }

  pub Refines-lift : (r : Result A) → Refines {S = S} (lift r) (λ d. (r, d))
  unfolding lift
  Refines-lift r = record {
    env = λ s. refl;
    exact = λ s. inr (refl, refl);
    calm = λ s c. (refl, refl);
  }

  pub Refines-raise : (e : Error) → Refines {S = S} (raise {A = A} e) (λ d. (err e, d))
  unfolding raise
  Refines-raise e = record {
    env = λ s. refl;
    exact = λ s. inr (refl, refl);
    calm = λ s c. (refl, refl);
  }

  pub Refines-exec : (f : S → A × S) → Refines (exec f) (λ d. (ok (f d).0, (f d).1))
  unfolding exec
  Refines-exec f = record {
    env = λ s. ground arith;
    exact = λ s. ground arith;
    calm = λ s c. ground (arith, c s.stmt);
  }

  pub Refines-exec_checked : (f : S → Result A × S) → Refines (exec_checked f) f
  unfolding exec_checked
  Refines-exec_checked f = record {
    env = λ s. ground arith;
    exact = λ s. ground arith;
    calm = λ s c. ground (arith, c s.stmt);
  }

  pub Refines-query : (f : S → A) → Refines (query f) (λ d. (ok (f d), d))
  unfolding query
  Refines-query f = Refines-exec (λ d. (f d, d))

pub Refines-run : {S : Type 0} (f : S → S) → Refines (run f) (λ d. (ok tt, f d))
unfolding run
Refines-run f = Refines-exec (λ d. (tt, f d))

module _ {S A B : Type 0} where
  pub Refines-bind :
      (m : Sql S A) (k : A → Sql S B) (f : Method S A) (g : A → Method S B)
      → Refines m f
      → ((a : A) → Refines (k a) (g a))
      → Refines (m >>= k) (bind f g)
  unfolding ◌>>=◌
  Refines-bind m k f g hm hk = record {
    env = λ s. env_of s (m s).0 (m s).1 (hm.env s);
    exact = λ s. exact_of (f s.db).0 (m s).0 (m s).1 (f s.db).1 (hm.exact s);
    calm = λ s c.
        calm_of (f s.db).0 (m s).0 (m s).1 (f s.db).1 (hm.calm s c)
          (λ n. ground (arith, hm.env s, c n));
  }
    where
      env_of :
          (s : Session S) (r : Result A) (s' : Session S)
          → s'.fault ≡ s.fault
          → (continue r k s').1.fault ≡ s.fault
      env_of s (ok a) s' h = (hk a).env s' ∙ h
      env_of s (err e) s' h = h

      exact_of :
          (q r : Result A) (s' : Session S) (d : S)
          → (r ≡ err driver) ⊎ ((r ≡ q) × (s'.db ≡ d))
          → ((continue r k s').0 ≡ err driver) ⊎ Agrees (continue r k s') (carry_on q g d)
      exact_of q (ok a) s' d h = ground (arith, (hk a).exact s')
      exact_of q (err e) s' d h = ground arith

      calm_of :
          (q r : Result A) (s' : Session S) (d : S)
          → (r ≡ q) × (s'.db ≡ d)
          → IsCalm s'
          → Agrees (continue r k s') (carry_on q g d)
      calm_of q (ok a) s' d h c = ground (arith, (hk a).calm s' c)
      calm_of q (err e) s' d h c = ground arith

-- The loop of `upsert` writes the rows in order.
abbrev pub write_each : {S R : Type 0} → (R → S → S) → List R → S → S
write_each step [] d = d
write_each step (r ∷ rs) d = write_each step rs (step r d)

module _ {S R : Type 0} (step : R → S → S) where
  Refines-exec_each :
      (rs : List R) → Refines (exec_each step rs) (λ d. (ok tt, write_each step rs d))
  unfolding exec_each
  Refines-exec_each [] = Refines-pure tt
  Refines-exec_each (r ∷ rs) =
      Refines-bind _ _ _ (λ _ d. (ok tt, write_each step rs d)) (Refines-run (step r))
        (λ _. Refines-exec_each rs)

  pub Refines-upsert : (rs : List R) → Refines (upsert step rs) (λ d. (ok tt, write_each step rs d))
  unfolding upsert
  Refines-upsert [] = Refines-pure tt
  Refines-upsert (r ∷ rs) =
      Refines-bind _ _ _ (λ _ d. (ok tt, write_each step (r ∷ rs) d)) (Refines-query (λ _. tt))
        (λ _. Refines-exec_each (r ∷ rs))

-- A transaction: the method's result if it succeeds and the keys hold, else nothing happened.
abbrev pub settle : {S A : Type 0} → (S → Bool) → S → Result A × S → Result A × S
settle check old (ok a, d) = if check d then (ok a, d) else (err constraint, old)
settle check old (err e, d) = (err e, old)

module _ {S A : Type 0} (check : S → Bool) where
  end_tx_exact :
      (old : S) (r : Result A) (s : Session S) (q : Result A × S)
      → (r ≡ err driver) ⊎ Agrees (r, s) q
      → ((end_tx check old r s).0 ≡ err driver) ⊎ Agrees (end_tx check old r s) (settle check old q)
  unfolding end_tx
  end_tx_exact old (ok a) s (ok b, d) h = ground arith
  end_tx_exact old (err e) s (ok b, d) h = ground arith
  end_tx_exact old (ok a) s (err b, d) h = ground arith
  end_tx_exact old (err e) s (err b, d) h = ground arith

  end_tx_calm :
      (old : S) (r : Result A) (s : Session S) (q : Result A × S)
      → Agrees (r, s) q
      → IsCalm s
      → Agrees (end_tx check old r s) (settle check old q)
  unfolding end_tx
  end_tx_calm old (ok a) s (ok b, d) h c = ground (arith, c s.stmt)
  end_tx_calm old (err e) s (ok b, d) h c = ground (arith, c s.stmt)
  end_tx_calm old (ok a) s (err b, d) h c = ground (arith, c s.stmt)
  end_tx_calm old (err e) s (err b, d) h c = ground (arith, c s.stmt)

  end_tx_env : (old : S) (r : Result A) (s : Session S) → (end_tx check old r s).1.fault ≡ s.fault
  unfolding end_tx
  end_tx_env old (ok a) s = ground arith
  end_tx_env old (err e) s = ground arith

  Refines-body :
      (fn : Sql S A) (f : Method S A)
      → Refines fn f
      → Refines (λ s. let (r, s') = fn s in end_tx check s.db r s') (λ d. settle check d (f d))
  Refines-body fn f h = record {
    env = λ s. end_tx_env s.db (fn s).0 (fn s).1 ∙ h.env s;
    exact = λ s. end_tx_exact s.db (fn s).0 (fn s).1 (f s.db) (h.exact s);
    calm = λ s c.
        end_tx_calm s.db (fn s).0 (fn s).1 (f s.db) (h.calm s c)
          (λ n. ground (arith, h.env s, c n));
  }

  pub Refines-write_tx :
      (fn : Sql S A) (f : Method S A)
      → Refines fn f
      → Refines (write_tx check fn) (λ d. settle check d (f d))
  unfolding write_tx
  Refines-write_tx fn f h =
      Refines-bind _ _ _ (λ _ d. settle check d (f d)) (Refines-query (λ _. tt))
        (λ _.
          Refines-bind _ _ _ (λ _ d. settle check d (f d)) (Refines-query (λ _. tt))
            (λ _. Refines-body fn f h))
