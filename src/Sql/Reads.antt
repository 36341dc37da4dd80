-- ===== src/Sql/Reads.antt =====
-- What an action that only reads has found when it succeeds, wherever the driver may fail.
use mathlib.Core.Path.{subst}
use ynab_auto_categorizer.Prelude.{
  ◌≡◌, refl, ap, sym, ◌∙◌, inl, inr, Result, ok, err, Bool-cases, arith,
}
use ynab_auto_categorizer.Sql.{Session, Sql, pure, lift, exec, query, continue, ◌>>=◌, next}

-- On the database `d`.
pub record Reads {S A : Type 0} (d : S) (m : Sql S A) (P : A → Type 0) : Type 0 where
  pub same : (s : Session S) → s.db ≡ d → (m s).1.db ≡ d
  pub found : (s : Session S) (a : A) → s.db ≡ d → (m s).0 ≡ ok a → P a

module _ {S A : Type 0} (d : S) (P : A → Type 0) where
  pub Reads-query : (f : S → A) → P (f d) → Reads d (query f) P
  unfolding query exec next
  Reads-query f h = record {
    same = λ s e. ground arith;
    found = λ s a e. elim (Bool-cases (s.fault s.stmt)) [
      | inl bad ↦ rw bad (λ k. absurd (ground arith))
      | inr good ↦ rw good (λ k. subst P (ap f (sym e) ∙ (cc)) h)
    ];
  }

  pub Reads-pure : (a : A) → P a → Reads {S = S} d (pure a) P
  unfolding pure
  Reads-pure a h = record { same = λ s e. e; found = λ s b e k. subst P (cc) h }

  pub Reads-lift : (r : Result A) → ((a : A) → r ≡ ok a → P a) → Reads {S = S} d (lift r) P
  unfolding lift
  Reads-lift r h = record { same = λ s e. e; found = λ s a e k. h a k }

pub Reads-bind :
    {S A B : Type 0} (d : S) (P : A → Type 0) (Q : B → Type 0) (m : Sql S A) (k : A → Sql S B)
    → Reads d m P
    → ((a : A) → P a → Reads d (k a) Q)
    → Reads d (m >>= k) Q
unfolding ◌>>=◌
Reads-bind {S} {A} {B} d P Q m k hm hk = record {
  same = λ s e. same (m s).0 (m s).1 (hm.same s e) (λ a. hm.found s a e);
  found = λ s b e. found b (m s).0 (m s).1 (hm.same s e) (λ a. hm.found s a e);
}
  where
    same :
        (r : Result A) (t : Session S)
        → t.db ≡ d
        → ((a : A) → r ≡ ok a → P a)
        → (continue r k t).1.db ≡ d
    same (ok a) t e h = (hk a (h a refl)).same t e
    same (err x) t e h = e

    found :
        (b : B) (r : Result A) (t : Session S)
        → t.db ≡ d
        → ((a : A) → r ≡ ok a → P a)
        → (continue r k t).0 ≡ ok b
        → Q b
    found b (ok a) t e h = (hk a (h a refl)).found t b e
    found b (err x) t e h = λ k. absurd (ground arith)
