-- ===== src/Sql/Calm.antt =====
-- What an action that only reads gives while the driver fails nothing.
use ynab_auto_categorizer.Prelude.{ℕ, false, ◌≡◌, refl, Result, ok}
use ynab_auto_categorizer.Sql.{Session, Sql, query, exec, pure, lift, ◌>>=◌, next}

abbrev pub Calm : {S : Type 0} → Session S → Type 0
Calm s = (n : ℕ) → s.fault n ≡ false

-- On the database `d` the action gives `a` and leaves the database alone.
pub record Gives {S A : Type 0} (d : S) (m : Sql S A) (a : A) : Type 0 where
  pub result : (s : Session S) → s.db ≡ d → Calm s → (m s).0 ≡ ok a
  pub same : (s : Session S) → s.db ≡ d → Calm s → (m s).1.db ≡ d
  pub calm : (s : Session S) → s.db ≡ d → Calm s → Calm (m s).1

module _ {S A : Type 0} (d : S) where
  pub Gives-query : (f : S → A) → Gives d (query f) (f d)
  unfolding query exec next
  Gives-query f = record {
    result = λ s e c. rw (c s.stmt, e) refl;
    same = λ s e c. rw (c s.stmt) e;
    calm = λ s e c. rw (c s.stmt) c;
  }

  pub Gives-pure : (a : A) → Gives d (pure a) a
  unfolding pure
  Gives-pure a = record { result = λ s e c. refl; same = λ s e c. e; calm = λ s e c. c }

  pub Gives-lift : (r : Result A) (a : A) → r ≡ ok a → Gives d (lift r) a
  unfolding lift
  Gives-lift r a h = record { result = λ s e c. h; same = λ s e c. e; calm = λ s e c. c }

pub Gives-bind :
    {S A B : Type 0} (d : S) (m : Sql S A) (k : A → Sql S B) (a : A) (b : B)
    → Gives d m a
    → Gives d (k a) b
    → Gives d (m >>= k) b
unfolding ◌>>=◌
Gives-bind d m k a b g h = record {
  result = λ s e c. rw (g.result s e c) (h.result (m s).1 (g.same s e c) (g.calm s e c));
  same = λ s e c. rw (g.result s e c) (h.same (m s).1 (g.same s e c) (g.calm s e c));
  calm = λ s e c. rw (g.result s e c) (h.calm (m s).1 (g.same s e c) (g.calm s e c));
}
