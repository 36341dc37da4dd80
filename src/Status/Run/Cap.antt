-- ===== src/Status/Run/Cap.antt =====
-- status/status.go, post: new messages are far apart, whatever Slack answers, whichever writes of the
-- store fail, and whenever the process starts again.
use mathlib.Core.Path.{subst}
use ynab_auto_categorizer.Prelude.{
  ◌+◌, ◌≤◌, ◌<◌, Bool, true, false, not, ◌&&◌, ◌||◌, ◌≡◌, refl, sym, ◌⊎◌, inl, inr, List, [], ◌∷◌,
  all, all_imp, Result, ok, err, leb, arith, and_intro, Error,
}
use ynab_auto_categorizer.Mirror.Rows.{Time}
use ynab_auto_categorizer.Status.Slack.{got, failed, not_posted}
use ynab_auto_categorizer.Status.Run.{Posting, repost_every, capped}

-- Slack may have created the message.
abbrev pub may_exist : Posting → Bool
may_exist p = elim p.reply [ got ts ↦ true | failed e ↦ not (not_posted e) ]

-- A message that may exist was asked for a while before `t`.
abbrev pub long_before : Time → Posting → Bool
long_before t q = not (may_exist q) || leb (q.at + repost_every) t

-- Any two messages that may exist, in a list with the latest first, are repost_every apart.
unfoldable pub spaced : List Posting → Bool
spaced [] = true
spaced (p ∷ ps) = (not (may_exist p) || all (long_before p.at) ps) && spaced ps

abbrev pub within : Time → Posting → Bool
within a q = not (may_exist q) || (leb 1 q.at && leb q.at a)

-- No message that may exist is later than the attempt that is remembered.
abbrev pub covered : Time → List Posting → Bool
covered a ps = all (within a) ps

covered_mono : (a b : Time) (ps : List Posting) → a ≤ b → covered a ps ≡ true → covered b ps ≡ true
covered_mono a b ps le h = all_imp (within a) (within b) ps (λ q k. widen q k) h
  where
    widen : (q : Posting) → within a q ≡ true → within b q ≡ true
    widen q k = ground arith

not_capped_lem :
    (t last : Time) (ps : List Posting)
    → capped t last ≡ false
    → last ≤ t
    → covered last ps ≡ true
    → all (long_before t) ps ≡ true
unfolding capped
not_capped_lem t last ps free le h = all_imp (within last) (long_before t) ps (λ q k. apart q k) h
  where
    apart : (q : Posting) → within last q ≡ true → long_before t q ≡ true
    apart q k = ground arith

-- The stored attempt, whether the updater has loaded, its own copy of the attempt, the time, the posts.
pub record Facts (stored : Time) (loaded : Bool) (own : Time) (t : Time) (ps : List Posting)
    : Type 0 where
  pub stored_covers : covered stored ps ≡ true
  pub own_covers : loaded ≡ true → covered own ps ≡ true
  pub stored_le : stored ≤ t
  pub own_le : own ≤ t
  pub apart : spaced ps ≡ true

pub Facts-later :
    {stored own t t' : Time} {loaded : Bool} {ps : List Posting}
    → t ≤ t'
    → Facts stored loaded own t ps
    → Facts stored loaded own t' ps
Facts-later le h = record {
  stored_covers = h.stored_covers;
  own_covers = h.own_covers;
  stored_le = omega (arith, h.stored_le);
  own_le = omega (arith, h.own_le);
  apart = h.apart;
}

-- What a write of the attempt `t` may leave as the stored attempt.
abbrev pub Written : Time → Time → Result (Unit {0}) → Time → Type 0
Written old t (ok x) new = new ≡ t
Written old t (err e) new = (new ≡ old) ⊎ (new ≡ t)

module _ (t t' : Time) (own old : Time) (ps : List Posting) (le : t ≤ t') where
  -- The attempt could not be stored, or so it is said.
  pub Facts-unstored :
      (e : Error) (new : Time)
      → Written old t (err e) new
      → Facts old true own t ps
      → Facts new true own t' ps
  Facts-unstored e new (inl same) h =
      subst (λ a. Facts a true own t' ps) (sym same) (Facts-later le h)
  Facts-unstored e new (inr same) h =
      subst (λ a. Facts a true own t' ps) (sym same)
        (record {
          stored_covers = covered_mono old t ps h.stored_le h.stored_covers;
          own_covers = h.own_covers;
          stored_le = le;
          own_le = omega (arith, h.own_le);
          apart = h.apart;
        })

  -- The attempt is stored and the request was made.
  pub Facts-asked :
      (p : Posting)
      → p.at ≡ t
      → 0 < t
      → capped t own ≡ false
      → Facts old true own t ps
      → Facts t true t t' (p ∷ ps)
  unfolding spaced
  Facts-asked p at pos free h =
      let far = not_capped_lem t own ps free h.own_le (h.own_covers refl) in
      let past = covered_mono old t ps h.stored_le h.stored_covers in
      record {
        stored_covers = and_intro (ground arith) past;
        own_covers = λ _. and_intro (ground arith) past;
        stored_le = le;
        own_le = le;
        apart = and_intro (far_from p at far) h.apart;
      }
    where
      far_from :
          (q : Posting)
          → q.at ≡ t
          → all (long_before t) ps ≡ true
          → (not (may_exist q) || all (long_before q.at) ps) ≡ true
      far_from q e k = rw e (ground arith)

-- The attempt is given back after a post that provably failed.
pub Facts-cleared :
    {t t' own : Time} {ps : List Posting} (p : Posting) (r : Result (Unit {0})) (new : Time)
    → may_exist p ≡ false
    → own ≤ t
    → t ≤ t'
    → covered own ps ≡ true
    → Written t own r new
    → Facts t true t t' (p ∷ ps)
    → Facts new true own t' (p ∷ ps)
Facts-cleared {t} {t'} {own} {ps} p r new dead le le' cov w h = by_result r w
  where
    own_cover : covered own (p ∷ ps) ≡ true
    own_cover = and_intro (ground arith) cov

    own_facts : Facts own true own t' (p ∷ ps)
    own_facts = record {
      stored_covers = own_cover;
      own_covers = λ _. own_cover;
      stored_le = omega arith;
      own_le = omega arith;
      apart = h.apart;
    }

    kept_facts : Facts t true own t' (p ∷ ps)
    kept_facts = record {
      stored_covers = h.stored_covers;
      own_covers = λ _. own_cover;
      stored_le = le';
      own_le = omega arith;
      apart = h.apart;
    }

    by_result : (s : Result (Unit {0})) → Written t own s new → Facts new true own t' (p ∷ ps)
    by_result (ok x) same = subst (λ a. Facts a true own t' (p ∷ ps)) (sym same) own_facts
    by_result (err e) (inl same) = subst (λ a. Facts a true own t' (p ∷ ps)) (sym same) kept_facts
    by_result (err e) (inr same) = subst (λ a. Facts a true own t' (p ∷ ps)) (sym same) own_facts
