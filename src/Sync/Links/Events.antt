-- ===== src/Sync/Links/Events.antt =====
-- sync/mirror.go, linkEvents: an event is a change of the mirrored flag, and it fires once.
use mathlib.Core.Path.{subst}
use ynab_auto_categorizer.Prelude.{
  String, Bool, true, false, ◌||◌, bool_beq, ◌≡◌, ◌≢◌, refl, ◌∙◌, ap, sym, List, [], ◌∷◌, Among,
  ◌⊎◌, inl, inr, arith, Bool-cases, or_left_false, or_right_false, or_right,
}
use ynab_auto_categorizer.Mirror.Rows.{Account}
use ynab_auto_categorizer.Sync.Links.{LinkEvent, events_for}

abbrev pub event_of : Account → LinkEvent
event_of a = record {
  account_id = a.id;
  account_name = a.name;
  in_error = a.direct_import_in_error;
}

-- The account is live and its flag is not the one before.
pub record IsChange (before : String → Bool) (a : Account) : Type 0 where
  pub live : a.deleted ≡ false
  pub differs : a.direct_import_in_error ≢ before a.id

-- The test of the loop: whether it skips the account.
abbrev skips : (String → Bool) → Account → Bool
skips before a = a.deleted || bool_beq a.direct_import_in_error (before a.id)

bool_beq-eq : (x y : Bool) → bool_beq x y ≡ true → x ≡ y
bool_beq-eq true true h = refl
bool_beq-eq true false h = sym h
bool_beq-eq false true h = h
bool_beq-eq false false h = refl

bool_beq-ne : (x y : Bool) → bool_beq x y ≡ false → x ≢ y
bool_beq-ne true true h e = ground arith
bool_beq-ne true false h e = ground arith
bool_beq-ne false true h e = ground arith
bool_beq-ne false false h e = ground arith

bool_beq_refl : (x : Bool) → bool_beq x x ≡ true
bool_beq_refl true = refl
bool_beq_refl false = refl

skips_not : (before : String → Bool) (a : Account) → IsChange before a → skips before a ≡ false
skips_not before a c = elim (Bool-cases (bool_beq a.direct_import_in_error (before a.id))) [
  | inl same ↦ absurd (c.differs (bool_beq-eq _ _ same))
  | inr differ ↦ ground (arith, c.live)
]

not_skipped : (before : String → Bool) (a : Account) → skips before a ≡ false → IsChange before a
not_skipped before a h = record {
  live = or_left_false _ h;
  differs = λ e. bool_beq-ne _ _ (or_right_false _ h) e;
}

module _ (before : String → Bool) where
  pub change_emitted :
      (a : Account) (l : List Account)
      → Among a l
      → IsChange before a
      → Among (event_of a) (events_for before l)
  unfolding events_for
  change_emitted a [] m c = elim m [ ]
  change_emitted a (x ∷ l) (inl same) c =
      rw (skips_not before x (subst (IsChange before) same c)) (inl (ap event_of same))
  change_emitted a (x ∷ l) (inr m) c = elim (Bool-cases (skips before x)) [
    | inl skip ↦ rw skip (change_emitted a l m c)
    | inr fire ↦ rw fire (inr (change_emitted a l m c))
  ]

  pub emitted-IsChange :
      (ev : LinkEvent) (l : List Account)
      → Among ev (events_for before l)
      → (a : Account) × Among a l × IsChange before a × (ev ≡ event_of a)
  unfolding events_for
  emitted-IsChange ev [] m = elim m [ ]
  emitted-IsChange ev (x ∷ l) m = elim (Bool-cases (skips before x)) [
    | inl skip ↦
        let (a, among, change, same) = emitted-IsChange ev l (rw skip at m) in
        (a, inr among, change, same)
    | inr fire ↦ from_head (emitted-IsChange ev l) fire (rw fire at m)
  ]
    where
      from_head :
          (Among ev (events_for before l)
            → (a : Account) × Among a l × IsChange before a × (ev ≡ event_of a))
          → skips before x ≡ false
          → (ev ≡ event_of x) ⊎ Among ev (events_for before l)
          → (a : Account) × Among a (x ∷ l) × IsChange before a × (ev ≡ event_of a)
      from_head later fire (inl same) = (x, inl refl, not_skipped before x fire, same)
      from_head later fire (inr m) =
          let (a, among, change, same) = later m in (a, inr among, change, same)

  -- Accounts whose flags are known already emit nothing.
  pub no_change_no_event :
      (l : List Account)
      → ((a : Account) → Among a l → before a.id ≡ a.direct_import_in_error)
      → events_for before l ≡ []
  unfolding events_for
  no_change_no_event [] h = refl
  no_change_no_event (x ∷ l) h =
      rw
        (or_right x.deleted (
          sym (ap (bool_beq x.direct_import_in_error) (sym (h x (inl refl))))
          ∙ bool_beq_refl x.direct_import_in_error))
        (no_change_no_event l (λ a m. h a (inr m)))
