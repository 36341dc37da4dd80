-- ===== src/Scan/Category.antt =====
-- sync/mirror.go, hasDiscretionary: the test of a category's name. A name is the list of its code
-- points.
use ynab_auto_categorizer.Prelude.{
  ℕ, ◌+◌, Bool, true, false, not, ◌&&◌, ◌||◌, List, [], ◌∷◌, leb, nat_beq, any, if◌then◌else◌,
}
use ynab_auto_categorizer.Scan.Redaction.{Text}

-- The structs of the YNAB client library: the fields that are read.
pub record Category : Type 0 where
  pub name : Text
  pub deleted : Bool

pub record Group : Type 0 where
  pub deleted : Bool
  pub categories : List Category

-- unicode.IsSpace
unfoldable pub is_space : ℕ → Bool
is_space c =
    (leb 9 c && leb c 13)
    || nat_beq c 32
    || nat_beq c 133
    || nat_beq c 160
    || nat_beq c 5760
    || (leb 8192 c && leb c 8202)
    || nat_beq c 8232
    || nat_beq c 8233
    || nat_beq c 8239
    || nat_beq c 8287
    || nat_beq c 12288

unfoldable pub trim_left : Text → Text
unfolding is_space
trim_left [] = []
trim_left (c ∷ cs) = let rest = trim_left cs in if is_space c then rest else c ∷ cs

abbrev is_empty : Text → Bool
is_empty [] = true
is_empty (c ∷ cs) = false

unfoldable pub trim_right : Text → Text
unfolding is_space
trim_right [] = []
trim_right (c ∷ cs) =
    let rest = trim_right cs in if is_space c && is_empty rest then [] else c ∷ rest

-- The simple case fold of a letter of the name below: an ASCII capital, or the long s.
unfoldable pub fold : ℕ → ℕ
fold c = if leb 65 c && leb c 90 then c + 32 else if nat_beq c 383 then 115 else c

-- strings.EqualFold with a text of lower-case letters
unfoldable pub equal_fold : Text → Text → Bool
unfolding fold
equal_fold [] [] = true
equal_fold [] (d ∷ ds) = false
equal_fold (c ∷ cs) [] = false
equal_fold (c ∷ cs) (d ∷ ds) = nat_beq (fold c) d && equal_fold cs ds

-- "discretionary"
abbrev pub discretionary : Text
discretionary = 100 ∷ 105 ∷ 115 ∷ 99 ∷ 114 ∷ 101 ∷ 116 ∷ 105 ∷ 111 ∷ 110 ∷ 97 ∷ 114 ∷ 121 ∷ []

unfoldable pub is_discretionary : Category → Bool
unfolding trim_left trim_right equal_fold
is_discretionary c = not c.deleted && equal_fold (trim_right (trim_left c.name)) discretionary

unfoldable pub has_discretionary : List Group → Bool
unfolding is_discretionary
has_discretionary groups = any (λ g. not g.deleted && any is_discretionary g.categories) groups
