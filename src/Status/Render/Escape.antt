-- ===== src/Status/Render/Escape.antt =====
-- status/status.go, escape: what it leaves has no angle bracket and no bare @, and nothing of the text is lost.
use ynab_auto_categorizer.Prelude.{
  ℕ, zero, suc, Bool, true, false, not, ◌&&◌, ◌||◌, ◌≡◌, refl, [], ◌∷◌, nat_beq, arith,
  if◌then◌else◌,
}
use ynab_auto_categorizer.Scan.Redaction.{Text}
use ynab_auto_categorizer.Status.Render.{escape}

abbrev pub starts : Text → Text → Bool
starts [] xs = true
starts (p ∷ ps) [] = false
starts (p ∷ ps) (x ∷ xs) = nat_beq p x && starts ps xs

-- No angle bracket, and no @ without a zero-width space behind it.
abbrev pub is_inert : Text → Bool
is_inert [] = true
is_inert (c ∷ cs) =
    not (nat_beq c 60)
    && not (nat_beq c 62)
    && (not (nat_beq c 64) || starts (8203 ∷ []) cs)
    && is_inert cs

-- Slack's reading of the three entities, and of an @ that is broken up. The number is how many
-- characters of what was read are left to skip.
unfoldable pub read_from : ℕ → Text → Text
read_from n [] = []
read_from (suc n) (x ∷ xs) = read_from n xs
read_from zero (x ∷ xs) =
    let amp = read_from 4 xs in
    let angle = read_from 3 xs in
    let at = read_from 1 xs in
    let plain = read_from 0 xs in
    if nat_beq x 38 && starts (97 ∷ 109 ∷ 112 ∷ 59 ∷ []) xs
    then 38 ∷ amp
    else if nat_beq x 38 && starts (108 ∷ 116 ∷ 59 ∷ []) xs
    then 60 ∷ angle
    else if nat_beq x 38 && starts (103 ∷ 116 ∷ 59 ∷ []) xs
    then 62 ∷ angle
    else if nat_beq x 64 && starts (8203 ∷ []) xs
    then 64 ∷ at
    else x ∷ plain

-- Whatever the text: an escaped text has no angle bracket and no bare @, and reading the entities and
-- the broken @ signs in it gives the text back.
pub escape_lem : (s : Text) → (is_inert (escape s) ≡ true) × (read_from 0 (escape s) ≡ s)
unfolding escape read_from
escape_lem [] = (refl, refl)
escape_lem (c ∷ cs) = ground (arith, escape_lem cs)
