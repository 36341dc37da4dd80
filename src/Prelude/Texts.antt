-- ===== src/Prelude/Texts.antt =====
-- Texts as lists of code points, where the program looks into them.
use Prim.Native.Nat.{ℕ, ◌+◌}
use Prim.Native.Char.{code}
use Prim.Native.String.{String}
use mathlib.Core.Bool.{Bool, true, false, ◌&&◌}
use mathlib.Core.List.{List, [], ◌∷◌}
use ynab_auto_categorizer.Prelude.Tests.{leb, nat_beq, if◌then◌else◌}

unfoldable pub codes : String → List ℕ
codes String.[] = []
codes (String.◌∷◌ c s) = code c ∷ codes s

-- lower() of SQLite and the case folding of LIKE: ASCII letters only.
unfoldable pub lower : ℕ → ℕ
lower c = if leb 65 c && leb c 90 then c + 32 else c

abbrev pub same_fold : ℕ → ℕ → Bool
same_fold c d = nat_beq (lower c) (lower d)

-- lower(s) = lower(t)
unfoldable pub equal_lower : List ℕ → List ℕ → Bool
unfolding lower
equal_lower [] [] = true
equal_lower [] (d ∷ ds) = false
equal_lower (c ∷ cs) [] = false
equal_lower (c ∷ cs) (d ∷ ds) = same_fold c d && equal_lower cs ds
