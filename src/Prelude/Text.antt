-- ===== src/Prelude/Text.antt =====
-- Texts as lists of code points, and the shapes that the regular expressions of the sources test.
use Prim.Native.Char.{code}
use Prim.Native.Nat.{ℕ, Ordering}
use Prim.Native.String
use Prim.Native.String.{String}
use mathlib.Core.Bool.{Bool, true, false, ◌&&◌, ◌||◌}
use mathlib.Core.List.{List, [], ◌∷◌}
use shookie.Prelude.Tests.{leb, ◌==◌}
use shookie.Prelude.Lists.{length}

abbrev pub codes : String → List ℕ
codes String.[] = []
codes (String.◌∷◌ c s) = code c ∷ codes s

-- The classes [A-Z], [a-z] and [0-9].
abbrev pub is_upper : ℕ → Bool
is_upper c = leb b'A' c && leb c b'Z'

abbrev pub is_lower : ℕ → Bool
is_lower c = leb b'a' c && leb c b'z'

abbrev pub is_digit : ℕ → Bool
is_digit c = leb b'0' c && leb c b'9'

-- [A-Z0-9]
abbrev pub is_id_unit : ℕ → Bool
is_id_unit c = is_upper c || is_digit c

unfoldable pub all_of : (ℕ → Bool) → List ℕ → Bool
all_of p [] = true
all_of p (c ∷ cs) = p c && all_of p cs

-- A unit of one class, then from `low` to `high` of another.
unfoldable pub is_shape : (ℕ → Bool) → (ℕ → Bool) → ℕ → ℕ → List ℕ → Bool
unfolding all_of
is_shape first rest low high [] = false
is_shape first rest low high (c ∷ cs) =
    first c && all_of rest cs && leb low (length cs) && leb (length cs) high

-- `left < right` of two texts.
abbrev pub text_lt : String → String → Bool
text_lt left right = elim (String.compare left right) [ Ordering.lt ↦ true | _ ↦ false ]

-- `startsWith`, on units
abbrev pub starts_with : List ℕ → List ℕ → Bool
starts_with [] cs = true
starts_with (p ∷ ps) [] = false
starts_with (p ∷ ps) (c ∷ cs) = p == c && starts_with ps cs
