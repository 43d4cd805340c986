-- ===== src/String/Tests.antt =====
-- Runs of common/string.c, and an instance of the theorem.
use burrit_osprivate.Prelude.{◌≡◌, refl, [], ◌∷◌, true}
use burrit_osprivate.String.{isdigit, strtolower, strskipws}
use burrit_osprivate.String.Number.{decimal, stops}

-- "Tr 7" in lower case
lower : strtolower (84 ∷ 114 ∷ 32 ∷ 55 ∷ []) ≡ 116 ∷ 114 ∷ 32 ∷ 55 ∷ []
unfolding strtolower
lower = refl

-- two spaces before "7"
skips : strskipws (32 ∷ 32 ∷ 55 ∷ []) ≡ 55 ∷ []
unfolding strskipws
skips = refl

-- "4294967295 " in decimal
digits : decimal 10 4294967295 [] ≡ 52 ∷ 50 ∷ 57 ∷ 52 ∷ 57 ∷ 54 ∷ 55 ∷ 50 ∷ 57 ∷ 53 ∷ []
unfolding decimal
digits = refl

space_stops : stops (32 ∷ 49 ∷ []) ≡ true
unfolding stops isdigit
space_stops = refl
