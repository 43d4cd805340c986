-- ===== src/String.antt =====
-- common/string.h and common/string.c. A string is the list of its characters up to the byte 0,
-- which is not in the list; a character is a byte.
pub mod Number
mod Tests
use burrit_osprivate.Prelude.{ℕ, ◌+◌, ◌-◌, List, [], ◌∷◌, Bool, leb, ◌&&◌, if◌then◌else◌, length}
use burrit_osprivate.Prelude.Word.{add32, mul32}

-- '0' is 48 and '9' is 57.
unfoldable pub isdigit : ℕ → Bool
isdigit c = leb 48 c && leb c 57

-- 'A' is 65, 'Z' is 90 and 'a' is 97.
unfoldable pub strtolower : List ℕ → List ℕ
strtolower [] = []
strtolower (c ∷ s) = (c + (if leb 65 c && leb c 90 then 97 - 65 else 0)) ∷ strtolower s

-- The loop of `stratoui` with `i` so far; the result is the number and the rest of the string.
unfoldable pub stratoui_loop : List ℕ → ℕ → ℕ × List ℕ
unfolding isdigit
stratoui_loop [] i = (i, [])
stratoui_loop (c ∷ s) i =
    let rest = stratoui_loop s (add32 (mul32 10 i) (c - 48)) in
    if isdigit c then rest else (i, c ∷ s)

unfoldable pub stratoui : List ℕ → ℕ × List ℕ
unfolding stratoui_loop
stratoui s = stratoui_loop s 0

-- ' ' is 32.
unfoldable pub iswhitespace : ℕ → Bool
iswhitespace c = leb c 32

unfoldable pub strskipws : List ℕ → List ℕ
unfolding iswhitespace
strskipws [] = []
strskipws (c ∷ s) = let rest = strskipws s in if iswhitespace c then rest else c ∷ s

abbrev pub strlen : List ℕ → ℕ
strlen s = length s

-- `strcpy` into an array of characters: the bytes of the string, its end, and what was there
-- behind.
unfoldable pub strcpy : List ℕ → List ℕ → List ℕ
strcpy [] [] = []
strcpy (x ∷ d) [] = 0 ∷ d
strcpy [] (c ∷ s) = []
strcpy (x ∷ d) (c ∷ s) = c ∷ strcpy d s
