-- ===== src/String/Number.antt =====
-- `stratoui` reads what a decimal printer writes.
use burrit_osprivate.Prelude.{
  ℕ, ◌-◌, not, zero, suc, ◌+◌, ◌*◌, ◌/◌, ◌%◌, ◌^◌, ◌<◌, ◌≡◌, refl, ap, ◌∙◌, List, [], ◌∷◌, Bool,
  true, ltb, if◌then◌else◌, arith,
}
use native.Mathlib.Nat.{pow-suc}
use burrit_osprivate.Prelude.Word.{add32, mul32}
use burrit_osprivate.String.{isdigit, stratoui, stratoui_loop}

-- The decimal digits of `n`, most significant first, followed by `s`; `fuel` is at least the
-- number of digits.
unfoldable pub decimal : ℕ → ℕ → List ℕ → List ℕ
decimal zero n s = s
decimal (suc fuel) n s =
    let higher = decimal fuel (n / 10) ((n % 10 + 48) ∷ s) in
    if ltb n 10 then (n + 48) ∷ s else higher

-- The string does not go on with a digit.
unfoldable pub stops : List ℕ → Bool
stops [] = true
stops (c ∷ s) = not (isdigit c)

digit-step :
    (d i : ℕ) (s : List ℕ)
    → d < 10
    → 10 * i + d < 2 ^ 32
    → stratoui_loop ((d + 48) ∷ s) i ≡ stratoui_loop s (10 * i + d)
unfolding stratoui_loop isdigit
digit-step d i s h small =
    let value : add32 (mul32 10 i) (d + 48 - 48) ≡ 10 * i + d = omega arith in
    ground (arith, ap (stratoui_loop s) value)

pub loop-decimal :
    (fuel n : ℕ) (s : List ℕ)
    → n < 10 ^ suc fuel
    → n < 2 ^ 32
    → stratoui_loop (decimal (suc fuel) n s) 0 ≡ stratoui_loop s n
unfolding decimal
loop-decimal zero n s h small = ground (arith, digit-step n 0 s (omega arith) (omega arith))
loop-decimal (suc fuel) n s h small =
    let power : 10 ^ suc (suc fuel) ≡ 10 * 10 ^ suc fuel = grind (arith, pow-suc) in
    let below : n / 10 < 10 ^ suc fuel = omega (arith, power) in
    let one : n < 10 → stratoui_loop ((n + 48) ∷ s) 0 ≡ stratoui_loop s n =
      λ lt. digit-step n 0 s lt (omega arith) ∙ ap (stratoui_loop s) (omega arith) in
    let last : stratoui_loop ((n % 10 + 48) ∷ s) (n / 10) ≡ stratoui_loop s n =
      digit-step (n % 10) (n / 10) s (omega arith) (omega arith)
      ∙ ap (stratoui_loop s) (omega arith) in
    let many = loop-decimal fuel (n / 10) ((n % 10 + 48) ∷ s) below (omega arith) ∙ last in
    ground (arith, one, many)

pub loop-stops : (s : List ℕ) (n : ℕ) → stops s ≡ true → stratoui_loop s n ≡ (n, s)
unfolding stops stratoui_loop
loop-stops [] n h = refl
loop-stops (c ∷ s) n h = ground arith

-- `stratoui` reads the decimal digits of a word that no further digit follows as that word, and
-- stops after them.
pub stratoui-decimal :
    (n : ℕ) (s : List ℕ) → n < 2 ^ 32 → stops s ≡ true → stratoui (decimal 10 n s) ≡ (n, s)
unfolding stratoui
stratoui-decimal n s h end = loop-decimal 9 n s (omega arith) h ∙ loop-stops s n end
