-- ===== src/User/Commander/Parse.antt =====
-- `parseTrainCommand` reads what a command is written as.
use burrit_osprivate.Prelude.{
  ℕ, zero, suc, ◌+◌, ◌-◌, ◌*◌, ◌/◌, ◌%◌, ◌≤◌, ◌<◌, ◌^◌, ◌≡◌, refl, ap, ◌∙◌, true, false, List, [],
  ◌∷◌, arith, leb, ltb, Bool-cases, inl, inr,
}
use burrit_osprivate.Prelude.Word.{to_u8, to_u16, u16_mod, u32_mod}
use burrit_osprivate.String.{stratoui, strskipws, isdigit}
use burrit_osprivate.String.Number.{decimal, stops, stratoui-decimal}
use burrit_osprivate.User.Commander.{
  number, parsed, begins, parse_speed, parse_sensor, sensor, parse_train_command,
}

-- White space stands before no digit.
skip-digits :
    (fuel n c : ℕ) (s : List ℕ)
    → 33 ≤ c
    → strskipws (decimal fuel n (c ∷ s)) ≡ decimal fuel n (c ∷ s)
unfolding decimal strskipws
skip-digits zero n c s dark = ground arith
skip-digits (suc fuel) n c s dark = elim (Bool-cases (ltb n 10)) [
  | inl small ↦ rw small (ground arith)
  | inr large ↦ rw large (skip-digits fuel (n / 10) (n % 10 + 48) (c ∷ s) (omega arith))
]

skip-decimal : (n : ℕ) (s : List ℕ) → strskipws (decimal 10 n s) ≡ decimal 10 n s
unfolding decimal strskipws
skip-decimal n s = elim (Bool-cases (ltb n 10)) [
  | inl small ↦ rw small (ground arith)
  | inr large ↦ rw large (skip-digits 9 (n / 10) (n % 10 + 48) s (omega arith))
]

skip-space : (s : List ℕ) → strskipws (32 ∷ s) ≡ strskipws s
unfolding strskipws
skip-space s = refl

-- A number behind a blank.
number-decimal :
    (n : ℕ) (s : List ℕ) → n < 2 ^ 32 → stops s ≡ true → number (32 ∷ decimal 10 n s) ≡ (n, s)
number-decimal n s lt end =
    ap stratoui (skip-space (decimal 10 n s) ∙ skip-decimal n s) ∙ stratoui-decimal n s lt end

-- A command with two letters, a train and a number, each behind a blank.
abbrev pub numbers : ℕ → ℕ → ℕ → ℕ → List ℕ
numbers a b train value = a ∷ b ∷ 32 ∷ decimal 10 train (32 ∷ decimal 10 value [])

-- With two letters, a train, the letter of a group of sensors and a number in it.
abbrev pub goal : ℕ → ℕ → ℕ → ℕ → ℕ → List ℕ
goal a b train group id = a ∷ b ∷ 32 ∷ decimal 10 train (32 ∷ (97 + group) ∷ decimal 10 id [])

blank_stops : (s : List ℕ) → stops (32 ∷ s) ≡ true
unfolding stops isdigit
blank_stops s = refl

none_stops : stops [] ≡ true
unfolding stops
none_stops = refl

skip-letter : (group : ℕ) (s : List ℕ) → strskipws (32 ∷ (97 + group) ∷ s) ≡ (97 + group) ∷ s
unfolding strskipws
skip-letter group s = ground arith

parse_speed-written :
    (train speed : ℕ)
    → train < 256
    → speed < 14
    → parse_speed 22 (32 ∷ decimal 10 train (32 ∷ decimal 10 speed [])) ≡ parsed train 22 speed
unfolding parse_speed
parse_speed-written train speed t s =
    let first =
      number-decimal train (32 ∷ decimal 10 speed []) (omega (arith, t))
        (blank_stops (decimal 10 speed [])) in
    let second = number-decimal speed [] (omega (arith, s)) none_stops in
    let byte : to_u8 speed ≡ speed = omega (arith, s) in
    let byte' : to_u8 train ≡ train = omega (arith, t) in
    let small : leb 14 speed ≡ false = ground (arith, s) in
    rw (first, second, byte, byte', small) refl

parse_sensor-written :
    (train group id : ℕ)
    → train < 256
    → group < 5
    → id < 16
    → parse_sensor 98 (32 ∷ decimal 10 train (32 ∷ (97 + group) ∷ decimal 10 (id + 1) []))
      ≡ parsed train 98 (group * 16 + id)
unfolding parse_sensor sensor
parse_sensor-written train group id t g i =
    let rest = (97 + group) ∷ decimal 10 (id + 1) [] in
    let first = number-decimal train (32 ∷ rest) (omega (arith, t)) (blank_stops rest) in
    let second = stratoui-decimal (id + 1) [] (omega (arith, i)) none_stops in
    let byte : to_u8 train ≡ train = omega (arith, t) in
    let where_ : ((97 + group + u16_mod - 97) % u16_mod * 16 + to_u16 (id + 1) + u32_mod - 1)
          % u32_mod
        ≡ group * 16 + id =
      omega (arith, g, i) in
    let small : leb 80 (group * 16 + id) ≡ false = ground (arith, g, i) in
    rw (first, skip-letter group (decimal 10 (id + 1) []), second, where_, byte, small) refl

-- "tr", a train and a speed below 14 parse as an order of that speed for that train, and "gt", a
-- train, a letter from a to e and a number from 1 to 16 as an order to go to the sensor of that number
-- in that group, in the numbering of the sensors from 0 to 79.
pub parse-written :
    (train speed group id : ℕ)
    → train < 256
    → speed < 14
    → group < 5
    → id < 16
    → (parse_train_command (numbers b't' b'r' train speed) 0 0 ≡ parsed train 22 speed)
      × (parse_train_command (goal b'g' b't' train group (id + 1)) 0 0
          ≡ parsed train 98 (group * 16 + id))
unfolding parse_train_command begins
parse-written train speed group id t s g i =
    (parse_speed-written train speed t s, parse_sensor-written train group id t g i)
