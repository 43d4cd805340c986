-- ===== src/User/Format.antt =====
-- user/services/terminal.c: formatted text. What a function writes through `output` is its result,
-- a list of characters; characters are bytes, and an S32 is a word.
--
-- The values that follow the format are a list. To take one that is not there, or a string where
-- there is a number, is `halt` here. The buffer of `tprintf` has 512 characters: the source tests
-- the length after it has written them.
pub mod Decimal
mod Plain
pub mod Send
mod Tests
use burrit_osprivate.Prelude.{
  ℕ, zero, suc, ◌+◌, ◌-◌, ◌*◌, ◌/◌, ◌%◌, ◌^◌, Bool, true, false, Bool, not, ◌&&◌, List, [], ◌∷◌,
  ◌++◌, ◌==◌, ltb, leb, if◌then◌else◌, get_or, length, replicate,
}
use burrit_osprivate.Prelude.Word.{to_u8, to_u32, add32, mul32, neg32}
use burrit_osprivate.Prelude.Outcome.{Outcome, done, halt, ◌>>=◌, ◌>>◌, assert}
use burrit_osprivate.String.{strlen}

-- '0' is 48 and 'a' is 97.
abbrev pub x2c : ℕ → ℕ
x2c c = if leb c 9 then 48 + c else to_u8 (97 + c - 10)

-- `value % 10` as a U8, and `value / 10`, of an S32: both go towards 0.
abbrev pub rem_10 : ℕ → ℕ
rem_10 v = if ltb v (2 ^ 31) then v % 10 else to_u8 (256 - (2 ^ 32 - v) % 10)

abbrev pub div_10 : ℕ → ℕ
div_10 v = if ltb v (2 ^ 31) then v / 10 else neg32 ((2 ^ 32 - v) / 10)

-- The loop that fills `buffer`, last digit first, with the room that is left.
unfoldable pub digits : ℕ → ℕ → List ℕ
digits zero v = []
digits (suc n) v =
    let rest = digits n (div_10 v) in
    if div_10 v == 0 then x2c (rem_10 v) ∷ [] else x2c (rem_10 v) ∷ rest

-- The loop that writes the digits, of which `n` are left.
unfoldable pub emit : ℕ → List ℕ → ℕ → List ℕ
emit zero buffer comma = []
emit (suc index) buffer comma =
    let rest = emit index buffer comma in
    let grouped = not (index == 0) && index % 3 == 0 && not (comma == 0) in
    get_or buffer index 0 ∷ (if grouped then 44 ∷ rest else rest)

unfoldable pub print_decimal : ℕ → ℕ → ℕ → ℕ → List ℕ
print_decimal value width delim comma =
    let negative = leb (2 ^ 31) value in
    let buffer = digits 16 (if negative then neg32 value else value) in
    let i = length buffer in
    let ti = i + (i - 1) / 3 in
    let sign : List ℕ = if negative then 45 ∷ [] else [] in
    sign ++ replicate (width - ti) delim ++ emit i buffer comma

unfoldable pub print_hex_byte : ℕ → List ℕ
print_hex_byte value = 48 ∷ 120 ∷ x2c (value / 16) ∷ x2c (value % 16) ∷ []

-- The two digits of a byte of a word.
abbrev pub hex_pair : ℕ → List ℕ
hex_pair c = x2c (c / 16) ∷ x2c (c % 16) ∷ []

unfoldable pub print_hex : ℕ → List ℕ
print_hex value =
    (48 ∷ 120 ∷ [])
    ++ hex_pair (value / 2 ^ 24 % 256)
    ++ hex_pair (value / 2 ^ 16 % 256)
    ++ hex_pair (value / 2 ^ 8 % 256)
    ++ hex_pair (value % 256)

-- The string up to the width, which is 0 where the format has none, with spaces up to it.
unfoldable pub print_string : List ℕ → ℕ → List ℕ
print_string [] len = replicate len 32
print_string (c ∷ str) zero = []
print_string (c ∷ str) (suc len) = c ∷ print_string str len

-- A value after the format.
pub data Arg : Type 0 where
  number : ℕ → Arg
  text : List ℕ → Arg

-- What a conversion writes, and the values after those that it takes.
unfoldable pub convert : ℕ → ℕ → List Arg → Outcome (List ℕ × List Arg)
convert ch width (number v ∷ args) =
    if ch == 100
    then done (print_decimal v width 48 0, args)
    else if ch == 110
    then done (print_decimal v width 32 1, args)
    else if ch == 115
    then halt
    else if ch == 99
    then done (to_u8 v ∷ [], args)
    else if ch == 120
    then done (print_hex v, args)
    else if ch == 98
    then done (print_hex_byte (to_u8 v), args)
    else if ch == 37
    then done (37 ∷ [], number v ∷ args)
    else done (37 ∷ (print_decimal width 0 48 0 ++ (ch ∷ [])), number v ∷ args)
convert ch width (text s ∷ args) =
    if ch == 100
    then halt
    else if ch == 110
    then halt
    else if ch == 115
    then done (print_string s width, args)
    else if ch == 99
    then halt
    else if ch == 120
    then halt
    else if ch == 98
    then halt
    else if ch == 37
    then done (37 ∷ [], text s ∷ args)
    else done (37 ∷ (print_decimal width 0 48 0 ++ (ch ∷ [])), text s ∷ args)
convert ch width [] =
    if ch == 100
    then halt
    else if ch == 110
    then halt
    else if ch == 115
    then halt
    else if ch == 99
    then halt
    else if ch == 120
    then halt
    else if ch == 98
    then halt
    else if ch == 37
    then done (37 ∷ [], [])
    else done (37 ∷ (print_decimal width 0 48 0 ++ (ch ∷ [])), [])

-- The states of the loop, FORMAT with `widthFlag`. Nothing leads to the source's state ESCAPE.
pub data State : Type 0 where
  plain : State
  format : ℕ → State

abbrev pub is_plain : State → Bool
is_plain plain = true
is_plain (format w) = false

-- The loop over the format: what it writes, and the state at the end.
unfoldable pub write : List ℕ → State → List Arg → Outcome (List ℕ × State)
write [] state args = done ([], state)
write (ch ∷ fmt) plain args =
    let begin = write fmt (format 0) args in
    let rest = write fmt plain args in
    if ch == 37 then begin else (rest >>= λ (out, state). done (ch ∷ out, state))
write (ch ∷ fmt) (format width) args =
    let wider = write fmt (format (add32 (mul32 width 10) (ch - 48))) args in
    if leb 48 ch && leb ch 57
    then wider
    else (convert ch width args >>= λ (out, args').
        write fmt plain args' >>= λ (out', state). done (out ++ out', state))

unfoldable pub vsprintf : List ℕ → List Arg → Outcome (List ℕ)
vsprintf fmt args =
    assert (leb (strlen fmt) 512)
    >> (write fmt plain args >>= λ (out, state).
        assert (leb (length out) 512) >> (assert (is_plain state) >> done out))
