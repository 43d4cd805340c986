-- ===== src/Kernel/Print.antt =====
-- kernel/print.c: formatted text, each byte of which `uartWriteByteBlock` writes to UART 2. A
-- function gives the bytes that it writes, in order, and `send` writes them. Decimals but for their
-- sign, and hexadecimals, are written as user/services/terminal.c writes them, with the same code;
-- to take a value after the format that is not there is `halt`.
pub mod Drain
mod Escape
mod Decimal
mod Tests
use burrit_osprivate.Prelude.{
  ℕ, zero, suc, ◌+◌, ◌-◌, ◌*◌, ◌/◌, ◌%◌, ◌^◌, Bool, ◌&&◌, List, [], ◌∷◌, ◌++◌, ◌==◌, leb,
  if◌then◌else◌, length, replicate,
}
use burrit_osprivate.Prelude.Word.{to_u8, add32, mul32}
use burrit_osprivate.Prelude.Result.{ok_or}
use burrit_osprivate.Prelude.Outcome.{Outcome, done, halt, ◌>>=◌}
use burrit_osprivate.Hardware.Device.{Store, uart_write_byte_block}
use burrit_osprivate.User.Format.{Arg, number, text, x2c, emit, print_hex, print_hex_byte}

-- The loop that fills `buffer`, last digit first, with the room that is left.
unfoldable pub digits_u32 : ℕ → ℕ → List ℕ
digits_u32 zero v = []
digits_u32 (suc n) v =
    let rest = digits_u32 n (v / 10) in
    if v / 10 == 0 then x2c (v % 10) ∷ [] else x2c (v % 10) ∷ rest

unfoldable pub print_decimal_u32 : ℕ → ℕ → ℕ → ℕ → List ℕ
print_decimal_u32 value width delim comma =
    let buffer = digits_u32 16 value in
    let i = length buffer in
    let ti = i + (i - 1) / 3 in replicate (width - ti) delim ++ emit i buffer comma

-- `va_arg` of a number and of a string.
abbrev pub next_number : List Arg → Outcome (ℕ × List Arg)
next_number (number v ∷ args) = done (v, args)
next_number _ = halt

abbrev pub next_text : List Arg → Outcome (List ℕ × List Arg)
next_text (text s ∷ args) = done (s, args)
next_text _ = halt

-- What a conversion writes, and the values after those that it takes.
unfoldable pub convert_blocking : ℕ → ℕ → List Arg → Outcome (List ℕ × List Arg)
convert_blocking ch width args =
    if ch == 100
    then (next_number args >>= λ (v, rest). done (print_decimal_u32 v width 48 0, rest))
    else if ch == 110
    then (next_number args >>= λ (v, rest). done (print_decimal_u32 v width 32 1, rest))
    else if ch == 115
    then next_text args
    else if ch == 99
    then (next_number args >>= λ (v, rest). done (to_u8 v ∷ [], rest))
    else if ch == 120
    then (next_number args >>= λ (v, rest). done (print_hex v, rest))
    else if ch == 98
    then (next_number args >>= λ (v, rest). done (print_hex_byte (to_u8 v), rest))
    else if ch == 37
    then done (37 ∷ [], args)
    else done (37 ∷ (print_decimal_u32 width 0 48 0 ++ (ch ∷ [])), args)

-- The states of the loop, FORMAT with `widthFlag`.
pub data Mode : Type 0 where
  plain escape : Mode
  format : ℕ → Mode

-- The loop over the format: what it writes, and the state at the end. ESCAPE has no way out.
unfoldable pub write_blocking : List ℕ → Mode → List Arg → Outcome (List ℕ × Mode)
write_blocking [] state args = done ([], state)
write_blocking (ch ∷ fmt) escape args =
    write_blocking fmt escape args >>= λ (out, state). done (ch ∷ out, state)
write_blocking (ch ∷ fmt) plain args =
    let begin = write_blocking fmt (format 0) args in
    let escaped = write_blocking fmt escape args in
    let rest = write_blocking fmt plain args in
    if ch == 37
    then begin
    else if ch == 92
    then escaped
    else (rest >>= λ (out, state). done (ch ∷ out, state))
write_blocking (ch ∷ fmt) (format width) args =
    let wider = write_blocking fmt (format (add32 (mul32 width 10) (ch - 48))) args in
    if leb 48 ch && leb ch 57
    then wider
    else (convert_blocking ch width args >>= λ (out, args').
        write_blocking fmt plain args' >>= λ (out', state). done (out ++ out', state))

-- The value that `printBlocking` returns: 0 or -1.
abbrev pub returned : Mode → ℕ
returned plain = 0
returned _ = 2 ^ 32 - 1

-- A call of `uartWriteByteBlock` on UART 2 for each byte, whose return codes nobody reads. Each has
-- `fuel` rounds, and `n` is the number of the next reading of the flags.
unfoldable pub send : ℕ → (ℕ → ℕ) → ℕ → List ℕ → Outcome (List Store × ℕ)
send fuel flags n [] = done ([], n)
send fuel flags n (byte ∷ bytes) = do
  r ← uart_write_byte_block fuel flags n 0x808d0000 byte
  let (stores, n₁) = ok_or r ([], n)
  (rest, n₂) ← send fuel flags n₁ bytes
  done (stores ++ rest, n₂)

-- What is stored, the number of the next reading, and the value that is returned.
unfoldable pub print_blocking : ℕ → (ℕ → ℕ) → ℕ → List ℕ → List Arg → Outcome (List Store × ℕ × ℕ)
print_blocking fuel flags n fmt args = do
  (out, state) ← write_blocking fmt plain args
  (stores, n') ← send fuel flags n out
  done (stores, n', returned state)
