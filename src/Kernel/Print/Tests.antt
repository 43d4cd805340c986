-- ===== src/Kernel/Print/Tests.antt =====
-- Runs of kernel/print.c.
use burrit_osprivate.Prelude.{◌-◌, ◌^◌, ◌≡◌, refl, [], ◌∷◌, ◌==◌, if◌then◌else◌}
use burrit_osprivate.Prelude.Outcome.{done}
use burrit_osprivate.User.Format.{number, text, emit}
use burrit_osprivate.Hardware.Device.{strb, wait, is_uart, uart_write_byte_block}
use burrit_osprivate.Kernel.Print.{
  plain, digits_u32, print_decimal_u32, convert_blocking, write_blocking, send, print_blocking,
}

-- "%6d%s" of 2 ^ 32 - 1 and "ab".
converted :
    write_blocking
      (37 ∷ 54 ∷ 100 ∷ 37 ∷ 115 ∷ [])
      plain
      (number 4294967295 ∷ text (97 ∷ 98 ∷ []) ∷ [])
    ≡ done (52 ∷ 50 ∷ 57 ∷ 52 ∷ 57 ∷ 54 ∷ 55 ∷ 50 ∷ 57 ∷ 53 ∷ 97 ∷ 98 ∷ [], plain)
unfolding write_blocking convert_blocking print_decimal_u32 digits_u32 emit
converted = refl

-- "a\%" where the first reading shows a full buffer: the backslash is left out, -1 is returned.
escaped :
    print_blocking 2 (λ n. if n == 0 then 0x20 else 0) 0 (97 ∷ 92 ∷ 37 ∷ []) []
    ≡ done (strb 0x808d0000 97 ∷ strb 0x808d0000 37 ∷ [], 3, 2 ^ 32 - 1)
unfolding print_blocking write_blocking send uart_write_byte_block wait is_uart
escaped = refl
