-- ===== src/Kernel/Boot/Tests.antt =====
-- Instances of the theorems on kernel/bootstrap.c.
use burrit_osprivate.Prelude.{◌≡◌, refl, [], ◌∷◌, arith}
use burrit_osprivate.Prelude.Outcome.{done}
use burrit_osprivate.Hardware.Device.{
  str, strb, wait, is_uart, uart_write_byte_block, interrupt_clear,
}
use burrit_osprivate.Kernel.Print.{print_blocking, write_blocking, convert_blocking, send}
use burrit_osprivate.Kernel.Print.Drain.{Drains}
use burrit_osprivate.Kernel.Boot.SetUp.{clean_up}

abbrev empty : Drains 1 (λ n. 0)
empty n = (n, omega arith, omega arith, refl)

cleaned :
    clean_up 1 (λ n. 0)
    ≡ done (
        str 0x800b0014 0xffffffff
        ∷ str 0x800c0014 0xffffffff
        ∷ strb 0x808d0000 27
        ∷ strb 0x808d0000 91
        ∷ strb 0x808d0000 50
        ∷ strb 0x808d0000 74
        ∷ [])
unfolding clean_up print_blocking write_blocking convert_blocking send uart_write_byte_block wait
    is_uart interrupt_clear
cleaned = refl
