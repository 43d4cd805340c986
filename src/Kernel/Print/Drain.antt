-- ===== src/Kernel/Print/Drain.antt =====
-- What kernel/print.c sends to UART 2 gets there.
use burrit_osprivate.Prelude.{ℕ, suc, ◌+◌, ◌<◌, ◌≤◌, ◌≡◌, refl, false, List, [], ◌∷◌}
use burrit_osprivate.Prelude.Outcome.{done}
use burrit_osprivate.Prelude.Result.{ok}
use burrit_osprivate.Hardware.Device.{Store, strb, transmit_full, is_uart, uart_write_byte_block}
use burrit_osprivate.Hardware.Device.Wait.{wait-Ends}
use burrit_osprivate.Kernel.Print.{send}

-- Among any `w` readings of the flags in a row, one shows a transmit buffer that is not full.
abbrev pub Drains : ℕ → (ℕ → ℕ) → Type 0
Drains w flags = (n : ℕ) → (r : ℕ) × (n ≤ r) × (r < n + w) × (transmit_full flags r ≡ false)

abbrev pub bytes_to : ℕ → List ℕ → List Store
bytes_to uart [] = []
bytes_to uart (b ∷ bytes) = strb uart b ∷ bytes_to uart bytes

write-done :
    (w : ℕ) (flags : ℕ → ℕ) (n byte : ℕ)
    → Drains w flags
    → (m : ℕ) × (uart_write_byte_block w flags n 0x808d0000 byte
        ≡ done (ok (strb 0x808d0000 byte ∷ [], m)))
unfolding uart_write_byte_block is_uart
write-done w flags n byte drains =
    let (r, low, high, free) = drains n in
    let (m, above, below, ends, first, e) = wait-Ends w (transmit_full flags) n r low high free in
    (suc m, rw e refl)

-- If the buffer drains, every byte is written, in order.
pub send-Drains :
    (w : ℕ) (flags : ℕ → ℕ) (n : ℕ) (bytes : List ℕ)
    → Drains w flags
    → (m : ℕ) × (send w flags n bytes ≡ done (bytes_to 0x808d0000 bytes, m))
unfolding send
send-Drains w flags n [] drains = (n, refl)
send-Drains w flags n (byte ∷ bytes) drains =
    let (n₁, e₁) = write-done w flags n byte drains in
    let (n₂, e₂) = send-Drains w flags n₁ bytes drains in (n₂, rw (e₁, e₂) refl)
