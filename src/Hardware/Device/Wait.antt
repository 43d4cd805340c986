-- ===== src/Hardware/Device/Wait.antt =====
-- The loops of hardware/ts7200/uart.c that wait for a flag.
use burrit_osprivate.Prelude.{
  ℕ, zero, suc, ◌+◌, ◌<◌, ◌≤◌, ◌≡◌, refl, subst, true, false, Bool, Bool-cases, inl, inr, arith,
  ℕ_discrete, ◌==◌, leb,
}
use burrit_osprivate.Prelude.Outcome.{done}
use burrit_osprivate.Prelude.Result.{ok, ◌>>=◌}
use burrit_osprivate.Hardware.Uart.{read_byte}
use burrit_osprivate.Hardware.Device.{
  wait, is_uart, receive_not_full, uart_read_byte_block, uart_at, pointer, is_not_null, is_in_range,
}

-- The loop ends at the first reading of which `busy` fails, if it has a round for it.
pub wait-Ends :
    (fuel : ℕ) (busy : ℕ → Bool) (n r : ℕ)
    → n ≤ r
    → r < n + fuel
    → busy r ≡ false
    → (m : ℕ) × (n ≤ m)
      × (m ≤ r)
      × (busy m ≡ false)
      × ((j : ℕ) → n ≤ j → j < m → busy j ≡ true)
      × (wait fuel busy n ≡ done m)
unfolding wait
wait-Ends zero busy n r low high free = absurd (omega arith)
wait-Ends (suc fuel) busy n r low high free = elim (Bool-cases (busy n)) [
  | inr h ↦ (n, omega arith, low, h, (λ j a b. absurd (omega (arith, a, b))), rw h refl)
  | inl h ↦
      let other : n < r = elim (ℕ_discrete n r) [
        | yes e ↦ absurd (cc (h, free, e))
        | no ne ↦ omega (arith, ne)
      ] in
      let (m, above, below, ends, first, e) =
        wait-Ends fuel busy (suc n) r other (omega arith) free in
      (
        m,
        omega arith,
        below,
        ends,
        (λ j a b. elim (ℕ_discrete n j) [
          | yes e ↦ subst (λ i. busy i ≡ true) e h
          | no ne ↦ first j (omega (arith, ne, a)) b
        ]),
        rw h e,
      )
]

-- `uartReadByteBlock` of a UART, with a pointer in the range, returns the byte that the data
-- register shows at the first reading that finds the buffer full, if it has a round for it.
read-Ends :
    (fuel n uart p r : ℕ) (flags data_at : ℕ → ℕ)
    → is_uart uart ≡ true
    → 0x50000 < p
    → p < 0x01fdd000
    → n ≤ r
    → r < n + fuel
    → receive_not_full flags r ≡ false
    → (m : ℕ) × (n ≤ m)
      × (m ≤ r)
      × (receive_not_full flags m ≡ false)
      × ((j : ℕ) → n ≤ j → j < m → receive_not_full flags j ≡ true)
      × (uart_read_byte_block fuel flags data_at n uart p
          ≡ done (ok (read_byte (data_at m), suc m)))
unfolding uart_read_byte_block uart_at pointer is_not_null is_in_range
read-Ends fuel n uart p r flags data_at device low high before rounds full =
    let (m, above, below, ends, first, e) =
      wait-Ends fuel (receive_not_full flags) n r before rounds full in
    let not_null : (p == 0) ≡ false = ground arith in
    let under : leb 0x01fdd000 p ≡ false = ground arith in
    let over : leb p 0x50000 ≡ false = ground arith in
    let checks : (uart_at uart >>= λ _. pointer p) ≡ ok tt =
      rw (device, not_null, under, over) refl in
    (m, above, below, ends, first, rw (uart_read_byte_block, checks, e) refl)
