-- ===== src/Hardware/Device.antt =====
-- hardware/ts7200/timer.c, uart.c and interrupt.c as the kernel calls them: with the address of a
-- device, which DEVICE_CHECK tests, and pointers, which the checks of common/error.h test. What a
-- register shows is a function of its address; what the functions store is a list, in order.
pub mod Wait
mod Tests
use Prim.Native.Nat.{bit_and}
use burrit_osprivate.Prelude.{
  ℕ, zero, suc, ◌+◌, ◌-◌, Bool, true, false, ◌&&◌, ◌||◌, not, List, [], ◌∷◌, ◌++◌, ◌==◌, ltb, leb,
  if◌then◌else◌,
}
use burrit_osprivate.Prelude.Result.{Result, Error, ok, err, null, range, device, ◌>>=◌}
use burrit_osprivate.Prelude.Outcome.{Outcome, done, halt}
use burrit_osprivate.Prelude.Outcome
use burrit_osprivate.Hardware.Timer.{Timer, TimerState, timer_1, timer_2, timer_3, timer_4}
use burrit_osprivate.Hardware.Timer
use burrit_osprivate.Hardware.Uart.{interrupt_tx, read_byte}
use burrit_osprivate.Hardware.Uart

-- `__str` and `__strb` of hardware/memory.h: the address and the value.
pub data Store : Type 0 where
  str strb : ℕ → ℕ → Store

abbrev pub check : Error → Bool → Result (Unit {0})
check e true = ok tt
check e false = err e

-- `IS_NOT_NULL` and then `IS_IN_RANGE`, of an address.
unfoldable pub is_not_null : ℕ → Result (Unit {0})
is_not_null x = check null (not (x == 0))

unfoldable pub is_in_range : ℕ → Result (Unit {0})
is_in_range x = check range (not (leb 0x01fdd000 x || leb x 0x50000))

abbrev pub pointer : ℕ → Result (Unit {0})
unfolding is_not_null is_in_range
pointer p = is_not_null p >>= λ _. is_in_range p

-- `IS_DEVICE` of timer.c: the timer at an address.
unfoldable pub timer_at : ℕ → Result Timer
timer_at d =
    if d == 0x80810000
    then ok timer_1
    else if d == 0x80810020
    then ok timer_2
    else if d == 0x80810080
    then ok timer_3
    else if d == 0x8081005c
    then ok timer_4
    else err device

unfoldable pub timer_enable : (ℕ → ℕ) → ℕ → ℕ → ℕ → ℕ → Result (List Store)
timer_enable shows timer on mode clk = do
  t ← timer_at timer
  ok (str (timer + 0x8) (Timer.enable t on mode clk (shows (timer + 0x8))) ∷ [])

-- Timer 4 has no interrupt to clear, and no value to load.
abbrev pub unless_4 : Timer → List Store → List Store
unless_4 timer_4 w = []
unless_4 _ w = w

unfoldable pub timer_clear : ℕ → Result (List Store)
timer_clear timer = do t ← timer_at timer; ok (unless_4 t (str (timer + 0xc) 1 ∷ []))

unfoldable pub timer_set_value : ℕ → ℕ → Result (List Store)
timer_set_value timer value = do t ← timer_at timer; ok (unless_4 t (str timer value ∷ []))

-- The address of the value, or of the state, is `p`.
unfoldable pub timer_get_value : (ℕ → ℕ) → ℕ → ℕ → Result ℕ
unfolding is_not_null is_in_range
timer_get_value shows timer p = do t ← timer_at timer; _ ← pointer p; ok (shows (timer + 0x4))

unfoldable pub timer_start : (ℕ → ℕ) → ℕ → ℕ → TimerState → Result TimerState
timer_start shows timer p s = do
  t ← timer_at timer
  _ ← pointer p
  ok (Timer.start (shows (timer + 0x4)) s)

unfoldable pub timer_sample : (ℕ → ℕ) → ℕ → ℕ → TimerState → Result TimerState
timer_sample shows timer p s = do
  t ← timer_at timer
  _ ← pointer p
  ok (Timer.sample t (shows (timer + 0x4)) s)

-- `IS_DEVICE` of uart.c.
unfoldable pub is_uart : ℕ → Bool
is_uart d = d == 0x808c0000 || d == 0x808d0000

abbrev pub uart_at : ℕ → Result (Unit {0})
unfolding is_uart
uart_at d = check device (is_uart d)

unfoldable pub uart_enable : (ℕ → ℕ) → ℕ → ℕ → ℕ → ℕ → ℕ → ℕ → Result (List Store)
uart_enable shows uart on timeout trans rcv modem = do
  _ ← uart_at uart
  ok (str (uart + 0x14) (Uart.enable on timeout trans rcv modem (shows (uart + 0x14))) ∷ [])

unfoldable pub uart_speed : ℕ → ℕ → Result (List Store)
uart_speed uart rate = do
  _ ← uart_at uart
  let (mid, low) = Uart.speed rate
  ok (str (uart + 0xc) mid ∷ str (uart + 0x10) low ∷ [])

unfoldable pub uart_config : (ℕ → ℕ) → ℕ → ℕ → ℕ → ℕ → Result (List Store)
uart_config shows uart fifo stp pen = do
  _ ← uart_at uart
  ok (str (uart + 0x8) (Uart.config fifo stp pen (shows (uart + 0x8))) ∷ [])

unfoldable pub uart_write_byte : ℕ → ℕ → Result (List Store)
uart_write_byte uart byte = do _ ← uart_at uart; ok (strb uart byte ∷ [])

unfoldable pub uart_read_byte : (ℕ → ℕ) → ℕ → ℕ → Result ℕ
uart_read_byte shows uart p = do _ ← uart_at uart; _ ← pointer p; ok (read_byte (shows uart))

unfoldable pub uart_cts : (ℕ → ℕ) → ℕ → ℕ → Result ℕ
uart_cts shows uart p = do
  _ ← uart_at uart
  _ ← pointer p
  ok (Uart.clear_to_send (shows (uart + 0x18)))

unfoldable pub uart_interrupt_tx : (ℕ → ℕ) → ℕ → ℕ → Result (List Store)
uart_interrupt_tx shows uart on = do
  _ ← uart_at uart
  ok (str (uart + 0x14) (interrupt_tx (not (on == 0)) (shows (uart + 0x14))) ∷ [])

unfoldable pub uart_interrupt_status : (ℕ → ℕ) → ℕ → ℕ → Result (ℕ × List Store)
uart_interrupt_status shows uart p = do
  _ ← uart_at uart
  _ ← pointer p
  ok (Uart.interrupt_status (shows (uart + 0x1c)), str (uart + 0x1c) 0 ∷ [])

-- A loop that reads the flags until `busy` fails: reading `n` and those after it. The result is
-- the number of the last reading. Without fuel, it loops for ever.
unfoldable pub wait : ℕ → (ℕ → Bool) → ℕ → Outcome ℕ
wait zero busy n = halt
wait (suc fuel) busy n = let rest = wait fuel busy (suc n) in if busy n then rest else done n

-- TXFF_MASK is 0x20, RXFF_MASK 0x40. `flags n` is the reading `n` of the flag register.
abbrev pub transmit_full : (ℕ → ℕ) → ℕ → Bool
transmit_full flags n = not (bit_and (flags n) 0x20 == 0)

abbrev pub receive_not_full : (ℕ → ℕ) → ℕ → Bool
receive_not_full flags n = bit_and (flags n) 0x40 == 0

unfoldable pub uart_write_byte_block : ℕ → (ℕ → ℕ) → ℕ → ℕ → ℕ → Outcome (Result (List Store × ℕ))
unfolding is_uart
uart_write_byte_block fuel flags n uart byte =
    if is_uart uart
    then Outcome.◌>>=◌ (wait fuel (transmit_full flags) n)
        (λ n'. done (ok (strb uart byte ∷ [], suc n')))
    else done (err device)

-- `data_at n` is what the data register shows then.
unfoldable pub uart_read_byte_block : ℕ → (ℕ → ℕ) → (ℕ → ℕ) → ℕ → ℕ → ℕ → Outcome (Result (ℕ × ℕ))
unfolding is_uart
uart_read_byte_block fuel flags data_at n uart p = elim (uart_at uart >>= λ _. pointer p) [
  | ok _ ↦
      Outcome.◌>>=◌ (wait fuel (receive_not_full flags) n)
        (λ n'. done (ok (read_byte (data_at n'), suc n')))
  | err e ↦ done (err e)
]

unfoldable pub interrupt_enable : (ℕ → ℕ) → ℕ → ℕ → List Store
interrupt_enable shows interrupt bits =
    str (interrupt + 0x10) (Uart.interrupt_enable bits (shows (interrupt + 0x10))) ∷ []

unfoldable pub interrupt_clear : ℕ → ℕ → List Store
interrupt_clear interrupt bits = str (interrupt + 0x14) bits ∷ []

unfoldable pub interrupt_status : (ℕ → ℕ) → ℕ → ℕ
interrupt_status shows interrupt = shows interrupt
