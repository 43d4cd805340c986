-- ===== src/Hardware/Timer.antt =====
-- hardware/ts7200/timer.c and common/timerState.h: intervals between two readings of a timer.
-- Timers 1 to 3 count down and the debug timer 4 counts up. The checks of the device number and
-- of the pointers are in Hardware/Device.
mod Interval
mod Tests
use Prim.Native.Nat.{bit_and, bit_or}
use burrit_osprivate.Hardware.Uart.{with_mask}
use burrit_osprivate.Prelude.{ℕ, ◌-◌, ◌==◌, ltb, if◌then◌else◌}
use burrit_osprivate.Prelude.Word.{add32, sub32}

pub data Timer : Type 0 where
  timer_1 timer_2 timer_3 timer_4 : Timer

pub record TimerState : Type 0 where
  pub start : ℕ
  pub last : ℕ
  pub delta : ℕ
  pub total : ℕ

-- `timerStart`, where the timer's register reads `value`.
unfoldable pub start : ℕ → TimerState → TimerState
start value s = record s { start = value; last = value; total = 0 }

-- The interval that `timerSample` computes.
unfoldable pub interval : Timer → ℕ → ℕ → ℕ
interval timer_4 value last =
    if ltb value last then add32 value (sub32 0xffffffff last) else sub32 value last
interval timer_3 value last =
    if ltb last value then add32 last (sub32 0xffffffff value) else sub32 last value
interval _ value last =
    if ltb last value then add32 last (sub32 0x0000ffff value) else sub32 last value

-- `timerSample`, where the timer's register reads `value`.
unfoldable pub sample : Timer → ℕ → TimerState → TimerState
unfolding interval
sample t value s =
    let delta = interval t value s.last in
    record s { last = value; delta = delta; total = add32 s.total delta }

-- `timerEnable`: the new value of the control register that reads `value`. ENABLE_MASK is 0x80,
-- DEBUG_MASK 0x100, MODE_MASK 0x40 and CLKSEL_MASK 0x8. For timer 4 the source writes
-- `enable | DEBUG_MASK`, with the argument and not the register.
unfoldable pub enable : Timer → ℕ → ℕ → ℕ → ℕ → ℕ
enable timer_4 on mode clk value =
    if on == 0 then bit_and value (0xffffffff - 0x100) else bit_or on 0x100
enable _ on mode clk value = with_mask clk 0x8 (with_mask mode 0x40 (with_mask on 0x80 value))
