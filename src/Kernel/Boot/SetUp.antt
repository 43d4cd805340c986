-- ===== src/Kernel/Boot/SetUp.antt =====
-- What kernel/bootstrap.c stores in the registers of the board: `set_up` is `bootstrap` up to the
-- call of kernelDataInit, `clean_up` is `cleanup`. What a register shows is a function of its
-- address; each is read once. The text is "%c[2J" of 27, which clears the screen.
use burrit_osprivate.Prelude.{ℕ, List, [], ◌∷◌, ◌++◌}
use burrit_osprivate.Prelude.Outcome.{Outcome, done, ◌>>=◌, assert_ok}
use burrit_osprivate.Hardware.Device.{
  Store, uart_enable, uart_speed, uart_config, uart_interrupt_status, timer_enable, timer_set_value,
  timer_clear, interrupt_enable, interrupt_clear,
}
use burrit_osprivate.User.Format.{number}
use burrit_osprivate.Kernel.Print.{print_blocking}

abbrev clear_screen : ℕ → (ℕ → ℕ) → Outcome (List Store)
clear_screen fuel flags =
    print_blocking fuel flags 0 (37 ∷ 99 ∷ 91 ∷ 50 ∷ 74 ∷ []) (number 27 ∷ []) >>= λ (s, _, _).
    done s

-- UART 2, the terminal, up to the text.
abbrev set_up_terminal : (ℕ → ℕ) → Outcome (List Store)
set_up_terminal shows = do
  s₁ ← assert_ok (uart_enable shows 0x808d0000 1 0 0 1 0)
  s₂ ← assert_ok (uart_speed 0x808d0000 0x3)
  s₃ ← assert_ok (uart_config shows 0x808d0000 0 0 0)
  done (s₁ ++ s₂ ++ s₃)

-- UART 1, the trains.
abbrev set_up_trains : (ℕ → ℕ) → Outcome (List Store)
set_up_trains shows = do
  s₁ ← assert_ok (uart_enable shows 0x808c0000 1 0 0 1 1)
  s₂ ← assert_ok (uart_speed 0x808c0000 0xbf)
  s₃ ← assert_ok (uart_config shows 0x808c0000 0 1 0)
  done (s₁ ++ s₂ ++ s₃)

-- The timers of 10 ms and 150 ms, and the debug timer.
abbrev set_up_timers : (ℕ → ℕ) → Outcome (List Store)
set_up_timers shows = do
  s₁ ← assert_ok (timer_enable shows 0x80810000 1 1 1)
  s₂ ← assert_ok (timer_set_value 0x80810000 5080)
  s₃ ← assert_ok (timer_clear 0x80810000)
  s₄ ← assert_ok (timer_enable shows 0x80810020 1 1 0)
  s₅ ← assert_ok (timer_set_value 0x80810020 300)
  s₆ ← assert_ok (timer_clear 0x80810020)
  s₇ ← assert_ok (timer_enable shows 0x8081005c 1 0 0)
  done (s₁ ++ s₂ ++ s₃ ++ s₄ ++ s₅ ++ s₆ ++ s₇)

-- `status` is the address of the variable of that name; `fuel` and `flags` are those of
-- `print_blocking`.
unfoldable pub set_up : ℕ → (ℕ → ℕ) → (ℕ → ℕ) → ℕ → Outcome (List Store)
set_up fuel shows flags status = do
  s₁ ← set_up_terminal shows
  s₂ ← clear_screen fuel flags
  s₃ ← set_up_trains shows
  s₄ ← set_up_timers shows
  let s₅ = interrupt_enable shows 0x800b0000 0x06000030
  let s₆ = interrupt_enable shows 0x800c0000 0x00100000
  (_, s₇) ← assert_ok (uart_interrupt_status shows 0x808c0000 status)
  done (s₁ ++ s₂ ++ s₃ ++ s₄ ++ s₅ ++ s₆ ++ s₇)

unfoldable pub clean_up : ℕ → (ℕ → ℕ) → Outcome (List Store)
clean_up fuel flags = do
  s ← clear_screen fuel flags
  done (interrupt_clear 0x800b0000 0xffffffff ++ interrupt_clear 0x800c0000 0xffffffff ++ s)
