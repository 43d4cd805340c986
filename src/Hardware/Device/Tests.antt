-- ===== src/Hardware/Device/Tests.antt =====
-- Runs of hardware/ts7200: the checks come in the order of the source, and nothing is stored then.
use burrit_osprivate.Prelude.{◌≡◌, refl, [], ◌∷◌}
use burrit_osprivate.Prelude.Result.{ok, err, device, null, range}
use burrit_osprivate.Hardware.Timer.{TimerState, sample}
use burrit_osprivate.Hardware.Uart.{interrupt_tx}
use burrit_osprivate.Hardware.Uart
use burrit_osprivate.Hardware.Device.{
  str, timer_at, is_uart, is_not_null, is_in_range, timer_clear, timer_get_value, timer_start,
  timer_sample, uart_read_byte, uart_cts, uart_interrupt_tx, uart_interrupt_status, uart_write_byte,
  pointer,
}

abbrev earlier : TimerState
earlier = record { start = 0; last = 3; delta = 0; total = 0 }

no_timer : timer_get_value (λ a. 7) 0x80810001 0 ≡ err device
unfolding timer_get_value timer_at
no_timer = refl

no_pointer : timer_start (λ a. 7) 0x80810000 0 earlier ≡ err null
unfolding timer_start timer_at pointer is_not_null
no_pointer = refl

out_of_range : uart_read_byte (λ a. 7) 0x808c0000 0x01fdd000 ≡ err range
unfolding uart_read_byte is_uart is_not_null is_in_range
out_of_range = refl

sampled :
    timer_sample (λ a. a) 0x8081005c 0x50001 earlier
    ≡ ok (record { start = 0; last = 0x80810060; delta = 0x8081005d; total = 0x8081005d })
unfolding timer_sample timer_at is_not_null is_in_range sample
sampled = refl

never_cleared : timer_clear 0x8081005c ≡ ok []
unfolding timer_clear timer_at
never_cleared = refl

transmit_off : uart_interrupt_tx (λ a. 0x31) 0x808c0000 0 ≡ ok (str 0x808c0014 0x11 ∷ [])
unfolding uart_interrupt_tx is_uart interrupt_tx
transmit_off = refl

status_read : uart_interrupt_status (λ a. 0x15) 0x808c0000 0x60000 ≡ ok (5, str 0x808c001c 0 ∷ [])
unfolding uart_interrupt_status is_uart is_not_null is_in_range Uart.interrupt_status
status_read = refl

no_uart : uart_write_byte 0x808c0001 65 ≡ err device
unfolding uart_write_byte is_uart
no_uart = refl

line_clear : uart_cts (λ a. 0x91) 0x808d0000 0x60000 ≡ ok 1
unfolding uart_cts is_uart is_not_null is_in_range Uart.clear_to_send
line_clear = refl
