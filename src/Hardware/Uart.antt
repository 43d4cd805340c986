-- ===== src/Hardware/Uart.antt =====
-- hardware/ts7200/uart.c: what the functions write into the registers of a UART. The registers are
-- words; a mask is one of hardware/ts7200/ts7200.h. The checks of the device number and of the
-- pointers are in Hardware/Device.
pub mod Enable
mod Tests
use burrit_osprivate.Prelude.Word.{to_u8}
use Prim.Native.Nat.{bit_and, bit_or}
use burrit_osprivate.Prelude.{ℕ, ◌-◌, Bool, ◌==◌, if◌then◌else◌}

-- TIEN_MASK of hardware/ts7200/ts7200.h.
abbrev pub tien_mask : ℕ
tien_mask = 0x20

-- The new value of the control register that reads `value`.
unfoldable pub interrupt_tx : Bool → ℕ → ℕ
interrupt_tx enable value =
    if enable then bit_or value tien_mask else bit_and value (0xffffffff - tien_mask)

-- `flag ? value | mask : value & ~mask`
unfoldable pub with_mask : ℕ → ℕ → ℕ → ℕ
with_mask flag mask value =
    if flag == 0 then bit_and value (0xffffffff - mask) else bit_or value mask

-- The new value of the control register: UARTEN_MASK is 0x1, MSIEN_MASK 0x8, RIEN_MASK 0x10,
-- TIEN_MASK 0x20 and RTIEN_MASK 0x40.
unfoldable pub enable : ℕ → ℕ → ℕ → ℕ → ℕ → ℕ → ℕ
enable on timeout trans rcv modem value =
    with_mask timeout 0x40 (
      with_mask trans tien_mask (with_mask rcv 0x10 (with_mask modem 0x8 (with_mask on 0x1 value))))

-- The new value of the high line control register: FEN_MASK is 0x10, STP2_MASK 0x8, PEN_MASK 0x2
-- and WLEN_MASK 0x60.
unfoldable pub config : ℕ → ℕ → ℕ → ℕ → ℕ
config fifo stp pen value =
    bit_or (with_mask pen 0x2 (with_mask stp 0x8 (with_mask fifo 0x10 value))) 0x60

-- `uartCTS`, `uartInterruptStatus` and `uartReadByte`: what they report of the register that they
-- read. CTS_MASK is 0x1.
unfoldable pub clear_to_send : ℕ → ℕ
clear_to_send flags = bit_and flags 0x1

unfoldable pub interrupt_status : ℕ → ℕ
interrupt_status stat = bit_and stat 0xf

unfoldable pub read_byte : ℕ → ℕ
read_byte register = to_u8 register

-- `uartSpeed`: the words of the middle and the low line control registers.
unfoldable pub speed : ℕ → ℕ × ℕ
speed rate = (0, rate)

-- `interruptEnable` of hardware/ts7200/interrupt.c: the word of an enable register that reads
-- `values`.
unfoldable pub interrupt_enable : ℕ → ℕ → ℕ
interrupt_enable bits values = bit_or values bits
