-- ===== src/Hardware/Uart/Tests.antt =====
-- Runs of hardware/ts7200/uart.c, and instances of the theorems.
use burrit_osprivate.Prelude.{◌≡◌, refl}
use burrit_osprivate.Hardware.Uart.{enable, config, with_mask}

-- The settings that `bootstrap` makes for the train's UART.
train_control : enable 1 0 0 1 1 0x60 ≡ 0x19
unfolding enable with_mask
train_control = refl

train_line : config 0 1 0 0x12 ≡ 0x68
unfolding config with_mask
train_line = refl
