-- ===== src/Kernel/Boot/Ready.antt =====
-- How kernel/bootstrap.c leaves the registers of the board.
use Prim.Native.Nat.{bit_or}
use burrit_osprivate.Prelude.{ℕ, Option, some, none, List, [], ◌∷◌, ◌==◌, if◌then◌else◌}
use burrit_osprivate.Prelude.Bits.{bit}
use burrit_osprivate.Hardware.Device.{Store, str, strb}
use burrit_osprivate.Hardware.Uart
use burrit_osprivate.Hardware.Timer
use burrit_osprivate.Hardware.Timer.{timer_1, timer_2, timer_4}

-- The last word that is stored at an address.
abbrev pub last_store : List Store → ℕ → Option ℕ
last_store [] a = none
last_store (str b v ∷ stores) a = elim (last_store stores a) [
  | some w ↦ some w
  | none ↦ if b == a then some v else none
]
last_store (strb b v ∷ stores) a = last_store stores a

-- What is stored, in order.
abbrev stores : (ℕ → ℕ) → List Store
stores shows =
    str 0x808d0014 (Uart.enable 1 0 0 1 0 (shows 0x808d0014))
    ∷ str 0x808d000c 0
    ∷ str 0x808d0010 0x3
    ∷ str 0x808d0008 (Uart.config 0 0 0 (shows 0x808d0008))
    ∷ strb 0x808d0000 27
    ∷ strb 0x808d0000 91
    ∷ strb 0x808d0000 50
    ∷ strb 0x808d0000 74
    ∷ str 0x808c0014 (Uart.enable 1 0 0 1 1 (shows 0x808c0014))
    ∷ str 0x808c000c 0
    ∷ str 0x808c0010 0xbf
    ∷ str 0x808c0008 (Uart.config 0 1 0 (shows 0x808c0008))
    ∷ str 0x80810008 (Timer.enable timer_1 1 1 1 (shows 0x80810008))
    ∷ str 0x80810000 5080
    ∷ str 0x8081000c 1
    ∷ str 0x80810028 (Timer.enable timer_2 1 1 0 (shows 0x80810028))
    ∷ str 0x80810020 300
    ∷ str 0x8081002c 1
    ∷ str 0x80810064 (Timer.enable timer_4 1 0 0 (shows 0x80810064))
    ∷ str 0x800b0010 (bit_or (shows 0x800b0010) 0x06000030)
    ∷ str 0x800c0010 (bit_or (shows 0x800c0010) 0x00100000)
    ∷ str 0x808c001c 0
    ∷ []

-- The bit `k` of the last word that is stored at an address.
abbrev pub stored_bit : List Store → ℕ → ℕ → Option ℕ
stored_bit s a k = elim (last_store s a) [ some v ↦ some (bit v k) | none ↦ none ]
