-- ===== src/Hardware/Uart/Enable.antt =====
-- What `uartInterruptTX` does to each bit of the control register.
use burrit_osprivate.Prelude.{
  ℕ, ◌-◌, ◌^◌, ◌<◌, ◌≡◌, refl, Bool, true, false, arith, ◌==◌, ==_iff, if◌then◌else◌,
}
use burrit_osprivate.Prelude.Bits.{
  bit, bit-le, bit-bit_or, bit-bit_and, bit-pow, check_below, check_below_sound,
}
use burrit_osprivate.Hardware.Uart.{interrupt_tx, with_mask, enable}

mask_table : check_below (λ k. bit (0xffffffff - 0x20) k == (if k == 5 then 0 else 1)) 32 ≡ true
unfolding check_below bit
mask_table = refl

mask : (k : ℕ) → k < 32 → bit (0xffffffff - 0x20) k ≡ (if k == 5 then 0 else 1)
mask k h = (==_iff _ _).0 (check_below_sound _ 32 k mask_table h)

-- Bit 5 is set or cleared, and every other bit of the word stays.
pub bit-interrupt_tx :
    (enable : Bool) (value k : ℕ)
    → k < 32
    → bit (interrupt_tx enable value) k
      ≡ (if k == 5 then (if enable then 1 else 0) else bit value k)
unfolding interrupt_tx
bit-interrupt_tx true value k h =
    ground (arith, bit-bit_or value 0x20 k, bit-pow 5 k, bit-le value k)
bit-interrupt_tx false value k h =
    ground (arith, bit-bit_and value (0xffffffff - 0x20) k, mask k h, bit-le value k)

-- The masks of the functions below are single bits.
masks : ℕ → Bool
masks m = check_below (λ k. bit (0xffffffff - 2 ^ m) k == (if k == m then 0 else 1)) 32

mask_tables : check_below masks 32 ≡ true
unfolding masks check_below bit
mask_tables = refl

pub bit-with_mask :
    (flag m value k : ℕ)
    → m < 32
    → k < 32
    → bit (with_mask flag (2 ^ m) value) k
      ≡ (if k == m then (if flag == 0 then 0 else 1) else bit value k)
unfolding with_mask masks
bit-with_mask flag m value k h h' =
    let table = check_below_sound masks 32 m mask_tables h in
    let row : bit (0xffffffff - 2 ^ m) k ≡ (if k == m then 0 else 1) =
      (==_iff _ _).0 (check_below_sound _ 32 k table h') in
    ground (
      arith,
      bit-bit_and value (0xffffffff - 2 ^ m) k,
      bit-bit_or value (2 ^ m) k,
      row,
      bit-pow m k,
      bit-le value k,
    )

-- `uartEnable` sets or clears bits 0, 3, 4, 5 and 6 of the control register as its arguments say,
-- and leaves every other bit of the word.
pub bit-enable :
    (on timeout trans rcv modem value k : ℕ)
    → k < 32
    → bit (enable on timeout trans rcv modem value) k ≡ (
        if k == 0
        then (if on == 0 then 0 else 1)
        else if k == 3
        then (if modem == 0 then 0 else 1)
        else if k == 4
        then (if rcv == 0 then 0 else 1)
        else if k == 5
        then (if trans == 0 then 0 else 1)
        else if k == 6
        then (if timeout == 0 then 0 else 1)
        else bit value k)
unfolding enable
bit-enable on timeout trans rcv modem value k h =
    let v₁ = with_mask on 0x1 value in
    let v₂ = with_mask modem 0x8 v₁ in
    let v₃ = with_mask rcv 0x10 v₂ in
    let v₄ = with_mask trans 0x20 v₃ in
    ground (
      arith,
      bit-with_mask timeout 6 v₄ k (omega arith) h,
      bit-with_mask trans 5 v₃ k (omega arith) h,
      bit-with_mask rcv 4 v₂ k (omega arith) h,
      bit-with_mask modem 3 v₁ k (omega arith) h,
      bit-with_mask on 0 value k (omega arith) h,
    )
