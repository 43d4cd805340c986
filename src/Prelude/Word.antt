-- ===== src/Prelude/Word.antt =====
-- The machine words of common/types.h: U8, U16 and U32 as numbers, with the wrap of their
-- arithmetic written out.
use Prim.Native.Nat.{ℕ, ◌+◌, ◌-◌, ◌*◌, ◌%◌, ◌^◌}

abbrev pub u8_mod : ℕ
u8_mod = 2 ^ 8

abbrev pub u16_mod : ℕ
u16_mod = 2 ^ 16

abbrev pub u32_mod : ℕ
u32_mod = 2 ^ 32

abbrev pub to_u8 : ℕ → ℕ
to_u8 a = a % u8_mod

abbrev pub to_u16 : ℕ → ℕ
to_u16 a = a % u16_mod

abbrev pub to_u32 : ℕ → ℕ
to_u32 a = a % u32_mod

abbrev pub add32 : ℕ → ℕ → ℕ
add32 a b = (a + b) % u32_mod

abbrev pub sub32 : ℕ → ℕ → ℕ
sub32 a b = (a + u32_mod - b) % u32_mod

abbrev pub mul32 : ℕ → ℕ → ℕ
mul32 a b = (a * b) % u32_mod

-- The pattern of a negative S32, -n.
abbrev pub neg32 : ℕ → ℕ
neg32 n = sub32 0 n
