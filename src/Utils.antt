-- ===== src/Utils.antt =====
-- common/utils.h: `min`, and `__ctz`, which counts the zero bits below the lowest bit that is set.
-- common/random.c: `nextRandU32`.
pub mod Ctz
mod Tests
use Prim.Native.Nat.{bit_and}
use burrit_osprivate.Prelude.{ℕ, ◌%◌, ◌==◌, leb, if◌then◌else◌}
use burrit_osprivate.Prelude.Word.{add32, sub32, mul32, neg32}

-- One line of `__ctz`: `if (v & mask) c -= n`.
clear : ℕ → ℕ → ℕ → ℕ → ℕ
clear v mask n c = if bit_and v mask == 0 then c else sub32 c n

count : ℕ → ℕ
unfolding clear
count v =
    let c = if v == 0 then 32 else sub32 32 1 in
    let c = clear v 0x0000ffff 16 c in
    let c = clear v 0x00ff00ff 8 c in
    let c = clear v 0x0f0f0f0f 4 c in let c = clear v 0x33333333 2 c in clear v 0x55555555 1 c

-- `v &= -((S32)(v))` comes first.
unfoldable pub ctz : ℕ → ℕ
unfolding count
ctz v = count (bit_and v (neg32 v))

-- The `min` of two U32 values.
unfoldable pub minimum : ℕ → ℕ → ℕ
minimum a b = if leb a b then a else b

-- `nextRandU32` of common/random.c; the result is also the next state.
unfoldable pub next_rand_u32 : ℕ → ℕ
next_rand_u32 value = add32 (mul32 1103515245 value) 12345 % 0x80000000
