-- ===== src/Prelude/Signed.antt =====
-- The arithmetic of S32 on words: a word from 2 ^ 31 on stands for a negative number.
use Prim.Native.Nat.{ℕ, ◌+◌, ◌/◌, ◌%◌, ◌^◌}
use mathlib.Core.Bool.{Bool}
use burrit_osprivate.Prelude.Tests.{ltb, leb, if◌then◌else◌}
use burrit_osprivate.Prelude.Word.{u32_mod, sub32}

abbrev pub negative : ℕ → Bool
negative w = leb (2 ^ 31) w

abbrev pub magnitude : ℕ → ℕ
magnitude w = if negative w then sub32 0 w else w

-- a < b
abbrev pub less : ℕ → ℕ → Bool
less a b = ltb ((a + 2 ^ 31) % u32_mod) ((b + 2 ^ 31) % u32_mod)

-- a / b, which rounds towards 0, for a `b` other than 0.
abbrev pub quotient : ℕ → ℕ → ℕ
quotient a b =
    let q = magnitude a / magnitude b in
    let opposite = sub32 0 q in
    if negative a then (if negative b then q else opposite) else if negative b then opposite else q
