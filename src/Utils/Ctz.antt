-- ===== src/Utils/Ctz.antt =====
-- `__ctz` finds the lowest bit that is set.
use Prim.Native.Nat.{bit_and}
use burrit_osprivate.Prelude.{ℕ, ◌-◌, ◌^◌, ◌<◌, ◌≡◌, refl, ◌∙◌, ◌≢◌, ap, true, arith, ◌==◌, ==_iff}
use burrit_osprivate.Prelude.Word.{neg32}
use burrit_osprivate.Prelude.Bits.{Lowest, isolate, check_below, check_below_sound}
use burrit_osprivate.Utils.{count, ctz}

count_table : check_below (λ k. count (2 ^ k) == k) 32 ≡ true
unfolding check_below count
count_table = refl

count-pow : (k : ℕ) → k < 32 → count (2 ^ k) ≡ k
count-pow k h = (==_iff _ k).0 (check_below_sound _ 32 k count_table h)

neg32-eq : (v : ℕ) → v < 2 ^ 32 → v ≢ 0 → neg32 v ≡ 2 ^ 32 - v
neg32-eq v h ne = omega arith

-- Of a word that is not 0, `__ctz` returns the place of the lowest bit that is set: that bit is 1
-- and every bit below it is 0; the place is below 32.
pub ctz-Lowest : (v : ℕ) → v < 2 ^ 32 → v ≢ 0 → (ctz v < 32) × Lowest v (ctz v)
unfolding ctz
ctz-Lowest v h ne =
    let (k, lt, shared, low) = isolate 32 v h ne in
    let found : ctz v ≡ k = ap count (ap (bit_and v) (neg32-eq v h ne) ∙ shared) ∙ count-pow k lt in
    rw found (lt, low)

pub ctz-zero : ctz 0 ≡ 32
unfolding ctz
ctz-zero = refl
