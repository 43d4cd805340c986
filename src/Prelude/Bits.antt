-- ===== src/Prelude/Bits.antt =====
-- Laws of the bit operations at variables, digit by digit, for every width.
use Prim.Native.Nat.{
  ℕ, zero, suc, ◌+◌, ◌-◌, ◌*◌, ◌/◌, ◌%◌, ◌^◌, ◌≤◌, ◌<◌, min, max, digits, bitwise, bit_and, bit_or,
  bit_xor, bit_and-bitwise, bit_or-bitwise, bit_xor-bitwise, differ,
}
use mathlib.Core.Path.{◌≡◌, refl, ap, ◌∙◌}
use mathlib.Core.Logic.{◌≢◌}
use mathlib.Core.Bool.{Bool, true, ◌&&◌}
use native.Mathlib.Omega.{arith}
use native.Mathlib.Decide.{ℕ_discrete}
use native.Mathlib.Nat.{pow-suc, mod-lt, mod-eq_of_lt, div-add-mod, mul-add-mod_self_right}
use burrit_osprivate.Prelude.Tests.{◌==◌, if◌then◌else◌}

-- The count of digits to go does not matter once it is large enough.
module _ (z : ℕ → ℕ) (f : ℕ → ℕ → ℕ) where
  digits-count : (n m a b : ℕ) → a ≤ n → a ≤ m → digits z f n a b ≡ digits z f m a b
  digits-count zero zero a b p q = refl
  digits-count zero (suc m) zero b p q = refl
  digits-count zero (suc m) (suc a) b p q = absurd (omega arith)
  digits-count (suc n) zero zero b p q = refl
  digits-count (suc n) zero (suc a) b p q = absurd (omega arith)
  digits-count (suc n) (suc m) zero b p q = refl
  digits-count (suc n) (suc m) (suc a) b p q =
      omega (arith, digits-count n m (suc a / 2) (b / 2) (omega arith) (omega arith))

  -- One digit, where `z` does at every digit what `f` does at a digit 0.
  bitwise_step :
      ((b : ℕ) → z b ≡ z (b / 2) * 2 + f 0 (b % 2))
      → (a b : ℕ) → bitwise z f a b ≡ bitwise z f (a / 2) (b / 2) * 2 + f (a % 2) (b % 2)
  bitwise_step h zero b = h b
  bitwise_step h (suc a) b =
      omega (arith, digits-count a (suc a / 2) (suc a / 2) (b / 2) (omega arith) (omega arith))

pub bit_and_step : (a b : ℕ) → bit_and a b ≡ bit_and (a / 2) (b / 2) * 2 + min (a % 2) (b % 2)
bit_and_step a b = omega (
  arith,
  bit_and-bitwise a b,
  bit_and-bitwise (a / 2) (b / 2),
  bitwise_step (λ b. 0) min (λ b. omega arith) a b,
)

pub bit_or_step : (a b : ℕ) → bit_or a b ≡ bit_or (a / 2) (b / 2) * 2 + max (a % 2) (b % 2)
bit_or_step a b = omega (
  arith,
  bit_or-bitwise a b,
  bit_or-bitwise (a / 2) (b / 2),
  bitwise_step (λ b. b) max (λ b. omega arith) a b,
)

pub bit_xor_step : (a b : ℕ) → bit_xor a b ≡ bit_xor (a / 2) (b / 2) * 2 + differ (a % 2) (b % 2)
bit_xor_step a b = omega (
  arith,
  bit_xor-bitwise a b,
  bit_xor-bitwise (a / 2) (b / 2),
  bitwise_step (λ b. b) differ (λ b. omega arith) a b,
)

pub pow_suc : (k : ℕ) → 2 ^ suc k ≡ 2 * 2 ^ k
pow_suc k = grind (arith, pow-suc)

pub pow_pos : (k : ℕ) → 0 < 2 ^ k
pow_pos zero = omega arith
pow_pos (suc k) = omega (arith, pow_suc k, pow_pos k)

-- The digit of `a` at place `k`.
unfoldable pub bit : ℕ → ℕ → ℕ
bit a zero = a % 2
bit a (suc k) = bit (a / 2) k

pub bit-le : (a k : ℕ) → bit a k ≤ 1
unfolding bit
bit-le a zero = omega arith
bit-le a (suc k) = bit-le (a / 2) k

pub zero-bit : (k : ℕ) → bit 0 k ≡ 0
unfolding bit
zero-bit zero = refl
zero-bit (suc k) = zero-bit k

pub bit-pow : (p k : ℕ) → bit (2 ^ p) k ≡ (if p == k then 1 else 0)
unfolding bit
bit-pow zero zero = refl
bit-pow zero (suc k) = ground (arith, zero-bit k)
bit-pow (suc p) zero = ground (arith, pow_suc p)
bit-pow (suc p) (suc k) =
    let halved : 2 ^ suc p / 2 ≡ 2 ^ p = omega (arith, pow_suc p) in
    rw halved (ground (arith, bit-pow p k))

bit_or-halves :
    (a b : ℕ) → (bit_or a b / 2 ≡ bit_or (a / 2) (b / 2)) × (bit_or a b % 2 ≡ max (a % 2) (b % 2))
bit_or-halves a b = omega (arith, bit_or_step a b)

bit_and-halves :
    (a b : ℕ)
    → (bit_and a b / 2 ≡ bit_and (a / 2) (b / 2)) × (bit_and a b % 2 ≡ min (a % 2) (b % 2))
bit_and-halves a b = omega (arith, bit_and_step a b)

differ_digits : (a b : ℕ) → a ≤ 1 → b ≤ 1 → differ a b ≡ (a + b) % 2
differ_digits zero b p q = omega arith
differ_digits (suc zero) zero p q = refl
differ_digits (suc zero) (suc zero) p q = refl
differ_digits (suc zero) (suc (suc b)) p q = absurd (omega arith)
differ_digits (suc (suc a)) b p q = absurd (omega arith)

bit_xor-halves :
    (a b : ℕ)
    → (bit_xor a b / 2 ≡ bit_xor (a / 2) (b / 2)) × (bit_xor a b % 2 ≡ (a % 2 + b % 2) % 2)
bit_xor-halves a b =
    omega (arith, bit_xor_step a b, differ_digits (a % 2) (b % 2) (omega arith) (omega arith))

pub bit-bit_or : (a b k : ℕ) → bit (bit_or a b) k ≡ max (bit a k) (bit b k)
unfolding bit
bit-bit_or a b zero = (bit_or-halves a b).1
bit-bit_or a b (suc k) = rw (bit_or-halves a b).0 (bit-bit_or (a / 2) (b / 2) k)

pub bit-bit_and : (a b k : ℕ) → bit (bit_and a b) k ≡ min (bit a k) (bit b k)
unfolding bit
bit-bit_and a b zero = (bit_and-halves a b).1
bit-bit_and a b (suc k) = rw (bit_and-halves a b).0 (bit-bit_and (a / 2) (b / 2) k)

pub bit-bit_xor : (a b k : ℕ) → bit (bit_xor a b) k ≡ (bit a k + bit b k) % 2
unfolding bit
bit-bit_xor a b zero = (bit_xor-halves a b).1
bit-bit_xor a b (suc k) = rw (bit_xor-halves a b).0 (bit-bit_xor (a / 2) (b / 2) k)

masked_nothing : (bound w : ℕ) → w < bound → bit_and w 0 ≡ 0
masked_nothing zero w h = absurd (omega arith)
masked_nothing (suc bound) w h = elim (ℕ_discrete w 0) [
  | yes e ↦ ap (λ v. bit_and v 0) e ∙ bit_and-bitwise 0 0
  | no ne ↦ omega (arith, bit_and_step w 0, masked_nothing bound (w / 2) (omega arith))
]

pub bit_and-zero : (w : ℕ) → bit_and w 0 ≡ 0
bit_and-zero w = masked_nothing (w + 1) w (omega arith)

-- A mask of one bit shows that bit.
pub bit_and-pow : (p a : ℕ) → bit_and a (2 ^ p) ≡ bit a p * 2 ^ p
unfolding bit
bit_and-pow zero a = omega (arith, bit_and_step a 1, bit_and-zero (a / 2))
bit_and-pow (suc p) a =
    let halved : 2 ^ suc p / 2 ≡ 2 ^ p = omega (arith, pow_suc p) in
    let low : 2 ^ suc p % 2 ≡ 0 = omega (arith, pow_suc p) in
    bit_and_step a (2 ^ suc p) ∙ rw (halved, low, bit_and-pow p (a / 2), pow_suc p) (grind arith)

digit-mod : (m a : ℕ) → 0 < m → a / 2 % m * 2 + min (a % 2) 1 ≡ a % (2 * m)
digit-mod m a h =
    let r = a / 2 % m * 2 + a % 2 in
    let split : a ≡ a / 2 / m * (2 * m) + r = grind (arith, div-add-mod (a / 2) m) in
    let small : r < 2 * m = omega (arith, mod-lt (a / 2) h) in
    let fits : r % (2 * m) ≡ r = mod-eq_of_lt small in
    omega
      (arith, ap (λ (t : ℕ). t % (2 * m)) split, mul-add-mod_self_right (a / 2 / m) (2 * m) r, fits)

-- A mask of the low bits is a remainder.
pub bit_and-mask : (k a : ℕ) → bit_and a (2 ^ k - 1) ≡ a % 2 ^ k
bit_and-mask zero a = omega (arith, bit_and-zero a)
bit_and-mask (suc k) a =
    let halved : (2 ^ suc k - 1) / 2 ≡ 2 ^ k - 1 = omega (arith, pow_suc k, pow_pos k) in
    let low : (2 ^ suc k - 1) % 2 ≡ 1 = omega (arith, pow_suc k, pow_pos k) in
    bit_and_step a (2 ^ suc k - 1)
    ∙ rw (halved, low, bit_and-mask k (a / 2), pow_suc k) (digit-mod (2 ^ k) a (pow_pos k))

-- A number and its complement share no digit.
complement : (n w : ℕ) → w < 2 ^ n → bit_and w (2 ^ n - 1 - w) ≡ 0
complement zero w h = let e : w ≡ 0 = omega arith in rw e (bit_and-bitwise 0 (2 ^ 0 - 1 - 0))
complement (suc n) w h =
    let halved : (2 ^ suc n - 1 - w) / 2 ≡ 2 ^ n - 1 - w / 2 = omega (arith, pow_suc n) in
    let low : min (w % 2) ((2 ^ suc n - 1 - w) % 2) ≡ 0 = omega (arith, pow_suc n) in
    bit_and_step w (2 ^ suc n - 1 - w)
    ∙ rw (halved, low, complement n (w / 2) (omega (arith, pow_suc n)))

-- `k` is the place of the lowest digit 1 of `v`.
pub record Lowest (v k : ℕ) : Type 0 where
  pub isset : bit v k ≡ 1
  pub below : (j : ℕ) → j < k → bit v j ≡ 0

Lowest-double : (v k : ℕ) → v % 2 ≡ 0 → Lowest (v / 2) k → Lowest v (suc k)
unfolding bit
Lowest-double v k e l = record { isset = l.isset; below = go }
  where
    go : (j : ℕ) → j < suc k → bit v j ≡ 0
    go zero h = e
    go (suc j) h = l.below j (omega arith)

isolate_even :
    (n v k : ℕ)
    → v < 2 ^ suc n
    → v % 2 ≡ 0
    → bit_and (v / 2) (2 ^ n - v / 2) ≡ 2 ^ k
    → bit_and v (2 ^ suc n - v) ≡ 2 ^ suc k
isolate_even n v k h e shared =
    let halved : (2 ^ suc n - v) / 2 ≡ 2 ^ n - v / 2 = omega (arith, pow_suc n) in
    bit_and_step v (2 ^ suc n - v) ∙ rw (halved, e, shared) (omega (arith, pow_suc k))

isolate_odd : (n v : ℕ) → v < 2 ^ suc n → v % 2 ≡ 1 → bit_and v (2 ^ suc n - v) ≡ 1
isolate_odd n v h e =
    let halved : (2 ^ suc n - v) / 2 ≡ 2 ^ n - 1 - v / 2 = omega (arith, pow_suc n) in
    let low : min (v % 2) ((2 ^ suc n - v) % 2) ≡ 1 = omega (arith, pow_suc n) in
    bit_and_step v (2 ^ suc n - v)
    ∙ rw (halved, low, complement n (v / 2) (omega (arith, pow_suc n)))

-- The lowest digit 1 is what a number and its negation share.
pub isolate :
    (n v : ℕ) → v < 2 ^ n → v ≢ 0 → (k : ℕ) × (k < n) × (bit_and v (2 ^ n - v) ≡ 2 ^ k) × Lowest v k
unfolding bit
isolate zero v h ne = absurd (ne (omega arith))
isolate (suc n) v h ne = elim (ℕ_discrete (v % 2) 0) [
  | yes e ↦
      let (k, lt, shared, low) =
        isolate n (v / 2) (omega (arith, pow_suc n)) (λ z. ne (omega arith)) in
      (suc k, omega arith, isolate_even n v k h e shared, Lowest-double v k e low)
  | no odd ↦ (
    0,
    omega arith,
    isolate_odd n v h (omega arith),
    record { isset = omega arith; below = λ j lt. absurd (omega arith) },
  )
]

-- A number with no digit is 0.
pub bits_none : (n v : ℕ) → v < 2 ^ n → ((k : ℕ) → k < n → bit v k ≡ 0) → v ≡ 0
unfolding bit
bits_none zero v h none = omega arith
bits_none (suc n) v h none = omega (
  arith,
  none 0 (omega arith),
  bits_none n (v / 2) (omega (arith, pow_suc n)) (λ k lt. none (suc k) (omega arith)),
)

pub bit_or-lt : (n a b : ℕ) → a < 2 ^ n → b < 2 ^ n → bit_or a b < 2 ^ n
bit_or-lt zero a b p q =
    let az : a ≡ 0 = omega arith in let bz : b ≡ 0 = omega arith in rw (az, bz) (omega arith)
bit_or-lt (suc n) a b p q = omega (
  arith,
  bit_or_step a b,
  pow_suc n,
  bit_or-lt n (a / 2) (b / 2) (omega (arith, pow_suc n)) (omega (arith, pow_suc n)),
)

pub bit_xor-lt : (n a b : ℕ) → a < 2 ^ n → b < 2 ^ n → bit_xor a b < 2 ^ n
bit_xor-lt zero a b p q =
    let az : a ≡ 0 = omega arith in let bz : b ≡ 0 = omega arith in rw (az, bz) (omega arith)
bit_xor-lt (suc n) a b p q = omega (
  arith,
  bit_xor-halves a b,
  pow_suc n,
  bit_xor-lt n (a / 2) (b / 2) (omega (arith, pow_suc n)) (omega (arith, pow_suc n)),
)

pub pow-lt : (p n : ℕ) → p < n → 2 ^ p < 2 ^ n
pow-lt zero zero h = absurd (omega arith)
pow-lt zero (suc n) h = omega (arith, pow_suc n, pow_pos n)
pow-lt (suc p) zero h = absurd (omega arith)
pow-lt (suc p) (suc n) h = omega (arith, pow_suc p, pow_suc n, pow-lt p n (omega arith))

pub pow-lt_inv : (p n : ℕ) → 2 ^ p < 2 ^ n → p < n
pow-lt_inv p zero h = absurd (omega (arith, pow_pos p))
pow-lt_inv zero (suc n) h = omega arith
pow-lt_inv (suc p) (suc n) h = omega (arith, pow-lt_inv p n (omega (arith, pow_suc p, pow_suc n)))

pub pow-le : (p n : ℕ) → p ≤ n → 2 ^ p ≤ 2 ^ n
pow-le zero n h = omega (arith, pow_pos n)
pow-le (suc p) zero h = absurd (omega arith)
pow-le (suc p) (suc n) h = omega (arith, pow_suc p, pow_suc n, pow-le p n (omega arith))

pub bit_high : (n v k : ℕ) → v < 2 ^ n → n ≤ k → bit v k ≡ 0
unfolding bit
bit_high zero v k h le = let e : v ≡ 0 = omega arith in rw e (zero-bit k)
bit_high (suc n) v zero h le = absurd (omega arith)
bit_high (suc n) v (suc k) h le = bit_high n (v / 2) k (omega (arith, pow_suc n)) (omega arith)

-- Over a small range, check every value by evaluation.
unfoldable pub check_below : (ℕ → Bool) → ℕ → Bool
check_below f zero = true
check_below f (suc n) = check_below f n && f n

pub check_below_sound : (f : ℕ → Bool) (n k : ℕ) → check_below f n ≡ true → k < n → f k ≡ true
unfolding check_below
check_below_sound f zero k h lt = elim lt [ ]
check_below_sound f (suc n) k h lt = elim (ℕ_discrete k n) [
  | yes e ↦ ground (arith, ap f e)
  | no ne ↦ ground (arith, check_below_sound f n k)
]
