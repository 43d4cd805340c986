-- ===== src/Queue/Mask.antt =====
-- Lengths that are powers of two: what the test of `queueU8Init` and its kin accepts, and what the
-- mask `length - 1` does.
use Prim.Native.Nat.{bit_and}
use burrit_osprivate.Prelude.{
  ℕ, zero, suc, ◌+◌, ◌-◌, ◌*◌, ◌/◌, ◌%◌, ◌^◌, ◌≤◌, ◌<◌, ◌≡◌, ap, ◌∙◌, ◌≢◌, ◌↔◌, true, arith,
  ℕ_discrete,
}
use burrit_osprivate.Prelude.Word.{add32, sub32}
use burrit_osprivate.Prelude.Bits.{
  bit_and_step, bit_and-mask, bit_and-zero, pow_suc, pow_pos, pow-lt,
}
use burrit_osprivate.Queue.{is_pow_2}

bit_and_self : (n a : ℕ) → a ≤ n → bit_and a a ≡ a
bit_and_self zero a h = let e : a ≡ 0 = omega arith in rw e (bit_and-zero 0)
bit_and_self (suc n) zero h = bit_and-zero 0
bit_and_self (suc n) (suc a) h =
    omega (arith, bit_and_step (suc a) (suc a), bit_and_self n (suc a / 2) (omega arith))

-- `x & (x - 1)`, by the lowest digit.
and_pred_even : (x : ℕ) → x ≢ 0 → x % 2 ≡ 0 → bit_and x (x - 1) ≡ bit_and (x / 2) (x / 2 - 1) * 2
and_pred_even x ne e =
    let halved : (x - 1) / 2 ≡ x / 2 - 1 = omega arith in
    bit_and_step x (x - 1) ∙ rw (halved, e) (omega arith)

and_pred_odd : (x : ℕ) → x % 2 ≡ 1 → bit_and x (x - 1) ≡ x - 1
and_pred_odd x e =
    let halved : (x - 1) / 2 ≡ x / 2 = omega arith in
    bit_and_step x (x - 1) ∙ rw (halved, bit_and_self (x / 2) (x / 2) (omega arith)) (omega arith)

and_pred-pow : (k : ℕ) → bit_and (2 ^ k) (2 ^ k - 1) ≡ 0
and_pred-pow zero = and_pred_odd 1 (omega arith)
and_pred-pow (suc k) =
    let halved : 2 ^ suc k / 2 ≡ 2 ^ k = omega (arith, pow_suc k) in
    omega (
      arith,
      and_pred_even (2 ^ suc k) (omega (arith, pow_pos (suc k))) (omega (arith, pow_suc k)),
      ap (λ t. bit_and t (t - 1)) halved,
      and_pred-pow k,
    )

and_pred_zero : (n x : ℕ) → x ≤ n → x ≢ 0 → bit_and x (x - 1) ≡ 0 → (k : ℕ) × (x ≡ 2 ^ k)
and_pred_zero zero x h ne z = absurd (ne (omega arith))
and_pred_zero (suc n) x h ne z = elim (ℕ_discrete (x % 2) 0) [
  | yes e ↦
      let (k, half) =
        and_pred_zero n (x / 2) (omega arith) (λ t. ne (omega arith))
          (omega (arith, and_pred_even x ne e)) in
      (suc k, twice k half e)
  | no odd ↦ (0, omega (arith, and_pred_odd x (omega arith)))
]
  where
    twice : (k : ℕ) → x / 2 ≡ 2 ^ k → x % 2 ≡ 0 → x ≡ 2 ^ suc k
    twice k half e = omega (arith, pow_suc k)

module _ (x : ℕ) (h : x < 2 ^ 32) where
  sub32_one : x ≢ 0 → sub32 x 1 ≡ x - 1
  sub32_one ne = omega arith

  is_pow_2_sound : is_pow_2 x ≡ true → (k : ℕ) × (x ≡ 2 ^ k)
  unfolding is_pow_2
  is_pow_2_sound t =
      let ne : x ≢ 0 = ground arith in
      and_pred_zero x x (omega arith) ne (ground (arith, ap (bit_and x) (sub32_one ne)))

  is_pow_2_complete : (k : ℕ) → x ≡ 2 ^ k → is_pow_2 x ≡ true
  unfolding is_pow_2
  is_pow_2_complete k e =
      let ne : x ≢ 0 = omega (arith, pow_pos k) in
      let z : bit_and x (x - 1) ≡ 0 = ap (λ t. bit_and t (t - 1)) e ∙ and_pred-pow k in
      ground (arith, ap (bit_and x) (sub32_one ne))

-- The test of the initialisers holds of a word exactly when it is a power of two.
pub is_pow_2_iff : (x : ℕ) → x < 2 ^ 32 → (is_pow_2 x ≡ true) ↔ ((k : ℕ) × (x ≡ 2 ^ k))
is_pow_2_iff x h = (is_pow_2_sound x h, λ (k, e). is_pow_2_complete x h k e)

-- A step by the mask is a step round the ring.
pub mask_step :
    (k i : ℕ) → k < 32 → i < 2 ^ k → bit_and (add32 i 1) (sub32 (2 ^ k) 1) ≡ (i + 1) % 2 ^ k
mask_step k i h lt =
    let small : 2 ^ k < 2 ^ 32 = pow-lt k 32 h in
    let sum : add32 i 1 ≡ i + 1 = omega arith in
    let mask : sub32 (2 ^ k) 1 ≡ 2 ^ k - 1 = omega (arith, pow_pos k) in
    rw (sum, mask) (bit_and-mask k (i + 1))
