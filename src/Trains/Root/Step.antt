-- ===== src/Trains/Root/Step.antt =====
-- A round of `intSqrt` (trains/trainMath.h) against the square root.
use native.Mathlib.Nat.{div-mul-le_self, lt-div-mul-add, mul-le-mul, mul-le-mul_right}
use burrit_osprivate.Prelude.{
  ℕ, ◌+◌, ◌-◌, ◌*◌, ◌/◌, ◌^◌, ◌≤◌, ◌<◌, ◌≡◌, sym, ap, subst, ◌∙◌, arith, dec_le, dec_lt,
}
use burrit_osprivate.Trains.Root.{next}

-- `s` is the square root of `i`, rounded down.
pub record Root (s i : ℕ) : Type 0 where
  pub below : s * s ≤ i
  pub above : i < (s + 1) * (s + 1)

-- Two factors with a sum below 2 * s are too small.
mean : (s k q i d e : ℕ) → s ≡ q + 1 + d + e → k ≡ q + 1 + d + e + d → s * s ≤ i → i < q * k + k → ⊥
mean s k q i d e hs hk low high = omega (arith, ap (λ (t : ℕ). t * t) hs, ap (λ (t : ℕ). q * t) hk)

module _ (s i k : ℕ) (r : Root s i) (pos : 1 ≤ s) where
  divided : 0 < k → (i / k * k ≤ i) × (i < i / k * k + k)
  divided h = (div-mul-le_self i k, lt-div-mul-add h)

  pub divided-root : (i / s * s ≤ i) × (i < i / s * s + s)
  divided-root = (div-mul-le_self i s, lt-div-mul-add pos)

  -- From the root up, the mean of `k` and `i / k` is not below it.
  pub sum-ge : s ≤ k → 2 * s ≤ k + i / k
  sum-ge le = elim (dec_le (2 * s) (k + i / k)) [
    | yes h ↦ h
    | no h ↦
        let (low, high) = divided (omega arith) in
        absurd (
          mean s k (i / k) i (k - s) (s - (i / k + 1 + (k - s))) (omega arith) (omega arith) r.below
            high)
  ]

  -- Above the root it is below `k`.
  pub sum-lt : s < k → k + i / k < 2 * k
  sum-lt lt = elim (dec_lt (i / k) k) [
    | yes h ↦ omega arith
    | no h ↦
        let (low, high) = divided (omega arith) in
        let square : k * k ≤ i / k * k = mul-le-mul_right k (omega arith) in
        let bigger : (s + 1) * (s + 1) ≤ k * k = mul-le-mul (omega arith) (omega arith) in
        absurd (omega (arith, r.above, low, square, bigger))
  ]

  -- At the root `i / k` is the root, or one or two more, and two only below a square.
  pub at-root : (s ≤ i / s) × (i / s ≤ s + 2) × (i / s ≡ s + 2 → i + 1 ≡ (s + 1) * (s + 1))
  at-root =
      let (low, high) = divided-root in
      let not_less : s ≤ i / s = elim (dec_le s (i / s)) [
        | yes h ↦ h
        | no h ↦
            let small : (i / s + 1) * s ≤ s * s = mul-le-mul_right s (omega arith) in
            absurd (omega (arith, small, r.below, high))
      ] in
      let not_more : i / s ≤ s + 2 = elim (dec_le (i / s) (s + 2)) [
        | yes h ↦ h
        | no h ↦
            let big : (s + 3) * s ≤ i / s * s = mul-le-mul_right s (omega arith) in
            absurd (omega (arith, big, r.above, low))
      ] in
      (
        not_less,
        not_more,
        λ e.
            let at_two : (s + 2) * s ≡ i / s * s = ap (λ (q : ℕ). q * s) (sym e) in
            omega (arith, at_two, low, r.above),
      )

  product : (a b : ℕ) → 1 + a + (1 + b) ≤ (1 + b) * (1 + a) + 1
  product a b = omega arith

  -- Nothing overflows.
  pub next-eq : 1 ≤ k → k ≤ i → i + 1 < 2 ^ 32 → next i k ≡ (k + i / k) / 2
  next-eq some le fits =
      let (low, high) = divided some in
      let one : 1 ≤ i / k = elim (dec_le 1 (i / k)) [
        | yes h ↦ h
        | no h ↦
            let none : i / k * k ≡ 0 * k =
              ap (λ (q : ℕ). q * k) {x = i / k} {y = 0} (omega arith) in
            absurd (omega (arith, none, high))
      ] in
      let sum = product (k - 1) (i / k - 1) in
      let same : (1 + (i / k - 1)) * (1 + (k - 1)) ≡ i / k * k =
        ap (λ (q : ℕ). q * (1 + (k - 1))) {x = 1 + (i / k - 1)} {y = i / k} (omega arith)
        ∙ ap (λ (c : ℕ). i / k * c) {x = 1 + (k - 1)} {y = k} (omega arith) in
      omega (arith, subst (λ (m : ℕ). 1 + (k - 1) + (1 + (i / k - 1)) ≤ m + 1) same sum, low)
