-- ===== src/Trains/Root/Descend.antt =====
-- Where the rounds of `intSqrt` (trains/trainMath.h) lead.
use native.Mathlib.Nat.{mul-le-mul_right}
use burrit_osprivate.Prelude.{
  ℕ, zero, suc, ◌+◌, ◌*◌, ◌/◌, ◌^◌, ◌≤◌, ◌<◌, ◌≡◌, ◌≢◌, sym, ap, subst, ◌∙◌, arith, dec_le,
  ==-eq_false, ==_iff, ℕ_discrete,
}
use burrit_osprivate.Prelude.Outcome.{done}
use burrit_osprivate.Trains.Root.{next, loop, int_sqrt}
use burrit_osprivate.Trains.Root.Step.{Root, sum-ge, sum-lt, at-root, next-eq}

module _ (s i : ℕ) (r : Root s i) (pos : 1 ≤ s) (fits : i + 1 < 2 ^ 32) where
  -- Above the root a round gets nearer to it.
  nearer : (k : ℕ) → s < k → k ≤ i → (s ≤ next i k) × (next i k < k)
  nearer k lt le =
      let e = next-eq s i k r pos (omega arith) le fits in
      (omega (arith, e, sum-ge s i k r pos (omega arith)), omega (arith, e, sum-lt s i k r pos lt))

  root-le : s ≤ i
  root-le = let square : 1 * s ≤ s * s = mul-le-mul_right s pos in omega (arith, square, r.below)

  loop-root :
      i + 1 ≢ (s + 1) * (s + 1) → (n k : ℕ) → s ≤ k → k ≤ i → k < n + s → loop n i k ≡ done s
  unfolding loop
  loop-root other zero k low high fuel = absurd (omega arith)
  loop-root other (suc n) k low high fuel = elim (ℕ_discrete k s) [
    | yes e ↦
        let (q_low, q_high, square) = at-root s i k r pos in
        let not_two : i / s ≢ s + 2 = λ h. other (square h) in
        let stays : next i s ≡ s =
          next-eq s i s r pos pos root-le fits ∙ omega (arith, q_low, q_high, not_two) in
        subst (λ k. loop (suc n) i k ≡ done s) (sym e)
          (rw (==-eq_false s 0 (omega arith), (==_iff (next i s) s).1 stays) (ap done stays))
    | no ne ↦
        let (next_low, next_high) = nearer k (omega (arith, ne)) high in
        rw (==-eq_false k 0 (omega arith), ==-eq_false (next i k) k (omega (arith, next_high)))
          (loop-root other n (next i k) next_low (omega (arith, next_high))
            (omega (arith, next_high)))
  ]

-- `intSqrt` ends and returns the square root, rounded down, of each number from 1 to 2 ^ 32 - 2
-- that is not one less than a square; as many rounds as the number are enough.
pub int_sqrt-Root :
    (s i : ℕ)
    → 1 ≤ i
    → i + 1 < 2 ^ 32
    → Root s i
    → i + 1 ≢ (s + 1) * (s + 1)
    → int_sqrt i i ≡ done s
unfolding int_sqrt
int_sqrt-Root s i some fits r other =
    let pos : 1 ≤ s = elim (dec_le 1 s) [
      | yes h ↦ h
      | no h ↦
          let one_square : (s + 1) * (s + 1) ≡ 1 =
            ap (λ (t : ℕ). (t + 1) * (t + 1)) {x = s} {y = 0} (omega arith) in
          absurd (omega (arith, one_square, r.above))
    ] in
    loop-root s i r pos fits other i i (root-le s i r pos fits) (omega arith) (omega arith)
