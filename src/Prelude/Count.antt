-- ===== src/Prelude/Count.antt =====
-- How often a number stands in a list.
use Prim.Native.Nat.{ℕ, zero, suc, ◌+◌, ◌≤◌}
use mathlib.Core.Path.{◌≡◌, refl}
use mathlib.Core.List.{List, [], ◌∷◌, ◌++◌}
use native.Mathlib.Omega.{arith}
use burrit_osprivate.Prelude.Tests.{◌==◌, ltb, if◌then◌else◌}
use burrit_osprivate.Prelude.Lists.{length}

abbrev pub count : ℕ → List ℕ → ℕ
count a [] = 0
count a (x ∷ xs) = (if x == a then 1 else 0) + count a xs

-- One more at the end counts if it is the number.
pub count-snoc :
    (n last : ℕ) (l : List ℕ)
    → count n (l ++ (last ∷ [])) ≡ count n l + (if last == n then 1 else 0)
count-snoc n last [] = omega arith
count-snoc n last (m ∷ l) = omega (arith, count-snoc n last l)

-- How many elements are below `n`, counted by value.
total : ℕ → List ℕ → ℕ
total zero xs = 0
total (suc n) xs = count n xs + total n xs

total-nil : (n : ℕ) → total n [] ≡ 0
unfolding total
total-nil zero = refl
total-nil (suc n) = omega (arith, total-nil n)

total-cons : (n x : ℕ) (xs : List ℕ) → total n (x ∷ xs) ≡ (if ltb x n then 1 else 0) + total n xs
unfolding total
total-cons zero x xs = ground arith
total-cons (suc n) x xs = ground (arith, total-cons n x xs)

total-le : (n : ℕ) (xs : List ℕ) → ((i : ℕ) → count i xs ≤ 1) → total n xs ≤ n
unfolding total
total-le zero xs once = omega arith
total-le (suc n) xs once = omega (arith, once n, total-le n xs once)

length-total : (n : ℕ) (xs : List ℕ) → ((i : ℕ) → n ≤ i → count i xs ≡ 0) → length xs ≤ total n xs
length-total n [] small = omega arith
length-total n (x ∷ xs) small =
    let rest = length-total n xs (λ i h. omega (arith, small i h)) in
    ground (arith, rest, total-cons n x xs, small x)

-- A list of different numbers below `n`.
pub length-distinct :
    (n : ℕ) (xs : List ℕ)
    → ((i : ℕ) → count i xs ≤ 1)
    → ((i : ℕ) → n ≤ i → count i xs ≡ 0)
    → length xs ≤ n
length-distinct n xs once small = omega (arith, length-total n xs small, total-le n xs once)
