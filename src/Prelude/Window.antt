-- ===== src/Prelude/Window.antt =====
-- The part of an array that a ring buffer fills: `n` cells from `h` on, going round at `size`,
-- in the region of `size` cells that starts at `base`.
use native.Mathlib.Nat.{mod-lt, mod-eq_of_lt, mod-eq-sub-mod, mod-add-mod, add-zero}
use Prim.Native.Nat.{ℕ, zero, suc, ◌+◌, ◌-◌, ◌%◌, ◌≤◌, ◌<◌}
use mathlib.Core.Path.{◌≡◌, refl, ap, ap₂}
use mathlib.Core.Logic.{◌≢◌, ◌⊎◌}
use mathlib.Core.List.{List, [], ◌∷◌, ◌++◌}
use native.Mathlib.Omega.{arith}
use native.Mathlib.Decide.{dec_lt}
use burrit_osprivate.Prelude.Lists.{length, get_or, set, get_or-set_self, get_or-set_ne}

module _ (base size : ℕ) where
  abbrev pub window : List ℕ → ℕ → ℕ → List ℕ
  window buf h zero = []
  window buf h (suc n) = get_or buf (base + h) 0 ∷ window buf ((h + 1) % size) n

  pub length-window : (buf : List ℕ) (h n : ℕ) → length (window buf h n) ≡ n
  length-window buf h zero = refl
  length-window buf h (suc n) = ap suc (length-window buf ((h + 1) % size) n)

  -- The code tests for 0 where `window` matches on `suc`.
  pub window-cons :
      (buf : List ℕ) (h n : ℕ)
      → n ≢ 0
      → window buf h n ≡ get_or buf (base + h) 0 ∷ window buf ((h + 1) % size) (n - 1)
  window-cons buf h zero ne = absurd (ne refl)
  window-cons buf h (suc n) ne = ap (λ k. window buf h (suc k)) (omega arith)

  -- A write outside the region is not seen.
  pub window-set_outside :
      (buf : List ℕ) (i x h n : ℕ)
      → (i < base) ⊎ (base + size ≤ i)
      → h < size
      → window (set buf i x) h n ≡ window buf h n
  window-set_outside buf i x h zero out lt = refl
  window-set_outside buf i x h (suc n) out lt =
      ap₂ ◌∷◌ (get_or-set_ne buf i (base + h) x 0 (omega arith))
        (window-set_outside buf i x ((h + 1) % size) n out (mod-lt (h + 1) (omega arith)))

  -- Fewer than `size` steps do not lead back to the start.
  round-ne : (h k : ℕ) → h < size → suc k < size → (h + suc k) % size ≢ h
  round-ne h k p q = elim (dec_lt (h + suc k) size) [
    | yes lt ↦ omega (arith, mod-eq_of_lt lt)
    | no ge ↦ omega (
      arith,
      mod-eq-sub-mod {n = h + suc k} {m = size} (omega arith),
      mod-eq_of_lt {n = h + suc k - size} {m = size} (omega arith),
    )
  ]

  turn : (h n : ℕ) → (h + suc n) % size ≡ ((h + 1) % size + n) % size
  turn h n = let e : h + suc n ≡ h + 1 + n = omega arith in rw mod-add-mod (ap (λ k. k % size) e)

  window-set_at :
      (buf : List ℕ) (x n h i : ℕ)
      → base + size ≤ length buf
      → h < size
      → n < size
      → i ≡ base + (h + n) % size
      → window (set buf i x) h (suc n) ≡ window buf h n ++ (x ∷ [])
  window-set_at buf x zero h i room p q e =
      let here : i ≡ base + h = omega (arith, mod-eq_of_lt p, ap (λ k. k % size) (add-zero h)) in
      rw (here, get_or-set_self buf (base + h) x 0 (omega arith))
  window-set_at buf x (suc n) h i room p q e =
      let next = (h + 1) % size in
      let moved : (h + suc n) % size ≡ (next + n) % size = turn h n in
      ap₂ ◌∷◌ (get_or-set_ne buf i (base + h) x 0 (omega (arith, round-ne h n p q))) (
        window-set_at buf x n next i room (mod-lt (h + 1) (omega arith)) (omega arith)
          (omega arith))

  -- A write at the end of the window extends it.
  pub window-push :
      (buf : List ℕ) (x h n : ℕ)
      → base + size ≤ length buf
      → h < size
      → n < size
      → window (set buf (base + (h + n) % size) x) h (n + 1) ≡ window buf h n ++ (x ∷ [])
  window-push buf x h n room p q =
      let more : n + 1 ≡ suc n = omega arith in rw more (window-set_at buf x n h _ room p q refl)
