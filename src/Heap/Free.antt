-- ===== src/Heap/Free.antt =====
-- The list of free cells when cells are filled and freed, and the number of filled ones.
use mathlib.Core.Path.{fun_ext}
use burrit_osprivate.Prelude.{
  ℕ, zero, suc, ◌+◌, ◌≤◌, ◌<◌, ◌≡◌, refl, ap, subst, sym, Bool, true, false, List, [], ◌∷◌, arith,
  if◌then◌else◌, length, Option, none, some, leb,
}
use burrit_osprivate.Heap.{Node, parent}
use burrit_osprivate.Heap.Order.{cell, filled, IsHeap, mark, Chain, Fillable}

pub Fillable-ext :
    (size : ℕ) (f g : ℕ → Bool) (l : List ℕ)
    → ((j : ℕ) → f j ≡ g j)
    → Fillable size f l
    → Fillable size g l
Fillable-ext size f g l same x = subst (λ (k : ℕ → Bool). Fillable size k l) (fun_ext same) x

-- The list does not see a write to a cell that is not on it.
pub Chain-kept :
    (ns ns' : List Node) (size : ℕ) (full : ℕ → Bool) (p : ℕ) (l : List ℕ)
    → length ns' ≡ length ns
    → ((j : ℕ) → full j ≡ false → cell ns' j ≡ cell ns j)
    → Fillable size full l
    → Chain ns p l
    → Chain ns' p l
Chain-kept ns ns' size full p [] e kept f c = c
Chain-kept ns ns' size full p (i ∷ l) e kept (free, ready, f) (at, lt, c) = (
  at,
  omega (arith, e, lt),
  Chain-kept ns ns' size (mark full i) (cell ns' i).next l e (λ j h. kept j (ground (arith, h))) f
      (subst (λ (n : Node). Chain ns n.next l) (sym (kept i free)) c),
)

-- The number of filled cells.
abbrev pub occupied : List Node → ℕ
occupied [] = 0
occupied (n ∷ ns) = (if n.is_filled then 1 else 0) + occupied ns

pub occupied-le : (ns : List Node) → occupied ns ≤ length ns
occupied-le [] = omega arith
occupied-le (n ∷ ns) = ground (arith, occupied-le ns)

pub occupied-full :
    (ns : List Node) → ((j : ℕ) → j < length ns → filled ns j ≡ true) → occupied ns ≡ length ns
occupied-full [] all = refl
occupied-full (n ∷ ns) all =
    ground (arith, all 0, occupied-full ns (λ j lt. all (suc j) (omega (arith, lt))))

pub occupied-lt :
    (ns : List Node) (j : ℕ) → j < length ns → filled ns j ≡ false → occupied ns < length ns
occupied-lt [] j lt f = absurd (omega arith)
occupied-lt (n ∷ ns) zero lt f = ground (arith, occupied-le ns)
occupied-lt (n ∷ ns) (suc j) lt f = ground (arith, occupied-lt ns j (omega (arith, lt)))

pub occupied-none : (ns : List Node) → ((j : ℕ) → filled ns j ≡ false) → occupied ns ≡ 0
occupied-none [] all = refl
occupied-none (n ∷ ns) all = ground (arith, all 0, occupied-none ns (λ j. all (suc j)))

pub occupied-some : (ns : List Node) (j : ℕ) → filled ns j ≡ true → 0 < occupied ns
occupied-some [] j f = cc
occupied-some (n ∷ ns) zero f = ground arith
occupied-some (n ∷ ns) (suc j) f = ground (arith, occupied-some ns j)

-- The lowest cost of a filled cell.
abbrev pub lower : ℕ → Option ℕ → ℕ
lower k none = k
lower k (some j) = if leb k j then k else j

abbrev pub lowest : List Node → Option ℕ
lowest [] = none
lowest (n ∷ ns) = if n.is_filled then some (lower n.cost (lowest ns)) else lowest ns

lower-none :
    (k : ℕ) (ns : List Node)
    → ((j : ℕ) → filled ns j ≡ true → k ≤ (cell ns j).cost)
    → lower k (lowest ns) ≡ k
lower-none k [] low = refl
lower-none k (n ∷ ns) low = ground (arith, low 0, lower-none k ns (λ j f. low (suc j) f))

pub lowest-root :
    (n : Node) (ns : List Node)
    → n.is_filled ≡ true
    → ((j : ℕ) → filled (n ∷ ns) j ≡ true → n.cost ≤ (cell (n ∷ ns) j).cost)
    → lowest (n ∷ ns) ≡ some n.cost
lowest-root n ns f low = rw f (ap some (lower-none n.cost ns (λ j g. low (suc j) g)))

-- No filled cell of a heap costs less than the root, and none is filled if the root is free.
root-below :
    (k : ℕ) (ns : List Node) (j : ℕ)
    → IsHeap ns
    → j < k
    → filled ns j ≡ true
    → (filled ns 0 ≡ true) × ((cell ns 0).cost ≤ (cell ns j).cost)
root-below zero ns j o lt f = absurd (omega arith)
root-below (suc k) ns zero o lt f = (f, omega arith)
root-below (suc k) ns (suc j) o lt f =
    let (full, le) = o (suc j) (omega arith) f in
    let (top, rest) = root-below k ns (parent (suc j)) o (omega arith) full in
    (top, omega (arith, le, rest))

pub root-least :
    (ns : List Node) (j : ℕ)
    → IsHeap ns
    → filled ns j ≡ true
    → (filled ns 0 ≡ true) × ((cell ns 0).cost ≤ (cell ns j).cost)
root-least ns j o f = root-below (suc j) ns j o (omega arith) f
