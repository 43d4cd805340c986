-- ===== src/PriorityQueue/Refine.antt =====
-- A valid priority queue behaves as the lists of the elements that wait at each priority.
use Prim.Native.Nat.{bit_and}
use mathlib.Core.Path.{fun_ext}
use burrit_osprivate.Prelude.{
  ℕ, zero, suc, ◌+◌, ◌^◌, ◌≤◌, ◌<◌, ◌≡◌, sym, ap, ◌∙◌, ◌≢◌, List, [], ◌∷◌, ◌++◌, arith, length,
  ◌==◌, true, ℕ_discrete, dec_lt,
}
use burrit_osprivate.Prelude.Bits.{bit, bit-le, zero-bit, bit_and-pow, bit_high, pow_pos}
use burrit_osprivate.Prelude.Result.{ok, err, empty, map_ok}
use burrit_osprivate.Utils.{ctz}
use burrit_osprivate.Utils.Ctz.{ctz-Lowest, ctz-zero}
use burrit_osprivate.PriorityQueue.{
  PriorityQueue, head_of, tail_of, refuses, append, take_at, push, pop,
}
use burrit_osprivate.PriorityQueue.Levels
use burrit_osprivate.PriorityQueue.Levels.{Levels, update, first, Op, Reply}
use burrit_osprivate.PriorityQueue.Inv.{IsValid, fill, size, view, length-view, fill-le, fill-pos}
use burrit_osprivate.PriorityQueue.Append.{view-append, append-IsValid}
use burrit_osprivate.PriorityQueue.Take.{view-take, view-take_other}

pub first_found :
    (n p k : ℕ) (l : Levels)
    → p ≤ k
    → k < p + n
    → ((j : ℕ) → j < k → l j ≡ [])
    → l k ≢ []
    → first n p l ≡ k
unfolding first
first_found zero p k l a b bare held = absurd (omega arith)
first_found (suc n) p k l a b bare held = elim (ℕ_discrete p k) [
  | yes e ↦ ground (arith, ap l e)
  | no ne ↦
      ground (
        arith,
        bare p (omega arith),
        first_found n (p + 1) k l (omega arith) (omega arith) bare held,
      )
]

first_none : (n p : ℕ) (l : Levels) → ((j : ℕ) → l j ≡ []) → first n p l ≡ p + n
unfolding first
first_none zero p l bare = omega arith
first_none (suc n) p l bare = ground (arith, bare p, first_none n (p + 1) l bare)

pub view-empty : (q : PriorityQueue) (r : ℕ) → bit q.priority_bits r ≡ 0 → view q r ≡ []
unfolding fill
view-empty q r e = rw e

masked :
    (b p : ℕ) → (bit b p ≡ 0 → bit_and b (2 ^ p) ≡ 0) × (bit b p ≡ 1 → bit_and b (2 ^ p) ≡ 2 ^ p)
masked b p = (λ e. bit_and-pow p b ∙ rw e (omega arith), λ e. bit_and-pow p b ∙ rw e (omega arith))

pub view-high : (q : PriorityQueue) → IsValid q → (r : ℕ) → 32 ≤ r → view q r ≡ []
view-high q v r h = view-empty q r (bit_high 32 q.priority_bits r v.word h)

take_some :
    (l : Levels) (p : ℕ) {x : ℕ} {xs : List ℕ}
    → l p ≡ x ∷ xs
    → Levels.take_at l p ≡ ok (x, update l p xs)
unfolding Levels.take_at
take_some l p e = ground (arith, e)

take_none : (l : Levels) (p : ℕ) → l p ≡ [] → Levels.take_at l p ≡ err empty
unfolding Levels.take_at
take_none l p e = ground (arith, e)

pub refuses-high : (q : PriorityQueue) (p : ℕ) → 32 ≤ p → refuses q p ≡ true
unfolding refuses
refuses-high q p h = ground arith

module _ (q : PriorityQueue) (v : IsValid q) where
  open v use {word, head_in, tail_in, unset}

  pub view-held : (p : ℕ) → p < 32 → bit q.priority_bits p ≡ 1 → view q p ≢ []
  view-held p h e z = omega (
    arith,
    length-view q p,
    ap length z,
    fill-pos (bit q.priority_bits p) (head_of q p) (tail_of q p) (bit-le _ p) (head_in p h)
        (tail_in p h) (unset p h) e,
  )

  pub refuses-eq : (p : ℕ) → p < 32 → refuses q p ≡ (size q p == 16)
  unfolding refuses fill
  refuses-eq p h = ground (
    arith,
    masked q.priority_bits p,
    pow_pos p,
    bit-le q.priority_bits p,
    head_in p h,
    tail_in p h,
    unset p h,
  )

  -- `__ctz` of the word finds the first priority that waits.
  pub first-ctz : first 32 0 (view q) ≡ ctz q.priority_bits
  first-ctz = elim (ℕ_discrete q.priority_bits 0) [
    | yes e ↦
        first_none 32 0 (view q) (λ j. view-empty q j (ap (λ b. bit b j) e ∙ zero-bit j))
        ∙ sym (ap ctz e ∙ ctz-zero)
    | no ne ↦
        let (lt, low) = ctz-Lowest q.priority_bits word ne in
        first_found 32 0 (ctz q.priority_bits) (view q) (omega arith) lt
          (λ j h. view-empty q j (low.below j h)) (view-held (ctz q.priority_bits) lt low.isset)
  ]

  pub append-update :
      (p x : ℕ)
      → p < 32
      → size q p < 16
      → view (append q p x) ≡ update (view q) p (view q p ++ (x ∷ []))
  append-update p x h room = fun_ext λ r. elim (dec_lt r 32) [
    | yes lt ↦ view-append q v p x h r lt room
    | no ge ↦ ground (arith, view-high q v r, view-high (append q p x) (append-IsValid q v p x h) r)
  ]

  pub take-update :
      (p : ℕ)
      → p < 32
      → bit q.priority_bits p ≡ 1
      → map_ok (λ (x, q'). (x, view q')) (ok (take_at q p)) ≡ Levels.take_at (view q) p
  unfolding Levels.take_at
  take-update p h waits =
      let q' = (take_at q p).1 in
      let rest : view q' ≡ update (view q) p (view q' p) = fun_ext λ r. elim (ℕ_discrete p r) [
        | yes e ↦ ground (arith, ap (view q') e)
        | no ne ↦ ground (arith, view-take_other q v p h waits r ne)
      ] in
      sym (
        take_some (view q) p (view-take q v p h waits)
        ∙ ap (λ w. ok ((take_at q p).0, w)) (sym rest))

  -- `priorityQueuePush` appends the value to the list of its priority. It reports ERROR_FULL if
  -- the priority is out of range or 16 values wait there already.
  pub push_refines_levels : (p x : ℕ) → map_ok view (push q p x) ≡ Levels.push (view q) p x
  unfolding push Levels.push
  push_refines_levels p x = elim (dec_lt p 32) [
    | yes lt ↦ ground (
      arith,
      refuses-eq p lt,
      length-view q p,
      append-update p x lt,
      fill-le (bit q.priority_bits p) (head_of q p) (tail_of q p) (bit-le _ p) (head_in p lt)
          (tail_in p lt) (unset p lt),
    )
    | no ge ↦ ground (arith, refuses-high q p)
  ]

  -- `priorityQueuePop` returns the oldest value of the first priority at which any waits, and
  -- leaves the others; it reports ERROR_EMPTY if none waits.
  pub pop_refines_levels : map_ok (λ (x, q'). (x, view q')) (pop q) ≡ Levels.pop (view q)
  unfolding pop Levels.pop
  pop_refines_levels = elim (ℕ_discrete q.priority_bits 0) [
    | yes e ↦
        let top : ctz q.priority_bits ≡ 32 = ap ctz e ∙ ctz-zero in
        let bare = take_none (view q) 32 (view-high q v 32 (omega arith)) in
        ground (arith, first-ctz ∙ top, bare, ap (Levels.take_at (view q)) (first-ctz ∙ top))
    | no ne ↦
        let (lt, low) = ctz-Lowest q.priority_bits word ne in
        let same = take-update (ctz q.priority_bits) lt low.isset in
        ground (arith, same, ap (Levels.take_at (view q)) first-ctz)
  ]
