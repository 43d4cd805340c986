-- ===== src/PriorityQueue/Run.antt =====
-- Every operation keeps the invariant, so whole sequences of calls behave as the lists do.
use mathlib.Core.Path.{fun_ext}
use mathlib.Core.Option
use burrit_osprivate.Prelude.{
  ℕ, zero, suc, ◌+◌, ◌≤◌, ◌<◌, ◌≡◌, refl, sym, ap, subst, ◌∙◌, ◌≢◌, List, [], ◌∷◌, arith, length,
  ltb, false, length-set, get_or-set, dec_lt, Option, some, none, inl, inr,
}
use burrit_osprivate.Prelude.Bits.{zero-bit}
use burrit_osprivate.Prelude.Result.{Result-cases, ok, map_ok}
use burrit_osprivate.Utils.{ctz}
use burrit_osprivate.Utils.Ctz.{ctz-Lowest}
use burrit_osprivate.PriorityQueue.{
  PriorityQueue, head_of, tail_of, init_loop, init, refuses, push, pop, push_pop, run,
}
use burrit_osprivate.PriorityQueue.Levels
use burrit_osprivate.PriorityQueue.Levels.{Levels, Op, Reply}
use burrit_osprivate.PriorityQueue.Inv.{IsValid, view}
use burrit_osprivate.PriorityQueue.Append.{append-IsValid}
use burrit_osprivate.PriorityQueue.Take.{take-IsValid}
use burrit_osprivate.PriorityQueue.Refine.{
  view-empty, refuses-high, push_refines_levels, pop_refines_levels,
}
use burrit_osprivate.PriorityQueue.Exchange.{
  exchange_take-IsValid, exchange_code, push_pop_refines_levels,
}

-- What the arrays of the structure are declared with.
pub record HasSizes (q : PriorityQueue) : Type 0 where
  pub buf_size : length q.buf ≡ 512
  pub head_size : length q.head ≡ 32
  pub tail_size : length q.tail ≡ 32

init_loop-HasSizes : (n i : ℕ) (q : PriorityQueue) → HasSizes q → HasSizes (init_loop n i q)
unfolding init_loop
init_loop-HasSizes zero i q h = h
init_loop-HasSizes (suc n) i q h = init_loop-HasSizes n (i + 1) _ (record {
  buf_size = h.buf_size;
  head_size = rw length-set h.head_size;
  tail_size = rw length-set h.tail_size;
})

init_loop-zero :
    (n i j : ℕ) (q : PriorityQueue)
    → HasSizes q
    → i + n ≤ 32
    → j < i + n
    → (j < i → (head_of q j ≡ 0) × (tail_of q j ≡ 0))
    → (head_of (init_loop n i q) j ≡ 0) × (tail_of (init_loop n i q) j ≡ 0)
unfolding init_loop
init_loop-zero zero i j q h fits lt cleared = cleared (omega arith)
init_loop-zero (suc n) i j q h fits lt cleared =
    init_loop-zero n (i + 1) j _
      (record {
        buf_size = h.buf_size;
        head_size = rw length-set h.head_size;
        tail_size = rw length-set h.tail_size;
      })
      (omega arith) (omega arith)
      λ before. ground (
        arith,
        get_or-set q.head i j 0 0,
        get_or-set q.tail i j 0 0,
        h.head_size,
        h.tail_size,
        cleared,
      )

module _ (q : PriorityQueue) (h : HasSizes q) where
  init-zero : (j : ℕ) → j < 32 → (head_of (init q) j ≡ 0) × (tail_of (init q) j ≡ 0)
  unfolding init
  init-zero j lt = init_loop-zero 32 0 j q h (omega arith) lt λ before. absurd (omega arith)

  -- `priorityQueueInit` makes any structure of the declared sizes valid, with no value waiting.
  pub init-IsValid : IsValid (init q) × ((p : ℕ) → view (init q) p ≡ [])
  unfolding init
  init-IsValid = (
    record {
      word = omega arith;
      buf_size = (init_loop-HasSizes 32 0 q h).buf_size;
      head_size = (init_loop-HasSizes 32 0 q h).head_size;
      tail_size = (init_loop-HasSizes 32 0 q h).tail_size;
      head_in = λ p lt. omega (arith, init-zero p lt);
      tail_in = λ p lt. omega (arith, init-zero p lt);
      unset = λ p lt e. omega (arith, init-zero p lt);
    },
    λ p. view-empty (init q) p (zero-bit p),
  )

-- Each call that succeeds keeps the invariant.
module _ (q : PriorityQueue) (v : IsValid q) where
  pub push-IsValid : (p x : ℕ) {q' : PriorityQueue} → push q p x ≡ ok q' → IsValid q'
  unfolding push
  push-IsValid p x e = elim (dec_lt p 32) [
    | yes lt ↦ let kept = append-IsValid q v p x lt in subst IsValid (ground arith) kept
    | no ge ↦ absurd (ground (arith, refuses-high q p))
  ]

  pub pop-IsValid : {x : ℕ} {q' : PriorityQueue} → pop q ≡ ok (x, q') → IsValid q'
  unfolding pop
  pop-IsValid {x} {q'} e =
      let ne : q.priority_bits ≢ 0 = λ z. ground arith in
      let (lt, low) = ctz-Lowest q.priority_bits v.word ne in
      subst IsValid (ground arith) (take-IsValid q v (ctz q.priority_bits) lt low.isset)

  pub push_pop-IsValid :
      (p x : ℕ) {y : ℕ} {q' : PriorityQueue} → push_pop q p x ≡ ok (some (y, q')) → IsValid q'
  unfolding push_pop
  push_pop-IsValid p x e =
      let late : ltb p (ctz q.priority_bits) ≡ false = ground arith in
      let room : refuses q p ≡ false = ground arith in
      let same = exchange_code q v p x late room in
      subst IsValid (ground (arith, same)) (exchange_take-IsValid q v p x late room)

-- No sequence of calls tells a valid priority queue from the lists of the values that wait.
pub run_refines :
    (ops : List Op) (q : PriorityQueue) → IsValid q → run q ops ≡ Levels.run (view q) ops
unfolding run Levels.run
run_refines [] q v = refl
run_refines (Op.add p x ∷ ops) q v = elim (Result-cases (push q p x)) [
  | inl (q', e) ↦
      let same = sym (push_refines_levels q v p x) ∙ ap (map_ok view) e in
      ground (arith, e, same, run_refines ops q' (push-IsValid q v p x e))
  | inr (r, e) ↦
      let same = sym (push_refines_levels q v p x) ∙ ap (map_ok view) e in
      ground (arith, e, same, run_refines ops q v)
]
run_refines (Op.next ∷ ops) q v = elim (Result-cases (pop q)) [
  | inl ((x, q'), e) ↦
      let same = sym (pop_refines_levels q v) ∙ ap (map_ok (λ (x, q'). (x, view q'))) e in
      ground (arith, e, same, run_refines ops q' (pop-IsValid q v e))
  | inr (r, e) ↦
      let same = sym (pop_refines_levels q v) ∙ ap (map_ok (λ (x, q'). (x, view q'))) e in
      ground (arith, e, same, run_refines ops q v)
]
run_refines (Op.exchange p x ∷ ops) q v = elim (Result-cases (push_pop q p x)) [
  | inl (none, e) ↦
      let same = sym (push_pop_refines_levels q p x v) ∙ ap (map_ok offered) e in
      ground (arith, e, same, run_refines ops q v)
  | inl (some (y, q'), e) ↦
      let same = sym (push_pop_refines_levels q p x v) ∙ ap (map_ok offered) e in
      ground (arith, e, same, run_refines ops q' (push_pop-IsValid q v p x e))
  | inr (r, e) ↦
      let same = sym (push_pop_refines_levels q p x v) ∙ ap (map_ok offered) e in
      ground (arith, e, same, run_refines ops q v)
]
  where
    offered : Option (ℕ × PriorityQueue) → Option (ℕ × Levels)
    offered = Option.map (λ (y, q'). (y, view q'))

-- After `priorityQueueInit`, every sequence of calls of `priorityQueuePush`, `priorityQueuePop`
-- and `priorityQueuePushPop` gets the replies of 32 first-in, first-out lists of at most 16 values,
-- all empty at first, of which the first that is not empty is served.
pub run-init_levels :
    (q : PriorityQueue) (ops : List Op) → HasSizes q → run (init q) ops ≡ Levels.run (λ p. []) ops
run-init_levels q ops h =
    let (v, bare) = init-IsValid q h in
    run_refines ops (init q) v ∙ ap (λ l. Levels.run l ops) (fun_ext bare)
