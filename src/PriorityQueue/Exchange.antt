-- ===== src/PriorityQueue/Exchange.antt =====
-- `priorityQueuePushPop` against a push that is followed by a pop.
use burrit_osprivate.Prelude.{
  ℕ, ◌<◌, ◌≡◌, sym, ap, ◌∙◌, ◌≢◌, arith, ltb, false, dec_lt, some, Bool-cases, inl, inr, [],
}
use burrit_osprivate.Prelude.Bits.{bit, zero-bit, Lowest}
use burrit_osprivate.Prelude.Result.{ok, map_ok}
use mathlib.Core.Option
use burrit_osprivate.Utils.{ctz}
use burrit_osprivate.Utils.Ctz.{ctz-Lowest, ctz-zero}
use burrit_osprivate.PriorityQueue.{PriorityQueue, refuses, append, take_at, push, push_pop}
use burrit_osprivate.PriorityQueue.Levels
use burrit_osprivate.PriorityQueue.Levels.{first}
use burrit_osprivate.PriorityQueue.Inv.{IsValid, view}
use burrit_osprivate.PriorityQueue.Append.{append-IsValid, bits-append}
use burrit_osprivate.PriorityQueue.Take.{take-IsValid}
use burrit_osprivate.PriorityQueue.Refine.{
  first_found, view-empty, view-held, first-ctz, take-update, refuses-high, push_refines_levels,
}

-- A priority that is not more urgent than all that wait is offered, and there is room.
module _ (q : PriorityQueue) (v : IsValid q) (p x : ℕ) (late : ltb p (ctz q.priority_bits) ≡ false)
    (room : refuses q p ≡ false) where
  abbrev grown : PriorityQueue
  grown = append q p x

  pub in_range : p < 32
  in_range = elim (dec_lt p 32) [ yes lt ↦ lt | no ge ↦ absurd (ground (arith, refuses-high q p)) ]

  waiting : q.priority_bits ≢ 0
  waiting e = ground (arith, in_range, ap ctz e ∙ ctz-zero)

  low : (ctz q.priority_bits < 32) × Lowest q.priority_bits (ctz q.priority_bits)
  low = ctz-Lowest q.priority_bits v.word waiting

  grown-IsValid : IsValid grown
  grown-IsValid = append-IsValid q v p x in_range

  -- The first priority that waits is the same after the push.
  still_set : bit grown.priority_bits (ctz q.priority_bits) ≡ 1
  still_set = ground (arith, bits-append q v p x in_range (ctz q.priority_bits), low.1.isset)

  still_bare : (j : ℕ) → j < ctz q.priority_bits → view grown j ≡ []
  still_bare j h =
      view-empty grown j (ground (arith, bits-append q v p x in_range j, low.1.below j h))

  still_first : first 32 0 (view grown) ≡ ctz q.priority_bits
  still_first =
      first_found 32 0 (ctz q.priority_bits) (view grown) (omega arith) (omega (arith, low.0))
        still_bare (view-held grown grown-IsValid (ctz q.priority_bits) low.0 still_set)

  nonzero : grown.priority_bits ≢ 0
  nonzero e =
      omega
        (arith, still_set, ap (λ b. bit b (ctz q.priority_bits)) e, zero-bit (ctz q.priority_bits))

  pub exchange_take-IsValid : IsValid (take_at grown (ctz q.priority_bits)).1
  exchange_take-IsValid = take-IsValid grown grown-IsValid (ctz q.priority_bits) low.0 still_set

  pub exchange_code : push_pop q p x ≡ ok (some (take_at grown (ctz q.priority_bits)))
  unfolding push_pop
  exchange_code = ground (arith, nonzero)

  exchange_pop :
      Levels.pop (view grown)
      ≡ map_ok (λ (y, q'). (y, view q')) (ok (take_at grown (ctz q.priority_bits)))
  unfolding Levels.pop
  exchange_pop =
      ap (Levels.take_at (view grown)) still_first
      ∙ sym (take-update grown grown-IsValid (ctz q.priority_bits) low.0 still_set)

  exchange_push : Levels.push (view q) p x ≡ ok (view grown)
  unfolding push
  exchange_push =
      let e : push q p x ≡ ok grown = ground arith in
      sym (push_refines_levels q v p x) ∙ ap (map_ok view) e

  exchange_levels :
      Levels.push_pop (view q) p x
      ≡ (let (y, q') = take_at grown (ctz q.priority_bits) in ok (some (y, view q')))
  unfolding Levels.push_pop
  exchange_levels = ground (arith, late, first-ctz q v, exchange_push, exchange_pop)

-- `priorityQueuePushPop` returns 1 and does nothing if the offered priority is more urgent than
-- every priority at which a value waits; otherwise it does what a push followed by a pop does.
pub push_pop_refines_levels :
    (q : PriorityQueue) (p x : ℕ)
    → IsValid q
    → map_ok (Option.map (λ (y, q'). (y, view q'))) (push_pop q p x) ≡ Levels.push_pop (view q) p x
unfolding push_pop push Levels.push_pop
push_pop_refines_levels q p x v = elim (Bool-cases (ltb p (ctz q.priority_bits))) [
  | inl early ↦ ground (arith, first-ctz q v)
  | inr late ↦ elim (Bool-cases (refuses q p)) [
    | inl no_room ↦ ground (arith, first-ctz q v, push_refines_levels q v p x)
    | inr room ↦ rw (exchange_code q v p x late room) (sym (exchange_levels q v p x late room))
  ]
]
