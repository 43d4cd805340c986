-- ===== src/PriorityQueue.antt =====
-- common/priorityQueue.h and common/priorityQueue.c: 32 rings of 16 task ids in one array, with a
-- word that has a bit for each ring that is not empty. Priority 0 is the most urgent. `priority`
-- and `value` are of type U8 and U16, to which the callers cut their arguments. The tests of the
-- pointers (IS_NOT_NULL, IS_IN_RANGE) have no counterpart, since a record is there.
pub mod Levels
pub mod Inv
pub mod Append
pub mod Take
pub mod Refine
pub mod Exchange
pub mod Run
pub mod Serve
mod Tests
use Prim.Native.Nat.{bit_and, bit_or, bit_xor}
use burrit_osprivate.Prelude.{
  ℕ, zero, suc, ◌+◌, ◌-◌, ◌*◌, ◌^◌, Bool, not, ◌&&◌, ◌||◌, Option, none, some, List, [], ◌∷◌, ◌==◌,
  ltb, leb, if◌then◌else◌, get_or, set,
}
use burrit_osprivate.Prelude.Result.{Result, ok, err, full, empty, ◌>>=◌}
use burrit_osprivate.Utils.{ctz}
use burrit_osprivate.PriorityQueue.Levels.{priority_count, priority_length, Op, Reply}

-- `buf` is the array `data`.
pub record PriorityQueue : Type 0 where
  pub buf : List ℕ
  pub head : List ℕ
  pub tail : List ℕ
  pub priority_bits : ℕ

abbrev pub head_of : PriorityQueue → ℕ → ℕ
head_of q p = get_or q.head p 0

abbrev pub tail_of : PriorityQueue → ℕ → ℕ
tail_of q p = get_or q.tail p 0

-- `(i + 1) & (PRIORITY_LENGTH - 1)`
abbrev pub after : ℕ → ℕ
after i = bit_and (i + 1) (priority_length - 1)

-- The loop of `priorityQueueInit`, with the rounds that are left.
init_loop : ℕ → ℕ → PriorityQueue → PriorityQueue
init_loop zero i q = q
init_loop (suc n) i q =
    init_loop n (i + 1) (record q { head = set q.head i 0; tail = set q.tail i 0 })

unfoldable pub init : PriorityQueue → PriorityQueue
unfolding init_loop
init q = let q' = init_loop priority_count 0 q in record q' { priority_bits = 0 }

-- The test of `priorityQueuePush` and `priorityQueuePushPop` under BOUNDS_CHECK.
unfoldable pub refuses : PriorityQueue → ℕ → Bool
refuses q p =
    leb priority_count p
    || (not (bit_and q.priority_bits (2 ^ p) == 0) && tail_of q p == head_of q p)

-- The three assignments by which both functions append.
unfoldable pub append : PriorityQueue → ℕ → ℕ → PriorityQueue
append q p value = record q {
  buf = set q.buf (tail_of q p + p * priority_length) value;
  tail = set q.tail p (after (tail_of q p));
  priority_bits = bit_or q.priority_bits (2 ^ p);
}

-- The three assignments by which two functions take the oldest element of ring `p`.
unfoldable pub take_at : PriorityQueue → ℕ → ℕ × PriorityQueue
take_at q p =
    let next = after (head_of q p) in
    (
      get_or q.buf (head_of q p + p * priority_length) 0,
      record q {
        head = set q.head p next;
        priority_bits = bit_xor q.priority_bits ((if next == tail_of q p then 1 else 0) * 2 ^ p);
      },
    )

unfoldable pub push : PriorityQueue → ℕ → ℕ → Result PriorityQueue
push q p value = if refuses q p then err full else ok (append q p value)

unfoldable pub pop : PriorityQueue → Result (ℕ × PriorityQueue)
pop q = if q.priority_bits == 0 then err empty else ok (take_at q (ctz q.priority_bits))

-- `none` is the return value 1: the caller goes on with its own value.
unfoldable pub push_pop : PriorityQueue → ℕ → ℕ → Result (Option (ℕ × PriorityQueue))
push_pop q p value =
    let free = ctz q.priority_bits in
    if ltb p free
    then ok none
    else if refuses q p
    then err full
    else let q' = append q p value in
      if q'.priority_bits == 0 then err empty else ok (some (take_at q' free))

unfoldable pub is_empty : PriorityQueue → Bool
is_empty q = q.priority_bits == 0

-- A client's calls in order, with what each returns; a call that fails leaves the queue alone.
unfoldable pub run : PriorityQueue → List Op → List Reply
run q [] = []
run q (Op.add p x ∷ ops) = elim (push q p x) [
  | ok q' ↦ Reply.done ∷ run q' ops
  | err e ↦ Reply.failed e ∷ run q ops
]
run q (Op.next ∷ ops) = elim (pop q) [
  | ok (x, q') ↦ Reply.value x ∷ run q' ops
  | err e ↦ Reply.failed e ∷ run q ops
]
run q (Op.exchange p x ∷ ops) = elim (push_pop q p x) [
  | ok none ↦ Reply.keep ∷ run q ops
  | ok (some (y, q')) ↦ Reply.value y ∷ run q' ops
  | err e ↦ Reply.failed e ∷ run q ops
]
