-- ===== src/Queue.antt =====
-- common/queue.h and common/queue.c: ring buffers over storage of the caller. QueueU8, QueueU16
-- and QueuePU32 differ only in the width of an element, so one model serves: `push_u8` and
-- `push_u16` cut the argument as the parameter's type does, and a pointer of a QueuePU32 is a
-- word that `push` takes as it is. The tests for null pointers have no counterpart, since a
-- record and its list are there.
pub mod Fifo
pub mod Mask
pub mod Inv
pub mod Refine
pub mod Steps
mod Tests
use Prim.Native.Nat.{bit_and}
use burrit_osprivate.Prelude.{
  ℕ, Bool, false, not, ◌&&◌, List, [], ◌∷◌, ◌==◌, if◌then◌else◌, get_or, set,
}
use burrit_osprivate.Prelude.Word.{to_u8, to_u16, add32, sub32}
use burrit_osprivate.Prelude.Result.{Result, ok, err, generic, len}
use burrit_osprivate.Queue.Fifo.{Op, put, get, look, Reply}

-- `buf` is the array behind the source's pointer `data`.
pub record Queue : Type 0 where
  pub buf : List ℕ
  pub head : ℕ
  pub tail : ℕ
  pub count : ℕ
  pub length : ℕ

-- IS_POW_2 of common/error.h, which the build turns on.
unfoldable pub is_pow_2 : ℕ → Bool
is_pow_2 x = not (x == 0) && bit_and x (sub32 x 1) == 0

unfoldable pub init : List ℕ → ℕ → Result Queue
unfolding is_pow_2
init buf n =
    if not (is_pow_2 n)
    then err len
    else if n == 0
    then err len
    else ok (record { buf = buf; head = 0; tail = 0; count = 0; length = n })

-- `(i + 1) & (queue->length - 1)`
abbrev pub after : Queue → ℕ → ℕ
after q i = bit_and (add32 i 1) (sub32 q.length 1)

unfoldable pub push : Queue → ℕ → Result Queue
push q value =
    if q.count == q.length
    then err generic
    else ok
        (record q { buf = set q.buf q.tail value; tail = after q q.tail; count = add32 q.count 1 })

unfoldable pub pop : Queue → Result (ℕ × Queue)
pop q =
    if q.count == 0
    then err generic
    else ok (get_or q.buf q.head 0, record q { count = sub32 q.count 1; head = after q q.head })

unfoldable pub peek : Queue → Result ℕ
peek q = if q.count == 0 then err generic else ok (get_or q.buf q.head 0)

unfoldable pub push_u8 : Queue → ℕ → Result Queue
push_u8 q value = push q (to_u8 value)

unfoldable pub push_u16 : Queue → ℕ → Result Queue
push_u16 q value = push q (to_u16 value)

-- The functions on a QueueU8 and a QueuePU32 whose text is that of their QueueU16 kin.
unfoldable pub init_u8 : List ℕ → ℕ → Result Queue
init_u8 buf n = init buf n

unfoldable pub pop_u8 : Queue → Result (ℕ × Queue)
pop_u8 q = pop q

unfoldable pub peek_u8 : Queue → Result ℕ
peek_u8 q = peek q

unfoldable pub init_pu32 : List ℕ → ℕ → Result Queue
init_pu32 buf n = init buf n

unfoldable pub push_pu32 : Queue → ℕ → Result Queue
push_pu32 q pointer = push q pointer

unfoldable pub pop_pu32 : Queue → Result (ℕ × Queue)
pop_pu32 q = pop q

-- A client's calls in order, with what each returns; a call that fails leaves the queue alone.
unfoldable pub run : Queue → List Op → List Reply
run q [] = []
run q (put x ∷ ops) = elim (push q x) [
  | ok q' ↦ Reply.done ∷ run q' ops
  | err e ↦ Reply.failed e ∷ run q ops
]
run q (get ∷ ops) = elim (pop q) [
  | ok (x, q') ↦ Reply.value x ∷ run q' ops
  | err e ↦ Reply.failed e ∷ run q ops
]
run q (look ∷ ops) = elim (peek q) [
  | ok x ↦ Reply.value x ∷ run q ops
  | err e ↦ Reply.failed e ∷ run q ops
]
