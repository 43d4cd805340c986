-- ===== src/PriorityQueue/Inv.antt =====
-- The representation invariant of the priority queue, and the list that each ring holds.
use burrit_osprivate.Prelude.{
  ℕ, ◌+◌, ◌-◌, ◌*◌, ◌%◌, ◌^◌, ◌≤◌, ◌<◌, ◌≡◌, ◌≢◌, arith, length, ◌==◌, if◌then◌else◌,
}
use burrit_osprivate.Prelude.Bits.{bit, bit_and-mask}
use burrit_osprivate.Prelude.Window.{window, length-window}
use burrit_osprivate.PriorityQueue.{PriorityQueue, head_of, tail_of, after}
use burrit_osprivate.PriorityQueue.Levels.{Levels}

pub record IsValid (q : PriorityQueue) : Type 0 where
  pub word : q.priority_bits < 2 ^ 32
  pub buf_size : length q.buf ≡ 512
  pub head_size : length q.head ≡ 32
  pub tail_size : length q.tail ≡ 32
  pub head_in : (p : ℕ) → p < 32 → head_of q p < 16
  pub tail_in : (p : ℕ) → p < 32 → tail_of q p < 16
  pub unset : (p : ℕ) → p < 32 → bit q.priority_bits p ≡ 0 → head_of q p ≡ tail_of q p

-- The number of elements in a ring with the given bit, head and tail.
unfoldable pub fill : ℕ → ℕ → ℕ → ℕ
fill b h t = if b == 0 then 0 else if t == h then 16 else (t + 16 - h) % 16

abbrev pub size : PriorityQueue → ℕ → ℕ
size q p = fill (bit q.priority_bits p) (head_of q p) (tail_of q p)

-- The elements that wait at a priority, oldest first.
abbrev pub view : PriorityQueue → Levels
view q p = window (p * 16) 16 q.buf (head_of q p) (size q p)

pub length-view : (q : PriorityQueue) (p : ℕ) → length (view q p) ≡ size q p
length-view q p = length-window (p * 16) 16 q.buf (head_of q p) (size q p)

pub after-eq : (i : ℕ) → after i ≡ (i + 1) % 16
after-eq i = bit_and-mask 4 (i + 1)

-- One more element, and one less.
module _ (b h t : ℕ) (bit-ok : b ≤ 1) (hl : h < 16) (tl : t < 16) (un : b ≡ 0 → h ≡ t) where
  pub fill-append : fill b h t ≢ 16 → fill 1 h ((t + 1) % 16) ≡ fill b h t + 1
  unfolding fill
  fill-append room = ground arith

  pub fill-end : t ≡ (h + fill b h t) % 16
  unfolding fill
  fill-end = ground arith

  pub fill-le : fill b h t ≤ 16
  unfolding fill
  fill-le = ground arith

  pub fill-pos : b ≡ 1 → 0 < fill b h t
  unfolding fill
  fill-pos e = ground arith

  pub fill-take :
      b ≡ 1 → fill (if (h + 1) % 16 == t then 0 else 1) ((h + 1) % 16) t ≡ fill b h t - 1
  unfolding fill
  fill-take e = ground arith
