-- ===== src/PriorityQueue/Take.antt =====
-- Taking from a ring: the assignments that `priorityQueuePop` and `priorityQueuePushPop` share.
use Prim.Native.Nat.{bit_xor}
use burrit_osprivate.Prelude.{
  ℕ, ◌+◌, ◌-◌, ◌*◌, ◌%◌, ◌^◌, ◌<◌, ◌≡◌, ap, ap₂, ◌∙◌, ◌≢◌, ◌∷◌, arith, get_or, ◌==◌, ◌&&◌,
  if◌then◌else◌, length-set, get_or-set_self, get_or-set_ne, Bool, true, false,
}
use burrit_osprivate.Prelude.Bits.{bit, bit-le, zero-bit, bit-pow, bit-bit_xor, bit_xor-lt, pow-lt}
use burrit_osprivate.Prelude.Window.{window-cons}
use burrit_osprivate.PriorityQueue.{PriorityQueue, head_of, tail_of, after, take_at}
use burrit_osprivate.PriorityQueue.Inv.{IsValid, fill-pos, fill-take, size, view, after-eq}

-- What `^= (empty ? 1 : 0) << p` does to each bit, where that of `p` is set.
bit-take :
    (b p r : ℕ) (c : Bool)
    → bit b p ≡ 1
    → bit (bit_xor b ((if c then 1 else 0) * 2 ^ p)) r ≡ (if c && p == r then 0 else bit b r)
bit-take b p r true h =
    let one : 1 * 2 ^ p ≡ 2 ^ p = omega arith in
    bit-bit_xor b (1 * 2 ^ p) r ∙ rw one (ground (arith, bit-pow p r, bit-le b r, ap (bit b)))
bit-take b p r false h =
    let none : 0 * 2 ^ p ≡ 0 = omega arith in
    bit-bit_xor b (0 * 2 ^ p) r ∙ rw none (ground (arith, zero-bit r, bit-le b r))

flag-lt : (c : Bool) (p : ℕ) → p < 32 → (if c then 1 else 0) * 2 ^ p < 2 ^ 32
flag-lt true p h = omega (arith, pow-lt p 32 h)
flag-lt false p h = omega arith

-- Taking from a ring that is not empty.
module _ (q : PriorityQueue) (v : IsValid q) (p : ℕ) (lt : p < 32)
    (waits : bit q.priority_bits p ≡ 1) where
  open v use {word, buf_size, head_size, tail_size, head_in, tail_in, unset}

  abbrev taken : PriorityQueue
  taken = (take_at q p).1

  head-take : (r : ℕ) → head_of taken r ≡ (if p == r then (head_of q p + 1) % 16 else head_of q r)
  unfolding take_at
  head-take r = ground (
    arith,
    after-eq (head_of q p),
    get_or-set_self q.head p (after (head_of q p)) 0,
    get_or-set_ne q.head p r (after (head_of q p)) 0,
  )

  bit-taken :
      (r : ℕ)
      → bit taken.priority_bits r
        ≡ (if ((head_of q p + 1) % 16 == tail_of q p) && p == r then 0 else bit q.priority_bits r)
  unfolding take_at
  bit-taken r =
      rw (after-eq (head_of q p))
        (bit-take q.priority_bits p r ((head_of q p + 1) % 16 == tail_of q p) waits)

  size-take : (r : ℕ) → size taken r ≡ (if p == r then size q p - 1 else size q r)
  unfolding take_at
  size-take r = ground (
    arith,
    head-take r,
    bit-taken r,
    fill-take (bit q.priority_bits p) (head_of q p) (tail_of q p),
    bit-le q.priority_bits p,
    head_in p,
    tail_in p,
    unset p,
  )

  pub size-pos : 0 < size q p
  size-pos =
      fill-pos (bit q.priority_bits p) (head_of q p) (tail_of q p) (bit-le _ p) (head_in p lt)
        (tail_in p lt) (unset p lt) waits

  -- The oldest element of the ring comes out; the other rings do not change.
  pub view-take : view q p ≡ (take_at q p).0 ∷ view taken p
  unfolding take_at
  view-take =
      window-cons (p * 16) 16 q.buf (head_of q p) (size q p) (omega (arith, size-pos))
      ∙ ap₂ (λ i w. get_or q.buf i 0 ∷ w) (omega arith) (ground (arith, size-take p, head-take p))

  pub view-take_other : (r : ℕ) → p ≢ r → view taken r ≡ view q r
  unfolding take_at
  view-take_other r ne = ground (arith, size-take r, head-take r)

  pub take-IsValid : IsValid taken
  unfolding take_at
  take-IsValid = record {
    word = bit_xor-lt 32 q.priority_bits _ word (flag-lt _ p lt);
    buf_size = buf_size;
    head_size = rw length-set head_size;
    tail_size = tail_size;
    head_in = λ r h. ground (arith, head-take r, head_in r);
    tail_in = tail_in;
    unset = λ r h. ground (arith, head-take r, bit-taken r, unset r);
  }
