-- ===== src/PriorityQueue/Append.antt =====
-- Appending to a ring: the assignments that `priorityQueuePush` and `priorityQueuePushPop` share.
use Prim.Native.Nat.{bit_or}
use burrit_osprivate.Prelude.{
  ℕ, ◌+◌, ◌*◌, ◌%◌, ◌^◌, ◌<◌, ◌≡◌, ap, ◌∙◌, ◌≢◌, [], ◌∷◌, ◌++◌, arith, set, ◌==◌, if◌then◌else◌,
  length-set, get_or-set_self, get_or-set_ne,
}
use burrit_osprivate.Prelude.Bits.{bit, bit-le, bit-pow, bit-bit_or, bit_or-lt, pow-lt}
use burrit_osprivate.Prelude.Window.{window, window-push, window-set_outside}
use burrit_osprivate.PriorityQueue.{PriorityQueue, head_of, tail_of, after, append}
use burrit_osprivate.PriorityQueue.Inv.{IsValid, fill-append, fill-end, size, view, after-eq}

-- What `|= 1 << p` does to each bit.
pub bit-append : (b p r : ℕ) → bit (bit_or b (2 ^ p)) r ≡ (if p == r then 1 else bit b r)
bit-append b p r = ground (arith, bit-bit_or b (2 ^ p) r, bit-pow p r, bit-le b r)

-- Appending to ring `p` adds the value there and leaves every other ring as it is.
module _ (q : PriorityQueue) (v : IsValid q) (p x : ℕ) (lt : p < 32) where
  open v use {word, buf_size, head_size, tail_size, head_in, tail_in, unset}

  tail-append :
      (r : ℕ) → tail_of (append q p x) r ≡ (if p == r then after (tail_of q p) else tail_of q r)
  unfolding append
  tail-append r = ground (
    arith,
    get_or-set_self q.tail p (after (tail_of q p)) 0,
    get_or-set_ne q.tail p r (after (tail_of q p)) 0,
  )

  size-append :
      (r : ℕ)
      → r < 32
      → size q p ≢ 16
      → size (append q p x) r ≡ (if p == r then size q p + 1 else size q r)
  unfolding append
  size-append r h room = ground (
    arith,
    tail-append r,
    after-eq (tail_of q p),
    bit-append q.priority_bits p r,
    fill-append (bit q.priority_bits p) (head_of q p) (tail_of q p) (bit-le _ p),
    head_in p,
    tail_in p,
    unset p,
  )

  end_of : tail_of q p ≡ (head_of q p + size q p) % 16
  end_of =
      fill-end (bit q.priority_bits p) (head_of q p) (tail_of q p) (bit-le _ p) (head_in p lt)
        (tail_in p lt) (unset p lt)

  window-append :
      size q p < 16
      → window (p * 16) 16 (set q.buf (tail_of q p + p * 16) x) (head_of q p) (size q p + 1)
        ≡ view q p ++ (x ∷ [])
  window-append room =
      ap (λ i. window (p * 16) 16 (set q.buf i x) (head_of q p) (size q p + 1))
        (omega (arith, end_of))
      ∙ window-push (p * 16) 16 q.buf x (head_of q p) (size q p) (omega arith) (head_in p lt) room

  -- The element stands behind the others of its priority; the other priorities do not change.
  pub view-append :
      (r : ℕ)
      → r < 32
      → size q p < 16
      → view (append q p x) r ≡ (if p == r then view q p ++ (x ∷ []) else view q r)
  unfolding append
  view-append r h room = ground (
    arith,
    size-append r h (omega arith),
    window-append room,
    window-set_outside (r * 16) 16 q.buf (tail_of q p + p * 16) x (head_of q r) (size q r),
    head_in r h,
    tail_in p lt,
  )

  pub append-IsValid : IsValid (append q p x)
  unfolding append
  append-IsValid = record {
    word = bit_or-lt 32 q.priority_bits (2 ^ p) word (pow-lt p 32 lt);
    buf_size = rw length-set buf_size;
    head_size = head_size;
    tail_size = rw length-set tail_size;
    head_in = head_in;
    tail_in = λ r h. ground (arith, tail-append r, after-eq (tail_of q p), tail_in r);
    unset = λ r h. ground (arith, tail-append r, bit-append q.priority_bits p r, unset r);
  }

  pub bits-append :
      (r : ℕ) → bit (append q p x).priority_bits r ≡ (if p == r then 1 else bit q.priority_bits r)
  unfolding append
  bits-append r = bit-append q.priority_bits p r
