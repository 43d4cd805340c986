-- ===== src/Queue/Inv.antt =====
-- The representation invariant of a queue, and that each operation keeps it.
use burrit_osprivate.Prelude.{
  ℕ, ◌+◌, ◌%◌, ◌^◌, ◌≤◌, ◌<◌, ◌≡◌, refl, sym, ap, ◌∙◌, ◌≢◌, List, arith, ◌↔◌, Bool-cases, inl, inr,
  length, length-set,
}
use Prim.Native.Nat.{bit_and}
use burrit_osprivate.Prelude.Word.{add32, sub32}
use native.Mathlib.Nat.{mod-lt, mod-add-mod, zero-mod}
use burrit_osprivate.Prelude.Bits.{pow_pos, pow-le, pow-lt_inv}
use burrit_osprivate.Prelude.Result.{ok, err, len}
use burrit_osprivate.Queue.{Queue, is_pow_2, init, push, pop, after}
use burrit_osprivate.Queue.Mask.{mask_step, is_pow_2_iff}

pub record IsValid (q : Queue) : Type 0 where
  pub bits : ℕ
  pub narrow : bits < 32
  pub size : q.length ≡ 2 ^ bits
  pub storage : q.length ≤ length q.buf
  pub head_in : q.head < q.length
  pub count_in : q.count ≤ q.length
  pub tail_at : q.tail ≡ (q.head + q.count) % q.length

module _ {q : Queue} (v : IsValid q) where
  open v use {bits, narrow, size, storage, head_in, count_in, tail_at}

  pub length_pos : 0 < q.length
  length_pos = omega (arith, pow_pos bits)

  pub length_word : q.length ≤ 2 ^ 31
  length_word = omega (arith, pow-le bits 31 (omega arith))

  pub tail_in : q.tail < q.length
  tail_in = omega (arith, mod-lt (q.head + q.count) length_pos)

  pub after-eq : (i : ℕ) → i < q.length → after q i ≡ (i + 1) % q.length
  after-eq i h =
      ap (λ n. bit_and (add32 i 1) (sub32 n 1)) size
      ∙ mask_step bits i narrow (omega arith)
      ∙ ap (λ n. (i + 1) % n) (sym size)

  -- One more element, or one less, moves the end that it should.
  tail-push : after q q.tail ≡ (q.head + add32 q.count 1) % q.length
  tail-push =
      let sum : q.head + add32 q.count 1 ≡ q.head + q.count + 1 = omega (arith, length_word) in
      after-eq q.tail tail_in ∙ rw (tail_at, mod-add-mod, sum) refl

  tail-pop : q.count ≢ 0 → q.tail ≡ (after q q.head + sub32 q.count 1) % q.length
  tail-pop ne =
      let sum : q.head + 1 + sub32 q.count 1 ≡ q.head + q.count = omega (arith, length_word) in
      rw (after-eq q.head head_in, mod-add-mod, sum) tail_at

-- A queue is valid after an initialisation that succeeds, and empty.
pub init-IsValid :
    (buf : List ℕ) (n : ℕ) {q : Queue}
    → n < 2 ^ 32
    → n ≤ length buf
    → init buf n ≡ ok q
    → IsValid q × (q.count ≡ 0)
unfolding init
init-IsValid buf n h room e =
    let (k, pow) = (is_pow_2_iff n h).0 (ground arith) in
    (
      record {
        bits = k;
        narrow = pow-lt_inv k 32 (omega arith);
        size = ground arith;
        storage = ground arith;
        head_in = ground (arith, pow_pos k);
        count_in = ground arith;
        tail_at = ground (arith, zero-mod n);
      },
      ground arith,
    )

module _ (q : Queue) {q' : Queue} (v : IsValid q) where
  open v use {bits, narrow, size, storage, head_in, count_in}

  -- A push that succeeds keeps the invariant.
  pub push-IsValid : (x : ℕ) → push q x ≡ ok q' → IsValid q'
  unfolding push
  push-IsValid x e = record {
    bits = bits;
    narrow = narrow;
    size = ground (arith, size);
    storage = ground (arith, storage, length-set q.buf q.tail x);
    head_in = ground (arith, head_in);
    count_in = ground (arith, count_in, length_word v);
    tail_at = ground (arith, tail-push v);
  }

  -- A pop that succeeds keeps the invariant.
  pub pop-IsValid : {x : ℕ} → pop q ≡ ok (x, q') → IsValid q'
  unfolding pop
  pop-IsValid e = record {
    bits = bits;
    narrow = narrow;
    size = ground (arith, size);
    storage = ground (arith, storage);
    head_in = ground (arith, after-eq v q.head, mod-lt (q.head + 1) (length_pos v));
    count_in = ground (arith, count_in, length_word v);
    tail_at = ground (arith, tail-pop v);
  }

fresh : List ℕ → ℕ → Queue
fresh buf n = record { buf = buf; head = 0; tail = 0; count = 0; length = n }

-- An initialisation succeeds exactly at the lengths that are powers of two; any other word is
-- refused with ERROR_LEN.
pub init_iff :
    (buf : List ℕ) (n : ℕ)
    → n < 2 ^ 32
    → (((q : Queue) × (init buf n ≡ ok q)) ↔ ((k : ℕ) × (n ≡ 2 ^ k)))
      × (¬ ((k : ℕ) × (n ≡ 2 ^ k)) → init buf n ≡ err len)
unfolding init fresh
init_iff buf n h = (
  (
    λ (q, e). (is_pow_2_iff n h).0 (ground arith),
    λ (k, e). (fresh buf n, ground (arith, (is_pow_2_iff n h).1 (k, e), pow_pos k)),
  ),
  λ other. elim (Bool-cases (is_pow_2 n)) [
    | inl yes' ↦ absurd (other ((is_pow_2_iff n h).0 yes'))
    | inr no' ↦ rw no'
  ],
)
