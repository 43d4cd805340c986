-- ===== src/Kernel/Memory.antt =====
-- kernel/memoryAllocator.h and kernel/memoryAllocator.c: blocks of 16,384 words, handed out and
-- taken back through a queue of block numbers. A pointer is a byte address. A block number is
-- kept in the last word of its block, which the program's memory of words holds.
use burrit_osprivate.Prelude.{ℕ, zero, suc, ◌+◌, not, List, ◌==◌, if◌then◌else◌}
use burrit_osprivate.Prelude.Word.{add32, sub32, mul32}
use burrit_osprivate.Prelude.Result.{ok, err}
use burrit_osprivate.Prelude.Outcome.{Outcome, done, ◌>>=◌, ◌>>◌, assert, assert_ok}
use burrit_osprivate.Queue
use burrit_osprivate.Queue.{Queue}

-- MEMORY_BLOCK_SIZE and MEMORY_BLOCK_COUNT of kernel/config.h.
abbrev pub block_size : ℕ
block_size = 16384

abbrev pub block_count : ℕ
block_count = 64

-- The words of memory, by address.
abbrev pub Words : Type 0
Words = ℕ → ℕ

abbrev pub store {ℓ} : {A : Type ℓ} → (ℕ → A) → ℕ → A → ℕ → A
store m a v b = if a == b then v else m b

-- `p + n` and `p - n` of a pointer to words.
abbrev pub ptr_add : ℕ → ℕ → ℕ
ptr_add p n = add32 p (mul32 4 n)

abbrev pub ptr_sub : ℕ → ℕ → ℕ
ptr_sub p n = sub32 p (mul32 4 n)

pub record MemoryAllocator : Type 0 where
  pub base_address : ℕ
  pub block_queue : Queue

-- The loop of `memoryAllocatorInit`, with the rounds that are left.
init_loop : ℕ → ℕ → Queue → Outcome Queue
init_loop zero i q = done q
init_loop (suc n) i q = assert_ok (Queue.push_u16 q i) >>= init_loop n (i + 1)

-- `queue_data` is the array of the structure, with what it holds before.
unfoldable pub init : List ℕ → ℕ → Outcome MemoryAllocator
unfolding init_loop
init queue_data base = do
  fresh ← assert_ok (Queue.init queue_data block_count)
  q ← init_loop block_count 1 fresh
  done (record { base_address = base; block_queue = q })

-- The result is the pointer, 0 if no block is left.
unfoldable pub alloc : MemoryAllocator → Words → ℕ × MemoryAllocator × Words
alloc a w = elim (Queue.pop a.block_queue) [
  | ok (block, q) ↦
      let address = ptr_add a.base_address (sub32 (mul32 block block_size) 1) in
      (ptr_sub address 1, record a { block_queue = q }, store w address block)
  | err _ ↦ (0, a, w)
]

unfoldable pub free : MemoryAllocator → Words → ℕ → Outcome MemoryAllocator
free a w stack = do
  assert (not (stack == 0))
  let id = w (ptr_add stack 1)
  q ← assert_ok (Queue.push_u16 a.block_queue id)
  done (record a { block_queue = q })
