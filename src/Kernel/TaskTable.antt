-- ===== src/Kernel/TaskTable.antt =====
-- kernel/taskDescriptor.h, kernel/taskTable.h and kernel/taskTable.c: the table of task
-- descriptors and the queue of the free ones.
pub mod Alloc
pub mod Free
use burrit_osprivate.Prelude.{
  ℕ, zero, suc, ◌+◌, ◌-◌, ◌*◌, ◌/◌, ◌%◌, not, List, [], ◌∷◌, ◌==◌, if◌then◌else◌, get_or, set,
  replicate, Bool,
}
use burrit_osprivate.Prelude.Word.{to_u8, to_u16, add32, mul32, neg32}
use burrit_osprivate.Prelude.Result.{ok_or}
use burrit_osprivate.Prelude.Outcome.{Outcome, done, ◌>>=◌, ◌>>◌, assert, assert_ok}
use burrit_osprivate.Queue
use burrit_osprivate.Queue.{Queue}
use burrit_osprivate.Kernel.Memory
use burrit_osprivate.Kernel.Memory.{MemoryAllocator, Words, store, ptr_add, ptr_sub}

-- TASK_COUNT and SEND_QUEUE_LENGTH of kernel/config.h.
abbrev pub task_count : ℕ
task_count = 64

abbrev pub send_queue_length : ℕ
send_queue_length = 8

pub data TaskState : Type 0 where
  zombie ready active send_blocked receive_blocked reply_blocked event_blocked : TaskState

-- The number of an enumerator, as `SYS_CALL_STATE_ID` returns it.
unfoldable pub state_code : TaskState → ℕ
state_code TaskState.zombie = 0
state_code TaskState.ready = 1
state_code TaskState.active = 2
state_code TaskState.send_blocked = 3
state_code TaskState.receive_blocked = 4
state_code TaskState.reply_blocked = 5
state_code TaskState.event_blocked = 6

unfoldable pub is_state : TaskState → TaskState → Bool
unfolding state_code
is_state s t = state_code s == state_code t

-- A TaskID: the bytes `fields.id` and `fields.generation` of the word `value`.
pub record TaskId : Type 0 where
  pub id : ℕ
  pub generation : ℕ

abbrev pub value : TaskId → ℕ
value t = t.id + 256 * t.generation

-- VAL_TO_ID: the low 16 bits.
abbrev pub val_to_id : ℕ → TaskId
val_to_id v = record { id = v % 256; generation = v / 256 % 256 }

-- `performance` is the array of ePerfCount words; `name` is the pointer to the name.
pub record TaskDescriptor : Type 0 where
  pub stack : ℕ
  pub stack_base : ℕ
  pub stack_block : ℕ
  pub state : TaskState
  pub priority : ℕ
  pub tid : TaskId
  pub pid : ℕ
  pub send_queue : Queue
  pub performance : List ℕ
  pub name : ℕ

-- The part of `sendQueueTable` that belongs to a task is the storage of its `send_queue`.
pub record TaskTable : Type 0 where
  pub descriptors : List TaskDescriptor
  pub allocation_queue : Queue
  pub memory_allocator : MemoryAllocator

-- What an index out of range reads; `Kernel.Invariant` shows where none is used.
abbrev pub blank : TaskDescriptor
blank = record {
  stack = 0;
  stack_base = 0;
  stack_block = 0;
  state = TaskState.zombie;
  priority = 0;
  tid = record { id = 0; generation = 0 };
  pid = 0;
  send_queue = record { buf = replicate 8 0; head = 0; tail = 0; count = 0; length = 0 };
  performance = replicate 4 0;
  name = 0;
}

abbrev pub desc_at : TaskTable → ℕ → TaskDescriptor
desc_at t i = get_or t.descriptors i blank

abbrev pub set_desc : TaskTable → ℕ → TaskDescriptor → TaskTable
set_desc t i d = record t { descriptors = set t.descriptors i d }

-- `taskGetDescriptor`: the index by which the model names a descriptor.
unfoldable pub get_descriptor : TaskId → ℕ
get_descriptor t = t.id

unfoldable pub count : TaskTable → ℕ
count t = task_count - t.allocation_queue.count

-- Addresses of the texts and functions that the kernel itself names.
abbrev pub unused_name : ℕ
unused_name = 1

-- The loop of `taskTableInit`, with the rounds that are left.
unfoldable pub init_loop : ℕ → ℕ → TaskTable → Outcome TaskTable
init_loop zero i t = done t
init_loop (suc n) i t =
    let t' = set_desc t i (record (desc_at t i) {
      tid = record { id = i; generation = 0 };
      pid = 0;
      state = TaskState.zombie;
      name = unused_name;
    }) in
    assert_ok (Queue.push_u8 t.allocation_queue i) >>= λ q.
    init_loop n (i + 1) (record t' { allocation_queue = q })

-- `queue_data` is the storage of the allocator's queue.
unfoldable pub init : TaskTable → List ℕ → Outcome TaskTable
unfolding init_loop
init t queue_data = do
  q ← assert_ok (Queue.init_u8 t.allocation_queue.buf task_count)
  t' ← init_loop task_count 0 (record t { allocation_queue = q })
  m ← Memory.init queue_data 0x01000000
  done (record t' { memory_allocator = m })

-- The fields that `taskTableAlloc` fills; `stack` is the new stack and `sent` its send queue.
prepare : TaskDescriptor → Words → ℕ → ℕ → ℕ → ℕ → Queue → TaskDescriptor
prepare d w stack priority pid name sent = record d {
  stack_base = stack;
  stack_block = to_u16 (w (ptr_add stack 1));
  stack = ptr_sub stack 15;
  state = TaskState.ready;
  pid = pid;
  priority = priority;
  performance = set (set d.performance 0 0) 1 0;
  name = name;
  send_queue = sent;
}

-- The result is the word that `taskTableAlloc` returns, -1 if no descriptor is free.
unfoldable pub alloc : TaskTable → Words → ℕ → ℕ → ℕ → ℕ → ℕ → Outcome (ℕ × TaskTable × Words)
unfolding prepare
alloc t w priority entry exit pid name =
    if t.allocation_queue.count == 0 then done (neg32 1, t, w) else do
      (index, q) ← assert_ok (Queue.pop_u8 t.allocation_queue)
      let d = desc_at t index
      let (stack, m, w') = Memory.alloc t.memory_allocator w
      assert (not (stack == 0))
      sent ← assert_ok (Queue.init d.send_queue.buf send_queue_length)
      done (
        value d.tid,
        record (set_desc t index (prepare d w' stack priority pid name sent)) {
          allocation_queue = q;
          memory_allocator = m;
        },
        store (store (store w' stack entry) (ptr_sub stack 14) exit) (ptr_sub stack 15) 0x10,
      )

-- The result is the word that `taskTableFree` returns. What `queueU8Push` returns is not looked at.
unfoldable pub free : TaskTable → Words → TaskId → Outcome (ℕ × TaskTable)
unfolding is_state
free t w tid =
    let d = desc_at t tid.id in
    if not (is_state d.state TaskState.zombie) then done (neg32 1, t) else do
      m ← Memory.free t.memory_allocator w d.stack_base
      done (
        0,
        record (set_desc t tid.id (record d {
          stack_block = 0;
          tid = record { id = d.tid.id; generation = to_u8 (d.tid.generation + 1) };
          pid = 0;
          state = TaskState.zombie;
          name = unused_name;
          stack = 0;
          stack_base = 0;
        })) {
          allocation_queue = ok_or (Queue.push_u8 t.allocation_queue tid.id) t.allocation_queue;
          memory_allocator = m;
        },
      )

-- The loop of `taskTablePerfClear`, with the rounds that are left.
unfoldable pub clear_loop : ℕ → ℕ → TaskTable → TaskTable
clear_loop zero i t = t
clear_loop (suc n) i t =
    let d = desc_at t i in
    clear_loop n (i + 1) (set_desc t i (record d { performance = set (set d.performance 0 0) 1 0 }))

unfoldable pub perf_clear : TaskTable → TaskTable
unfolding clear_loop
perf_clear t = clear_loop task_count 0 t

-- The counter that both queries read; ePerfKernel is 0, ePerfTask 1 and ePerfBoth 2.
unfoldable pub perf_counter : TaskTable → TaskId → ℕ → ℕ
perf_counter t tid perf =
    let p = (desc_at t tid.id).performance in
    if perf == 2 then add32 (get_or p 1 0) (get_or p 0 0) else get_or p perf 0

-- Division of words; `div_zero` is what the compiler's library returns for a divisor 0.
abbrev pub div32 : (ℕ → ℕ) → ℕ → ℕ → ℕ
div32 div_zero a b = if b == 0 then div_zero a else a / b

unfoldable pub perf_p : (ℕ → ℕ) → TaskTable → TaskId → ℕ → ℕ → ℕ
unfolding perf_counter
perf_p div_zero t tid perf runtime =
    let denom = runtime / 8 in
    mul32 (div32 div_zero (mul32 (perf_counter t tid perf) 1000) denom) 10 / 8

unfoldable pub perf_t : TaskTable → TaskId → ℕ → ℕ
unfolding perf_counter
perf_t t tid perf = mul32 (perf_counter t tid perf) 1000 / 983
