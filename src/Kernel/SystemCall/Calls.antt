-- ===== src/Kernel/SystemCall/Calls.antt =====
-- The numbers of the system calls (kernel/systemCall.h), and the calls on the state of the system,
-- on tasks, on events and on memory blocks. A call returns the word that the task gets.
use burrit_osprivate.Prelude.{ℕ, true, List, [], ◌∷◌, ◌==◌, if◌then◌else◌, get_or, set}
use burrit_osprivate.Prelude.Word.{to_u8, to_u16, neg32}
use burrit_osprivate.Prelude.Outcome.{Outcome, done, ◌>>=◌, assert_ok}
use burrit_osprivate.Hardware.Uart.{interrupt_tx}
use burrit_osprivate.PriorityQueue
use burrit_osprivate.Kernel.Memory
use burrit_osprivate.Kernel.TaskTable
use burrit_osprivate.Kernel.TaskTable.{TaskState, value}
use burrit_osprivate.Kernel.Data.{Kernel, Board, current, set_state}

pub data Call : Type 0 where
  exit pass running shutdown kill : Call
  create name tid pid priority state : Call
  send receive reply : Call
  perf_reset perf_query_p perf_query_t perf_query_pc perf_query_lr perf_query_sp : Call
  perf_query_sb perf_query_si perf_count perf_stack perf_send : Call
  await read write : Call
  alloc free : Call
  unknown : Call

-- The calls in the order of their numbers, from 0.
abbrev pub calls : List Call
calls =
    Call.exit ∷ Call.pass ∷ Call.running ∷ Call.shutdown ∷ Call.kill ∷ Call.create ∷ Call.name
    ∷ Call.tid ∷ Call.pid ∷ Call.priority ∷ Call.state ∷ Call.send ∷ Call.receive ∷ Call.reply
    ∷ Call.perf_reset ∷ Call.perf_query_p ∷ Call.perf_query_t ∷ Call.perf_query_pc
    ∷ Call.perf_query_lr ∷ Call.perf_query_sp ∷ Call.perf_query_sb ∷ Call.perf_query_si
    ∷ Call.perf_count ∷ Call.perf_stack ∷ Call.perf_send ∷ Call.await ∷ Call.read ∷ Call.write
    ∷ Call.alloc ∷ Call.free ∷ []

unfoldable pub decode : ℕ → Call
decode id = get_or calls id Call.unknown

unfoldable pub sys_exit : Kernel → Outcome (ℕ × Kernel)
sys_exit k = done (0, set_state k k.active_task TaskState.zombie)

unfoldable pub sys_shutdown : Kernel → Outcome (ℕ × Kernel)
sys_shutdown k = done (0, record k { system_running = 0 })

unfoldable pub sys_kill : Kernel → Outcome (ℕ × Kernel)
sys_kill k = done (0, record k { system_running = 2 })

-- `arg0` is the priority, `arg1` the address of the code and `arg2` that of the name.
unfoldable pub sys_create : Board → Kernel → ℕ → ℕ → ℕ → Outcome (ℕ × Kernel)
sys_create b k arg0 arg1 arg2 = do
  (r, t, w) ←
      TaskTable.alloc k.tasks k.words (to_u8 arg0) arg1 b.task_exit (value (current k).tid) arg2
  let result = to_u16 r
  q ← assert_ok (PriorityQueue.push k.queue (to_u8 arg0) result)
  done (result, record k { tasks = t; words = w; queue = q })

-- The task waits for the event `arg0`.
unfoldable pub sys_await : Kernel → ℕ → Outcome (ℕ × Kernel)
sys_await k arg0 =
    let k' = record k { event_table = set k.event_table arg0 (value (current k).tid) } in
    done (0, set_state k' k'.active_task TaskState.event_blocked)

-- `arg0` is EVENT_TERMINAL_WRITE (4) or EVENT_TRAIN_WRITE (6).
unfoldable pub sys_write : Kernel → ℕ → Outcome (ℕ × Kernel)
unfolding sys_await
sys_write k arg0 =
    if arg0 == 4
    then sys_await (record k { uart_2_control = interrupt_tx true k.uart_2_control }) arg0
    else if arg0 == 6
    then sys_await (record k { uart_1_control = interrupt_tx true k.uart_1_control }) arg0
    else done (neg32 1, k)

unfoldable pub sys_alloc : Kernel → Outcome (ℕ × Kernel)
sys_alloc k =
    let (p, m, w) = Memory.alloc k.tasks.memory_allocator k.words in
    done (p, record k { tasks = record (k.tasks) { memory_allocator = m }; words = w })

unfoldable pub sys_free : Kernel → ℕ → Outcome (ℕ × Kernel)
sys_free k arg0 = do
  m ← Memory.free k.tasks.memory_allocator k.words arg0
  done (0, record k { tasks = record (k.tasks) { memory_allocator = m } })
