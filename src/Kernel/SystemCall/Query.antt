-- ===== src/Kernel/SystemCall/Query.antt =====
-- The system calls that only report, and those on the performance counters (KERNEL_PERF).
use burrit_osprivate.Prelude.{ℕ, ◌/◌, ◌==◌, if◌then◌else◌}
use burrit_osprivate.Prelude.Word.{mul32, neg32}
use burrit_osprivate.Hardware.Timer.{start}
use burrit_osprivate.Kernel.Memory.{ptr_add}
use burrit_osprivate.Kernel.TaskTable
use burrit_osprivate.Kernel.TaskTable.{
  TaskDescriptor, TaskState, state_code, is_state, value, val_to_id, get_descriptor,
}
use burrit_osprivate.Kernel.Data.{Kernel, Board, desc, current}
use burrit_osprivate.Kernel.SystemCall.Calls.{Call}

-- The descriptor of the task whose id is `arg0`.
unfoldable pub named : Kernel → ℕ → TaskDescriptor
unfolding get_descriptor
named k arg0 = desc k (get_descriptor (val_to_id arg0))

-- What is reported of a task that runs, and `other` of one that has ended.
unfoldable pub unless_zombie : TaskDescriptor → ℕ → ℕ → ℕ
unfolding is_state
unless_zombie d other x = if is_state d.state TaskState.zombie then other else x

-- `timerStart` reads the debug timer once more, as `now`.
unfoldable pub sys_perf_reset : Kernel → ℕ → Kernel
sys_perf_reset k now = record k {
  perf_state = start now k.perf_state;
  tasks = TaskTable.perf_clear k.tasks;
}

-- ePerfTotal is 3.
unfoldable pub sys_perf_query_p : Board → Kernel → ℕ → ℕ → ℕ
sys_perf_query_p b k arg0 arg1 =
    if arg1 == 3
    then 10000
    else TaskTable.perf_p b.div_zero k.tasks (val_to_id arg0) arg1 k.perf_state.total

unfoldable pub sys_perf_query_t : Kernel → ℕ → ℕ → ℕ
sys_perf_query_t k arg0 arg1 =
    if arg1 == 3
    then mul32 k.perf_state.total 1000 / 983
    else TaskTable.perf_t k.tasks (val_to_id arg0) arg1

-- The results of the calls that change nothing.
unfoldable pub query : Board → Call → Kernel → ℕ → ℕ → ℕ
unfolding named unless_zombie sys_perf_query_p sys_perf_query_t state_code
query b Call.running k arg0 arg1 = k.system_running
query b Call.name k arg0 arg1 = (named k arg0).name
query b Call.tid k arg0 arg1 = value (current k).tid
query b Call.pid k arg0 arg1 = (current k).pid
query b Call.priority k arg0 arg1 = (named k arg0).priority
query b Call.state k arg0 arg1 = state_code (named k arg0).state
query b Call.perf_query_p k arg0 arg1 = sys_perf_query_p b k arg0 arg1
query b Call.perf_query_t k arg0 arg1 = sys_perf_query_t k arg0 arg1
query b Call.perf_query_pc k arg0 arg1 =
    let d = named k arg0 in unless_zombie d 0 (k.words (ptr_add d.stack 15))
query b Call.perf_query_lr k arg0 arg1 =
    let d = named k arg0 in unless_zombie d 0 (k.words (ptr_add d.stack 1))
query b Call.perf_query_sp k arg0 arg1 = let d = named k arg0 in unless_zombie d 0 d.stack
query b Call.perf_query_sb k arg0 arg1 = let d = named k arg0 in unless_zombie d 0 d.stack_base
query b Call.perf_query_si k arg0 arg1 =
    let d = named k arg0 in unless_zombie d (neg32 1) d.stack_block
query b Call.perf_count k arg0 arg1 = TaskTable.count k.tasks
query b Call.perf_stack k arg0 arg1 = k.tasks.memory_allocator.block_queue.count
query b Call.perf_send k arg0 arg1 = let d = named k arg0 in unless_zombie d 0 d.send_queue.count
query b _ k arg0 arg1 = 0
