-- ===== src/Kernel/Boot.antt =====
-- kernel/kernelData.c, and what kernel/bootstrap.c does to the kernel's data: `bootstrap` fills
-- them and makes the idle task the active one. SetUp has the calls before that, which set up the
-- UARTs, the timers and the interrupt controllers.
pub mod Accounts
pub mod SetUp
pub mod Ready
mod Tests
use burrit_osprivate.Prelude.{ℕ, List, replicate}
use burrit_osprivate.Prelude.Word.{to_u16}
use burrit_osprivate.Prelude.Outcome.{Outcome, done, ◌>>=◌, assert_ok}
use burrit_osprivate.PriorityQueue
use burrit_osprivate.PriorityQueue.Levels.{priority_count}
use burrit_osprivate.Kernel.TaskTable
use burrit_osprivate.Kernel.TaskTable.{val_to_id, get_descriptor}
use burrit_osprivate.Kernel.Data.{Kernel, Board, desc}

-- `kernelDataInit`. `queue_data` is the storage of the memory allocator's queue, and `cts` what
-- the flag register of UART 1 shows. EVENT_TABLE_SIZE is 7.
unfoldable pub kernel_data_init : Kernel → List ℕ → ℕ → Outcome Kernel
kernel_data_init k queue_data cts = do
  tasks ← TaskTable.init k.tasks queue_data
  done (record k {
    system_running = 1;
    queue = PriorityQueue.init k.queue;
    tasks = tasks;
    event_table = replicate 7 0;
    cts = cts;
  })

-- `idle_task` and `name` are the addresses of the function `IdleTask` and of its name. The result
-- is the stack pointer to enter.
unfoldable pub bootstrap : Board → Kernel → List ℕ → ℕ → ℕ → ℕ → Outcome (ℕ × Kernel)
unfolding kernel_data_init get_descriptor
bootstrap b k queue_data cts idle_task name = do
  k' ← kernel_data_init k queue_data cts
  (r, t, w) ← TaskTable.alloc k'.tasks k'.words 31 idle_task b.task_exit 0 name
  let k'' = record k' { tasks = t; words = w; active_task = get_descriptor (val_to_id (to_u16 r)) }
  done ((desc k'' k''.active_task).stack, k'')
