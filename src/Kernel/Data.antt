-- ===== src/Kernel/Data.antt =====
-- kernel/kernelData.h, with the memory that the kernel reads and writes for its tasks, and
-- kernel/message.h.
--
-- Memory is three arrays indexed by byte address: the words (task stacks and block numbers), the
-- half words through which `sysReceive` returns a sender, and the message envelopes. An object is
-- of one of the three kinds, as C's rules on effective types have it.
use burrit_osprivate.Prelude.{ℕ, List}
use burrit_osprivate.Hardware.Timer.{TimerState}
use burrit_osprivate.PriorityQueue.{PriorityQueue}
use burrit_osprivate.Kernel.Memory.{Words, store, ptr_add}
use burrit_osprivate.Kernel.TaskTable.{TaskTable, TaskDescriptor, TaskState, desc_at, set_desc}

-- `body` is the word of the union; MessageU8 and MessageU16 are its low bytes.
pub record MessageEnvelope : Type 0 where
  pub type : ℕ
  pub body : ℕ

-- `active_task` is the index of the descriptor that the source points to. The last two fields are
-- the control registers of the two UARTs.
pub record Kernel : Type 0 where
  pub active_task : ℕ
  pub queue : PriorityQueue
  pub tasks : TaskTable
  pub event_table : List ℕ
  pub perf_state : TimerState
  pub system_running : ℕ
  pub cts : ℕ
  pub words : Words
  pub halves : ℕ → ℕ
  pub envelopes : ℕ → MessageEnvelope
  pub uart_1_control : ℕ
  pub uart_2_control : ℕ

-- What stands outside the program's text: the address of `__taskExit`, and what the compiler's
-- library returns for a division by 0.
pub record Board : Type 0 where
  pub task_exit : ℕ
  pub div_zero : ℕ → ℕ

abbrev pub desc : Kernel → ℕ → TaskDescriptor
desc k i = desc_at k.tasks i

-- `kernel.activeTask`, dereferenced.
abbrev pub current : Kernel → TaskDescriptor
current k = desc k k.active_task

abbrev pub put_desc : Kernel → ℕ → TaskDescriptor → Kernel
put_desc k i d = record k { tasks = set_desc k.tasks i d }

abbrev pub set_state : Kernel → ℕ → TaskState → Kernel
set_state k i s = put_desc k i (record (desc k i) { state = s })

-- TASK_RETURN, TASK_ARG_0, TASK_ARG_1 and TASK_ARG_2: addresses of words of a saved stack.
abbrev pub task_return : TaskDescriptor → ℕ
task_return d = ptr_add d.stack 2

abbrev pub task_arg_0 : TaskDescriptor → ℕ
task_arg_0 d = ptr_add d.stack 3

abbrev pub task_arg_1 : TaskDescriptor → ℕ
task_arg_1 d = ptr_add d.stack 4

abbrev pub task_arg_2 : TaskDescriptor → ℕ
task_arg_2 d = ptr_add d.stack 5

-- `messageCopy`, from the envelope at the second address to that at the first; it returns 0.
abbrev pub message_copy : Kernel → ℕ → ℕ → Kernel
message_copy k dst src = record k { envelopes = store k.envelopes dst (k.envelopes src) }
