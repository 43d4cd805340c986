-- ===== src/Kernel/SystemCall/Message.antt =====
-- The system calls by which tasks exchange messages: SYS_CALL_SEND_ID, SYS_CALL_RECEIVE_ID and
-- SYS_CALL_REPLY_ID. `sysSend` blocks until the receiver replies; `sysReceive` blocks until there
-- is a sender. `messageCopy` returns 0, which is the result of the copy everywhere.
use burrit_osprivate.Prelude.{ℕ, if◌then◌else◌}
use burrit_osprivate.Prelude.Word.{to_u8}
use burrit_osprivate.Prelude.Result.{ok, err}
use burrit_osprivate.Prelude.Outcome.{Outcome, done, ◌>>=◌, ◌>>◌, assert, assert_ok}
use burrit_osprivate.Queue
use burrit_osprivate.PriorityQueue
use burrit_osprivate.Kernel.Memory.{store}
use burrit_osprivate.Kernel.TaskTable.{TaskState, is_state, value, val_to_id, get_descriptor}
use burrit_osprivate.Kernel.Data.{
  Kernel, desc, current, put_desc, set_state, task_return, task_arg_0, task_arg_1, task_arg_2,
  message_copy,
}

-- `priorityQueuePush(&kernel.queue, task->priority, task->tid.value)`
unfoldable pub enqueue : Kernel → ℕ → Outcome Kernel
enqueue k i = do
  q ← assert_ok (PriorityQueue.push k.queue (to_u8 (desc k i).priority) (value (desc k i).tid))
  done (record k { queue = q })

-- The receiver waits: it gets the message at `msg`, and the sender waits for the reply.
unfoldable pub deliver : Kernel → ℕ → ℕ → Outcome (ℕ × Kernel)
deliver k i msg = do
  let r = desc k i
  let copied = message_copy k (k.words (task_arg_1 r)) msg
  let told = record copied {
    halves = store k.halves (k.words (task_arg_0 r)) (value (current k).tid);
    words = store k.words (task_return r) 0;
  }
  let k' = set_state (set_state told k.active_task TaskState.reply_blocked) i TaskState.ready
  k'' ← enqueue k' i
  done (0, k'')

-- The receiver does other things: the sender joins its send queue.
unfoldable pub join_queue : Kernel → ℕ → Outcome (ℕ × Kernel)
join_queue k i = do
  q ← assert_ok (Queue.push_u16 (desc k i).send_queue (value (current k).tid))
  let k' = put_desc k i (record (desc k i) { send_queue = q })
  done (0, set_state k' k'.active_task TaskState.receive_blocked)

-- `arg0` is the receiver's id and `arg1` the address of the message.
unfoldable pub sys_send : Kernel → ℕ → ℕ → Outcome (ℕ × Kernel)
unfolding is_state get_descriptor
sys_send k arg0 arg1 =
    let i = get_descriptor (val_to_id arg0) in
    if is_state (desc k i).state TaskState.send_blocked then deliver k i arg1 else join_queue k i

-- The sender of id `sender` is taken from the queue, whose rest is `q`; `arg0` and `arg1` are the
-- addresses for its id and for the message.
unfoldable pub take_message : Kernel → Queue.Queue → ℕ → ℕ → ℕ → Outcome (ℕ × Kernel)
unfolding is_state get_descriptor
take_message k q sender arg0 arg1 = do
  let popped = put_desc k k.active_task (record (current k) { send_queue = q })
  let i = get_descriptor (val_to_id sender)
  let told = record popped { halves = store k.halves arg0 sender }
  let copied = message_copy told arg1 (told.words (task_arg_1 (desc told i)))
  assert (is_state (desc copied i).state TaskState.receive_blocked)
  done (0, set_state (set_state copied i TaskState.reply_blocked) k.active_task TaskState.ready)

unfoldable pub sys_receive : Kernel → ℕ → ℕ → Outcome (ℕ × Kernel)
sys_receive k arg0 arg1 = elim (Queue.pop (current k).send_queue) [
  | ok (sender, q) ↦ take_message k q sender arg0 arg1
  | err _ ↦ done (0, set_state k k.active_task TaskState.send_blocked)
]

-- `arg0` is the id of the task that waits for the reply, and `arg1` the address of the reply.
unfoldable pub sys_reply : Kernel → ℕ → ℕ → Outcome (ℕ × Kernel)
unfolding is_state get_descriptor
sys_reply k arg0 arg1 = do
  let i = get_descriptor (val_to_id arg0)
  let to = desc k i
  let copied = message_copy k (k.words (task_arg_2 to)) arg1
  let told = record copied { words = store k.words (task_return to) 0 }
  assert (is_state (desc told i).state TaskState.reply_blocked)
  k' ← enqueue (set_state told i TaskState.ready) i
  done (0, k')
