-- ===== src/Kernel/Scheduler.antt =====
-- kernel/scheduler.c: which task runs next.
use burrit_osprivate.Prelude.{ℕ, Bool, none, some, ◌==◌, if◌then◌else◌, get_or, set}
use burrit_osprivate.Prelude.Word.{to_u8, add32}
use burrit_osprivate.Prelude.Outcome.{Outcome, done, ◌>>=◌, ◌>>◌, assert, assert_ok}
use burrit_osprivate.Hardware.Timer.{timer_4, sample}
use burrit_osprivate.PriorityQueue
use burrit_osprivate.Kernel.Memory.{Words, ptr_add}
use burrit_osprivate.Kernel.TaskTable
use burrit_osprivate.Kernel.TaskTable.{
  TaskTable, TaskId, TaskState, is_state, value, val_to_id, get_descriptor,
}
use burrit_osprivate.Kernel.Data.{Kernel, desc, current, put_desc}

-- What the scheduler returns to the assembly code: the stack pointer of the task to enter, or 0,
-- which leaves the kernel.
pub data Next : Type 0 where
  enter : ℕ → Kernel → Next
  leave : Kernel → Next

-- ExitScheduler: the time goes to the task `i`, which was active before.
unfoldable pub exit_scheduler : ℕ → Kernel → ℕ → ℕ → Next
exit_scheduler i k sp now =
    let s = sample timer_4 now k.perf_state in
    let d = desc k i in
    let p = set d.performance 0 (add32 (get_or d.performance 0 0) s.delta) in
    enter sp (put_desc (record k { perf_state = s }) i (record d { performance = p }))

-- The task of id `tid` becomes active; its stack is checked for an overflow.
unfoldable pub switch_to : ℕ → Kernel → ℕ → ℕ → Outcome Next
unfolding exit_scheduler get_descriptor
switch_to i k tid now = do
  let j = get_descriptor (val_to_id tid)
  let d = desc k j
  assert (d.stack_block == k.words (ptr_add d.stack_base 1))
  done (exit_scheduler i (record k { active_task = j }) d.stack now)

-- The branch for an active task that goes on being ready.
unfoldable pub reschedule : ℕ → Kernel → ℕ → ℕ → Outcome Next
reschedule i k sp now = do
  let d = desc k i
  result ← assert_ok (PriorityQueue.push_pop k.queue (to_u8 d.priority) (value d.tid))
  elim result [
    | none ↦ done (exit_scheduler i k sp now)
    | some (tid, q) ↦ switch_to i (record k { queue = q }) tid now
  ]

-- A task that has ended gives its descriptor and its stack back.
unfoldable pub release : Bool → TaskTable → Words → TaskId → Outcome TaskTable
release ended t w tid = if ended then TaskTable.free t w tid >>= (λ (r, t'). done t') else done t

unfoldable pub leave_or_switch : ℕ → Kernel → ℕ → Outcome Next
leave_or_switch i k now =
    if PriorityQueue.is_empty k.queue
    then assert (k.system_running == 0) >> done (leave k)
    else assert_ok (PriorityQueue.pop k.queue) >>= λ (tid, q).
        switch_to i (record k { queue = q }) tid now

-- The branch for a task that is blocked or ends.
unfoldable pub schedule_next : ℕ → Kernel → ℕ → Outcome Next
unfolding is_state
schedule_next i k now = do
  let d = desc k i
  t ← release (is_state d.state TaskState.zombie) k.tasks k.words d.tid
  leave_or_switch i (record k { tasks = t }) now

-- `sp` is the stack pointer of the task that ran, and `now` what the debug timer reads.
unfoldable pub scheduler : Kernel → ℕ → ℕ → Outcome Next
unfolding is_state
scheduler k sp now =
    if k.system_running == 2
    then done (leave k)
    else let i = k.active_task in
      let k' = put_desc k i (record (current k) { stack = sp }) in
      if is_state (current k).state TaskState.ready
      then reschedule i k' sp now
      else schedule_next i k' now
