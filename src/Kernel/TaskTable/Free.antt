-- ===== src/Kernel/TaskTable/Free.antt =====
-- What `taskTableFree` does to the table when the task has ended.
use burrit_osprivate.Prelude.{ℕ, ◌<◌, ◌≡◌, refl, sym, ap, true, false, not, if-false, arith, set}
use burrit_osprivate.Prelude.Word.{neg32}
use burrit_osprivate.Prelude.Result.{ok_or}
use burrit_osprivate.Prelude.Outcome.{done, >>=-eq_done, done-injective}
use burrit_osprivate.Queue
use burrit_osprivate.Kernel.Memory
use burrit_osprivate.Kernel.Memory.{Words}
use burrit_osprivate.Kernel.TaskTable.{
  TaskTable, TaskDescriptor, TaskId, TaskState, is_state, desc_at, free,
}

-- The descriptor of index `i` became `task`.
pub record Freed (t t' : TaskTable) (i : ℕ) : Type 0 where
  pub task : TaskDescriptor
  pub ended : task.state ≡ TaskState.zombie
  pub same_id : task.tid.id ≡ (desc_at t i).tid.id
  pub generation : task.tid.generation < 256
  pub descriptors : t'.descriptors ≡ set t.descriptors i task
  pub free_left :
      ok_or (Queue.push_u8 t.allocation_queue i) t.allocation_queue ≡ t'.allocation_queue

pub free-Freed :
    (t : TaskTable) (w : Words) (tid : TaskId) {r : ℕ} {t' : TaskTable}
    → is_state (desc_at t tid.id).state TaskState.zombie ≡ true
    → free t w tid ≡ done (r, t')
    → Freed t t' tid.id
unfolding free
free-Freed t w tid z e =
    let ended : not (is_state (desc_at t tid.id).state TaskState.zombie) ≡ false = ap not z in
    let e₁ =
      if-false (not (is_state (desc_at t tid.id).state TaskState.zombie)) (done (neg32 1, t)) _
        ended e in
    let (m, _, e₂) =
      >>=-eq_done (Memory.free t.memory_allocator w (desc_at t tid.id).stack_base) _ e₁ in
    let same = done-injective e₂ in
    record {
      task = _;
      ended = refl;
      same_id = refl;
      generation = omega arith;
      descriptors = sym (ap (λ (r, t). t.descriptors) same);
      free_left = ap (λ (r, t). t.allocation_queue) same;
    }
