-- ===== src/Kernel/TaskTable/Alloc.antt =====
-- What `taskTableAlloc` does to the table when a descriptor is free.
use burrit_osprivate.Prelude.{ℕ, ◌≡◌, ◌≢◌, refl, sym, ap, not, ◌==◌, ==-eq_false, if-false, set}
use burrit_osprivate.Prelude.Word.{neg32}
use burrit_osprivate.Prelude.Result.{ok}
use burrit_osprivate.Prelude.Outcome.{
  done, assert_ok, >>=-eq_done, assert_ok-eq_done, assert->>, done-injective,
}
use burrit_osprivate.Queue
use burrit_osprivate.Queue.{Queue}
use burrit_osprivate.Kernel.Memory
use burrit_osprivate.Kernel.Memory.{Words}
use burrit_osprivate.Kernel.TaskTable.{
  TaskTable, TaskDescriptor, TaskState, value, desc_at, alloc, prepare, send_queue_length,
}

-- A descriptor `index` was free, `rest` are the others, and it became `task`.
pub record Spawned (t t' : TaskTable) (priority r : ℕ) : Type 0 where
  pub index : ℕ
  pub rest : Queue
  pub task : TaskDescriptor
  pub taken : Queue.pop t.allocation_queue ≡ ok (index, rest)
  pub result : r ≡ value task.tid
  pub same_id : task.tid ≡ (desc_at t index).tid
  pub is_ready : task.state ≡ TaskState.ready
  pub given_priority : task.priority ≡ priority
  pub descriptors : t'.descriptors ≡ set t.descriptors index task
  pub free_left : t'.allocation_queue ≡ rest

pub alloc-Spawned :
    (t : TaskTable) (w : Words) (priority entry exit pid name : ℕ) {r : ℕ} {t' : TaskTable}
    {w' : Words}
    → t.allocation_queue.count ≢ 0
    → alloc t w priority entry exit pid name ≡ done (r, t', w')
    → Spawned t t' priority r
unfolding alloc prepare Queue.pop_u8
alloc-Spawned t w priority entry exit pid name {r} {t'} {w'} some_free e =
    let free_test = ==-eq_false t.allocation_queue.count 0 some_free in
    let e₁ = if-false (t.allocation_queue.count == 0) (done (neg32 1, t, w)) _ free_test e in
    let ((index, q), popped, e₂) = >>=-eq_done (assert_ok (Queue.pop t.allocation_queue)) _ e₁ in
    let (stack, m, w₁) = Memory.alloc t.memory_allocator w in
    let (nonzero, e₃) = assert->> (not (stack == 0)) _ e₂ in
    let (sent, _, e₄) =
      >>=-eq_done (assert_ok (Queue.init (desc_at t index).send_queue.buf send_queue_length)) _
        e₃ in
    let same = done-injective e₄ in
    let d = prepare (desc_at t index) w₁ stack priority pid name sent in
    record {
      index = index;
      rest = q;
      task = d;
      taken = assert_ok-eq_done _ popped;
      result = sym (ap (λ (r, t, w). r) same);
      same_id = refl;
      is_ready = refl;
      given_priority = refl;
      descriptors = sym (ap (λ (r, t, w). t.descriptors) same);
      free_left = sym (ap (λ (r, t, w). t.allocation_queue) same);
    }
