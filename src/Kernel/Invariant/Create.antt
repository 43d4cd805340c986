-- ===== src/Kernel/Invariant/Create.antt =====
-- SYS_CALL_CREATE_ID keeps the accounts: a free descriptor becomes a ready task that waits.
use burrit_osprivate.Prelude.{
  ℕ, ◌%◌, ◌<◌, ◌≡◌, ◌≢◌, refl, sym, ap, ap₂, ◌∙◌, subst, true, false, List, ◌∷◌, ◌==◌,
  if◌then◌else◌, arith, set,
}
use burrit_osprivate.Prelude.Count.{count}
use burrit_osprivate.Prelude.Word.{to_u8, to_u16}
use burrit_osprivate.Prelude.Result.{ok}
use burrit_osprivate.Prelude.Outcome.{done, assert_ok, >>=-eq_done, assert_ok-eq_done}
use burrit_osprivate.Queue
use burrit_osprivate.Queue.{Queue}
use burrit_osprivate.Queue.Inv.{pop-IsValid}
use burrit_osprivate.Queue.Refine.{contents, pop-contents, length-pop}
use burrit_osprivate.PriorityQueue
use burrit_osprivate.PriorityQueue.{PriorityQueue}
use burrit_osprivate.PriorityQueue.Run.{push-IsValid}
use burrit_osprivate.Kernel.TaskTable
use burrit_osprivate.Kernel.TaskTable.{
  TaskTable, TaskDescriptor, TaskState, is_state, value, desc_at,
}
use burrit_osprivate.Kernel.TaskTable.Alloc.{alloc-Spawned}
use burrit_osprivate.Kernel.Data.{Kernel, Board, current}
use burrit_osprivate.Kernel.SystemCall.{sys_create}
use burrit_osprivate.Kernel.Invariant.{look, waits, due, idle, spare, Accounts, Sound}
use burrit_osprivate.Kernel.Invariant.Update.{update-Accounts, push-count, value-index}
use burrit_osprivate.Kernel.Invariant.Messages.{Served, returns, is_state-excl}

module _ {a : ℕ} {q : PriorityQueue} {ds : List TaskDescriptor} {f f' : Queue}
    (v : Accounts a q ds f) (i : ℕ) where
  -- What a queue of free descriptors gives is free.
  pub pop-free :
      Queue.pop f ≡ ok (i, f')
      → (i < 64)
        × (i ≢ a)
        × (is_state (look ds i).state TaskState.zombie ≡ true)
        × ((j : ℕ) → count j (contents f') ≡ (if j == i then 0 else spare a ds j))
  unfolding spare idle
  pop-free e =
      let split = pop-contents f v.free_ok e in
      let held : count i (i ∷ contents f') ≡ spare a ds i =
        ap (count i) (sym split) ∙ v.free_exact i in
      (
        ground (arith, held),
        ground (arith, held),
        ground (arith, held),
        λ j.
            let each : count j (i ∷ contents f') ≡ spare a ds j =
              ap (count j) (sym split) ∙ v.free_exact j in
            ground (arith, held, each),
      )

  -- The free descriptor becomes a task that is ready and waits.
  spawn-Accounts :
      {q' : PriorityQueue} (d : TaskDescriptor)
      → Queue.pop f ≡ ok (i, f')
      → d.tid ≡ (look ds i).tid
      → is_state d.state TaskState.ready ≡ true
      → is_state d.state TaskState.zombie ≡ false
      → PriorityQueue.push q d.priority (value d.tid) ≡ ok q'
      → Accounts a q' (set ds i d) f'
  unfolding due spare waits idle is_state
  spawn-Accounts d taken same r z e =
      let (urgent, counted) = push-count q d.priority (value d.tid) v.queue_ok e in
      let (lt, other, ended, left) = pop-free taken in
      let index = value-index v i d lt same (λ _. urgent) in
      let blocked = is_state-excl _ TaskState.zombie TaskState.ready ended refl in
      update-Accounts v i d lt same (λ _. urgent)
        (push-IsValid q v.queue_ok d.priority (value d.tid) e) (pop-IsValid f v.free_ok taken)
        (length-pop f taken ∙ v.free_length)
        (λ p t h. ground (
          arith,
          counted p t,
          v.ready_exact p t h,
          index,
          blocked,
          other,
          ap (look ds),
          ap (λ k. k % 256),
        ))
        (λ j. ground (arith, left j))

-- The call that finds a free descriptor.
pub create-Sound :
    (b : Board) (k : Kernel) (arg0 arg1 arg2 : ℕ) {r : ℕ} {k' : Kernel}
    → Sound k
    → k.tasks.allocation_queue.count ≢ 0
    → sys_create b k arg0 arg1 arg2 ≡ done (r, k')
    → Served k k'
unfolding sys_create TaskTable.alloc Queue.pop_u8 is_state
create-Sound b k arg0 arg1 arg2 v some_free e =
    let ((x, t, w), allocated, e₂) =
      >>=-eq_done
        (TaskTable.alloc k.tasks k.words (to_u8 arg0) arg1 b.task_exit (value (current k).tid) arg2)
        _ e in
    let (q, pushed, e₃) =
      >>=-eq_done (assert_ok (PriorityQueue.push k.queue (to_u8 arg0) (to_u16 x))) _ e₂ in
    let s =
      alloc-Spawned k.tasks k.words (to_u8 arg0) arg1 b.task_exit (value (current k).tid) arg2
        some_free allocated in
    let (lt, _, _, _) = pop-free v s.index s.taken in
    let small : to_u16 x ≡ value s.task.tid =
      ground (arith, s.result, s.same_id, v.ids s.index lt, v.generations s.index lt) in
    let joined : PriorityQueue.push k.queue s.task.priority (value s.task.tid) ≡ ok q =
      ap₂ (PriorityQueue.push k.queue) s.given_priority (sym small) ∙ assert_ok-eq_done _ pushed in
    let spawned =
      spawn-Accounts v s.index s.task s.taken s.same_id
        (ap (λ z. is_state z TaskState.ready) s.is_ready)
        (ap (λ z. is_state z TaskState.zombie) s.is_ready) joined in
    let both = ap₂ (λ l g. Accounts k.active_task q l g) (sym s.descriptors) (sym s.free_left) in
    returns k e₃ (subst (λ T. T) both spawned, refl)
