-- ===== src/Kernel/Run/Handler.antt =====
-- `systemCallHandler` as a whole, and the tasks that wait for events.
use burrit_osprivate.Prelude.{
  ℕ, zero, suc, ◌+◌, ◌<◌, ◌≡◌, refl, sym, ap, ◌∙◌, subst, true, ◌==◌, Bool-cases, inl, inr, if-true,
  if-false, arith, length, set, get_or,
}
use burrit_osprivate.Prelude.Word.{to_u8, to_u16, add32, neg32}
use burrit_osprivate.Prelude.Outcome.{Outcome, done, assert_ok, >>=-eq_done, done-injective}
use burrit_osprivate.Hardware.Timer.{timer_4, sample}
use burrit_osprivate.Hardware.Uart.{interrupt_tx}
use burrit_osprivate.PriorityQueue
use burrit_osprivate.Kernel.Memory
use burrit_osprivate.Kernel.TaskTable
use burrit_osprivate.Kernel.TaskTable.{
  TaskTable, TaskState, TaskDescriptor, is_state, value, desc_at, clear_loop, perf_clear,
}
use burrit_osprivate.Kernel.TaskTable.Alloc.{alloc-Spawned}
use burrit_osprivate.Kernel.Data.{Kernel, Board, current}
use burrit_osprivate.Kernel.SystemCall.{
  Call, sys_create, sys_exit, sys_shutdown, sys_kill, sys_await, sys_write, sys_alloc, sys_free,
  sys_perf_reset, charge, serve, decode, system_call_handler,
}
use burrit_osprivate.Kernel.Invariant.{Sound}
use burrit_osprivate.Kernel.Invariant.Create.{pop-free}
use burrit_osprivate.Kernel.Invariant.Handler.{Fits, Fitting, charge-Sound}
use burrit_osprivate.Kernel.Invariant.Messages.{is_state-excl}
use burrit_osprivate.Kernel.Run.Waiters.{
  Keeps, Off-Keeps, same-Keeps, Kept, Watched, Kept-Watched, await-Events,
}
use burrit_osprivate.Kernel.Run.Calls.{
  gives, stays, active-Off, block-Kept, send-Kept, receive-Kept, reply-Kept,
}

create-Kept :
    (b : Board) (k : Kernel) (arg0 arg1 arg2 : ℕ) {r : ℕ} {k' : Kernel}
    → Sound k
    → Fits Call.create k arg0
    → sys_create b k arg0 arg1 arg2 ≡ done (r, k')
    → Kept k k'
unfolding sys_create is_state Fitting
create-Kept b k arg0 arg1 arg2 v some_free e =
    let ((x, t, w), allocated, e₂) =
      >>=-eq_done
        (TaskTable.alloc k.tasks k.words (to_u8 arg0) arg1 b.task_exit (value (current k).tid) arg2)
        _ e in
    let (q, _, e₃) =
      >>=-eq_done (assert_ok (PriorityQueue.push k.queue (to_u8 arg0) (to_u16 x))) _ e₂ in
    let s =
      alloc-Spawned k.tasks k.words (to_u8 arg0) arg1 b.task_exit (value (current k).tid) arg2
        some_free allocated in
    let (_, _, ended, _) = pop-free v s.index s.taken in
    let off =
      is_state-excl (desc_at k.tasks s.index).state TaskState.zombie TaskState.event_blocked ended
        refl in
    gives k e₃ (
      refl,
      subst (Keeps k.tasks.descriptors) (sym s.descriptors)
          (Off-Keeps k.tasks.descriptors s.index s.task off),
    )

clear_loop-Keeps : (n i : ℕ) (t : TaskTable) → Keeps t.descriptors (clear_loop n i t).descriptors
unfolding clear_loop
clear_loop-Keeps zero i t j b = b
clear_loop-Keeps (suc n) i t j b =
    let d = record (desc_at t i) { performance = set (set (desc_at t i).performance 0 0) 1 0 } in
    clear_loop-Keeps n (i + 1) (record t { descriptors = set t.descriptors i d }) j
      (same-Keeps t.descriptors i d refl j b)

free-Kept :
    (k : Kernel) (arg0 : ℕ) {r : ℕ} {k' : Kernel} → sys_free k arg0 ≡ done (r, k') → Kept k k'
unfolding sys_free
free-Kept k arg0 e =
    let (m, _, e') = >>=-eq_done (Memory.free k.tasks.memory_allocator k.words arg0) _ e in
    gives k e' (stays k)

charge-Kept : (k : Kernel) (now : ℕ) → Kept k (charge k now)
unfolding charge
charge-Kept k now = (
  refl,
  same-Keeps k.tasks.descriptors k.active_task
      (record (current k) {
        performance =
            set (current k).performance 1
              (add32 (get_or (current k).performance 1 0) (sample timer_4 now k.perf_state).delta);
      })
      refl,
)

-- The call ends in a kernel `k₁` in which those that wait go on waiting.
leaves :
    (k : Kernel) {k₁ k' : Kernel} {x r : ℕ}
    → Watched k
    → Kept k k₁
    → ◌≡◌ {A = Outcome (ℕ × Kernel)} (done (x, k₁)) (done (r, k'))
    → Watched k'
leaves k {k' = k'} w h e = Kept-Watched k k' w (gives k e h)

await-Watched :
    (k : Kernel) (arg0 : ℕ) {r : ℕ} {k' : Kernel}
    → Sound k
    → is_state (current k).state TaskState.ready ≡ true
    → arg0 < length k.event_table
    → Watched k
    → sys_await k arg0 ≡ done (r, k')
    → Watched k'
unfolding sys_await
await-Watched k arg0 v runs small w e = subst Watched (ap (λ (r, k'). k') (done-injective e)) (
    await-Events k.event_table k.tasks.descriptors k.active_task arg0 w v.size v.active_in
      (v.ids k.active_task v.active_in) (active-Off k runs) small)

write-Watched :
    (k : Kernel) (arg0 : ℕ) {r : ℕ} {k' : Kernel}
    → Sound k
    → is_state (current k).state TaskState.ready ≡ true
    → Watched k
    → sys_write k arg0 ≡ done (r, k')
    → Watched k'
unfolding sys_write
write-Watched k arg0 {r} {k'} v runs w e = elim (Bool-cases (arg0 == 4)) [
  | inl is_terminal ↦
      await-Watched (record k { uart_2_control = interrupt_tx true k.uart_2_control }) arg0 {r = r}
        {k' = k'} v runs (ground (arith, w.events, is_terminal)) w
        (if-true (arg0 == 4) _ _ is_terminal e)
  | inr not_terminal ↦
      let e₁ = if-false (arg0 == 4) _ _ not_terminal e in
      elim (Bool-cases (arg0 == 6)) [
        | inl is_train ↦
            await-Watched (record k { uart_1_control = interrupt_tx true k.uart_1_control }) arg0
              {r = r} {k' = k'} v runs (ground (arith, w.events, is_train)) w
              (if-true (arg0 == 6) _ _ is_train e₁)
        | inr not_train ↦
            leaves k {k' = k'} {x = neg32 1} {r = r} w (stays k)
              (if-false (arg0 == 6) _ _ not_train e₁)
      ]
]

module _ (b : Board) (k : Kernel) (arg0 arg1 arg2 now : ℕ) {r : ℕ} {k' : Kernel} (v : Sound k)
    (runs : is_state (current k).state TaskState.ready ≡ true) (w : Watched k) where
  serve-Watched :
      (c : Call) → Fits c k arg0 → serve b c k arg0 arg1 arg2 now ≡ done (r, k') → Watched k'
  unfolding serve Fitting sys_exit sys_shutdown sys_kill sys_perf_reset perf_clear sys_alloc
  serve-Watched Call.exit fits e = leaves k w (block-Kept k runs TaskState.zombie) e
  serve-Watched Call.shutdown fits e = leaves k w (stays k) e
  serve-Watched Call.kill fits e = leaves k w (stays k) e
  serve-Watched Call.create fits e = Kept-Watched k k' w (create-Kept b k arg0 arg1 arg2 v fits e)
  serve-Watched Call.send fits e = Kept-Watched k k' w (send-Kept k runs arg0 arg1 e)
  serve-Watched Call.receive fits e = Kept-Watched k k' w (receive-Kept k runs arg0 arg1 e)
  serve-Watched Call.reply fits e = Kept-Watched k k' w (reply-Kept k runs arg0 arg1 e)
  serve-Watched Call.perf_reset fits e = leaves k w (refl, clear_loop-Keeps 64 0 k.tasks) e
  serve-Watched Call.await fits e = await-Watched k arg0 v runs fits w e
  serve-Watched Call.read fits e = await-Watched k arg0 v runs fits w e
  serve-Watched Call.write fits e = write-Watched k arg0 v runs w e
  serve-Watched Call.alloc fits e = leaves k w (stays k) e
  serve-Watched Call.free fits e = Kept-Watched k k' w (free-Kept k arg0 e)
  serve-Watched Call.pass fits e = leaves k w (stays k) e
  serve-Watched Call.running fits e = leaves k w (stays k) e
  serve-Watched Call.name fits e = leaves k w (stays k) e
  serve-Watched Call.tid fits e = leaves k w (stays k) e
  serve-Watched Call.pid fits e = leaves k w (stays k) e
  serve-Watched Call.priority fits e = leaves k w (stays k) e
  serve-Watched Call.state fits e = leaves k w (stays k) e
  serve-Watched Call.perf_query_p fits e = leaves k w (stays k) e
  serve-Watched Call.perf_query_t fits e = leaves k w (stays k) e
  serve-Watched Call.perf_query_pc fits e = leaves k w (stays k) e
  serve-Watched Call.perf_query_lr fits e = leaves k w (stays k) e
  serve-Watched Call.perf_query_sp fits e = leaves k w (stays k) e
  serve-Watched Call.perf_query_sb fits e = leaves k w (stays k) e
  serve-Watched Call.perf_query_si fits e = leaves k w (stays k) e
  serve-Watched Call.perf_count fits e = leaves k w (stays k) e
  serve-Watched Call.perf_stack fits e = leaves k w (stays k) e
  serve-Watched Call.perf_send fits e = leaves k w (stays k) e
  serve-Watched Call.unknown fits e = leaves k w (stays k) e

-- A call that returns leaves in the table of events different tasks that wait for one.
pub handler-Watched :
    (b : Board) (k : Kernel) (id arg0 arg1 arg2 now later : ℕ) {r : ℕ} {k' : Kernel}
    → Sound k
    → is_state (current k).state TaskState.ready ≡ true
    → Watched k
    → Fits (decode id) k arg0
    → system_call_handler b k id arg0 arg1 arg2 now later ≡ done (r, k')
    → Watched k'
unfolding system_call_handler charge
handler-Watched b k id arg0 arg1 arg2 now later v runs w fits e =
    let (v', same, sent) = charge-Sound k v now in
    serve-Watched b (charge k now) arg0 arg1 arg2 later v'
      (ap (λ s. is_state s TaskState.ready) same ∙ runs)
      (Kept-Watched k (charge k now) w (charge-Kept k now)) (decode id)
      (subst (λ q. Fitting (decode id) q k.tasks.allocation_queue k.event_table arg0) (sym sent)
        fits)
      e
