-- ===== src/Kernel/Invariant/Handler.antt =====
-- `systemCallHandler` keeps the accounts.
use burrit_osprivate.Prelude.{
  ℕ, zero, suc, ◌+◌, ◌%◌, ◌≤◌, ◌<◌, ◌≡◌, ◌≢◌, refl, sym, ap, ◌∙◌, subst, Bool-cases, if-true,
  if-false, inl, inr, true, ◌==◌, arith, length, set, get_or, List,
}
use burrit_osprivate.Prelude.Word.{add32, neg32}
use burrit_osprivate.Prelude.Result.{ok}
use burrit_osprivate.Prelude.Outcome.{Outcome, done, >>=-eq_done}
use burrit_osprivate.Hardware.Timer.{timer_4, sample}
use burrit_osprivate.Hardware.Uart.{interrupt_tx}
use burrit_osprivate.Queue
use burrit_osprivate.Queue.{Queue}
use burrit_osprivate.PriorityQueue.{PriorityQueue}
use burrit_osprivate.Kernel.Memory
use burrit_osprivate.Kernel.TaskTable.{
  TaskTable, TaskState, is_state, desc_at, perf_clear, clear_loop,
}
use burrit_osprivate.Kernel.Data.{Kernel, Board, current}
use burrit_osprivate.Kernel.SystemCall.{
  Call, decode, charge, serve, system_call_handler, sys_exit, sys_shutdown, sys_kill, sys_await,
  sys_write, sys_alloc, sys_free, sys_perf_reset,
}
use burrit_osprivate.Kernel.Invariant.{Accounts, Sound}
use burrit_osprivate.Kernel.Invariant.Update.{look-set}
use burrit_osprivate.Kernel.Invariant.Blocked.{keep-Accounts}
use burrit_osprivate.Kernel.Invariant.Messages.{
  Served, alive, returns, block-Sound, send-Sound, receive-Sound, reply-Sound,
}
use burrit_osprivate.Kernel.Invariant.Create.{create-Sound}

-- What the call relies on: the index in an id that it is given, or that a sender left in the
-- send queue, is one of a descriptor; an event has its place in the table; and there is a free
-- descriptor for the task that it creates.
-- `sent` is the send queue of the active task, `free` the queue of free descriptors.
unfoldable pub Fitting : Call → Queue → Queue → List ℕ → ℕ → Type 0
Fitting Call.send sent free events arg0 = arg0 % 256 < 64
Fitting Call.reply sent free events arg0 = arg0 % 256 < 64
Fitting Call.receive sent free events arg0 =
    (sender : ℕ) (q : Queue) → Queue.pop sent ≡ ok (sender, q) → sender % 256 < 64
Fitting Call.create sent free events arg0 = free.count ≢ 0
Fitting Call.await sent free events arg0 = arg0 < length events
Fitting Call.read sent free events arg0 = arg0 < length events
Fitting _ sent free events arg0 = Unit

abbrev pub Fits : Call → Kernel → ℕ → Type 0
Fits c k arg0 = Fitting c (current k).send_queue k.tasks.allocation_queue k.event_table arg0

clear_loop-Accounts :
    (n i a : ℕ) (q : PriorityQueue) (t : TaskTable)
    → i + n ≤ 64
    → Accounts a q t.descriptors t.allocation_queue
    → Accounts a q (clear_loop n i t).descriptors (clear_loop n i t).allocation_queue
unfolding clear_loop
clear_loop-Accounts zero i a q t room v = v
clear_loop-Accounts (suc n) i a q t room v = clear_loop-Accounts n (i + 1) a q _ (omega arith) (
    keep-Accounts v i
      (record (desc_at t i) { performance = set (set (desc_at t i).performance 0 0) 1 0 })
      (omega arith) refl refl refl)

module _ (k : Kernel) (v : Sound k) where
  same-Sound :
      (x : ℕ) {r : ℕ} {k' : Kernel}
      → ◌≡◌ {A = Outcome (ℕ × Kernel)} (done (x, k)) (done (r, k'))
      → Served k k'
  same-Sound x e = returns k e (v, refl)

  free-Sound : (arg0 : ℕ) {r : ℕ} {k' : Kernel} → sys_free k arg0 ≡ done (r, k') → Served k k'
  unfolding sys_free
  free-Sound arg0 e =
      let (m, _, e') = >>=-eq_done (Memory.free k.tasks.memory_allocator k.words arg0) _ e in
      returns k e' (v, refl)

  pub charge-Sound :
      (now : ℕ)
      → Sound (charge k now)
        × ((current (charge k now)).state ≡ (current k).state)
        × ((current (charge k now)).send_queue ≡ (current k).send_queue)
  unfolding charge
  charge-Sound now =
      let d = record (current k) {
        performance =
            set (current k).performance 1
              (add32 (get_or (current k).performance 1 0) (sample timer_4 now k.perf_state).delta);
      } in
      let seen = look-set k.tasks.descriptors k.active_task k.active_task d v.size v.active_in in
      (
        keep-Accounts v k.active_task d v.active_in refl refl refl,
        ground (arith, seen),
        ground (arith, seen),
      )

module _ (k : Kernel) (v : Sound k) (runs : is_state (current k).state TaskState.ready ≡ true) where
  await-Sound : (arg0 : ℕ) {r : ℕ} {k' : Kernel} → sys_await k arg0 ≡ done (r, k') → Served k k'
  unfolding sys_await
  await-Sound arg0 e = returns k e (block-Sound k TaskState.event_blocked v (alive k v runs), refl)

write-Sound :
    (k : Kernel) (arg0 : ℕ) {r : ℕ} {k' : Kernel}
    → Sound k
    → is_state (current k).state TaskState.ready ≡ true
    → sys_write k arg0 ≡ done (r, k')
    → Served k k'
unfolding sys_write
write-Sound k arg0 {r} {k'} v runs e = elim (Bool-cases (arg0 == 4)) [
  | inl is_terminal ↦
      await-Sound (record k { uart_2_control = interrupt_tx true k.uart_2_control }) v runs arg0
        {r = r} {k' = k'} (if-true (arg0 == 4) _ _ is_terminal e)
  | inr not_terminal ↦
      let e₁ = if-false (arg0 == 4) _ _ not_terminal e in
      elim (Bool-cases (arg0 == 6)) [
        | inl is_train ↦
            await-Sound (record k { uart_1_control = interrupt_tx true k.uart_1_control }) v runs
              arg0 {r = r} {k' = k'} (if-true (arg0 == 6) _ _ is_train e₁)
        | inr not_train ↦
            same-Sound k v (neg32 1) {r = r} {k' = k'} (if-false (arg0 == 6) _ _ not_train e₁)
      ]
]

module _ (b : Board) (k : Kernel) (arg0 arg1 arg2 now : ℕ) {r : ℕ} {k' : Kernel} (v : Sound k)
    (runs : is_state (current k).state TaskState.ready ≡ true) where
  -- Every call that returns keeps the accounts and the active task.
  pub serve-Sound :
      (c : Call) → Fits c k arg0 → serve b c k arg0 arg1 arg2 now ≡ done (r, k') → Served k k'
  unfolding serve Fitting sys_exit sys_shutdown sys_kill sys_perf_reset perf_clear sys_alloc
  serve-Sound Call.exit fits e =
      returns k e (block-Sound k TaskState.zombie v (alive k v runs), refl)
  serve-Sound Call.shutdown fits e = returns k e (v, refl)
  serve-Sound Call.kill fits e = returns k e (v, refl)
  serve-Sound Call.create fits e = create-Sound b k arg0 arg1 arg2 v fits e
  serve-Sound Call.send fits e = send-Sound k v runs arg0 arg1 fits e
  serve-Sound Call.receive fits e = receive-Sound k v runs arg0 arg1 fits e
  serve-Sound Call.reply fits e = reply-Sound k v runs arg0 arg1 fits e
  serve-Sound Call.perf_reset fits e =
      returns k e (clear_loop-Accounts 64 0 k.active_task k.queue k.tasks (omega arith) v, refl)
  serve-Sound Call.await fits e = await-Sound k v runs arg0 e
  serve-Sound Call.read fits e = await-Sound k v runs arg0 e
  serve-Sound Call.write fits e = write-Sound k arg0 v runs e
  serve-Sound Call.alloc fits e = returns k e (v, refl)
  serve-Sound Call.free fits e = free-Sound k v arg0 e
  serve-Sound Call.pass fits e = same-Sound k v _ e
  serve-Sound Call.running fits e = same-Sound k v _ e
  serve-Sound Call.name fits e = same-Sound k v _ e
  serve-Sound Call.tid fits e = same-Sound k v _ e
  serve-Sound Call.pid fits e = same-Sound k v _ e
  serve-Sound Call.priority fits e = same-Sound k v _ e
  serve-Sound Call.state fits e = same-Sound k v _ e
  serve-Sound Call.perf_query_p fits e = same-Sound k v _ e
  serve-Sound Call.perf_query_t fits e = same-Sound k v _ e
  serve-Sound Call.perf_query_pc fits e = same-Sound k v _ e
  serve-Sound Call.perf_query_lr fits e = same-Sound k v _ e
  serve-Sound Call.perf_query_sp fits e = same-Sound k v _ e
  serve-Sound Call.perf_query_sb fits e = same-Sound k v _ e
  serve-Sound Call.perf_query_si fits e = same-Sound k v _ e
  serve-Sound Call.perf_count fits e = same-Sound k v _ e
  serve-Sound Call.perf_stack fits e = same-Sound k v _ e
  serve-Sound Call.perf_send fits e = same-Sound k v _ e
  serve-Sound Call.unknown fits e = same-Sound k v _ e

-- If the accounts hold, the active task is ready, the call fits (the ids and the event that it is
-- given are in range, so is a queued sender that it receives from, and there is a free descriptor for
-- a task that it creates) and the handler returns, then the accounts hold again and the active task
-- is the same.
pub handler-Sound :
    (b : Board) (k : Kernel) (id arg0 arg1 arg2 now later : ℕ) {r : ℕ} {k' : Kernel}
    → Sound k
    → is_state (current k).state TaskState.ready ≡ true
    → Fits (decode id) k arg0
    → system_call_handler b k id arg0 arg1 arg2 now later ≡ done (r, k')
    → Sound k' × (k'.active_task ≡ k.active_task)
unfolding system_call_handler charge
handler-Sound b k id arg0 arg1 arg2 now later v runs fits e =
    let (v', same, sent) = charge-Sound k v now in
    let (v₂, active) =
      serve-Sound b (charge k now) arg0 arg1 arg2 later v'
        (ap (λ s. is_state s TaskState.ready) same ∙ runs) (decode id)
        (subst (λ q. Fitting (decode id) q k.tasks.allocation_queue k.event_table arg0) (sym sent)
          fits)
        e in
    (v₂, active)
