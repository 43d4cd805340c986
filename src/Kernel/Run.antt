-- ===== src/Kernel/Run.antt =====
-- Rounds of the kernel: a task runs until it makes a system call, which systemCallHandler serves, or
-- until an interrupt, which eventHandler serves, and the scheduler enters a task.
mod Waiters
mod Calls
mod Handler
mod Scheduler
mod Tests
use burrit_osprivate.Prelude.{
  ℕ, zero, suc, ◌≡◌, ◌≤◌, refl, sym, ap, ◌∙◌, subst, true, List, length, get_or, replicate,
}
use burrit_osprivate.Prelude.Outcome.{done, >>=-eq_done, done-injective}
use burrit_osprivate.PriorityQueue.Run.{HasSizes}
use burrit_osprivate.Kernel.Memory.{Words}
use burrit_osprivate.Kernel.TaskTable.{TaskState, is_state}
use burrit_osprivate.Kernel.Data.{Kernel, Board, MessageEnvelope, current}
use burrit_osprivate.Kernel.SystemCall.{decode, system_call_handler}
use burrit_osprivate.Kernel.Scheduler.{enter, scheduler}
use burrit_osprivate.Kernel.TaskTable
use burrit_osprivate.Kernel.Boot.{kernel_data_init, bootstrap}
use burrit_osprivate.Kernel.Event.{Inputs, Output, event_handler}
use burrit_osprivate.Kernel.Event.Wake.{Standing}
use burrit_osprivate.Kernel.Event.Interrupts.{event_handler-Standing}
use burrit_osprivate.Kernel.Run.Waiters.{Events, Watched, Kept-Watched}
use burrit_osprivate.Kernel.Run.Handler.{handler-Watched}
use burrit_osprivate.Kernel.Run.Scheduler.{scheduler-KeptIn}
use burrit_osprivate.Kernel.Boot.Accounts.{bootstrap-Sound}
use burrit_osprivate.Kernel.Invariant.{Sound}
use burrit_osprivate.Kernel.Invariant.Handler.{Fits, handler-Sound}
use burrit_osprivate.Kernel.Invariant.Dispatch.{Scheduled, Entered}
use burrit_osprivate.Kernel.Invariant.Schedule.{scheduler-Scheduled}

-- While it runs, a task may write any memory.
abbrev pub written : Kernel → Words → (ℕ → ℕ) → (ℕ → MessageEnvelope) → Kernel
written k w h m = record k { words = w; halves = h; envelopes = m }

-- `Rounds b k k'`: some rounds lead from `k` to `k'`. In a round the task has written memory, it
-- calls `id` with three arguments or is interrupted while the devices show `i`, and it stops at the
-- stack pointer `sp`; `t₁`, `t₂` and `t₃` are the times that are read.
pub data Rounds (b : Board) (k : Kernel) : Kernel → Type 0 where
  none : Rounds b k k
  round :
      {k₁ k₂ k₃ : Kernel} (w : Words) (h : ℕ → ℕ) (m : ℕ → MessageEnvelope)
      (id arg0 arg1 arg2 sp t₁ t₂ t₃ : ℕ) {r sp' : ℕ}
      → Rounds b k k₁
      → Fits (decode id) k₁ arg0
      → system_call_handler b (written k₁ w h m) id arg0 arg1 arg2 t₁ t₂ ≡ done (r, k₂)
      → scheduler k₂ sp t₃ ≡ done (enter sp' k₃)
      → Rounds b k k₃
  interrupt :
      {k₁ k₂ k₃ : Kernel} (w : Words) (h : ℕ → ℕ) (m : ℕ → MessageEnvelope) (i : Inputs)
      (sp t₁ t₃ : ℕ) {o : List Output} {sp' : ℕ}
      → Rounds b k k₁
      → event_handler (written k₁ w h m) i t₁ ≡ done (k₂, o)
      → scheduler k₂ sp t₃ ≡ done (enter sp' k₃)
      → Rounds b k k₃

stand :
    {k : Kernel}
    → Sound k
    → is_state (current k).state TaskState.ready ≡ true
    → Watched k
    → Standing k
stand v runs w = record {
  accounts = v;
  runs = runs;
  events = w.events;
  waiting = w.waiting;
  apart = w.apart;
}

watched : {k : Kernel} → Standing k → Watched k
watched v = record { events = v.events; waiting = v.waiting; apart = v.apart }

-- The scheduler enters a task of a kernel in which the accounts hold.
entered-Standing :
    (k : Kernel) (sp t : ℕ) {sp' : ℕ} {k' : Kernel}
    → Sound k
    → Watched k
    → scheduler k sp t ≡ done (enter sp' k')
    → Standing k'
unfolding Scheduled
entered-Standing k sp t {sp'} {k'} v w entered =
    let s : Entered sp' k' = scheduler-Scheduled k sp t v entered in
    stand s.accounts s.is_ready (Kept-Watched k k' w (scheduler-KeptIn k sp t v entered))

Rounds-Standing : {b : Board} {k k' : Kernel} → Standing k → Rounds b k k' → Standing k'
Rounds-Standing v Rounds.none = v
Rounds-Standing {b} v
      (Rounds.round {k₁} {k₂} {k₃} w h m id arg0 arg1 arg2 sp t₁ t₂ t₃ before fits served entered) =
    let s = Rounds-Standing v before in
    let k₀ = written k₁ w h m in
    let (sound, _) = handler-Sound b k₀ id arg0 arg1 arg2 t₁ t₂ s.accounts s.runs fits served in
    entered-Standing k₂ sp t₃ sound
      (handler-Watched b k₀ id arg0 arg1 arg2 t₁ t₂ s.accounts s.runs (watched s) fits served)
      entered
Rounds-Standing v (Rounds.interrupt {k₁} {k₂} {k₃} w h m i sp t₁ t₃ before served entered) =
    let s = Rounds-Standing v before in
    let s' =
      event_handler-Standing (written k₁ w h m) i t₁ (stand s.accounts s.runs (watched s)) served in
    entered-Standing k₂ sp t₃ s'.accounts (watched s') entered

-- A table without entries names nobody.
pub no_waiter : (n event : ℕ) → get_or {A = ℕ} (replicate n 0) event 0 ≡ 0
no_waiter zero event = refl
no_waiter (suc n) zero = refl
no_waiter (suc n) (suc event) = no_waiter n event

-- Nothing waits for an event when the kernel starts.
bootstrap-Watched :
    (b : Board) (k : Kernel) (queue_data : List ℕ) (cts idle_task name : ℕ) {sp : ℕ} {k' : Kernel}
    → bootstrap b k queue_data cts idle_task name ≡ done (sp, k')
    → Watched k'
unfolding bootstrap kernel_data_init
bootstrap-Watched b k queue_data cts idle_task name {sp} {k'} e =
    let (k₁, made, e₁) = >>=-eq_done (kernel_data_init k queue_data cts) _ e in
    let (tasks, _, e₂) = >>=-eq_done (TaskTable.init k.tasks queue_data) _ made in
    let ((r, t, w), _, e₃) =
      >>=-eq_done (TaskTable.alloc k₁.tasks k₁.words 31 idle_task b.task_exit 0 name) _ e₁ in
    let table : k'.event_table ≡ replicate 7 0 =
      sym (ap (λ (x, k). k.event_table) (done-injective e₃))
      ∙ sym (ap (λ (k : Kernel). k.event_table) (done-injective e₂)) in
    subst (λ l. Events l k'.tasks.descriptors) (sym table)
      (record {
        events = refl;
        waiting = λ event h. absurd (h (no_waiter 7 event));
        apart = λ event other ne h h'. absurd (h (no_waiter 7 event));
      })

-- From a `bootstrap` that returns, over a table of 64 descriptors and arrays of the declared sizes,
-- after any number of rounds, of system calls that fit and of interrupts, the accounts hold, the active task is ready, and different tasks that wait for an event stand in the table of
-- events.
pub bootstrap-Runs :
    (b : Board) (k : Kernel) (queue_data : List ℕ) (cts idle_task name : ℕ) {sp : ℕ}
    {k₁ k₂ : Kernel}
    → length k.tasks.descriptors ≡ 64
    → 64 ≤ length k.tasks.allocation_queue.buf
    → HasSizes k.queue
    → bootstrap b k queue_data cts idle_task name ≡ done (sp, k₁)
    → Rounds b k₁ k₂
    → Standing k₂
bootstrap-Runs b k queue_data cts idle_task name size room sizes booted rounds =
    let (v, runs) = bootstrap-Sound b k queue_data cts idle_task name size room sizes booted in
    Rounds-Standing (stand v runs (bootstrap-Watched b k queue_data cts idle_task name booted))
      rounds
