-- ===== src/Kernel/Run/Tests.antt =====
-- A kernel that starts, serves a call and schedules, and instances of the theorems.
use burrit_osprivate.Prelude.{
  ℕ, true, ap, ◌∙◌, get_or, length, ◌∷◌, ◌≡◌, refl, arith, replicate, [],
}
use burrit_osprivate.Prelude.Outcome.{Outcome, done, halt}
use burrit_osprivate.PriorityQueue.Run.{HasSizes}
use burrit_osprivate.Queue
use burrit_osprivate.Queue.{Queue}
use burrit_osprivate.PriorityQueue
use burrit_osprivate.Utils.{ctz}
use burrit_osprivate.Kernel.Memory
use burrit_osprivate.Kernel.TaskTable
use burrit_osprivate.Kernel.TaskTable.{TaskState, is_state, blank, value}
use burrit_osprivate.Kernel.Data.{Kernel, Board, current}
use burrit_osprivate.Kernel.SystemCall.{decode, serve, sys_create, charge, system_call_handler}
use burrit_osprivate.Kernel.Scheduler.{
  Next, enter, leave, scheduler, reschedule, switch_to, exit_scheduler,
}
use burrit_osprivate.Kernel.Event.{
  Inputs, Handled, clear_timer_1, event_handler, train_interrupt, timer_interrupt, byte_interrupt,
  terminal_write, tick,
}
use burrit_osprivate.Kernel.Event.Wake.{Standing, waiter}
use burrit_osprivate.Kernel.Event.Interrupts.{event_handler-Standing}
use burrit_osprivate.Kernel.Boot.{bootstrap}
use burrit_osprivate.Kernel.Boot.Accounts.{bootstrap-Sound}
use burrit_osprivate.Kernel.Invariant.{Sound}
use burrit_osprivate.Kernel.Invariant.Handler.{Fits, Fitting, handler-Sound}
use burrit_osprivate.Kernel.Invariant.Dispatch.{Scheduled}
use burrit_osprivate.Kernel.Invariant.Schedule.{scheduler-Scheduled}
use burrit_osprivate.Kernel.Run.{Rounds, no_waiter, bootstrap-Runs}

abbrev board : Board
board = record { task_exit = 0x1000; div_zero = λ a. 0 }

abbrev empty_queue : Queue
empty_queue = record { buf = replicate 64 0; head = 0; tail = 0; count = 0; length = 0 }

-- The data before the start.
abbrev raw : Kernel
raw = record {
  active_task = 0;
  queue = record {
    buf = replicate 512 0;
    head = replicate 32 0;
    tail = replicate 32 0;
    priority_bits = 0;
  };
  tasks = record {
    descriptors = replicate 64 blank;
    allocation_queue = empty_queue;
    memory_allocator = record { base_address = 0; block_queue = empty_queue };
  };
  event_table = [];
  perf_state = record { start = 0; last = 0; delta = 0; total = 0 };
  system_running = 0;
  cts = 0;
  words = λ a. 0;
  halves = λ a. 0;
  envelopes = λ a. record { type = 0; body = 0 };
  uart_1_control = 0;
  uart_2_control = 0;
}

abbrev sizes : HasSizes raw.queue
sizes = record { buf_size = refl; head_size = refl; tail_size = refl }

abbrev kernel_of : Outcome (ℕ × Kernel) → Kernel
kernel_of (done (x, k)) = k
kernel_of halt = raw

abbrev result_of : Outcome (ℕ × Kernel) → ℕ
result_of (done (x, k)) = x
result_of halt = 0

abbrev start : Outcome (ℕ × Kernel)
start = bootstrap board raw (replicate 64 0) 0 0x2000 0x3000

starts : start ≡ done (result_of start, kernel_of start)
unfolding bootstrap TaskTable.init Queue.init_u8 Queue.init Queue.push_u8 Queue.push Memory.init
    Queue.push_u16 TaskTable.alloc Queue.pop_u8 Queue.pop Memory.alloc
starts = refl

-- The idle task creates a task of priority 3 (SYS_CALL_CREATE_ID is 5).
abbrev create : Outcome (ℕ × Kernel)
create = system_call_handler board (kernel_of start) 5 3 0x4000 0x5000 100 120

creates : create ≡ done (result_of create, kernel_of create)
unfolding system_call_handler serve decode sys_create charge PriorityQueue.push bootstrap
    TaskTable.init Queue.init_u8 Queue.init Queue.push_u8 Queue.push Memory.init Queue.push_u16
    TaskTable.alloc Queue.pop_u8 Queue.pop Memory.alloc PriorityQueue.refuses PriorityQueue.init
creates = refl

abbrev stack_of : Outcome Next → ℕ
stack_of (done (enter sp k)) = sp
stack_of (done (leave k)) = 0
stack_of halt = 0

abbrev entered_of : Outcome Next → Kernel
entered_of (done (enter sp k)) = k
entered_of (done (leave k)) = k
entered_of halt = raw

abbrev schedule : Outcome Next
schedule = scheduler (kernel_of create) 0x01fff000 150

-- It is more urgent than the idle task, and is entered.
schedules : schedule ≡ done (enter (stack_of schedule) (entered_of schedule))
unfolding scheduler reschedule switch_to exit_scheduler PriorityQueue.push_pop system_call_handler
    serve decode sys_create charge PriorityQueue.push bootstrap TaskTable.init Queue.init_u8
    Queue.init Queue.push_u8 Queue.push Memory.init Queue.push_u16 TaskTable.alloc Queue.pop_u8
    Queue.pop Memory.alloc PriorityQueue.refuses PriorityQueue.init ctz PriorityQueue.append
    PriorityQueue.take_at
schedules = refl

entered_is_new : (entered_of schedule).active_task ≡ 1
unfolding scheduler reschedule switch_to exit_scheduler PriorityQueue.push_pop system_call_handler
    serve decode sys_create charge PriorityQueue.push bootstrap TaskTable.init Queue.init_u8
    Queue.init Queue.push_u8 Queue.push Memory.init Queue.push_u16 TaskTable.alloc Queue.pop_u8
    Queue.pop Memory.alloc PriorityQueue.refuses PriorityQueue.init ctz PriorityQueue.append
    PriorityQueue.take_at
entered_is_new = refl

free_count : (kernel_of start).tasks.allocation_queue.count ≡ 63
unfolding bootstrap TaskTable.init Queue.init_u8 Queue.init Queue.push_u8 Queue.push Memory.init
    Queue.push_u16 TaskTable.alloc Queue.pop_u8 Queue.pop Memory.alloc
free_count = refl

fits : Fits (decode 5) (kernel_of start) 3
unfolding Fitting decode
fits e = omega (arith, free_count, e)

booted :
    Sound (kernel_of start) × (is_state (current (kernel_of start)).state TaskState.ready ≡ true)
booted = bootstrap-Sound board raw (replicate 64 0) 0 0x2000 0x3000 refl (omega arith) sizes starts

handler-Sound_example :
    Sound (kernel_of create) × ((kernel_of create).active_task ≡ (kernel_of start).active_task)
handler-Sound_example =
    handler-Sound board (kernel_of start) 5 3 0x4000 0x5000 100 120 booted.0 booted.1 fits creates

created : Sound (kernel_of create)
created =
    (handler-Sound board (kernel_of start) 5 3 0x4000 0x5000 100 120 booted.0 booted.1 fits
      creates).0

scheduler-Scheduled_example : Scheduled (enter (stack_of schedule) (entered_of schedule))
scheduler-Scheduled_example =
    scheduler-Scheduled (kernel_of create) 0x01fff000 150 created schedules

one_round : Rounds board (kernel_of start) (entered_of schedule)
one_round =
    let k = kernel_of start in
    Rounds.round k.words k.halves k.envelopes 5 3 0x4000 0x5000 0x01fff000 100 120 150 Rounds.none
      fits creates schedules

-- Nothing waits for an event at the start.
events_clear : (kernel_of start).event_table ≡ replicate 7 0
unfolding bootstrap TaskTable.init Queue.init_u8 Queue.init Queue.push_u8 Queue.push Memory.init
    Queue.push_u16 TaskTable.alloc Queue.pop_u8 Queue.pop Memory.alloc
events_clear = refl

start_waiter : (event : ℕ) → waiter (kernel_of start) event ≡ 0
start_waiter event = ap (λ t. get_or t event 0) events_clear ∙ no_waiter 7 event

standing : Standing (kernel_of start)
standing = record {
  accounts = booted.0;
  runs = booted.1;
  events = ap length events_clear;
  waiting = λ event h. absurd (h (start_waiter event));
  apart = λ event other ne h h'. absurd (h (start_waiter event));
}

-- A tick of the 10 ms timer.
abbrev tick_input : Inputs
tick_input = record {
  status_1 = 0x10;
  status_2 = 0;
  uart_status = 0;
  flags = 0;
  byte_1 = 0;
  byte_2 = 0;
}

abbrev ticked : Outcome Handled
ticked = event_handler (kernel_of start) tick_input 200

abbrev after_tick : Outcome Handled → Kernel
after_tick (done (k, o)) = k
after_tick halt = raw

ticks : ticked ≡ done (after_tick ticked, clear_timer_1 ∷ [])
unfolding event_handler train_interrupt timer_interrupt tick byte_interrupt terminal_write charge
    bootstrap TaskTable.init Queue.init_u8 Queue.init Queue.push_u8 Queue.push Memory.init
    Queue.push_u16 TaskTable.alloc Queue.pop_u8 Queue.pop Memory.alloc
ticks = refl

event_handler-Standing_example : Standing (after_tick ticked)
event_handler-Standing_example =
    event_handler-Standing (kernel_of start) tick_input 200 standing ticks

-- The timer interrupts the new task, which then goes on.
abbrev interrupted : Outcome Handled
interrupted = event_handler (entered_of schedule) tick_input 200

interrupts : interrupted ≡ done (after_tick interrupted, clear_timer_1 ∷ [])
unfolding event_handler train_interrupt timer_interrupt tick byte_interrupt terminal_write charge
    scheduler reschedule switch_to exit_scheduler PriorityQueue.push_pop system_call_handler serve
    decode sys_create PriorityQueue.push bootstrap TaskTable.init Queue.init_u8 Queue.init
    Queue.push_u8 Queue.push Memory.init Queue.push_u16 TaskTable.alloc Queue.pop_u8 Queue.pop
    Memory.alloc PriorityQueue.refuses PriorityQueue.init ctz PriorityQueue.append
    PriorityQueue.take_at
interrupts = refl

abbrev resume : Outcome Next
resume = scheduler (after_tick interrupted) 0x01ffe000 250

resumes : resume ≡ done (enter (stack_of resume) (entered_of resume))
unfolding event_handler train_interrupt timer_interrupt tick byte_interrupt terminal_write charge
    scheduler reschedule switch_to exit_scheduler PriorityQueue.push_pop system_call_handler serve
    decode sys_create PriorityQueue.push bootstrap TaskTable.init Queue.init_u8 Queue.init
    Queue.push_u8 Queue.push Memory.init Queue.push_u16 TaskTable.alloc Queue.pop_u8 Queue.pop
    Memory.alloc PriorityQueue.refuses PriorityQueue.init ctz PriorityQueue.append
    PriorityQueue.take_at
resumes = refl

bootstrap-Runs_example : Standing (entered_of resume)
bootstrap-Runs_example =
    let k = entered_of schedule in
    bootstrap-Runs board raw (replicate 64 0) 0 0x2000 0x3000 refl (omega arith) sizes starts (
      Rounds.interrupt k.words k.halves k.envelopes tick_input 0x01ffe000 200 250 one_round
        interrupts resumes)
