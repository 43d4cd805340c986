-- ===== src/Kernel/Event.antt =====
-- kernel/event.h and kernel/event.c: interrupts, and the tasks that wait for them.
--
-- What the handler reads from the devices is its argument, and what it writes to them is a list,
-- in order; the control registers of the UARTs, in which it sets the bit for interrupts, are part
-- of the kernel's state.
pub mod Wake
pub mod Interrupts
use Prim.Native.Nat.{bit_and}
use burrit_osprivate.Prelude.{
  ℕ, Bool, false, not, ◌&&◌, List, [], ◌∷◌, ◌++◌, ◌==◌, if◌then◌else◌, get_or, set,
}
use burrit_osprivate.Prelude.Word.{to_u8}
use burrit_osprivate.Prelude.Outcome.{Outcome, done, ◌>>=◌}
use burrit_osprivate.Hardware.Uart.{interrupt_tx, interrupt_status, read_byte}
use burrit_osprivate.Hardware.Uart
use burrit_osprivate.Kernel.Memory.{store}
use burrit_osprivate.Kernel.TaskTable.{TaskState, val_to_id, get_descriptor}
use burrit_osprivate.Kernel.Data.{Kernel, desc, set_state, task_return, task_arg_1}
use burrit_osprivate.Kernel.SystemCall.{charge, enqueue}

-- What the registers show: the status of the two interrupt controllers, the interrupt status and
-- the flags of UART 1, and the bytes that the two UARTs have received.
pub record Inputs : Type 0 where
  pub status_1 : ℕ
  pub status_2 : ℕ
  pub uart_status : ℕ
  pub flags : ℕ
  pub byte_1 : ℕ
  pub byte_2 : ℕ

pub data Output : Type 0 where
  write_uart_1 write_uart_2 : ℕ → Output
  clear_timer_1 clear_timer_2 : Output

abbrev pub Handled : Type 0
Handled = Kernel × List Output

-- `register & mask`, as a condition.
abbrev pub flagged : ℕ → ℕ → Bool
flagged register mask = not (bit_and register mask == 0)

-- The index of the task of id `tid` (`taskGetDescriptor`).
abbrev pub task_of : ℕ → ℕ
unfolding get_descriptor
task_of tid = get_descriptor (val_to_id tid)

-- The task of index `i` becomes ready and joins the ready queue; nothing waits for the event then.
unfoldable pub wake : Kernel → ℕ → ℕ → Outcome Kernel
wake k event i = do
  k' ← enqueue (set_state k i TaskState.ready) i
  done (record k' { event_table = set k'.event_table event 0 })

-- EVENT_10MS_TICK (1) and EVENT_150MS_TICK (2).
unfoldable pub tick : Kernel → ℕ → Outcome Kernel
tick k event =
    let tid = get_or k.event_table event 0 in
    if tid == 0 then done k else wake k event (task_of tid)

-- EVENT_TERMINAL_READ (3) and EVENT_TRAIN_READ (5): the task gets the byte.
unfoldable pub receive_byte : Kernel → ℕ → ℕ → Outcome Kernel
receive_byte k event byte =
    let tid = get_or k.event_table event 0 in
    let i = task_of tid in
    if tid == 0
    then done k
    else wake (record k { words = store k.words (task_return (desc k i)) byte }) event i

-- UART_1 and EVENT_TRAIN_WRITE (6): the byte of a task that waits is sent if the line is clear.
unfoldable pub send_train : Kernel → Outcome Handled
send_train k =
    let tid = get_or k.event_table 6 0 in
    let i = task_of tid in
    if not (tid == 0) && not (k.cts == 0)
    then (wake k 6 i >>= λ k'.
        done (record k' { cts = 0 }, write_uart_1 (to_u8 (k'.words (task_arg_1 (desc k' i)))) ∷ []))
    else done (k, [])

-- UART_2 and EVENT_TERMINAL_WRITE (4).
unfoldable pub send_terminal : Kernel → Outcome Handled
send_terminal k =
    let tid = get_or k.event_table 4 0 in
    let i = task_of tid in
    if tid == 0
    then done (k, [])
    else wake k 4 i >>= λ k'.
        done (k', write_uart_2 (to_u8 (k'.words (task_arg_1 (desc k' i)))) ∷ [])

-- The modem status has changed; CTS_MASK is 1.
unfoldable pub clear_to_send : Kernel → Inputs → Kernel
clear_to_send k i =
    let cts = Uart.clear_to_send i.flags in
    record k { cts = cts; uart_1_control = interrupt_tx (not (cts == 0)) k.uart_1_control }

-- A byte has been received, if `flag` holds.
unfoldable pub byte_interrupt : Bool → Kernel → ℕ → ℕ → Outcome Kernel
byte_interrupt flag k event byte = if flag then receive_byte k event (read_byte byte) else done k

-- UART 1 can send, if `flag` holds.
unfoldable pub train_write : Bool → Kernel → Outcome Handled
train_write flag k =
    if flag
    then (send_train k >>= λ (k', o).
        done (record k' { uart_1_control = interrupt_tx false k'.uart_1_control }, o))
    else done (k, [])

-- UART 2 can send, if `flag` holds.
unfoldable pub terminal_write : Bool → Kernel → Outcome Handled
terminal_write flag k =
    if flag
    then (send_terminal k >>= λ (k', o).
        done (record k' { uart_2_control = interrupt_tx false k'.uart_2_control }, o))
    else done (k, [])

-- A timer has run out, if `flag` holds.
unfoldable pub timer_interrupt : Bool → Kernel → ℕ → Output → Outcome Handled
timer_interrupt flag k event clear =
    if flag then (tick k event >>= λ k'. done (k', clear ∷ [])) else done (k, [])

-- The interrupt of UART 1, if `flag` holds.
unfoldable pub train_interrupt : Bool → Kernel → Inputs → Outcome Handled
train_interrupt flag k i =
    let status = interrupt_status i.uart_status in
    let k₁ = if flagged status 1 then clear_to_send k i else k in
    if flag
    then (train_write (flagged status 4) k₁ >>= λ (k₂, sent).
        byte_interrupt (flagged status 2) k₂ 5 i.byte_1 >>= λ k₃. done (k₃, sent))
    else done (k, [])

-- `now` is what the debug timer reads.
unfoldable pub event_handler : Kernel → Inputs → ℕ → Outcome Handled
event_handler k i now = do
  (k₁, o₁) ← train_interrupt (flagged i.status_2 0x00100000) (charge k now) i
  (k₂, o₂) ← timer_interrupt (flagged i.status_1 0x10) k₁ 1 clear_timer_1
  (k₃, o₃) ← timer_interrupt (flagged i.status_1 0x20) k₂ 2 clear_timer_2
  k₄ ← byte_interrupt (flagged i.status_1 0x02000000) k₃ 3 i.byte_2
  (k₅, o₅) ← terminal_write (flagged i.status_1 0x04000000) k₄
  done (k₅, o₁ ++ o₂ ++ o₃ ++ o₅)
