-- ===== src/Kernel/Event/Interrupts.antt =====
-- `eventHandler` as a whole keeps the accounts.
use burrit_osprivate.Prelude.{
  ℕ, ◌%◌, ◌<◌, ◌≡◌, refl, ap, subst, Bool, true, false, List, ◌==◌, not, ◌&&◌, if◌then◌else◌,
  if-true, if-false, Bool-cases, inl, inr, arith, get_or, set,
}
use burrit_osprivate.Prelude.Word.{add32}
use burrit_osprivate.Prelude.Outcome.{done, >>=-eq_done, done-injective}
use burrit_osprivate.Hardware.Timer.{timer_4, sample}
use burrit_osprivate.Hardware.Uart.{interrupt_status, read_byte}
use burrit_osprivate.Kernel.TaskTable.{TaskState, is_state, get_descriptor}
use burrit_osprivate.Kernel.Data.{Kernel, current}
use burrit_osprivate.Kernel.SystemCall.{charge}
use burrit_osprivate.Kernel.Event.{
  wake, tick, send_train, send_terminal, clear_to_send, train_interrupt, timer_interrupt,
  byte_interrupt, train_write, terminal_write, clear_timer_1, clear_timer_2, event_handler, flagged,
  Inputs, Output, Handled,
}
use burrit_osprivate.Kernel.Event.Wake.{
  Standing, waiter, moved, wake-Standing, tick-Standing, receive_byte-Standing,
}
use burrit_osprivate.Kernel.Invariant.Update.{look-set}
use burrit_osprivate.Kernel.Invariant.Messages.{distinct}
use burrit_osprivate.Kernel.Invariant.Blocked.{keep-Accounts}

Stands : Handled → Type 0
Stands (k, o) = Standing k

send_terminal-Standing :
    (k : Kernel) {h : Handled} → Standing k → send_terminal k ≡ done h → Stands h
unfolding send_terminal get_descriptor Stands
send_terminal-Standing k {h} v e = elim (Bool-cases (waiter k 4 == 0)) [
  | inl z ↦ subst Stands (done-injective (if-true (waiter k 4 == 0) _ _ z e)) v
  | inr held ↦
      let e' = if-false (waiter k 4 == 0) _ _ held e in
      let (k', woken, done_with) = >>=-eq_done (wake k 4 (waiter k 4 % 256)) _ e' in
      subst Stands (done-injective done_with)
        (wake-Standing k 4 v (omega arith) (λ z. ground (arith, held, z)) woken)
]

send_train-Standing : (k : Kernel) {h : Handled} → Standing k → send_train k ≡ done h → Stands h
unfolding send_train get_descriptor Stands
send_train-Standing k {h} v e =
    let test = not (waiter k 6 == 0) && not (k.cts == 0) in
    elim (Bool-cases test) [
      | inl held ↦
          let e' = if-true test _ _ held e in
          let (k', woken, done_with) = >>=-eq_done (wake k 6 (waiter k 6 % 256)) _ e' in
          subst Stands (done-injective done_with)
            (moved (wake-Standing k 6 v (omega arith) (λ z. ground (arith, held, z)) woken))
      | inr z ↦ subst Stands (done-injective (if-false test _ _ z e)) v
    ]

byte_interrupt-Standing :
    (flag : Bool) (k : Kernel) (event byte : ℕ) {k' : Kernel}
    → Standing k
    → event < 7
    → byte_interrupt flag k event byte ≡ done k'
    → Standing k'
unfolding byte_interrupt
byte_interrupt-Standing true k event byte v small e =
    receive_byte-Standing k event (read_byte byte) v small e
byte_interrupt-Standing false k event byte v small e = subst Standing (done-injective e) v

timer_interrupt-Standing :
    (flag : Bool) (k : Kernel) (event : ℕ) (clear : Output) {h : Handled}
    → Standing k
    → event < 7
    → timer_interrupt flag k event clear ≡ done h
    → Stands h
unfolding timer_interrupt Stands
timer_interrupt-Standing true k event clear v small e =
    let (k', ticked, e') = >>=-eq_done (tick k event) _ e in
    subst Stands (done-injective e') (tick-Standing k event v small ticked)
timer_interrupt-Standing false k event clear v small e = subst Stands (done-injective e) v

train_write-Standing :
    (flag : Bool) (k : Kernel) {h : Handled} → Standing k → train_write flag k ≡ done h → Stands h
unfolding train_write Stands
train_write-Standing true k v e =
    let ((k', o), sent, e') = >>=-eq_done (send_train k) _ e in
    subst Stands (done-injective e') (moved (send_train-Standing k v sent))
train_write-Standing false k v e = subst Stands (done-injective e) v

terminal_write-Standing :
    (flag : Bool) (k : Kernel) {h : Handled}
    → Standing k
    → terminal_write flag k ≡ done h
    → Stands h
unfolding terminal_write Stands
terminal_write-Standing true k v e =
    let ((k', o), sent, e') = >>=-eq_done (send_terminal k) _ e in
    subst Stands (done-injective e') (moved (send_terminal-Standing k v sent))
terminal_write-Standing false k v e = subst Stands (done-injective e) v

clear_to_send-Standing :
    (flag : Bool) (k : Kernel) (i : Inputs)
    → Standing k
    → Standing (if flag then clear_to_send k i else k)
unfolding clear_to_send
clear_to_send-Standing true k i v = moved v
clear_to_send-Standing false k i v = v

train_interrupt-Standing :
    (flag : Bool) (k : Kernel) (i : Inputs) {h : Handled}
    → Standing k
    → train_interrupt flag k i ≡ done h
    → Stands h
unfolding train_interrupt Stands
train_interrupt-Standing true k i v e =
    let status = interrupt_status i.uart_status in
    let k₁ = if flagged status 1 then clear_to_send k i else k in
    let ((k₂, sent), e₂, e') = >>=-eq_done (train_write (flagged status 4) k₁) _ e in
    let v₂ =
      train_write-Standing (flagged status 4) k₁ (clear_to_send-Standing (flagged status 1) k i v)
        e₂ in
    let (k₃, e₃, e'') = >>=-eq_done (byte_interrupt (flagged status 2) k₂ 5 i.byte_1) _ e' in
    subst Stands (done-injective e'')
      (byte_interrupt-Standing (flagged status 2) k₂ 5 i.byte_1 v₂ (omega arith) e₃)
train_interrupt-Standing false k i v e = subst Stands (done-injective e) v

charge-Standing : (k : Kernel) (now : ℕ) → Standing k → Standing (charge k now)
unfolding charge is_state
charge-Standing k now v =
    let d = record (current k) {
      performance =
          set (current k).performance 1
            (add32 (get_or (current k).performance 1 0) (sample timer_4 now k.perf_state).delta);
    } in
    let a = v.accounts in
    let seen = λ (j : ℕ). look-set k.tasks.descriptors k.active_task j d a.size a.active_in in
    record {
      accounts = keep-Accounts a k.active_task d a.active_in refl refl refl;
      runs = ground (arith, seen k.active_task, v.runs);
      events = v.events;
      waiting = λ e h.
          let (lt, blocked) = v.waiting e h in
          (
            lt,
            ground (
              arith,
              seen (waiter k e % 256),
              distinct k v.runs (waiter k e % 256) TaskState.event_blocked blocked refl,
              blocked,
            ),
          );
      apart = v.apart;
    }

-- If the accounts hold, the active task is ready and different blocked tasks stand in the table of
-- events, and the interrupt handler returns, then all of this holds again.
pub event_handler-Standing :
    (k : Kernel) (i : Inputs) (now : ℕ) {k' : Kernel} {o : List Output}
    → Standing k
    → event_handler k i now ≡ done (k', o)
    → Standing k'
unfolding event_handler Stands
event_handler-Standing k i now v e =
    let ((k₁, o₁), e₁, f₁) =
      >>=-eq_done (train_interrupt (flagged i.status_2 0x00100000) (charge k now) i) _ e in
    let v₁ = train_interrupt-Standing _ _ i (charge-Standing k now v) e₁ in
    let ((k₂, o₂), e₂, f₂) =
      >>=-eq_done (timer_interrupt (flagged i.status_1 0x10) k₁ 1 clear_timer_1) _ f₁ in
    let v₂ = timer_interrupt-Standing _ k₁ 1 clear_timer_1 v₁ (omega arith) e₂ in
    let ((k₃, o₃), e₃, f₃) =
      >>=-eq_done (timer_interrupt (flagged i.status_1 0x20) k₂ 2 clear_timer_2) _ f₂ in
    let v₃ = timer_interrupt-Standing _ k₂ 2 clear_timer_2 v₂ (omega arith) e₃ in
    let (k₄, e₄, f₄) =
      >>=-eq_done (byte_interrupt (flagged i.status_1 0x02000000) k₃ 3 i.byte_2) _ f₃ in
    let v₄ = byte_interrupt-Standing _ k₃ 3 i.byte_2 v₃ (omega arith) e₄ in
    let ((k₅, o₅), e₅, f₅) = >>=-eq_done (terminal_write (flagged i.status_1 0x04000000) k₄) _ f₄ in
    let v₅ = terminal_write-Standing _ k₄ v₄ e₅ in
    subst Standing (ap (λ (k, o). k) (done-injective f₅)) v₅
