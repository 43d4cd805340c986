-- ===== src/Kernel/Run/Calls.antt =====
-- What `systemCallHandler` does to the tasks that wait for events.
use burrit_osprivate.Prelude.{
  ℕ, ◌%◌, ◌≡◌, refl, ap, subst, true, false, Bool-cases, inl, inr, arith, set,
}
use burrit_osprivate.Prelude.Word.{to_u8}
use burrit_osprivate.Prelude.Result.{Result-cases}
use burrit_osprivate.Prelude.Outcome.{
  Outcome, done, assert_ok, >>=-eq_done, assert->>, done-injective,
}
use burrit_osprivate.Queue
use burrit_osprivate.PriorityQueue
use burrit_osprivate.Kernel.TaskTable.{TaskState, is_state, value, get_descriptor}
use burrit_osprivate.Kernel.Data.{Kernel, desc, current, set_state}
use burrit_osprivate.Kernel.SystemCall.{
  enqueue, deliver, join_queue, sys_send, take_message, sys_receive, sys_reply,
}
use burrit_osprivate.Kernel.Invariant.{look}
use burrit_osprivate.Kernel.Invariant.Messages.{is_state-excl}
use burrit_osprivate.Kernel.Run.Waiters.{Off, Off-Keeps, same-Keeps, set-Off, same-Off, Kept}

pub gives :
    (k : Kernel) {k₁ k' : Kernel} {x r : ℕ}
    → ◌≡◌ {A = Outcome (ℕ × Kernel)} (done (x, k₁)) (done (r, k'))
    → Kept k k₁
    → Kept k k'
gives k e = subst (Kept k) (ap (λ (r, k'). k') (done-injective e))

pub stays : (k : Kernel) → Kept k k
stays k = (refl, λ i b. b)

enqueue-Kept : (k : Kernel) (i : ℕ) {k' : Kernel} → enqueue k i ≡ done k' → Kept k k'
unfolding enqueue
enqueue-Kept k i e =
    let (q, _, e') =
      >>=-eq_done
        (assert_ok (PriorityQueue.push k.queue (to_u8 (desc k i).priority) (value (desc k i).tid)))
        _ e in
    subst (Kept k) (done-injective e') (stays k)

-- A task in another state does not wait for an event.
Off-in :
    (k : Kernel) (i : ℕ) (s : TaskState)
    → is_state (desc k i).state s ≡ true
    → is_state s TaskState.event_blocked ≡ false
    → Off k.tasks.descriptors i
Off-in k i s = is_state-excl (desc k i).state s TaskState.event_blocked

module _ (k : Kernel) (runs : is_state (current k).state TaskState.ready ≡ true) where
  pub active-Off : Off k.tasks.descriptors k.active_task
  unfolding is_state
  active-Off = Off-in k k.active_task TaskState.ready runs refl

  pub block-Kept : (s : TaskState) → Kept k (set_state k k.active_task s)
  block-Kept s = (
    refl,
    Off-Keeps k.tasks.descriptors k.active_task (record (current k) { state = s }) active-Off,
  )

  deliver-Kept :
      (i msg : ℕ) {r : ℕ} {k' : Kernel}
      → is_state (desc k i).state TaskState.send_blocked ≡ true
      → deliver k i msg ≡ done (r, k')
      → Kept k k'
  unfolding deliver is_state
  deliver-Kept i msg waits e =
      let d = record (current k) { state = TaskState.reply_blocked } in
      let ds = set k.tasks.descriptors k.active_task d in
      let off : Off ds i =
        set-Off k.tasks.descriptors k.active_task d i refl
          (Off-in k i TaskState.send_blocked waits refl) in
      let (k'', e₁, e₂) = >>=-eq_done (enqueue _ i) _ e in
      let (table, queued) = enqueue-Kept _ i e₁ in
      gives k e₂ (
        table,
        λ j b. queued j (
            Off-Keeps ds i (record (look ds i) { state = TaskState.ready }) off j
              ((block-Kept TaskState.reply_blocked).1 j b)),
      )

  join_queue-Kept : (i : ℕ) {r : ℕ} {k' : Kernel} → join_queue k i ≡ done (r, k') → Kept k k'
  unfolding join_queue
  join_queue-Kept i e =
      let (q, _, e₂) =
        >>=-eq_done (assert_ok (Queue.push_u16 (desc k i).send_queue (value (current k).tid))) _
          e in
      let d = record (desc k i) { send_queue = q } in
      let ds = set k.tasks.descriptors i d in
      let off = same-Off k.tasks.descriptors i d k.active_task refl active-Off in
      gives k e₂ (
        refl,
        λ j b.
            Off-Keeps ds k.active_task
              (record (look ds k.active_task) { state = TaskState.receive_blocked }) off j
              (same-Keeps k.tasks.descriptors i d refl j b),
      )

  pub send-Kept :
      (arg0 arg1 : ℕ) {r : ℕ} {k' : Kernel} → sys_send k arg0 arg1 ≡ done (r, k') → Kept k k'
  unfolding sys_send get_descriptor
  send-Kept arg0 arg1 {r} {k'} e =
      let i = arg0 % 256 in
      elim (Bool-cases (is_state (desc k i).state TaskState.send_blocked)) [
        | inl waits ↦ deliver-Kept i arg1 {r = r} {k' = k'} waits (ground (arith, e, waits))
        | inr other ↦ join_queue-Kept i {r = r} {k' = k'} (ground (arith, e, other))
      ]

  take_message-Kept :
      (q : Queue.Queue) (sender arg0 arg1 : ℕ) {r : ℕ} {k' : Kernel}
      → take_message k q sender arg0 arg1 ≡ done (r, k')
      → Kept k k'
  unfolding take_message get_descriptor is_state
  take_message-Kept q sender arg0 arg1 e =
      let i = sender % 256 in
      let d = record (current k) { send_queue = q } in
      let ds = set k.tasks.descriptors k.active_task d in
      let (waits, e') = assert->> (is_state (look ds i).state TaskState.receive_blocked) _ e in
      let off : Off ds i =
        is_state-excl (look ds i).state TaskState.receive_blocked TaskState.event_blocked waits
          refl in
      let d₂ = record (look ds i) { state = TaskState.reply_blocked } in
      let ds₂ = set ds i d₂ in
      let off₂ : Off ds₂ k.active_task =
        set-Off ds i d₂ k.active_task refl
          (same-Off k.tasks.descriptors k.active_task d k.active_task refl active-Off) in
      gives k e' (
        refl,
        λ j b.
            Off-Keeps ds₂ k.active_task
              (record (look ds₂ k.active_task) { state = TaskState.ready }) off₂ j
              (Off-Keeps ds i d₂ off j (same-Keeps k.tasks.descriptors k.active_task d refl j b)),
      )

  pub receive-Kept :
      (arg0 arg1 : ℕ) {r : ℕ} {k' : Kernel} → sys_receive k arg0 arg1 ≡ done (r, k') → Kept k k'
  unfolding sys_receive
  receive-Kept arg0 arg1 {r} {k'} e = elim (Result-cases (Queue.pop (current k).send_queue)) [
    | inl popped ↦
        take_message-Kept popped.0.1 popped.0.0 arg0 arg1 {r = r} {k' = k'}
          (ground (arith, e, popped.1))
    | inr empty ↦
        let out : ℕ × Kernel = (0, set_state k k.active_task TaskState.send_blocked) in
        let e' : done out ≡ done (r, k') = ground (arith, e, empty.1) in
        gives k e' (block-Kept TaskState.send_blocked)
  ]

  pub reply-Kept :
      (arg0 arg1 : ℕ) {r : ℕ} {k' : Kernel} → sys_reply k arg0 arg1 ≡ done (r, k') → Kept k k'
  unfolding sys_reply get_descriptor is_state
  reply-Kept arg0 arg1 e =
      let i = arg0 % 256 in
      let (waits, e') = assert->> (is_state (desc k i).state TaskState.reply_blocked) _ e in
      let (k'', e₁, e₂) = >>=-eq_done (enqueue _ i) _ e' in
      let (table, queued) = enqueue-Kept _ i e₁ in
      let off = Off-in k i TaskState.reply_blocked waits refl in
      gives k e₂ (
        table,
        λ j b. queued j (
            Off-Keeps k.tasks.descriptors i (record (desc k i) { state = TaskState.ready }) off j
              b),
      )
