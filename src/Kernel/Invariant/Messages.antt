-- ===== src/Kernel/Invariant/Messages.antt =====
-- The system calls for messages keep the accounts.
use burrit_osprivate.Prelude.{
  ℕ, ◌%◌, ◌<◌, ◌≡◌, ◌≢◌, refl, ap, ◌∙◌, subst, true, false, arith, Bool-cases, inl, inr,
}
use burrit_osprivate.Prelude.Result.{Result-cases, ok}
use burrit_osprivate.Prelude.Outcome.{
  Outcome, Outcome, done, assert_ok, >>=-eq_done, assert->>, done-injective,
}
use burrit_osprivate.Queue
use burrit_osprivate.Kernel.TaskTable.{TaskState, is_state, value, get_descriptor}
use burrit_osprivate.Kernel.Memory.{store}
use burrit_osprivate.Kernel.Data.{
  Kernel, desc, current, put_desc, set_state, task_return, task_arg_0, task_arg_1, task_arg_2,
  message_copy,
}
use burrit_osprivate.Kernel.SystemCall.{
  enqueue, deliver, join_queue, sys_send, take_message, sys_receive, sys_reply,
}
use burrit_osprivate.Kernel.Invariant.{Sound}
use burrit_osprivate.Kernel.Invariant.Update.{look-set}
use burrit_osprivate.Kernel.Invariant.Blocked.{
  keep-Accounts, active-Accounts, blocked-Accounts, enqueue-Sound,
}

-- A task of one state is of no other.
pub is_state-excl :
    (s t u : TaskState) → is_state s t ≡ true → is_state t u ≡ false → is_state s u ≡ false
unfolding is_state
is_state-excl s t u h ne = ground arith

abbrev pub Served : Kernel → Kernel → Type 0
Served k k' = Sound k' × (k'.active_task ≡ k.active_task)

pub returns :
    (k : Kernel) {k₁ k' : Kernel} {x r : ℕ}
    → ◌≡◌ {A = Outcome (ℕ × Kernel)} (done (x, k₁)) (done (r, k'))
    → Served k k₁
    → Served k k'
returns k e = subst (Served k) (ap (λ (r, k'). k') (done-injective e))

-- The active task, which runs, changes its state.
pub block-Sound :
    (k : Kernel) (s : TaskState)
    → Sound k
    → is_state (current k).state TaskState.zombie ≡ false
    → Sound (set_state k k.active_task s)
block-Sound k s v z =
    active-Accounts v k.active_task (record (current k) { state = s }) v.active_in refl refl
      (v.priorities k.active_task v.active_in z)

-- A task that is in a state other than `ready` is not the active one.
pub distinct :
    (k : Kernel)
    → is_state (current k).state TaskState.ready ≡ true
    → (i : ℕ) (s : TaskState) → is_state (desc k i).state s ≡ true
    → is_state s TaskState.ready ≡ false
    → i ≢ k.active_task
distinct k runs i s waits other eq =
    ground (arith, runs, is_state-excl _ s TaskState.ready waits other, ap (desc k) eq)

module _ (k : Kernel) (v : Sound k) (runs : is_state (current k).state TaskState.ready ≡ true) where
  pub alive : is_state (current k).state TaskState.zombie ≡ false
  unfolding is_state
  alive = is_state-excl _ TaskState.ready TaskState.zombie runs refl

  deliver-Sound :
      (i msg : ℕ) {r : ℕ} {k' : Kernel}
      → i < 64
      → is_state (desc k i).state TaskState.send_blocked ≡ true
      → deliver k i msg ≡ done (r, k')
      → Served k k'
  unfolding deliver is_state
  deliver-Sound i msg lt waits e =
      let told = record k {
        envelopes = (message_copy k (k.words (task_arg_1 (desc k i))) msg).envelopes;
        halves = store k.halves (k.words (task_arg_0 (desc k i))) (value (current k).tid);
        words = store k.words (task_return (desc k i)) 0;
      } in
      let blocked = set_state told k.active_task TaskState.reply_blocked in
      let other = distinct k runs i TaskState.send_blocked waits refl in
      let seen =
        look-set k.tasks.descriptors k.active_task i
          (record (current k) { state = TaskState.reply_blocked }) v.size v.active_in in
      let there : desc blocked i ≡ desc k i = ground (arith, seen, other) in
      let (k'', e₁, e₂) = >>=-eq_done (enqueue (set_state blocked i TaskState.ready) i) _ e in
      let (v', same) =
        enqueue-Sound blocked i (block-Sound told TaskState.reply_blocked v alive) lt other
          (ap (λ d. is_state d.state TaskState.ready) there
            ∙ is_state-excl _ TaskState.send_blocked TaskState.ready waits refl)
          (ap (λ d. is_state d.state TaskState.zombie) there
            ∙ is_state-excl _ TaskState.send_blocked TaskState.zombie waits refl)
          e₁ in
      returns k e₂ (v', same)

  join_queue-Sound :
      (i : ℕ) {r : ℕ} {k' : Kernel} → i < 64 → join_queue k i ≡ done (r, k') → Served k k'
  unfolding join_queue
  join_queue-Sound i lt e =
      let (q, e₁, e₂) =
        >>=-eq_done (assert_ok (Queue.push_u16 (desc k i).send_queue (value (current k).tid))) _
          e in
      let d = record (desc k i) { send_queue = q } in
      let joined = put_desc k i d in
      let kept : Sound joined = keep-Accounts v i d lt refl refl refl in
      let seen = look-set k.tasks.descriptors i k.active_task d v.size lt in
      let live : is_state (current joined).state TaskState.zombie ≡ false =
        ground (arith, seen, alive) in
      returns k e₂ (block-Sound joined TaskState.receive_blocked kept live, refl)

  pub send-Sound :
      (arg0 arg1 : ℕ) {r : ℕ} {k' : Kernel}
      → arg0 % 256 < 64
      → sys_send k arg0 arg1 ≡ done (r, k')
      → Served k k'
  unfolding sys_send get_descriptor
  send-Sound arg0 arg1 {r} {k'} lt e =
      let i = arg0 % 256 in
      elim (Bool-cases (is_state (desc k i).state TaskState.send_blocked)) [
        | inl waits ↦ deliver-Sound i arg1 {r = r} {k' = k'} lt waits (ground (arith, e, waits))
        | inr other ↦ join_queue-Sound i {r = r} {k' = k'} lt (ground (arith, e, other))
      ]

  take_message-Sound :
      (q : Queue.Queue) (sender arg0 arg1 : ℕ) {r : ℕ} {k' : Kernel}
      → sender % 256 < 64
      → take_message k q sender arg0 arg1 ≡ done (r, k')
      → Served k k'
  unfolding take_message get_descriptor is_state
  take_message-Sound q sender arg0 arg1 lt e =
      let i = sender % 256 in
      let popped = put_desc k k.active_task (record (current k) { send_queue = q }) in
      let told = record popped { halves = store k.halves arg0 sender } in
      let copied = message_copy told arg1 (told.words (task_arg_1 (desc told i))) in
      let kept : Sound copied =
        keep-Accounts v k.active_task (record (current k) { send_queue = q }) v.active_in refl refl
          refl in
      let (waits, e') = assert->> (is_state (desc copied i).state TaskState.receive_blocked) _ e in
      let self =
        look-set k.tasks.descriptors k.active_task k.active_task
          (record (current k) { send_queue = q }) v.size v.active_in in
      let runs' : is_state (current copied).state TaskState.ready ≡ true =
        ground (arith, self, runs) in
      let other = distinct copied runs' i TaskState.receive_blocked waits refl in
      let k₂ = set_state copied i TaskState.reply_blocked in
      let v₂ : Sound k₂ =
        blocked-Accounts kept i (record (desc copied i) { state = TaskState.reply_blocked }) lt refl
          refl refl refl (is_state-excl _ TaskState.receive_blocked TaskState.ready waits refl)
          (is_state-excl _ TaskState.receive_blocked TaskState.zombie waits refl) in
      let seen =
        look-set copied.tasks.descriptors i k.active_task
          (record (desc copied i) { state = TaskState.reply_blocked }) kept.size lt in
      let live : is_state (current k₂).state TaskState.zombie ≡ false =
        ground (arith, seen, other, is_state-excl _ TaskState.ready TaskState.zombie runs' refl) in
      returns k e' (block-Sound k₂ TaskState.ready v₂ live, refl)

  pub receive-Sound :
      (arg0 arg1 : ℕ) {r : ℕ} {k' : Kernel}
      → ((sender : ℕ) (q : Queue.Queue)
          → Queue.pop (current k).send_queue ≡ ok (sender, q)
          → sender % 256 < 64)
      → sys_receive k arg0 arg1 ≡ done (r, k')
      → Served k k'
  unfolding sys_receive
  receive-Sound arg0 arg1 {r} {k'} known e =
      elim (Result-cases (Queue.pop (current k).send_queue)) [
        | inl popped ↦
            take_message-Sound popped.0.1 popped.0.0 arg0 arg1 {r = r} {k' = k'}
              (known _ _ popped.1) (ground (arith, e, popped.1))
        | inr empty ↦
            let out : ℕ × Kernel = (0, set_state k k.active_task TaskState.send_blocked) in
            let e' : done out ≡ done (r, k') = ground (arith, e, empty.1) in
            returns k e' (block-Sound k TaskState.send_blocked v alive, refl)
      ]

  pub reply-Sound :
      (arg0 arg1 : ℕ) {r : ℕ} {k' : Kernel}
      → arg0 % 256 < 64
      → sys_reply k arg0 arg1 ≡ done (r, k')
      → Served k k'
  unfolding sys_reply get_descriptor is_state
  reply-Sound arg0 arg1 lt e =
      let i = arg0 % 256 in
      let told = record (message_copy k (k.words (task_arg_2 (desc k i))) arg1) {
        words = store k.words (task_return (desc k i)) 0;
      } in
      let (waits, e') = assert->> (is_state (desc told i).state TaskState.reply_blocked) _ e in
      let (k'', e₁, e₂) = >>=-eq_done (enqueue (set_state told i TaskState.ready) i) _ e' in
      returns k e₂ (
        enqueue-Sound told i v lt (distinct k runs i TaskState.reply_blocked waits refl)
          (is_state-excl _ TaskState.reply_blocked TaskState.ready waits refl)
          (is_state-excl _ TaskState.reply_blocked TaskState.zombie waits refl) e₁)
